-- ===== src/Text/Find.antt =====
-- Prefixes, suffixes and substrings.
use tsidp_operator.Prelude.{
  ◌≡◌, refl, ap, Bool, true, false, Option, none, some, [], ◌∷◌, ◌++◌, nat_eq, ◌==◌, Bool-cases,
  if◌then◌else◌, inl, inr, arith,
}
use tsidp_operator.Text.{Text, is_empty, text_eq}

-- `strings.CutPrefix`
unfoldable pub cut_prefix : Text → Text → Option Text
cut_prefix s [] = some s
cut_prefix [] (d ∷ p) = none
cut_prefix (c ∷ s) (d ∷ p) = if c == d then cut_prefix s p else none

-- `strings.HasPrefix`
unfoldable pub has_prefix : Text → Text → Bool
unfolding cut_prefix
has_prefix s p = elim (cut_prefix s p) [ none ↦ false | some r ↦ true ]

-- `strings.TrimPrefix`
unfoldable pub trim_prefix : Text → Text → Text
unfolding cut_prefix
trim_prefix s p = elim (cut_prefix s p) [ none ↦ s | some r ↦ r ]

-- `strings.TrimSuffix`
unfoldable pub trim_suffix : Text → Text → Text
trim_suffix [] p = []
trim_suffix (c ∷ s) p = let rest = trim_suffix s p in if (c ∷ s) == p then [] else c ∷ rest

-- `strings.Contains`
unfoldable pub has_substring : Text → Text → Bool
unfolding has_prefix
has_substring [] p = is_empty p
has_substring (c ∷ s) p =
    let rest = has_substring s p in if has_prefix (c ∷ s) p then true else rest

pub cut_prefix-append : (p r : Text) → cut_prefix (p ++ r) p ≡ some r
unfolding cut_prefix
cut_prefix-append [] r = refl
cut_prefix-append (c ∷ p) r = ground (arith, cut_prefix-append p r)

cut_prefix_sound : (s p : Text) {r : Text} → cut_prefix s p ≡ some r → s ≡ p ++ r
unfolding cut_prefix
cut_prefix_sound s [] h = ground arith
cut_prefix_sound [] (d ∷ p) h = cc
cut_prefix_sound (c ∷ s) (d ∷ p) {r} h = ground (arith, cut_prefix_sound s p {r = r})

pub has_prefix-append : (p r : Text) → has_prefix (p ++ r) p ≡ true
unfolding has_prefix
has_prefix-append p r = ground (arith, cut_prefix-append p r)

pub trim_prefix-append : (p r : Text) → trim_prefix (p ++ r) p ≡ r
unfolding trim_prefix
trim_prefix-append p r = ground (arith, cut_prefix-append p r)

pub has_prefix_sound : (s p : Text) → has_prefix s p ≡ true → (r : Text) × (s ≡ p ++ r)
unfolding has_prefix
has_prefix_sound s p h = go (cut_prefix s p) refl h
  where
    go :
        (o : Option Text)
        → cut_prefix s p ≡ o
        → elim o [ none ↦ false | some r ↦ true ] ≡ true
        → (r : Text) × (s ≡ p ++ r)
    go none e h = cc
    go (some r) e h = (r, cut_prefix_sound s p e)

pub has_substring-prefix : (p r : Text) → has_substring (p ++ r) p ≡ true
unfolding has_substring
has_substring-prefix [] [] = refl
has_substring-prefix [] (c ∷ r) = refl
has_substring-prefix (c ∷ p) r = ground (arith, has_prefix-append (c ∷ p) r)

-- A text contains each of its middle parts.
pub has_substring-append : (a p r : Text) → has_substring (a ++ (p ++ r)) p ≡ true
unfolding has_substring
has_substring-append [] p r = has_substring-prefix p r
has_substring-append (c ∷ a) p r = ground (arith, has_substring-append a p r)

-- Where a text contains another, it is a middle part.
pub has_substring_sound :
    (s p : Text) → has_substring s p ≡ true → (a : Text) × (r : Text) × (s ≡ a ++ (p ++ r))
unfolding has_substring
has_substring_sound [] [] h = ([], [], refl)
has_substring_sound [] (d ∷ p) h = cc
has_substring_sound (c ∷ s) p h = elim (Bool-cases (has_prefix (c ∷ s) p)) [
  | inl e ↦ let (r, q) = has_prefix_sound (c ∷ s) p e in ([], r, q)
  | inr e ↦ let (a, r, q) = has_substring_sound s p (ground arith) in (c ∷ a, r, ap (λ t. c ∷ t) q)
]
