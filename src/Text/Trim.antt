-- ===== src/Text/Trim.antt =====
-- `strings.TrimSpace`.
use tsidp_operator.Prelude.{
  ℕ, ◌≡◌, refl, ap, ◌∙◌, false, ◌&&◌, Bool-cases, inl, inr, [], ◌∷◌, ◌++◌, All, if◌then◌else◌,
  arith,
}
use tsidp_operator.Text.{Text, is_empty, is_space}

trim_left : Text → Text
trim_left [] = []
trim_left (c ∷ s) = let rest = trim_left s in if is_space c then rest else c ∷ s

trim_right : Text → Text
trim_right [] = []
trim_right (c ∷ s) = let rest = trim_right s in if is_space c && is_empty rest then [] else c ∷ rest

unfoldable pub trim_space : Text → Text
unfolding trim_left trim_right is_space
trim_space s = trim_right (trim_left s)

-- No rune of the text is white space.
abbrev pub NoSpace : Text → Type 0
NoSpace s = All (λ c. is_space c ≡ false) s

trim_right-NoSpace : (s : Text) → NoSpace s → trim_right s ≡ s
unfolding trim_right
trim_right-NoSpace [] h = refl
trim_right-NoSpace (c ∷ s) h = ground (arith, trim_right-NoSpace s h.1)

pub trim_space-NoSpace : (s : Text) → NoSpace s → trim_space s ≡ s
trim_space-NoSpace [] h = unfold trim_space in refl
trim_space-NoSpace (c ∷ s) h = unfold trim_space in ground (arith, trim_right-NoSpace (c ∷ s) h)

trim_right_idem : (s : Text) → trim_right (trim_right s) ≡ trim_right s
unfolding trim_right
trim_right_idem [] = refl
trim_right_idem (c ∷ s) = ground (arith, trim_right_idem s)

trim_left-trim_right : (s : Text) → trim_left (trim_right (trim_left s)) ≡ trim_right (trim_left s)
unfolding trim_left trim_right
trim_left-trim_right [] = refl
trim_left-trim_right (c ∷ s) = ground (arith, trim_left-trim_right s)

pub trim_space_idem : (s : Text) → trim_space (trim_space s) ≡ trim_space s
unfolding trim_space
trim_space_idem s = rw trim_left-trim_right (trim_right_idem (trim_left s))

-- A text that begins and ends with a rune that is no space is left alone.
trim_right-append :
    (s t : Text) → trim_right t ≡ t → is_empty t ≡ false → trim_right (s ++ t) ≡ s ++ t
unfolding trim_right
trim_right-append [] t h n = h
trim_right-append (c ∷ []) [] h n = cc
trim_right-append (c ∷ []) (d ∷ t) h n = ground arith
trim_right-append (c ∷ e ∷ s) t h n = ground (arith, trim_right-append (e ∷ s) t h n)

pub trim_space-ends :
    (c d : ℕ) (s : Text)
    → is_space c ≡ false
    → is_space d ≡ false
    → trim_space (c ∷ (s ++ (d ∷ []))) ≡ c ∷ (s ++ (d ∷ []))
unfolding trim_space
trim_space-ends c d s hc hd = ground (arith, trim_right-append (c ∷ s) (d ∷ []))

-- A trimmed text is empty or begins with a rune that is no space.
pub trim_space-head : (s : Text) {c : ℕ} {t : Text} → trim_space s ≡ c ∷ t → is_space c ≡ false
unfolding trim_space
trim_space-head [] e = cc
trim_space-head (d ∷ s) {c} {t} e =
    ground (arith, λ (p : trim_right (trim_left s) ≡ c ∷ t). trim_space-head s {c = c} {t = t} p)

trim_left-split : (s : Text) → (l : Text) × (s ≡ l ++ trim_left s)
unfolding trim_left
trim_left-split [] = ([], refl)
trim_left-split (c ∷ s) = elim (Bool-cases (is_space c)) [
  | inl e ↦ let (l, p) = trim_left-split s in (c ∷ l, rw e (ap (λ t. c ∷ t) p))
  | inr e ↦ ([], rw e)
]

trim_right-split : (s : Text) → (r : Text) × (s ≡ trim_right s ++ r)
unfolding trim_right
trim_right-split [] = ([], refl)
trim_right-split (c ∷ s) = elim (Bool-cases (is_space c && is_empty (trim_right s))) [
  | inl e ↦ (c ∷ s, rw e)
  | inr e ↦ let (r, p) = trim_right-split s in (r, rw e (ap (λ t. c ∷ t) p))
]

-- The trimmed text is a middle part of the text.
pub trim_space-middle : (s : Text) → (l : Text) × (r : Text) × (s ≡ l ++ (trim_space s ++ r))
unfolding trim_space
trim_space-middle s =
    let (l, p) = trim_left-split s in
    let (r, q) = trim_right-split (trim_left s) in (l, r, p ∙ ap (λ t. l ++ t) q)
