-- ===== src/Controller/Names/Marker.antt =====
-- Where the ownership marker "[k8s:" can stand in a name.
use tsidp_operator.Prelude.{
  ℕ, ◌≡◌, ◌≢◌, refl, ap, ◌∙◌, Bool, true, false, ◌&&◌, ◌||◌, [], ◌∷◌, ◌++◌, All, ◌==◌, nat_eq, leb,
  take, arith, zero, suc, append_assoc,
}
use tsidp_operator.Text.{Text, runes}
use tsidp_operator.Text.Find.{has_substring, has_substring-prefix}

abbrev pub marker : Text
marker = runes "[k8s:"

-- The runes of a Kubernetes name, namespace or UID: lower case letters, digits, `-` and `.`.
abbrev pub is_plain : ℕ → Bool
is_plain c = (leb 0x61 c && leb c 0x7a) || (leb 0x30 c && leb c 0x39) || c == 0x2d || c == 0x2e

abbrev pub Plain : Text → Type 0
Plain s = All (λ c. is_plain c ≡ true) s

abbrev pub Lacks : ℕ → Text → Type 0
Lacks d s = All (λ c. c ≢ d) s

pub Lacks-append : (d : ℕ) (s t : Text) → Lacks d s → Lacks d t → Lacks d (s ++ t)
Lacks-append d [] t h k = k
Lacks-append d (c ∷ s) t h k = (h.0, Lacks-append d s t h.1 k)

pub Lacks-Plain : (d : ℕ) (s : Text) → is_plain d ≡ false → Plain s → Lacks d s
Lacks-Plain d [] e h = tt
Lacks-Plain d (c ∷ s) e h = (λ p. cc (ap is_plain p, e, h.0), Lacks-Plain d s e h.1)

pub Plain-take : (n : ℕ) (s : Text) → Plain s → Plain (take n s)
Plain-take zero s h = tt
Plain-take (suc n) [] h = tt
Plain-take (suc n) (c ∷ s) h = (h.0, Plain-take n s h.1)

pub not-middle : (d : ℕ) (t p q : Text) → Lacks d t → t ≢ p ++ (d ∷ q)
not-middle d [] [] q h e = cc
not-middle d [] (c ∷ p) q h e = cc
not-middle d (b ∷ t) [] q h e = h.0 (cc)
not-middle d (b ∷ t) (c ∷ p) q h e = not-middle d t p q h.1 (cc)

-- Two texts that are cut at the first rune of a kind have equal parts.
pub cut_first :
    (d : ℕ) (a b x y : Text)
    → Lacks d a
    → Lacks d b
    → a ++ (d ∷ x) ≡ b ++ (d ∷ y)
    → (a ≡ b) × (x ≡ y)
cut_first d [] [] x y h k e = (refl, cc)
cut_first d [] (c ∷ b) x y h k e = absurd (k.0 (cc))
cut_first d (c ∷ a) [] x y h k e = absurd (h.0 (cc))
cut_first d (c ∷ a) (c' ∷ b) x y h k e = let (p, q) = cut_first d a b x y h.1 k.1 (cc) in (cc, q)

-- A text that begins with the marker, and has no bracket behind it, holds it nowhere else.
marker_at_start : (r p s : Text) → Lacks 0x5b r → marker ++ r ≡ p ++ (marker ++ s) → r ≡ s
marker_at_start r [] s h e = cc
marker_at_start r (c ∷ p) s h e =
    absurd (not-middle 0x5b (runes "k8s:" ++ r) p (runes "k8s:" ++ s) (ground arith) (cc))

-- The marker cannot straddle the space behind a text that does not hold it.
not-straddle : (d r s : Text) → has_substring d marker ≡ false → d ++ (0x20 ∷ r) ≢ marker ++ s
not-straddle [] r s h e = ground arith
not-straddle (v ∷ []) r s h e = ground arith
not-straddle (v ∷ w ∷ []) r s h e = ground arith
not-straddle (v ∷ w ∷ x ∷ []) r s h e = ground arith
not-straddle (v ∷ w ∷ x ∷ y ∷ []) r s h e = ground arith
not-straddle (v ∷ w ∷ x ∷ y ∷ z ∷ d) r s h e = cc (has_substring-prefix marker d)

has_substring-tail :
    (c : ℕ) (d p : Text) → has_substring (c ∷ d) p ≡ false → has_substring d p ≡ false
unfolding has_substring
has_substring-tail c d p h = ground arith

-- Behind a text that does not hold the marker, a space, and the marker once: that is the only place.
pub marker_unique :
    (d r p s : Text)
    → has_substring d marker ≡ false
    → Lacks 0x5b r
    → d ++ (0x20 ∷ (marker ++ r)) ≡ p ++ (marker ++ s)
    → r ≡ s
marker_unique [] r [] s h k e = absurd (ground arith)
marker_unique [] r (c ∷ p) s h k e = marker_at_start r p s k (cc)
marker_unique (b ∷ d) r [] s h k e = absurd (not-straddle (b ∷ d) _ s h e)
marker_unique (b ∷ d) r (c ∷ p) s h k e =
    marker_unique d r p s (has_substring-tail b d marker h) k (cc)

-- A namespace, a name and a UID, as a fingerprint holds them behind the marker.
abbrev pub parts : Text → Text → Text → Text
parts ns n u = ns ++ (0x2f ∷ (n ++ (0x2f ∷ (u ++ (0x5d ∷ [])))))

pub Lacks-parts : (ns n u : Text) → Plain ns → Plain n → Plain u → Lacks 0x5b (parts ns n u)
Lacks-parts ns n u p q r = Lacks-append 0x5b ns _ (Lacks-Plain 0x5b ns (ground arith) p) (
  omega arith,
  Lacks-append 0x5b n _ (Lacks-Plain 0x5b n (ground arith) q)
      (omega arith, Lacks-append 0x5b u _ (Lacks-Plain 0x5b u (ground arith) r) (omega arith, tt)),
)

parts-append :
    (ns n u rest : Text)
    → parts ns n u ++ rest ≡ ns ++ (0x2f ∷ (n ++ (0x2f ∷ (u ++ (0x5d ∷ rest)))))
parts-append ns n u rest = simp append_assoc

-- Equal parts, up to a rest, are equal one by one.
pub parts-injective :
    (ns n u ns' n' u' rest : Text)
    → Plain ns
    → Plain n
    → Plain u
    → Plain ns'
    → Plain n'
    → Plain u'
    → parts ns n u ≡ parts ns' n' u' ++ rest
    → (ns ≡ ns') × (n ≡ n') × (u ≡ u')
parts-injective ns n u ns' n' u' rest p q r p' q' r' e =
    let bare = λ (t : Text) (h : Plain t). Lacks-Plain 0x2f t (ground arith) h in
    let (same_ns, e₁) =
      cut_first 0x2f ns ns' _ _ (bare ns p) (bare ns' p') (e ∙ parts-append ns' n' u' rest) in
    let (same_n, e₂) = cut_first 0x2f n n' _ _ (bare n q) (bare n' q') e₁ in
    let (same_u, _) =
      cut_first 0x5d u u' [] rest (Lacks-Plain 0x5d u (ground arith) r)
        (Lacks-Plain 0x5d u' (ground arith) r') e₂ in
    (same_ns, same_n, same_u)
