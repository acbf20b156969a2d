-- ===== src/Text/Order.antt =====
-- `slices.Sort` on strings. Go compares bytes; for UTF-8 that is the order of the runes.
use mathlib.Core.Logic.{∥∥₁_elim}
use mathlib.Core.List.{Perm, Permᴰ, List-discrete}
use mathlib.Core.List.Perm
use mathlib.Core.HLevel.{hedberg}
use native.Mathlib.Nat.{ℕ_set}
use tsidp_operator.Prelude.{
  ◌≡◌, refl, sym, ap, ◌∙◌, ◌↔◌, Bool, true, false, List, [], ◌∷◌, if◌then◌else◌, arith, suc, length,
  ◌==◌, nat_eq, ltb, subst, inl, inr, Bool-cases,
}
use tsidp_operator.Text.{Text, text_eq}

-- `s <= t`
pub le_text : Text → Text → Bool
le_text [] t = true
le_text (c ∷ s) [] = false
le_text (c ∷ s) (d ∷ t) =
    let rest = le_text s t in if ltb c d then true else if ltb d c then false else rest

le_text_total : (s t : Text) → le_text s t ≡ false → le_text t s ≡ true
unfolding le_text
le_text_total [] t h = cc
le_text_total (c ∷ s) [] h = refl
le_text_total (c ∷ s) (d ∷ t) h = ground (arith, le_text_total s t)

le_text_antisym : (s t : Text) → le_text s t ≡ true → le_text t s ≡ true → s ≡ t
unfolding le_text
le_text_antisym [] [] h k = refl
le_text_antisym [] (d ∷ t) h k = cc
le_text_antisym (c ∷ s) [] h k = cc
le_text_antisym (c ∷ s) (d ∷ t) h k = ground (arith, le_text_antisym s t)

le_text_trans : (s t u : Text) → le_text s t ≡ true → le_text t u ≡ true → le_text s u ≡ true
unfolding le_text
le_text_trans [] t u h k = refl
le_text_trans (c ∷ s) [] u h k = cc
le_text_trans (c ∷ s) (d ∷ t) [] h k = cc
le_text_trans (c ∷ s) (d ∷ t) (e ∷ u) h k = ground (arith, le_text_trans s t u)

insert : Text → List Text → List Text
insert s [] = s ∷ []
insert s (t ∷ ts) = let rest = insert s ts in if le_text s t then s ∷ t ∷ ts else t ∷ rest

-- `slices.Sort`
unfoldable pub sort : List Text → List Text
unfolding insert le_text
sort [] = []
sort (s ∷ ts) = insert s (sort ts)

-- `slices.Equal`
unfoldable pub slices_equal : List Text → List Text → Bool
slices_equal [] [] = true
slices_equal [] (t ∷ ts) = false
slices_equal (s ∷ ss) [] = false
slices_equal (s ∷ ss) (t ∷ ts) = let rest = slices_equal ss ts in if s == t then rest else false

pub slices_equal_sound : (ss ts : List Text) → slices_equal ss ts ≡ true → ss ≡ ts
unfolding slices_equal
slices_equal_sound [] [] h = refl
slices_equal_sound [] (t ∷ ts) h = cc
slices_equal_sound (s ∷ ss) [] h = cc
slices_equal_sound (s ∷ ss) (t ∷ ts) h = ground (arith, slices_equal_sound ss ts)

pub slices_equal_refl : (ss : List Text) → slices_equal ss ss ≡ true
unfolding slices_equal
slices_equal_refl [] = refl
slices_equal_refl (s ∷ ss) = ground (arith, slices_equal_refl ss)

insert-perm : (s : Text) (ts : List Text) → Perm (insert s ts) (s ∷ ts)
unfolding insert
insert-perm s [] = Perm.refl (s ∷ [])
insert-perm s (t ∷ ts) = elim (Bool-cases (le_text s t)) [
  | inl e ↦ rw e (Perm.refl (s ∷ t ∷ ts))
  | inr e ↦ rw e (Perm.trans (Perm.cons t (insert-perm s ts)) (Perm.swap s t ts))
]

pub sort-perm : (ts : List Text) → Perm (sort ts) ts
unfolding sort
sort-perm [] = Perm.refl []
sort-perm (t ∷ ts) = Perm.trans (insert-perm t (sort ts)) (Perm.cons t (sort-perm ts))

insert_comm : (s t : Text) (ts : List Text) → insert s (insert t ts) ≡ insert t (insert s ts)
unfolding insert
insert_comm s t [] = ground (arith, le_text_total s t, le_text_antisym s t)
insert_comm s t (u ∷ ts) = ground (
  arith,
  insert_comm s t ts,
  le_text_total s t,
  le_text_total t s,
  le_text_antisym s t,
  le_text_total s u,
  le_text_total t u,
  le_text_trans s t u,
  le_text_trans t s u,
)

sort-Permᴰ : {ss ts : List Text} → Permᴰ ss ts → sort ss ≡ sort ts
unfolding sort
sort-Permᴰ Permᴰ.nil = refl
sort-Permᴰ (Permᴰ.cons e p) = cc (e, sort-Permᴰ p)
sort-Permᴰ (Permᴰ.swap {a} {b} {l = l} e f) = cc (e, f, insert_comm a b (sort l))
sort-Permᴰ (Permᴰ.trans p q) = sort-Permᴰ p ∙ sort-Permᴰ q

Texts-set : IsSet (List Text)
Texts-set = hedberg (List-discrete text_eq.dec)

-- Lists that are permutations of one another sort to the same list.
pub sort-eq_of_perm : {ss ts : List Text} → Perm ss ts → sort ss ≡ sort ts
sort-eq_of_perm p = ∥∥₁_elim p (Texts-set _ _) sort-Permᴰ

pub perm_of_sort_eq : (ss ts : List Text) → sort ss ≡ sort ts → Perm ss ts
perm_of_sort_eq ss ts e =
    Perm.trans (Perm.symm (sort-perm ss)) (subst (λ l. Perm l ts) (sym e) (sort-perm ts))

length-Permᴰ : {ss ts : List Text} → Permᴰ ss ts → length ss ≡ length ts
length-Permᴰ Permᴰ.nil = refl
length-Permᴰ (Permᴰ.cons e p) = ap suc (length-Permᴰ p)
length-Permᴰ (Permᴰ.swap e f) = refl
length-Permᴰ (Permᴰ.trans p q) = length-Permᴰ p ∙ length-Permᴰ q

pub length-eq_of_perm : {ss ts : List Text} → Perm ss ts → length ss ≡ length ts
length-eq_of_perm p = ∥∥₁_elim p (ℕ_set _ _) length-Permᴰ

-- The multiset equality test that `internal/tsidp` and `internal/controller` each declare: same
-- length, then equal after sorting.
abbrev pub equal_sorted : List Text → List Text → Bool
equal_sorted a b = if length a == length b then slices_equal (sort a) (sort b) else false

pub equal_sorted_iff : (a b : List Text) → (equal_sorted a b ≡ true) ↔ Perm a b
equal_sorted_iff a b = (
  λ h. perm_of_sort_eq a b (slices_equal_sound _ _ (ground arith)),
  λ p. ground (
    arith,
    length-eq_of_perm p,
    subst (λ l. slices_equal (sort a) l ≡ true) (sort-eq_of_perm p) (slices_equal_refl (sort a)),
  ),
)
