-- ===== src/Api/Copies/Isolation.antt =====
-- What a deep copy is: it reads as the original, stands on new addresses only, and leaves the old
-- memory alone.
use tsidp_operator.Prelude.{
  ℕ, ◌≤◌, ◌<◌, ◌≡◌, ◌≢◌, refl, sym, ap, subst, ◌∙◌, List, [], ◌∷◌, ◌++◌, Option, none, some,
  string_eq, nat_eq, All, arith,
}
use tsidp_operator.Api.Copies.{Ref, Cell, Heap, write, alloc, copy_behind, copy_each, deep_copy}

pub All-map :
    {A : Type 0} {P Q : A → Type 0} (xs : List A) → ((x : A) → P x → Q x) → All P xs → All Q xs
All-map [] f t = t
All-map (x ∷ xs) f (p, ps) = (f x p, All-map xs f ps)

pub All-++ : {A : Type 0} (P : A → Type 0) (xs ys : List A) → All P xs → All P ys → All P (xs ++ ys)
All-++ P [] ys t q = q
All-++ P (x ∷ xs) ys (p, ps) q = (p, All-++ P xs ys ps q)

pub All-left : {A : Type 0} (P : A → Type 0) (xs ys : List A) → All P (xs ++ ys) → All P xs
All-left P [] ys q = tt
All-left P (x ∷ xs) ys (p, q) = (p, All-left P xs ys q)

pub All-right : {A : Type 0} (P : A → Type 0) (xs ys : List A) → All P (xs ++ ys) → All P ys
All-right P [] ys q = q
All-right P (x ∷ xs) ys (p, q) = All-right P xs ys q

-- What a value stands for in a memory, and the addresses that it is read from.
pub record Shape (O A : Type 0) : Type 1 where
  pub View : Type 0
  pub read : Heap O → A → View
  pub reach : Heap O → A → List ℕ
  pub local :
      (h h' : Heap O) (x : A)
      → All (λ a. h'.cell a ≡ h.cell a) (reach h x)
      → (read h' x ≡ read h x) × (reach h' x ≡ reach h x)

-- What stood at the addresses that were in use is as it was.
pub record Extends {O : Type 0} (h h' : Heap O) : Type 0 where
  pub grown : h.next ≤ h'.next
  pub kept : (a : ℕ) → a < h.next → h'.cell a ≡ h.cell a

abbrev pub IsPlaced : {O A : Type 0} → Shape O A → Heap O → A → Type 0
IsPlaced S h x = All (λ a. a < h.next) (S.reach h x)

pub record Copied {O A : Type 0} (S : Shape O A) (h : Heap O) (x : A) (y : A × Heap O)
    : Type 0 where
  pub extends : Extends h y.1
  pub same : S.read y.1 y.0 ≡ S.read h x
  pub fresh : All (λ a. h.next ≤ a) (S.reach y.1 y.0)
  pub placed : IsPlaced S y.1 y.0

-- A function copies, whatever it is given that stands in the memory.
abbrev pub Copies : {O A : Type 0} → Shape O A → (A → Heap O → A × Heap O) → Type 0
Copies {O} {A} S f = (h : Heap O) (x : A) → IsPlaced S h x → Copied S h x (f x h)

Extends-refl : {O : Type 0} (h : Heap O) → Extends h h
Extends-refl h = record { grown = ground arith; kept = λ a l. refl }

Extends-trans : {O : Type 0} {h₁ h₂ h₃ : Heap O} → Extends h₁ h₂ → Extends h₂ h₃ → Extends h₁ h₃
Extends-trans e f = record {
  grown = let a = e.grown in let b = f.grown in ground arith;
  kept = λ a l. let g = e.grown in f.kept a (ground arith) ∙ e.kept a l;
}

alloc-Extends : {O : Type 0} (c : Cell O) (h : Heap O) → Extends h (alloc c h)
unfolding nat_eq
alloc-Extends c h = record { grown = ground arith; kept = λ a l. ground arith }

write_same : {O : Type 0} (a : ℕ) (c : Cell O) (h : Heap O) → (write a c h).cell a ≡ c
unfolding nat_eq
write_same a c h = ground arith

-- What stands in a memory reads the same after it has grown, and stands there still.
module _ {O A : Type 0} (S : Shape O A) {h h' : Heap O} (e : Extends h h') (x : A)
    (p : IsPlaced S h x) where
  stays : (S.read h' x ≡ S.read h x) × (S.reach h' x ≡ S.reach h x)
  stays = S.local h h' x (All-map (S.reach h x) e.kept p)

  stays-IsPlaced : IsPlaced S h' x
  stays-IsPlaced =
      subst (All (λ a. a < h'.next)) (sym stays.1)
        (All-map (S.reach h x) (λ a l. let g = e.grown in ground arith) p)

-- A value without references.
abbrev pub plain_shape : {O A V : Type 0} → (A → V) → Shape O A
plain_shape {V} f = record {
  View = V;
  read = λ h x. f x;
  reach = λ h x. [];
  local = λ h h' x k. (refl, refl);
}

pub plain-Copies :
    {O A V : Type 0} (f : A → V) (g : A → A)
    → ((x : A) → f (g x) ≡ f x)
    → Copies (plain_shape {O = O} f) (λ x h. (g x, h))
plain-Copies f g e h x p = record { extends = Extends-refl h; same = e x; fresh = tt; placed = tt }

-- Two values.
abbrev pub pair_shape : {O A B : Type 0} → Shape O A → Shape O B → Shape O (A × B)
pair_shape S T = record {
  View = S.View × T.View;
  read = λ h z. (S.read h z.0, T.read h z.1);
  reach = λ h z. S.reach h z.0 ++ T.reach h z.1;
  local = λ h h' z k.
      let (r, s) = S.local h h' z.0 (All-left _ (S.reach h z.0) (T.reach h z.1) k) in
      let (t, u) = T.local h h' z.1 (All-right _ (S.reach h z.0) (T.reach h z.1) k) in
      (rw (r, t) refl, rw (s, u) refl);
}

abbrev pub both :
    {O A B : Type 0}
    → (A → Heap O → A × Heap O)
    → (B → Heap O → B × Heap O)
    → A × B
    → Heap O
    → (A × B) × Heap O
both f g (x, y) h = let (x', h₁) = f x h in let (y', h₂) = g y h₁ in ((x', y'), h₂)

-- One copy after the other.
pub both-Copied :
    {O A B : Type 0} (S : Shape O A) (T : Shape O B) (f : A → Heap O → A × Heap O)
    (g : B → Heap O → B × Heap O) (h : Heap O) (x : A) (y : B)
    → Copies S f
    → ((h : Heap O) → IsPlaced T h y → Copied T h y (g y h))
    → IsPlaced (pair_shape S T) h (x, y)
    → Copied (pair_shape S T) h (x, y) (both f g (x, y) h)
both-Copied S T f g h x y cf cg p =
    let k = cf h x (All-left _ (S.reach h x) (T.reach h y) p) in
    let q = All-right _ (S.reach h x) (T.reach h y) p in
    let h₁ = (f x h).1 in
    let k' = cg h₁ (stays-IsPlaced T k.extends y q) in
    let (r, s) = stays S k'.extends (f x h).0 k.placed in
    let n = k.extends.grown in
    let m = k'.extends.grown in
    record {
      extends = Extends-trans k.extends k'.extends;
      same = rw (r, k.same, k'.same, (stays T k.extends y q).0) refl;
      fresh =
          rw s
            (All-++ _ (S.reach h₁ (f x h).0) _ k.fresh (All-map _ (λ a l. ground arith) k'.fresh));
      placed =
          rw s (
            All-++ _ (S.reach h₁ (f x h).0) _ (All-map _ (λ a l. ground arith) k.placed) k'.placed);
    }

pub both-Copies :
    {O A B : Type 0} (S : Shape O A) (T : Shape O B) (f : A → Heap O → A × Heap O)
    (g : B → Heap O → B × Heap O)
    → Copies S f
    → Copies T g
    → Copies (pair_shape S T) (both f g)
both-Copies S T f g cf cg h (x, y) p = both-Copied S T f g h x y cf (λ h q. cg h y q) p

-- The elements of a slice.
abbrev pub views : {O A : Type 0} (S : Shape O A) → Heap O → List A → List S.View
views S h [] = []
views S h (x ∷ xs) = S.read h x ∷ views S h xs

abbrev pub reaches : {O A : Type 0} → Shape O A → Heap O → List A → List ℕ
reaches S h [] = []
reaches S h (x ∷ xs) = S.reach h x ++ reaches S h xs

pub views-local :
    {O A : Type 0} (S : Shape O A) (h h' : Heap O) (xs : List A)
    → All (λ a. h'.cell a ≡ h.cell a) (reaches S h xs)
    → (views S h' xs ≡ views S h xs) × (reaches S h' xs ≡ reaches S h xs)
views-local S h h' [] k = (refl, refl)
views-local S h h' (x ∷ xs) k =
    let (r, s) = S.local h h' x (All-left _ (S.reach h x) (reaches S h xs) k) in
    let (t, u) = views-local S h h' xs (All-right _ (S.reach h x) (reaches S h xs) k) in
    (rw (r, t) refl, rw (s, u) refl)

abbrev pub each_shape : {O A : Type 0} → Shape O A → Shape O (List A)
each_shape S = record {
  View = List S.View;
  read = views S;
  reach = reaches S;
  local = views-local S;
}

pub copy_each-Copies :
    {O A : Type 0} (S : Shape O A) (f : A → Heap O → A × Heap O)
    → Copies S f
    → Copies (each_shape S) (copy_each f)
unfolding copy_each
copy_each-Copies S f cf h [] p = record {
  extends = Extends-refl h;
  same = refl;
  fresh = tt;
  placed = tt;
}
copy_each-Copies S f cf h (x ∷ xs) p =
    let k =
      both-Copied S (each_shape S) f (copy_each f) h x xs cf (λ h q. copy_each-Copies S f cf h xs q)
        p in
    record {
      extends = k.extends;
      same = ap (λ z. z.0 ∷ z.1) k.same;
      fresh = k.fresh;
      placed = k.placed;
    }

-- What a reference stands for.
module _ {O A : Type 0} (S : Shape O A) (from : Cell O → A) where
  abbrev pub read_behind : Heap O → Ref → Option S.View
  read_behind h none = none
  read_behind h (some a) = some (S.read h (from (h.cell a)))

  abbrev pub reach_behind : Heap O → Ref → List ℕ
  reach_behind h none = []
  reach_behind h (some a) = a ∷ S.reach h (from (h.cell a))

  pub behind-local :
      (h h' : Heap O) (r : Ref)
      → All (λ a. h'.cell a ≡ h.cell a) (reach_behind h r)
      → (read_behind h' r ≡ read_behind h r) × (reach_behind h' r ≡ reach_behind h r)
  behind-local h h' none k = (refl, refl)
  behind-local h h' (some a) (e, k) =
      let (r, s) = S.local h h' (from (h.cell a)) k in (rw (e, r) refl, rw (e, s) refl)

  abbrev pub ref_shape : Shape O Ref
  ref_shape = record {
    View = Option S.View;
    read = read_behind;
    reach = reach_behind;
    local = behind-local;
  }

  pub copy_behind-Copies :
      (to : A → Cell O) (zero : A) (into : A → Heap O → A × Heap O)
      → ((x : A) → from (to x) ≡ x)
      → Copies S into
      → Copies ref_shape (copy_behind from to zero into)
  unfolding nat_eq
  copy_behind-Copies to zero into inv ci h none p = record {
    extends = Extends-refl h;
    same = refl;
    fresh = tt;
    placed = tt;
  }
  copy_behind-Copies to zero into inv ci h (some a) (l, p) =
      let x = from (h.cell a) in
      let h₁ = alloc (to zero) h in
      let e₁ = alloc-Extends (to zero) h in
      let k = ci h₁ x (stays-IsPlaced S e₁ x p) in
      let y = (into x h₁).0 in
      let h₂ = (into x h₁).1 in
      let g = k.extends.grown in
      let h₃ = write h.next (to y) h₂ in
      let w = write_same h.next (to y) h₂ in
      let (r, s) = S.local h₂ h₃ y (All-map (S.reach h₂ y) (λ b m. ground arith) k.fresh) in
      record {
        extends = record {
          grown = ground arith;
          kept =
              λ b m. let q = k.extends.kept b (ground arith) in let t = e₁.kept b m in ground arith;
        };
        same = rw (w, inv y, r, k.same, (stays S e₁ x p).0) refl;
        fresh = rw (w, inv y, s) (ground arith, All-map _ (λ b m. ground arith) k.fresh);
        placed = rw (w, inv y, s) (ground arith, k.placed);
      }

-- A struct: what a copy leaves as it is, and the parts that it copies.
abbrev pub struct_shape : {O A B V : Type 0} → Shape O B → (A → V) → (A → B) → Shape O A
struct_shape {V} S rest part = record {
  View = V × S.View;
  read = λ h x. (rest x, S.read h (part x));
  reach = λ h x. S.reach h (part x);
  local = λ h h' x k. let (r, s) = S.local h h' (part x) k in (rw r refl, s);
}

pub struct-Copies :
    {O A B V : Type 0} (S : Shape O B) (rest : A → V) (part : A → B) (f : A → Heap O → A × Heap O)
    (g : B → Heap O → B × Heap O)
    → ((x : A) (h : Heap O) → (part (f x h).0, (f x h).1) ≡ g (part x) h)
    → ((x : A) (h : Heap O) → rest (f x h).0 ≡ rest x)
    → Copies S g
    → Copies (struct_shape S rest part) f
struct-Copies S rest part f g e r cg h x p =
    let k = subst (Copied S h (part x)) (sym (e x h)) (cg h (part x) p) in
    record {
      extends = k.extends;
      same = rw (r x h, k.same) refl;
      fresh = k.fresh;
      placed = k.placed;
    }

-- A pointer to a struct that nothing else points to, or nil.
module _ {O A : Type 0} (S : Shape O A) where
  abbrev pub read_maybe : Heap O → Option A → Option S.View
  read_maybe h none = none
  read_maybe h (some x) = some (S.read h x)

  abbrev pub reach_maybe : Heap O → Option A → List ℕ
  reach_maybe h none = []
  reach_maybe h (some x) = S.reach h x

  pub maybe-local :
      (h h' : Heap O) (o : Option A)
      → All (λ a. h'.cell a ≡ h.cell a) (reach_maybe h o)
      → (read_maybe h' o ≡ read_maybe h o) × (reach_maybe h' o ≡ reach_maybe h o)
  maybe-local h h' none k = (refl, refl)
  maybe-local h h' (some x) k = let (r, s) = S.local h h' x k in (ap some r, s)

  abbrev pub maybe_shape : Shape O (Option A)
  maybe_shape = record {
    View = Option S.View;
    read = read_maybe;
    reach = reach_maybe;
    local = maybe-local;
  }

  pub deep_copy-Copies :
      (f : A → Heap O → A × Heap O) → Copies S f → Copies maybe_shape (deep_copy f)
  deep_copy-Copies f cf h none p = record {
    extends = Extends-refl h;
    same = refl;
    fresh = tt;
    placed = tt;
  }
  deep_copy-Copies f cf h (some x) p =
      let k = cf h x p in
      record { extends = k.extends; same = ap some k.same; fresh = k.fresh; placed = k.placed }

-- The copy reads as the original. Whatever is written at an address of the copy, the original reads
-- as before, and the other way round.
pub record Isolated {O A : Type 0} (S : Shape O A) (h : Heap O) (x : A) (y : A × Heap O)
    : Type 0 where
  pub same : S.read y.1 y.0 ≡ S.read h x
  pub original : All (λ a. (c : Cell O) → S.read (write a c y.1) x ≡ S.read h x) (S.reach y.1 y.0)
  pub copy : All (λ a. (c : Cell O) → S.read (write a c y.1) y.0 ≡ S.read h x) (S.reach h x)

write_other :
    {O : Type 0} (a b : ℕ) (c : Cell O) (h : Heap O) → b ≢ a → (write a c h).cell b ≡ h.cell b
unfolding nat_eq
write_other a b c h n = ground arith

pub Copied-Isolated :
    {O A : Type 0} (S : Shape O A) (h : Heap O) (x : A) (y : A × Heap O)
    → IsPlaced S h x
    → Copied S h x y
    → Isolated S h x y
Copied-Isolated S h x (z, h') p k = record {
  same = k.same;
  original =
      All-map (S.reach h' z)
        (λ a l c.
          (S.local h (write a c h') x (
            All-map (S.reach h x)
              (λ b m. write_other a b c h' (λ e. ground arith) ∙ k.extends.kept b m) p)).0)
        k.fresh;
  copy =
      All-map (S.reach h x)
        (λ a m c.
          (S.local h' (write a c h') z
            (All-map (S.reach h' z) (λ b l. write_other a b c h' (λ e. ground arith)) k.fresh)).0
          ∙ k.same)
        p;
}
