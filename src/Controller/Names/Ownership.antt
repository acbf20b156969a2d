-- ===== src/Controller/Names/Ownership.antt =====
-- The fingerprint finds the registrations of its own object, and those only.
use tsidp_operator.Prelude.{
  ℕ, ◌≡◌, ◌↔◌, refl, sym, ap, ◌∙◌, true, false, [], ◌∷◌, ◌++◌, take, nat_eq, if◌then◌else◌, arith,
  append_assoc, append-nil, subst, Bool-cases, inl, inr,
}
use tsidp_operator.Text.{Text, runes, is_empty, is_space}
use tsidp_operator.Text.Find.{has_substring, has_substring-append, has_substring_sound}
use tsidp_operator.Text.Trim.{trim_space, trim_space-ends, trim_space-head, trim_space-middle}
use tsidp_operator.Api.{OidcClient}
use tsidp_operator.Controller.Names.{fingerprint, display_name, registered_name}
use tsidp_operator.Controller.Names.Marker.{
  marker, Plain, Lacks-Plain, Plain-take, not-middle, marker_unique, parts, Lacks-parts,
  parts-injective,
}

-- What the API server sees to: names, namespaces and UIDs are plain, and the client's name does not
-- hold the marker.
pub record IsAdmitted (oc : OidcClient) : Type 0 where
  pub name : Plain oc.name
  pub name_not_empty : is_empty oc.name ≡ false
  pub namespace : Plain oc.namespace
  pub uid : Plain oc.uid
  pub client_name : has_substring oc.spec.client_name marker ≡ false

fingerprint-parts :
    (oc : OidcClient) → fingerprint oc ≡ marker ++ parts oc.namespace oc.name (take 8 oc.uid)
unfolding fingerprint
fingerprint-parts oc = refl

lacks_of_Plain : (s : Text) → Plain s → has_substring s marker ≡ false
lacks_of_Plain s h = elim (Bool-cases (has_substring s marker)) [
  | inl e ↦
      let (a, r, p) = has_substring_sound s marker e in
      absurd (not-middle 0x5b s a _ (Lacks-Plain 0x5b s (ground arith) h) p)
  | inr e ↦ e
]

lacks_of_trim :
    (s : Text) → has_substring s marker ≡ false → has_substring (trim_space s) marker ≡ false
lacks_of_trim s h = elim (Bool-cases (has_substring (trim_space s) marker)) [
  | inl e ↦
      let (a, r, p) = has_substring_sound (trim_space s) marker e in
      let (l, k, q) = trim_space-middle s in
      let whole : s ≡ (l ++ a) ++ (marker ++ (r ++ k)) =
        q ∙ ap (λ t. l ++ (t ++ k)) p ∙ simp append_assoc in
      let found = has_substring-append (l ++ a) marker (r ++ k) in cc (h, found, whole)
  | inr e ↦ e
]

display_name-lacks :
    (oc : OidcClient) → IsAdmitted oc → has_substring (display_name oc) marker ≡ false
unfolding display_name
display_name-lacks oc v =
    ground (arith, lacks_of_Plain oc.name v.name, lacks_of_trim oc.spec.client_name v.client_name)

pub carries_own :
    (a b : OidcClient)
    → (a.namespace ≡ b.namespace) × (a.name ≡ b.name) × (take 8 a.uid ≡ take 8 b.uid)
    → has_substring (registered_name a) (fingerprint b) ≡ true
unfolding registered_name
carries_own a b (e, f, g) =
    let same : fingerprint b ≡ fingerprint a = unfold fingerprint in cc in
    let found = has_substring-append (display_name a ++ runes " ") (fingerprint a) [] in
    rw same (simp (append_assoc, append-nil) at found)

carried_by :
    (a b : OidcClient)
    → IsAdmitted a
    → IsAdmitted b
    → has_substring (registered_name a) (fingerprint b) ≡ true
    → (a.namespace ≡ b.namespace) × (a.name ≡ b.name) × (take 8 a.uid ≡ take 8 b.uid)
unfolding registered_name fingerprint
carried_by a b v w h =
    let u = Plain-take 8 a.uid v.uid in
    let (p, s, e) = has_substring_sound (registered_name a) (fingerprint b) h in
    parts-injective a.namespace a.name (take 8 a.uid) b.namespace b.name (take 8 b.uid) s
      v.namespace v.name u w.namespace w.name (Plain-take 8 b.uid w.uid)
      (marker_unique (display_name a) _ p _ (display_name-lacks a v)
        (Lacks-parts a.namespace a.name (take 8 a.uid) v.namespace v.name u) e)

-- For two objects that the API server admits, the name that the operator registers for one
-- contains the fingerprint of the other if and only if the two have the same namespace, the same
-- name, and UIDs with the same first eight runes.
pub fingerprint_iff :
    (a b : OidcClient)
    → IsAdmitted a
    → IsAdmitted b
    → (has_substring (registered_name a) (fingerprint b) ≡ true)
      ↔ ((a.namespace ≡ b.namespace) × (a.name ≡ b.name) × (take 8 a.uid ≡ take 8 b.uid))
fingerprint_iff a b v w = (carried_by a b v w, carries_own a b)

-- A text that begins with a rune that is no space.
abbrev Headed : Text → Type 0
Headed s = (c : ℕ) × (t : Text) × (s ≡ c ∷ t) × (is_space c ≡ false)

Headed-of_Plain : (s : Text) → is_empty s ≡ false → Plain s → Headed s
unfolding is_space nat_eq
Headed-of_Plain [] n h = cc
Headed-of_Plain (c ∷ s) n h = (c, s, refl, ground arith)

Headed-or : (s n : Text) → Headed n → Headed (let t = trim_space s in if is_empty t then n else t)
Headed-or s n h = go (trim_space s) refl
  where
    go : (t : Text) → trim_space s ≡ t → Headed (if is_empty t then n else t)
    go [] e = h
    go (c ∷ t) e = (c, t, refl, trim_space-head s e)

display_name-Headed : (oc : OidcClient) → IsAdmitted oc → Headed (display_name oc)
unfolding display_name
display_name-Headed oc v =
    Headed-or oc.spec.client_name oc.name (Headed-of_Plain oc.name v.name_not_empty v.name)

trimmed_between :
    (d ns n u : Text)
    → Headed d
    → let s = d ++ (0x20 ∷ (marker ++ parts ns n u)) in trim_space s ≡ s
unfolding is_space nat_eq
trimmed_between d ns n u (c, t, e, h) =
    let inner = t ++ (0x20 ∷ (marker ++ (ns ++ (0x2f ∷ (n ++ (0x2f ∷ u)))))) in
    let shape : d ++ (0x20 ∷ (marker ++ parts ns n u)) ≡ c ∷ (inner ++ (0x5d ∷ [])) =
      rw e (simp append_assoc) in
    subst (λ s. trim_space s ≡ s) (sym shape) (trim_space-ends c 0x5d inner h (ground arith))

-- For an object that the API server admits, trimming white space leaves the registered name as it
-- is, so that a name that tsidp trims still equals the name that a later pass compares with.
pub registered_name-trimmed :
    (oc : OidcClient) → IsAdmitted oc → trim_space (registered_name oc) ≡ registered_name oc
unfolding registered_name fingerprint
registered_name-trimmed oc v =
    trimmed_between (display_name oc) oc.namespace oc.name (take 8 oc.uid)
      (display_name-Headed oc v)
