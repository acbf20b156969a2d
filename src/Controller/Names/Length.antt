-- ===== src/Controller/Names/Length.antt =====
-- The length of the name that the operator registers, which no rule bounds by itself.
use tsidp_operator.Prelude.{
  ℕ, zero, suc, ◌+◌, ◌≤◌, ◌≡◌, ap, ◌∙◌, [], ◌∷◌, ◌++◌, some, length, take, arith,
}
use tsidp_operator.Text.{Text, runes}
use tsidp_operator.Text.Trim.{trim_space, trim_space-middle}
use tsidp_operator.Api.{OidcClient, OidcClientSpec}
use tsidp_operator.Api.Admission.{admission}
use tsidp_operator.Api.Bounds.{IsStorable, admission_stable}
use tsidp_operator.Controller.Names.{fingerprint, display_name, registered_name}

length-append : (s t : Text) → length (s ++ t) ≡ length s + length t
length-append [] t = omega arith
length-append (c ∷ s) t = ground (arith, length-append s t)

length-take : (n : ℕ) (s : Text) → length (take n s) ≤ n
length-take zero s = omega arith
length-take (suc n) [] = omega arith
length-take (suc n) (c ∷ s) = ground (arith, length-take n s)

length-trim_space : (s : Text) → length (trim_space s) ≤ length s
length-trim_space s =
    let (l, k, q) = trim_space-middle s in
    let whole : length s ≡ length l + (length (trim_space s) + length k) =
      ap length q ∙ (length-append l _ ∙ ap (λ n. length l + n) (length-append (trim_space s) k)) in
    omega (arith, whole)

-- The lengths of the parts of a name.
pub record HasShortNames (oc : OidcClient) : Type 0 where
  pub name : length oc.name ≤ 253
  pub namespace : length oc.namespace ≤ 63

length-fingerprint :
    (oc : OidcClient)
    → length (fingerprint oc)
      ≡ 8 + (length oc.namespace + (length oc.name + length (take 8 oc.uid)))
unfolding fingerprint
length-fingerprint oc = simp length-append (omega arith)

length-display_name :
    (oc : OidcClient) → HasShortNames oc → IsStorable oc.spec → length (display_name oc) ≤ 253
unfolding display_name
length-display_name oc n st =
    let t = length-trim_space oc.spec.client_name in ground (arith, n.name, st.name, t)

-- For an object whose spec the API server has stored, with a name of at most 253 and a namespace
-- of at most 63 runes, the registered name has at most 586 runes.
pub registered_name-length :
    (oc : OidcClient) (sent : OidcClientSpec)
    → HasShortNames oc
    → admission sent ≡ some oc.spec
    → length (registered_name oc) ≤ 586
unfolding registered_name
registered_name-length oc sent n h =
    let st = (admission_stable sent oc.spec h).0 in
    let f = length-fingerprint oc in
    let d = length-display_name oc n st in
    let u = length-take 8 oc.uid in
    let a = length-append (display_name oc) (runes " " ++ fingerprint oc) in
    omega (arith, f, d, u, a, n.name, n.namespace)
