-- ===== src/Api/Bounds.antt =====
-- What holds of a spec that the API server has stored, by the markers of
-- api/v1alpha1/oidcclient_types.go.
use tsidp_operator.Prelude.{
  ℕ, Bool, ◌≤◌, ◌≡◌, ◌⊎◌, inl, inr, refl, ap, subst, ◌∙◌, true, false, ◌&&◌, List, [], ◌∷◌, All,
  none, some, length, string_eq, if◌then◌else◌, arith,
}
use tsidp_operator.Text.{Text, text_eq}
use tsidp_operator.Api.{
  OidcClientSpec, UpdatePolicy, recreate, in_place, block, DeletionPolicy, deregister, orphan,
}
use tsidp_operator.Api.Admission.{
  admits_uri, admits_uris, admits_name, admits, admits_enums, knows_update, knows_deletion,
  or_default, default_update, default_deletion, defaulted, admission,
}

-- A redirect URI's length is within the bounds of its marker.
abbrev pub IsShort : Text → Type 0
IsShort u = (1 ≤ length u) × (length u ≤ 512)

-- The lengths are within their bounds, and the policies are among those that the code handles.
pub record IsStorable (spec : OidcClientSpec) : Type 0 where
  pub name : length spec.client_name ≤ 128
  pub some_uri : 1 ≤ length spec.redirect_uris
  pub few_uris : length spec.redirect_uris ≤ 32
  pub uris : All IsShort spec.redirect_uris
  pub update :
      (spec.update_policy ≡ recreate)
      ⊎ (spec.update_policy ≡ in_place)
      ⊎ (spec.update_policy ≡ block)
  pub deletion : (spec.deletion_policy ≡ deregister) ⊎ (spec.deletion_policy ≡ orphan)

IsShort-of_admits_uri : (u : Text) → admits_uri u ≡ true → IsShort u
unfolding admits_uri
IsShort-of_admits_uri u h = ground arith

All-IsShort : (us : List Text) → admits_uris us ≡ true → All IsShort us
unfolding admits_uris
All-IsShort [] h = tt
All-IsShort (u ∷ us) h = (IsShort-of_admits_uri u (ground arith), All-IsShort us (ground arith))

known_update :
    (p : UpdatePolicy) → knows_update p ≡ true → (p ≡ recreate) ⊎ (p ≡ in_place) ⊎ (p ≡ block)
known_update recreate h = inl refl
known_update in_place h = inr (inl refl)
known_update block h = inr (inr refl)
known_update (UpdatePolicy.other s) h = cc

known_deletion : (p : DeletionPolicy) → knows_deletion p ≡ true → (p ≡ deregister) ⊎ (p ≡ orphan)
known_deletion deregister h = inl refl
known_deletion orphan h = inr refl
known_deletion (DeletionPolicy.other s) h = cc

if_some :
    {A : Type 0} (b : Bool) (a d : A) → (if b then some a else none) ≡ some d → (b ≡ true) × (a ≡ d)
if_some true a d h = (refl, cc)
if_some false a d h = cc

admission-inv :
    (spec d : OidcClientSpec)
    → admission spec ≡ some d
    → (admits (defaulted spec) && admits_enums (defaulted spec) ≡ true) × (defaulted spec ≡ d)
unfolding admission
admission-inv spec d h =
    if_some (admits (defaulted spec) && admits_enums (defaulted spec)) (defaulted spec) d h

both : (a b : Bool) → a && b ≡ true → (a ≡ true) × (b ≡ true)
both true b h = (refl, h)
both false b h = cc

IsStorable-of_admits : (d : OidcClientSpec) → admits d ≡ true → admits_enums d ≡ true → IsStorable d
unfolding admits admits_enums admits_name
IsStorable-of_admits d h e = record {
  name = ground arith;
  some_uri = ground arith;
  few_uris = ground arith;
  uris = All-IsShort d.redirect_uris (ground arith);
  update = known_update d.update_policy (ground arith);
  deletion = known_deletion d.deletion_policy (ground arith);
}

default_update-twice : (p : UpdatePolicy) → default_update (default_update p) ≡ default_update p
default_update-twice recreate = refl
default_update-twice in_place = refl
default_update-twice block = refl
default_update-twice (UpdatePolicy.other s) = ground arith

default_deletion-twice :
    (p : DeletionPolicy) → default_deletion (default_deletion p) ≡ default_deletion p
default_deletion-twice deregister = refl
default_deletion-twice orphan = refl
default_deletion-twice (DeletionPolicy.other s) = ground arith

or_default-twice :
    (x : ℕ) (d s : Text) → or_default (x ∷ d) (or_default (x ∷ d) s) ≡ or_default (x ∷ d) s
or_default-twice x d [] = refl
or_default-twice x d (c ∷ s) = refl

defaulted-twice : (spec : OidcClientSpec) → defaulted (defaulted spec) ≡ defaulted spec
unfolding defaulted
defaulted-twice spec =
    rw
      (
        or_default-twice _ _ spec.token_endpoint_auth_method,
        or_default-twice _ _ spec.application_type,
        default_update-twice spec.update_policy,
        default_deletion-twice spec.deletion_policy,
      )
      refl

if_true : {A : Type 0} (b : Bool) (x y : A) → b ≡ true → (if b then x else y) ≡ x
if_true true x y h = refl
if_true false x y h = cc

admission-defaulted :
    (spec : OidcClientSpec)
    → admits (defaulted spec) && admits_enums (defaulted spec) ≡ true
    → admission (defaulted spec) ≡ some (defaulted spec)
unfolding admission
admission-defaulted spec a =
    ap (λ d. if admits d && admits_enums d then some d else none) (defaulted-twice spec)
    ∙ if_true (admits (defaulted spec) && admits_enums (defaulted spec)) _ _ a

-- A spec that the API server stores has a client name of at most 128 runes, from 1 to 32 redirect
-- URIs of 1 to 512 runes each, and an update and a deletion policy that the code handles; and when
-- it is sent again, it is stored unchanged.
pub admission_stable :
    (spec d : OidcClientSpec) → admission spec ≡ some d → IsStorable d × (admission d ≡ some d)
admission_stable spec d h =
    let (a, e) = admission-inv spec d h in
    let (l, r) = both (admits (defaulted spec)) (admits_enums (defaulted spec)) a in
    (
      subst IsStorable e (IsStorable-of_admits (defaulted spec) l r),
      subst (λ x. admission x ≡ some x) e (admission-defaulted spec a),
    )
