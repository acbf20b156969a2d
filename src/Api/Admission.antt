-- ===== src/Api/Admission.antt =====
-- The validation rules that the markers of api/v1alpha1/oidcclient_types.go put into the CRD, as the
-- API server applies them before an OIDCClient is stored.
use tsidp_operator.Prelude.{
  Bool, true, false, ◌&&◌, not, List, [], ◌∷◌, map, String, leb, length, if◌then◌else◌, Option,
  none, some, contains, ◌==◌, string_eq,
}
use tsidp_operator.Text.{Text, runes, lower_ascii, is_empty, text_eq}
use tsidp_operator.Text.Find.{has_prefix, has_substring}
use tsidp_operator.Api.{
  OidcClientSpec, UpdatePolicy, recreate, in_place, block, DeletionPolicy, deregister, orphan,
}

-- The schemes of the rule on `redirectUris`.
abbrev pub forbidden_schemes : List String
forbidden_schemes =
    "javascript:" ∷ "data:" ∷ "file:" ∷ "vbscript:" ∷ "about:" ∷ "blob:" ∷ "filesystem:" ∷ "chrome:"
    ∷ "chrome-extension:" ∷ "ftp:" ∷ "mailto:" ∷ []

abbrev pub starts_with_any : List String → Text → Bool
starts_with_any [] u = false
starts_with_any (p ∷ ps) u =
    let rest = starts_with_any ps u in if has_prefix u (runes p) then true else rest

-- The rules on one redirect URI: length, scheme, and a colon.
unfoldable pub admits_uri : Text → Bool
admits_uri u =
    leb 1 (length u)
    && leb (length u) 512
    && not (starts_with_any forbidden_schemes (map lower_ascii u))
    && has_substring u (runes ":")

unfoldable pub admits_uris : List Text → Bool
unfolding admits_uri
admits_uris [] = true
admits_uris (u ∷ us) = let rest = admits_uris us in if admits_uri u then rest else false

-- The rule on `clientName`.
unfoldable pub admits_name : Text → Bool
admits_name n = leb (length n) 128 && not (has_substring n (runes "[k8s:"))

-- The CEL rules, and the bounds on lengths.
unfoldable pub admits : OidcClientSpec → Bool
unfolding admits_uris admits_name
admits spec =
    admits_name spec.client_name
    && leb 1 (length spec.redirect_uris)
    && leb (length spec.redirect_uris) 32
    && admits_uris spec.redirect_uris

-- The enums, as the API server checks them after it has filled in the defaults.
abbrev pub auth_methods : List Text
auth_methods = runes "client_secret_basic" ∷ runes "client_secret_post" ∷ runes "none" ∷ []

abbrev pub application_types : List Text
application_types = runes "web" ∷ runes "native" ∷ []

abbrev pub knows_update : UpdatePolicy → Bool
knows_update (UpdatePolicy.other s) = false
knows_update _ = true

abbrev pub knows_deletion : DeletionPolicy → Bool
knows_deletion (DeletionPolicy.other s) = false
knows_deletion _ = true

unfoldable pub admits_enums : OidcClientSpec → Bool
admits_enums spec =
    contains auth_methods spec.token_endpoint_auth_method
    && contains application_types spec.application_type
    && knows_update spec.update_policy
    && knows_deletion spec.deletion_policy

-- The defaults. A field that is left out reads as the empty text, since each has `omitempty`; one
-- that is written as empty is taken as left out here.
abbrev pub or_default : Text → Text → Text
or_default d s = if is_empty s then d else s

abbrev pub default_update : UpdatePolicy → UpdatePolicy
default_update (UpdatePolicy.other s) = if s == "" then recreate else UpdatePolicy.other s
default_update recreate = recreate
default_update in_place = in_place
default_update block = block

abbrev pub default_deletion : DeletionPolicy → DeletionPolicy
default_deletion (DeletionPolicy.other s) = if s == "" then deregister else DeletionPolicy.other s
default_deletion deregister = deregister
default_deletion orphan = orphan

unfoldable pub defaulted : OidcClientSpec → OidcClientSpec
defaulted spec = record spec {
  token_endpoint_auth_method =
      or_default (runes "client_secret_basic") spec.token_endpoint_auth_method;
  application_type = or_default (runes "web") spec.application_type;
  update_policy = default_update spec.update_policy;
  deletion_policy = default_deletion spec.deletion_policy;
}

-- What is stored for a spec that is sent, if it is admitted.
unfoldable pub admission : OidcClientSpec → Option OidcClientSpec
unfolding admits admits_enums defaulted
admission spec = let d = defaulted spec in if admits d && admits_enums d then some d else none
