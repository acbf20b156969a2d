-- ===== src/Controller/Names.antt =====
-- The names that the controller derives from an OIDCClient.
pub mod Marker
pub mod Ownership
pub mod Length
use tsidp_operator.Prelude.{ℕ, Bool, List, [], ◌∷◌, ◌++◌, take, if◌then◌else◌}
use tsidp_operator.Text.{Text, runes, is_empty}
use tsidp_operator.Text.Trim.{trim_space}
use tsidp_operator.Api.{OidcClient}

-- `Fingerprint`: "[k8s:%s/%s/%.8s]"
unfoldable pub fingerprint : OidcClient → Text
fingerprint oc =
    runes "[k8s:"
    ++ (oc.namespace ++ (runes "/" ++ (oc.name ++ (runes "/" ++ (take 8 oc.uid ++ runes "]")))))

-- `displayName`
unfoldable pub display_name : OidcClient → Text
display_name oc =
    let name = trim_space oc.spec.client_name in if is_empty name then oc.name else name

-- `registeredName`
unfoldable pub registered_name : OidcClient → Text
registered_name oc = display_name oc ++ (runes " " ++ fingerprint oc)

-- `secretName`
unfoldable pub secret_name : OidcClient → Text
secret_name oc =
    if is_empty oc.spec.secret_name then oc.name ++ runes "-oidc" else oc.spec.secret_name
