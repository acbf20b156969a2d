-- ===== src/Manager/Options.antt =====
-- cmd/main.go: the flags, and what the program makes of them for the manager and the reconciler; and
-- the types of api/v1alpha1 as its scheme builder has them.
use tsidp_operator.Prelude.{ℕ, ◌*◌, List, [], ◌∷◌, Option, String}
use tsidp_operator.Prelude.Map.{Map}
use tsidp_operator.Text.{Text, runes}
use tsidp_operator.Tsidp
use tsidp_operator.Controller.Secrets.{managed_secret_labels}
use tsidp_operator.Controller.Status.{second}

pub record Flags : Type 0 where
  pub tsidp_url : Text
  pub resync_interval : ℕ
  pub watch_namespaces : Text
  pub metrics_bind_address : Text
  pub health_probe_bind_address : Text

-- The values of flags that are not given.
abbrev pub default_flags : Flags
default_flags = record {
  tsidp_url = runes "http://127.0.0.1:8080";
  resync_interval = 10 * (60 * second);
  watch_namespaces = [];
  metrics_bind_address = runes ":8081";
  health_probe_bind_address = runes ":8082";
}

-- `cache.Options`: the labels that a cached Secret must have, and the namespaces, if they are listed.
pub record CacheOptions : Type 0 where
  pub secret_labels : Map String String
  pub default_namespaces : Option (Map Text (Unit {0}))

-- `ctrl.Options`, with the program's one scheme left out.
pub record Options : Type 0 where
  pub cache : CacheOptions
  pub metrics_bind_address : Text
  pub health_probe_bind_address : Text

unfoldable pub options : Flags → Option (Map Text (Unit {0})) → Options
options flags namespaces = record {
  cache = record { secret_labels = managed_secret_labels; default_namespaces = namespaces };
  metrics_bind_address = flags.metrics_bind_address;
  health_probe_bind_address = flags.health_probe_bind_address;
}

-- `OIDCClientReconciler`. Its clients and its scheme are those of the manager, and `recorder` is the
-- name that the manager's event recorder goes by.
pub record OidcClientReconciler (Manager : Type 0) : Type 0 where
  pub manager : Manager
  pub recorder : String
  pub tsidp : Tsidp.Client
  pub resync_interval : ℕ

abbrev pub idp : Flags → Tsidp.Client
idp flags = record { base_url = flags.tsidp_url }

abbrev pub reconciler : {M : Type 0} → Flags → M → OidcClientReconciler M
reconciler flags mgr = record {
  manager = mgr;
  recorder = "tsidp-operator";
  tsidp = idp flags;
  resync_interval = flags.resync_interval;
}

-- What the chain of calls in `SetupWithManager` has built when `Complete` is called.
pub record Builder (M : Type 0) : Type 0 where
  pub object : String
  pub owned : List String
  pub name : String
  pub reconciler : OidcClientReconciler M

-- `schema.GroupVersion`
pub record GroupVersion : Type 0 where
  pub group : String
  pub version : String

-- `GroupVersion`
abbrev pub group_version : GroupVersion
group_version = record { group = "tsidp.isvaldi-consulting.github.io"; version = "v1alpha1" }

-- `scheme.Builder`, with the names of the types that are registered with it.
pub record SchemeBuilder : Type 0 where
  pub group_version : GroupVersion
  pub types : List String

-- The types that the `init` of oidcclient_types.go registers.
abbrev pub registered_types : List String
registered_types = "OIDCClient" ∷ "OIDCClientList" ∷ []

-- `SchemeBuilder`, with those types.
abbrev pub scheme_builder : SchemeBuilder
scheme_builder = record { group_version = group_version; types = registered_types }
