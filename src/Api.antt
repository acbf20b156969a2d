-- ===== src/Api.antt =====
-- api/v1alpha1/oidcclient_types.go: the custom resource, with the parts of its metadata, and of the
-- core resources beside it, that the controller reads or writes.
pub mod Admission
pub mod Edits
pub mod Bounds
pub mod Copies
use tsidp_operator.Prelude.{ℕ, Bool, List, Option, String}
use tsidp_operator.Prelude.Map.{Map}
use tsidp_operator.Text.{Text}
use tsidp_operator.Fault.{Message}

-- The CRD admits the three policies; an object from before the default may hold another text.
pub data UpdatePolicy : Type 0 where
  recreate in_place block : UpdatePolicy
  other : String → UpdatePolicy

pub data DeletionPolicy : Type 0 where
  deregister orphan : DeletionPolicy
  other : String → DeletionPolicy

pub record SecretTemplate : Type 0 where
  pub labels : Map String String
  pub annotations : Map String String

pub record OidcClientSpec : Type 0 where
  pub client_name : Text
  pub redirect_uris : List Text
  pub token_endpoint_auth_method : Text
  pub grant_types : List Text
  pub response_types : List Text
  pub scope : Text
  pub client_uri : Text
  pub logo_uri : Text
  pub contacts : List Text
  pub application_type : Text
  pub secret_name : Text
  pub secret_template : Option SecretTemplate
  pub update_policy : UpdatePolicy
  pub deletion_policy : DeletionPolicy

-- `metav1.Condition`
pub record Condition : Type 0 where
  pub kind : String
  pub status : Bool
  pub reason : String
  pub message : Message
  pub observed_generation : ℕ
  pub last_transition_time : Text

pub record OidcClientStatus : Type 0 where
  pub client_id : Text
  pub secret_name : Text
  pub issuer : Text
  pub observed_generation : ℕ
  pub conditions : List Condition

-- `ConditionReady`
abbrev pub condition_ready : String
condition_ready = "Ready"

-- `metav1.ObjectMeta` of an OIDCClient; `deleting` says that there is a deletion timestamp.
pub record ObjectMeta : Type 0 where
  pub name : Text
  pub namespace : Text
  pub uid : Text
  pub generation : ℕ
  pub resource_version : Text
  pub deleting : Bool
  pub finalizers : List String
  pub annotations : Map String String

pub record OidcClient : Type 0 where
  pub metadata : ObjectMeta
  pub open metadata use *
  pub spec : OidcClientSpec
  pub status : OidcClientStatus

-- `metav1.OwnerReference`
pub record OwnerReference : Type 0 where
  pub kind : Text
  pub name : Text
  pub uid : Text
  pub controller : Bool

-- `corev1.Secret`; `created` says that there is a creation timestamp.
pub record Secret : Type 0 where
  pub name : Text
  pub namespace : Text
  pub uid : Text
  pub created : Bool
  pub labels : Map String String
  pub annotations : Map String String
  pub owners : List OwnerReference
  pub contents : Map String Text
