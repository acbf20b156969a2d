-- ===== src/Controller/Environment.antt =====
-- What the reconciler acts on and does not implement: the API server behind its cached and its
-- direct client, tsidp behind HTTP, the event recorder, and pure helpers of the Kubernetes
-- libraries and of encoding/json. All of it is a parameter.
use tsidp_operator.Prelude.{
  ◌≡◌, Bool, true, false, List, Option, none, some, String, ◌==◌, string_eq,
}
use tsidp_operator.Prelude.{if◌then◌else◌, [], ◌∷◌}
use tsidp_operator.Text.{Text}
use tsidp_operator.Wire.{Request, Response}
use tsidp_operator.Fault.{Exec, Result, ok, Message}
use tsidp_operator.Transport.{Http}
use tsidp_operator.Api.{OidcClient, Secret, OwnerReference, Condition}

-- `Eventf`, unrendered.
pub record Event : Type 0 where
  pub warning : Bool
  pub reason : String
  pub message : Message

-- `appliedTemplateKeys`
pub record AppliedTemplateKeys : Type 0 where
  pub labels : List String
  pub annotations : List String

pub record Environment : Type 1 where
  pub World : Type 0
  -- tsidp
  pub send : Request → Exec World Response
  -- the manager's client, whose reads are cached
  pub get_object : Text → Text → Exec World OidcClient
  pub update_object : OidcClient → Exec World OidcClient
  pub update_status : OidcClient → Exec World OidcClient
  pub delete_secret : Secret → Text → Exec World (Unit {0})
  -- `controllerutil.CreateOrUpdate` of the Secret of that namespace and name
  pub create_or_update : Text → Text → (Secret → Result Secret) → Exec World (Unit {0})
  -- the APIReader
  pub read_secret : Text → Text → Exec World Secret
  -- the Recorder
  pub emit : Event → World → World
  -- controllerutil
  pub contains_finalizer : List String → String → Bool
  pub add_finalizer : List String → String → List String
  pub remove_finalizer : List String → String → List String
  pub set_controller_reference : OidcClient → Secret → Result Secret
  -- metav1 and meta
  pub controller_of : Secret → Option OwnerReference
  pub set_status_condition : List Condition → Condition → List Condition
  -- `json.Marshal` and `json.Unmarshal` at `appliedTemplateKeys`
  pub marshal_keys : AppliedTemplateKeys → String
  pub unmarshal_keys : String → AppliedTemplateKeys

-- The transport of the tsidp client.
abbrev pub http : Environment → Http
http E = record { World = E.World; send = E.send }

-- The condition of a type, as `meta.FindStatusCondition` finds it.
abbrev pub find_condition : String → List Condition → Option Condition
find_condition k [] = none
find_condition k (c ∷ cs) = let rest = find_condition k cs in if c.kind == k then some c else rest

-- Equal but for the time of the last transition.
pub record SameCondition (a b : Condition) : Type 0 where
  pub kind : a.kind ≡ b.kind
  pub status : a.status ≡ b.status
  pub reason : a.reason ≡ b.reason
  pub message : a.message ≡ b.message
  pub observed_generation : a.observed_generation ≡ b.observed_generation

-- The documented behaviour of the libraries that the theorems rely on, each by its name.
pub record IsLawful (E : Environment) : Type 0 where
  -- A finalizer that was removed is gone, and one that was added is there.
  pub contains-remove :
      (fs : List String) (f : String) → E.contains_finalizer (E.remove_finalizer fs f) f ≡ false
  pub contains-add :
      (fs : List String) (f : String) → E.contains_finalizer (E.add_finalizer fs f) f ≡ true
  -- `SetStatusCondition` leaves one condition of the type, the new one.
  pub find-set :
      (cs : List Condition) (c : Condition)
      → (d : Condition) × (find_condition c.kind (E.set_status_condition cs c) ≡ some d)
        × SameCondition d c
  -- `SetControllerReference` sets an owner reference and nothing else.
  pub sets_owner :
      (oc : OidcClient) (s t : Secret)
      → E.set_controller_reference oc s ≡ ok t
      → t ≡ record s { owners = t.owners }
  pub owner_set :
      (oc : OidcClient) (s t : Secret)
      → E.set_controller_reference oc s ≡ ok t
      → (r : OwnerReference) × (E.controller_of t ≡ some r) × (r.uid ≡ oc.uid)
  -- What was marshalled is unmarshalled.
  pub unmarshal-marshal : (k : AppliedTemplateKeys) → E.unmarshal_keys (E.marshal_keys k) ≡ k
