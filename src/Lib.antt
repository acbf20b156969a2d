-- ===== src/Lib.antt =====
-- The tsidp operator: a Kubernetes controller that registers OIDC clients with tsidp, over its HTTP
-- API, for objects of the custom resource OIDCClient, and keeps the credentials in a Secret.
--
-- The parts, how they interact, and where each is modelled:
--   * internal/tsidp/client.go, the API client: `Tsidp` has its types, `Tsidp.Codec` its JSON
--     documents and its error responses, and `Tsidp.Methods` its methods (Register, ListClients,
--     GetClient, DeleteClient, UpdateClient, Discovery), over a transport (`Transport`) that takes a
--     request and a world to a response or an error, and the next world.
--   * internal/tsidp/tsidpfake/fake.go, the in-memory tsidp of the tests: `Fake` has its state,
--     `Fake.Handlers` ServeHTTP and its handlers, `Fake.Invariant` what each request keeps true, and
--     `Fake.Contract` what each method of the client comes to when its requests go to the fake.
--   * api/v1alpha1/oidcclient_types.go, the resource: `Api` has the types, `Api.Admission` the rules,
--     the enums and the defaults that the API server applies, `Api.Bounds` what they say of a stored
--     object, and `Api.Edits` compares them with the rules of the fake's form. `Api.Copies` has the deep
--     copies of zz_generated.deepcopy.go, over a memory with addresses.
--   * internal/controller/oidcclient_controller.go, the reconciler: `Controller.Names` (Fingerprint,
--     displayName, registeredName, secretName), `Controller.Secrets` (secretAdoptable, upsertSecret,
--     applySecretTemplate, setSecretMetadata), `Controller.Registration` (registerOrAdopt),
--     `Controller.Normal` (reconcileNormal), `Controller.Status` (setCond, notReady, markReady),
--     `Controller.Deletion` (reconcileDelete) and `Controller.Reconcile` (Reconcile).
--     `Controller.Lifecycle` has the steps of an object's life as a relation, each from one world
--     to the next: passes with their status written, refused or lost, edits of the spec, and
--     changes by others.
--   * cmd/main.go, the start: `Manager` has the namespaces that the caches are confined to,
--     `Manager.Options` the flags and what the program makes of them, with the group version of
--     api/v1alpha1/groupversion_info.go, and `Manager.Start` init and main, with SetupWithManager, over
--     a `Platform` of what they call: flag.Parse, controller-runtime and the logger.
--
-- The state. An action is a function from a world to a result and a world (`Fault.Actions`), and what
-- was done before a failure stays done. The reconciler's world is abstract: `Controller.Environment`
-- is a record of what the reconciler calls and does not implement, with the type of worlds among its
-- fields: the requests to tsidp, the manager's client, the APIReader, CreateOrUpdate, the recorder,
-- and the pure helpers of the Kubernetes libraries and of encoding/json. The documented behaviour
-- that a theorem relies on is in `IsLawful`; most theorems hold in every environment. A claim that a
-- pass makes no call of some kind is put as: each property of the world that the other calls keep is
-- kept (`KeptByReads`, `KeptBySecrets`, `KeptByTsidp`, `KeptByCalls`); a claim that it made one, as:
-- each property that such a call brings about and the others keep holds at the end (`Records`,
-- `IsHistory`). Theorems on what passes come to
-- take an environment whose tsidp answers as the fake does (`RunsFake`) and that keeps the Secret of the
-- object as an API server does (`RunsStore`). The object in memory is passed from part to
-- part of a pass, and `Stage` says whether a part ended the pass.
--
-- Texts that the program looks into are lists of runes (`Text`), keys and formats native strings,
-- and rendered messages stay unrendered, with their format, their arguments and their cause.
-- `Text.Trim`, `Text.Lines`, `Text.Find`, `Text.Order` and `Text.Decimal` model the functions of
-- Go's standard packages that the program calls. JSON documents are trees (`Wire`), and a form is
-- its fields. Maps are association lists (`Prelude.Map`). Every loop is a recursion over its list;
-- the one fuel, in `Text.Decimal`, is above the number that is printed, which a division by ten
-- makes smaller.
--
-- Not modelled: contexts and the locks of the fake; the bytes of JSON and of
-- forms, and the escaping of ids in paths; the flags of the logger; the print columns of the resource
-- and the markers for RBAC; charts, manifests and scripts. A field with a default that is written as
-- the empty text is taken as left out. The fields of a JSON document are found by their exact names,
-- and the fake reads a form by its exact content type, as the client writes both; the fake lists its
-- clients in the order of an association list, where a map of Go has none. `strings.ToLower` is
-- modelled on ASCII letters and on the two runes outside ASCII that it takes to one, which is what a
-- comparison with an ASCII literal can see.
--
-- `Tests` holds a concrete cluster with the fake beside it, and instances of the theorems.
pub mod Prelude
pub mod Text
pub mod Wire
pub mod Fault
pub mod Transport
pub mod Tsidp
pub mod Fake
pub mod Api
pub mod Controller
pub mod Manager
pub mod Tests
