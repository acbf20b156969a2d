-- ===== src/Fake.antt =====
-- internal/tsidp/tsidpfake/fake.go: the in-memory stand-in for tsidp's HTTP API. Its state stands
-- here, and its handlers in `Handlers`.
pub mod Handlers
pub mod Json
pub mod Invariant
pub mod Contract
use tsidp_operator.Prelude.{ℕ, List}
use tsidp_operator.Prelude.Map.{Map}
use tsidp_operator.Text.{Text}

-- `Client` of the fake.
pub record Client : Type 0 where
  pub client_id : Text
  pub client_secret : Text
  pub client_name : Text
  pub redirect_uris : List Text
  pub created_at : Text

-- `Server`. The lock is left out: a handler runs as one step.
pub record Server : Type 0 where
  pub issuer : Text
  pub clients : Map Text Client
  pub next_id : ℕ
