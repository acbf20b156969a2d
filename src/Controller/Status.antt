-- ===== src/Controller/Status.antt =====
-- Conditions, events and the results of a pass.
use tsidp_operator.Prelude.{ℕ, ◌*◌, Bool, true, false, List, [], Option, none, some, String}
use tsidp_operator.Text.{Text}
use tsidp_operator.Fault.{Error, Message, ok, err, Exec}
use tsidp_operator.Api.{OidcClient, condition_ready}
use tsidp_operator.Controller.Environment.{Environment}
use tsidp_operator.Controller.Names.{secret_name}

-- Durations, in nanoseconds.
abbrev pub second : ℕ
second = 1_000_000_000

abbrev pub err_backoff : ℕ
err_backoff = 30 * second

-- `ctrl.Result` with the error beside it; no delay is no requeue.
pub record Return : Type 0 where
  pub requeue_after : ℕ
  pub error : Option Error

abbrev pub after : ℕ → Return
after d = record { requeue_after = d; error = none }

abbrev pub failing : Error → Return
failing e = record { requeue_after = 0; error = some e }

-- What a part of a pass comes to: it ends the pass, or the pass goes on.
pub data Stage : Type 0 where
  stop : OidcClient × Return → Stage
  go : OidcClient → Stage

abbrev pub text : String → List Text → Message
text f args = record { format = f; args = args; cause = none }

abbrev pub text_err : String → List Text → Error → Message
text_err f args e = record { format = f; args = args; cause = some e }

-- `err.Error()`
abbrev pub error_text : Error → Message
error_text e = text_err "%v" [] e

abbrev pub with_client_id : Text → OidcClient → OidcClient
with_client_id id oc = record oc { status = record oc.status { client_id = id } }

abbrev pub with_secret_name : Text → OidcClient → OidcClient
with_secret_name n oc = record oc { status = record oc.status { secret_name = n } }

abbrev pub with_issuer : Text → OidcClient → OidcClient
with_issuer i oc = record oc { status = record oc.status { issuer = i } }

module _ {W A B : Type 0} where
  -- The `if err != nil` after a call.
  unfoldable pub handle : Exec W A → W → (Error → W → B × W) → (A → W → B × W) → B × W
  handle m w failed continue = elim (m w).0 [ err e ↦ failed e (m w).1 | ok a ↦ continue a (m w).1 ]

module _ (E : Environment) where
  -- `setCond`
  unfoldable pub set_cond : OidcClient → Bool → String → Message → OidcClient
  set_cond oc status reason msg = record oc {
    status = record oc.status {
      conditions = E.set_status_condition oc.status.conditions (record {
        kind = condition_ready;
        status = status;
        reason = reason;
        message = msg;
        observed_generation = oc.generation;
        last_transition_time = [];
      });
    };
  }

  -- `notReady`
  unfoldable pub not_ready : OidcClient → String → Message → OidcClient × Return
  unfolding set_cond
  not_ready oc reason msg = (set_cond oc false reason msg, after err_backoff)

  -- `markReady`
  unfoldable pub mark_ready : OidcClient → OidcClient
  unfolding set_cond
  mark_ready oc =
      set_cond (with_secret_name (secret_name oc) oc) true "Ready"
        (text "client registered in tsidp; credentials Secret in sync" [])

  abbrev pub emit : Bool → String → Message → E.World → E.World
  emit warning reason msg = E.emit (record { warning = warning; reason = reason; message = msg })
