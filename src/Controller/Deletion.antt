-- ===== src/Controller/Deletion.antt =====
-- `reconcileDelete`.
pub mod Calls
pub mod Release
pub mod Order
pub mod Sweep
pub mod Completion
pub mod RoundTrip
use tsidp_operator.Prelude.{
  ℕ, Bool, true, false, not, List, [], ◌∷◌, Option, none, some, String, ◌==◌, string_eq,
  if◌then◌else◌,
}
use tsidp_operator.Prelude.Map.{lookup}
use tsidp_operator.Text.{Text, is_empty, runes}
use tsidp_operator.Text.Find.{has_substring}
use tsidp_operator.Fault.{Error, Exec, Result, ok, err}
use tsidp_operator.Tsidp
use tsidp_operator.Tsidp.{FunnelClient}
use tsidp_operator.Tsidp.Methods.{list_clients, delete_client}
use tsidp_operator.Api.{OidcClient, DeletionPolicy, orphan}
use tsidp_operator.Controller.Environment.{Environment, http}
use tsidp_operator.Controller.Names.{fingerprint}
use tsidp_operator.Controller.Status.{
  Return, after, failing, err_backoff, text, text_err, emit, handle,
}
use tsidp_operator.Controller.Registration.{serious}

abbrev pub finalizer_name : String
finalizer_name = "oidcclient.tsidp.isvaldi-consulting.github.io/deregister"

abbrev pub force_remove_finalizer_annotation : String
force_remove_finalizer_annotation = "tsidp.isvaldi-consulting.github.io/force-remove-finalizer"

module _ (E : Environment) (c : Tsidp.Client) where
  -- `none` says that the deregistration is done, `some` that the pass ends with a retry.
  abbrev pub retry : String → List Text → Error → E.World → Option Return × E.World
  retry format args e w =
      (some (after err_backoff), emit E true "DeregisterFailed" (text_err format args e) w)

  -- `status.clientId` is known.
  unfoldable pub deregister_known : OidcClient → E.World → Option Return × E.World
  deregister_known oc w =
      let (r, w') = delete_client (http E) c oc.status.client_id w in
      elim (serious r) [
        | some e ↦
            retry
              "failed to deregister client %s from tsidp (will retry; annotate with %s to skip): %v"
              (oc.status.client_id ∷ runes force_remove_finalizer_annotation ∷ []) e w'
        | none ↦ (
          none,
          emit E false "Deregistered"
              (text "deregistered client %s from tsidp (outstanding tokens revoked)"
                (oc.status.client_id ∷ []))
              w',
        )
      ]

  -- The loop over the listed clients: each that carries the fingerprint is deleted, and the first
  -- failure ends the pass.
  unfoldable pub deregister_listed : Text → List FunnelClient → E.World → Option Return × E.World
  deregister_listed fp [] w = (none, w)
  deregister_listed fp (x ∷ xs) w =
      if has_substring x.client_name fp
      then (let (r, w') = delete_client (http E) c x.client_id w in
          let rest = deregister_listed fp xs (
            emit E false "Deregistered"
              (text "deleted unrecorded fingerprinted client %s during finalization"
                (x.client_id ∷ []))
              w') in
          elim (serious r) [
            | some e ↦
                retry "failed to delete fingerprinted client %s (will retry): %v" (x.client_id ∷ [])
                  e w'
            | none ↦ rest
          ])
      else (let rest = deregister_listed fp xs w in rest)

  -- No `status.clientId`: the clients that carry the fingerprint are found and deleted.
  unfoldable pub deregister_unknown : OidcClient → E.World → Option Return × E.World
  deregister_unknown oc w =
      handle (list_clients (http E) c) w
        (λ e w.
          retry
            "failed to list tsidp clients for fingerprint cleanup (will retry; annotate with %s to skip): %v"
            (runes force_remove_finalizer_annotation ∷ []) e w)
        (λ list w. deregister_listed (fingerprint oc) list w)

  unfoldable pub deregister : OidcClient → E.World → Option Return × E.World
  deregister oc w =
      if not (is_empty oc.status.client_id) then deregister_known oc w else deregister_unknown oc w

  -- `switch` on the escape hatch and the policy.
  unfoldable pub finalize : OidcClient → E.World → Option Return × E.World
  finalize oc w = elim (lookup force_remove_finalizer_annotation oc.annotations) [
    | some v ↦ (none, w)
    | none ↦ elim oc.spec.deletion_policy [ orphan ↦ (none, w) | _ ↦ deregister oc w ]
  ]

  abbrev pub without_finalizer : OidcClient → OidcClient
  without_finalizer oc = record oc {
    metadata = record oc.metadata { finalizers = E.remove_finalizer oc.finalizers finalizer_name };
  }

  unfoldable pub release : OidcClient → E.World → Return × E.World
  release oc w =
      handle (E.update_object (without_finalizer oc)) w (λ e w. (failing e, w))
        (λ _ w. (after 0, w))

  -- `reconcileDelete`
  unfoldable pub reconcile_delete : OidcClient → E.World → Return × E.World
  reconcile_delete oc w =
      if not (E.contains_finalizer oc.finalizers finalizer_name)
      then (after 0, w)
      else (let (r, w') = finalize oc w in elim r [ some ret ↦ (ret, w') | none ↦ release oc w' ])
