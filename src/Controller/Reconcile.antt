-- ===== src/Controller/Reconcile.antt =====
-- `Reconcile`.
pub mod Writes
pub mod Finalizer
pub mod Errors
use tsidp_operator.Prelude.{ℕ, if◌then◌else◌}
use tsidp_operator.Text.{Text}
use tsidp_operator.Fault.{Exec, ok, is_not_found, is_conflict}
use tsidp_operator.Tsidp
use tsidp_operator.Api.{OidcClient}
use tsidp_operator.Controller.Environment.{Environment}
use tsidp_operator.Controller.Status.{second, Return, after, failing, handle}
use tsidp_operator.Controller.Normal.{reconcile_normal}
use tsidp_operator.Controller.Deletion.{finalizer_name, reconcile_delete}

module _ (E : Environment) (c : Tsidp.Client) (resync_interval : ℕ) where
  abbrev pub with_finalizer : OidcClient → OidcClient
  with_finalizer oc = record oc {
    metadata = record oc.metadata { finalizers = E.add_finalizer oc.finalizers finalizer_name };
  }

  -- The finalizer is stored before anything else; the object is then the stored one.
  unfoldable pub ensure_finalizer : OidcClient → Exec E.World OidcClient
  ensure_finalizer oc w =
      if E.contains_finalizer oc.finalizers finalizer_name
      then (ok oc, w)
      else E.update_object (with_finalizer oc) w

  abbrev pub observed : OidcClient → OidcClient
  observed oc = record oc { status = record oc.status { observed_generation = oc.generation } }

  -- The status is written whatever the pass came to.
  unfoldable pub write_status : (OidcClient × Return) × E.World → Return × E.World
  write_status ((oc, r), w) =
      handle (E.update_status (observed oc)) w
        (λ e w. (if is_conflict e then after second else failing e, w)) (λ _ w. (r, w))

  abbrev pub reconcile_found : OidcClient → E.World → Return × E.World
  reconcile_found oc w =
      if oc.deleting
      then reconcile_delete E c oc w
      else handle (ensure_finalizer oc) w (λ e w. (failing e, w))
          (λ oc w. write_status (reconcile_normal E c resync_interval oc w))

  -- `Reconcile` of a namespace and a name
  unfoldable pub reconcile : Text → Text → E.World → Return × E.World
  unfolding ensure_finalizer write_status
  reconcile namespace name w =
      handle (E.get_object namespace name) w
        (λ e w. (if is_not_found e then after 0 else failing e, w)) (λ oc w. reconcile_found oc w)
