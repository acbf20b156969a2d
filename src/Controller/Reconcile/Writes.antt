-- ===== src/Controller/Reconcile/Writes.antt =====
-- What `Reconcile` writes into the status.
use tsidp_operator.Prelude.{ℕ, ◌≡◌, refl, not, Option, none, some, string_eq}
use tsidp_operator.Text.{Text}
use tsidp_operator.Tsidp
use tsidp_operator.Tsidp.{FunnelClient}
use tsidp_operator.Api.{OidcClient}
use tsidp_operator.Controller.Environment.{Environment}
use tsidp_operator.Controller.Status.{Return}
use tsidp_operator.Controller.Normal.Frame.{handle_cases, if_cases}
use tsidp_operator.Controller.Normal.Calls.{reconcile_normal-kept}
use tsidp_operator.Controller.Normal.Requests.{KeptByCalls, Safe}
use tsidp_operator.Controller.Deletion.{finalizer_name, finalize, release, reconcile_delete}
use tsidp_operator.Controller.Deletion.Calls.{finalize-kept}
use tsidp_operator.Controller.Reconcile.{
  ensure_finalizer, observed, write_status, reconcile_found, reconcile,
}

-- Every call keeps the property, the write of a status if that status has observed the generation
-- of its object.
pub record KeptByReconcile (E : Environment) (P : E.World → Type 0) : Type 0 where
  pub calls : KeptByCalls E P
  pub by_get_object : (ns name : Text) (w : E.World) → P w → P (E.get_object ns name w).1
  pub by_update_object : (oc : OidcClient) (w : E.World) → P w → P (E.update_object oc w).1
  pub by_update_status :
      (oc : OidcClient) (w : E.World)
      → oc.status.observed_generation ≡ oc.generation
      → P w
      → P (E.update_status oc w).1

module _ (E : Environment) (c : Tsidp.Client) (resync : ℕ) (P : E.World → Type 0)
    (k : KeptByReconcile E P) where
  release-kept : (oc : OidcClient) (w : E.World) → P w → Safe P (release E c oc w)
  unfolding release
  release-kept oc w h =
      let h' = k.by_update_object _ w h in
      handle_cases (Safe P) _ _ _ _ (λ _ _. record { world = h' }) (λ _ _. record { world = h' })

  reconcile_delete-kept : (oc : OidcClient) (w : E.World) → P w → Safe P (reconcile_delete E c oc w)
  unfolding reconcile_delete
  reconcile_delete-kept oc w h =
      if_cases (Safe P) (not (E.contains_finalizer oc.finalizers finalizer_name)) _ _
        (λ _. record { world = h })
        (λ _. by_result (finalize E c oc w).0 (finalize-kept E c resync P k.calls oc w h).world)
    where
      by_result :
          {w' : E.World} (r : Option Return)
          → P w'
          → Safe P {B = Return} (elim r [ some ret ↦ (ret, w') | none ↦ release E c oc w' ])
      by_result (some ret) h = record { world = h }
      by_result none h = release-kept oc _ h

  write_status-kept :
      (x : (OidcClient × Return) × E.World) → P x.1 → Safe P (write_status E c resync x)
  unfolding write_status
  write_status-kept ((oc, r), w) h =
      let h' = k.by_update_status (observed E c resync oc) w refl h in
      handle_cases (Safe P) _ _ _ _ (λ _ _. record { world = h' }) (λ _ _. record { world = h' })

  ensure_finalizer-kept :
      (oc : OidcClient) (w : E.World) → P w → Safe P (ensure_finalizer E c resync oc w)
  unfolding ensure_finalizer
  ensure_finalizer-kept oc w h =
      if_cases (Safe P) (E.contains_finalizer oc.finalizers finalizer_name) _ _
        (λ _. record { world = h }) (λ _. record { world = k.by_update_object _ w h })

  reconcile_found-kept :
      (oc : OidcClient) (w : E.World) → P w → Safe P (reconcile_found E c resync oc w)
  reconcile_found-kept oc w h =
      let h' = (ensure_finalizer-kept oc w h).world in
      if_cases (Safe P) oc.deleting _ _ (λ _. reconcile_delete-kept oc w h)
        (λ _.
          handle_cases (Safe P) _ _ _ _ (λ _ _. record { world = h' })
            (λ oc' _. write_status-kept _ (reconcile_normal-kept E c resync P k.calls oc' _ h')))

  reconcile-Safe : (ns name : Text) (w : E.World) → P w → Safe P (reconcile E c resync ns name w)
  unfolding reconcile
  reconcile-Safe ns name w h =
      let h' = k.by_get_object ns name w h in
      handle_cases (Safe P) _ _ _ _ (λ _ _. record { world = h' })
        (λ oc _. reconcile_found-kept oc _ h')

  -- Whatever tsidp and the cluster answer: a reconciliation keeps every property of the world that
  -- all its calls keep, if a status write needs to keep it only when the status carries the
  -- generation of its object; so each status that is written has observed the object's generation,
  -- on every path.
  pub reconcile_observed :
      (ns name : Text) (w : E.World) → P w → P (reconcile E c resync ns name w).1
  reconcile_observed ns name w h = (reconcile-Safe ns name w h).world
