-- ===== src/Controller/Deletion/Order.antt =====
-- The order of a deletion: what tsidp has answered when the finalizer is removed.
use tsidp_operator.Prelude.{
  ◌≡◌, refl, sym, subst, ap, true, false, not, Option, none, some, String, string_eq,
}
use tsidp_operator.Prelude.Map.{lookup}
use tsidp_operator.Text.{is_empty}
use tsidp_operator.Wire.{Request}
use tsidp_operator.Fault.{Error, proceed-lift}
use tsidp_operator.Tsidp
use tsidp_operator.Tsidp.Methods.{delete_client, deleted}
use tsidp_operator.Api.{OidcClient, DeletionPolicy, orphan}
use tsidp_operator.Controller.Environment.{Environment, Event, http}
use tsidp_operator.Controller.Status.{Return}
use tsidp_operator.Controller.Registration.{serious}
use tsidp_operator.Controller.Normal.Frame.{handle_cases, if_cases}
use tsidp_operator.Controller.Normal.Requests.{Safe}
use tsidp_operator.Controller.Deletion.{
  finalizer_name, force_remove_finalizer_annotation, deregister_known, deregister, finalize,
  without_finalizer, release, reconcile_delete,
}
use tsidp_operator.Controller.Deletion.Release.{IsExempt, forced, orphaned}

-- Once the client is gone, or from the start if the escape hatch is open, the world is cleared.
-- Requests to tsidp and events keep the property in any world; the update that removes the finalizer
-- needs to keep it only in a cleared one.
pub record Gates (E : Environment) (c : Tsidp.Client) (oc : OidcClient)
    (P Cleared : E.World → Type 0) : Type 0 where
  pub by_send : (r : Request) (w : E.World) → P w → P (E.send r w).1
  pub by_event : (e : Event) (w : E.World) → P w → P (E.emit e w)
  pub stays : (e : Event) (w : E.World) → Cleared w → Cleared (E.emit e w)
  pub exempt : IsExempt oc → (w : E.World) → Cleared w
  pub gone :
      (w : E.World)
      → serious (delete_client (http E) c oc.status.client_id w).0 ≡ none
      → Cleared (delete_client (http E) c oc.status.client_id w).1
  pub by_release :
      (w : E.World) → Cleared w → P w → P (E.update_object (without_finalizer E c oc) w).1

module _ (E : Environment) (c : Tsidp.Client) (oc : OidcClient) (P Cleared : E.World → Type 0)
    (g : Gates E c oc P Cleared) where
  -- The property is kept, and if the deregistration is done, the world is cleared.
  record Gated (x : Option Return × E.World) : Type 0 where
    world : P x.1
    cleared : x.0 ≡ none → Cleared x.1

  known-Gated : (w : E.World) → P w → Gated (deregister_known E c oc w)
  unfolding deregister_known delete_client
  known-Gated w h = by_result (serious (delete_client (http E) c oc.status.client_id w).0) refl
    where
      h' : P (delete_client (http E) c oc.status.client_id w).1
      h' = subst P (sym (proceed-lift _ _ deleted)) (g.by_send _ w h)

      by_result :
          (r : Option Error)
          → serious (delete_client (http E) c oc.status.client_id w).0 ≡ r
          → Gated (deregister_known E c oc w)
      by_result (some e) p =
          rw (deregister_known, p) (record { world = g.by_event _ _ h'; cleared = λ q. cc })
      by_result none p =
          rw (deregister_known, p)
            (record { world = g.by_event _ _ h'; cleared = λ q. g.stays _ _ (g.gone w p) })

  exempt-Gated : (w : E.World) → P w → IsExempt oc → Gated (none, w)
  exempt-Gated w h x = record { world = h; cleared = λ q. g.exempt x w }

  finalize-Gated :
      (w : E.World) → not (is_empty oc.status.client_id) ≡ true → P w → Gated (finalize E c oc w)
  unfolding finalize deregister
  finalize-Gated w n h =
      by_annotation (lookup force_remove_finalizer_annotation oc.annotations) refl
    where
      by_policy :
          (d : DeletionPolicy)
          → oc.spec.deletion_policy ≡ d
          → Gated (elim d [ orphan ↦ (none, w) | _ ↦ deregister E c oc w ])
      by_policy orphan p = exempt-Gated w h (orphaned p)
      by_policy DeletionPolicy.deregister p = rw (deregister, n) (known-Gated w h)
      by_policy (DeletionPolicy.other t) p = rw (deregister, n) (known-Gated w h)

      by_annotation :
          (a : Option String)
          → lookup force_remove_finalizer_annotation oc.annotations ≡ a
          → Gated (finalize E c oc w)
      by_annotation (some v) p = rw (finalize, p) (exempt-Gated w h (forced v p))
      by_annotation none p = rw (finalize, p) (by_policy oc.spec.deletion_policy refl)

  -- Whatever tsidp and the cluster answer, for an object with a recorded client: a pass over the
  -- deleted object keeps every property of the world that requests to tsidp and events keep, and
  -- that the update which removes the finalizer needs to keep only in cleared worlds: those after
  -- a deletion of the recorded client in tsidp that succeeded or found it unknown, and every world
  -- if the object has the force-remove annotation or the policy Orphan. So otherwise the finalizer
  -- is removed only after tsidp has answered that the client is gone.
  pub released_in_order :
      (w : E.World) → is_empty oc.status.client_id ≡ false → P w → P (reconcile_delete E c oc w).1
  unfolding reconcile_delete release
  released_in_order w n h =
      let k = finalize-Gated w (ap not n) h in
      (if_cases (Safe P) (not (E.contains_finalizer oc.finalizers finalizer_name)) _ _
        (λ _. record { world = h }) (λ _. by_result (finalize E c oc w).0 k.world k.cleared)).world
    where
      by_result :
          {w' : E.World} (r : Option Return)
          → P w'
          → (r ≡ none → Cleared w')
          → Safe P {B = Return} (elim r [ some ret ↦ (ret, w') | none ↦ release E c oc w' ])
      by_result (some ret) h d = record { world = h }
      by_result {w'} none h d =
          let h' = g.by_release w' (d refl) h in
          handle_cases (Safe P) _ _ _ _ (λ _ _. record { world = h' })
            (λ _ _. record { world = h' })
