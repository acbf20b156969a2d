-- ===== src/Controller/Reconcile/Finalizer.antt =====
-- tsidp is not acted on before the finalizer is stored.
use tsidp_operator.Prelude.{
  ℕ, ◌≡◌, refl, sym, ◌∙◌, ap, true, false, Option, none, some, Bool-cases, inl, inr,
}
use tsidp_operator.Text.{Text}
use tsidp_operator.Fault.{ok}
use tsidp_operator.Tsidp
use tsidp_operator.Api.{OidcClient}
use tsidp_operator.Controller.Environment.{Environment, IsLawful}
use tsidp_operator.Controller.Status.{Return}
use tsidp_operator.Controller.Normal.Frame.{handle_cases, if_cases}
use tsidp_operator.Controller.Normal.Calls.{reconcile_normal-kept}
use tsidp_operator.Controller.Normal.Requests.{KeptByCalls, Safe}
use tsidp_operator.Controller.Deletion.{finalizer_name, finalize, release, reconcile_delete}
use tsidp_operator.Controller.Deletion.Calls.{finalize-kept}
use tsidp_operator.Controller.Reconcile.{
  with_finalizer, ensure_finalizer, observed, write_status, reconcile_found, reconcile,
}

module _ (E : Environment) where
  -- The object carries the finalizer.
  abbrev pub Carries : OidcClient → Type 0
  Carries oc = E.contains_finalizer oc.finalizers finalizer_name ≡ true

  -- A world is guarded once a read or a write of the object showed the finalizer. Requests to tsidp,
  -- and what a pass does to Secrets, keep the property in a guarded world, and the world guarded;
  -- reads and writes of the object keep the property in any.
  pub record Guards (P Guarded : E.World → Type 0) : Type 0 where
    pub calls : KeptByCalls E (λ w. Guarded w × P w)
    pub by_get : (ns name : Text) (w : E.World) → P w → P (E.get_object ns name w).1
    pub found :
        (ns name : Text) (w : E.World) (oc : OidcClient)
        → (E.get_object ns name w).0 ≡ ok oc
        → Carries oc
        → Guarded (E.get_object ns name w).1
    pub by_update : (oc : OidcClient) (w : E.World) → P w → P (E.update_object oc w).1
    pub stored :
        (oc oc' : OidcClient) (w : E.World)
        → (E.update_object oc w).0 ≡ ok oc'
        → Carries oc
        → Guarded (E.update_object oc w).1
    pub by_status : (oc : OidcClient) (w : E.World) → P w → P (E.update_status oc w).1

module _ (E : Environment) (L : IsLawful E) (c : Tsidp.Client) (resync : ℕ)
    (P Guarded : E.World → Type 0) (g : Guards E P Guarded) where
  ensure_finalizer-stores :
      (oc : OidcClient) (w : E.World)
      → E.contains_finalizer oc.finalizers finalizer_name ≡ false
      → ensure_finalizer E c resync oc w ≡ E.update_object (with_finalizer E c resync oc) w
  unfolding ensure_finalizer
  ensure_finalizer-stores oc w e = rw (ensure_finalizer, e) refl

  ensure_finalizer-guards :
      (oc oc' : OidcClient) (w : E.World)
      → (Carries E oc → Guarded w)
      → P w
      → (ensure_finalizer E c resync oc w).0 ≡ ok oc'
      → Guarded (ensure_finalizer E c resync oc w).1 × P (ensure_finalizer E c resync oc w).1
  unfolding ensure_finalizer
  ensure_finalizer-guards oc oc' w known h p =
      elim (Bool-cases (E.contains_finalizer oc.finalizers finalizer_name)) [
        | inl e ↦ rw (ensure_finalizer, e) (known e, h)
        | inr e ↦ stored_anew e
      ]
    where
      stored_anew :
          E.contains_finalizer oc.finalizers finalizer_name ≡ false
          → Guarded (ensure_finalizer E c resync oc w).1 × P (ensure_finalizer E c resync oc w).1
      stored_anew e =
          let q = sym (ap (λ x. x.0) (ensure_finalizer-stores oc w e)) ∙ p in
          rw (ensure_finalizer, e)
            (
              g.stored (with_finalizer E c resync oc) oc' w q
                  (L.contains-add oc.finalizers finalizer_name),
              g.by_update _ w h,
            )

  ensure_finalizer-kept :
      (oc : OidcClient) (w : E.World) → P w → P (ensure_finalizer E c resync oc w).1
  unfolding ensure_finalizer
  ensure_finalizer-kept oc w h =
      elim (Bool-cases (E.contains_finalizer oc.finalizers finalizer_name)) [
        | inl e ↦ rw (ensure_finalizer, e) h
        | inr e ↦ rw (ensure_finalizer, e) (g.by_update _ w h)
      ]

  release-kept : (oc : OidcClient) (w : E.World) → P w → Safe P (release E c oc w)
  unfolding release
  release-kept oc w h =
      let h' = g.by_update _ w h in
      handle_cases (Safe P) _ _ _ _ (λ _ _. record { world = h' }) (λ _ _. record { world = h' })

  reconcile_delete-guarded :
      (oc : OidcClient) (w : E.World)
      → (Carries E oc → Guarded w)
      → P w
      → Safe P (reconcile_delete E c oc w)
  unfolding reconcile_delete
  reconcile_delete-guarded oc w known h =
      elim (Bool-cases (E.contains_finalizer oc.finalizers finalizer_name)) [
        | inl e ↦
            rw (reconcile_delete, e)
              (by_result (finalize E c oc w).0
                (finalize-kept E c resync _ g.calls oc w (known e, h)).world.1)
        | inr e ↦ rw (reconcile_delete, e) (record { world = h })
      ]
    where
      by_result :
          {w' : E.World} (r : Option Return)
          → P w'
          → Safe P {B = Return} (elim r [ some ret ↦ (ret, w') | none ↦ release E c oc w' ])
      by_result (some ret) h = record { world = h }
      by_result none h = release-kept oc _ h

  write_status-guarded :
      (x : (OidcClient × Return) × E.World) → P x.1 → Safe P (write_status E c resync x)
  unfolding write_status
  write_status-guarded ((oc, r), w) h =
      let h' = g.by_status (observed E c resync oc) w h in
      handle_cases (Safe P) _ _ _ _ (λ _ _. record { world = h' }) (λ _ _. record { world = h' })

  reconcile_found-guarded :
      (oc : OidcClient) (w : E.World)
      → (Carries E oc → Guarded w)
      → P w
      → Safe P (reconcile_found E c resync oc w)
  reconcile_found-guarded oc w known h =
      if_cases (Safe P) oc.deleting _ _ (λ _. reconcile_delete-guarded oc w known h)
        (λ _.
          handle_cases (Safe P) _ _ _ _ (λ _ _. record { world = ensure_finalizer-kept oc w h })
            (λ oc' p.
              let h' = ensure_finalizer-guards oc oc' w known h p in
              write_status-guarded _ (reconcile_normal-kept E c resync _ g.calls oc' _ h').1))

  reconcile-guarded : (ns name : Text) (w : E.World) → P w → Safe P (reconcile E c resync ns name w)
  unfolding reconcile
  reconcile-guarded ns name w h =
      let h' = g.by_get ns name w h in
      handle_cases (Safe P) _ _ _ _ (λ _ _. record { world = h' })
        (λ oc p. reconcile_found-guarded oc _ (g.found ns name w oc p) h')

  -- With lawful cluster libraries: a reconciliation keeps every property of the world that reads
  -- and writes of the object keep, and that requests to tsidp and the calls on Secrets need to
  -- keep only in worlds where a read or a successful write of the object has shown its finalizer;
  -- so nothing is asked of tsidp, in a pass or in a deletion, before the finalizer is stored.
  pub reconcile_guarded :
      (ns name : Text) (w : E.World) → P w → P (reconcile E c resync ns name w).1
  reconcile_guarded ns name w h = (reconcile-guarded ns name w h).world
