-- ===== src/Controller/Deletion/Release.antt =====
-- What keeps the finalizer of a deleted object, and when no deregistration is asked for.
use tsidp_operator.Prelude.{
  string_eq, ◌≡◌, ◌≢◌, refl, sym, ap, subst, true, false, not, [], ◌∷◌, ◌++◌, Option, none, some,
  String, arith,
}
use tsidp_operator.Prelude.Map.{lookup}
use tsidp_operator.Text.{Text, is_empty, runes}
use tsidp_operator.Wire.{get, delete, Body, Request}
use tsidp_operator.Fault.{Error, err, is_tsidp_not_found}
use tsidp_operator.Tsidp
use tsidp_operator.Tsidp.Methods.{list_clients, delete_client}
use tsidp_operator.Api.{OidcClient, DeletionPolicy, orphan}
use tsidp_operator.Controller.Environment.{Environment, Event, http}
use tsidp_operator.Controller.Status.{Return, after, err_backoff, handle}
use tsidp_operator.Controller.Normal.Frame.{if_cases}
use tsidp_operator.Controller.Deletion.{
  finalizer_name, force_remove_finalizer_annotation, deregister_known, deregister_unknown,
  deregister, finalize, reconcile_delete, retry,
}

-- The escape hatch is open: the annotation is there, or the policy is Orphan.
pub data IsExempt (oc : OidcClient) : Type 0 where
  forced :
      (v : String) → lookup force_remove_finalizer_annotation oc.annotations ≡ some v → IsExempt oc
  orphaned : oc.spec.deletion_policy ≡ orphan → IsExempt oc

-- A property that any exchange with tsidp, and any event, keeps.
pub record KeptByTsidp (E : Environment) (P : E.World → Type 0) : Type 0 where
  pub by_send : (r : Request) (w : E.World) → P w → P (E.send r w).1
  pub by_event : (e : Event) (w : E.World) → P w → P (E.emit e w)

-- No request reaches tsidp.
abbrev pub IsDown : Environment → Type 0
IsDown E =
    (r : Request) (w : E.World)
    → (e : Error) × ((E.send r w).0 ≡ err e) × (is_tsidp_not_found e ≡ false)

module _ (E : Environment) (c : Tsidp.Client) (down : IsDown E) where
  delete_client-down :
      (id : Text) (w : E.World)
      → (r : Request) × (e : Error) × (delete_client (http E) c id w ≡ (err e, (E.send r w).1))
        × (is_tsidp_not_found e ≡ false)
  unfolding delete_client
  delete_client-down id w =
      let r : Request = record {
        method = delete;
        base_url = c.base_url;
        path = runes "/clients/" ++ id;
        content_type = "";
        body = Body.absent;
      } in
      let (e, p, q) = down r w in (r, e, rw p refl, q)

  list_clients-down :
      (w : E.World)
      → (r : Request) × (e : Error) × (list_clients (http E) c w ≡ (err e, (E.send r w).1))
  unfolding list_clients
  list_clients-down w =
      let r : Request = record {
        method = get;
        base_url = c.base_url;
        path = runes "/clients/";
        content_type = "";
        body = Body.absent;
      } in
      let (e, p, q) = down r w in (r, e, rw p refl)

  deregister_known-failed :
      (oc : OidcClient) (w : E.World) (e : Error) (w' : E.World)
      → delete_client (http E) c oc.status.client_id w ≡ (err e, w')
      → is_tsidp_not_found e ≡ false
      → deregister_known E c oc w
        ≡ retry E c
            "failed to deregister client %s from tsidp (will retry; annotate with %s to skip): %v"
            (oc.status.client_id ∷ runes force_remove_finalizer_annotation ∷ [])
            e
            w'
  unfolding deregister_known
  deregister_known-failed oc w e w' p q = ground (arith, ap (λ y. y.0) p, ap (λ y. y.1) p)

  module _ (P : E.World → Type 0) (k : KeptByTsidp E P) where
    -- The pass ends with a retry, and keeps the property.
    pub record Retried (x : Option Return × E.World) : Type 0 where
      pub again : x.0 ≡ some (after err_backoff)
      pub world : P x.1

    deregister-down : (oc : OidcClient) (w : E.World) → P w → Retried (deregister E c oc w)
    unfolding deregister deregister_known deregister_unknown handle
    deregister-down oc w h =
        if_cases Retried (not (is_empty oc.status.client_id)) _ _
          (λ _.
            let (r, e, p, q) = delete_client-down oc.status.client_id w in
            subst Retried (sym (deregister_known-failed oc w e _ p q))
              (record { again = refl; world = k.by_event _ _ (k.by_send r w h) }))
          (λ _.
            let (r, e, p) = list_clients-down w in
            rw (deregister_unknown, handle, ap (λ y. y.0) p, ap (λ y. y.1) p)
              (record { again = refl; world = k.by_event _ _ (k.by_send r w h) }))

    finalize-down :
        (oc : OidcClient) (w : E.World)
        → lookup force_remove_finalizer_annotation oc.annotations ≡ none
        → oc.spec.deletion_policy ≢ orphan
        → P w
        → Retried (finalize E c oc w)
    unfolding finalize
    finalize-down oc w a d h = rw (finalize, a) (by_policy oc.spec.deletion_policy d)
      where
        by_policy :
            (d : DeletionPolicy)
            → d ≢ orphan
            → Retried (elim d [ orphan ↦ (none, w) | _ ↦ deregister E c oc w ])
        by_policy orphan n = absurd (n refl)
        by_policy DeletionPolicy.deregister n = deregister-down oc w h
        by_policy (DeletionPolicy.other t) n = deregister-down oc w h

    -- While no request reaches tsidp, a pass over a deleted object that has the finalizer, no
    -- force-remove annotation and another policy than Orphan comes back after the back-off, and
    -- keeps every property of the world that requests to tsidp and events keep: the finalizer
    -- stays.
    pub unreachable_delete :
        (oc : OidcClient) (w : E.World)
        → E.contains_finalizer oc.finalizers finalizer_name ≡ true
        → lookup force_remove_finalizer_annotation oc.annotations ≡ none
        → oc.spec.deletion_policy ≢ orphan
        → P w
        → ((reconcile_delete E c oc w).0 ≡ after err_backoff) × P (reconcile_delete E c oc w).1
    unfolding reconcile_delete
    unreachable_delete oc w f a d h =
        let v = finalize-down oc w a d h in rw (reconcile_delete, f, v.again) (refl, v.world)
