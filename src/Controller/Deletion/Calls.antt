-- ===== src/Controller/Deletion/Calls.antt =====
-- Properties of the world that every call of a pass keeps, the deregistration keeps.
use tsidp_operator.Prelude.{
  ℕ, ◌≡◌, refl, true, not, List, [], ◌∷◌, Option, none, some, String, string_eq, Bool-cases, inl,
  inr,
}
use tsidp_operator.Prelude.Map.{lookup}
use tsidp_operator.Text.{Text, is_empty}
use tsidp_operator.Text.Find.{has_substring}
use tsidp_operator.Fault.{Error}
use tsidp_operator.Tsidp
use tsidp_operator.Tsidp.{FunnelClient}
use tsidp_operator.Tsidp.Methods.{delete_client}
use tsidp_operator.Api.{OidcClient, DeletionPolicy, orphan}
use tsidp_operator.Controller.Environment.{Environment, http}
use tsidp_operator.Controller.Names.{fingerprint}
use tsidp_operator.Controller.Status.{Return}
use tsidp_operator.Controller.Registration.{serious}
use tsidp_operator.Controller.Normal.Frame.{handle_cases, if_cases, list_clients-kept}
use tsidp_operator.Controller.Normal.Requests.{KeptByCalls, Safe, delete_client-kept}
use tsidp_operator.Controller.Deletion.{
  force_remove_finalizer_annotation, deregister_known, deregister_listed, deregister_unknown,
  deregister, finalize,
}

module _ (E : Environment) (c : Tsidp.Client) (resync : ℕ) (P : E.World → Type 0)
    (k : KeptByCalls E P) where
  deregister_known-kept : (oc : OidcClient) (w : E.World) → P w → Safe P (deregister_known E c oc w)
  unfolding deregister_known
  deregister_known-kept oc w h =
      by_result (serious (delete_client (http E) c oc.status.client_id w).0) refl
    where
      h' : P (delete_client (http E) c oc.status.client_id w).1
      h' = delete_client-kept E c resync P k oc.status.client_id w h

      by_result :
          (r : Option Error)
          → serious (delete_client (http E) c oc.status.client_id w).0 ≡ r
          → Safe P (deregister_known E c oc w)
      by_result (some e) p = rw (deregister_known, p) (record { world = k.reads.by_event _ _ h' })
      by_result none p = rw (deregister_known, p) (record { world = k.reads.by_event _ _ h' })

  -- A client with the fingerprint is deleted; the rest follows if that did not fail.
  listed_own-kept :
      (fp : Text) (x : FunnelClient) (xs : List FunnelClient) (w : E.World)
      → has_substring x.client_name fp ≡ true
      → P w
      → ((w : E.World) → P w → Safe P (deregister_listed E c fp xs w))
      → Safe P (deregister_listed E c fp (x ∷ xs) w)
  unfolding deregister_listed
  listed_own-kept fp x xs w own h rest =
      by_result (serious (delete_client (http E) c x.client_id w).0) refl
    where
      h' : P (delete_client (http E) c x.client_id w).1
      h' = delete_client-kept E c resync P k x.client_id w h

      by_result :
          (r : Option Error)
          → serious (delete_client (http E) c x.client_id w).0 ≡ r
          → Safe P (deregister_listed E c fp (x ∷ xs) w)
      by_result (some e) p =
          rw (deregister_listed, own, p) (record { world = k.reads.by_event _ _ h' })
      by_result none p = rw (deregister_listed, own, p) (rest _ (k.reads.by_event _ _ h'))

  deregister_listed-kept :
      (fp : Text) (xs : List FunnelClient) (w : E.World)
      → P w
      → Safe P (deregister_listed E c fp xs w)
  unfolding deregister_listed
  deregister_listed-kept fp [] w h = record { world = h }
  deregister_listed-kept fp (x ∷ xs) w h = elim (Bool-cases (has_substring x.client_name fp)) [
    | inl e ↦ listed_own-kept fp x xs w e h (λ w' h'. deregister_listed-kept fp xs w' h')
    | inr e ↦ rw (deregister_listed, e) (deregister_listed-kept fp xs w h)
  ]

  deregister-kept : (oc : OidcClient) (w : E.World) → P w → Safe P (deregister E c oc w)
  unfolding deregister deregister_unknown
  deregister-kept oc w h =
      let h' = list_clients-kept c k.reads w h in
      if_cases (Safe P) (not (is_empty oc.status.client_id)) _ _ (λ _. deregister_known-kept oc w h)
        (λ _.
          handle_cases (Safe P) _ _ _ _ (λ _ _. record { world = k.reads.by_event _ _ h' })
            (λ list _. deregister_listed-kept (fingerprint oc) list _ h'))

  pub finalize-kept : (oc : OidcClient) (w : E.World) → P w → Safe P (finalize E c oc w)
  unfolding finalize
  finalize-kept oc w h =
      by_force (lookup force_remove_finalizer_annotation oc.annotations) oc.spec.deletion_policy
    where
      by_force :
          (f : Option String) (d : DeletionPolicy)
          → Safe P {B = Option Return} (elim f [
            | some v ↦ (none, w)
            | none ↦ elim d [ orphan ↦ (none, w) | _ ↦ deregister E c oc w ]
          ])
      by_force (some v) d = record { world = h }
      by_force none orphan = record { world = h }
      by_force none DeletionPolicy.deregister = deregister-kept oc w h
      by_force none (DeletionPolicy.other t) = deregister-kept oc w h
