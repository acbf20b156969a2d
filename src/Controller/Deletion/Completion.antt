-- ===== src/Controller/Deletion/Completion.antt =====
-- The deletion of an object to its end, over a tsidp that behaves as the fake does.
use tsidp_operator.Prelude.{
  ℕ, ◌≡◌, ◌≢◌, refl, ap, ◌∙◌, true, false, Option, none, All, Bool-cases, inl, inr, if◌then◌else◌,
  string_eq,
}
use tsidp_operator.Prelude.Map.{lookup, erase}
use tsidp_operator.Text.{Text, is_empty, text_eq}
use tsidp_operator.Fault.{ok}
use tsidp_operator.Tsidp
use tsidp_operator.Tsidp.{FunnelClient}
use tsidp_operator.Fake.{Server}
use tsidp_operator.Fake.Json.{listing}
use tsidp_operator.Api.{OidcClient, DeletionPolicy, orphan}
use tsidp_operator.Controller.Environment.{Environment}
use tsidp_operator.Controller.Names.{fingerprint}
use tsidp_operator.Controller.Status.{Return, handle}
use tsidp_operator.Controller.Deletion.{
  finalizer_name, force_remove_finalizer_annotation, deregister_known, deregister, finalize,
  release, reconcile_delete,
}
use tsidp_operator.Controller.Deletion.Sweep.{
  RunsFake, swept, delete_client-cleared, deregister_unknown-swept,
}
use tsidp_operator.Controller.Reconcile.{reconcile}

-- What a deregistration is to leave of the server: without the recorded client or, when none is
-- recorded, without the clients that carry the object's fingerprint.
abbrev pub deregistered : OidcClient → Server → Server
deregistered oc v = record v {
  clients =
      if is_empty oc.status.client_id
      then swept (fingerprint oc) (listing v.clients) v.clients
      else erase oc.status.client_id v.clients;
}

module _ (E : Environment) (now : Text) (b : RunsFake E now) (c : Tsidp.Client)
    (oc : OidcClient) where
  -- A deregistration is done, and leaves the server so.
  record Deregisters (v : Server) (x : Option Return × E.World) : Type 0 where
    done : x.0 ≡ none
    server : b.server x.1 ≡ deregistered oc v

  deregister_known-erased :
      (w : E.World)
      → is_empty oc.status.client_id ≡ false
      → ((deregister_known E c oc w).0 ≡ none)
        × (b.server (deregister_known E c oc w).1
            ≡ record (b.server w) { clients = erase oc.status.client_id (b.server w).clients })
  unfolding deregister_known
  deregister_known-erased w n =
      let (r, s) = delete_client-cleared E now b c (fingerprint oc) oc.status.client_id w n in
      (rw (deregister_known, r) refl, rw (deregister_known, r) (b.quiet _ _ ∙ s))

  deregister-known :
      (w : E.World)
      → is_empty oc.status.client_id ≡ false
      → Deregisters (b.server w) (deregister E c oc w)
  unfolding deregister
  deregister-known w n =
      let (done, after) = deregister_known-erased w n in
      record { done = rw (deregister, n) done; server = rw (deregister, n) after }

  deregister-Deregisters :
      (w : E.World)
      → All (λ (x : FunnelClient). is_empty x.client_id ≡ false) (listing (b.server w).clients)
      → Deregisters (b.server w) (deregister E c oc w)
  unfolding deregister
  deregister-Deregisters w ids = elim (Bool-cases (is_empty oc.status.client_id)) [
    | inl e ↦
        let (done, after) = deregister_unknown-swept E now b c oc w ids in
        record { done = rw (deregister, e) done; server = rw (deregister, e) after }
    | inr n ↦ deregister-known w n
  ]

  finalize-Deregisters :
      (w : E.World)
      → lookup force_remove_finalizer_annotation oc.annotations ≡ none
      → oc.spec.deletion_policy ≢ orphan
      → Deregisters (b.server w) (deregister E c oc w)
      → Deregisters (b.server w) (finalize E c oc w)
  unfolding finalize
  finalize-Deregisters w a d k = rw (finalize, a) (by_policy oc.spec.deletion_policy d)
    where
      by_policy :
          (d : DeletionPolicy)
          → d ≢ orphan
          → Deregisters (b.server w) (elim d [ orphan ↦ (none, w) | _ ↦ deregister E c oc w ])
      by_policy orphan n = absurd (n refl)
      by_policy DeletionPolicy.deregister n = k
      by_policy (DeletionPolicy.other t) n = k

  reconcile_delete-released :
      (w : E.World)
      → E.contains_finalizer oc.finalizers finalizer_name ≡ true
      → Deregisters (b.server w) (finalize E c oc w)
      → reconcile_delete E c oc w ≡ release E c oc (finalize E c oc w).1
  unfolding reconcile_delete
  reconcile_delete-released w f k = rw (reconcile_delete, f, k.done) refl

  reconcile-deleting :
      (resync : ℕ) (namespace name : Text) (w w' : E.World)
      → E.get_object namespace name w ≡ (ok oc, w')
      → oc.deleting ≡ true
      → reconcile E c resync namespace name w ≡ reconcile_delete E c oc w'
  unfolding reconcile handle
  reconcile-deleting resync namespace name w w' got gone = simp (reconcile, handle, got, gone)

  -- The object is read as deleted, and its deletion is neither forced nor to leave orphans.
  pub record IsDeleted (namespace name : Text) (w w' : E.World) : Type 0 where
    pub read : E.get_object namespace name w ≡ (ok oc, w')
    pub deleting : oc.deleting ≡ true
    pub finalizer : E.contains_finalizer oc.finalizers finalizer_name ≡ true
    pub unforced : lookup force_remove_finalizer_annotation oc.annotations ≡ none
    pub deregisters : oc.spec.deletion_policy ≢ orphan

  completed :
      (resync : ℕ) (namespace name : Text) (w w' : E.World)
      → IsDeleted namespace name w w'
      → Deregisters (b.server w') (deregister E c oc w')
      → (v : E.World) × (reconcile E c resync namespace name w ≡ release E c oc v)
        × (b.server v ≡ deregistered oc (b.server w'))
  completed resync namespace name w w' d k =
      let k' = finalize-Deregisters w' d.unforced d.deregisters k in
      (
        (finalize E c oc w').1,
        reconcile-deleting resync namespace name w w' d.read d.deleting
            ∙ reconcile_delete-released w' d.finalizer k',
        k'.server,
      )

  -- Against a tsidp that answers as the fake does: a reconciliation of an object that is read as
  -- deleted, with the finalizer, no force-remove annotation and another policy than Orphan, where
  -- every client that tsidp lists has an id, does just what the release of the finalizer does from
  -- a world in which the object is deregistered: tsidp then holds all that it held but the
  -- recorded client or, when none is recorded, but the clients listed with the object's
  -- fingerprint.
  pub deletion_completes :
      (resync : ℕ) (namespace name : Text) (w w' : E.World)
      → IsDeleted namespace name w w'
      → All (λ (x : FunnelClient). is_empty x.client_id ≡ false) (listing (b.server w').clients)
      → (v : E.World) × (reconcile E c resync namespace name w ≡ release E c oc v)
        × (b.server v ≡ deregistered oc (b.server w'))
  deletion_completes resync namespace name w w' d ids =
      completed resync namespace name w w' d (deregister-Deregisters w' ids)

  -- The same with a recorded client, whatever tsidp lists.
  pub deletion_erases :
      (resync : ℕ) (namespace name : Text) (w w' : E.World)
      → IsDeleted namespace name w w'
      → is_empty oc.status.client_id ≡ false
      → (v : E.World) × (reconcile E c resync namespace name w ≡ release E c oc v)
        × ((b.server v).clients ≡ erase oc.status.client_id (b.server w').clients)
  deletion_erases resync namespace name w w' d n =
      let (v, p, q) = completed resync namespace name w w' d (deregister-known w' n) in
      (v, p, ap (λ (s : Server). s.clients) q ∙ rw n refl)
