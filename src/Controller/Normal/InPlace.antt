-- ===== src/Controller/Normal/InPlace.antt =====
-- A drift that the policy InPlace repairs, over a cluster with a store and a tsidp that behaves as the
-- fake does.
use mathlib.Core.List.Perm
use tsidp_operator.Prelude.{ℕ, ◌≡◌, ◌≢◌, refl, sym, subst, true, false, [], some, arith}
use tsidp_operator.Prelude.Map.{lookup, lookup-insert}
use tsidp_operator.Text.{Text, is_empty, text_eq}
use tsidp_operator.Text.Lines.{AllSolid}
use tsidp_operator.Fault.{Error}
use tsidp_operator.Tsidp
use tsidp_operator.Tsidp.Methods.{update_client}
use tsidp_operator.Tsidp.{ProviderMetadata}
use tsidp_operator.Fake.{Client, Server}
use tsidp_operator.Fake.Handlers.{blank, any_rejected}
use tsidp_operator.Fake.Json.{visible}
use tsidp_operator.Fake.Contract.Reads.{metadata}
use tsidp_operator.Fake.Contract.Edit.{renamed}
use tsidp_operator.Api.{OidcClient, Secret, in_place}
use tsidp_operator.Controller.Environment.{Environment, Event, IsLawful, http}
use tsidp_operator.Controller.Names.{secret_name, registered_name, display_name, fingerprint}
use tsidp_operator.Controller.Names.Ownership.{IsAdmitted, registered_name-trimmed}
use tsidp_operator.Controller.Secrets.{controlled_by}
use tsidp_operator.Controller.Status.{Stage, handle, go, after, mark_ready, with_issuer}
use tsidp_operator.Controller.Deletion.Sweep.{RunsFake}
use tsidp_operator.Controller.Store.{RunsStore, CanOwn, At, Comes, handle-Comes}
use tsidp_operator.Controller.Store.Calls.{get_client-Comes, emit-At}
use tsidp_operator.Controller.Store.Edits.{edited_server, update_client-edits}
use tsidp_operator.Controller.Store.Writes.{Holds}
use tsidp_operator.Controller.Normal.{drifted, repair_drift, fix_drift, verify, reconcile_normal}
use tsidp_operator.Controller.Normal.Repair.{drifted_iff}
use tsidp_operator.Controller.Normal.Steady.{
  continue-Comes, IsServed, IsPassable, check_secret-Comes, refresh_secret-Comes, known_pass-Comes,
}

-- The recorded client is on the server and has drifted, and the object's policy and spec allow tsidp
-- to take the new name and URIs.
pub record IsRepairable (oc : OidcClient) (v : Server) (cl : Client) : Type 0 where
  pub found : lookup oc.status.client_id v.clients ≡ some cl
  pub drift : drifted oc (visible (blank cl)) ≡ true
  pub policy : oc.spec.update_policy ≡ in_place
  pub some_uris : oc.spec.redirect_uris ≢ []
  pub solid : AllSolid oc.spec.redirect_uris
  pub allowed : any_rejected oc.spec.redirect_uris ≡ false

-- The server with the name and the URIs of the object for its client.
abbrev pub repaired : OidcClient → Client → Server → Server
repaired oc cl v = edited_server oc.status.client_id (registered_name oc) oc.spec.redirect_uris cl v

repaired-IsServed :
    (oc : OidcClient) (cl : Client) (v : Server)
    → IsAdmitted oc
    → IsServed oc oc.status.client_id (repaired oc cl v)
unfolding blank
repaired-IsServed oc cl v a = record {
  client = renamed (registered_name oc) oc.spec.redirect_uris cl;
  found = rw lookup-insert (ground arith);
  undrifted =
      (drifted_iff oc (visible (blank (renamed (registered_name oc) oc.spec.redirect_uris cl)))).1
        (registered_name-trimmed oc a, Perm.refl oc.spec.redirect_uris);
}

repair_drift-edits :
    (E : Environment) (c : Tsidp.Client) (resync : ℕ) (oc : OidcClient) (w : E.World)
    → oc.spec.update_policy ≡ in_place
    → (f : Error → E.World → Stage × E.World) × (e : Event) × (repair_drift E c resync oc w
        ≡ handle
            (update_client
              (http E)
              c
              oc.status.client_id
              (registered_name oc)
              oc.spec.redirect_uris)
            w
            f
            (λ _ w. (go oc, E.emit e w)))
unfolding repair_drift
repair_drift-edits E c resync oc w p = simp (repair_drift, p) (_, _, refl)

module _ {E : Environment} {now : Text} {b : RunsFake E now} (L : IsLawful E) (oc : OidcClient)
    (st : RunsStore E now b oc.namespace (secret_name oc)) (own : CanOwn E oc) (c : Tsidp.Client)
    (resync : ℕ) (v : Server) (s : Secret) (cl : Client) (r : IsRepairable oc v cl)
    (n : is_empty oc.status.client_id ≡ false) where
  repair_drift-in_place :
      (w : E.World)
      → At st v (some s) w
      → Comes st (go oc) (repaired oc cl v) (some s) (repair_drift E c resync oc w)
  repair_drift-in_place w at =
      let (f, e, p) = repair_drift-edits E c resync oc w r.policy in
      subst (Comes st (go oc) (repaired oc cl v) (some s)) (sym p) (
        handle-Comes st _ w _ _
          (update_client-edits st c oc.status.client_id (registered_name oc) oc.spec.redirect_uris v
            cl w n r.some_uris r.found r.solid r.allowed at)
          (λ w₁ at₁. record { result = refl; at = emit-At st e at₁ }))

  fix_drift-in_place :
      (w : E.World)
      → At st v (some s) w
      → Comes st
          (go oc)
          (repaired oc cl v)
          (some s)
          (fix_drift E c resync (visible (blank cl)) oc w)
  unfolding fix_drift
  fix_drift-in_place w at = rw (fix_drift, r.drift) (repair_drift-in_place w at)

  verify-in_place :
      (disc : ProviderMetadata)
      → Holds E oc oc.status.client_id s
      → (t : Secret) × Holds E oc oc.status.client_id t
        × ((w : E.World)
            → At st v (some s) w
            → Comes st
                (mark_ready E oc, after resync)
                (repaired oc cl v)
                (some t)
                (verify E c resync disc oc w))
  unfolding verify
  verify-in_place disc k =
      let (t, k', finish) = refresh_secret-Comes L oc st own c resync (repaired oc cl v) s disc k in
      (
        t,
        k',
        λ w at.
            handle-Comes st _ w _ _ (get_client-Comes st c w at oc.status.client_id cl n r.found)
              (λ w₁ at₁.
                continue-Comes st c resync _ _
                  (check_secret-Comes L oc st own c resync v s w₁ k at₁)
                  (λ w₂ at₂. continue-Comes st c resync _ _ (fix_drift-in_place w₂ at₂) finish)),
      )

module _ (E : Environment) (now : Text) (b : RunsFake E now) (L : IsLawful E) (oc : OidcClient)
    (st : RunsStore E now b oc.namespace (secret_name oc)) (own : CanOwn E oc) (c : Tsidp.Client)
    (resync : ℕ) where
  -- Over a cluster that keeps the object's Secret and a tsidp that answers as the fake does, which
  -- has an issuer: a pass over an object whose names the API server admits, with the policy
  -- InPlace, no renamed Secret, at least one redirect URI, none of them empty, with white space or
  -- control characters or rejected by the edit form, a recorded client that tsidp has and that has
  -- drifted, and a Secret held that the object controls, with the client's credentials, ends ready
  -- with the same client after the resync interval, leaves tsidp with the registered name and
  -- these redirect URIs for that client and all else as it was, so that the client no longer
  -- drifts, and leaves such a Secret.
  pub in_place_pass :
      (w : E.World) (s : Secret) (cl : Client)
      → IsPassable E now b L oc st own c resync (b.server w)
      → IsAdmitted oc
      → st.held w ≡ some s
      → is_empty oc.status.client_id ≡ false
      → IsRepairable oc (b.server w) cl
      → Holds E oc oc.status.client_id s
      → ((reconcile_normal E c resync oc w).0
          ≡ (mark_ready E (with_issuer (b.server w).issuer oc), after resync))
        × (b.server (reconcile_normal E c resync oc w).1 ≡ repaired oc cl (b.server w))
        × IsServed oc oc.status.client_id (b.server (reconcile_normal E c resync oc w).1)
        × ((t : Secret) × (st.held (reconcile_normal E c resync oc w).1 ≡ some t)
            × Holds E oc oc.status.client_id t)
  unfolding secret_name drifted registered_name display_name fingerprint controlled_by
  in_place_pass w s cl p a h n d k =
      let v = b.server w in
      let oc' = with_issuer v.issuer oc in
      let (t, k', finish) =
        verify-in_place L oc' st own c resync v s cl
          (record {
            found = d.found;
            drift = d.drift;
            policy = d.policy;
            some_uris = d.some_uris;
            solid = d.solid;
            allowed = d.allowed;
          })
          n (metadata v.issuer) (record { owned = k.owned; credentials = k.credentials }) in
      let r =
        known_pass-Comes E now b L oc st own c resync w p n (record { server = refl; held = h })
          finish in
      (
        r.result,
        r.at.server,
        subst (IsServed oc oc.status.client_id) (sym r.at.server) (repaired-IsServed oc cl v a),
        (t, r.at.held, record { owned = k'.owned; credentials = k'.credentials }),
      )
