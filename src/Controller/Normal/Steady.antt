-- ===== src/Controller/Normal/Steady.antt =====
-- The verification of a client that is registered and whose Secret holds its credentials, over a
-- cluster with a store and a tsidp that behaves as the fake does.
use tsidp_operator.Prelude.{ℕ, ◌≡◌, refl, subst, true, false, Option, none, some, ◌==◌, ◌||◌}
use tsidp_operator.Prelude.Map.{lookup}
use tsidp_operator.Text.{Text, is_empty, text_eq}
use tsidp_operator.Tsidp
use tsidp_operator.Tsidp.{FunnelClient, ProviderMetadata}
use tsidp_operator.Fake.{Client, Server}
use tsidp_operator.Fake.Handlers.{blank}
use tsidp_operator.Fake.Json.{visible}
use tsidp_operator.Fake.Contract.Reads.{metadata}
use tsidp_operator.Api.{OidcClient, Secret}
use tsidp_operator.Controller.Environment.{Environment, IsLawful}
use tsidp_operator.Controller.Names.{secret_name, registered_name, display_name, fingerprint}
use tsidp_operator.Controller.Secrets.{controlled_by}
use tsidp_operator.Controller.Status.{Return, Stage, stop, go, after, mark_ready, with_issuer}
use tsidp_operator.Controller.Deletion.Sweep.{RunsFake}
use tsidp_operator.Controller.Store.{RunsStore, CanOwn, At, Comes, handle-Comes}
use tsidp_operator.Controller.Store.Calls.{discovery-Comes, get_client-Comes, read-Comes}
use tsidp_operator.Controller.Store.Writes.{
  Holds, converge_secret-Writes, upsert_secret-Comes, refreshed-Holds,
}
use tsidp_operator.Controller.Normal.{
  bad_uri, drifted, rename_secret, establish, check_secret, fix_drift, refresh_secret, continue,
  verify, with_metadata, reconcile_normal,
}

module _ {E : Environment} {now : Text} {b : RunsFake E now} {ns name : Text}
    (st : RunsStore E now b ns name) (c : Tsidp.Client) (resync : ℕ) where
  pub continue-Comes :
      {oc : OidcClient} {r : OidcClient × Return} {v v' : Server} {h h' : Option Secret}
      (x : Stage × E.World) (k : OidcClient → E.World → (OidcClient × Return) × E.World)
      → Comes st (go oc) v h x
      → ((w : E.World) → At st v h w → Comes st r v' h' (k oc w))
      → Comes st r v' h' (continue E c resync x k)
  continue-Comes (stop y, w) k p q = let e = p.result in cc
  continue-Comes {oc} {r} {v'} {h'} (go oc', w) k p q =
      let e : oc ≡ oc' = let e' = p.result in cc in
      subst (λ o. Comes st r v' h' (k o w)) e (q w p.at)

-- The object's client is on the server, with the name and the redirect URIs that the object asks for.
pub record IsServed (oc : OidcClient) (id : Text) (v : Server) : Type 0 where
  pub client : Client
  pub found : lookup id v.clients ≡ some client
  pub undrifted : drifted oc (visible (blank client)) ≡ false

module _ {E : Environment} {now : Text} {b : RunsFake E now} (L : IsLawful E) (oc : OidcClient)
    (st : RunsStore E now b oc.namespace (secret_name oc)) (own : CanOwn E oc) (c : Tsidp.Client)
    (resync : ℕ) (v : Server) (s : Secret) where
  pub check_secret-Comes :
      (w : E.World)
      → Holds E oc oc.status.client_id s
      → At st v (some s) w
      → Comes st (go oc) v (some s) (check_secret E c resync oc w)
  unfolding check_secret
  check_secret-Comes w k at =
      handle-Comes st _ w _ _ (read-Comes oc st w at)
        (λ w' at'. rw k.credentials (record { result = refl; at = at' }))

  fix_drift-Comes :
      (fc : FunnelClient) (w : E.World)
      → drifted oc fc ≡ false
      → At st v (some s) w
      → Comes st (go oc) v (some s) (fix_drift E c resync fc oc w)
  unfolding fix_drift
  fix_drift-Comes fc w d at = rw (fix_drift, d) (record { result = refl; at = at })

  pub refresh_secret-Comes :
      (disc : ProviderMetadata)
      → Holds E oc oc.status.client_id s
      → (t : Secret) × Holds E oc oc.status.client_id t
        × ((w : E.World)
            → At st v (some s) w
            → Comes st
                (mark_ready E oc, after resync)
                v
                (some t)
                (refresh_secret E c resync disc oc w))
  unfolding refresh_secret
  refresh_secret-Comes disc k =
      let (t, p) = converge_secret-Writes oc st none disc (some s) own k.owned in
      (
        st.stored t,
        refreshed-Holds L oc st disc s t oc.status.client_id k p,
        λ w at.
            handle-Comes st _ w _ _ (upsert_secret-Comes oc st none disc w p at)
              (λ w' at'. record { result = refl; at = at' }),
      )

  pub verify-Comes :
      (disc : ProviderMetadata)
      → is_empty oc.status.client_id ≡ false
      → IsServed oc oc.status.client_id v
      → Holds E oc oc.status.client_id s
      → (t : Secret) × Holds E oc oc.status.client_id t
        × ((w : E.World)
            → At st v (some s) w
            → Comes st (mark_ready E oc, after resync) v (some t) (verify E c resync disc oc w))
  unfolding verify
  verify-Comes disc n served k =
      let (t, k', finish) = refresh_secret-Comes disc k in
      let fc = visible (blank served.client) in
      (
        t,
        k',
        λ w at.
            handle-Comes st _ w _ _
              (get_client-Comes st c w at oc.status.client_id served.client n served.found)
              (λ w₁ at₁. continue-Comes st c resync _ _ (check_secret-Comes w₁ k at₁) (λ w₂ at₂.
                continue-Comes st c resync _ _ (fix_drift-Comes fc w₂ served.undrifted at₂)
                  finish)),
      )

pub establish-known :
    (E : Environment) {now : Text} {b : RunsFake E now} {ns name : Text}
    (st : RunsStore E now b ns name) (c : Tsidp.Client) (resync : ℕ) (oc : OidcClient)
    (disc : ProviderMetadata) {v : Server} {h : Option Secret} (w : E.World)
    → is_empty oc.status.client_id ≡ false
    → At st v h w
    → Comes st (go oc) v h (establish E c resync oc disc w)
unfolding establish
establish-known E st c resync oc disc w n at = rw (establish, n) (record { result = refl; at = at })

-- The Secret's name that the status records, if it records one, is still the one to use.
abbrev pub IsUnrenamed : OidcClient → Type 0
IsUnrenamed oc = is_empty oc.status.secret_name || oc.status.secret_name == secret_name oc ≡ true

module _ {E : Environment} {now : Text} {b : RunsFake E now} (L : IsLawful E) (oc : OidcClient)
    (st : RunsStore E now b oc.namespace (secret_name oc)) (own : CanOwn E oc) (c : Tsidp.Client)
    (resync : ℕ) (v : Server) (h : Option Secret) where
  -- A pass goes on from the discovery with the object given the issuer.
  pub reconcile_normal-Comes :
      {r : OidcClient × Return} {v' : Server} {h' : Option Secret} (w : E.World)
      → bad_uri oc.spec.redirect_uris ≡ none
      → is_empty v.issuer ≡ false
      → At st v h w
      → ((w : E.World)
          → At st v h w
          → Comes st r v' h'
              (with_metadata E c resync (metadata v.issuer) (with_issuer v.issuer oc) w))
      → Comes st r v' h' (reconcile_normal E c resync oc w)
  unfolding reconcile_normal
  reconcile_normal-Comes w good i at rest =
      rw (reconcile_normal, good) (handle-Comes st _ w _ _ (discovery-Comes st c w at i) rest)

  pub rename_secret-Comes :
      (w : E.World)
      → IsUnrenamed oc
      → At st v h w
      → Comes st (go oc) v h (rename_secret E c resync oc w)
  unfolding rename_secret
  rename_secret-Comes w u at = rw (rename_secret, u) (record { result = refl; at = at })

module _ (E : Environment) (now : Text) (b : RunsFake E now) (L : IsLawful E) (oc : OidcClient)
    (st : RunsStore E now b oc.namespace (secret_name oc)) (own : CanOwn E oc) (c : Tsidp.Client)
    (resync : ℕ) where
  -- What a pass needs of the object and of tsidp to get as far as the registration.
  pub record IsPassable (v : Server) : Type 0 where
    pub good : bad_uri oc.spec.redirect_uris ≡ none
    pub issuer : is_empty v.issuer ≡ false
    pub unrenamed : IsUnrenamed oc

  -- A pass over an object with a recorded client goes on to its verification.
  pub known_pass-Comes :
      {r : OidcClient × Return} {v v' : Server} {h h' : Option Secret} (w : E.World)
      → IsPassable v
      → is_empty oc.status.client_id ≡ false
      → At st v h w
      → ((w : E.World)
          → At st v h w
          → Comes st r v' h' (verify E c resync (metadata v.issuer) (with_issuer v.issuer oc) w))
      → Comes st r v' h' (reconcile_normal E c resync oc w)
  unfolding with_metadata secret_name controlled_by
  known_pass-Comes {v} {h} w p n at rest =
      let oc' = with_issuer v.issuer oc in
      reconcile_normal-Comes L oc st own c resync v h w p.good p.issuer at (λ w₁ at₁.
        continue-Comes st c resync _ _
          (rename_secret-Comes L oc' st own c resync v h w₁ p.unrenamed at₁)
          (λ w₂ at₂.
            continue-Comes st c resync _ _ (establish-known E st c resync oc' _ w₂ n at₂) rest))

  -- Over a cluster that keeps the object's Secret and a tsidp that answers as the fake does, which
  -- has an issuer: a pass over an object with a recorded client that tsidp serves without drift,
  -- with redirect URIs without white space and control characters, no renamed Secret, and a Secret
  -- held that the object controls, with the client's credentials, ends ready with the same client
  -- after the resync interval, leaves tsidp as it is, and leaves such a Secret.
  pub steady_pass :
      (w : E.World) (s : Secret)
      → IsPassable (b.server w)
      → st.held w ≡ some s
      → is_empty oc.status.client_id ≡ false
      → IsServed oc oc.status.client_id (b.server w)
      → Holds E oc oc.status.client_id s
      → ((reconcile_normal E c resync oc w).0
          ≡ (mark_ready E (with_issuer (b.server w).issuer oc), after resync))
        × (b.server (reconcile_normal E c resync oc w).1 ≡ b.server w)
        × ((t : Secret) × (st.held (reconcile_normal E c resync oc w).1 ≡ some t)
            × Holds E oc oc.status.client_id t)
  unfolding secret_name drifted registered_name display_name fingerprint controlled_by
  steady_pass w s p h n served k =
      let v = b.server w in
      let oc' = with_issuer v.issuer oc in
      let (t, k', finish) =
        verify-Comes L oc' st own c resync v s (metadata v.issuer) n
          (record { client = served.client; found = served.found; undrifted = served.undrifted })
          (record { owned = k.owned; credentials = k.credentials }) in
      let r = known_pass-Comes w p n (record { server = refl; held = h }) finish in
      (
        r.result,
        r.at.server,
        (t, r.at.held, record { owned = k'.owned; credentials = k'.credentials }),
      )
