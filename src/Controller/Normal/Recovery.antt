-- ===== src/Controller/Normal/Recovery.antt =====
-- A pass whose status was never written is taken up by the next one, which adopts its registration.
use mathlib.Core.List.{Perm}
use mathlib.Core.List.Perm
use tsidp_operator.Prelude.{Option}
use tsidp_operator.Prelude.{
  ℕ, ◌≡◌, refl, sym, subst, ◌∙◌, true, false, List, ◌∷◌, none, some, ==_refl,
}
use tsidp_operator.Prelude.Map.{lookup-insert}
use tsidp_operator.Text.{Text, is_empty, text_eq}
use tsidp_operator.Fault.{ok}
use tsidp_operator.Tsidp
use tsidp_operator.Tsidp.{FunnelClient, ProviderMetadata}
use tsidp_operator.Fake.{Server}
use tsidp_operator.Fake.Handlers.{blank, new_client}
use tsidp_operator.Fake.Json.{visible, listing}
use tsidp_operator.Fake.Contract.Reads.{metadata}
use tsidp_operator.Fake.Contract.Register.{registration}
use tsidp_operator.Api.{OidcClient, Secret}
use tsidp_operator.Controller.Environment.{Environment, IsLawful}
use tsidp_operator.Controller.Names.{secret_name, registered_name, display_name, fingerprint}
use tsidp_operator.Controller.Secrets.{controlled_by}
use tsidp_operator.Controller.Secrets.{converge_secret}
use tsidp_operator.Controller.Registration.Credentials.{mutation}
use tsidp_operator.Controller.Status.{Return, after, mark_ready, with_issuer, with_client_id}
use tsidp_operator.Controller.Registration.{adopted, registered, find_owned}
use tsidp_operator.Controller.Deletion.Sweep.{RunsFake}
use tsidp_operator.Controller.Store.{or_fresh, RunsStore, CanOwn, At, Comes}
use tsidp_operator.Controller.Store.Calls.{}
use tsidp_operator.Controller.Store.Writes.{
  Holds, MayWrite, converge_secret-Writes, registered-Holds,
}
use tsidp_operator.Controller.Normal.{drifted, with_metadata, reconcile_normal}
use tsidp_operator.Controller.Normal.Repair.{drifted_iff}
use tsidp_operator.Controller.Normal.Steady.{
  continue-Comes, IsServed, verify-Comes, IsPassable, reconcile_normal-Comes, rename_secret-Comes,
}
use tsidp_operator.Controller.Normal.Adoption.{
  establish-Comes, adopt-Comes, register_new-Comes, find_owned-insert, continue-stop, new,
}
use tsidp_operator.Controller.Names.Ownership.{carries_own}

module _ {E : Environment} {now : Text} {b : RunsFake E now} (L : IsLawful E) (oc : OidcClient)
    (st : RunsStore E now b oc.namespace (secret_name oc)) (own : CanOwn E oc) (c : Tsidp.Client)
    (resync : ℕ) (w : E.World) (v : Server) (p : IsPassable E now b L oc st own c resync v)
    (n : is_empty oc.status.client_id ≡ true) where
  pub adopt_pass-Comes :
      (fc : FunnelClient) (s : Secret)
      → find_owned (fingerprint oc) (listing v.clients) ≡ some fc
      → is_empty fc.client_id ≡ false
      → Holds E oc fc.client_id s
      → IsServed oc fc.client_id v
      → At st v (some s) w
      → (t : Secret) × Comes st
          (mark_ready E (with_client_id fc.client_id (with_issuer v.issuer oc)), after resync)
          v
          (some t)
          (reconcile_normal E c resync oc w)
  unfolding with_metadata secret_name drifted registered_name display_name fingerprint controlled_by
  adopt_pass-Comes fc s f m k served at =
      let oc' = with_issuer v.issuer oc in
      let oc'' = with_client_id fc.client_id oc' in
      let disc = metadata v.issuer in
      let (t, k', finish) =
        verify-Comes L oc'' st own c resync v s disc m
          (record { client = served.client; found = served.found; undrifted = served.undrifted })
          (record { owned = k.owned; credentials = k.credentials }) in
      (
        t,
        reconcile_normal-Comes L oc st own c resync v (some s) w p.good p.issuer at (λ w₁ at₁.
            continue-Comes st c resync _ _
              (rename_secret-Comes L oc' st own c resync v (some s) w₁ p.unrenamed at₁)
              (λ w₂ at₂.
                continue-Comes st c resync _ _
                  (establish-Comes st c resync oc' oc'' adopted disc w₂ n (
                    adopt-Comes oc' st c v disc fc s w₂ f
                      (record { owned = k.owned; credentials = k.credentials }) at₂))
                  finish)),
      )

  abbrev pub next : Text → List Text → Server
  next u us = (registration now (registered_name oc) (u ∷ us) v).1

  -- The Secret that the registration comes to write.
  abbrev pub IsWritten : Text → List Text → Option Secret → Secret → Type 0
  IsWritten u us o t =
      converge_secret E (with_issuer v.issuer oc)
        (mutation (some (visible (new oc st c v u us))) (metadata v.issuer) oc.spec.redirect_uris)
        (or_fresh st.fresh o)
      ≡ ok t

  -- A pass that registers, and writes that Secret.
  pub writing_pass-Comes :
      (u : Text) (us : List Text) (o : Option Secret) (t : Secret)
      → IsWritten u us o t
      → MayWrite E oc o
      → oc.spec.redirect_uris ≡ u ∷ us
      → find_owned (fingerprint oc) (listing v.clients) ≡ none
      → At st v o w
      → Comes st
          (
            mark_ready E (with_client_id (new oc st c v u us).client_id (with_issuer v.issuer oc)),
            after resync,
          )
          (next u us)
          (some (st.stored t))
          (reconcile_normal E c resync oc w)
  unfolding with_metadata secret_name registered_name display_name fingerprint controlled_by
      mark_ready new_client
  writing_pass-Comes u us o t q m e f at =
      let oc' = with_issuer v.issuer oc in
      let disc = metadata v.issuer in
      reconcile_normal-Comes L oc st own c resync v o w p.good p.issuer at (λ w₁ at₁.
        continue-Comes st c resync _ _
          (rename_secret-Comes L oc' st own c resync v o w₁ p.unrenamed at₁)
          (λ w₂ at₂. continue-stop st c resync _ _ (
            establish-Comes st c resync oc' _ registered disc w₂ n
              (register_new-Comes oc' st c v disc u us o t w₂ m e f q at₂))))

  -- The write is permitted.
  pub first_write :
      (u : Text) (us : List Text) (o : Option Secret)
      → MayWrite E oc o
      → (t : Secret) × IsWritten u us o t
  unfolding secret_name controlled_by new_client registered_name display_name fingerprint
  first_write u us o m =
      converge_secret-Writes (with_issuer v.issuer oc) st (some (visible (new oc st c v u us)))
        (metadata v.issuer) o own m

  pub first_pass-Comes :
      (u : Text) (us : List Text) (o : Option Secret)
      → MayWrite E oc o
      → oc.spec.redirect_uris ≡ u ∷ us
      → find_owned (fingerprint oc) (listing v.clients) ≡ none
      → At st v o w
      → (t : Secret) × Holds E oc (new oc st c v u us).client_id t
        × Comes st
            (
              mark_ready E
                  (with_client_id (new oc st c v u us).client_id (with_issuer v.issuer oc)),
              after resync,
            )
            (next u us)
            (some t)
            (reconcile_normal E c resync oc w)
  unfolding secret_name registered_name display_name fingerprint controlled_by new_client
  first_pass-Comes u us o m e f at =
      let oc' = with_issuer v.issuer oc in
      let fc = visible (new oc' st c v u us) in
      let (t, q) = first_write u us o m in
      let k = registered-Holds L oc' st (metadata v.issuer) (or_fresh st.fresh o) t fc refl q in
      (
        st.stored t,
        record { owned = k.owned; credentials = k.credentials },
        writing_pass-Comes u us o t q m e f at,
      )

  -- The new client is on the server, as the object asks for it.
  pub next-IsServed :
      (u : Text) (us : List Text)
      → oc.spec.redirect_uris ≡ u ∷ us
      → IsServed oc (new oc st c v u us).client_id (next u us)
  unfolding blank new_client
  next-IsServed u us e = record {
    client = new oc st c v u us;
    found = lookup-insert _ _ _ v.clients ∙ rw (==_refl (new oc st c v u us).client_id) refl;
    undrifted =
        (drifted_iff oc (visible (blank (new oc st c v u us)))).1
          (refl, subst (λ l. Perm (u ∷ us) l) (sym e) (Perm.refl (u ∷ us)));
  }

module _ (E : Environment) (now : Text) (b : RunsFake E now) (L : IsLawful E) (oc : OidcClient)
    (st : RunsStore E now b oc.namespace (secret_name oc)) (own : CanOwn E oc) (c : Tsidp.Client)
    (resync : ℕ) where
  -- Over a cluster that keeps the object's Secret and a tsidp that answers as the fake does, which
  -- has an issuer: a pass over an object without a client, with redirect URIs without white space
  -- and control characters and no renamed Secret, where the first client with the object's
  -- fingerprint has an id, is served without drift, and has its credentials in a held Secret that
  -- the object controls, adopts that client, ends ready after the resync interval, and leaves
  -- tsidp as it is.
  pub adopting_pass :
      (w : E.World) (fc : FunnelClient) (s : Secret)
      → IsPassable E now b L oc st own c resync (b.server w)
      → is_empty oc.status.client_id ≡ true
      → st.held w ≡ some s
      → find_owned (fingerprint oc) (listing (b.server w).clients) ≡ some fc
      → is_empty fc.client_id ≡ false
      → Holds E oc fc.client_id s
      → IsServed oc fc.client_id (b.server w)
      → ((reconcile_normal E c resync oc w).0 ≡ (
        mark_ready E (with_client_id fc.client_id (with_issuer (b.server w).issuer oc)),
        after resync,
      ))
        × (b.server (reconcile_normal E c resync oc w).1 ≡ b.server w)
  adopting_pass w fc s p n h f m k served =
      let (t, r) =
        adopt_pass-Comes L oc st own c resync w (b.server w) p n fc s f m k served
          (record { server = refl; held = h }) in
      (r.result, r.at.server)

  -- The object after the pass, and the world.
  abbrev pub pass : E.World → (OidcClient × Return) × E.World
  pass w = reconcile_normal E c resync oc w

  -- Over a cluster that keeps the object's Secret and a tsidp that answers as the fake does, which
  -- has an issuer and no client with the object's fingerprint: if the status after a first pass
  -- over an object with a redirect URI, all without white space and control characters, with no
  -- client, no renamed Secret, and no Secret held or one that the object controls, is lost, then a
  -- second pass over the unchanged object comes to the same object and result, with the same
  -- client, and leaves tsidp with just the one registration that the first pass made.
  pub lost_status :
      (w : E.World) (u : Text) (us : List Text)
      → IsPassable E now b L oc st own c resync (b.server w)
      → oc.spec.redirect_uris ≡ u ∷ us
      → is_empty oc.status.client_id ≡ true
      → find_owned (fingerprint oc) (listing (b.server w).clients) ≡ none
      → MayWrite E oc (st.held w)
      → ((pass (pass w).1).0 ≡ (pass w).0)
        × (b.server (pass (pass w).1).1 ≡ b.server (pass w).1)
        × (b.server (pass w).1 ≡ (registration now (registered_name oc) (u ∷ us) (b.server w)).1)
  unfolding blank new_client
  lost_status w u us p e n f h =
      let v = b.server w in
      let (t, k, r) =
        first_pass-Comes L oc st own c resync w v p n u us (st.held w) h e f
          (record { server = refl; held = refl }) in
      let cl = new oc st c v u us in
      let f' =
        find_owned-insert (fingerprint oc) cl.client_id cl v.clients f
          (carries_own oc oc (refl, refl, refl)) in
      let p' : IsPassable E now b L oc st own c resync
          (registration now (registered_name oc) (u ∷ us) v).1 =
        record { good = p.good; issuer = p.issuer; unrenamed = p.unrenamed } in
      let served = next-IsServed L oc st own c resync w v p n u us e in
      let (t', r') =
        adopt_pass-Comes L oc st own c resync (pass w).1 _ p' n (visible (blank cl)) t f' refl k
          (record { client = served.client; found = served.found; undrifted = served.undrifted })
          r.at in
      (r'.result ∙ sym r.result, r'.at.server ∙ sym r.at.server, r.at.server)
