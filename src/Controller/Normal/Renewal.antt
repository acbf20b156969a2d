-- ===== src/Controller/Normal/Renewal.antt =====
-- A recorded client that is of no use any more is given up by the next pass, and the one after it
-- registers the object anew.
use tsidp_operator.Prelude.{ap, ℕ, ◌≡◌, refl, sym, subst, false, List, [], ◌∷◌, Option, none, some}
use tsidp_operator.Prelude.Map.{lookup, erase_missing}
use tsidp_operator.Text.{Text, is_empty, text_eq}
use tsidp_operator.Tsidp
use tsidp_operator.Tsidp.{ProviderMetadata}
use tsidp_operator.Fake.{Client, Server}
use tsidp_operator.Fake.Handlers.{blank}
use tsidp_operator.Fake.Json.{visible, listing}
use tsidp_operator.Fake.Contract.Register.{registration}
use tsidp_operator.Api.{OidcClient, Secret}
use tsidp_operator.Controller.Environment.{Environment, IsLawful}
use tsidp_operator.Controller.Names.{secret_name, registered_name, display_name, fingerprint}
use tsidp_operator.Controller.Secrets.{controlled_by}
use tsidp_operator.Controller.Status.{second, Return, after, with_issuer, with_client_id}
use tsidp_operator.Controller.Registration.{find_owned}
use tsidp_operator.Controller.Deletion.Sweep.{RunsFake}
use tsidp_operator.Controller.Store.{RunsStore, CanOwn, At, Comes, handle-Comes}
use tsidp_operator.Controller.Store.Calls.{get_client-Comes}
use tsidp_operator.Controller.Store.Writes.{Holds}
use tsidp_operator.Controller.Normal.{
  drifted, check_secret, fix_drift, refresh_secret, continue, verify, reconcile_normal,
}
use tsidp_operator.Controller.Normal.Steady.{known_pass-Comes, continue-Comes, IsPassable}
use tsidp_operator.Controller.Normal.Recovery.{first_pass-Comes}
use tsidp_operator.Controller.Normal.Orphans.{passes, next_id, ready_with}
use tsidp_operator.Controller.Normal.Steady.{known_pass-Comes, check_secret-Comes}
use tsidp_operator.Controller.Normal.Adoption.{continue-stop}
use tsidp_operator.Controller.Normal.Loss.{
  Cause, gone, missing, spoiled, drift, Cause-MayWrite, without, given_up, verify-missing,
  check_secret-missing, check_secret-spoiled, fix_drift-recreates,
}

without-missing : (id : Text) (v : Server) → lookup id v.clients ≡ none → without id v ≡ v
without-missing id v m = ap (λ cs. record v { clients = cs }) (erase_missing id v.clients m)

module _ {E : Environment} {now : Text} {b : RunsFake E now} (L : IsLawful E) (oc : OidcClient)
    (st : RunsStore E now b oc.namespace (secret_name oc)) (own : CanOwn E oc) (c : Tsidp.Client)
    (resync : ℕ) (v : Server) (n : is_empty oc.status.client_id ≡ false) where
  -- The read of the client, when tsidp has it, and what follows on it.
  verify-found :
      (disc : ProviderMetadata) (cl : Client) {h : Option Secret} (w : E.World)
      → lookup oc.status.client_id v.clients ≡ some cl
      → At st v h w
      → ((w : E.World)
          → At st v h w
          → Comes st (given_up oc st c resync v n) (without oc.status.client_id v) h (
              continue E c resync (check_secret E c resync oc w) (λ oc w.
                continue E c resync
                  (fix_drift E c resync (visible (blank cl)) oc w)
                  (refresh_secret E c resync disc))))
      → Comes st
          (given_up oc st c resync v n)
          (without oc.status.client_id v)
          h
          (verify E c resync disc oc w)
  unfolding verify
  verify-found disc cl w f at rest =
      handle-Comes st _ w _ _ (get_client-Comes st c w at oc.status.client_id cl n f) rest

  verify-Cause :
      (disc : ProviderMetadata) {h : Option Secret} (w : E.World)
      → Cause E oc v h
      → At st v h w
      → Comes st
          (given_up oc st c resync v n)
          (without oc.status.client_id v)
          h
          (verify E c resync disc oc w)
  verify-Cause disc {h} w (gone _ m k) at =
      subst (λ x. Comes st (given_up oc st c resync v n) x h (verify E c resync disc oc w))
        (sym (without-missing oc.status.client_id v m))
        (verify-missing oc st c resync disc w n m at)
  verify-Cause disc w (missing cl f) at = verify-found disc cl w f at (λ w₁ at₁.
      continue-stop st c resync _ _ (check_secret-missing oc st c resync v n cl w₁ f at₁))
  verify-Cause disc w (spoiled cl s f k q) at = verify-found disc cl w f at (λ w₁ at₁.
      continue-stop st c resync _ _ (check_secret-spoiled oc st c resync v n cl s w₁ f q at₁))
  verify-Cause disc w (drift cl s f k d p) at = verify-found disc cl w f at (λ w₁ at₁.
      continue-Comes st c resync _ _ (check_secret-Comes L oc st own c resync v s w₁ k at₁)
        (λ w₂ at₂.
          continue-stop st c resync _ _ (fix_drift-recreates oc st c resync v n cl s w₂ f d p at₂)))

-- The cause does not depend on the issuer in the status.
Cause-issued :
    {E : Environment} {oc : OidcClient} {v : Server} {h : Option Secret} (i : Text)
    → Cause E oc v h
    → Cause E (with_issuer i oc) v h
unfolding controlled_by drifted registered_name display_name fingerprint
Cause-issued i (gone h m k) = gone h m k
Cause-issued i (missing cl f) = missing cl f
Cause-issued i (spoiled cl s f k q) = spoiled cl s f k q
Cause-issued i (drift cl s f k d p) =
    drift cl s f (record { owned = k.owned; credentials = k.credentials }) d p

module _ {E : Environment} {now : Text} {b : RunsFake E now} (L : IsLawful E) (oc : OidcClient)
    (st : RunsStore E now b oc.namespace (secret_name oc)) (own : CanOwn E oc) (c : Tsidp.Client)
    (resync : ℕ) (v : Server) {h : Option Secret} where
  -- The pass that gives up the client.
  losing_pass-Comes :
      (w : E.World)
      → IsPassable E now b L oc st own c resync v
      → is_empty oc.status.client_id ≡ false
      → Cause E oc v h
      → At st v h w
      → Comes st
          (with_client_id [] (with_issuer v.issuer oc), after second)
          (without oc.status.client_id v)
          h
          (reconcile_normal E c resync oc w)
  unfolding secret_name controlled_by
  losing_pass-Comes w p n k at = known_pass-Comes E now b L oc st own c resync w p n at (λ w₁ at₁.
      verify-Cause L (with_issuer v.issuer oc) st own c resync v n _ w₁ (Cause-issued v.issuer k)
        at₁)

module _ (E : Environment) (now : Text) (b : RunsFake E now) (L : IsLawful E) (oc : OidcClient)
    (st : RunsStore E now b oc.namespace (secret_name oc)) (own : CanOwn E oc) (c : Tsidp.Client)
    (resync : ℕ) where
  -- Over a cluster that keeps the object's Secret and a tsidp that answers as the fake does, which
  -- has an issuer: for an object with a redirect URI, all without white space and control
  -- characters, no renamed Secret, and a recorded client that tsidp has lost while no Secret or
  -- one that the object controls is held, or whose Secret is missing, or is controlled and does
  -- not hold its credentials, or that has drifted under the policy Recreate while its Secret is
  -- intact, where tsidp has no other client with the fingerprint: two passes, the second over the
  -- object that the first left, end ready with the client that tsidp then gives out, tsidp no
  -- longer has the old client and has just the one registration more, and the object's Secret
  -- holds the new credentials.
  pub renewal :
      (w : E.World) (u : Text) (us : List Text)
      → IsPassable E now b L oc st own c resync (b.server w)
      → oc.spec.redirect_uris ≡ u ∷ us
      → is_empty oc.status.client_id ≡ false
      → Cause E oc (b.server w) (st.held w)
      → find_owned (fingerprint oc) (listing (without oc.status.client_id (b.server w)).clients)
        ≡ none
      → ((passes E c resync 1 oc w).0 ≡ ready_with E now resync oc (b.server w) u us)
        × (b.server (passes E c resync 1 oc w).1
            ≡ (registration now
                (registered_name oc)
                (u ∷ us)
                (without oc.status.client_id (b.server w))).1)
        × ((t : Secret) × (st.held (passes E c resync 1 oc w).1 ≡ some t)
            × Holds E oc (next_id now oc (b.server w) u us) t)
  unfolding passes secret_name fingerprint controlled_by registered_name display_name
  renewal w u us p e n k f =
      let v = b.server w in
      let v' = without oc.status.client_id v in
      let r =
        losing_pass-Comes L oc st own c resync v w p n k (record { server = refl; held = refl }) in
      let oc' = with_client_id [] (with_issuer v.issuer oc) in
      let (t, k', r') =
        first_pass-Comes L oc' st own c resync (reconcile_normal E c resync oc w).1 v'
          (record { good = p.good; issuer = p.issuer; unrenamed = p.unrenamed }) refl u us
          (st.held w) (Cause-MayWrite k) e f r.at in
      let done : Comes st (ready_with E now resync oc v u us)
          (registration now (registered_name oc) (u ∷ us) v').1 (some t)
          (passes E c resync 1 oc w) =
        subst
          (λ (y : OidcClient × Return).
            Comes st (ready_with E now resync oc v u us)
              (registration now (registered_name oc) (u ∷ us) v').1 (some t)
              (reconcile_normal E c resync y.0 (reconcile_normal E c resync oc w).1))
          (sym r.result) r' in
      (
        done.result,
        done.at.server,
        (t, done.at.held, record { owned = k'.owned; credentials = k'.credentials }),
      )
