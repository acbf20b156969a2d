-- ===== src/Controller/Normal/Loss.antt =====
-- The branches of a pass that give up the recorded client, over a cluster with a store and a tsidp
-- that behaves as the fake does.
use tsidp_operator.Prelude.{String, ℕ, ◌≡◌, refl, sym, subst, true, false, [], Option, none, some}
use tsidp_operator.Prelude.Map.{lookup, erase}
use tsidp_operator.Text.{Text, is_empty, text_eq}
use tsidp_operator.Fault.{is_tsidp_not_found}
use tsidp_operator.Tsidp
use tsidp_operator.Tsidp.{ProviderMetadata}
use tsidp_operator.Fake.{Client, Server}
use tsidp_operator.Fake.Handlers.{blank}
use tsidp_operator.Fake.Json.{visible}
use tsidp_operator.Api.{OidcClient, Secret, recreate}
use tsidp_operator.Controller.Environment.{Environment, Event}
use tsidp_operator.Controller.Names.{secret_name}
use tsidp_operator.Controller.Secrets.{controlled_by}
use tsidp_operator.Controller.Status.{second, Return, stop, after, with_client_id}
use tsidp_operator.Controller.Registration.{holds_credentials}
use tsidp_operator.Controller.Deletion.Sweep.{RunsFake}
use tsidp_operator.Controller.Store.{RunsStore, At, Comes, handle-Comes, handle-err}
use tsidp_operator.Controller.Store.Calls.{
  get_client-missing, delete_client-Comes, emit-At, read-Comes, read-missing,
}
use tsidp_operator.Controller.Store.Writes.{Holds, MayWrite}
use tsidp_operator.Controller.Normal.{
  drifted, burn, secret_lost, check_secret, fix_drift, repair_drift, verify,
}
use tsidp_operator.Controller.Normal.Steady.{}

pub verify-missing :
    {E : Environment} {now : Text} {b : RunsFake E now} (oc : OidcClient)
    (st : RunsStore E now b oc.namespace (secret_name oc)) (c : Tsidp.Client) (resync : ℕ)
    (disc : ProviderMetadata) {v : Server} {h : Option Secret} (w : E.World)
    → is_empty oc.status.client_id ≡ false
    → lookup oc.status.client_id v.clients ≡ none
    → At st v h w
    → Comes st (with_client_id [] oc, after second) v h (verify E c resync disc oc w)
unfolding verify is_tsidp_not_found
verify-missing oc st c resync disc w n m at =
    handle-err st _ w _ _ (get_client-missing st c w at oc.status.client_id n m)
      (λ w₁ at₁. record { result = refl; at = emit-At st _ at₁ })

-- Why a pass gives up the recorded client: tsidp has lost it, its Secret is missing or does not hold
-- its credentials, or it has drifted and the policy is to recreate it.
pub data Cause (E : Environment) (oc : OidcClient) (v : Server) : Option Secret → Type 0 where
  gone :
      (h : Option Secret)
      → lookup oc.status.client_id v.clients ≡ none
      → MayWrite E oc h
      → Cause E oc v h
  missing : (cl : Client) → lookup oc.status.client_id v.clients ≡ some cl → Cause E oc v none
  spoiled :
      (cl : Client) (s : Secret)
      → lookup oc.status.client_id v.clients ≡ some cl
      → controlled_by E oc s ≡ true
      → holds_credentials oc.status.client_id s ≡ false
      → Cause E oc v (some s)
  drift :
      (cl : Client) (s : Secret)
      → lookup oc.status.client_id v.clients ≡ some cl
      → Holds E oc oc.status.client_id s
      → drifted oc (visible (blank cl)) ≡ true
      → oc.spec.update_policy ≡ recreate
      → Cause E oc v (some s)

pub Cause-MayWrite :
    {E : Environment} {oc : OidcClient} {v : Server} {h : Option Secret}
    → Cause E oc v h
    → MayWrite E oc h
Cause-MayWrite (gone h n m) = m
Cause-MayWrite (missing cl f) = tt
Cause-MayWrite (spoiled cl s f own n) = own
Cause-MayWrite (drift cl s f k d p) = k.owned

repair_drift-recreate :
    (E : Environment) (c : Tsidp.Client) (resync : ℕ) (oc : OidcClient) (w : E.World)
    → oc.spec.update_policy ≡ recreate
    → (m : String) × (e : Event) × (repair_drift E c resync oc w
        ≡ burn E c resync oc m (E.emit e w))
unfolding repair_drift
repair_drift-recreate E c resync oc w p = simp (repair_drift, p) (_, _, refl)

-- tsidp without the client.
abbrev pub without : Text → Server → Server
without id v = record v { clients = erase id v.clients }

module _ {E : Environment} {now : Text} {b : RunsFake E now} (oc : OidcClient)
    (st : RunsStore E now b oc.namespace (secret_name oc)) (c : Tsidp.Client) (resync : ℕ)
    (v : Server) (n : is_empty oc.status.client_id ≡ false) where
  abbrev pub given_up : OidcClient × Return
  given_up = (with_client_id [] oc, after second)

  burn-Comes :
      (m : String) (cl : Client) {h : Option Secret} (w : E.World)
      → lookup oc.status.client_id v.clients ≡ some cl
      → At st v h w
      → Comes st (stop given_up) (without oc.status.client_id v) h (burn E c resync oc m w)
  unfolding burn
  burn-Comes m cl w f at =
      let d = delete_client-Comes st c w at oc.status.client_id cl n f in
      rw (burn, d.result) (record { result = refl; at = d.at })

  secret_lost-Comes :
      (cl : Client) {h : Option Secret} (w : E.World)
      → lookup oc.status.client_id v.clients ≡ some cl
      → At st v h w
      → Comes st (stop given_up) (without oc.status.client_id v) h (secret_lost E c resync oc w)
  unfolding secret_lost
  secret_lost-Comes cl w f at = burn-Comes _ cl _ f (emit-At st _ at)

  -- The Secret is missing.
  pub check_secret-missing :
      (cl : Client) (w : E.World)
      → lookup oc.status.client_id v.clients ≡ some cl
      → At st v none w
      → Comes st (stop given_up) (without oc.status.client_id v) none (check_secret E c resync oc w)
  unfolding check_secret
  check_secret-missing cl w f at =
      let (e, r, q) = read-missing oc st w at in
      handle-err st _ w _ _ r (λ w₁ at₁. rw q (secret_lost-Comes cl w₁ f at₁))

  pub check_secret-spoiled :
      (cl : Client) (s : Secret) (w : E.World)
      → lookup oc.status.client_id v.clients ≡ some cl
      → holds_credentials oc.status.client_id s ≡ false
      → At st v (some s) w
      → Comes st
          (stop given_up)
          (without oc.status.client_id v)
          (some s)
          (check_secret E c resync oc w)
  unfolding check_secret
  check_secret-spoiled cl s w f q at =
      handle-Comes st _ w _ _ (read-Comes oc st w at)
        (λ w₁ at₁. rw q (secret_lost-Comes cl w₁ f at₁))

  pub fix_drift-recreates :
      (cl : Client) (s : Secret) (w : E.World)
      → lookup oc.status.client_id v.clients ≡ some cl
      → drifted oc (visible (blank cl)) ≡ true
      → oc.spec.update_policy ≡ recreate
      → At st v (some s) w
      → Comes st
          (stop given_up)
          (without oc.status.client_id v)
          (some s)
          (fix_drift E c resync (visible (blank cl)) oc w)
  unfolding fix_drift
  fix_drift-recreates cl s w f d p at =
      let (m, e, q) = repair_drift-recreate E c resync oc w p in
      rw (fix_drift, d)
        (subst (Comes st (stop given_up) (without oc.status.client_id v) (some s)) (sym q)
          (burn-Comes m cl (E.emit e w) f (emit-At st e at)))
