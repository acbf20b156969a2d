-- ===== src/Controller/Normal/Adoption.antt =====
-- The two ways in which a pass comes to a client, over a cluster with a store and a tsidp that behaves
-- as the fake does: a registration is adopted, or a new one is made.
use tsidp_operator.Prelude.{ℕ, ◌+◌, ◌≡◌, refl, sym, true, List, [], ◌∷◌, Option, none, some, arith}
use tsidp_operator.Prelude.Map.{Map, insert}
use tsidp_operator.Text.{Text, is_empty, text_eq}
use tsidp_operator.Text.Find.{has_substring}
use tsidp_operator.Fault.{ok}
use tsidp_operator.Tsidp
use tsidp_operator.Tsidp.{FunnelClient, ProviderMetadata}
use tsidp_operator.Fake.{Client, Server}
use tsidp_operator.Fake.Handlers.{blank, new_client}
use tsidp_operator.Fake.Json.{visible, listing}
use tsidp_operator.Fake.Contract.Register.{registration}
use tsidp_operator.Api.{OidcClient, Secret}
use tsidp_operator.Controller.Environment.{Environment}
use tsidp_operator.Controller.Names.{secret_name, registered_name, fingerprint}
use tsidp_operator.Controller.Secrets.{converge_secret}
use tsidp_operator.Controller.Registration.Credentials.{mutation}
use tsidp_operator.Controller.Status.{Return, Stage, stop, go, with_client_id, with_secret_name}
use tsidp_operator.Controller.Registration.{
  RegisterOutcome, adopted, registered, adoptable, find_owned, adopt_or_burn, registration_request,
  register_new, register_or_adopt,
}
use tsidp_operator.Controller.Deletion.Sweep.{RunsFake}
use tsidp_operator.Controller.Store.{or_fresh, RunsStore, At, Comes, handle-Comes}
use tsidp_operator.Controller.Store.Calls.{
  list_clients-Comes, register-Comes, emit-At, secret_adoptable-held,
}
use tsidp_operator.Controller.Store.Writes.{
  Holds, MayWrite, secret_adoptable-Comes, upsert_secret-Comes,
}
use tsidp_operator.Controller.Normal.{establish, after_outcome, continue}
use tsidp_operator.Controller.Normal.Steady.{}

-- The pass goes on after a registration that did not fail.
pub establish-Comes :
    {E : Environment} {now : Text} {b : RunsFake E now} {ns name : Text}
    (st : RunsStore E now b ns name) (c : Tsidp.Client) (resync : ℕ) (oc oc' : OidcClient)
    (o : RegisterOutcome) (disc : ProviderMetadata) {v' : Server} {h' : Option Secret} (w : E.World)
    → is_empty oc.status.client_id ≡ true
    → Comes st (ok (oc', o)) v' h' (register_or_adopt E c oc disc w)
    → Comes st (after_outcome E c resync oc' o) v' h' (establish E c resync oc disc w)
unfolding establish
establish-Comes st c resync oc oc' o disc w n r =
    rw (establish, n) (handle-Comes st _ w _ _ r (λ w' at. record { result = refl; at = at }))

module _ {E : Environment} {now : Text} {b : RunsFake E now} (oc : OidcClient)
    (st : RunsStore E now b oc.namespace (secret_name oc)) (c : Tsidp.Client) (v : Server) where
  -- The first client with the fingerprint is adopted, if the Secret holds its credentials.
  pub adopt-Comes :
      (disc : ProviderMetadata) (fc : FunnelClient) (s : Secret) (w : E.World)
      → find_owned (fingerprint oc) (listing v.clients) ≡ some fc
      → Holds E oc fc.client_id s
      → At st v (some s) w
      → Comes st
          (ok (with_client_id fc.client_id oc, adopted))
          v
          (some s)
          (register_or_adopt E c oc disc w)
  unfolding register_or_adopt adopt_or_burn adoptable
  adopt-Comes disc fc s w f k at =
      handle-Comes st _ w _ _ (secret_adoptable-held oc st w at k.owned) (λ w₁ at₁.
        handle-Comes st _ w₁ _ _ (list_clients-Comes st c w₁ at₁) (λ w₂ at₂.
          rw (f, adopt_or_burn, k.credentials) (record { result = refl; at = emit-At st _ at₂ })))

  -- The object as the registration of a new client leaves it.
  abbrev pub new : Text → List Text → Client
  new u us = new_client now (registered_name oc) (u ∷ us) (v.next_id + 1)

  abbrev pub recorded : Text → List Text → OidcClient
  recorded u us = with_secret_name (secret_name oc) (with_client_id (new u us).client_id oc)

  pub register_new-Comes :
      (disc : ProviderMetadata) (u : Text) (us : List Text) (o : Option Secret) (t : Secret)
      (w : E.World)
      → MayWrite E oc o
      → oc.spec.redirect_uris ≡ u ∷ us
      → find_owned (fingerprint oc) (listing v.clients) ≡ none
      → converge_secret E oc
          (mutation (some (visible (new u us))) disc oc.spec.redirect_uris)
          (or_fresh st.fresh o)
        ≡ ok t
      → At st v o w
      → Comes st
          (ok (recorded u us, registered))
          (registration now (registered_name oc) (u ∷ us) v).1
          (some (st.stored t))
          (register_or_adopt E c oc disc w)
  unfolding register_or_adopt register_new registration_request
  register_new-Comes disc u us o t w m e f p at =
      handle-Comes st _ w _ _ (secret_adoptable-Comes oc st o w m at) (λ w₁ at₁.
        handle-Comes st _ w₁ _ _ (list_clients-Comes st c w₁ at₁) (λ w₂ at₂.
          rw (f, register_new)
            (handle-Comes st _ w₂ _ _ (register-Comes st c w₂ at₂ (registration_request oc) e)
              (λ w₃ at₃.
                handle-Comes st _ w₃ _ _
                  (upsert_secret-Comes oc st (some (visible (new u us))) disc w₃ p at₃)
                  (λ w₄ at₄. record { result = refl; at = emit-At st _ at₄ })))))

-- The listing of a server with one registration more, which is the only one with the fingerprint.
pub find_owned-insert :
    (fp id : Text) (cl : Client) (m : Map Text Client)
    → find_owned fp (listing m) ≡ none
    → has_substring cl.client_name fp ≡ true
    → find_owned fp (listing (insert id cl m)) ≡ some (visible (blank cl))
unfolding find_owned insert blank
find_owned-insert fp id cl [] f h = rw h refl
find_owned-insert fp id cl ((j, d) ∷ m) f h = ground (arith, find_owned-insert fp id cl m)

pub continue-stop :
    {E : Environment} {now : Text} {b : RunsFake E now} {ns name : Text}
    (st : RunsStore E now b ns name) (c : Tsidp.Client) (resync : ℕ) {r : OidcClient × Return}
    {v : Server} {h : Option Secret} (x : Stage × E.World)
    (k : OidcClient → E.World → (OidcClient × Return) × E.World)
    → Comes st (stop r) v h x
    → Comes st r v h (continue E c resync x k)
continue-stop st c resync {r} {v} {h} (stop y, w) k p =
    let e : r ≡ y = let e' = p.result in cc in record { result = sym e; at = p.at }
continue-stop st c resync (go oc, w) k p = let e = p.result in cc
