-- ===== src/Controller/Normal/Fresh.antt =====
-- The first pass over an object, over a cluster with a store and a tsidp that behaves as the fake does.
use tsidp_operator.Prelude.{ℕ, ◌+◌, ◌≡◌, refl, ap, ◌∙◌, true, List, ◌∷◌, none, some, string_eq}
use tsidp_operator.Prelude.Map.{lookup}
use tsidp_operator.Text.{Text, is_empty}
use tsidp_operator.Tsidp
use tsidp_operator.Fake.{Client}
use tsidp_operator.Fake.Handlers.{new_client}
use tsidp_operator.Fake.Json.{visible, listing}
use tsidp_operator.Fake.Contract.Reads.{metadata}
use tsidp_operator.Fake.Contract.Register.{registration}
use tsidp_operator.Api.{OidcClient, Secret}
use tsidp_operator.Controller.Environment.{Environment, IsLawful}
use tsidp_operator.Controller.Names.{secret_name, registered_name, display_name, fingerprint}
use tsidp_operator.Controller.Secrets.{controlled_by}
use tsidp_operator.Controller.Status.{with_issuer}
use tsidp_operator.Controller.Registration.{find_owned}
use tsidp_operator.Controller.Registration.Credentials.{registered-contents}
use tsidp_operator.Controller.Deletion.Sweep.{RunsFake}
use tsidp_operator.Controller.Store.{or_fresh, RunsStore, CanOwn}
use tsidp_operator.Controller.Store.Writes.{MayWrite, registered-Holds}
use tsidp_operator.Controller.Normal.{reconcile_normal}
use tsidp_operator.Controller.Normal.Steady.{IsPassable}
use tsidp_operator.Controller.Normal.Recovery.{first_write, writing_pass-Comes}
use tsidp_operator.Controller.Normal.Orphans.{ready_with}

-- The object controls the Secret, and it holds the id and the secret of the client.
pub record Delivers (E : Environment) (oc : OidcClient) (cl : Client) (s : Secret) : Type 0 where
  pub owned : controlled_by E oc s ≡ true
  pub id : lookup "client_id" s.contents ≡ some cl.client_id
  pub secret : lookup "client_secret" s.contents ≡ some cl.client_secret

module _ (E : Environment) (now : Text) (b : RunsFake E now) (L : IsLawful E) (oc : OidcClient)
    (st : RunsStore E now b oc.namespace (secret_name oc)) (own : CanOwn E oc) (c : Tsidp.Client)
    (resync : ℕ) where
  -- Over a cluster that keeps the object's Secret as an API server does, beside a tsidp that
  -- answers as the fake does: one pass over an object with no client and at least one redirect
  -- URI, all without white space and control characters, whose Secret was not renamed and is
  -- absent or controlled by it, where tsidp has an issuer and no client with the object's
  -- fingerprint, ends ready after the resync interval, with the id of the new registration and the
  -- issuer recorded, tsidp then holds just the one registration more, and the Secret that is then
  -- held is controlled by the object and holds the id and the secret of the new client.
  pub fresh_pass :
      (w : E.World) (u : Text) (us : List Text)
      → IsPassable E now b L oc st own c resync (b.server w)
      → is_empty oc.status.client_id ≡ true
      → oc.spec.redirect_uris ≡ u ∷ us
      → MayWrite E oc (st.held w)
      → find_owned (fingerprint oc) (listing (b.server w).clients) ≡ none
      → ((reconcile_normal E c resync oc w).0 ≡ ready_with E now resync oc (b.server w) u us)
        × (b.server (reconcile_normal E c resync oc w).1
            ≡ (registration now (registered_name oc) (u ∷ us) (b.server w)).1)
        × ((t : Secret) × (st.held (reconcile_normal E c resync oc w).1 ≡ some t)
            × Delivers E oc
                (new_client now (registered_name oc) (u ∷ us) ((b.server w).next_id + 1))
                t)
  unfolding secret_name registered_name display_name fingerprint controlled_by new_client
  fresh_pass w u us p n e m f =
      let v = b.server w in
      let oc' = with_issuer v.issuer oc in
      let o = st.held w in
      let (t, q) = first_write L oc st own c resync w v p n u us o m in
      let cl = new_client now (registered_name oc) (u ∷ us) (v.next_id + 1) in
      let k =
        registered-Holds L oc' st (metadata v.issuer) (or_fresh st.fresh o) t (visible cl) refl q in
      let (i, s) =
        registered-contents L oc' (metadata v.issuer) oc.spec.redirect_uris (or_fresh st.fresh o) t
          (visible cl) q in
      let r =
        writing_pass-Comes L oc st own c resync w v p n u us o t q m e f
          (record { server = refl; held = refl }) in
      let same = st.stored_contents t in
      (
        r.result,
        r.at.server,
        (
          st.stored t,
          r.at.held,
          record {
            owned = k.owned;
            id = ap (λ x. lookup "client_id" x) same ∙ i;
            secret = ap (λ x. lookup "client_secret" x) same ∙ s;
          },
        ),
      )
