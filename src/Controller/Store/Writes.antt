-- ===== src/Controller/Store/Writes.antt =====
-- Writes of the Secret over such a cluster, and what they leave.
use tsidp_operator.Prelude.{
  ◌≡◌, ◌⊎◌, inl, inr, refl, ap, ◌∙◌, true, false, not, ◌&&◌, [], Option, none, some, arith,
}
use tsidp_operator.Prelude.{string_eq}
use tsidp_operator.Prelude.Map.{lookup}
use tsidp_operator.Text.{Text, is_empty}
use tsidp_operator.Fault.{ok}
use tsidp_operator.Tsidp.{FunnelClient, ProviderMetadata}
use tsidp_operator.Fake.{Server}
use tsidp_operator.Api.{OidcClient, Secret}
use tsidp_operator.Controller.Environment.{Environment, IsLawful}
use tsidp_operator.Controller.Names.{secret_name}
use tsidp_operator.Controller.Secrets.{
  controlled_by, converge_secret, upsert_secret, secret_adoptable, set_credentials,
  set_secret_metadata, apply_secret_template,
}
use tsidp_operator.Controller.Registration.{holds_credentials}
use tsidp_operator.Controller.Registration.Credentials.{
  labelled, converge_secret-open, converge_secret-owned, mutation, refreshed-holds_credentials,
  registered-holds_credentials, holds_of_lookups,
}
use tsidp_operator.Controller.Deletion.Sweep.{RunsFake}
use tsidp_operator.Controller.Store.Calls.{secret_adoptable-absent, secret_adoptable-held}
use tsidp_operator.Controller.Store.{or_fresh, RunsStore, CanOwn, At, Comes}

-- The object controls the Secret, and it holds the credentials of the client.
pub record Holds (E : Environment) (oc : OidcClient) (id : Text) (s : Secret) : Type 0 where
  pub owned : controlled_by E oc s ≡ true
  pub credentials : holds_credentials id s ≡ true

-- The object may write the Secret: there is none, or it controls the one that is held.
abbrev pub MayWrite : Environment → OidcClient → Option Secret → Type 0
MayWrite E oc none = Unit
MayWrite E oc (some s) = controlled_by E oc s ≡ true

pub secret_adoptable-Comes :
    {E : Environment} {now : Text} {b : RunsFake E now} (oc : OidcClient)
    (st : RunsStore E now b oc.namespace (secret_name oc)) (o : Option Secret) {v : Server}
    (w : E.World)
    → MayWrite E oc o
    → At st v o w
    → Comes st (ok o) v o (secret_adoptable E oc (secret_name oc) w)
secret_adoptable-Comes oc st none w m at = secret_adoptable-absent oc st w at
secret_adoptable-Comes oc st (some s) w m at = secret_adoptable-held oc st w at m

module _ {E : Environment} {now : Text} {b : RunsFake E now} (oc : OidcClient)
    (st : RunsStore E now b oc.namespace (secret_name oc)) (fc : Option FunnelClient)
    (disc : ProviderMetadata) where
  abbrev change : Secret → Secret
  change = mutation fc disc oc.spec.redirect_uris

  change-owners : (s : Secret) → (change (labelled E oc s)).owners ≡ s.owners
  unfolding set_credentials set_secret_metadata apply_secret_template
  change-owners s = by_client fc
    where
      by_client :
          (fc : Option FunnelClient)
          → (mutation fc disc oc.spec.redirect_uris (labelled E oc s)).owners ≡ s.owners
      by_client none = refl
      by_client (some c) = refl

  unguarded :
      (o : Option Secret)
      → MayWrite E oc o
      → (or_fresh st.fresh o).created && not (controlled_by E oc (or_fresh st.fresh o)) ≡ false
  unguarded none m = rw st.fresh_created refl
  unguarded (some s) m = rw m (ground arith)

  -- What is written has no owner, or is controlled by the object.
  ownable :
      (o : Option Secret) (u : Secret)
      → MayWrite E oc o
      → u.owners ≡ (or_fresh st.fresh o).owners
      → (u.owners ≡ []) ⊎ (controlled_by E oc u ≡ true)
  unfolding controlled_by
  ownable none u m e = inl (e ∙ st.fresh_owners)
  ownable (some s) u m e = inr (rw (controlled_by, st.controller_owners u s e) m)

  -- The Secret that a permitted write comes to.
  pub converge_secret-Writes :
      (o : Option Secret)
      → CanOwn E oc
      → MayWrite E oc o
      → (t : Secret) × (converge_secret E oc change (or_fresh st.fresh o) ≡ ok t)
  converge_secret-Writes o own m =
      let s = or_fresh st.fresh o in
      let (t, p) = own oc.status (change (labelled E oc s)) (ownable o _ m (change-owners s)) in
      (t, converge_secret-open E oc change s (unguarded o m) ∙ p)

  pub upsert_secret-Comes :
      {v : Server} {o : Option Secret} {t : Secret} (w : E.World)
      → converge_secret E oc change (or_fresh st.fresh o) ≡ ok t
      → At st v o w
      → Comes st (ok tt) v (some (st.stored t)) (upsert_secret E oc change w)
  unfolding upsert_secret
  upsert_secret-Comes {o} {t} w q at =
      let q' : converge_secret E oc change (or_fresh st.fresh (st.held w)) ≡ ok t =
        ap (λ o. converge_secret E oc change (or_fresh st.fresh o)) at.held ∙ q in
      let (r, v, h) = st.writes (converge_secret E oc change) w t q' in
      record { result = r; at = record { server = v ∙ at.server; held = h } }

module _ {E : Environment} {now : Text} {b : RunsFake E now} (L : IsLawful E) (oc : OidcClient)
    (st : RunsStore E now b oc.namespace (secret_name oc)) (disc : ProviderMetadata)
    (s t : Secret) where
  stored-owned : controlled_by E oc t ≡ true → controlled_by E oc (st.stored t) ≡ true
  unfolding controlled_by
  stored-owned h = rw (controlled_by, st.stored_controller t) h

  stored-credentials : (id : Text) → holds_credentials id (st.stored t) ≡ holds_credentials id t
  stored-credentials id =
      let e = st.stored_contents t in
      holds_of_lookups id (st.stored t) t (ap (λ m. lookup "client_id" m) e)
        (ap (λ m. lookup "client_secret" m) e)

  -- After the write that follows a registration, the Secret holds the new credentials.
  pub registered-Holds :
      (fc : FunnelClient)
      → is_empty fc.client_secret ≡ false
      → converge_secret E oc (mutation (some fc) disc oc.spec.redirect_uris) s ≡ ok t
      → Holds E oc fc.client_id (st.stored t)
  registered-Holds fc n h = record {
    owned = stored-owned (converge_secret-owned L oc _ s t h).1;
    credentials =
        stored-credentials fc.client_id
        ∙ registered-holds_credentials L oc disc oc.spec.redirect_uris s t fc n h;
  }

  -- A refresh leaves the credentials.
  pub refreshed-Holds :
      (id : Text)
      → Holds E oc id s
      → converge_secret E oc (mutation none disc oc.spec.redirect_uris) s ≡ ok t
      → Holds E oc id (st.stored t)
  refreshed-Holds id u h = record {
    owned = stored-owned (converge_secret-owned L oc _ s t h).1;
    credentials =
        stored-credentials id
        ∙ (refreshed-holds_credentials L oc disc oc.spec.redirect_uris s t id h ∙ u.credentials);
  }
