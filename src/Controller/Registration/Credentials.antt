-- ===== src/Controller/Registration/Credentials.antt =====
-- What the guarded write of the Secret does to the credentials in it.
use tsidp_operator.Prelude.{
  ◌≡◌, refl, ◌⊎◌, ap, ◌∙◌, true, false, not, ◌&&◌, List, Option, none, some, arith, string_eq,
}
use tsidp_operator.Prelude.Map.{lookup, insert, lookup-insert}
use tsidp_operator.Text.{Text, is_empty, text_eq}
use tsidp_operator.Fault.{ok}
use tsidp_operator.Tsidp.{FunnelClient, ProviderMetadata}
use tsidp_operator.Api.{OidcClient, Secret}
use tsidp_operator.Controller.Environment.{Environment, IsLawful}
use tsidp_operator.Controller.Secrets.{
  apply_secret_template, controlled_by, converge_secret, set_credentials, set_secret_metadata,
  insert_all, managed_secret_labels,
}
use tsidp_operator.Controller.Registration.{holds_credentials}

-- The Secret as `mutate` is given it.
abbrev pub labelled : Environment → OidcClient → Secret → Secret
labelled E oc s =
    let u = apply_secret_template E s oc.spec.secret_template in
    record u { labels = insert_all managed_secret_labels u.labels }

-- The two mutations that the reconciler hands to `upsertSecret`: with the credentials of a new
-- client, and without.
abbrev pub mutation : Option FunnelClient → ProviderMetadata → List Text → Secret → Secret
mutation none disc uris = set_secret_metadata disc uris
mutation (some fc) disc uris = set_credentials fc disc uris

pub mutation-labels :
    (fc : Option FunnelClient) (disc : ProviderMetadata) (uris : List Text) (s : Secret)
    → (mutation fc disc uris s).labels ≡ s.labels
unfolding set_credentials set_secret_metadata
mutation-labels none disc uris s = refl
mutation-labels (some fc) disc uris s = refl

-- A Secret that passes the guard is not refused by it.
pub converge_secret-open :
    (E : Environment) (oc : OidcClient) (mutate : Secret → Secret) (s : Secret)
    → s.created && not (controlled_by E oc s) ≡ false
    → converge_secret E oc mutate s ≡ E.set_controller_reference oc (mutate (labelled E oc s))
unfolding converge_secret
converge_secret-open E oc mutate s n = ground arith

-- A new Secret is not refused.
pub converge_secret-new :
    (E : Environment) (oc : OidcClient) (mutate : Secret → Secret) (s : Secret)
    → s.created ≡ false
    → converge_secret E oc mutate s ≡ E.set_controller_reference oc (mutate (labelled E oc s))
unfolding converge_secret
converge_secret-new E oc mutate s n = ground arith

module _ {E : Environment} (L : IsLawful E) (oc : OidcClient) (mutate : Secret → Secret)
    (s t : Secret) where
  pub converge_secret-inv :
      converge_secret E oc mutate s ≡ ok t
      → (s.created && not (controlled_by E oc s) ≡ false)
        × (E.set_controller_reference oc (mutate (labelled E oc s)) ≡ ok t)
  unfolding converge_secret
  converge_secret-inv h = ground arith

  -- With lawful cluster libraries: a write of the Secret that is accepted was on a Secret that did
  -- not exist or that the object controls, and leaves a Secret that the object controls.
  pub converge_secret-owned :
      converge_secret E oc mutate s ≡ ok t
      → ((s.created ≡ false) ⊎ (controlled_by E oc s ≡ true)) × (controlled_by E oc t ≡ true)
  unfolding controlled_by
  converge_secret-owned h =
      let (guard, set) = converge_secret-inv h in
      let (r, found, own) = L.owner_set oc _ t set in
      (ground arith, rw (controlled_by, found) (ground arith))

  converge_secret-contents :
      converge_secret E oc mutate s ≡ ok t → t.contents ≡ (mutate (labelled E oc s)).contents
  converge_secret-contents h =
      ap (λ (u : Secret). u.contents) (L.sets_owner oc _ t (converge_secret-inv h).1)

pub holds_of_lookups :
    (id : Text) (s t : Secret)
    → lookup "client_id" s.contents ≡ lookup "client_id" t.contents
    → lookup "client_secret" s.contents ≡ lookup "client_secret" t.contents
    → holds_credentials id s ≡ holds_credentials id t
unfolding holds_credentials
holds_of_lookups id s t e f = rw (e, f) refl

-- The contents that a refresh writes are not the credentials.
metadata-id :
    (disc : ProviderMetadata) (uris : List Text) (s : Secret)
    → lookup "client_id" (set_secret_metadata disc uris s).contents ≡ lookup "client_id" s.contents
unfolding set_secret_metadata string_eq
metadata-id disc uris s = simp lookup-insert

metadata-secret :
    (disc : ProviderMetadata) (uris : List Text) (s : Secret)
    → lookup "client_secret" (set_secret_metadata disc uris s).contents
      ≡ lookup "client_secret" s.contents
unfolding set_secret_metadata string_eq
metadata-secret disc uris s = simp lookup-insert

abbrev with_credentials : FunnelClient → Secret → Secret
with_credentials fc s = record s {
  contents = insert "client_secret" fc.client_secret (insert "client_id" fc.client_id s.contents);
}

credentials-id :
    (fc : FunnelClient) (disc : ProviderMetadata) (uris : List Text) (s : Secret)
    → lookup "client_id" (set_credentials fc disc uris s).contents ≡ some fc.client_id
unfolding set_credentials string_eq
credentials-id fc disc uris s = metadata-id disc uris (with_credentials fc s) ∙ simp lookup-insert

credentials-secret :
    (fc : FunnelClient) (disc : ProviderMetadata) (uris : List Text) (s : Secret)
    → lookup "client_secret" (set_credentials fc disc uris s).contents ≡ some fc.client_secret
unfolding set_credentials string_eq
credentials-secret fc disc uris s =
    metadata-secret disc uris (with_credentials fc s) ∙ simp lookup-insert

module _ {E : Environment} (L : IsLawful E) (oc : OidcClient) (disc : ProviderMetadata)
    (uris : List Text) (s t : Secret) where
  -- With lawful cluster libraries: a refresh of the Secret that is accepted leaves the outcome of
  -- the credentials check as it was, for every client id.
  pub refreshed-holds_credentials :
      (id : Text)
      → converge_secret E oc (set_secret_metadata disc uris) s ≡ ok t
      → holds_credentials id t ≡ holds_credentials id s
  unfolding apply_secret_template
  refreshed-holds_credentials id h =
      let e = converge_secret-contents L oc (set_secret_metadata disc uris) s t h in
      holds_of_lookups id t s (ap (λ m. lookup "client_id" m) e ∙ metadata-id disc uris _)
        (ap (λ m. lookup "client_secret" m) e ∙ metadata-secret disc uris _)

  -- With lawful cluster libraries: if the guarded write after a registration is accepted and tsidp
  -- gave a non-empty client secret, then the written Secret holds the credentials of the
  -- registered client, as the later check reads them.
  pub registered-holds_credentials :
      (fc : FunnelClient)
      → is_empty fc.client_secret ≡ false
      → converge_secret E oc (set_credentials fc disc uris) s ≡ ok t
      → holds_credentials fc.client_id t ≡ true
  unfolding holds_credentials
  registered-holds_credentials fc n h =
      let e = converge_secret-contents L oc (set_credentials fc disc uris) s t h in
      let i = ap (λ m. lookup "client_id" m) e ∙ credentials-id fc disc uris _ in
      let k = ap (λ m. lookup "client_secret" m) e ∙ credentials-secret fc disc uris _ in
      rw (i, k) (ground arith)

  -- It is the client's id and secret that it holds.
  pub registered-contents :
      (fc : FunnelClient)
      → converge_secret E oc (set_credentials fc disc uris) s ≡ ok t
      → (lookup "client_id" t.contents ≡ some fc.client_id)
        × (lookup "client_secret" t.contents ≡ some fc.client_secret)
  registered-contents fc h =
      let e = converge_secret-contents L oc (set_credentials fc disc uris) s t h in
      (
        ap (λ m. lookup "client_id" m) e ∙ credentials-id fc disc uris _,
        ap (λ m. lookup "client_secret" m) e ∙ credentials-secret fc disc uris _,
      )
