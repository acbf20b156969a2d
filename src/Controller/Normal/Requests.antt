-- ===== src/Controller/Normal/Requests.antt =====
-- Properties of the world that every call keeps, the requests to tsidp and the registration keep.
use tsidp_operator.Prelude.{
  ◌⊎◌, inl, inr, ℕ, ◌≡◌, refl, sym, subst, true, List, [], ◌∷◌, Option, none, some,
}
use tsidp_operator.Text.{Text, text_eq}
use tsidp_operator.Wire.{Request, Response}
use tsidp_operator.Text.Trim.{trim_space}
use tsidp_operator.Text.Lines.{trim_all}
use tsidp_operator.Fake.Contract.Edit.{edit_request}
use tsidp_operator.Fault.{wrap, Error, Result, ok, err, proceed-lift}
use tsidp_operator.Tsidp
use tsidp_operator.Tsidp.{FunnelClient, ProviderMetadata, RegistrationRequest}
use tsidp_operator.Tsidp.Methods.{
  register, delete_client, update_client, read_back, edited, verified, registered, deleted,
}
use tsidp_operator.Api.{OidcClient, Secret}
use tsidp_operator.Controller.Environment.{Environment, http}
use tsidp_operator.Controller.Names.{secret_name, fingerprint}
use tsidp_operator.Controller.Secrets.{upsert_secret}
use tsidp_operator.Controller.Status.{text, emit}
use tsidp_operator.Controller.Registration.{
  RegisterOutcome, adoptable, find_owned, serious, adopt_or_burn, register_new, register_or_adopt,
  registration_request,
}
use tsidp_operator.Controller.Normal.{}
use tsidp_operator.Controller.Normal.Frame.{
  KeptByReads, KeptBySecrets, get_client-kept, list_clients-kept, secret_adoptable-kept,
  handle_cases, if_cases,
}

-- Requests to tsidp, reads and writes of Secrets, and events keep the property.
pub record KeptByCalls (E : Environment) (P : E.World → Type 0) : Type 0 where
  pub reads : KeptByReads E P
  pub secrets : KeptBySecrets E P
  pub by_send : (r : Request) (w : E.World) → P w → P (E.send r w).1

-- What is not about the world.
pub constant-KeptByCalls : (E : Environment) (A : Type 0) → KeptByCalls E (λ w. A)
constant-KeptByCalls E A = record {
  reads = record { by_get = λ r w e h. h; by_read = λ ns name w h. h; by_event = λ e w h. h };
  secrets = record { by_upsert = λ ns name f w h. h; by_delete = λ s uid w h. h };
  by_send = λ r w h. h;
}

-- A property beside others that are not about the world.
pub beside-KeptByCalls :
    {E : Environment} {P : E.World → Type 0} (A B : Type 0)
    → KeptByCalls E P
    → KeptByCalls E (λ w. A × (B ⊎ P w))
beside-KeptByCalls {E} {P} A B k = record {
  reads = record {
    by_get = λ r w e. lift (k.reads.by_get r w e);
    by_read = λ ns name w. lift (k.reads.by_read ns name w);
    by_event = λ e w. lift (k.reads.by_event e w);
  };
  secrets = record {
    by_upsert = λ ns name f w. lift (k.secrets.by_upsert ns name f w);
    by_delete = λ s uid w. lift (k.secrets.by_delete s uid w);
  };
  by_send = λ r w. lift (k.by_send r w);
}
  where
    lift : {w w' : E.World} → (P w → P w') → A × (B ⊎ P w) → A × (B ⊎ P w')
    lift f (a, inl b) = (a, inl b)
    lift f (a, inr p) = (a, inr (f p))

module _ {W : Type 0} (P : W → Type 0) where
  pub record Safe {B : Type 0} (x : B × W) : Type 0 where
    pub world : P x.1

module _ (E : Environment) (c : Tsidp.Client) (resync : ℕ) (P : E.World → Type 0)
    (k : KeptByCalls E P) where
  pub delete_client-kept : (id : Text) (w : E.World) → P w → P (delete_client (http E) c id w).1
  unfolding delete_client
  delete_client-kept id w h = subst P (sym (proceed-lift _ _ deleted)) (k.by_send _ w h)

  register-kept : (r : RegistrationRequest) (w : E.World) → P w → P (register (http E) c r w).1
  unfolding register
  register-kept r w h = subst P (sym (proceed-lift _ _ registered)) (k.by_send _ w h)

  pub update_client-kept :
      (id name : Text) (uris : List Text) (w : E.World)
      → P w
      → P (update_client (http E) c id name uris w).1
  unfolding update_client read_back
  update_client-kept id name uris w h = by_sent (E.send (edit_request c id name uris) w).0 refl
    where
      w' : E.World
      w' = (E.send (edit_request c id name uris) w).1

      h' : P w'
      h' = k.by_send (edit_request c id name uris) w h

      by_edited :
          (resp : Response) (r : Result (Unit {0}))
          → (E.send (edit_request c id name uris) w).0 ≡ ok resp
          → edited resp ≡ r
          → P (update_client (http E) c id name uris w).1
      by_edited resp (err e) p q = rw (update_client, p, q) h'
      by_edited resp (ok u) p q =
          rw (update_client, p, q)
            (subst P (sym (proceed-lift _ _ (verified id (trim_space name) (trim_all uris))))
              (get_client-kept c k.reads id w' h'))

      by_sent :
          (r : Result Response)
          → (E.send (edit_request c id name uris) w).0 ≡ r
          → P (update_client (http E) c id name uris w).1
      by_sent (err e) p = rw (update_client, p) h'
      by_sent (ok resp) p = by_edited resp (edited resp) p refl

  adopt_or_burn-kept :
      (oc : OidcClient) (existing : Option Secret) (fc : FunnelClient) (w : E.World)
      → P w
      → Safe P (adopt_or_burn E c oc existing fc w)
  unfolding adopt_or_burn
  adopt_or_burn-kept oc existing fc w h =
      let h' = delete_client-kept fc.client_id w h in
      if_cases (Safe P) (adoptable fc.client_id existing) _ _
        (λ _. record { world = k.reads.by_event _ _ h })
        (λ _. by_result (serious (delete_client (http E) c fc.client_id w).0) h')
    where
      by_result :
          {w' : E.World} (r : Option Error)
          → P w'
          → Safe P {B = Result (OidcClient × RegisterOutcome)} (elim r [
            | some e ↦ (err (wrap "deleting unadoptable orphan %s: %w" (fc.client_id ∷ []) e), w')
            | none ↦ (
              ok (oc, RegisterOutcome.burned_orphan),
              emit E true "OrphanReplaced"
                  (text
                    "deleted fingerprint-matched registration %s whose credentials were unrecoverable"
                    (fc.client_id ∷ []))
                  w',
            )
          ])
      by_result (some e) h = record { world = h }
      by_result none h = record { world = k.reads.by_event _ _ h }

  register_new-kept :
      (oc : OidcClient) (disc : ProviderMetadata) (w : E.World)
      → P w
      → Safe P (register_new E c oc disc w)
  unfolding register_new upsert_secret
  register_new-kept oc disc w h =
      let h₁ = register-kept (registration_request oc) w h in
      handle_cases (Safe P) _ _ _ _ (λ e _. record { world = h₁ })
        (λ resp _.
          let h₂ = k.secrets.by_upsert oc.namespace (secret_name oc) _ _ h₁ in
          handle_cases (Safe P) _ _ _ _ (λ e _. record { world = h₂ })
            (λ _ _. record { world = k.reads.by_event _ _ h₂ }))

  pub register_or_adopt-kept :
      (oc : OidcClient) (disc : ProviderMetadata) (w : E.World)
      → P w
      → Safe P (register_or_adopt E c oc disc w)
  unfolding register_or_adopt
  register_or_adopt-kept oc disc w h =
      let h₁ = secret_adoptable-kept c k.reads oc (secret_name oc) w h in
      handle_cases (Safe P) _ _ _ _ (λ e _. record { world = h₁ })
        (λ existing _.
          let h₂ = list_clients-kept c k.reads _ h₁ in
          handle_cases (Safe P) _ _ _ _ (λ e _. record { world = h₂ })
            (λ list _. by_owned existing _ h₂ (find_owned (fingerprint oc) list)))
    where
      by_owned :
          (existing : Option Secret) (w' : E.World)
          → P w'
          → (r : Option FunnelClient)
          → Safe P {B = Result (OidcClient × RegisterOutcome)} (elim r [
            | some fc ↦ adopt_or_burn E c oc existing fc w'
            | none ↦ register_new E c oc disc w'
          ])
      by_owned existing w' h (some fc) = adopt_or_burn-kept oc existing fc w' h
      by_owned existing w' h none = register_new-kept oc disc w' h
