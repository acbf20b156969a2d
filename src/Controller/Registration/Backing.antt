-- ===== src/Controller/Registration/Backing.antt =====
-- A client id that a registration hands on is backed by a Secret.
use tsidp_operator.Prelude.{
  ◌≡◌, refl, sym, ◌⊎◌, inl, inr, subst, true, false, Option, none, some, arith, Bool-cases,
}
use tsidp_operator.Text.{Text, is_empty}
use tsidp_operator.Wire.{Response}
use tsidp_operator.Transport.{Http}
use tsidp_operator.Fault.{Error, Result, ok, err, proceed}
use tsidp_operator.Tsidp
use tsidp_operator.Tsidp.{FunnelClient, ProviderMetadata, RegistrationRequest}
use tsidp_operator.Tsidp.Methods.{delete_client, list_clients, register}
use tsidp_operator.Tsidp.Methods
use tsidp_operator.Api.{OidcClient, Secret}
use tsidp_operator.Controller.Environment.{Environment, IsLawful, http}
use tsidp_operator.Controller.Names.{secret_name, fingerprint}
use tsidp_operator.Controller.Secrets.{
  controlled_by, vet_secret, secret_adoptable, upsert_secret, set_credentials,
}
use tsidp_operator.Controller.Normal.Frame.{handle_cases, list_clients-kept}
use tsidp_operator.Controller.Normal.Requests.{KeptByCalls}
use tsidp_operator.Controller.Registration.{
  RegisterOutcome, holds_credentials, adoptable, adopt_or_burn, register_new, register_or_adopt,
  find_owned, serious,
}
use tsidp_operator.Controller.Registration.Credentials.{
  converge_secret-owned, registered-holds_credentials,
}

-- A property of the world that the object's Secret, of a name, has backed a client. Every call keeps
-- it, and it holds after a read that finds the Secret controlled by the object and with the client's
-- credentials, and after a write that succeeds and can only leave such a Secret. The least such
-- property is that a read or a write of that kind has been made.
pub record Records (E : Environment) (Q : Text → Text → E.World → Type 0) (oc : OidcClient)
    : Type 0 where
  pub kept : (name id : Text) → KeptByCalls E (Q name id)
  pub by_read :
      (id : Text) (w : E.World) (s : Secret)
      → (E.read_secret oc.namespace (secret_name oc) w).0 ≡ ok s
      → controlled_by E oc s ≡ true
      → holds_credentials id s ≡ true
      → Q (secret_name oc) id (E.read_secret oc.namespace (secret_name oc) w).1
  pub by_write :
      (id : Text) (f : Secret → Result Secret) (w : E.World)
      → ((s t : Secret)
          → f s ≡ ok t
          → (controlled_by E oc t ≡ true) × (holds_credentials id t ≡ true))
      → (E.create_or_update oc.namespace (secret_name oc) f w).0 ≡ ok tt
      → Q (secret_name oc) id (E.create_or_update oc.namespace (secret_name oc) f w).1

secret_adoptable-some :
    (E : Environment) (oc : OidcClient) (w : E.World) (s : Secret)
    → (secret_adoptable E oc (secret_name oc) w).0 ≡ ok (some s)
    → ((E.read_secret oc.namespace (secret_name oc) w).0 ≡ ok s) × (controlled_by E oc s ≡ true)
unfolding secret_adoptable vet_secret
secret_adoptable-some E oc w s h = ground arith

-- A registration that does not fail hands on an object of the property.
pub record Yields (E : Environment) (G : OidcClient → E.World → Type 0)
    (x : Result (OidcClient × RegisterOutcome) × E.World) : Type 0 where
  pub object : (oc : OidcClient) (o : RegisterOutcome) → x.0 ≡ ok (oc, o) → G oc x.1

-- The same resource, whatever its status.
pub record IsSame (oc' oc : OidcClient) : Type 0 where
  pub spec : oc'.spec ≡ oc.spec
  pub metadata : oc'.metadata ≡ oc.metadata

IsSame-status : (oc' oc : OidcClient) → IsSame oc' oc → oc' ≡ record oc { status = oc'.status }
IsSame-status oc' oc i = rw (sym i.spec, sym i.metadata) refl

pub Records-Same :
    {E : Environment} {Q : Text → Text → E.World → Type 0} (oc' oc : OidcClient)
    → IsSame oc' oc
    → Records E Q oc
    → Records E Q oc'
unfolding secret_name controlled_by
Records-Same {E} {Q} oc' oc i k =
    subst (Records E Q) (sym (IsSame-status oc' oc i))
      (record { kept = k.kept; by_read = k.by_read; by_write = k.by_write })

pub secret_name-Same : (oc' oc : OidcClient) → IsSame oc' oc → secret_name oc' ≡ secret_name oc
unfolding secret_name
secret_name-Same oc' oc i = rw (i.spec, i.metadata) refl

-- A client that tsidp hands out comes with a secret.
registered-secret :
    (resp : Response) (fc : FunnelClient)
    → Methods.registered resp ≡ ok fc
    → is_empty fc.client_secret ≡ false
unfolding Methods.registered
registered-secret resp fc h = ground arith

lifted-ok :
    {W A B : Type 0} (r : Result A) (w : W) (f : A → Result B) (y : B)
    → (proceed r w (λ a w. (f a, w))).0 ≡ ok y
    → (a : A) × (f a ≡ ok y)
lifted-ok (ok a) w f y h = (a, h)
lifted-ok (err e) w f y h = cc

register-secret :
    (H : Http) (c : Tsidp.Client) (q : RegistrationRequest) (w : H.World) (fc : FunnelClient)
    → (register H c q w).0 ≡ ok fc
    → is_empty fc.client_secret ≡ false
unfolding register
register-secret H c q w fc h =
    let (resp, p) = lifted-ok _ _ Methods.registered fc h in registered-secret resp fc p

module _ (E : Environment) (L : IsLawful E) (c : Tsidp.Client) (Q : Text → Text → E.World → Type 0)
    (oc : OidcClient) (k : Records E Q oc) where
  -- The object is as it was, or the client that it now has is backed.
  abbrev Backed : OidcClient → E.World → Type 0
  Backed oc' w = IsSame oc' oc × ((oc' ≡ oc) ⊎ Q (secret_name oc) oc'.status.client_id w)

  yielded :
      (oc₁ : OidcClient) (o : RegisterOutcome) (w : E.World)
      → IsSame oc₁ oc
      → Q (secret_name oc) oc₁.status.client_id w
      → Yields E Backed (ok (oc₁, o), w)
  yielded oc₁ o w s b = record {
    object = λ oc' o' q. let e : oc₁ ≡ oc' = cc in subst (λ x. Backed x w) e (s, inr b);
  }

  -- The branch that does not adopt leaves the object as it was.
  burned-Backed :
      (existing : Option Secret) (fc : FunnelClient) (w : E.World)
      → adoptable fc.client_id existing ≡ false
      → Yields E Backed (adopt_or_burn E c oc existing fc w)
  unfolding adopt_or_burn
  burned-Backed existing fc w n =
      by_result (serious (delete_client (http E) c fc.client_id w).0) refl
    where
      by_result :
          (r : Option Error)
          → serious (delete_client (http E) c fc.client_id w).0 ≡ r
          → Yields E Backed (adopt_or_burn E c oc existing fc w)
      by_result (some e) p = rw (adopt_or_burn, n, p) (record { object = λ oc' o q. cc })
      by_result none p =
          rw (adopt_or_burn, n, p)
            (record { object = λ oc' o q. (record { spec = cc; metadata = cc }, inl cc) })

  -- What the read of the Secret has shown.
  Vetted : Option Secret → E.World → Type 0
  Vetted none w = Unit
  Vetted (some s) w = (id : Text) → holds_credentials id s ≡ true → Q (secret_name oc) id w

  adopt_or_burn-Backed :
      (existing : Option Secret) (fc : FunnelClient) (w : E.World)
      → Vetted existing w
      → Yields E Backed (adopt_or_burn E c oc existing fc w)
  unfolding adopt_or_burn adoptable Vetted
  adopt_or_burn-Backed none fc w v = burned-Backed none fc w refl
  adopt_or_burn-Backed (some s) fc w v = elim (Bool-cases (holds_credentials fc.client_id s)) [
    | inl e ↦
        rw (adopt_or_burn, adoptable, e)
          (yielded _ _ _ (record { spec = refl; metadata = refl })
            ((k.kept (secret_name oc) fc.client_id).reads.by_event _ _ (v fc.client_id e)))
    | inr e ↦ burned-Backed (some s) fc w e
  ]

  register_new-Backed :
      (disc : ProviderMetadata) (w : E.World) → Yields E Backed (register_new E c oc disc w)
  unfolding register_new upsert_secret
  register_new-Backed disc w =
      handle_cases (Yields E Backed) _ _ _ _ (λ e p. record { object = λ oc' o q. cc })
        (λ fc p.
          let n = register-secret (http E) c _ w fc p in
          handle_cases (Yields E Backed) _ _ _ _ (λ e q. record { object = λ oc' o q'. cc })
            (λ u q.
              let b =
                k.by_write fc.client_id _ _
                  (λ s t h. (
                    (converge_secret-owned L oc (set_credentials fc disc oc.spec.redirect_uris) s t
                        h).1,
                    registered-holds_credentials L oc disc oc.spec.redirect_uris s t fc n h,
                  ))
                  q in
              yielded _ _ _ (record { spec = refl; metadata = refl })
                ((k.kept (secret_name oc) fc.client_id).reads.by_event _ _ b)))

  read-Vetted :
      (w : E.World) (existing : Option Secret)
      → (secret_adoptable E oc (secret_name oc) w).0 ≡ ok existing
      → Vetted existing (secret_adoptable E oc (secret_name oc) w).1
  unfolding secret_adoptable Vetted
  read-Vetted w none p = tt
  read-Vetted w (some s) p =
      let (q, own) = secret_adoptable-some E oc w s p in (λ id e. k.by_read id w s q own e)

  listed-Vetted :
      (w : E.World) (existing : Option Secret)
      → Vetted existing w
      → Vetted existing (list_clients (http E) c w).1
  unfolding Vetted
  listed-Vetted w none v = tt
  listed-Vetted w (some s) v =
      (λ id e. list_clients-kept c (k.kept (secret_name oc) id).reads w (v id e))

  -- With lawful cluster libraries, whatever tsidp and the cluster answer: if registerOrAdopt
  -- succeeds, then the object has its spec and metadata as before, and it is unchanged or the
  -- client id that it now has is backed by its Secret, by a read of it or a write to it.
  pub register_or_adopt-Backed :
      (disc : ProviderMetadata) (w : E.World) → Yields E Backed (register_or_adopt E c oc disc w)
  unfolding register_or_adopt
  register_or_adopt-Backed disc w =
      handle_cases (Yields E Backed) _ _ _ _ (λ e p. record { object = λ oc' o q. cc })
        (λ existing p.
          handle_cases (Yields E Backed) _ _ _ _ (λ e q. record { object = λ oc' o q'. cc })
            (λ list q.
              by_owned existing _ (listed-Vetted _ existing (read-Vetted w existing p))
                (find_owned (fingerprint oc) list)))
    where
      by_owned :
          (existing : Option Secret) (w' : E.World)
          → Vetted existing w'
          → (r : Option FunnelClient)
          → Yields E Backed (elim r [
            | some fc ↦ adopt_or_burn E c oc existing fc w'
            | none ↦ register_new E c oc disc w'
          ])
      by_owned existing w' v (some fc) = adopt_or_burn-Backed existing fc w' v
      by_owned existing w' v none = register_new-Backed disc w'

-- A result that says that an orphan was burned comes with the object as it was.
pub record Spares (E : Environment) (oc : OidcClient)
    (x : Result (OidcClient × RegisterOutcome) × E.World) : Type 0 where
  pub same : (oc' : OidcClient) → x.0 ≡ ok (oc', RegisterOutcome.burned_orphan) → oc' ≡ oc

module _ (E : Environment) (c : Tsidp.Client) (oc : OidcClient) where
  burned-Spares :
      (existing : Option Secret) (fc : FunnelClient) (w : E.World)
      → adoptable fc.client_id existing ≡ false
      → Spares E oc (adopt_or_burn E c oc existing fc w)
  unfolding adopt_or_burn
  burned-Spares existing fc w n =
      by_result (serious (delete_client (http E) c fc.client_id w).0) refl
    where
      by_result :
          (r : Option Error)
          → serious (delete_client (http E) c fc.client_id w).0 ≡ r
          → Spares E oc (adopt_or_burn E c oc existing fc w)
      by_result (some e) p = rw (adopt_or_burn, n, p) (record { same = λ oc' q. cc })
      by_result none p = rw (adopt_or_burn, n, p) (record { same = λ oc' q. cc })

  adopt_or_burn-Spares :
      (existing : Option Secret) (fc : FunnelClient) (w : E.World)
      → Spares E oc (adopt_or_burn E c oc existing fc w)
  unfolding adopt_or_burn
  adopt_or_burn-Spares existing fc w = elim (Bool-cases (adoptable fc.client_id existing)) [
    | inl a ↦ rw (adopt_or_burn, a) (record { same = λ oc' q. cc })
    | inr a ↦ burned-Spares existing fc w a
  ]

  register_new-Spares :
      (disc : ProviderMetadata) (w : E.World) → Spares E oc (register_new E c oc disc w)
  unfolding register_new
  register_new-Spares disc w =
      handle_cases (Spares E oc) _ _ _ _ (λ e p. record { same = λ oc' q. cc })
        (λ fc p.
          handle_cases (Spares E oc) _ _ _ _ (λ e q. record { same = λ oc' q'. cc })
            (λ u q. record { same = λ oc' q'. cc }))

  pub register_or_adopt-Spares :
      (disc : ProviderMetadata) (w : E.World) → Spares E oc (register_or_adopt E c oc disc w)
  unfolding register_or_adopt
  register_or_adopt-Spares disc w =
      handle_cases (Spares E oc) _ _ _ _ (λ e p. record { same = λ oc' q. cc })
        (λ existing p.
          handle_cases (Spares E oc) _ _ _ _ (λ e q. record { same = λ oc' q'. cc })
            (λ list q. by_owned existing _ (find_owned (fingerprint oc) list)))
    where
      by_owned :
          (existing : Option Secret) (w' : E.World) (r : Option FunnelClient)
          → Spares E oc (elim r [
            | some fc ↦ adopt_or_burn E c oc existing fc w'
            | none ↦ register_new E c oc disc w'
          ])
      by_owned existing w' (some fc) = adopt_or_burn-Spares existing fc w'
      by_owned existing w' none = register_new-Spares disc w'
