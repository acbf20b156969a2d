-- ===== src/Controller/Normal/Foreign.antt =====
-- A Secret name that belongs to something else, or cannot be looked at, stops the pass.
use tsidp_operator.Prelude.{
  ℕ, ◌≡◌, refl, sym, ap, subst, true, false, ◌||◌, Option, none, some, if◌then◌else◌, ◌==◌,
}
use tsidp_operator.Text.{Text, is_empty, text_eq}
use tsidp_operator.Fault.{Error, Exec, Result, ok, err, is_not_found, is_secret_conflict}
use tsidp_operator.Tsidp
use tsidp_operator.Tsidp.{ProviderMetadata}
use tsidp_operator.Api.{OidcClient, Secret}
use tsidp_operator.Controller.Environment.{Environment}
use tsidp_operator.Controller.Names.{secret_name}
use tsidp_operator.Controller.Secrets.{controlled_by, vet_secret, secret_adoptable}
use tsidp_operator.Controller.Status.{error_text, Return, stop, with_issuer, handle, not_ready}
use tsidp_operator.Controller.Registration.{register_or_adopt}
use tsidp_operator.Controller.Normal.{
  bad_uri, rename_secret, establish, continue, with_metadata, reconcile_normal, verify,
}
use tsidp_operator.Controller.Normal.Frame.{KeptByReads, discovery-kept, handle_cases, if_cases}
use tsidp_operator.Controller.Normal.Quiet.{Keeps, Kept, continue-Kept}

-- The object has no client, and its Secret's name is taken, whenever it is read.
pub record IsSquatted (E : Environment) (oc : OidcClient) : Type 0 where
  pub unknown : is_empty oc.status.client_id ≡ true
  pub there :
      (w : E.World) (e : Error)
      → (E.read_secret oc.namespace (secret_name oc) w).0 ≡ err e
      → is_not_found e ≡ false
  pub foreign :
      (w : E.World) (s : Secret)
      → (E.read_secret oc.namespace (secret_name oc) w).0 ≡ ok s
      → controlled_by E oc s ≡ false

with_issuer-IsSquatted :
    (E : Environment) (oc : OidcClient) (i : Text)
    → IsSquatted E oc
    → IsSquatted E (with_issuer i oc)
unfolding secret_name controlled_by
with_issuer-IsSquatted E oc i u = record {
  unknown = u.unknown;
  there = u.there;
  foreign = u.foreign;
}

not_adoptable :
    (E : Environment) (oc : OidcClient) (w : E.World)
    → IsSquatted E oc
    → (e : Error) × (secret_adoptable E oc (secret_name oc) w
        ≡ (err e, (E.read_secret oc.namespace (secret_name oc) w).1))
unfolding secret_adoptable vet_secret
not_adoptable E oc w u = by_read ((E.read_secret oc.namespace (secret_name oc) w).0) refl
  where
    by_read :
        (r : Result Secret)
        → (E.read_secret oc.namespace (secret_name oc) w).0 ≡ r
        → (e : Error) × (secret_adoptable E oc (secret_name oc) w
            ≡ (err e, (E.read_secret oc.namespace (secret_name oc) w).1))
    by_read (ok s) p = rw (secret_adoptable, p, u.foreign w s p) (_, refl)
    by_read (err e) p = rw (secret_adoptable, p, u.there w e p) (_, refl)

handle_failed :
    {W A B : Type 0} (m : Exec W A) (w : W) (f : Error → W → B × W) (g : A → W → B × W) (e : Error)
    (w' : W)
    → m w ≡ (err e, w')
    → handle m w f g ≡ f e w'
unfolding handle
handle_failed m w f g e w' p = rw (handle, ap (λ x. x.0) p, ap (λ x. x.1) p) refl

module _ (E : Environment) (c : Tsidp.Client) (resync : ℕ) (P : E.World → Type 0)
    (k : KeptByReads E P) where
  rename-foreign :
      (oc : OidcClient) (w : E.World)
      → IsSquatted E oc
      → P w
      → Keeps E P (IsSquatted E) (rename_secret E c resync oc w)
  unfolding rename_secret
  rename-foreign oc w u h =
      let (e, p) = not_adoptable E oc w u in
      if_cases (Keeps E P (IsSquatted E))
        (is_empty oc.status.secret_name || oc.status.secret_name == secret_name oc) _ _
        (λ _. record { world = h; hands = u })
        (λ _.
          subst (Keeps E P (IsSquatted E))
            (sym (handle_failed (secret_adoptable E oc (secret_name oc)) w _ _ e _ p))
            (record { world = k.by_read oc.namespace (secret_name oc) w h; hands = tt }))

  register_or_adopt-foreign :
      (oc : OidcClient) (disc : ProviderMetadata) (w : E.World)
      → IsSquatted E oc
      → (e : Error) × (register_or_adopt E c oc disc w
          ≡ (err e, (E.read_secret oc.namespace (secret_name oc) w).1))
  unfolding register_or_adopt
  register_or_adopt-foreign oc disc w u =
      let (e, p) = not_adoptable E oc w u in
      (e, handle_failed (secret_adoptable E oc (secret_name oc)) w _ _ e _ p)

  establish-foreign :
      (oc : OidcClient) (disc : ProviderMetadata) (w : E.World)
      → IsSquatted E oc
      → (r : OidcClient × Return) × (establish E c resync oc disc w
          ≡ (stop r, (E.read_secret oc.namespace (secret_name oc) w).1))
  unfolding establish
  establish-foreign oc disc w u =
      let (e, p) = register_or_adopt-foreign oc disc w u in
      rw (establish, u.unknown)
        (
          not_ready E oc (if is_secret_conflict e then "SecretConflict" else "RegistrationFailed")
              (error_text e),
          handle_failed (register_or_adopt E c oc disc) w _ _ e _ p,
        )

  with_metadata-foreign :
      (oc : OidcClient) (disc : ProviderMetadata) (w : E.World)
      → IsSquatted E oc
      → P w
      → Kept E P (with_metadata E c resync disc oc w)
  unfolding with_metadata
  with_metadata-foreign oc disc w u h =
      continue-Kept E c resync P (IsSquatted E) _ _ (rename-foreign oc w u h) (λ oc₁ w₁ u₁ h₁.
        let (r, q) = establish-foreign oc₁ disc w₁ u₁ in
        subst (λ x. Kept E P (continue E c resync x (verify E c resync disc))) (sym q)
          (record { world = k.by_read oc₁.namespace (secret_name oc₁) w₁ h₁ }))

  reconcile_normal-Kept :
      (oc : OidcClient) (w : E.World)
      → IsSquatted E oc
      → P w
      → Kept E P (reconcile_normal E c resync oc w)
  unfolding reconcile_normal
  reconcile_normal-Kept oc w u h = by_uris (bad_uri oc.spec.redirect_uris) refl
    where
      by_uris :
          (b : Option Text)
          → bad_uri oc.spec.redirect_uris ≡ b
          → Kept E P (reconcile_normal E c resync oc w)
      by_uris (some v) p = rw (reconcile_normal, p) (record { world = h })
      by_uris none p =
          rw (reconcile_normal, p)
            (handle_cases (Kept E P) _ _ _ _ (λ _ _. record { world = discovery-kept c k w h })
              (λ disc _.
                with_metadata-foreign _ disc _ (with_issuer-IsSquatted E oc disc.issuer u)
                  (discovery-kept c k w h)))

  -- A pass over an object without a client, whose Secret's name is always taken by a Secret that
  -- it does not control or that cannot be read, keeps every property of the world that GET
  -- requests to tsidp, reads of Secrets and events keep: nothing is registered or deleted in
  -- tsidp, and no Secret is written or deleted.
  pub foreign_secret_pass :
      (oc : OidcClient) (w : E.World)
      → IsSquatted E oc
      → P w
      → P (reconcile_normal E c resync oc w).1
  foreign_secret_pass oc w u h = (reconcile_normal-Kept oc w u h).world
