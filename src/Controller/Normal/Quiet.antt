-- ===== src/Controller/Normal/Quiet.antt =====
-- A registered client whose Secret is intact is left alone unless a policy asks for a repair.
use tsidp_operator.Prelude.{
  ℕ, ◌≡◌, ◌⊎◌, inl, inr, refl, sym, subst, true, false, ◌||◌, [], Option, none, some, ◌==◌,
}
use tsidp_operator.Text.{Text, is_empty, text_eq}
use tsidp_operator.Fault.{Error, ok, err, is_tsidp_not_found, is_not_found}
use tsidp_operator.Tsidp
use tsidp_operator.Tsidp.{FunnelClient, ProviderMetadata}
use tsidp_operator.Tsidp.Methods.{get_client}
use tsidp_operator.Api.{OidcClient, Secret, block}
use tsidp_operator.Controller.Environment.{Environment, http}
use tsidp_operator.Controller.Names.{secret_name, registered_name, display_name, fingerprint}
use tsidp_operator.Controller.Secrets.{controlled_by, secret_adoptable, upsert_secret}
use tsidp_operator.Controller.Status.{Return, Stage, stop, go, with_issuer, with_secret_name}
use tsidp_operator.Controller.Registration.{holds_credentials}
use tsidp_operator.Controller.Normal.{
  bad_uri, drifted, remove_old_secret, rename_secret, establish, check_secret, fix_drift,
  repair_drift, refresh_secret, continue, verify, with_metadata, reconcile_normal,
}
use tsidp_operator.Controller.Normal.Frame.{
  KeptByReads, KeptBySecrets, get_client-kept, discovery-kept, secret_adoptable-kept, handle_cases,
  if_cases,
}

-- The object has a client; its Secret, whenever it is read, is there with the client's credentials
-- or cannot be read; and either the policy is Block or tsidp shows no drift.
pub record IsSettled (E : Environment) (c : Tsidp.Client) (oc : OidcClient) : Type 0 where
  pub known : is_empty oc.status.client_id ≡ false
  pub there :
      (w : E.World) (e : Error)
      → (E.read_secret oc.namespace (secret_name oc) w).0 ≡ err e
      → is_not_found e ≡ false
  pub intact :
      (w : E.World) (s : Secret)
      → (E.read_secret oc.namespace (secret_name oc) w).0 ≡ ok s
      → holds_credentials oc.status.client_id s ≡ true
  pub calm :
      (oc.spec.update_policy ≡ block)
      ⊎ ((w : E.World) (fc : FunnelClient)
          → (get_client (http E) c oc.status.client_id w).0 ≡ ok fc
          → drifted oc fc ≡ false)

module _ {E : Environment} {c : Tsidp.Client} {oc : OidcClient} where
  IsSettled-named : (n : Text) → IsSettled E c oc → IsSettled E c (with_secret_name n oc)
  unfolding secret_name drifted registered_name display_name fingerprint
  IsSettled-named n u = record {
    known = u.known;
    there = u.there;
    intact = u.intact;
    calm = u.calm;
  }

  IsSettled-issued : (i : Text) → IsSettled E c oc → IsSettled E c (with_issuer i oc)
  unfolding secret_name drifted registered_name display_name fingerprint
  IsSettled-issued i u = record {
    known = u.known;
    there = u.there;
    intact = u.intact;
    calm = u.calm;
  }

-- If a part of the pass goes on, it is with such an object.
abbrev Hands : (OidcClient → Type 0) → Stage → Type 0
Hands G (stop r) = Unit
Hands G (go oc) = G oc

module _ (E : Environment) (P : E.World → Type 0) where
  -- A part of the pass keeps the property, and if it goes on, then with such an object.
  pub record Keeps (G : OidcClient → Type 0) (x : Stage × E.World) : Type 0 where
    pub world : P x.1
    pub hands : Hands G x.0

  -- The rest of the pass keeps the property.
  pub record Kept (x : (OidcClient × Return) × E.World) : Type 0 where
    pub world : P x.1

module _ (E : Environment) (c : Tsidp.Client) (resync : ℕ) (P : E.World → Type 0) where
  pub continue-Kept :
      (G : OidcClient → Type 0) (x : Stage × E.World)
      (rest : OidcClient → E.World → (OidcClient × Return) × E.World)
      → Keeps E P G x
      → ((oc : OidcClient) (w : E.World) → G oc → P w → Kept E P (rest oc w))
      → Kept E P (continue E c resync x rest)
  continue-Kept G (stop r, w) rest h f = record { world = h.world }
  continue-Kept G (go oc, w) rest h f = f oc w h.hands h.world

module _ (E : Environment) (c : Tsidp.Client) (resync : ℕ) (P : E.World → Type 0)
    (k : KeptByReads E P) (l : KeptBySecrets E P) where
  remove_old-kept :
      (oc : OidcClient) (w : E.World)
      → IsSettled E c oc
      → P w
      → Keeps E P (IsSettled E c) (remove_old_secret E c resync oc w)
  unfolding remove_old_secret
  remove_old-kept oc w u h =
      let v = IsSettled-named [] u in
      let h' = k.by_read oc.namespace oc.status.secret_name w h in
      handle_cases (Keeps E P (IsSettled E c)) _ _ _ _
        (λ e _.
          if_cases (Keeps E P (IsSettled E c)) (is_not_found e) _ _
            (λ _. record { world = h'; hands = v }) (λ _. record { world = h'; hands = tt }))
        (λ old _.
          if_cases (Keeps E P (IsSettled E c)) (controlled_by E oc old) _ _
            (λ _.
              let h'' =
                l.by_delete old old.uid (E.read_secret oc.namespace oc.status.secret_name w).1 h' in
              handle_cases (Keeps E P (IsSettled E c)) _ _ _ _
                (λ e _.
                  if_cases (Keeps E P (IsSettled E c)) (is_not_found e) _ _
                    (λ _. record { world = h''; hands = v })
                    (λ _. record { world = h''; hands = tt }))
                (λ a _. record { world = h''; hands = v }))
            (λ _. record { world = h'; hands = v }))

  rename-kept :
      (oc : OidcClient) (w : E.World)
      → IsSettled E c oc
      → P w
      → Keeps E P (IsSettled E c) (rename_secret E c resync oc w)
  unfolding rename_secret
  rename-kept oc w u h =
      let h' = secret_adoptable-kept c k oc (secret_name oc) w h in
      if_cases (Keeps E P (IsSettled E c))
        (is_empty oc.status.secret_name || oc.status.secret_name == secret_name oc) _ _
        (λ _. record { world = h; hands = u })
        (λ _.
          handle_cases (Keeps E P (IsSettled E c)) _ _ _ _
            (λ e _. record { world = h'; hands = tt })
            (λ a _. remove_old-kept oc (secret_adoptable E oc (secret_name oc) w).1 u h'))

  establish-kept :
      (oc : OidcClient) (disc : ProviderMetadata) (w : E.World)
      → IsSettled E c oc
      → P w
      → Keeps E P (IsSettled E c) (establish E c resync oc disc w)
  unfolding establish
  establish-kept oc disc w u h = rw u.known (record { world = h; hands = u })

  check_secret-kept :
      (oc : OidcClient) (w : E.World)
      → IsSettled E c oc
      → P w
      → Keeps E P (λ oc'. oc' ≡ oc) (check_secret E c resync oc w)
  unfolding check_secret
  check_secret-kept oc w u h =
      let h' = k.by_read oc.namespace (secret_name oc) w h in
      handle_cases (Keeps E P (λ oc'. oc' ≡ oc)) _ _ _ _
        (λ e p. rw (u.there w e p) (record { world = h'; hands = tt }))
        (λ s p. rw (u.intact w s p) (record { world = h'; hands = refl }))

  repair_drift-block :
      (oc : OidcClient) (w : E.World)
      → oc.spec.update_policy ≡ block
      → (r : OidcClient × Return) × (repair_drift E c resync oc w ≡ (stop r, w))
  unfolding repair_drift
  repair_drift-block oc w e = rw e (_, refl)

  fix_drift-kept :
      (remote : FunnelClient) (oc : OidcClient) (w : E.World)
      → (oc.spec.update_policy ≡ block) ⊎ (drifted oc remote ≡ false)
      → P w
      → Keeps E P (λ oc'. oc' ≡ oc) (fix_drift E c resync remote oc w)
  unfolding fix_drift
  fix_drift-kept remote oc w (inl e) h =
      let (r, q) = repair_drift-block oc w e in
      if_cases (Keeps E P (λ oc'. oc' ≡ oc)) (drifted oc remote) _ _
        (λ _. subst (Keeps E P (λ oc'. oc' ≡ oc)) (sym q) (record { world = h; hands = tt }))
        (λ _. record { world = h; hands = refl })
  fix_drift-kept remote oc w (inr e) h = rw e (record { world = h; hands = refl })

  refresh-Kept :
      (disc : ProviderMetadata) (oc : OidcClient) (w : E.World)
      → P w
      → Kept E P (refresh_secret E c resync disc oc w)
  unfolding refresh_secret upsert_secret
  refresh-Kept disc oc w h =
      let h' = l.by_upsert oc.namespace (secret_name oc) _ w h in
      handle_cases (Kept E P) _ _ _ _ (λ _ _. record { world = h' }) (λ _ _. record { world = h' })

  -- What is known of the drift at the time of the read.
  calm_at :
      (oc : OidcClient) (w : E.World) (remote : FunnelClient)
      → IsSettled E c oc
      → (get_client (http E) c oc.status.client_id w).0 ≡ ok remote
      → (oc.spec.update_policy ≡ block) ⊎ (drifted oc remote ≡ false)
  calm_at oc w remote u p = elim u.calm [ inl e ↦ inl e | inr f ↦ inr (f w remote p) ]

  verify-Kept :
      (disc : ProviderMetadata) (oc : OidcClient) (w : E.World)
      → IsSettled E c oc
      → P w
      → Kept E P (verify E c resync disc oc w)
  unfolding verify
  verify-Kept disc oc w u h =
      let h' = get_client-kept c k oc.status.client_id w h in
      handle_cases (Kept E P) _ _ _ _
        (λ e _.
          if_cases (Kept E P) (is_tsidp_not_found e) _ _ (λ _. record { world = k.by_event _ _ h' })
            (λ _. record { world = h' }))
        (λ remote p.
          continue-Kept E c resync P (λ oc'. oc' ≡ oc) _ _ (check_secret-kept oc _ u h')
            (λ oc₁ w₁ e₁ h₁.
              continue-Kept E c resync P (λ oc'. oc' ≡ oc₁) _ _
                (fix_drift-kept remote oc₁ w₁
                  (subst (λ o. (o.spec.update_policy ≡ block) ⊎ (drifted o remote ≡ false)) (sym e₁)
                    (calm_at oc w remote u p))
                  h₁)
                (λ oc₂ w₂ _ h₂. refresh-Kept disc oc₂ w₂ h₂)))

  with_metadata-Kept :
      (disc : ProviderMetadata) (oc : OidcClient) (w : E.World)
      → IsSettled E c oc
      → P w
      → Kept E P (with_metadata E c resync disc oc w)
  unfolding with_metadata
  with_metadata-Kept disc oc w u h =
      continue-Kept E c resync P (IsSettled E c) _ _ (rename-kept oc w u h) (λ oc₁ w₁ u₁ h₁.
        continue-Kept E c resync P (IsSettled E c) _ _ (establish-kept oc₁ disc w₁ u₁ h₁)
          (λ oc₂ w₂ u₂ h₂. verify-Kept disc oc₂ w₂ u₂ h₂))

  reconcile_normal-Kept :
      (oc : OidcClient) (w : E.World)
      → IsSettled E c oc
      → P w
      → Kept E P (reconcile_normal E c resync oc w)
  unfolding reconcile_normal
  reconcile_normal-Kept oc w u h = by_uris (bad_uri oc.spec.redirect_uris) refl
    where
      by_uris :
          (b : Option Text)
          → bad_uri oc.spec.redirect_uris ≡ b
          → Kept E P (reconcile_normal E c resync oc w)
      by_uris (some v) p = rw (reconcile_normal, p) (record { world = h })
      by_uris none p =
          rw (reconcile_normal, p)
            (handle_cases (Kept E P) _ _ _ _ (λ _ _. record { world = discovery-kept c k w h })
              (λ disc _.
                with_metadata-Kept disc _ _ (IsSettled-issued disc.issuer u)
                  (discovery-kept c k w h)))

  -- A pass over an object with a recorded client whose Secret, whenever it is read, holds the
  -- client's credentials or fails for another reason than being missing, and for which the policy
  -- is Block or tsidp never shows drift, keeps every property of the world that GET requests to
  -- tsidp, reads, writes and deletions of Secrets and events keep: tsidp is sent nothing but
  -- reads.
  pub settled_pass :
      (oc : OidcClient) (w : E.World)
      → IsSettled E c oc
      → P w
      → P (reconcile_normal E c resync oc w).1
  settled_pass oc w u h = (reconcile_normal-Kept oc w u h).world
