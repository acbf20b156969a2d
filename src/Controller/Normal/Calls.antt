-- ===== src/Controller/Normal/Calls.antt =====
-- Properties of the world that every call of a pass keeps, a pass keeps.
use tsidp_operator.Prelude.{ℕ, ◌≡◌, refl, ◌||◌, Option, none, some, String, ◌==◌}
use tsidp_operator.Text.{Text, is_empty, text_eq}
use tsidp_operator.Fault.{Error, is_tsidp_not_found, is_not_found}
use tsidp_operator.Tsidp
use tsidp_operator.Tsidp.{FunnelClient, ProviderMetadata, RegistrationRequest}
use tsidp_operator.Tsidp.Methods.{delete_client}
use tsidp_operator.Api.{OidcClient, UpdatePolicy, in_place, block, recreate}
use tsidp_operator.Controller.Environment.{Environment, http}
use tsidp_operator.Controller.Names.{registered_name, secret_name}
use tsidp_operator.Controller.Secrets.{controlled_by, upsert_secret}
use tsidp_operator.Controller.Status.{Return, Stage, stop, go}
use tsidp_operator.Controller.Registration.{serious, holds_credentials}
use tsidp_operator.Controller.Normal.{
  bad_uri, drifted, burn, remove_old_secret, rename_secret, establish, secret_lost, check_secret,
  fix_drift, repair_drift, refresh_secret, continue, verify, with_metadata, reconcile_normal,
}
use tsidp_operator.Controller.Normal.Frame.{
  get_client-kept, discovery-kept, secret_adoptable-kept, handle_cases, if_cases,
}
use tsidp_operator.Controller.Normal.Requests.{
  KeptByCalls, Safe, delete_client-kept, update_client-kept, register_or_adopt-kept,
}

module _ (E : Environment) (c : Tsidp.Client) (resync : ℕ) (P : E.World → Type 0)
    (k : KeptByCalls E P) where
  burn-kept : (oc : OidcClient) (m : String) (w : E.World) → P w → Safe P (burn E c resync oc m w)
  unfolding burn
  burn-kept oc m w h = by_result (serious (delete_client (http E) c oc.status.client_id w).0) refl
    where
      by_result :
          (r : Option Error)
          → serious (delete_client (http E) c oc.status.client_id w).0 ≡ r
          → Safe P (burn E c resync oc m w)
      by_result (some e) p =
          rw (burn, p)
            (record { world = delete_client-kept E c resync P k oc.status.client_id w h })
      by_result none p =
          rw (burn, p)
            (record { world = delete_client-kept E c resync P k oc.status.client_id w h })

  remove_old-kept :
      (oc : OidcClient) (w : E.World) → P w → Safe P (remove_old_secret E c resync oc w)
  unfolding remove_old_secret
  remove_old-kept oc w h =
      let h₁ = k.reads.by_read oc.namespace oc.status.secret_name w h in
      handle_cases (Safe P) _ _ _ _
        (λ e _.
          if_cases (Safe P) (is_not_found e) _ _ (λ _. record { world = h₁ })
            (λ _. record { world = h₁ }))
        (λ old _.
          let h₂ =
            k.secrets.by_delete old old.uid (E.read_secret oc.namespace oc.status.secret_name w).1
              h₁ in
          if_cases (Safe P) (controlled_by E oc old) _ _
            (λ _.
              handle_cases (Safe P) _ _ _ _
                (λ e _.
                  if_cases (Safe P) (is_not_found e) _ _ (λ _. record { world = h₂ })
                    (λ _. record { world = h₂ }))
                (λ _ _. record { world = h₂ }))
            (λ _. record { world = h₁ }))

  rename-kept : (oc : OidcClient) (w : E.World) → P w → Safe P (rename_secret E c resync oc w)
  unfolding rename_secret
  rename-kept oc w h =
      let h₁ = secret_adoptable-kept c k.reads oc (secret_name oc) w h in
      if_cases (Safe P) (is_empty oc.status.secret_name || oc.status.secret_name == secret_name oc)
        _ _ (λ _. record { world = h })
        (λ _.
          handle_cases (Safe P) _ _ _ _ (λ e _. record { world = h₁ })
            (λ _ _. remove_old-kept oc _ h₁))

  establish-kept :
      (oc : OidcClient) (disc : ProviderMetadata) (w : E.World)
      → P w
      → Safe P (establish E c resync oc disc w)
  unfolding establish
  establish-kept oc disc w h =
      let h₁ = (register_or_adopt-kept E c resync P k oc disc w h).world in
      if_cases (Safe P) (is_empty oc.status.client_id) _ _
        (λ _.
          handle_cases (Safe P) _ _ _ _ (λ _ _. record { world = h₁ })
            (λ _ _. record { world = h₁ }))
        (λ _. record { world = h })

  secret_lost-kept : (oc : OidcClient) (w : E.World) → P w → Safe P (secret_lost E c resync oc w)
  unfolding secret_lost
  secret_lost-kept oc w h = burn-kept oc _ _ (k.reads.by_event _ _ h)

  check_secret-kept : (oc : OidcClient) (w : E.World) → P w → Safe P (check_secret E c resync oc w)
  unfolding check_secret
  check_secret-kept oc w h =
      let h₁ = k.reads.by_read oc.namespace (secret_name oc) w h in
      handle_cases (Safe P) _ _ _ _
        (λ e _.
          if_cases (Safe P) (is_not_found e) _ _ (λ _. secret_lost-kept oc _ h₁)
            (λ _. record { world = h₁ }))
        (λ s _.
          if_cases (Safe P) (holds_credentials oc.status.client_id s) _ _
            (λ _. record { world = h₁ }) (λ _. secret_lost-kept oc _ h₁))

  repair_drift-kept : (oc : OidcClient) (w : E.World) → P w → Safe P (repair_drift E c resync oc w)
  unfolding repair_drift
  repair_drift-kept oc w h = by_policy oc.spec.update_policy refl
    where
      by_policy :
          (p : UpdatePolicy) → oc.spec.update_policy ≡ p → Safe P (repair_drift E c resync oc w)
      by_policy in_place p =
          let h₁ =
            update_client-kept E c resync P k oc.status.client_id (registered_name oc)
              oc.spec.redirect_uris w h in
          rw (repair_drift, p)
            (handle_cases (Safe P) _ _ _ _ (λ _ _. record { world = h₁ })
              (λ _ _. record { world = k.reads.by_event _ _ h₁ }))
      by_policy block p = rw (repair_drift, p) (record { world = h })
      by_policy recreate p = rw (repair_drift, p) (burn-kept oc _ _ (k.reads.by_event _ _ h))
      by_policy (UpdatePolicy.other t) p =
          rw (repair_drift, p) (burn-kept oc _ _ (k.reads.by_event _ _ h))

  fix_drift-kept :
      (remote : FunnelClient) (oc : OidcClient) (w : E.World)
      → P w
      → Safe P (fix_drift E c resync remote oc w)
  unfolding fix_drift
  fix_drift-kept remote oc w h =
      if_cases (Safe P) (drifted oc remote) _ _ (λ _. repair_drift-kept oc w h)
        (λ _. record { world = h })

  refresh-kept :
      (disc : ProviderMetadata) (oc : OidcClient) (w : E.World)
      → P w
      → Safe P (refresh_secret E c resync disc oc w)
  unfolding refresh_secret upsert_secret
  refresh-kept disc oc w h =
      let h₁ = k.secrets.by_upsert oc.namespace (secret_name oc) _ w h in
      handle_cases (Safe P) _ _ _ _ (λ _ _. record { world = h₁ }) (λ _ _. record { world = h₁ })

  continue-kept :
      (x : Stage × E.World) (rest : OidcClient → E.World → (OidcClient × Return) × E.World)
      → Safe P x
      → ((oc : OidcClient) (w : E.World) → P w → Safe P (rest oc w))
      → Safe P (continue E c resync x rest)
  continue-kept (stop r, w) rest h f = record { world = h.world }
  continue-kept (go oc, w) rest h f = f oc w h.world

  verify-kept :
      (disc : ProviderMetadata) (oc : OidcClient) (w : E.World)
      → P w
      → Safe P (verify E c resync disc oc w)
  unfolding verify
  verify-kept disc oc w h =
      let h₁ = get_client-kept c k.reads oc.status.client_id w h in
      handle_cases (Safe P) _ _ _ _
        (λ e _.
          if_cases (Safe P) (is_tsidp_not_found e) _ _
            (λ _. record { world = k.reads.by_event _ _ h₁ }) (λ _. record { world = h₁ }))
        (λ remote _. continue-kept _ _ (check_secret-kept oc _ h₁) (λ oc₁ w₁ g₁.
          continue-kept _ _ (fix_drift-kept remote oc₁ w₁ g₁)
            (λ oc₂ w₂ g₂. refresh-kept disc oc₂ w₂ g₂)))

  with_metadata-kept :
      (disc : ProviderMetadata) (oc : OidcClient) (w : E.World)
      → P w
      → Safe P (with_metadata E c resync disc oc w)
  unfolding with_metadata
  with_metadata-kept disc oc w h = continue-kept _ _ (rename-kept oc w h) (λ oc₁ w₁ h₁.
      continue-kept _ _ (establish-kept oc₁ disc w₁ h₁) (λ oc₂ w₂ h₂. verify-kept disc oc₂ w₂ h₂))

  reconcile_normal-Safe :
      (oc : OidcClient) (w : E.World) → P w → Safe P (reconcile_normal E c resync oc w)
  unfolding reconcile_normal
  reconcile_normal-Safe oc w h = by_uris (bad_uri oc.spec.redirect_uris) refl
    where
      by_uris :
          (b : Option Text)
          → bad_uri oc.spec.redirect_uris ≡ b
          → Safe P (reconcile_normal E c resync oc w)
      by_uris (some v) p = rw (reconcile_normal, p) (record { world = h })
      by_uris none p =
          let h₁ = discovery-kept c k.reads w h in
          rw (reconcile_normal, p)
            (handle_cases (Safe P) _ _ _ _ (λ _ _. record { world = h₁ })
              (λ disc _. with_metadata-kept disc _ _ h₁))

  pub reconcile_normal-kept :
      (oc : OidcClient) (w : E.World) → P w → P (reconcile_normal E c resync oc w).1
  reconcile_normal-kept oc w h = (reconcile_normal-Safe oc w h).world
