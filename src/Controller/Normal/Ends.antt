-- ===== src/Controller/Normal/Ends.antt =====
-- A predicate of the object and the world that each part of a pass hands on holds at its end, in the
-- form that the end gives to it.
use tsidp_operator.Prelude.{ℕ, ◌≡◌, refl, ap, ◌∙◌, true, ◌||◌, [], Option, none, some, String, ◌==◌}
use tsidp_operator.Text.{Text, is_empty, text_eq}
use tsidp_operator.Fault.{ok, Message, Error, is_tsidp_not_found, is_not_found}
use tsidp_operator.Tsidp
use tsidp_operator.Tsidp.{FunnelClient, ProviderMetadata}
use tsidp_operator.Tsidp.Methods.{delete_client}
use tsidp_operator.Api.{OidcClient, UpdatePolicy, in_place, block, recreate}
use tsidp_operator.Controller.Environment.{Environment, http}
use tsidp_operator.Controller.Names.{secret_name, registered_name}
use tsidp_operator.Controller.Secrets.{controlled_by, upsert_secret}
use tsidp_operator.Controller.Status.{
  second, after, Return, Stage, stop, go, not_ready, mark_ready, with_client_id, with_issuer,
  with_secret_name,
}
use tsidp_operator.Controller.Registration.{
  RegisterOutcome, invalid, adopted, registered, burned_orphan, register_or_adopt,
  holds_credentials, serious,
}
use tsidp_operator.Controller.Registration.Backing.{Yields, register_or_adopt-Spares}
use tsidp_operator.Controller.Normal.{
  bad_uri, drifted, burn, remove_old_secret, rename_secret, establish, secret_lost, check_secret,
  fix_drift, repair_drift, refresh_secret, continue, verify, with_metadata, reconcile_normal,
  after_outcome,
}
use tsidp_operator.Controller.Normal.Frame.{
  handle_cases, if_cases, get_client-kept, discovery-kept, secret_adoptable-kept,
}
use tsidp_operator.Controller.Normal.Requests.{
  KeptByCalls, delete_client-kept, update_client-kept, register_or_adopt-kept,
}

module _ (E : Environment) (resync : ℕ) where
  -- G holds of the object and the world while the pass goes on, and S of the object, the result and
  -- the world when it ends.
  pub record IsFrame (G : OidcClient → E.World → Type 0)
      (S : OidcClient × Return → E.World → Type 0) : Type 0 where
    pub kept : (oc : OidcClient) → KeptByCalls E (G oc)
    pub issued : (oc : OidcClient) (i : Text) (w : E.World) → G oc w → G (with_issuer i oc) w
    pub named : (oc : OidcClient) (n : Text) (w : E.World) → G oc w → G (with_secret_name n oc) w
    pub halted :
        (oc : OidcClient) (reason : String) (msg : Message) (w : E.World)
        → G oc w
        → S (not_ready E oc reason msg) w
    pub readied : (oc : OidcClient) (w : E.World) → G oc w → S (mark_ready E oc, after resync) w
    pub forgotten :
        (oc : OidcClient) (w : E.World) → G oc w → S (with_client_id [] oc, after second) w
    pub spared :
        (oc : OidcClient) (w : E.World)
        → is_empty oc.status.client_id ≡ true
        → G oc w
        → S (oc, after second) w

module _ (E : Environment) (G : OidcClient → E.World → Type 0)
    (S : OidcClient × Return → E.World → Type 0) where
  abbrev Stands : Stage → E.World → Type 0
  Stands (stop x) w = S x w
  Stands (go oc) w = G oc w

  record Staged (x : Stage × E.World) : Type 0 where
    stands : Stands x.0 x.1

  pub record Ended (x : (OidcClient × Return) × E.World) : Type 0 where
    pub stands : S x.0 x.1

module _ (E : Environment) (c : Tsidp.Client) (resync : ℕ) (G : OidcClient → E.World → Type 0)
    (S : OidcClient × Return → E.World → Type 0) (f : IsFrame E resync G S) where
  continue-Ended :
      (x : Stage × E.World) (rest : OidcClient → E.World → (OidcClient × Return) × E.World)
      → Staged E G S x
      → ((oc : OidcClient) (w : E.World) → G oc w → Ended E G S (rest oc w))
      → Ended E G S (continue E c resync x rest)
  continue-Ended (stop r, w) rest h k = record { stands = h.stands }
  continue-Ended (go oc, w) rest h k = k oc w h.stands

  burn-Staged :
      (oc : OidcClient) (m : String) (w : E.World) → G oc w → Staged E G S (burn E c resync oc m w)
  unfolding burn
  burn-Staged oc m w g = by_result (serious (delete_client (http E) c oc.status.client_id w).0) refl
    where
      by_result :
          (r : Option Error)
          → serious (delete_client (http E) c oc.status.client_id w).0 ≡ r
          → Staged E G S (burn E c resync oc m w)
      by_result (some e) p =
          let h = delete_client-kept E c resync (G oc) (f.kept oc) oc.status.client_id w g in
          rw (burn, p) (record { stands = f.halted oc _ _ _ h })
      by_result none p =
          let h = delete_client-kept E c resync (G oc) (f.kept oc) oc.status.client_id w g in
          rw (burn, p) (record { stands = f.forgotten oc _ h })

  remove_old-Staged :
      (oc : OidcClient) (w : E.World) → G oc w → Staged E G S (remove_old_secret E c resync oc w)
  unfolding remove_old_secret
  remove_old-Staged oc w g =
      let k = f.kept oc in
      let h = k.reads.by_read oc.namespace oc.status.secret_name w g in
      handle_cases (Staged E G S) _ _ _ _
        (λ e _.
          if_cases (Staged E G S) (is_not_found e) _ _ (λ _. record { stands = f.named oc [] _ h })
            (λ _. record { stands = f.halted oc _ _ _ h }))
        (λ old _.
          let h₂ = k.secrets.by_delete old old.uid _ h in
          if_cases (Staged E G S) (controlled_by E oc old) _ _
            (λ _.
              handle_cases (Staged E G S) _ _ _ _
                (λ e _.
                  if_cases (Staged E G S) (is_not_found e) _ _
                    (λ _. record { stands = f.named oc [] _ h₂ })
                    (λ _. record { stands = f.halted oc _ _ _ h₂ }))
                (λ _ _. record { stands = f.named oc [] _ h₂ }))
            (λ _. record { stands = f.named oc [] _ h }))

  rename-Staged :
      (oc : OidcClient) (w : E.World) → G oc w → Staged E G S (rename_secret E c resync oc w)
  unfolding rename_secret
  rename-Staged oc w g =
      let h = secret_adoptable-kept c (f.kept oc).reads oc (secret_name oc) w g in
      if_cases (Staged E G S)
        (is_empty oc.status.secret_name || oc.status.secret_name == secret_name oc) _ _
        (λ _. record { stands = g })
        (λ _.
          handle_cases (Staged E G S) _ _ _ _ (λ e _. record { stands = f.halted oc _ _ _ h })
            (λ _ _. remove_old-Staged oc _ h))

  secret_lost-Staged :
      (oc : OidcClient) (w : E.World) → G oc w → Staged E G S (secret_lost E c resync oc w)
  unfolding secret_lost
  secret_lost-Staged oc w g = burn-Staged oc _ _ ((f.kept oc).reads.by_event _ _ g)

  check_secret-Staged :
      (oc : OidcClient) (w : E.World) → G oc w → Staged E G S (check_secret E c resync oc w)
  unfolding check_secret
  check_secret-Staged oc w g =
      let h = (f.kept oc).reads.by_read oc.namespace (secret_name oc) w g in
      handle_cases (Staged E G S) _ _ _ _
        (λ e _.
          if_cases (Staged E G S) (is_not_found e) _ _ (λ _. secret_lost-Staged oc _ h)
            (λ _. record { stands = f.halted oc _ _ _ h }))
        (λ s _.
          if_cases (Staged E G S) (holds_credentials oc.status.client_id s) _ _
            (λ _. record { stands = h }) (λ _. secret_lost-Staged oc _ h))

  repair_drift-Staged :
      (oc : OidcClient) (w : E.World) → G oc w → Staged E G S (repair_drift E c resync oc w)
  unfolding repair_drift
  repair_drift-Staged oc w g = by_policy oc.spec.update_policy refl
    where
      by_policy :
          (p : UpdatePolicy)
          → oc.spec.update_policy ≡ p
          → Staged E G S (repair_drift E c resync oc w)
      by_policy in_place p =
          let h =
            update_client-kept E c resync (G oc) (f.kept oc) oc.status.client_id
              (registered_name oc) oc.spec.redirect_uris w g in
          rw (repair_drift, p)
            (handle_cases (Staged E G S) _ _ _ _ (λ e _. record { stands = f.halted oc _ _ _ h })
              (λ _ _. record { stands = (f.kept oc).reads.by_event _ _ h }))
      by_policy block p = rw (repair_drift, p) (record { stands = f.halted oc _ _ _ g })
      by_policy recreate p =
          rw (repair_drift, p) (burn-Staged oc _ _ ((f.kept oc).reads.by_event _ _ g))
      by_policy (UpdatePolicy.other t) p =
          rw (repair_drift, p) (burn-Staged oc _ _ ((f.kept oc).reads.by_event _ _ g))

  fix_drift-Staged :
      (remote : FunnelClient) (oc : OidcClient) (w : E.World)
      → G oc w
      → Staged E G S (fix_drift E c resync remote oc w)
  unfolding fix_drift
  fix_drift-Staged remote oc w g =
      if_cases (Staged E G S) (drifted oc remote) _ _ (λ _. repair_drift-Staged oc w g)
        (λ _. record { stands = g })

  refresh-Ended :
      (disc : ProviderMetadata) (oc : OidcClient) (w : E.World)
      → G oc w
      → Ended E G S (refresh_secret E c resync disc oc w)
  unfolding refresh_secret upsert_secret
  refresh-Ended disc oc w g =
      let h = (f.kept oc).secrets.by_upsert oc.namespace (secret_name oc) _ w g in
      handle_cases (Ended E G S) _ _ _ _ (λ _ _. record { stands = f.halted oc _ _ _ h })
        (λ _ _. record { stands = f.readied oc _ h })

  verify-Ended :
      (disc : ProviderMetadata) (oc : OidcClient) (w : E.World)
      → G oc w
      → Ended E G S (verify E c resync disc oc w)
  unfolding verify
  verify-Ended disc oc w g =
      let h = get_client-kept c (f.kept oc).reads oc.status.client_id w g in
      handle_cases (Ended E G S) _ _ _ _
        (λ e _.
          if_cases (Ended E G S) (is_tsidp_not_found e) _ _
            (λ _. record { stands = f.forgotten oc _ ((f.kept oc).reads.by_event _ _ h) })
            (λ _. record { stands = f.halted oc _ _ _ h }))
        (λ remote _. continue-Ended _ _ (check_secret-Staged oc _ h) (λ oc₁ w₁ g₁.
          continue-Ended _ _ (fix_drift-Staged remote oc₁ w₁ g₁)
            (λ oc₂ w₂ g₂. refresh-Ended disc oc₂ w₂ g₂)))

  module _
      (new : (oc : OidcClient) (disc : ProviderMetadata) (w : E.World)
        → G oc w
        → is_empty oc.status.client_id ≡ true
        → Yields E G (register_or_adopt E c oc disc w)) where
    establish-Staged :
        (oc : OidcClient) (disc : ProviderMetadata) (w : E.World)
        → G oc w
        → Staged E G S (establish E c resync oc disc w)
    unfolding establish
    establish-Staged oc disc w g =
        if_cases (Staged E G S) (is_empty oc.status.client_id) _ _
          (λ n.
            let y = new oc disc w g n in
            let h = (register_or_adopt-kept E c resync (G oc) (f.kept oc) oc disc w g).world in
            handle_cases (Staged E G S) _ _ _ _ (λ e _. record { stands = f.halted oc _ _ _ h })
              (λ (oc', o) p. by_outcome oc' o _ (y.object oc' o p) (λ q.
                let same =
                  (register_or_adopt-Spares E c oc disc w).same oc'
                    (p ∙ ap (λ o'. ok (oc', o')) q) in
                ap (λ (x : OidcClient). is_empty x.status.client_id) same ∙ n)))
          (λ _. record { stands = g })
      where
        by_outcome :
            (oc' : OidcClient) (o : RegisterOutcome) (w' : E.World)
            → G oc' w'
            → (o ≡ burned_orphan → is_empty oc'.status.client_id ≡ true)
            → Staged E G S (after_outcome E c resync oc' o, w')
        by_outcome oc' invalid w' g' m = record { stands = g' }
        by_outcome oc' adopted w' g' m = record { stands = g' }
        by_outcome oc' registered w' g' m = record { stands = f.readied oc' w' g' }
        by_outcome oc' burned_orphan w' g' m = record { stands = f.spared oc' w' (m refl) g' }

    with_metadata-Ended :
        (disc : ProviderMetadata) (oc : OidcClient) (w : E.World)
        → G oc w
        → Ended E G S (with_metadata E c resync disc oc w)
    unfolding with_metadata
    with_metadata-Ended disc oc w g = continue-Ended _ _ (rename-Staged oc w g) (λ oc₁ w₁ g₁.
        continue-Ended _ _ (establish-Staged oc₁ disc w₁ g₁)
          (λ oc₂ w₂ g₂. verify-Ended disc oc₂ w₂ g₂))

    pub reconcile_normal-Ended :
        (oc : OidcClient) (w : E.World) → G oc w → Ended E G S (reconcile_normal E c resync oc w)
    unfolding reconcile_normal
    reconcile_normal-Ended oc w g = by_uris (bad_uri oc.spec.redirect_uris) refl
      where
        by_uris :
            (b : Option Text)
            → bad_uri oc.spec.redirect_uris ≡ b
            → Ended E G S (reconcile_normal E c resync oc w)
        by_uris (some v) p = rw (reconcile_normal, p) (record { stands = f.halted oc _ _ _ g })
        by_uris none p =
            let h = discovery-kept c (f.kept oc).reads w g in
            rw (reconcile_normal, p)
              (handle_cases (Ended E G S) _ _ _ _ (λ _ _. record { stands = f.halted oc _ _ _ h })
                (λ disc _. with_metadata-Ended disc _ _ (f.issued oc disc.issuer _ h)))
