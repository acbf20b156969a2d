-- ===== src/Controller/Normal/Identity.antt =====
-- What a pass does to the object in memory, and to `status.clientId` above all.
use tsidp_operator.Prelude.{ℕ, ◌≡◌, ◌⊎◌, inl, inr, refl, subst, ap, ◌∙◌, true, false, []}
use tsidp_operator.Text.{Text, is_empty, is_empty_sound, text_eq}
use tsidp_operator.Tsidp
use tsidp_operator.Tsidp.{FunnelClient, ProviderMetadata}
use tsidp_operator.Api.{OidcClient}
use tsidp_operator.Controller.Environment.{Environment, IsLawful}
use tsidp_operator.Controller.Names.{secret_name}
use tsidp_operator.Controller.Status.{Return, not_ready, mark_ready}
use tsidp_operator.Controller.Registration.{register_or_adopt}
use tsidp_operator.Controller.Registration.Backing.{
  Yields, IsSame, Records, Records-Same, secret_name-Same, register_or_adopt-Backed,
}
use tsidp_operator.Controller.Normal.{reconcile_normal}
use tsidp_operator.Controller.Normal.Requests.{constant-KeptByCalls, beside-KeptByCalls}
use tsidp_operator.Controller.Normal.Ends.{IsFrame, reconcile_normal-Ended}

module _ (E : Environment) (c : Tsidp.Client) (resync : ℕ) (oc : OidcClient) where
  -- The recorded client, or none.
  abbrev Recorded : OidcClient × Return → E.World → Type 0
  Recorded (oc', r) w = (oc'.status.client_id ≡ oc.status.client_id) ⊎ (oc'.status.client_id ≡ [])

  Recorded-IsFrame : IsFrame E resync (λ oc' w. oc'.status.client_id ≡ oc.status.client_id) Recorded
  unfolding not_ready mark_ready
  Recorded-IsFrame = record {
    kept = λ _. constant-KeptByCalls E _;
    issued = λ _ _ _ g. g;
    named = λ _ _ _ g. g;
    halted = λ _ _ _ _ g. inl g;
    readied = λ _ _ g. inl g;
    forgotten = λ _ _ _. inr refl;
    spared = λ _ _ _ g. inl g;
  }

  -- Whatever tsidp and the cluster answer, a pass over an object with a recorded client ends with
  -- that client recorded or with none, never with another one.
  pub recorded_client :
      (w : E.World)
      → is_empty oc.status.client_id ≡ false
      → ((reconcile_normal E c resync oc w).0.0.status.client_id ≡ oc.status.client_id)
        ⊎ ((reconcile_normal E c resync oc w).0.0.status.client_id ≡ [])
  recorded_client w n =
      (reconcile_normal-Ended E c resync _ Recorded Recorded-IsFrame
        (λ oc' disc w' g e. absurd (cc (ap is_empty g, e, n))) oc w refl).stands

module _ (E : Environment) (L : IsLawful E) (c : Tsidp.Client) (resync : ℕ)
    (Q : Text → Text → E.World → Type 0) (oc : OidcClient) (k : Records E Q oc) where
  -- The same object, without a client or with one that its Secret has backed.
  abbrev Founded : OidcClient → E.World → Type 0
  Founded oc' w =
      IsSame oc' oc × ((oc'.status.client_id ≡ []) ⊎ Q (secret_name oc) oc'.status.client_id w)

  Founded-IsFrame : IsFrame E resync Founded (λ x w. Founded x.0 w)
  unfolding not_ready mark_ready
  Founded-IsFrame = record {
    kept = λ _. beside-KeptByCalls _ _ (k.kept (secret_name oc) _);
    issued = λ _ _ _ (s, g). (record { spec = s.spec; metadata = s.metadata }, g);
    named = λ _ _ _ (s, g). (record { spec = s.spec; metadata = s.metadata }, g);
    halted = λ _ _ _ _ (s, g). (record { spec = s.spec; metadata = s.metadata }, g);
    readied = λ _ _ (s, g). (record { spec = s.spec; metadata = s.metadata }, g);
    forgotten = λ _ _ (s, g). (record { spec = s.spec; metadata = s.metadata }, inl refl);
    spared = λ _ _ _ g. g;
  }

  Founded-new :
      (oc' : OidcClient) (disc : ProviderMetadata) (w : E.World)
      → Founded oc' w
      → is_empty oc'.status.client_id ≡ true
      → Yields E Founded (register_or_adopt E c oc' disc w)
  Founded-new oc' disc w (s, g) n = record {
    object = λ oc'' o q.
        let (t, r) =
          (register_or_adopt-Backed E L c Q oc' (Records-Same oc' oc s k) disc w).object oc'' o q in
        (
          record { spec = t.spec ∙ s.spec; metadata = t.metadata ∙ s.metadata },
          elim r [
            | inl e ↦ inl (ap (λ (x : OidcClient). x.status.client_id) e ∙ is_empty_sound _ n)
            | inr b ↦ inr (
                subst (λ m. Q m oc''.status.client_id (register_or_adopt E c oc' disc w).1)
                  (secret_name-Same oc' oc s) b)
          ],
        );
  }

  -- With lawful cluster libraries, whatever tsidp and the cluster answer, for every property of
  -- the world, by a Secret's name and a client's id, that the calls of a pass keep, and that holds
  -- after a read that finds the object's Secret controlled by it and with that client's
  -- credentials, and after a write to the Secret that succeeds and can only leave it so: after a
  -- pass over an object without a client, either the object still has none, or the property holds
  -- of the name of the object's Secret and the recorded client; so the pass has made such a read
  -- or such a write.
  pub new_client_backed :
      (w : E.World)
      → oc.status.client_id ≡ []
      → let x = reconcile_normal E c resync oc w in
        (x.0.0.status.client_id ≡ []) ⊎ Q (secret_name oc) x.0.0.status.client_id x.1
  new_client_backed w e =
      (reconcile_normal-Ended E c resync Founded (λ x w. Founded x.0 w) Founded-IsFrame Founded-new
        oc w (record { spec = refl; metadata = refl }, inl e)).stands.1

module _ (E : Environment) (L : IsLawful E) (c : Tsidp.Client) (resync : ℕ) (oc : OidcClient) where
  Same-IsFrame : IsFrame E resync (λ oc' w. IsSame oc' oc) (λ x w. IsSame x.0 oc)
  unfolding not_ready mark_ready
  Same-IsFrame = record {
    kept = λ _. constant-KeptByCalls E _;
    issued = λ _ _ _ i. record { spec = i.spec; metadata = i.metadata };
    named = λ _ _ _ i. record { spec = i.spec; metadata = i.metadata };
    halted = λ _ _ _ _ i. record { spec = i.spec; metadata = i.metadata };
    readied = λ _ _ i. record { spec = i.spec; metadata = i.metadata };
    forgotten = λ _ _ i. record { spec = i.spec; metadata = i.metadata };
    spared = λ _ _ _ i. i;
  }

  pub Same-new :
      (oc' : OidcClient) (disc : ProviderMetadata) (w : E.World)
      → IsSame oc' oc
      → Yields E (λ x w. IsSame x oc) (register_or_adopt E c oc' disc w)
  Same-new oc' disc w s = record {
    object = λ oc'' o q.
        let t =
          ((register_or_adopt-Backed E L c (λ _ _ _. Unit {0}) oc'
              (record {
                kept = λ _ _. constant-KeptByCalls E _;
                by_read = λ _ _ _ _ _ _. tt;
                by_write = λ _ _ _ _ _. tt;
              })
              disc w).object
            oc'' o q).0 in
        record { spec = t.spec ∙ s.spec; metadata = t.metadata ∙ s.metadata };
  }

  -- A pass leaves the spec and the metadata of the object.
  pub reconcile_normal-IsSame : (w : E.World) → IsSame (reconcile_normal E c resync oc w).0.0 oc
  reconcile_normal-IsSame w =
      (reconcile_normal-Ended E c resync (λ oc' w. IsSame oc' oc) (λ x w. IsSame x.0 oc)
        Same-IsFrame (λ oc' disc w' g _. Same-new oc' disc w' g) oc w
        (record { spec = refl; metadata = refl })).stands
