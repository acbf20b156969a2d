-- ===== src/Controller/Normal.antt =====
-- `reconcileNormal`, in the parts of its text: the check of the URIs, the discovery, the renaming of
-- the Secret, the registration, and the verification of what is registered.
pub mod Foreign
pub mod Requests
pub mod Calls
pub mod Fresh
pub mod Ends
pub mod Identity
pub mod Verdict
pub mod Steady
pub mod Adoption
pub mod Recovery
pub mod Burning
pub mod Orphans
pub mod Loss
pub mod Renewal
pub mod InPlace
pub mod Repair
pub mod Frame
pub mod Quiet
use tsidp_operator.Prelude.{
  ℕ, Bool, true, false, ◌&&◌, ◌||◌, not, List, [], ◌∷◌, ◌++◌, Option, none, some, String, ◌==◌,
  string_eq, if◌then◌else◌,
}
use tsidp_operator.Text.{Text, text_eq, is_empty, is_space, is_control}
use tsidp_operator.Text.Order.{equal_sorted}
use tsidp_operator.Fault.{
  Error, Exec, Result, ok, err, is_tsidp_not_found, is_not_found, is_secret_conflict, Message,
}
use tsidp_operator.Tsidp
use tsidp_operator.Tsidp.{FunnelClient, ProviderMetadata}
use tsidp_operator.Tsidp.Methods.{get_client, delete_client, update_client, discovery}
use tsidp_operator.Api.{OidcClient, Secret, UpdatePolicy, in_place, block, recreate}
use tsidp_operator.Controller.Environment.{Environment, http}
use tsidp_operator.Controller.Names.{registered_name, secret_name}
use tsidp_operator.Controller.Secrets.{
  secret_adoptable, upsert_secret, controlled_by, set_secret_metadata,
}
use tsidp_operator.Controller.Status.{
  second, Return, after, Stage, stop, go, text, text_err, error_text, emit, handle, not_ready,
  mark_ready, with_client_id, with_secret_name, with_issuer,
}
use tsidp_operator.Controller.Registration.{
  RegisterOutcome, invalid, adopted, registered, burned_orphan, register_or_adopt,
  holds_credentials, serious,
}

-- The inner loop of the check: a rune that is white space or a control character.
unfoldable pub has_bad_rune : Text → Bool
has_bad_rune [] = false
has_bad_rune (c ∷ u) =
    let rest = has_bad_rune u in if is_space c || is_control c then true else rest

-- The outer loop: the first URI with such a rune.
unfoldable pub bad_uri : List Text → Option Text
bad_uri [] = none
bad_uri (u ∷ us) = let rest = bad_uri us in if has_bad_rune u then some u else rest

-- `sameStringSet`
unfoldable pub same_string_set : List Text → List Text → Bool
same_string_set a b = equal_sorted a b

-- `remote.ClientName != wantName || !sameStringSet(remote.RedirectURIs, wantURIs)`
unfoldable pub drifted : OidcClient → FunnelClient → Bool
unfolding same_string_set
drifted oc remote =
    not (remote.client_name == registered_name oc)
    || not (same_string_set remote.redirect_uris oc.spec.redirect_uris)

module _ (E : Environment) (c : Tsidp.Client) (resync_interval : ℕ) where
  -- The registration is dropped from the status, and the pass ends with a quick retry.
  abbrev start_over : OidcClient → OidcClient × Return
  start_over oc = (with_client_id [] oc, after second)

  abbrev halt : OidcClient → String → Message → Stage
  halt oc reason msg = stop (not_ready E oc reason msg)

  -- `DeleteClient` before a new registration; a client that is gone already will do.
  unfoldable pub burn : OidcClient → String → E.World → Stage × E.World
  burn oc format w =
      let (r, w') = delete_client (http E) c oc.status.client_id w in
      elim (serious r) [
        | some e ↦ (halt oc "TsidpUnreachable" (text_err format [] e), w')
        | none ↦ (stop (start_over oc), w')
      ]

  abbrev read_failed : OidcClient → Error → String
  read_failed oc e = if is_secret_conflict e then "SecretConflict" else "SecretReadFailed"

  -- The old Secret of a renamed one: deleted only if this object controls it, and only at its UID.
  unfoldable pub remove_old_secret : OidcClient → E.World → Stage × E.World
  remove_old_secret oc w =
      handle (E.read_secret oc.namespace oc.status.secret_name) w
        (λ e w. if is_not_found e then (go (with_secret_name [] oc), w) else (
          halt oc "SecretCleanupFailed"
              (text_err "reading old Secret %s: %v" (oc.status.secret_name ∷ []) e),
          w,
        ))
        (λ old w.
          if controlled_by E oc old
          then (handle (E.delete_secret old old.uid) w
              (λ e w. if is_not_found e then (go (with_secret_name [] oc), w) else (
                halt oc "SecretCleanupFailed"
                    (text_err "deleting old Secret %s: %v" (oc.status.secret_name ∷ []) e),
                w,
              ))
              (λ _ w. (go (with_secret_name [] oc), w)))
          else (go (with_secret_name [] oc), w))

  -- The part on a renamed Secret: the new name is vetted before the old Secret is touched.
  unfoldable pub rename_secret : OidcClient → E.World → Stage × E.World
  rename_secret oc w =
      if is_empty oc.status.secret_name || oc.status.secret_name == secret_name oc
      then (go oc, w)
      else handle (secret_adoptable E oc (secret_name oc)) w
          (λ e w. (halt oc (read_failed oc e) (error_text e), w)) (λ _ w. remove_old_secret oc w)

  abbrev after_outcome : OidcClient → RegisterOutcome → Stage
  after_outcome oc burned_orphan = stop (oc, after second)
  after_outcome oc registered = stop (mark_ready E oc, after resync_interval)
  after_outcome oc adopted = go oc
  after_outcome oc invalid = go oc

  -- The part that establishes `status.clientId`.
  unfoldable pub establish : OidcClient → ProviderMetadata → E.World → Stage × E.World
  establish oc disc w =
      if is_empty oc.status.client_id
      then handle (register_or_adopt E c oc disc) w
          (λ e w. (
            halt oc (if is_secret_conflict e then "SecretConflict" else "RegistrationFailed")
                (error_text e),
            w,
          ))
          (λ (oc', outcome) w. (after_outcome oc' outcome, w))
      else (go oc, w)

  -- What the policy makes of a drift.
  unfoldable pub repair_drift : OidcClient → E.World → Stage × E.World
  repair_drift oc w = elim oc.spec.update_policy [
    | in_place ↦
        handle
          (update_client (http E) c oc.status.client_id (registered_name oc) oc.spec.redirect_uris)
          w (λ e w. (halt oc "InPlaceUpdateFailed" (error_text e), w))
          (λ _ w. (
            go oc,
            emit E false "UpdatedInPlace"
                (text "updated client name/redirect URIs in tsidp; client_id and secret preserved"
                  [])
                w,
          ))
    | block ↦ (
      halt oc "DriftBlocked" (
          text
            "registration drifted from spec and updatePolicy is Block; resolve manually or change the policy"
            []),
      w,
    )
    | _ ↦ burn oc "deleting drifted client: %v" (
        emit E true "RecreatingOnDrift"
          (text
            "spec drifted from tsidp registration; re-registering with new credentials (updatePolicy Recreate)"
            [])
          w)
  ]

  unfoldable pub secret_lost : OidcClient → E.World → Stage × E.World
  unfolding burn
  secret_lost oc w = burn oc "deleting stale client: %v" (
      emit E true "SecretLost"
        (text
          "credentials Secret %s/%s is missing or inconsistent; re-registering with new credentials"
          (oc.namespace ∷ secret_name oc ∷ []))
        w)

  -- The credentials Secret: a read error backs off, a Secret that is missing or inconsistent burns
  -- the registration.
  unfoldable pub check_secret : OidcClient → E.World → Stage × E.World
  check_secret oc w =
      handle (E.read_secret oc.namespace (secret_name oc)) w
        (λ e w.
          if is_not_found e
          then secret_lost oc w
          else (halt oc "SecretReadFailed" (text_err "reading credentials Secret: %v" [] e), w))
        (λ s w. if holds_credentials oc.status.client_id s then (go oc, w) else secret_lost oc w)

  -- The end of the pass: the contents of the Secret are brought up to date.
  unfoldable pub refresh_secret :
      ProviderMetadata → OidcClient → E.World → (OidcClient × Return) × E.World
  refresh_secret disc oc w =
      handle (upsert_secret E oc (set_secret_metadata disc oc.spec.redirect_uris)) w
        (λ e w. (not_ready E oc "SecretWriteFailed" (error_text e), w))
        (λ _ w. ((mark_ready E oc, after resync_interval), w))

  -- The Go text goes on after a part unless the part returned.
  abbrev pub continue :
      Stage × E.World
      → (OidcClient → E.World → (OidcClient × Return) × E.World)
      → (OidcClient × Return) × E.World
  continue (stop r, w) k = (r, w)
  continue (go oc, w) k = k oc w

  unfoldable pub fix_drift : FunnelClient → OidcClient → E.World → Stage × E.World
  fix_drift remote oc w = if drifted oc remote then repair_drift oc w else (go oc, w)

  -- From the read of the registered client to the end.
  unfoldable pub verify : ProviderMetadata → OidcClient → E.World → (OidcClient × Return) × E.World
  verify disc oc w =
      handle (get_client (http E) c oc.status.client_id) w
        (λ e w.
          if is_tsidp_not_found e
          then (
            start_over oc,
            emit E true "RegistrationLost"
                (text "client %s no longer exists in tsidp; re-registering with new credentials"
                  (oc.status.client_id ∷ []))
                w,
          )
          else (not_ready E oc "TsidpUnreachable" (text_err "reading client: %v" [] e), w))
        (λ remote w.
          continue (check_secret oc w)
            (λ oc w. continue (fix_drift remote oc w) (refresh_secret disc)))

  -- From the discovery document on.
  unfoldable pub with_metadata :
      ProviderMetadata → OidcClient → E.World → (OidcClient × Return) × E.World
  with_metadata disc oc w =
      continue (rename_secret oc w) (λ oc w. continue (establish oc disc w) (verify disc))

  -- `reconcileNormal`
  unfoldable pub reconcile_normal : OidcClient → E.World → (OidcClient × Return) × E.World
  reconcile_normal oc w = elim (bad_uri oc.spec.redirect_uris) [
    | some u ↦ (
      not_ready E oc "SpecInvalid"
          (text "redirect URI %q contains whitespace or control characters" (u ∷ [])),
      w,
    )
    | none ↦
        handle (discovery (http E) c) w
          (λ e w. (
            not_ready E oc "TsidpUnreachable" (text_err "fetching discovery document: %v" [] e),
            w,
          ))
          (λ disc w. with_metadata disc (with_issuer disc.issuer oc) w)
  ]
