-- ===== src/Controller/Registration.antt =====
-- `registerOrAdopt`.
pub mod Credentials
pub mod Backing
use tsidp_operator.Prelude.{
  ℕ, Bool, true, false, ◌&&◌, ◌||◌, not, List, [], ◌∷◌, ◌++◌, Option, none, some, String, ◌==◌,
  string_eq, if◌then◌else◌,
}
use tsidp_operator.Prelude.Map.{lookup}
use tsidp_operator.Text.{Text, text_eq, is_empty}
use tsidp_operator.Text.Find.{has_substring}
use tsidp_operator.Fault.{Error, Exec, Result, ok, err, wrap, is_tsidp_not_found}
use tsidp_operator.Tsidp
use tsidp_operator.Tsidp.{FunnelClient, RegistrationRequest, ProviderMetadata}
use tsidp_operator.Tsidp.Methods.{list_clients, delete_client, register}
use tsidp_operator.Api.{OidcClient, Secret}
use tsidp_operator.Controller.Environment.{Environment, http}
use tsidp_operator.Controller.Names.{fingerprint, registered_name, secret_name}
use tsidp_operator.Controller.Secrets.{secret_adoptable, upsert_secret, set_credentials}
use tsidp_operator.Controller.Status.{text, emit, handle, with_client_id, with_secret_name}

-- `registerOutcome`; `invalid` is its zero value, which goes with an error only.
pub data RegisterOutcome : Type 0 where
  invalid adopted registered burned_orphan : RegisterOutcome

-- A value of the Secret's data; a missing key reads as empty.
abbrev pub text_of : Option Text → Text
text_of none = []
text_of (some t) = t

-- The Secret holds the credentials of the client: its id, and some secret.
unfoldable pub holds_credentials : Text → Secret → Bool
holds_credentials id s =
    text_of (lookup "client_id" s.contents) == id
    && not (is_empty (text_of (lookup "client_secret" s.contents)))

unfoldable pub adoptable : Text → Option Secret → Bool
unfolding holds_credentials
adoptable id none = false
adoptable id (some s) = holds_credentials id s

-- The loop over the list: the first client whose name carries the fingerprint. Each of the loop's
-- branches returns there.
unfoldable pub find_owned : Text → List FunnelClient → Option FunnelClient
find_owned fp [] = none
find_owned fp (c ∷ cs) =
    let rest = find_owned fp cs in if has_substring c.client_name fp then some c else rest

unfoldable pub registration_request : OidcClient → RegistrationRequest
registration_request oc = record {
  redirect_uris = oc.spec.redirect_uris;
  token_endpoint_auth_method = oc.spec.token_endpoint_auth_method;
  grant_types = oc.spec.grant_types;
  response_types = oc.spec.response_types;
  client_name = registered_name oc;
  client_uri = oc.spec.client_uri;
  logo_uri = oc.spec.logo_uri;
  scope = oc.spec.scope;
  contacts = oc.spec.contacts;
  application_type = oc.spec.application_type;
}

-- `err != nil && !errors.Is(err, tsidp.ErrNotFound)`
abbrev pub serious : Result (Unit {0}) → Option Error
serious (ok u) = none
serious (err e) = if is_tsidp_not_found e then none else some e

module _ (E : Environment) (c : Tsidp.Client) where
  -- The first client with the fingerprint: adopted if the Secret holds its credentials, else deleted.
  unfoldable pub adopt_or_burn :
      OidcClient → Option Secret → FunnelClient → Exec E.World (OidcClient × RegisterOutcome)
  adopt_or_burn oc existing fc w =
      if adoptable fc.client_id existing
      then (
        ok (with_client_id fc.client_id oc, adopted),
        emit E false "Adopted" (text "adopted existing tsidp registration %s" (fc.client_id ∷ []))
            w,
      )
      else (let (r, w') = delete_client (http E) c fc.client_id w in
          elim (serious r) [
            | some e ↦ (err (wrap "deleting unadoptable orphan %s: %w" (fc.client_id ∷ []) e), w')
            | none ↦ (
              ok (oc, burned_orphan),
              emit E true "OrphanReplaced"
                  (text
                    "deleted fingerprint-matched registration %s whose credentials were unrecoverable"
                    (fc.client_id ∷ []))
                  w',
            )
          ])

  -- The new registration, with the Secret written before the status.
  unfoldable pub register_new :
      OidcClient → ProviderMetadata → Exec E.World (OidcClient × RegisterOutcome)
  register_new oc disc w =
      handle (register (http E) c (registration_request oc)) w
        (λ e w. (err (wrap "registering client: %w" [] e), w))
        (λ resp w.
          handle (upsert_secret E oc (set_credentials resp disc oc.spec.redirect_uris)) w
            (λ e w. (err (wrap "writing credentials Secret: %w" [] e), w))
            (λ _ w. (
              ok (with_secret_name (secret_name oc) (with_client_id resp.client_id oc), registered),
              emit E false "Registered"
                  (text "registered client %s with tsidp; credentials written to Secret %s/%s"
                    (resp.client_id ∷ oc.namespace ∷ secret_name oc ∷ []))
                  w,
            )))

  -- `registerOrAdopt`
  unfoldable pub register_or_adopt :
      OidcClient → ProviderMetadata → Exec E.World (OidcClient × RegisterOutcome)
  register_or_adopt oc disc w =
      handle (secret_adoptable E oc (secret_name oc)) w (λ e w. (err e, w))
        (λ existing w.
          handle (list_clients (http E) c) w
            (λ e w. (err (wrap "listing clients for adoption: %w" [] e), w))
            (λ list w. elim (find_owned (fingerprint oc) list) [
              | some fc ↦ adopt_or_burn oc existing fc w
              | none ↦ register_new oc disc w
            ]))
