-- ===== src/Tsidp/Methods.antt =====
-- The methods of `Client`, over any transport.
use tsidp_operator.Prelude.{
  Bool, ◌&&◌, ◌||◌, not, List, [], ◌∷◌, ◌++◌, none, some, String, ◌==◌, nat_eq, leb, if◌then◌else◌,
}
use tsidp_operator.Text.{Text, text_eq, is_empty, runes}
use tsidp_operator.Text.Trim.{trim_space}
use tsidp_operator.Text.Lines.{join, trim_all}
use tsidp_operator.Text.Order.{equal_sorted}
use tsidp_operator.Wire.{Method, get, post, delete, Body, Response}
use tsidp_operator.Fault.{
  Description, opaque, errorf, wrap, api_error, Result, ok, err, Exec, lift, ◌>>=◌, or_fail,
}
use tsidp_operator.Transport.{Http}
use tsidp_operator.Tsidp.{FunnelClient, RegistrationRequest, ProviderMetadata, Client}
use tsidp_operator.Tsidp.Codec.{
  encode_registration, decode_client, decode_clients, decode_metadata, decode_body,
  err_from_response,
}

-- `sameSet`
unfoldable pub same_set : List Text → List Text → Bool
same_set a b = equal_sorted a b

-- What each method makes of the response.
unfoldable pub registered : Response → Result FunnelClient
registered resp =
    if not (resp.status == 201)
    then err (err_from_response resp)
    else elim (decode_body decode_client resp.body) [
      | none ↦ err (wrap "tsidp: decoding /register response: %w" [] (opaque "json"))
      | some fc ↦
          if is_empty fc.client_id || is_empty fc.client_secret
          then err (errorf "tsidp: /register response missing client_id or client_secret" [])
          else ok fc
    ]

unfoldable pub listed : Response → Result (List FunnelClient)
listed resp =
    if not (resp.status == 200)
    then err (err_from_response resp)
    else or_fail (wrap "tsidp: decoding /clients/ response: %w" [] (opaque "json"))
        (decode_body decode_clients resp.body)

unfoldable pub got : Response → Result FunnelClient
got resp =
    if not (resp.status == 200)
    then err (err_from_response resp)
    else or_fail (wrap "tsidp: decoding /clients/{id} response: %w" [] (opaque "json"))
        (decode_body decode_client resp.body)

unfoldable pub deleted : Response → Result (Unit {0})
deleted resp =
    if not (resp.status == 204) && not (resp.status == 200)
    then err (err_from_response resp)
    else ok tt

unfoldable pub discovered : Response → Result ProviderMetadata
discovered resp =
    if not (resp.status == 200)
    then err (err_from_response resp)
    else elim (decode_body decode_metadata resp.body) [
      | none ↦ err (wrap "tsidp: decoding discovery document: %w" [] (opaque "json"))
      | some pm ↦
          if is_empty pm.issuer
          then err (errorf "tsidp: discovery document missing issuer" [])
          else ok pm
    ]

-- The test of `UpdateClient` on the answer to its form.
unfoldable pub edited : Response → Result (Unit {0})
edited resp =
    if leb 400 resp.status
    then err (
        api_error (record {
          status = resp.status;
          error_code = [];
          description = Description.said (runes "update via /edit failed");
        }))
    else ok tt

-- The test of `UpdateClient` on the client that it reads back.
unfoldable pub verified : Text → Text → List Text → FunnelClient → Result (Unit {0})
unfolding same_set
verified id name uris fc =
    if not (fc.client_name == name) || not (same_set fc.redirect_uris uris)
    then err (
        errorf
          "tsidp: update of client %s did not converge (server rejected it, e.g. a redirect URI scheme tsidp's UI validation forbids); remote name=%q uris=%v"
          (id ∷ fc.client_name ∷ fc.redirect_uris))
    else ok tt

abbrev wrapping {ℓ} : {A : Type ℓ} → String → List Text → Result A → Result A
wrapping f args (ok a) = ok a
wrapping f args (err e) = err (wrap f args e)

module _ (H : Http) (c : Client) where
  -- `do`
  unfoldable pub do_request : Method → Text → Body → String → Exec H.World Response
  do_request method path body content_type = H.send (record {
    method = method;
    base_url = c.base_url;
    path = path;
    content_type = content_type;
    body = body;
  })

  -- `Register`
  unfoldable pub register : RegistrationRequest → Exec H.World FunnelClient
  unfolding do_request
  register reg = do
    resp ←
        do_request post (runes "/register") (Body.json (encode_registration reg)) "application/json"
    lift (registered resp)

  -- `ListClients`
  unfoldable pub list_clients : Exec H.World (List FunnelClient)
  unfolding do_request
  list_clients = do resp ← do_request get (runes "/clients/") Body.absent ""; lift (listed resp)

  -- `GetClient`
  unfoldable pub get_client : Text → Exec H.World FunnelClient
  unfolding do_request
  get_client id = do resp ← do_request get (runes "/clients/" ++ id) Body.absent ""; lift (got resp)

  -- `DeleteClient`
  unfoldable pub delete_client : Text → Exec H.World (Unit {0})
  unfolding do_request
  delete_client id = do
    resp ← do_request delete (runes "/clients/" ++ id) Body.absent ""
    lift (deleted resp)

  -- `GetClient` in `UpdateClient`, with its error wrapped.
  unfoldable pub read_back : Text → Exec H.World FunnelClient
  read_back id w =
      let (r, w') = get_client id w in
      (wrapping "tsidp: verifying update of %s: %w" (id ∷ []) r, w')

  -- `UpdateClient`
  unfoldable pub update_client : Text → Text → List Text → Exec H.World (Unit {0})
  unfolding do_request read_back
  update_client id name redirect_uris = do
    let name' = trim_space name
    let uris = trim_all redirect_uris
    resp ←
        do_request post (runes "/edit/" ++ id)
          (Body.form (("name", name') ∷ ("redirect_uris", join 0x0a uris) ∷ []))
          "application/x-www-form-urlencoded"
    _ ← lift (edited resp)
    fc ← read_back id
    lift (verified id name' uris fc)

  -- `Discovery`
  unfoldable pub discovery : Exec H.World ProviderMetadata
  unfolding do_request
  discovery = do
    resp ← do_request get (runes "/.well-known/openid-configuration") Body.absent ""
    lift (discovered resp)
