-- ===== src/Fake/Contract/Register.antt =====
-- `Register`: a registration makes a new client under a fresh id.
use tsidp_operator.Prelude.{ℕ, ◌+◌, ◌≡◌, refl, List, [], ◌∷◌, arith, nat_eq, string_eq, String}
use tsidp_operator.Prelude.Map.{insert}
use tsidp_operator.Text.{Text, text_eq, runes}
use tsidp_operator.Wire.{Body, post}
use tsidp_operator.Fault.{Result, ok, err, api_error, Description}
use tsidp_operator.Tsidp
use tsidp_operator.Tsidp.{FunnelClient, RegistrationRequest}
use tsidp_operator.Tsidp.Codec.{encode_registration, err_from_response}
use tsidp_operator.Tsidp.Methods.{registered, register}
use tsidp_operator.Fake.{Server}
use tsidp_operator.Fake.Handlers.{
  serve_register, create_client, new_client, json_response, http_error, encode_client,
}
use tsidp_operator.Fake.Json.{visible, decode-encode_client, decode-encode_registration}
use tsidp_operator.Fake.Contract.{fake_http, request, route_register}

registered_new :
    (now name : Text) (uris : List Text) (n : ℕ)
    → registered (json_response 201 (encode_client (new_client now name uris n)))
      ≡ ok (visible (new_client now name uris n))
unfolding registered nat_eq new_client
registered_new now name uris n = rw (decode-encode_client (new_client now name uris n))

registered_without_uris :
    registered (http_error 400 "invalid_client_metadata" "redirect_uris is required")
    ≡ err (
        api_error (record {
          status = 400;
          error_code = runes "invalid_client_metadata";
          description = Description.said (runes "redirect_uris is required");
        }))
unfolding registered nat_eq http_error err_from_response string_eq
registered_without_uris = refl

abbrev refusal : Result FunnelClient
refusal = err (
    api_error (record {
      status = 400;
      error_code = runes "invalid_client_metadata";
      description = Description.said (runes "redirect_uris is required");
    }))

-- What a registration comes to: with no redirect URI a refusal that changes nothing, else the new
-- client with its secret, which the server then holds under its id.
abbrev pub registration : Text → Text → List Text → Server → Result FunnelClient × Server
registration now name [] s = (refusal, s)
registration now name (u ∷ us) s =
    let new = new_client now name (u ∷ us) (s.next_id + 1) in
    (
      ok (visible new),
      record s { next_id = s.next_id + 1; clients = insert new.client_id new s.clients },
    )

created :
    (now name : Text) (uris : List Text) (s : Server)
    → (registered (create_client now name uris s).0, (create_client now name uris s).1)
      ≡ registration now name uris s
unfolding create_client
created now name [] s = rw registered_without_uris
created now name (u ∷ us) s = rw registered_new

served :
    (now base path : Text) (ct : String) (r : RegistrationRequest) (s : Server)
    → serve_register now (request post base path ct (Body.json (encode_registration r))) s
      ≡ create_client now r.client_name r.redirect_uris s
unfolding serve_register
served now base path ct r s = ground (arith, decode-encode_registration r)

-- Register against the fake is the abstract registration: with no redirect URI the refusal
-- invalid_client_metadata and no change, else the new client with its secret, stored under its
-- fresh id, and the counter one up.
pub register_lem :
    (now : Text) (c : Tsidp.Client) (r : RegistrationRequest) (s : Server)
    → register (fake_http now) c r s ≡ registration now r.client_name r.redirect_uris s
unfolding register
register_lem now c r s = rw (route_register, served) (created now r.client_name r.redirect_uris s)
