-- ===== src/Tsidp/Codec.antt =====
-- The JSON tags of internal/tsidp/client.go: what a request encodes to, and what a response decodes
-- to. Names of fields are matched as they are written.
use tsidp_operator.Prelude.{ℕ, Bool, true, false, List, [], ◌∷◌, Option, none, some, ◌||◌}
use tsidp_operator.Prelude.{if◌then◌else◌, ◌==◌, nat_eq}
use tsidp_operator.Text.{Text, is_empty}
use tsidp_operator.Wire.{
  Json, Items, nil, item, end, field, get_field, to_text, to_texts, of_texts, omit_empty,
  omit_empties, Body, Response,
}
use tsidp_operator.Fault.{Error, ApiError, Description, tsidp_not_found, api_error}
use tsidp_operator.Tsidp.{FunnelClient, RegistrationRequest, ProviderMetadata}

unfoldable pub encode_registration : RegistrationRequest → Json
encode_registration r = Json.obj (
    field "redirect_uris" (Json.arr (of_texts r.redirect_uris)) (
      omit_empty "token_endpoint_auth_method" r.token_endpoint_auth_method (
        omit_empties "grant_types" r.grant_types (
          omit_empties "response_types" r.response_types (
            omit_empty "client_name" r.client_name (
              omit_empty "client_uri" r.client_uri (
                omit_empty "logo_uri" r.logo_uri (
                  omit_empty "scope" r.scope (
                    omit_empties "contacts" r.contacts
                      (omit_empty "application_type" r.application_type end))))))))))

abbrev client_of :
    Option Text → Option Text → Option Text → Option (List Text) → Option FunnelClient
client_of (some i) (some s) (some n) (some us) =
    some (record { client_id = i; client_secret = s; client_name = n; redirect_uris = us })
client_of _ _ _ _ = none

unfoldable pub decode_client : Json → Option FunnelClient
unfolding get_field to_text to_texts
decode_client (Json.obj fs) =
    client_of (to_text (get_field "client_id" fs)) (to_text (get_field "client_secret" fs))
      (to_text (get_field "client_name" fs)) (to_texts (get_field "redirect_uris" fs))
decode_client Json.null =
    some (record { client_id = []; client_secret = []; client_name = []; redirect_uris = [] })
decode_client _ = none

unfoldable pub decode_client_items : Items → Option (List FunnelClient)
decode_client_items nil = some []
decode_client_items (item j rest) = elim (decode_client j) [
  | none ↦ none
  | some c ↦ elim (decode_client_items rest) [ none ↦ none | some cs ↦ some (c ∷ cs) ]
]

-- A slice of clients.
unfoldable pub decode_clients : Json → Option (List FunnelClient)
decode_clients (Json.arr items) = decode_client_items items
decode_clients Json.null = some []
decode_clients _ = none

abbrev metadata_of :
    Option Text → Option Text → Option Text → Option Text → Option Text → Option ProviderMetadata
metadata_of (some i) (some a) (some t) (some u) (some j) = some (record {
  issuer = i;
  authorization_endpoint = a;
  token_endpoint = t;
  userinfo_endpoint = u;
  jwks_uri = j;
})
metadata_of _ _ _ _ _ = none

unfoldable pub decode_metadata : Json → Option ProviderMetadata
unfolding get_field to_text
decode_metadata (Json.obj fs) =
    metadata_of (to_text (get_field "issuer" fs)) (to_text (get_field "authorization_endpoint" fs))
      (to_text (get_field "token_endpoint" fs)) (to_text (get_field "userinfo_endpoint" fs))
      (to_text (get_field "jwks_uri" fs))
decode_metadata Json.null = some (record {
  issuer = [];
  authorization_endpoint = [];
  token_endpoint = [];
  userinfo_endpoint = [];
  jwks_uri = [];
})
decode_metadata _ = none

-- `json.NewDecoder(resp.Body).Decode(&v)`, by the decoder of v's type.
abbrev pub decode_body {ℓ} : {A : Type ℓ} → (Json → Option A) → Body → Option A
decode_body d (Body.json j) = d j
decode_body d _ = none

-- A field that fails to decode leaves the value that was there.
abbrev text_or : Option Text → Text
text_or none = []
text_or (some s) = s

-- The field `Status` of `apiError` has no tag, so a document may overwrite it.
abbrev status_or : ℕ → Option Json → ℕ
status_or n (some (Json.num m)) = m
status_or n _ = n

abbrev fails : Option Json → Option Text → Option Text → Bool
fails (some (Json.str s)) _ _ = true
fails (some (Json.arr s)) _ _ = true
fails (some (Json.obj s)) _ _ = true
fails _ (some c) (some d) = false
fails _ _ _ = true

decode_error : ℕ → Body → ApiError
unfolding get_field to_text
decode_error status (Body.json (Json.obj fs)) =
    let code = to_text (get_field "error" fs) in
    let desc = to_text (get_field "error_description" fs) in
    let st = get_field "Status" fs in
    record {
      status = status_or status st;
      error_code = text_or code;
      description =
          if fails st code desc || is_empty (text_or code)
          then Description.raw (Body.json (Json.obj fs))
          else Description.said (text_or desc);
    }
decode_error status b = record { status = status; error_code = []; description = Description.raw b }

-- `errFromResponse`
unfoldable pub err_from_response : Response → Error
unfolding decode_error
err_from_response resp =
    if resp.status == 404 then tsidp_not_found else api_error (decode_error resp.status resp.body)
