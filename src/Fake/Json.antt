-- ===== src/Fake/Json.antt =====
-- What the fake encodes, the operator's client decodes, and the other way round.
use tsidp_operator.Prelude.{
  ◌≡◌, refl, false, List, [], ◌∷◌, none, some, String, ◌==◌, string_eq, arith, contains,
}
use tsidp_operator.Prelude.Map.{Map}
use tsidp_operator.Text.{Text}
use tsidp_operator.Wire.{
  Json, Fields, end, field, get_field, to_text, to_texts_items, of_texts, omit_empty, omit_empties,
  Body,
}
use tsidp_operator.Tsidp.{FunnelClient, RegistrationRequest}
use tsidp_operator.Tsidp.Codec.{
  encode_registration, decode_client, decode_client_items, decode_clients,
}
use tsidp_operator.Fake.{Client}
use tsidp_operator.Fake.Handlers.{encode_client, encode_clients, blank, decode_registration}

to_texts-of_texts : (us : List Text) → to_texts_items (of_texts us) ≡ some us
unfolding to_texts_items of_texts
to_texts-of_texts [] = refl
to_texts-of_texts (u ∷ us) = ground (arith, to_texts-of_texts us)

-- What the operator sees of a client of the server.
abbrev pub visible : Client → FunnelClient
visible c = record {
  client_id = c.client_id;
  client_secret = c.client_secret;
  client_name = c.client_name;
  redirect_uris = c.redirect_uris;
}

decode_client_fields :
    (i s n t : Text) (us : List Text)
    → decode_client (
        Json.obj (
          field "client_id" (Json.str i) (
            omit_empty "client_secret" s (
              omit_empty "client_name" n
                (omit_empties "redirect_uris" us (field "created_at" (Json.str t) end))))))
      ≡ some (record { client_id = i; client_secret = s; client_name = n; redirect_uris = us })
unfolding decode_client string_eq omit_empty omit_empties
decode_client_fields i [] [] t [] = refl
decode_client_fields i [] [] t (u ∷ us) = rw (to_texts-of_texts (u ∷ us))
decode_client_fields i [] (c ∷ n) t [] = refl
decode_client_fields i [] (c ∷ n) t (u ∷ us) = rw (to_texts-of_texts (u ∷ us))
decode_client_fields i (d ∷ s) [] t [] = refl
decode_client_fields i (d ∷ s) [] t (u ∷ us) = rw (to_texts-of_texts (u ∷ us))
decode_client_fields i (d ∷ s) (c ∷ n) t [] = refl
decode_client_fields i (d ∷ s) (c ∷ n) t (u ∷ us) = rw (to_texts-of_texts (u ∷ us))

pub decode-encode_client : (c : Client) → decode_client (encode_client c) ≡ some (visible c)
unfolding encode_client
decode-encode_client c =
    decode_client_fields c.client_id c.client_secret c.client_name c.created_at c.redirect_uris

-- The clients that a listing shows.
abbrev pub listing : Map Text Client → List FunnelClient
listing [] = []
listing ((k, c) ∷ cs) = visible (blank c) ∷ listing cs

decode-encode_items :
    (cs : Map Text Client) → decode_client_items (encode_clients cs) ≡ some (listing cs)
unfolding decode_client_items encode_clients
decode-encode_items [] = refl
decode-encode_items ((k, c) ∷ cs) =
    ground (arith, decode-encode_client (blank c), decode-encode_items cs)

-- The client reads a list of clients that the fake wrote as the same clients, in order, with the
-- secrets blanked.
pub decode-encode_clients :
    (cs : Map Text Client) → decode_clients (Json.arr (encode_clients cs)) ≡ some (listing cs)
unfolding decode_clients
decode-encode_clients cs = decode-encode_items cs

get_field-omit_ne :
    (j k : String) (s : Text) (rest : Fields)
    → (j == k) ≡ false
    → get_field j (omit_empty k s rest) ≡ get_field j rest
unfolding get_field omit_empty
get_field-omit_ne j k [] rest h = refl
get_field-omit_ne j k (c ∷ s) rest h = ground arith

get_field-omits_ne :
    (j k : String) (ss : List Text) (rest : Fields)
    → (j == k) ≡ false
    → get_field j (omit_empties k ss rest) ≡ get_field j rest
unfolding get_field omit_empties
get_field-omits_ne j k [] rest h = refl
get_field-omits_ne j k (s ∷ ss) rest h = ground arith

to_text-omit_self :
    (k : String) (s : Text) (rest : Fields)
    → get_field k rest ≡ none
    → to_text (get_field k (omit_empty k s rest)) ≡ some s
unfolding get_field to_text omit_empty
to_text-omit_self k [] rest h = rw h
to_text-omit_self k (c ∷ s) rest h = rw h (ground arith)

get_field-end : (k : String) → get_field k end ≡ none
unfolding get_field
get_field-end k = refl

get_field-field_ne :
    (j k : String) (v : Json) (rest : Fields)
    → (j == k) ≡ false
    → get_field j (field k v rest) ≡ get_field j rest
unfolding get_field
get_field-field_ne j k v rest h = ground arith

get_field-field_self :
    (k : String) (v : Json) (rest : Fields)
    → get_field k rest ≡ none
    → get_field k (field k v rest) ≡ some v
unfolding get_field
get_field-field_self k v rest h = ground arith

-- The fields that follow the name.
abbrev tail_fields : RegistrationRequest → Fields
tail_fields r = omit_empty "client_uri" r.client_uri (
    omit_empty "logo_uri" r.logo_uri (
      omit_empty "scope" r.scope (
        omit_empties "contacts" r.contacts (omit_empty "application_type" r.application_type end))))

abbrev option_fields : RegistrationRequest → Fields
option_fields r = omit_empty "token_endpoint_auth_method" r.token_endpoint_auth_method (
    omit_empties "grant_types" r.grant_types (
      omit_empties "response_types" r.response_types
        (omit_empty "client_name" r.client_name (tail_fields r))))

get_field-tail_fields :
    (k : String) (r : RegistrationRequest)
    → contains ("client_uri" ∷ "logo_uri" ∷ "scope" ∷ "contacts" ∷ "application_type" ∷ []) k
      ≡ false
    → get_field k (tail_fields r) ≡ none
get_field-tail_fields k r h = rw (
  get_field-omit_ne k "client_uri" _ _ (ground arith),
  get_field-omit_ne k "logo_uri" _ _ (ground arith),
  get_field-omit_ne k "scope" _ _ (ground arith),
  get_field-omits_ne k "contacts" _ _ (ground arith),
  get_field-omit_ne k "application_type" _ _ (ground arith),
  get_field-end,
)

name_of_registration :
    (r : RegistrationRequest) (j : Json)
    → to_text (get_field "client_name" (field "redirect_uris" j (option_fields r)))
      ≡ some r.client_name
unfolding string_eq
name_of_registration r j = rw (
  get_field-field_ne "client_name" "redirect_uris" j _ refl,
  get_field-omit_ne "client_name" "token_endpoint_auth_method" _ _ refl,
  get_field-omits_ne "client_name" "grant_types" _ _ refl,
  get_field-omits_ne "client_name" "response_types" _ _ refl,
  to_text-omit_self "client_name" _ _ (get_field-tail_fields "client_name" r refl),
)

uris_of_registration :
    (r : RegistrationRequest) (j : Json)
    → get_field "redirect_uris" (field "redirect_uris" j (option_fields r)) ≡ some j
unfolding string_eq
uris_of_registration r j = get_field-field_self "redirect_uris" j _ (
    rw (
      get_field-omit_ne "redirect_uris" "token_endpoint_auth_method" _ _ refl,
      get_field-omits_ne "redirect_uris" "grant_types" _ _ refl,
      get_field-omits_ne "redirect_uris" "response_types" _ _ refl,
      get_field-omit_ne "redirect_uris" "client_name" _ _ refl,
      get_field-tail_fields "redirect_uris" r refl,
    ))

-- The fake reads the name and the redirect URIs of a registration request as the client wrote
-- them.
pub decode-encode_registration :
    (r : RegistrationRequest)
    → decode_registration (Body.json (encode_registration r))
      ≡ some (r.client_name, r.redirect_uris)
decode-encode_registration r =
    let j = Json.arr (of_texts r.redirect_uris) in
    unfold decode_registration encode_registration in
    rw (name_of_registration r j, uris_of_registration r j, to_texts-of_texts r.redirect_uris)
