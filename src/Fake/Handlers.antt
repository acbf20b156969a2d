-- ===== src/Fake/Handlers.antt =====
-- `ServeHTTP` and what it calls. `now` is the time of the request, as it is written to the wire.
use tsidp_operator.Prelude.{
  ℕ, ◌+◌, Bool, true, false, ◌||◌, not, List, [], ◌∷◌, ◌++◌, map, Option, none, some, String, ◌==◌,
  nat_eq, string_eq, if◌then◌else◌,
}
use tsidp_operator.Prelude.Map.{Map, lookup, insert, erase}
use tsidp_operator.Text.{Text, text_eq, runes, lower}
use tsidp_operator.Text.Find.{has_prefix, trim_prefix, has_substring}
use tsidp_operator.Text.Trim.{trim_space}
use tsidp_operator.Text.Lines.{split, trim_all}
use tsidp_operator.Text.Decimal.{decimal}
use tsidp_operator.Wire.{
  Json, Items, nil, item, end, field, get_field, to_text, to_texts, of_texts, omit_empty,
  omit_empties, Method, get, post, delete, Body, Request, Response,
}
use tsidp_operator.Fake.{Client, Server}

-- The tags of the fake's `Client`.
unfoldable pub encode_client : Client → Json
unfolding of_texts
encode_client c = Json.obj (
    field "client_id" (Json.str c.client_id) (
      omit_empty "client_secret" c.client_secret (
        omit_empty "client_name" c.client_name (
          omit_empties "redirect_uris" c.redirect_uris
            (field "created_at" (Json.str c.created_at) end)))))

-- tsidp blanks secrets on get and list.
unfoldable pub blank : Client → Client
blank c = record c { client_secret = [] }

-- The state that `New` makes; the URL is that of the test server that listens for it.
unfoldable pub new_server : Text → Server
new_server url = record { issuer = url; clients = []; next_id = 0 }

-- `Snapshot`
unfoldable pub snapshot : Server → Map Text Client
snapshot s = s.clients

-- `Seed`
unfoldable pub seed : Client → Server → Server
seed c s = record s { clients = insert c.client_id c s.clients }

-- `httpError`
unfoldable pub http_error : ℕ → String → String → Response
http_error status code desc = record {
  status = status;
  body = Body.json (
      Json.obj (
        field "error" (Json.str (runes code))
          (field "error_description" (Json.str (runes desc)) end)));
}

abbrev pub json_response : ℕ → Json → Response
json_response status j = record { status = status; body = Body.json j }

abbrev pub html : String → Response
html s = record { status = 200; body = Body.text (runes s) }

-- The body of POST /register, as far as the fake decodes it.
abbrev registration_of : Option Text → Option (List Text) → Option (Text × List Text)
registration_of (some n) (some us) = some (n, us)
registration_of _ _ = none

unfoldable pub decode_registration : Body → Option (Text × List Text)
unfolding get_field to_text to_texts
decode_registration (Body.json (Json.obj fs)) =
    registration_of (to_text (get_field "client_name" fs)) (to_texts (get_field "redirect_uris" fs))
decode_registration (Body.json Json.null) = some ([], [])
decode_registration _ = none

-- The client that a registration makes, by its number.
unfoldable pub new_client : Text → Text → List Text → ℕ → Client
new_client now name uris n = record {
  client_id = runes "fake-client-" ++ decimal n;
  client_secret = runes "fake-secret-" ++ decimal n;
  client_name = name;
  redirect_uris = uris;
  created_at = now;
}

-- `serveRegister`, from its check of the redirect URIs on.
unfoldable pub create_client : Text → Text → List Text → Server → Response × Server
create_client now name [] s =
    (http_error 400 "invalid_client_metadata" "redirect_uris is required", s)
create_client now name (u ∷ us) s =
    let n = s.next_id + 1 in
    let c = new_client now name (u ∷ us) n in
    (
      json_response 201 (encode_client c),
      record s { next_id = n; clients = insert c.client_id c s.clients },
    )

abbrev pub create_decoded : Text → Option (Text × List Text) → Server → Response × Server
create_decoded now none s = (http_error 400 "invalid_request" "invalid request body", s)
create_decoded now (some (name, uris)) s = create_client now name uris s

abbrev pub is_post : Method → Bool
is_post post = true
is_post _ = false

abbrev pub method_not_allowed : Response
method_not_allowed = http_error 405 "invalid_request" "method not allowed"

-- `serveRegister`
unfoldable pub serve_register : Text → Request → Server → Response × Server
serve_register now r s =
    if not (is_post r.method)
    then (method_not_allowed, s)
    else create_decoded now (decode_registration r.body) s

-- `serveDiscovery`
unfoldable pub serve_discovery : Server → Response × Server
serve_discovery s = (
  json_response 200 (
      Json.obj (
        field "issuer" (Json.str s.issuer) (
          field "authorization_endpoint" (Json.str (s.issuer ++ runes "/authorize")) (
            field "token_endpoint" (Json.str (s.issuer ++ runes "/token")) (
              field "userinfo_endpoint" (Json.str (s.issuer ++ runes "/userinfo"))
                (field "jwks_uri" (Json.str (s.issuer ++ runes "/.well-known/jwks.json")) end)))))),
  s,
)

unfoldable pub encode_clients : Map Text Client → Items
encode_clients [] = nil
encode_clients ((k, c) ∷ cs) = item (encode_client (blank c)) (encode_clients cs)

-- `serveList`. The clients are listed in the order of the map, which Go leaves open.
unfoldable pub serve_list : Request → Server → Response × Server
serve_list r s = elim r.method [
  | get ↦ (json_response 200 (Json.arr (encode_clients s.clients)), s)
  | _ ↦ (method_not_allowed, s)
]

-- `serveClient`
unfoldable pub serve_client : Request → Text → Server → Response × Server
serve_client r id s = elim r.method [
  | get ↦ elim (lookup id s.clients) [
    | none ↦ (http_error 404 "not_found" "client not found", s)
    | some c ↦ (json_response 200 (encode_client (blank c)), s)
  ]
  | delete ↦ elim (lookup id s.clients) [
    | none ↦ (http_error 404 "not_found" "client not found", s)
    | some c ↦
        (record { status = 204; body = Body.absent }, record s { clients = erase id s.clients })
  ]
  | _ ↦ (method_not_allowed, s)
]

abbrev pub dangerous_schemes : List String
dangerous_schemes =
    "javascript:" ∷ "data:" ∷ "file:" ∷ "vbscript:" ∷ "about:" ∷ "blob:" ∷ "filesystem:" ∷ "chrome:"
    ∷ "chrome-extension:" ∷ "ftp:" ∷ "mailto:" ∷ []

-- The loop of `editRejects` over the schemes.
unfoldable pub has_scheme : List String → Text → Bool
has_scheme [] u = false
has_scheme (s ∷ schemes) u =
    let rest = has_scheme schemes u in if has_prefix u (runes s) then true else rest

-- `editRejects`
unfoldable pub edit_rejects : Text → Bool
unfolding has_scheme
edit_rejects uri =
    if has_scheme dangerous_schemes (map lower uri)
    then true
    else not (has_substring uri (runes ":"))

-- The loop of `serveEdit` over the URIs.
unfoldable pub any_rejected : List Text → Bool
any_rejected [] = false
any_rejected (u ∷ us) = let rest = any_rejected us in if edit_rejects u then true else rest

abbrev pub text_of : Option Text → Text
text_of none = []
text_of (some t) = t

-- `r.ParseForm()`; `none` is its error. A body of another content type leaves the form empty.
unfoldable pub parse_form : Request → Option (Map String Text)
parse_form r =
    if r.content_type == "application/x-www-form-urlencoded"
    then elim r.body [ Body.form m ↦ some m | Body.absent ↦ some [] | _ ↦ none ]
    else some []

-- `serveEdit`, from its check that there is a URI on.
unfoldable pub edit_client : Text → Client → Text → List Text → Server → Response × Server
edit_client id c name [] s =
    (html "<html><body>error: at least one redirect URI is required</body></html>", s)
edit_client id c name (u ∷ us) s =
    if any_rejected (u ∷ us)
    then (html "<html><body>error: invalid redirect URI</body></html>", s)
    else (
      html "<html><body>client updated</body></html>",
      record s {
        clients = insert id (record c { client_name = name; redirect_uris = u ∷ us }) s.clients;
      },
    )

abbrev pub edit_found : Text → Map String Text → Option Client → Server → Response × Server
edit_found id form none s = (http_error 404 "not_found" "client not found", s)
edit_found id form (some c) s =
    edit_client id c (trim_space (text_of (lookup "name" form)))
      (trim_all (split 0x0a (text_of (lookup "redirect_uris" form)))) s

abbrev pub edit_parsed : Text → Option (Map String Text) → Server → Response × Server
edit_parsed id none s = (http_error 400 "invalid_request" "failed to parse form", s)
edit_parsed id (some form) s = edit_found id form (lookup id s.clients) s

-- `serveEdit`
unfoldable pub serve_edit : Request → Text → Server → Response × Server
unfolding parse_form
serve_edit r id s =
    if not (is_post r.method) then (method_not_allowed, s) else edit_parsed id (parse_form r) s

-- `ServeHTTP`
unfoldable pub serve_http : Text → Request → Server → Response × Server
unfolding serve_register serve_discovery serve_list serve_client serve_edit
serve_http now r s =
    if r.path == runes "/register"
    then serve_register now r s
    else if r.path == runes "/.well-known/openid-configuration"
    then serve_discovery s
    else if r.path == runes "/clients/" || r.path == runes "/clients"
    then serve_list r s
    else if has_prefix r.path (runes "/clients/")
    then serve_client r (trim_prefix r.path (runes "/clients/")) s
    else if has_prefix r.path (runes "/edit/")
    then serve_edit r (trim_prefix r.path (runes "/edit/")) s
    else (http_error 404 "not_found" "not found", s)
