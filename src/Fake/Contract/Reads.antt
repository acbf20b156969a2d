-- ===== src/Fake/Contract/Reads.antt =====
-- The methods that read, and `DeleteClient`.
use tsidp_operator.Prelude.{
  ℕ, ◌≡◌, refl, false, [], ◌∷◌, ◌++◌, Option, none, some, arith, Option-cases, inl, inr, nat_eq,
  string_eq,
}
use tsidp_operator.Prelude.Map.{lookup, erase, erase_missing}
use tsidp_operator.Text.{Text, text_eq, runes, is_empty}
use tsidp_operator.Wire.{Body}
use tsidp_operator.Fault.{Result, ok, err, tsidp_not_found, errorf}
use tsidp_operator.Tsidp
use tsidp_operator.Tsidp.{FunnelClient, ProviderMetadata}
use tsidp_operator.Tsidp.Codec.{err_from_response, decode_metadata}
use tsidp_operator.Tsidp.Methods.{
  got, listed, deleted, discovered, get_client, list_clients, delete_client, discovery,
}
use tsidp_operator.Fake.{Client, Server}
use tsidp_operator.Fake.Handlers.{
  serve_client, serve_list, serve_discovery, blank, http_error, json_response, encode_client,
}
use tsidp_operator.Fake.Json.{visible, listing, decode-encode_client, decode-encode_clients}
use tsidp_operator.Fake.Contract.{fake_http, route_client, route_list, route_discovery}

-- What a reader is told of a client.
abbrev pub shown : Option Client → Result FunnelClient
shown none = err tsidp_not_found
shown (some c) = ok (visible (blank c))

got_missing : got (http_error 404 "not_found" "client not found") ≡ err tsidp_not_found
unfolding got err_from_response http_error nat_eq
got_missing = refl

got_found : (c : Client) → got (json_response 200 (encode_client c)) ≡ ok (visible c)
unfolding got nat_eq
got_found c = rw (decode-encode_client c)

deleted_missing : deleted (http_error 404 "not_found" "client not found") ≡ err tsidp_not_found
unfolding deleted err_from_response http_error nat_eq
deleted_missing = refl

deleted_gone : deleted (record { status = 204; body = Body.absent }) ≡ ok tt
unfolding deleted nat_eq
deleted_gone = refl

-- What `DeleteClient` reports, by what the server held.
abbrev pub removal : Option Client → Result (Unit {0})
removal none = err tsidp_not_found
removal (some c) = ok tt

module _ (now : Text) (c : Tsidp.Client) where
  -- GetClient against the fake, for an id that is not empty, returns the client under it with its
  -- secret blanked, or ErrNotFound if there is none, and changes nothing.
  pub get_client_lem :
      (x : ℕ) (id : Text) (s : Server)
      → get_client (fake_http now) c (x ∷ id) s ≡ (shown (lookup (x ∷ id) s.clients), s)
  unfolding get_client serve_client
  get_client_lem x id s = elim (Option-cases (lookup (x ∷ id) s.clients)) [
    | inl e ↦ rw route_client (ground (arith, got_missing))
    | inr (cl, e) ↦ rw route_client (ground (arith, got_found (blank cl)))
  ]

  -- ListClients against the fake returns every client with its secret blanked, and changes
  -- nothing.
  pub list_clients_lem :
      (s : Server) → list_clients (fake_http now) c s ≡ (ok (listing s.clients), s)
  unfolding list_clients serve_list listed nat_eq
  list_clients_lem s = rw (route_list, decode-encode_clients)

  -- DeleteClient against the fake, for an id that is not empty, removes the client under it, and
  -- reports ErrNotFound if there was none.
  pub delete_client_eq :
      (x : ℕ) (id : Text) (s : Server)
      → delete_client (fake_http now) c (x ∷ id) s
        ≡ (removal (lookup (x ∷ id) s.clients), record s { clients = erase (x ∷ id) s.clients })
  unfolding delete_client serve_client
  delete_client_eq x id s = elim (Option-cases (lookup (x ∷ id) s.clients)) [
    | inl e ↦ rw route_client (ground (arith, deleted_missing, erase_missing (x ∷ id) s.clients))
    | inr (cl, e) ↦ rw route_client (ground (arith, deleted_gone))
  ]

-- The endpoints that the discovery document of the fake names.
abbrev pub metadata : Text → ProviderMetadata
metadata issuer = record {
  issuer = issuer;
  authorization_endpoint = issuer ++ runes "/authorize";
  token_endpoint = issuer ++ runes "/token";
  userinfo_endpoint = issuer ++ runes "/userinfo";
  jwks_uri = issuer ++ runes "/.well-known/jwks.json";
}

abbrev pub metadata_if : Text → Result ProviderMetadata
metadata_if [] = err (errorf "tsidp: discovery document missing issuer" [])
metadata_if (x ∷ issuer) = ok (metadata (x ∷ issuer))

pub metadata_some : (i : Text) → is_empty i ≡ false → metadata_if i ≡ ok (metadata i)
metadata_some [] h = cc
metadata_some (x ∷ i) h = refl

discovered_issuer :
    (issuer : Text) (s : Server)
    → s.issuer ≡ issuer
    → discovered (serve_discovery s).0 ≡ metadata_if issuer
unfolding serve_discovery discovered decode_metadata nat_eq string_eq
discovered_issuer [] s h = ground arith
discovered_issuer (x ∷ iss) s h = ground arith

module _ (now : Text) (c : Tsidp.Client) where
  -- Discovery against the fake returns the issuer and its endpoints, fails if the issuer is empty,
  -- and changes nothing.
  pub discovery_lem : (s : Server) → discovery (fake_http now) c s ≡ (metadata_if s.issuer, s)
  unfolding discovery
  discovery_lem s =
      rw (route_discovery, discovered_issuer s.issuer s refl) (unfold serve_discovery in refl)
