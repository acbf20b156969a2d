-- ===== src/Tsidp.antt =====
-- internal/tsidp/client.go: the client of tsidp's HTTP API. Its data stand here, its JSON in
-- `Codec`, and its methods in `Methods`.
pub mod Codec
pub mod Methods
use tsidp_operator.Prelude.{List}
use tsidp_operator.Text.{Text}

pub record FunnelClient : Type 0 where
  pub client_id : Text
  pub client_secret : Text
  pub client_name : Text
  pub redirect_uris : List Text

pub record RegistrationRequest : Type 0 where
  pub redirect_uris : List Text
  pub token_endpoint_auth_method : Text
  pub grant_types : List Text
  pub response_types : List Text
  pub client_name : Text
  pub client_uri : Text
  pub logo_uri : Text
  pub scope : Text
  pub contacts : List Text
  pub application_type : Text

pub record ProviderMetadata : Type 0 where
  pub issuer : Text
  pub authorization_endpoint : Text
  pub token_endpoint : Text
  pub userinfo_endpoint : Text
  pub jwks_uri : Text

-- `Client`. Which `http.Client` carries the requests is the transport's.
pub record Client : Type 0 where
  pub base_url : Text
