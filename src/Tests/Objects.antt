-- ===== src/Tests/Objects.antt =====
-- The objects, the clients and the states that the instances use.
use tsidp_operator.Prelude.{true, false, [], ◌∷◌, none, String}
use tsidp_operator.Prelude.Map.{Map}
use tsidp_operator.Text.{Text, runes}
use tsidp_operator.Tsidp
use tsidp_operator.Tsidp.{ProviderMetadata, FunnelClient}
use tsidp_operator.Fake
use tsidp_operator.Fake.{Server}
use tsidp_operator.Api.{
  OidcClient, OidcClientSpec, OidcClientStatus, ObjectMeta, Secret, SecretTemplate, UpdatePolicy,
  recreate, DeletionPolicy,
}
use tsidp_operator.Controller.Deletion.{finalizer_name, force_remove_finalizer_annotation}
use tsidp_operator.Tests.Cluster.{Cluster, own, now}

abbrev pub tsidp : Tsidp.Client
tsidp = record { base_url = runes "http://localhost:8080" }

abbrev pub callback : Text
callback = runes "https://app.example/cb"

abbrev pub spec : UpdatePolicy → OidcClientSpec
spec p = record {
  client_name = runes "App";
  redirect_uris = callback ∷ [];
  token_endpoint_auth_method = runes "client_secret_basic";
  grant_types = [];
  response_types = [];
  scope = runes "openid";
  client_uri = [];
  logo_uri = [];
  contacts = [];
  application_type = [];
  secret_name = [];
  secret_template = none;
  update_policy = p;
  deletion_policy = DeletionPolicy.deregister;
}

abbrev pub meta : ObjectMeta
meta = record {
  name = runes "app";
  namespace = runes "web";
  uid = runes "0123456789ab";
  generation = 2;
  resource_version = runes "7";
  deleting = false;
  finalizers = finalizer_name ∷ [];
  annotations = [];
}

abbrev pub status : Text → OidcClientStatus
status id = record {
  client_id = id;
  secret_name = [];
  issuer = [];
  observed_generation = 0;
  conditions = [];
}

-- An object with that client recorded.
abbrev pub app : Text → UpdatePolicy → OidcClient
app id p = record { metadata = meta; spec = spec p; status = status id }

-- The same, with the annotation that opens the escape hatch.
abbrev pub forced_app : OidcClient
forced_app = record (app (runes "c1") recreate) {
  metadata = record meta { annotations = (force_remove_finalizer_annotation, "true") ∷ [] };
}

abbrev pub client : Text → Text → Fake.Client
client id name = record {
  client_id = id;
  client_secret = runes "s3cret";
  client_name = name;
  redirect_uris = callback ∷ [];
  created_at = now;
}

abbrev pub empty_server : Server
empty_server = record { issuer = runes "https://idp"; clients = []; next_id = 0 }

-- A server with a client of the object's, and one of nobody's.
abbrev pub server : Server
server = record {
  issuer = runes "https://idp";
  clients =
      (runes "c1", client (runes "c1") (runes "App [k8s:web/app/01234567]"))
      ∷ (runes "c2", client (runes "c2") (runes "Wiki"))
      ∷ [];
  next_id = 0;
}

abbrev pub blank_secret : Secret
blank_secret = record {
  name = runes "app-oidc";
  namespace = runes "web";
  uid = runes "u";
  created = true;
  labels = [];
  annotations = [];
  owners = [];
  contents = [];
}

-- The Secret of the object with the credentials of a client.
abbrev pub credentials : Text → Secret
credentials id = record (own (app id recreate) blank_secret) {
  contents = ("client_id", id) ∷ ("client_secret", runes "s3cret") ∷ [];
}

abbrev pub world : Server → Map Text Secret → Cluster
world s secrets = record { server = s; secrets = secrets; object = none; events = 0; updates = 0 }

abbrev pub metadata : ProviderMetadata
metadata = record {
  issuer = runes "https://idp";
  authorization_endpoint = runes "https://idp/authorize";
  token_endpoint = runes "https://idp/token";
  userinfo_endpoint = runes "https://idp/userinfo";
  jwks_uri = runes "https://idp/.well-known/jwks.json";
}

abbrev pub issued : FunnelClient
issued = record {
  client_id = runes "c9";
  client_secret = runes "s9";
  client_name = runes "App";
  redirect_uris = callback ∷ [];
}

abbrev pub template : Map String String → SecretTemplate
template labels = record { labels = labels; annotations = ("note", "x") ∷ [] }
