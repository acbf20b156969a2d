-- ===== src/Fake/Contract.antt =====
-- The operator's client against the fake: what each method of internal/tsidp/client.go does to the
-- server's clients, through the requests and the responses.
pub mod Reads
pub mod Register
pub mod Edit
use tsidp_operator.Prelude.{ℕ, ◌≡◌, refl, List, [], ◌∷◌, ◌++◌, String}
use tsidp_operator.Text.{Text, text_eq, runes}
use tsidp_operator.Text.Find.{has_prefix, trim_prefix, cut_prefix}
use tsidp_operator.Wire.{Method, get, post, delete, Body, Request, Response}
use tsidp_operator.Fault.{ok}
use tsidp_operator.Transport.{Http}
use tsidp_operator.Fake.{Client, Server}
use tsidp_operator.Fake.Handlers.{
  serve_http, serve_register, serve_discovery, serve_list, serve_client, serve_edit,
}

-- The transport that carries each request to the fake, at a fixed time.
abbrev pub fake_http : Text → Http
fake_http now = record {
  World = Server;
  send = λ r s. (ok (serve_http now r s).0, (serve_http now r s).1);
}

abbrev pub request : Method → Text → Text → String → Body → Request
request m base path ct b = record {
  method = m;
  base_url = base;
  path = path;
  content_type = ct;
  body = b;
}

module _ (now base : Text) (ct : String) (b : Body) (m : Method) (s : Server) where
  route_register :
      serve_http now (request m base (runes "/register") ct b) s
      ≡ serve_register now (request m base (runes "/register") ct b) s
  unfolding serve_http text_eq
  route_register = refl

  route_list :
      serve_http now (request m base (runes "/clients/") ct b) s
      ≡ serve_list (request m base (runes "/clients/") ct b) s
  unfolding serve_http text_eq
  route_list = refl

  route_discovery :
      serve_http now (request m base (runes "/.well-known/openid-configuration") ct b) s
      ≡ serve_discovery s
  unfolding serve_http text_eq
  route_discovery = refl

  route_client :
      (c : ℕ) (id : Text)
      → serve_http now (request m base (runes "/clients/" ++ (c ∷ id)) ct b) s
        ≡ serve_client (request m base (runes "/clients/" ++ (c ∷ id)) ct b) (c ∷ id) s
  unfolding serve_http text_eq has_prefix trim_prefix
  route_client c id = refl

  route_edit :
      (id : Text)
      → serve_http now (request m base (runes "/edit/" ++ id) ct b) s
        ≡ serve_edit (request m base (runes "/edit/" ++ id) ct b) id s
  unfolding serve_http text_eq has_prefix trim_prefix
  route_edit id = refl
