-- ===== src/Tests/Server.antt =====
-- Instances of the theorems on tsidp's client and on the fake.
use mathlib.Core.List.{Perm}
use tsidp_operator.Prelude.{◌≡◌, ◌↔◌, refl, ap, true, false, [], ◌∷◌, some, nat_eq, string_eq}
use tsidp_operator.Prelude.Map.{lookup, insert}
use tsidp_operator.Text.{runes, text_eq, is_space, lower}
use tsidp_operator.Text.Find.{has_substring}
use tsidp_operator.Text.Lines.{AllSolid}
use tsidp_operator.Wire.{Body, post}
use tsidp_operator.Fault.{ok}
use tsidp_operator.Tsidp.{FunnelClient, RegistrationRequest}
use tsidp_operator.Tsidp.Codec.{decode_client, encode_registration}
use tsidp_operator.Tsidp.Methods.{same_set, register, update_client}
use tsidp_operator.Fake.Handlers.{
  serve_http, new_server, new_client, encode_client, any_rejected, edit_rejects,
}
use tsidp_operator.Fake.Json.{visible, decode-encode_client}
use tsidp_operator.Fake.Invariant.{IsValid, init-IsValid, serve_http-IsValid}
use tsidp_operator.Fake.Contract.{fake_http, request}
use tsidp_operator.Fake.Contract.Register.{registration, register_lem}
use tsidp_operator.Fake.Contract.Edit.{same_set_iff, renamed, update_client-accepted}
use tsidp_operator.Api.{recreate}
use tsidp_operator.Controller.Names.{registered_name}
use tsidp_operator.Controller.Registration.{registration_request}
use tsidp_operator.Tests.Cluster.{now}
use tsidp_operator.Tests.Objects.{tsidp, app, callback, client, empty_server, server}

same_set_iff_example :
    (same_set (runes "a" ∷ runes "b" ∷ []) (runes "b" ∷ runes "a" ∷ []) ≡ true)
    ↔ Perm (runes "a" ∷ runes "b" ∷ []) (runes "b" ∷ runes "a" ∷ [])
same_set_iff_example = same_set_iff (runes "a" ∷ runes "b" ∷ []) (runes "b" ∷ runes "a" ∷ [])

abbrev wanted : RegistrationRequest
wanted = registration_request (app [] recreate)

register_lem_example :
    register (fake_http now) tsidp wanted server
    ≡ registration now wanted.client_name wanted.redirect_uris server
unfolding registration_request
register_lem_example = register_lem now tsidp wanted server

new_server-IsValid : IsValid empty_server
unfolding new_server
new_server-IsValid = init-IsValid (runes "https://idp")

serve_http-IsValid_example :
    IsValid
      (serve_http now
        (request post
          (runes "http://localhost:8080")
          (runes "/register")
          "application/json"
          (Body.json (encode_registration wanted)))
        empty_server).1
serve_http-IsValid_example =
    serve_http-IsValid now
      (request post (runes "http://localhost:8080") (runes "/register") "application/json"
        (Body.json (encode_registration wanted)))
      empty_server new_server-IsValid

decode-encode_client_example :
    decode_client (encode_client (client (runes "c1") (runes "App")))
    ≡ some (visible (client (runes "c1") (runes "App")))
decode-encode_client_example = decode-encode_client (client (runes "c1") (runes "App"))

pub solid : AllSolid (callback ∷ [])
unfolding is_space nat_eq
solid = record {
  no_space = (
    (
      refl,
      (
        refl,
        (
          refl,
          (
            refl,
            (
              refl,
              (
                refl,
                (
                  refl,
                  (
                    refl,
                    (
                      refl,
                      (
                        refl,
                        (
                          refl,
                          (
                            refl,
                            (
                              refl,
                              (
                                refl,
                                (refl, (refl, (refl, (refl, (refl, (refl, (refl, (refl, tt)))))))),
                              ),
                            ),
                          ),
                        ),
                      ),
                    ),
                  ),
                ),
              ),
            ),
          ),
        ),
      ),
    ),
    tt,
  );
  not_empty = (refl, tt);
}

pub allowed : any_rejected (callback ∷ []) ≡ false
unfolding any_rejected lower nat_eq has_substring edit_rejects
allowed = refl

found : lookup (runes "c2") server.clients ≡ some (client (runes "c2") (runes "Wiki"))
unfolding lookup text_eq
found = refl

update_client-accepted_example :
    update_client (fake_http now) tsidp (runes "c2") (runes "Docs") (callback ∷ []) server ≡ (
      ok tt,
      record server {
        clients =
            insert
              (runes "c2")
              (renamed (runes "Docs") (callback ∷ []) (client (runes "c2") (runes "Wiki")))
              server.clients;
      },
    )
update_client-accepted_example =
    update_client-accepted now tsidp 0x63 (runes "2") (runes "Docs") callback [] server
      (client (runes "c2") (runes "Wiki")) found solid allowed

-- The edit that the next two instances are about.
accepted :
    (update_client (fake_http now) tsidp (runes "c2") (runes "Docs") (callback ∷ []) server).0
    ≡ ok tt
accepted =
    ap (λ r. r.0)
      (update_client-accepted now tsidp 0x63 (runes "2") (runes "Docs") callback [] server
        (client (runes "c2") (runes "Wiki")) found solid allowed)

repaired :
    (update_client
      (fake_http now)
      tsidp
      (runes "c2")
      (registered_name (app (runes "c2") recreate))
      (callback ∷ [])
      server).0
    ≡ ok tt
repaired =
    ap (λ r. r.0)
      (update_client-accepted now tsidp 0x63 (runes "2")
        (registered_name (app (runes "c2") recreate)) callback [] server
        (client (runes "c2") (runes "Wiki")) found solid allowed)

abbrev registered : FunnelClient
registered = visible (new_client now (registered_name (app [] recreate)) (callback ∷ []) 1)

registration_made : (register (fake_http now) tsidp wanted server).0 ≡ ok registered
unfolding registration_request
registration_made = ap (λ r. r.0) (register_lem now tsidp wanted server)
