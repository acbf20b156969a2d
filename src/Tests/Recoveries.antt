-- ===== src/Tests/Recoveries.antt =====
-- Instances of the theorems on passes over a cluster that keeps its Secrets.
use tsidp_operator.Prelude.{ℕ, ◌*◌, ◌≤◌, ◌≡◌, refl, [], ◌∷◌, some, nat_eq, string_eq}
use tsidp_operator.Prelude.Map.{lookup}
use tsidp_operator.Text.{runes, text_eq, is_space, is_control}
use tsidp_operator.Text.Trim.{trim_space}
use tsidp_operator.Text.Order.{slices_equal, sort}
use tsidp_operator.Text.Find.{has_substring, has_prefix, cut_prefix}
use tsidp_operator.Fake.Handlers.{blank, new_client}
use tsidp_operator.Controller.Normal.Fresh.{Delivers, fresh_pass}
use tsidp_operator.Fake.Json.{visible}
use tsidp_operator.Fake.Contract.Register.{registration}
use tsidp_operator.Tsidp.{FunnelClient}
use tsidp_operator.Api.{OidcClient, Secret, recreate}
use tsidp_operator.Controller.Names.{fingerprint, registered_name, secret_name, display_name}
use tsidp_operator.Controller.Secrets.{controlled_by}
use tsidp_operator.Controller.Status.{
  Return, after, second, mark_ready, with_issuer, with_client_id,
}
use tsidp_operator.Controller.Registration.{find_owned, holds_credentials}
use tsidp_operator.Controller.Store.Writes.{Holds}
use tsidp_operator.Controller.Normal.{
  bad_uri, has_bad_rune, drifted, same_string_set, reconcile_normal,
}
use tsidp_operator.Controller.Normal.Steady.{IsServed, steady_pass}
use tsidp_operator.Controller.Normal.Recovery.{adopting_pass, lost_status}
use tsidp_operator.Controller.Normal.Loss.{missing, without}
use tsidp_operator.Controller.Normal.Renewal.{renewal}
use tsidp_operator.Controller.Normal.InPlace.{IsRepairable, repaired, in_place_pass}
use tsidp_operator.Api.{in_place}
use tsidp_operator.Fake.{Server}
use tsidp_operator.Tests.Codes.{admitted}
use tsidp_operator.Tests.Server.{solid, allowed}
use tsidp_operator.Prelude.Map.{erase}
use tsidp_operator.Controller.Normal.Burning.{orphans}
use tsidp_operator.Controller.Normal.Orphans.{passes, next_id, ready_with, passes_converge}
use tsidp_operator.Tests.Cluster.{Cluster, cluster, cluster_runs_fake, cluster-IsLawful, now}
use tsidp_operator.Tests.Objects.{
  app, server, empty_server, client, world, credentials, tsidp, callback,
}
use tsidp_operator.Tests.Store.{place, store, app-CanOwn}

abbrev hour : ℕ
hour = 3600 * second

-- The Secret of the client "c1" in its place.
abbrev kept : Cluster
kept = world server ((place, credentials (runes "c1")) ∷ [])

held : Holds cluster (app (runes "c1") recreate) (runes "c1") (credentials (runes "c1"))
unfolding controlled_by holds_credentials lookup string_eq text_eq
held = record { owned = refl; credentials = refl }

served : IsServed (app (runes "c1") recreate) (runes "c1") server
unfolding lookup text_eq drifted same_string_set registered_name display_name fingerprint blank
    trim_space slices_equal sort
served = record {
  client = client (runes "c1") (runes "App [k8s:web/app/01234567]");
  found = refl;
  undrifted = refl;
}

steady_pass_example :
    ((reconcile_normal cluster tsidp hour (app (runes "c1") recreate) kept).0 ≡ (
      mark_ready cluster (with_issuer (runes "https://idp") (app (runes "c1") recreate)),
      after hour,
    ))
    × ((reconcile_normal cluster tsidp hour (app (runes "c1") recreate) kept).1.server ≡ server)
    × ((t : Secret) × (lookup place
            (reconcile_normal cluster tsidp hour (app (runes "c1") recreate) kept).1.secrets
          ≡ some t)
        × Holds cluster (app (runes "c1") recreate) (runes "c1") t)
unfolding secret_name bad_uri has_bad_rune is_space is_control nat_eq lookup text_eq
steady_pass_example =
    steady_pass cluster now cluster_runs_fake cluster-IsLawful (app (runes "c1") recreate) store
      (app-CanOwn (runes "c1")) tsidp hour kept (credentials (runes "c1"))
      (record { good = refl; issuer = refl; unrenamed = refl }) refl refl served held

-- The client "c1" as a listing shows it.
abbrev listed : FunnelClient
listed = visible (blank (client (runes "c1") (runes "App [k8s:web/app/01234567]")))

adopting_pass_example :
    ((reconcile_normal cluster tsidp hour (app [] recreate) kept).0 ≡ (
      mark_ready cluster
          (with_client_id (runes "c1") (with_issuer (runes "https://idp") (app [] recreate))),
      after hour,
    ))
    × ((reconcile_normal cluster tsidp hour (app [] recreate) kept).1.server ≡ server)
unfolding secret_name bad_uri has_bad_rune is_space is_control nat_eq lookup text_eq find_owned
    fingerprint has_substring has_prefix cut_prefix blank controlled_by drifted registered_name
    display_name
adopting_pass_example =
    adopting_pass cluster now cluster_runs_fake cluster-IsLawful (app [] recreate) store
      (app-CanOwn []) tsidp hour kept listed (credentials (runes "c1"))
      (record { good = refl; issuer = refl; unrenamed = refl }) refl refl refl refl
      (record { owned = held.owned; credentials = held.credentials })
      (record { client = served.client; found = served.found; undrifted = served.undrifted })

-- A pass over the object without a client.
abbrev pass_over : Cluster → (OidcClient × Return) × Cluster
pass_over w = reconcile_normal cluster tsidp hour (app [] recreate) w

abbrev start : Cluster
start = world empty_server []

lost_status_example :
    ((pass_over (pass_over start).1).0 ≡ (pass_over start).0)
    × ((pass_over (pass_over start).1).1.server ≡ (pass_over start).1.server)
    × ((pass_over start).1.server
        ≡ (registration now (registered_name (app [] recreate)) (callback ∷ []) empty_server).1)
unfolding secret_name bad_uri has_bad_rune is_space is_control nat_eq lookup find_owned
lost_status_example =
    lost_status cluster now cluster_runs_fake cluster-IsLawful (app [] recreate) store
      (app-CanOwn []) tsidp hour start callback []
      (record { good = refl; issuer = refl; unrenamed = refl }) refl refl refl tt

-- The server has one client of the object's, and there is no Secret.
passes_converge_example :
    (n : ℕ) × (n ≤ orphans (fingerprint (app [] recreate)) server.clients)
    × ((passes cluster tsidp hour n (app [] recreate) (world server [])).0
        ≡ ready_with cluster now hour (app [] recreate) server callback [])
    × IsServed
        (app [] recreate)
        (next_id now (app [] recreate) server callback [])
        (passes cluster tsidp hour n (app [] recreate) (world server [])).1.server
unfolding secret_name bad_uri has_bad_rune is_space is_control nat_eq lookup
passes_converge_example =
    passes_converge cluster now cluster_runs_fake cluster-IsLawful (app [] recreate) store
      (app-CanOwn []) tsidp hour (world server []) callback []
      (record { good = refl; issuer = refl; unrenamed = refl }) ((refl, refl), ((refl, refl), tt))
      refl refl refl

-- The client "c1" is recorded, and its Secret is missing.
renewal_example :
    ((passes cluster tsidp hour 1 (app (runes "c1") recreate) (world server [])).0
      ≡ ready_with cluster now hour (app (runes "c1") recreate) server callback [])
    × ((passes cluster tsidp hour 1 (app (runes "c1") recreate) (world server [])).1.server
        ≡ (registration now
            (registered_name (app (runes "c1") recreate))
            (callback ∷ [])
            (without (runes "c1") server)).1)
    × ((t : Secret) × (lookup place
            (passes cluster tsidp hour 1 (app (runes "c1") recreate) (world server [])).1.secrets
          ≡ some t)
        × Holds cluster
            (app (runes "c1") recreate)
            (next_id now (app (runes "c1") recreate) server callback [])
            t)
unfolding secret_name bad_uri has_bad_rune is_space is_control nat_eq lookup text_eq erase
    find_owned fingerprint has_substring has_prefix cut_prefix blank
renewal_example =
    renewal cluster now cluster_runs_fake cluster-IsLawful (app (runes "c1") recreate) store
      (app-CanOwn (runes "c1")) tsidp hour (world server []) callback []
      (record { good = refl; issuer = refl; unrenamed = refl }) refl refl
      (missing (client (runes "c1") (runes "App [k8s:web/app/01234567]")) refl) refl

-- The object with the policy InPlace, and its client under an old name.
abbrev gentle : OidcClient
gentle = app (runes "c1") in_place

abbrev old : Server
old = record server {
  clients = (runes "c1", client (runes "c1") (runes "Old [k8s:web/app/01234567]")) ∷ [];
}

abbrev outdated : Cluster
outdated = world old ((place, credentials (runes "c1")) ∷ [])

repairable : IsRepairable gentle old (client (runes "c1") (runes "Old [k8s:web/app/01234567]"))
unfolding lookup text_eq drifted registered_name display_name fingerprint blank trim_space
repairable = record {
  found = refl;
  drift = refl;
  policy = refl;
  some_uris = λ e. cc;
  solid = solid;
  allowed = allowed;
}

in_place_pass_example :
    ((reconcile_normal cluster tsidp hour gentle outdated).0
      ≡ (mark_ready cluster (with_issuer (runes "https://idp") gentle), after hour))
    × ((reconcile_normal cluster tsidp hour gentle outdated).1.server
        ≡ repaired gentle (client (runes "c1") (runes "Old [k8s:web/app/01234567]")) old)
    × IsServed gentle (runes "c1") (reconcile_normal cluster tsidp hour gentle outdated).1.server
    × ((t : Secret) × (lookup place (reconcile_normal cluster tsidp hour gentle outdated).1.secrets
          ≡ some t)
        × Holds cluster gentle (runes "c1") t)
unfolding secret_name bad_uri has_bad_rune is_space is_control nat_eq lookup text_eq controlled_by
in_place_pass_example =
    let a = admitted (runes "c1") in
    in_place_pass cluster now cluster_runs_fake cluster-IsLawful gentle store
      (app-CanOwn (runes "c1")) tsidp hour outdated (credentials (runes "c1"))
      (client (runes "c1") (runes "Old [k8s:web/app/01234567]"))
      (record { good = refl; issuer = refl; unrenamed = refl })
      (record {
        name = a.name;
        name_not_empty = a.name_not_empty;
        namespace = a.namespace;
        uid = a.uid;
        client_name = a.client_name;
      })
      refl refl repairable (record { owned = held.owned; credentials = held.credentials })

fresh_pass_example :
    ((pass_over start).0 ≡ ready_with cluster now hour (app [] recreate) empty_server callback [])
    × ((pass_over start).1.server
        ≡ (registration now (registered_name (app [] recreate)) (callback ∷ []) empty_server).1)
    × ((t : Secret) × (lookup place (pass_over start).1.secrets ≡ some t)
        × Delivers cluster
            (app [] recreate)
            (new_client now (registered_name (app [] recreate)) (callback ∷ []) 1)
            t)
unfolding secret_name bad_uri has_bad_rune is_space is_control nat_eq lookup find_owned
fresh_pass_example =
    fresh_pass cluster now cluster_runs_fake cluster-IsLawful (app [] recreate) store
      (app-CanOwn []) tsidp hour start callback []
      (record { good = refl; issuer = refl; unrenamed = refl }) refl refl tt refl
