-- ===== src/Tests/RoundTrip.antt =====
-- An object is registered in an empty tsidp, and then deleted.
use tsidp_operator.Prelude.{ℕ, ◌*◌, ◌≡◌, refl, [], some, nat_eq, string_eq, true}
use tsidp_operator.Prelude.Map.{lookup}
use tsidp_operator.Text.{runes, text_eq, is_space, is_control}
use tsidp_operator.Api.{OidcClient, recreate}
use tsidp_operator.Controller.Names.{secret_name}
use tsidp_operator.Controller.Status.{second}
use tsidp_operator.Controller.Registration.{find_owned}
use tsidp_operator.Controller.Normal.{bad_uri, has_bad_rune, reconcile_normal}
use tsidp_operator.Controller.Deletion.{release}
use tsidp_operator.Controller.Deletion.RoundTrip.{registered_deleted}
use tsidp_operator.Controller.Reconcile.{reconcile}
use tsidp_operator.Fake.Handlers.{new_server}
use tsidp_operator.Fake.Invariant.{init-IsValid}
use tsidp_operator.Tests.Cluster.{Cluster, cluster, cluster_runs_fake, cluster-IsLawful, now}
use tsidp_operator.Tests.Objects.{app, meta, empty_server, world, tsidp, callback}
use tsidp_operator.Tests.Store.{store, app-CanOwn}

abbrev hour : ℕ
hour = 3600 * second

abbrev start : Cluster
start = world empty_server []

-- The object as the pass leaves it, marked for deletion, in the cluster that the pass leaves.
abbrev leaving : OidcClient
leaving = record (reconcile_normal cluster tsidp hour (app [] recreate) start).0.0 {
  metadata = record meta { deleting = true };
  spec = (app [] recreate).spec;
}

abbrev later : Cluster
later = record (reconcile_normal cluster tsidp hour (app [] recreate) start).1 {
  object = some leaving;
}

registered_deleted_example :
    (v : Cluster) × (reconcile cluster tsidp hour (runes "web") (runes "app") later
      ≡ release cluster tsidp leaving v)
    × (v.server.clients ≡ [])
unfolding secret_name bad_uri has_bad_rune is_space is_control nat_eq lookup string_eq find_owned
    new_server
registered_deleted_example =
    registered_deleted cluster now cluster_runs_fake cluster-IsLawful (app [] recreate) store
      (app-CanOwn []) tsidp hour start callback []
      (record { good = refl; issuer = refl; unrenamed = refl }) (init-IsValid (runes "https://idp"))
      refl refl tt refl leaving (runes "web") (runes "app") later later
      (record {
        read = refl;
        deleting = refl;
        finalizer = refl;
        unforced = refl;
        deregisters = λ e. cc;
      })
      refl refl
