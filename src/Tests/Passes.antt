-- ===== src/Tests/Passes.antt =====
-- Instances of the theorems on passes of the reconciler.
use tsidp_operator.Prelude.{
  ℕ, ◌*◌, subst, ◌≡◌, ◌≢◌, ◌⊎◌, inl, refl, true, [], none, some, All, arith, nat_eq, string_eq,
}
use tsidp_operator.Prelude.Map.{lookup}
use tsidp_operator.Text.{Text, runes, text_eq}
use tsidp_operator.Text.Find.{has_substring}
use tsidp_operator.Api.{recreate, block}
use tsidp_operator.Controller.Names.{fingerprint}
use tsidp_operator.Controller.Secrets.{controlled_by}
use tsidp_operator.Controller.Status.{after, err_backoff, second}
use tsidp_operator.Controller.Registration.{holds_credentials}
use tsidp_operator.Controller.Normal.{reconcile_normal}
use tsidp_operator.Controller.Normal.Identity.{recorded_client}
use tsidp_operator.Controller.Normal.Quiet.{IsSettled, settled_pass}
use tsidp_operator.Controller.Normal.Foreign.{IsSquatted, foreign_secret_pass}
use tsidp_operator.Controller.Deletion.{reconcile_delete, release, deregister}
use tsidp_operator.Controller.Deletion.Release.{unreachable_delete}
use tsidp_operator.Controller.Deletion.Sweep.{deregister-swept, IsGone}
use tsidp_operator.Controller.Deletion.Completion.{deregistered, deletion_completes}
use tsidp_operator.Api.{OidcClient}
use tsidp_operator.Tests.Objects.{meta}
use tsidp_operator.Controller.Secrets.{}
use tsidp_operator.Prelude.{nat_eq}
use tsidp_operator.Controller.Reconcile.{reconcile}
use tsidp_operator.Controller.Reconcile.Writes.{reconcile_observed}
use tsidp_operator.Tests.Cluster.{scribe, AllObserved, AllObserved-KeptByReconcile}
use tsidp_operator.Tests.Cluster.{Cluster}
use tsidp_operator.Fake.{Client}
use tsidp_operator.Fake.Handlers.{blank}
use tsidp_operator.Tsidp.{FunnelClient}
use tsidp_operator.Fake.Json.{listing}
use tsidp_operator.Tests.Cluster.{
  cluster, dark, recorder, OnlyReads, OnlyReads-KeptByReads, OnlyReads-KeptBySecrets, NoUpdates,
  NoUpdates-KeptByTsidp, dark-IsDown, cluster_runs_fake, now,
}
use tsidp_operator.Tests.Objects.{
  tsidp, app, empty_server, server, world, credentials, blank_secret,
}

abbrev hour : ℕ
hour = 3600 * second

recorded_client_example :
    ((reconcile_normal cluster tsidp hour
        (app (runes "c1") recreate)
        (world server [])).0.0.status.client_id
      ≡ runes "c1")
    ⊎ ((reconcile_normal cluster tsidp hour
          (app (runes "c1") recreate)
          (world server [])).0.0.status.client_id
        ≡ [])
recorded_client_example =
    recorded_client cluster tsidp hour (app (runes "c1") recreate) (world server []) refl

squatted : IsSquatted (recorder empty_server blank_secret) (app [] recreate)
unfolding controlled_by
squatted = record { unknown = refl; there = λ w e h. cc; foreign = λ w s h. ground arith }

foreign_secret_pass_example :
    OnlyReads
      (reconcile_normal (recorder empty_server blank_secret) tsidp hour (app [] recreate) []).1
foreign_secret_pass_example =
    foreign_secret_pass (recorder empty_server blank_secret) tsidp hour OnlyReads
      (OnlyReads-KeptByReads empty_server blank_secret) (app [] recreate) [] squatted tt

held : holds_credentials (runes "c1") (credentials (runes "c1")) ≡ true
unfolding holds_credentials lookup string_eq text_eq
held = refl

settled : IsSettled (recorder server (credentials (runes "c1"))) tsidp (app (runes "c1") block)
settled = record {
  known = refl;
  there = λ w e h. cc;
  intact = λ w s h.
      let e : credentials (runes "c1") ≡ s = cc (h) in
      subst (λ t. holds_credentials (runes "c1") t ≡ true) e held;
  calm = inl refl;
}

settled_pass_example :
    OnlyReads
      (reconcile_normal
        (recorder server (credentials (runes "c1")))
        tsidp
        hour
        (app (runes "c1") block)
        []).1
settled_pass_example =
    settled_pass (recorder server (credentials (runes "c1"))) tsidp hour OnlyReads
      (OnlyReads-KeptByReads server (credentials (runes "c1")))
      (OnlyReads-KeptBySecrets server (credentials (runes "c1"))) (app (runes "c1") block) []
      settled tt

unreachable_delete_example :
    ((reconcile_delete dark tsidp (app (runes "c1") recreate) (world server [])).0
      ≡ after err_backoff)
    × NoUpdates (reconcile_delete dark tsidp (app (runes "c1") recreate) (world server [])).1
unfolding string_eq lookup
unreachable_delete_example =
    unreachable_delete dark tsidp dark-IsDown NoUpdates NoUpdates-KeptByTsidp
      (app (runes "c1") recreate) (world server []) refl refl (λ e. cc) refl

deregister-swept_example :
    ((deregister cluster tsidp (app [] recreate) (world server [])).0 ≡ none)
    × ((id : Text) (cl : Client)
        → lookup id server.clients ≡ some cl
        → cl.client_id ≡ id
        → has_substring cl.client_name (fingerprint (app [] recreate)) ≡ true
        → IsGone id (deregister cluster tsidp (app [] recreate) (world server [])).1.server)
    × ((id : Text)
        → All
            (λ (x : FunnelClient).
              has_substring x.client_name (fingerprint (app [] recreate)) ≡ true → x.client_id ≢ id)
            (listing server.clients)
        → lookup id (deregister cluster tsidp (app [] recreate) (world server [])).1.server.clients
          ≡ lookup id server.clients)
unfolding blank
deregister-swept_example =
    deregister-swept cluster now cluster_runs_fake tsidp (app [] recreate) (world server []) refl
      (refl, (refl, tt))

reconcile_observed_example :
    AllObserved (reconcile (scribe (app [] recreate)) tsidp hour (runes "web") (runes "app") []).1
reconcile_observed_example =
    reconcile_observed (scribe (app [] recreate)) tsidp hour AllObserved
      (AllObserved-KeptByReconcile (app [] recreate)) (runes "web") (runes "app") [] tt

-- The object that records the client "c1", marked for deletion.
abbrev marked_app : OidcClient
marked_app = record (app (runes "c1") recreate) { metadata = record meta { deleting = true } }

abbrev parting : Cluster
parting = record (world server []) { object = some marked_app }

deletion_completes_example :
    (v : Cluster) × (reconcile cluster tsidp hour (runes "web") (runes "app") parting
      ≡ release cluster tsidp marked_app v)
    × (v.server ≡ deregistered marked_app server)
unfolding lookup string_eq blank
deletion_completes_example =
    deletion_completes cluster now cluster_runs_fake tsidp marked_app hour (runes "web")
      (runes "app") parting parting
      (record {
        read = refl;
        deleting = refl;
        finalizer = refl;
        unforced = refl;
        deregisters = λ e. cc;
      })
      (refl, (refl, tt))
