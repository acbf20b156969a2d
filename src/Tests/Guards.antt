-- ===== src/Tests/Guards.antt =====
-- Instances of the theorems on the ends of a pass, on the life of an object and on `Reconcile`.
use tsidp_operator.Prelude.{
  ℕ, ◌*◌, ◌≡◌, refl, sym, subst, Bool, true, false, List, [], ◌∷◌, All, contains, string_eq,
}
use tsidp_operator.Text.{runes}
use tsidp_operator.Fault.{ok, err, opaque, status_error, not_found, is_not_found}
use tsidp_operator.Fake.Handlers.{new_server, serve_http}
use tsidp_operator.Api.{OidcClient, recreate}
use tsidp_operator.Controller.Environment.{Environment, IsLawful}
use tsidp_operator.Controller.Status.{second, handle}
use tsidp_operator.Controller.Normal.{reconcile_normal}
use tsidp_operator.Controller.Normal.Verdict.{Verdict, pass-Verdict}
use tsidp_operator.Controller.Deletion.{finalizer_name}
use tsidp_operator.Controller.Reconcile.{reconcile}
use tsidp_operator.Controller.Reconcile.Finalizer.{Guards, reconcile_guarded}
use tsidp_operator.Controller.Reconcile.Errors.{Refused, reconcile_error}
use tsidp_operator.Tests.Cluster.{cluster, cluster-IsLawful, now}
use tsidp_operator.Tests.Objects.{app, empty_server, world, tsidp}

abbrev hour : ℕ
hour = 3600 * second

pass-Verdict_example :
    Verdict hour
      (app [] recreate)
      (reconcile_normal cluster tsidp hour (app [] recreate) (world empty_server [])).0.0
      (reconcile_normal cluster tsidp hour (app [] recreate) (world empty_server [])).0.1
pass-Verdict_example =
    pass-Verdict cluster cluster-IsLawful tsidp hour (app [] recreate) (world empty_server [])

-- Whether the stored object carries the finalizer, and whether it did at each request.
abbrev Watch : Type 0
Watch = Bool × List Bool

-- A cluster with one object, which no Secret and no client belongs to.
abbrev watched : OidcClient → Environment
watched oc = record {
  World = Watch;
  send = λ r w. (ok (serve_http now r (new_server (runes "https://idp"))).0, (w.0, w.0 ∷ w.1));
  get_object = λ ns name w. (ok oc, (contains oc.finalizers finalizer_name, w.1));
  update_object = λ o w. (ok o, (contains o.finalizers finalizer_name, w.1));
  update_status = λ o w. (ok o, w);
  delete_secret = λ s uid w. (ok tt, w);
  create_or_update = λ ns name f w. (ok tt, w);
  read_secret = λ ns name w. (err (status_error not_found), w);
  emit = λ e w. w;
  contains_finalizer = cluster.contains_finalizer;
  add_finalizer = cluster.add_finalizer;
  remove_finalizer = cluster.remove_finalizer;
  set_controller_reference = cluster.set_controller_reference;
  controller_of = cluster.controller_of;
  set_status_condition = cluster.set_status_condition;
  marshal_keys = cluster.marshal_keys;
  unmarshal_keys = cluster.unmarshal_keys;
}

watched-IsLawful : (oc : OidcClient) → IsLawful (watched oc)
watched-IsLawful oc = record {
  contains-remove = cluster-IsLawful.contains-remove;
  contains-add = cluster-IsLawful.contains-add;
  find-set = cluster-IsLawful.find-set;
  sets_owner = cluster-IsLawful.sets_owner;
  owner_set = cluster-IsLawful.owner_set;
  unmarshal-marshal = cluster-IsLawful.unmarshal-marshal;
}

-- At each request the stored object carried the finalizer.
abbrev AllGuarded : Watch → Type 0
AllGuarded w = All (λ b. b ≡ true) w.1

abbrev Guarded : Watch → Type 0
Guarded w = w.0 ≡ true

watched-Guards : (oc : OidcClient) → Guards (watched oc) AllGuarded Guarded
watched-Guards oc = record {
  calls = record {
    reads = record {
      by_get = λ r w e h. (h.0, (h.0, h.1));
      by_read = λ ns name w h. h;
      by_event = λ e w h. h;
    };
    secrets = record { by_upsert = λ ns name f w h. h; by_delete = λ s uid w h. h };
    by_send = λ r w h. (h.0, (h.0, h.1));
  };
  by_get = λ ns name w h. h;
  found = λ ns name w oc' p h.
      let e : oc ≡ oc' = cc in
      subst (λ (o : OidcClient). contains o.finalizers finalizer_name ≡ true) (sym e) h;
  by_update = λ o w h. h;
  stored = λ o o' w p h. h;
  by_status = λ o w h. h;
}

-- The object without its finalizer.
abbrev unfinalized : OidcClient
unfinalized = record (app [] recreate) {
  metadata = record (app [] recreate).metadata { finalizers = [] };
}

reconcile_guarded_example :
    AllGuarded
      (reconcile (watched unfinalized) tsidp hour (runes "web") (runes "app") (false, [])).1
reconcile_guarded_example =
    reconcile_guarded (watched unfinalized) (watched-IsLawful unfinalized) tsidp hour AllGuarded
      Guarded (watched-Guards unfinalized) (runes "web") (runes "app") (false, []) tt

-- The cluster while its API server cannot be reached.
abbrev cut_off : Environment
cut_off = record cluster { get_object = λ ns name w. (err (opaque "connection refused"), w) }

reconcile_error_example : Refused cut_off (opaque "connection refused")
unfolding reconcile handle is_not_found
reconcile_error_example =
    reconcile_error cut_off tsidp hour (runes "web") (runes "app") (world empty_server [])
      (opaque "connection refused") refl
