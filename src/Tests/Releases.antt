-- ===== src/Tests/Releases.antt =====
-- A cluster that notes whether the finalizer was removed too early, and an instance of the theorem
-- on the order of a deletion.
use tsidp_operator.Prelude.{
  ◌≡◌, refl, Bool, true, false, not, ◌&&◌, ◌||◌, [], ◌==◌, nat_eq, string_eq,
}
use tsidp_operator.Prelude.Map.{lookup}
use tsidp_operator.Text.{runes, text_eq}
use tsidp_operator.Text.Find.{cut_prefix, has_prefix, trim_prefix}
use tsidp_operator.Wire.{delete, Request, Response}
use tsidp_operator.Fault.{Result, ok, err}
use tsidp_operator.Tsidp.Methods.{delete_client, do_request}
use tsidp_operator.Fake.Handlers.{serve_http, serve_client, blank}
use tsidp_operator.Api.{recreate}
use tsidp_operator.Controller.Environment.{Environment}
use tsidp_operator.Controller.Deletion.{reconcile_delete}
use tsidp_operator.Controller.Deletion.Release.{forced, orphaned}
use tsidp_operator.Controller.Deletion.Order.{Gates, released_in_order}
use tsidp_operator.Tests.Cluster.{cluster, now}
use tsidp_operator.Tests.Objects.{app, server, tsidp, world}

-- Whether the client is gone, and whether the object was updated before that.
abbrev Gate : Type 0
Gate = Bool × Bool

-- A tsidp that answers from a fixed server.
abbrev answer : Request → Result Response
answer r = ok (serve_http now r server).0

-- A deletion of the client "c1" was answered with 204 or 404.
abbrev confirms : Request → Result Response → Bool
confirms r (err e) = false
confirms r (ok a) =
    elim r.method [ delete ↦ true | _ ↦ false ]
    && r.path == runes "/clients/c1"
    && (a.status == 204 || a.status == 404)

abbrev gated : Environment
gated = record {
  World = Gate;
  send = λ r w. (answer r, (confirms r (answer r) || w.0, w.1));
  get_object = λ ns name w. (ok (app (runes "c1") recreate), w);
  update_object = λ oc w. (ok oc, (w.0, not w.0 || w.1));
  update_status = λ oc w. (ok oc, w);
  delete_secret = λ s uid w. (ok tt, w);
  create_or_update = λ ns name f w. (ok tt, w);
  read_secret = λ ns name w. ((cluster.read_secret ns name (world server [])).0, w);
  emit = λ e w. w;
  contains_finalizer = cluster.contains_finalizer;
  add_finalizer = cluster.add_finalizer;
  remove_finalizer = cluster.remove_finalizer;
  set_controller_reference = cluster.set_controller_reference;
  controller_of = cluster.controller_of;
  set_status_condition = cluster.set_status_condition;
  marshal_keys = cluster.marshal_keys;
  unmarshal_keys = cluster.unmarshal_keys;
}

-- The object was not updated before the client was gone.
abbrev IsTimely : Gate → Type 0
IsTimely w = w.1 ≡ false

abbrev IsCleared : Gate → Type 0
IsCleared w = w.0 ≡ true

IsTimely-Gates : Gates gated tsidp (app (runes "c1") recreate) IsTimely IsCleared
unfolding string_eq lookup text_eq nat_eq serve_http serve_client delete_client do_request
    trim_prefix cut_prefix has_prefix blank
IsTimely-Gates = record {
  by_send = λ r w h. h;
  by_event = λ e w h. h;
  stays = λ e w h. h;
  exempt = λ x w. elim x [ forced v p ↦ cc | orphaned p ↦ cc ];
  gone = λ w p. refl;
  by_release = λ w d h. rw (d, h) refl;
}

released_in_order_example :
    IsTimely (reconcile_delete gated tsidp (app (runes "c1") recreate) (false, false)).1
released_in_order_example =
    released_in_order gated tsidp (app (runes "c1") recreate) IsTimely IsCleared IsTimely-Gates
      (false, false) refl refl
