-- ===== src/Tests/Store.antt =====
-- The cluster of `Cluster` keeps the Secret of the object as an API server does.
use tsidp_operator.Prelude.{
  ◌≡◌, inl, inr, refl, ap, ◌∙◌, true, false, Option, none, some, ==_refl, nat_eq, string_eq, ◌==◌,
}
use tsidp_operator.Prelude.Map.{lookup, lookup-insert}
use tsidp_operator.Text.{Text, runes, text_eq}
use tsidp_operator.Fault.{Result, ok, status_error, not_found, is_not_found}
use tsidp_operator.Api.{OidcClient, Secret, OwnerReference, recreate}
use tsidp_operator.Controller.Secrets.{controlled_by}
use tsidp_operator.Controller.Store.{IsRead, or_fresh, RunsStore, CanOwn}
use tsidp_operator.Tests.Cluster.{
  Cluster, cluster, cluster_runs_fake, now, find_secret, fresh_secret, own, first_owner, set_owner,
}
use tsidp_operator.Tests.Objects.{app}

abbrev pub place : Text
place = runes "app-oidc"

pub find_secret-IsRead : (o : Option Secret) → IsRead o (find_secret o)
unfolding is_not_found
find_secret-IsRead none = (status_error not_found, refl, refl)
find_secret-IsRead (some s) = refl

abbrev pub blank_one : Secret
blank_one = fresh_secret (runes "web") place none

fresh_secret-or_fresh :
    (o : Option Secret) → fresh_secret (runes "web") place o ≡ or_fresh blank_one o
fresh_secret-or_fresh none = refl
fresh_secret-or_fresh (some s) = refl

pub cluster-writes :
    (f : Secret → Result Secret) (w : Cluster) (t : Secret)
    → f (or_fresh blank_one (lookup place w.secrets)) ≡ ok t
    → ((cluster.create_or_update (runes "web") place f w).0 ≡ ok tt)
      × ((cluster.create_or_update (runes "web") place f w).1.server ≡ w.server)
      × (lookup place (cluster.create_or_update (runes "web") place f w).1.secrets
          ≡ some (record t { created = true }))
cluster-writes f w t h =
    let q = ap f (fresh_secret-or_fresh (lookup place w.secrets)) ∙ h in
    rw q (
      refl,
      refl,
      lookup-insert place place (record t { created = true }) w.secrets ∙ rw (==_refl place) refl,
    )

abbrev pub store : RunsStore cluster now cluster_runs_fake (runes "web") place
store = record {
  held = λ w. lookup place w.secrets;
  fresh = blank_one;
  stored = λ s. record s { created = true };
  read = λ w. find_secret-IsRead (lookup place w.secrets);
  read_server = λ w. refl;
  read_held = λ w. refl;
  send_held = λ r w. refl;
  emit_held = λ e w. refl;
  fresh_created = refl;
  fresh_owners = refl;
  controller_owners = λ s t e. ap first_owner e;
  stored_contents = λ s. refl;
  stored_controller = λ s. refl;
  writes = cluster-writes;
}

set_owner-owned :
    (oc : OidcClient) (s : Secret) (o : Option OwnerReference)
    → (elim o [ none ↦ false | some r ↦ r.uid == oc.uid ]) ≡ true
    → (t : Secret) × (set_owner oc s o ≡ ok t)
set_owner-owned oc s none h = cc
set_owner-owned oc s (some r) h = (own oc s, rw h refl)

pub app-CanOwn : (id : Text) → CanOwn cluster (app id recreate)
unfolding controlled_by
app-CanOwn id st s (inl e) = (own (record (app id recreate) { status = st }) s, rw e refl)
app-CanOwn id st s (inr e) =
    set_owner-owned (record (app id recreate) { status = st }) s (first_owner s.owners) e
