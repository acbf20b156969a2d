-- ===== src/Tests/Cluster.antt =====
-- A cluster of one object and some Secrets, with the fake as its tsidp. Its events are counted.
use tsidp_operator.Prelude.{
  ℕ, suc, ◌≡◌, refl, true, false, List, [], ◌∷◌, All, Option, none, some, String, ◌==◌, string_eq,
  if◌then◌else◌, contains, arith, ==_refl,
}
use tsidp_operator.Prelude.Map.{Map, lookup, insert, erase}
use tsidp_operator.Text.{Text, runes, text_eq}
use tsidp_operator.Wire.{get, Request}
use tsidp_operator.Fault.{is_tsidp_not_found, Result, ok, err, status_error, not_found, errorf}
use tsidp_operator.Fake.{Server}
use tsidp_operator.Fake.Handlers.{new_server, serve_http}
use tsidp_operator.Api.{OidcClient, Secret, OwnerReference}
use tsidp_operator.Controller.Environment.{Environment, IsLawful}
use tsidp_operator.Controller.Deletion.Sweep.{RunsFake}
use tsidp_operator.Controller.Reconcile.Writes.{KeptByReconcile}
use tsidp_operator.Controller.Normal.Frame.{KeptByReads, KeptBySecrets}
use tsidp_operator.Controller.Deletion.Release.{KeptByTsidp, IsDown}
use tsidp_operator.Tests.Keys.{print_keys, parse_keys, parse_keys-print_keys}

pub record Cluster : Type 0 where
  pub server : Server
  pub secrets : Map Text Secret
  pub object : Option OidcClient
  pub events : ℕ
  pub updates : ℕ

abbrev pub now : Text
now = runes "2026-01-01T00:00:00Z"

abbrev find_object : Option OidcClient → Result OidcClient
find_object none = err (status_error not_found)
find_object (some oc) = ok oc

abbrev pub find_secret : Option Secret → Result Secret
find_secret none = err (status_error not_found)
find_secret (some s) = ok s

abbrev pub fresh_secret : Text → Text → Option Secret → Secret
fresh_secret ns name none = record {
  name = name;
  namespace = ns;
  uid = [];
  created = false;
  labels = [];
  annotations = [];
  owners = [];
  contents = [];
}
fresh_secret ns name (some s) = s

abbrev pub write_secret : Text → Cluster → Result Secret → Result (Unit {0}) × Cluster
write_secret name w (err e) = (err e, w)
write_secret name w (ok s) =
    (ok tt, record w { secrets = insert name (record s { created = true }) w.secrets })

abbrev owner : OidcClient → OwnerReference
owner oc = record { kind = runes "OIDCClient"; name = oc.name; uid = oc.uid; controller = true }

abbrev pub first_owner : List OwnerReference → Option OwnerReference
first_owner [] = none
first_owner (r ∷ rs) = some r

abbrev pub own : OidcClient → Secret → Secret
own oc s = record s { owners = owner oc ∷ [] }

abbrev pub set_owner : OidcClient → Secret → Option OwnerReference → Result Secret
set_owner oc s none = ok (own oc s)
set_owner oc s (some r) =
    if r.uid == oc.uid then ok (own oc s) else err (errorf "already owned by another controller" [])

abbrev remove_all : List String → String → List String
remove_all [] f = []
remove_all (g ∷ fs) f = let rest = remove_all fs f in if f == g then rest else g ∷ rest

abbrev pub cluster : Environment
cluster = record {
  World = Cluster;
  send = λ r w.
      (ok (serve_http now r w.server).0, record w { server = (serve_http now r w.server).1 });
  get_object = λ ns name w. (find_object w.object, w);
  update_object = λ oc w. (ok oc, record w { object = some oc; updates = suc w.updates });
  update_status = λ oc w. (ok oc, record w { object = some oc; updates = suc w.updates });
  delete_secret = λ s uid w. (ok tt, record w { secrets = erase s.name w.secrets });
  create_or_update =
      λ ns name f w. write_secret name w (f (fresh_secret ns name (lookup name w.secrets)));
  read_secret = λ ns name w. (find_secret (lookup name w.secrets), w);
  emit = λ e w. record w { events = suc w.events };
  contains_finalizer = contains;
  add_finalizer = λ fs f. if contains fs f then fs else f ∷ fs;
  remove_finalizer = remove_all;
  set_controller_reference = λ oc s. set_owner oc s (first_owner s.owners);
  controller_of = λ s. first_owner s.owners;
  set_status_condition = λ cs c. c ∷ cs;
  marshal_keys = print_keys;
  unmarshal_keys = parse_keys;
}

-- The same cluster with no tsidp.
abbrev pub dark : Environment
dark = record cluster { send = λ r w. (err (errorf "connection refused" []), w) }

-- A tsidp that answers from a fixed server, and a Secret that is always there; the world is the list
-- of the requests that were sent.
abbrev pub recorder : Server → Secret → Environment
recorder v s = record {
  World = List Request;
  send = λ r w. (ok (serve_http now r v).0, r ∷ w);
  get_object = λ ns name w. (err (status_error not_found), w);
  update_object = λ oc w. (ok oc, w);
  update_status = λ oc w. (ok oc, w);
  delete_secret = λ s uid w. (ok tt, w);
  create_or_update = λ ns name f w. (ok tt, w);
  read_secret = λ ns name w. (ok s, w);
  emit = λ e w. w;
  contains_finalizer = contains;
  add_finalizer = λ fs f. if contains fs f then fs else f ∷ fs;
  remove_finalizer = remove_all;
  set_controller_reference = λ oc s. set_owner oc s (first_owner s.owners);
  controller_of = λ s. first_owner s.owners;
  set_status_condition = λ cs c. c ∷ cs;
  marshal_keys = print_keys;
  unmarshal_keys = parse_keys;
}

-- A cluster with one object, where no Secret is found; the world is the list of the objects whose
-- status was written.
abbrev pub scribe : OidcClient → Environment
scribe oc = record {
  World = List OidcClient;
  send = λ r w. (ok (serve_http now r (new_server (runes "https://idp"))).0, w);
  get_object = λ ns name w. (ok oc, w);
  update_object = λ oc w. (ok oc, w);
  update_status = λ oc w. (ok oc, oc ∷ w);
  delete_secret = λ s uid w. (ok tt, w);
  create_or_update = λ ns name f w. (ok tt, w);
  read_secret = λ ns name w. (err (status_error not_found), w);
  emit = λ e w. w;
  contains_finalizer = contains;
  add_finalizer = λ fs f. if contains fs f then fs else f ∷ fs;
  remove_finalizer = remove_all;
  set_controller_reference = λ oc s. set_owner oc s (first_owner s.owners);
  controller_of = λ s. first_owner s.owners;
  set_status_condition = λ cs c. c ∷ cs;
  marshal_keys = print_keys;
  unmarshal_keys = parse_keys;
}

-- Each of them had observed its generation.
abbrev pub AllObserved : List OidcClient → Type 0
AllObserved w = All (λ (oc : OidcClient). oc.status.observed_generation ≡ oc.generation) w

pub AllObserved-KeptByReconcile : (oc : OidcClient) → KeptByReconcile (scribe oc) AllObserved
AllObserved-KeptByReconcile oc = record {
  calls = record {
    reads = record { by_get = λ r w e h. h; by_read = λ ns name w h. h; by_event = λ e w h. h };
    secrets = record { by_upsert = λ ns name f w h. h; by_delete = λ s uid w h. h };
    by_send = λ r w h. h;
  };
  by_get_object = λ ns name w h. h;
  by_update_object = λ oc' w h. h;
  by_update_status = λ oc' w e h. (e, h);
}

-- Every request was a read.
abbrev pub OnlyReads : List Request → Type 0
OnlyReads w = All (λ (r : Request). r.method ≡ get) w

pub OnlyReads-KeptByReads : (v : Server) (s : Secret) → KeptByReads (recorder v s) OnlyReads
OnlyReads-KeptByReads v s = record {
  by_get = λ r w e h. (e, h);
  by_read = λ ns name w h. h;
  by_event = λ e w h. h;
}

pub OnlyReads-KeptBySecrets : (v : Server) (s : Secret) → KeptBySecrets (recorder v s) OnlyReads
OnlyReads-KeptBySecrets v s = record { by_upsert = λ ns name f w h. h; by_delete = λ s' uid w h. h }

-- The finalizer, or anything else of the object, was never written.
abbrev pub NoUpdates : Cluster → Type 0
NoUpdates w = w.updates ≡ 0

pub NoUpdates-KeptByTsidp : KeptByTsidp dark NoUpdates
NoUpdates-KeptByTsidp = record { by_send = λ r w h. h; by_event = λ e w h. h }

pub dark-IsDown : IsDown dark
unfolding is_tsidp_not_found
dark-IsDown r w = (errorf "connection refused" [], refl, refl)

abbrev pub cluster_runs_fake : RunsFake cluster now
cluster_runs_fake = record {
  server = λ w. w.server;
  reply = λ r w. refl;
  effect = λ r w. refl;
  quiet = λ e w. refl;
}

contains-remove_all : (fs : List String) (f : String) → contains (remove_all fs f) f ≡ false
contains-remove_all [] f = refl
contains-remove_all (g ∷ fs) f = ground (arith, contains-remove_all fs f)

contains-added :
    (fs : List String) (f : String) → contains (if contains fs f then fs else f ∷ fs) f ≡ true
contains-added fs f = ground (arith, ==_refl f)

sets :
    (oc : OidcClient) (s t : Secret) (r : Option OwnerReference)
    → set_owner oc s r ≡ ok t
    → t ≡ own oc s
sets oc s t none h = cc
sets oc s t (some r) h = ground arith

pub cluster-IsLawful : IsLawful cluster
cluster-IsLawful = record {
  contains-remove = contains-remove_all;
  contains-add = contains-added;
  find-set = λ cs c. (
    c,
    ground (arith, ==_refl c.kind),
    record {
      kind = refl;
      status = refl;
      reason = refl;
      message = refl;
      observed_generation = refl;
    },
  );
  sets_owner = λ oc s t h. let e = sets oc s t (first_owner s.owners) h in rw e refl;
  owner_set =
      λ oc s t h. let e = sets oc s t (first_owner s.owners) h in rw e (owner oc, refl, refl);
  unmarshal-marshal = parse_keys-print_keys;
}
