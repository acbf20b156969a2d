-- ===== src/Tests/History.antt =====
-- A cluster that notes each Secret that is found or written, and instances of the theorems on the
-- history of an object.
use tsidp_operator.Prelude.{
  ℕ, ◌*◌, ◌≡◌, ◌⊎◌, inl, inr, refl, sym, subst, ap, ◌∙◌, true, false, List, [], ◌∷◌, Option, none,
  some, string_eq, nat_eq, ◌==◌,
}
use tsidp_operator.Prelude.Map.{lookup}
use tsidp_operator.Text.{Text, text_eq}
use tsidp_operator.Fault.{Result, ok, err}
use tsidp_operator.Api.{OidcClient, Secret, recreate}
use tsidp_operator.Controller.Environment.{Environment, IsLawful}
use tsidp_operator.Controller.Names.{secret_name}
use tsidp_operator.Controller.Secrets.{controlled_by}
use tsidp_operator.Controller.Status.{second}
use tsidp_operator.Controller.Registration.{holds_credentials}
use tsidp_operator.Controller.Registration.Backing.{Records}
use tsidp_operator.Controller.Normal.Requests.{KeptByCalls}
use tsidp_operator.Controller.Normal.{reconcile_normal}
use tsidp_operator.Controller.Normal.Identity.{new_client_backed}
use tsidp_operator.Controller.Lifecycle.{
  System, pass, lost, Reach, here, next, written, acted, IsSelf, IsHistory, WasBacked,
  reachable_client_backed,
}
use tsidp_operator.Tests.Cluster.{
  Cluster, cluster, cluster-IsLawful, find_secret, fresh_secret, write_secret,
}
use tsidp_operator.Tests.Objects.{app, empty_server, world, tsidp}

abbrev hour : ℕ
hour = 3600 * second

-- The Secrets that were found or written, with their names.
abbrev Log : Type 0
Log = List (Text × Secret)

abbrev note_read : Text → Option Secret → Log → Log
note_read n none l = l
note_read n (some s) l = (n, s) ∷ l

abbrev note_write : Text → Result Secret → Log → Log
note_write n (err e) l = l
note_write n (ok s) l = (n, s) ∷ l

abbrev made : Text → Text → (Secret → Result Secret) → Cluster → Result Secret
made ns name f w = f (fresh_secret ns name (lookup name w.secrets))

abbrev clerk : Environment
clerk = record {
  World = Cluster × Log;
  send = λ r w. ((cluster.send r w.0).0, ((cluster.send r w.0).1, w.1));
  get_object = λ ns name w. ((cluster.get_object ns name w.0).0, w);
  update_object = λ oc w. (ok oc, ((cluster.update_object oc w.0).1, w.1));
  update_status = λ oc w. (ok oc, ((cluster.update_status oc w.0).1, w.1));
  delete_secret = λ s uid w. (ok tt, ((cluster.delete_secret s uid w.0).1, w.1));
  create_or_update = λ ns name f w. (
    (write_secret name w.0 (made ns name f w.0)).0,
    ((write_secret name w.0 (made ns name f w.0)).1, note_write name (made ns name f w.0) w.1),
  );
  read_secret = λ ns name w.
      (find_secret (lookup name w.0.secrets), (w.0, note_read name (lookup name w.0.secrets) w.1));
  emit = λ e w. (cluster.emit e w.0, w.1);
  contains_finalizer = cluster.contains_finalizer;
  add_finalizer = cluster.add_finalizer;
  remove_finalizer = cluster.remove_finalizer;
  set_controller_reference = cluster.set_controller_reference;
  controller_of = cluster.controller_of;
  set_status_condition = cluster.set_status_condition;
  marshal_keys = cluster.marshal_keys;
  unmarshal_keys = cluster.unmarshal_keys;
}

clerk-IsLawful : IsLawful clerk
clerk-IsLawful = record {
  contains-remove = cluster-IsLawful.contains-remove;
  contains-add = cluster-IsLawful.contains-add;
  find-set = cluster-IsLawful.find-set;
  sets_owner = cluster-IsLawful.sets_owner;
  owner_set = cluster-IsLawful.owner_set;
  unmarshal-marshal = cluster-IsLawful.unmarshal-marshal;
}

-- A Secret of the name was noted that the object controls and that holds the client's credentials.
abbrev Noted : OidcClient → Text → Text → Log → Type 0
Noted oc n id [] = ⊥
Noted oc n id ((m, s) ∷ l) =
    ((m ≡ n) × (controlled_by clerk oc s ≡ true) × (holds_credentials id s ≡ true))
    ⊎ Noted oc n id l

found-Noted :
    (oc : OidcClient) (n id : Text) (l : Log) (o : Option Secret) (s : Secret)
    → find_secret o ≡ ok s
    → controlled_by clerk oc s ≡ true
    → holds_credentials id s ≡ true
    → Noted oc n id (note_read n o l)
found-Noted oc n id l none s e own h = cc
found-Noted oc n id l (some s') s e own h =
    let same : s ≡ s' = cc in
    inl (
      refl,
      subst (λ x. controlled_by clerk oc x ≡ true) same own,
      subst (λ x. holds_credentials id x ≡ true) same h,
    )

made-Noted :
    (oc : OidcClient) (n id : Text) (w : Cluster) (l : Log) (r : Result Secret)
    → ((t : Secret)
        → r ≡ ok t
        → (controlled_by clerk oc t ≡ true) × (holds_credentials id t ≡ true))
    → (write_secret n w r).0 ≡ ok tt
    → Noted oc n id (note_write n r l)
made-Noted oc n id w l (err e) h p = cc
made-Noted oc n id w l (ok t) h p = let (own, k) = h t refl in inl (refl, own, k)

read-Noted :
    (oc : OidcClient) (n id m : Text) (l : Log) (o : Option Secret)
    → Noted oc n id l
    → Noted oc n id (note_read m o l)
read-Noted oc n id m l none h = h
read-Noted oc n id m l (some s) h = inr h

write-Noted :
    (oc : OidcClient) (n id m : Text) (l : Log) (r : Result Secret)
    → Noted oc n id l
    → Noted oc n id (note_write m r l)
write-Noted oc n id m l (err e) h = h
write-Noted oc n id m l (ok s) h = inr h

abbrev Says : OidcClient → Text → Text → Cluster × Log → Type 0
Says oc n id w = Noted oc n id w.1

noted-KeptByCalls : (oc : OidcClient) (n id : Text) → KeptByCalls clerk (Says oc n id)
noted-KeptByCalls oc n id = record {
  reads = record {
    by_get = λ r w e h. h;
    by_read = λ ns m w h. read-Noted oc n id m w.1 (lookup m w.0.secrets) h;
    by_event = λ e w h. h;
  };
  secrets = record {
    by_upsert = λ ns m f w h. write-Noted oc n id m w.1 (made ns m f w.0) h;
    by_delete = λ s uid w h. h;
  };
  by_send = λ r w h. h;
}

noted-Records : (oc : OidcClient) → Records clerk (Says oc) oc
noted-Records oc = record {
  kept = noted-KeptByCalls oc;
  by_read = λ id w s e own h.
      found-Noted oc (secret_name oc) id w.1 (lookup (secret_name oc) w.0.secrets) s e own h;
  by_write = λ id f w h p.
      made-Noted oc (secret_name oc) id w.0 w.1 (made oc.namespace (secret_name oc) f w.0)
        (λ t q. h _ t q) p;
}

abbrev start : Cluster × Log
start = (world empty_server [], [])

new_client_backed_example :
    ((reconcile_normal clerk tsidp hour (app [] recreate) start).0.0.status.client_id ≡ [])
    ⊎ Noted
        (app [] recreate)
        (secret_name (app [] recreate))
        (reconcile_normal clerk tsidp hour (app [] recreate) start).0.0.status.client_id
        (reconcile_normal clerk tsidp hour (app [] recreate) start).1.1
new_client_backed_example =
    new_client_backed clerk clerk-IsLawful tsidp hour (Says (app [] recreate)) (app [] recreate)
      (noted-Records (app [] recreate)) start refl

same_controller :
    (a b : OidcClient) (s : Secret)
    → a.uid ≡ b.uid
    → controlled_by clerk a s ≡ controlled_by clerk b s
unfolding controlled_by
same_controller a b s e =
    ap (λ (u : Text). elim (clerk.controller_of s) [ none ↦ false | some r ↦ r.uid == u ]) e

-- Nobody else touches the log.
abbrev Others : Cluster × Log → Cluster × Log → Type 0
Others w w' = w'.1 ≡ w.1

self-Records : (oc' oc : OidcClient) → IsSelf oc' oc → Records clerk (Says oc) oc'
self-Records oc' oc i = record {
  kept = noted-KeptByCalls oc;
  by_read = λ id w s e own h.
      found-Noted oc (secret_name oc') id w.1 (lookup (secret_name oc') w.0.secrets) s e
        (sym (same_controller oc' oc s i.uid) ∙ own) h;
  by_write = λ id f w h p.
      made-Noted oc (secret_name oc') id w.0 w.1 (made oc'.namespace (secret_name oc') f w.0)
        (λ t q. let (own, k) = h _ t q in (sym (same_controller oc' oc t i.uid) ∙ own, k)) p;
}

logged : IsHistory clerk clerk-IsLawful tsidp hour Others (app [] recreate) (Says (app [] recreate))
logged = record {
  records = λ oc' i. self-Records oc' (app [] recreate) i;
  by_status = λ n id o w h. h;
  by_others = λ n id w w' e h. subst (Noted (app [] recreate) n id) (sym e) h;
}

-- A pass with a crash before its status is written, and one whose status is written.
abbrev created : System clerk
created = record { object = app [] recreate; world = start }

abbrev crashed : System clerk
crashed = record created { world = acted clerk tsidp hour Others created }

abbrev renewed : System clerk
renewed = record {
  object = written clerk tsidp hour Others crashed;
  world =
      (clerk.update_status (written clerk tsidp hour Others crashed)
        (acted clerk tsidp hour Others crashed)).1;
}

abbrev lived : Reach clerk tsidp hour Others (app [] recreate) renewed
lived = next (next (here start) lost) (pass (written clerk tsidp hour Others crashed) refl)

reachable_client_backed_example :
    IsSelf renewed.object (app [] recreate)
    × ((renewed.object.status.client_id ≡ [])
        ⊎ WasBacked clerk clerk-IsLawful tsidp hour Others
            (app [] recreate)
            (Says (app [] recreate))
            lived
            renewed.object.status.client_id
            renewed.world)
reachable_client_backed_example =
    reachable_client_backed clerk clerk-IsLawful tsidp hour Others (app [] recreate)
      (Says (app [] recreate)) logged renewed lived refl
