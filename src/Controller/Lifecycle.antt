-- ===== src/Controller/Lifecycle.antt =====
-- The life of an object between its creation and its deletion: passes of the reconciler, with or
-- without the status written after them, among edits of the spec and changes by others of tsidp and
-- of the cluster.
use tsidp_operator.Prelude.{ℕ, ◌≡◌, ◌⊎◌, inl, inr, refl, sym, ap, subst, ◌∙◌, [], Bool-cases}
use tsidp_operator.Text.{Text, is_empty, is_empty_sound}
use tsidp_operator.Tsidp
use tsidp_operator.Api.{OidcClient, OidcClientSpec, ObjectMeta}
use tsidp_operator.Fault.{Error, ok, err}
use tsidp_operator.Controller.Environment.{Environment, IsLawful}
use tsidp_operator.Controller.Names.{secret_name}
use tsidp_operator.Controller.Registration.Backing.{IsSame, Records}
use tsidp_operator.Controller.Normal.{reconcile_normal}
use tsidp_operator.Controller.Normal.Identity.{
  recorded_client, new_client_backed, reconcile_normal-IsSame,
}
use tsidp_operator.Controller.Normal.Calls.{reconcile_normal-kept}
use tsidp_operator.Controller.Reconcile.{observed}

-- The object as it is stored, and the world around it.
pub record System (E : Environment) : Type 0 where
  pub object : OidcClient
  pub world : E.World

-- Others stands for what anyone else does to the world, and for the calls of a pass that a crash cut
-- short.
module _ (E : Environment) (c : Tsidp.Client) (resync : ℕ)
    (Others : E.World → E.World → Type 0) where
  -- The object after a pass, as `Reconcile` writes its status, and the world then.
  abbrev pub written : System E → OidcClient
  written s = observed E c resync (reconcile_normal E c resync s.object s.world).0.0

  abbrev pub acted : System E → E.World
  acted s = (reconcile_normal E c resync s.object s.world).1

  pub data Step (s : System E) : System E → Type 0 where
    -- a pass, whose status is then written
    pass :
        (o : OidcClient)
        → (E.update_status (written s) (acted s)).0 ≡ ok o
        → Step s (record { object = written s; world = (E.update_status (written s) (acted s)).1 })
    -- a pass whose status is refused
    refused :
        (e : Error)
        → (E.update_status (written s) (acted s)).0 ≡ err e
        → Step s (record s { world = (E.update_status (written s) (acted s)).1 })
    -- a pass with a crash before its status is written
    lost : Step s (record s { world = acted s })
    -- an edit of the spec
    edited :
        (spec : OidcClientSpec) (generation : ℕ)
        → Step s (record s {
          object = record s.object {
            spec = spec;
            metadata = record s.object.metadata { generation = generation };
          };
        })
    -- a change by others
    outside : (w : E.World) → Others s.world w → Step s (record s { world = w })

  -- What becomes of an object that is created without a client.
  pub data Reach (oc : OidcClient) : System E → Type 0 where
    here : (w : E.World) → Reach oc (record { object = oc; world = w })
    next : {s t : System E} → Reach oc s → Step s t → Reach oc t

  -- A name that the object had for its Secret at some time.
  pub data Asked (oc : OidcClient) : (s : System E) → Reach oc s → Text → Type 0 where
    now : {s : System E} (r : Reach oc s) → Asked oc s r (secret_name s.object)
    before :
        {s t : System E} {r : Reach oc s} {n : Text} (p : Step s t)
        → Asked oc s r n
        → Asked oc t (next r p) n

-- The same object, by what the API server does not let anyone change.
pub record IsSelf (a b : OidcClient) : Type 0 where
  pub name : a.name ≡ b.name
  pub namespace : a.namespace ≡ b.namespace
  pub uid : a.uid ≡ b.uid

IsSelf-of_IsSame : (a b : OidcClient) → IsSame a b → IsSelf a b
IsSelf-of_IsSame a b s = record {
  name = ap (λ (m : ObjectMeta). m.name) s.metadata;
  namespace = ap (λ (m : ObjectMeta). m.namespace) s.metadata;
  uid = ap (λ (m : ObjectMeta). m.uid) s.metadata;
}

IsSelf-trans : {a b c : OidcClient} → IsSelf a b → IsSelf b c → IsSelf a c
IsSelf-trans p q = record {
  name = p.name ∙ q.name;
  namespace = p.namespace ∙ q.namespace;
  uid = p.uid ∙ q.uid;
}

IsSelf-sym : {a b : OidcClient} → IsSelf a b → IsSelf b a
IsSelf-sym p = record { name = sym p.name; namespace = sym p.namespace; uid = sym p.uid }

module _ (E : Environment) (L : IsLawful E) (c : Tsidp.Client) (resync : ℕ)
    (Others : E.World → E.World → Type 0) (oc : OidcClient)
    (Q : Text → Text → E.World → Type 0) where
  -- What Q says of a Secret's name and a client is kept by all that happens, and comes to hold when
  -- the Secret of that name is found, or is written, as the object's and with the client's
  -- credentials.
  pub record IsHistory : Type 0 where
    pub records : (oc' : OidcClient) → IsSelf oc' oc → Records E Q oc'
    pub by_status :
        (n id : Text) (o : OidcClient) (w : E.World) → Q n id w → Q n id (E.update_status o w).1
    pub by_others : (n id : Text) (w w' : E.World) → Others w w' → Q n id w → Q n id w'

  -- At some time the object asked for the name, and the Secret has backed the client.
  abbrev pub WasBacked : {s : System E} → Reach E c resync Others oc s → Text → E.World → Type 0
  WasBacked {s} r id w = (n : Text) × Asked E c resync Others oc s r n × Q n id w

  record IsSound {s : System E} (r : Reach E c resync Others oc s) : Type 0 where
    self : IsSelf s.object oc
    client : (s.object.status.client_id ≡ []) ⊎ WasBacked r s.object.status.client_id s.world

  module _ (h : IsHistory) where
    -- A pass, at the world that it leaves.
    pass-client :
        {s : System E} (r : Reach E c resync Others oc s)
        → IsSound r
        → ((written E c resync Others s).status.client_id ≡ [])
          ⊎ WasBacked r (written E c resync Others s).status.client_id (acted E c resync Others s)
    pass-client {s} r i = elim (Bool-cases (is_empty s.object.status.client_id)) [
      | inl e ↦
          elim (new_client_backed E L c resync Q s.object (h.records s.object i.self) s.world
            (is_empty_sound _ e)) [ inl n ↦ inl n | inr q ↦ inr (secret_name s.object, now r, q) ]
      | inr e ↦ elim (recorded_client E c resync s.object s.world e) [
        | inl n ↦ elim i.client [
          | inl m ↦ inl (n ∙ m)
          | inr (m, a, q) ↦
              let q' =
                reconcile_normal-kept E c resync (Q m s.object.status.client_id)
                  ((h.records s.object i.self).kept m s.object.status.client_id) s.object s.world
                  q in
              inr (m, a, subst (λ id. Q m id (acted E c resync Others s)) (sym n) q')
        ]
        | inr n ↦ inl n
      ]
    ]

    pass-IsSelf :
        {s : System E} (r : Reach E c resync Others oc s)
        → IsSound r
        → IsSelf (reconcile_normal E c resync s.object s.world).0.0 oc
    pass-IsSelf {s} r i =
        IsSelf-trans (IsSelf-of_IsSame _ _ (reconcile_normal-IsSame E L c resync s.object s.world))
          i.self

    Step-IsSound :
        {s t : System E} (p : Step E c resync Others s t) (r : Reach E c resync Others oc s)
        → IsSound r
        → IsSound (next r p)
    Step-IsSound (pass o u) r i =
        let f = pass-IsSelf r i in
        record {
          self = record { name = f.name; namespace = f.namespace; uid = f.uid };
          client = elim (pass-client r i) [
            | inl n ↦ inl n
            | inr (m, a, q) ↦ inr (m, before (pass o u) a, h.by_status m _ _ _ q)
          ];
        }
    Step-IsSound {s} (refused e u) r i = record {
      self = i.self;
      client = elim i.client [
        | inl n ↦ inl n
        | inr (m, a, q) ↦
            let q' =
              reconcile_normal-kept E c resync (Q m s.object.status.client_id)
                ((h.records s.object i.self).kept m s.object.status.client_id) s.object s.world q in
            inr (m, before (refused e u) a, h.by_status m _ _ _ q')
      ];
    }
    Step-IsSound {s} lost r i = record {
      self = i.self;
      client = elim i.client [
        | inl n ↦ inl n
        | inr (m, a, q) ↦ inr (
          m,
          before lost a,
          reconcile_normal-kept E c resync (Q m s.object.status.client_id)
              ((h.records s.object i.self).kept m s.object.status.client_id) s.object s.world q,
        )
      ];
    }
    Step-IsSound (edited spec generation) r i = record {
      self = record { name = i.self.name; namespace = i.self.namespace; uid = i.self.uid };
      client = elim i.client [
        | inl n ↦ inl n
        | inr (m, a, q) ↦ inr (m, before (edited spec generation) a, q)
      ];
    }
    Step-IsSound (outside w o) r i = record {
      self = i.self;
      client = elim i.client [
        | inl n ↦ inl n
        | inr (m, a, q) ↦ inr (m, before (outside w o) a, h.by_others m _ _ w o q)
      ];
    }

    Reach-IsSound :
        {s : System E} (r : Reach E c resync Others oc s) → oc.status.client_id ≡ [] → IsSound r
    Reach-IsSound (here w) e = record {
      self = record { name = refl; namespace = refl; uid = refl };
      client = inl e;
    }
    Reach-IsSound (next r t) e = Step-IsSound t r (Reach-IsSound r e)

    -- With lawful cluster libraries, for every property of the world, by a Secret's name and a
    -- client's id, that the calls of a pass, the writes of the status and the changes by others
    -- keep, and that holds after a read that finds the Secret controlled by the object and with
    -- that client's credentials, and after a write to it that succeeds and can only leave such a
    -- Secret: from the creation of an object without a client on, after any passes, each with its
    -- status written, refused or lost, and any edits of the spec, the object keeps its name,
    -- namespace and UID, and if a client is recorded in it, then the property holds of that client
    -- and of a Secret's name that the object asked for at some time; so the history has such a
    -- read or such a write.
    pub reachable_client_backed :
        (s : System E) (r : Reach E c resync Others oc s)
        → oc.status.client_id ≡ []
        → IsSelf s.object oc
          × ((s.object.status.client_id ≡ []) ⊎ WasBacked r s.object.status.client_id s.world)
    reachable_client_backed s r e = let i = Reach-IsSound r e in (i.self, i.client)
