-- ===== src/Controller/Store.antt =====
-- A cluster that keeps the Secret of an object as an API server does, beside a tsidp that behaves as
-- the fake does.
pub mod Calls
pub mod Writes
pub mod Edits
use tsidp_operator.Prelude.{◌≡◌, ◌⊎◌, true, false, List, [], Option, none, some}
use tsidp_operator.Text.{Text}
use tsidp_operator.Wire.{Request}
use tsidp_operator.Fault.{Error, Result, ok, err, is_not_found, Exec, proceed}
use tsidp_operator.Fake.{Server}
use tsidp_operator.Api.{OidcClient, OidcClientStatus, Secret}
use tsidp_operator.Controller.Environment.{Environment, Event}
use tsidp_operator.Controller.Secrets.{controlled_by}
use tsidp_operator.Controller.Status.{handle}
use tsidp_operator.Controller.Deletion.Sweep.{RunsFake}

-- What a read comes to, by what is held.
abbrev pub IsRead : Option Secret → Result Secret → Type 0
IsRead none r = (e : Error) × (r ≡ err e) × (is_not_found e ≡ true)
IsRead (some s) r = r ≡ ok s

abbrev pub or_fresh : Secret → Option Secret → Secret
or_fresh fresh none = fresh
or_fresh fresh (some s) = s

-- The Secret of a namespace and a name. A read finds what is held, CreateOrUpdate writes what its
-- function makes of the Secret that is held, or of a fresh one, and neither touches tsidp, nor does
-- tsidp the Secret.
pub record RunsStore (E : Environment) (now : Text) (b : RunsFake E now) (ns name : Text)
    : Type 0 where
  pub held : E.World → Option Secret
  pub fresh : Secret
  -- What the API server makes of a Secret that is written.
  pub stored : Secret → Secret
  pub read : (w : E.World) → IsRead (held w) (E.read_secret ns name w).0
  pub read_server : (w : E.World) → b.server (E.read_secret ns name w).1 ≡ b.server w
  pub read_held : (w : E.World) → held (E.read_secret ns name w).1 ≡ held w
  pub send_held : (r : Request) (w : E.World) → held (E.send r w).1 ≡ held w
  pub emit_held : (e : Event) (w : E.World) → held (E.emit e w) ≡ held w
  pub fresh_created : fresh.created ≡ false
  pub fresh_owners : fresh.owners ≡ []
  -- The controller is read off the owner references.
  pub controller_owners :
      (s t : Secret) → s.owners ≡ t.owners → E.controller_of s ≡ E.controller_of t
  pub stored_contents : (s : Secret) → (stored s).contents ≡ s.contents
  pub stored_controller : (s : Secret) → E.controller_of (stored s) ≡ E.controller_of s
  pub writes :
      (f : Secret → Result Secret) (w : E.World) (t : Secret)
      → f (or_fresh fresh (held w)) ≡ ok t
      → ((E.create_or_update ns name f w).0 ≡ ok tt)
        × (b.server (E.create_or_update ns name f w).1 ≡ b.server w)
        × (held (E.create_or_update ns name f w).1 ≡ some (stored t))

-- A Secret without owners, or one that the object controls, can be given the object for its owner.
abbrev pub CanOwn : Environment → OidcClient → Type 0
CanOwn E oc =
    (st : OidcClientStatus) (s : Secret)
    → (s.owners ≡ []) ⊎ (controlled_by E oc s ≡ true)
    → (t : Secret) × (E.set_controller_reference (record oc { status = st }) s ≡ ok t)

module _ {E : Environment} {now : Text} {b : RunsFake E now} {ns name : Text}
    (st : RunsStore E now b ns name) where
  -- tsidp is in a state, and the Secret is held.
  pub record At (v : Server) (h : Option Secret) (w : E.World) : Type 0 where
    pub server : b.server w ≡ v
    pub held : st.held w ≡ h

  -- A part of the pass comes to a result, and leaves tsidp in a state and the Secret held.
  pub record Comes {A : Type 0} (r : A) (v : Server) (h : Option Secret) (x : A × E.World)
      : Type 0 where
    pub result : x.0 ≡ r
    pub at : At v h x.1

  -- The rest of the pass after a call that succeeded.
  pub handle-Comes :
      {A B : Type 0} (m : Exec E.World A) (w : E.World) {a : A} {r : B} {v v' : Server}
      {h h' : Option Secret} (f : Error → E.World → B × E.World) (g : A → E.World → B × E.World)
      → Comes (ok a) v h (m w)
      → ((w : E.World) → At v h w → Comes r v' h' (g a w))
      → Comes r v' h' (handle m w f g)
  unfolding handle
  handle-Comes m w f g c k = rw (handle, c.result) (k (m w).1 c.at)

  -- What is done after a call that failed.
  pub handle-err :
      {A B : Type 0} (m : Exec E.World A) (w : E.World) {e : Error} {r : B} {v v' : Server}
      {h h' : Option Secret} (f : Error → E.World → B × E.World) (g : A → E.World → B × E.World)
      → Comes (err e) v h (m w)
      → ((w : E.World) → At v h w → Comes r v' h' (f e w))
      → Comes r v' h' (handle m w f g)
  unfolding handle
  handle-err m w f g c k = rw (handle, c.result) (k (m w).1 c.at)

  -- The next step of an action after one that succeeded.
  pub proceed-Comes :
      {A B : Type 0} (x : Result A × E.World) {a : A} {r : Result B} {v v' : Server}
      {h h' : Option Secret} (f : A → Exec E.World B)
      → Comes (ok a) v h x
      → ((w : E.World) → At v h w → Comes r v' h' (f a w))
      → Comes r v' h' (proceed x.0 x.1 f)
  proceed-Comes x f c k = rw c.result (k x.1 c.at)
