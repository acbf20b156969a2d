-- ===== src/Controller/Normal/Frame.antt =====
-- Properties of the world that reads keep. A pass that keeps each such property has made no call
-- but reads, since one could be "the world has seen reads only".
use tsidp_operator.Prelude.{◌≡◌, refl, Bool, true, false, if◌then◌else◌, subst, sym, ◌++◌}
use tsidp_operator.Text.{Text, runes}
use tsidp_operator.Wire.{get, Request, Body}
use tsidp_operator.Fault.{Error, Exec, Result, ok, err, proceed-lift}
use tsidp_operator.Tsidp
use tsidp_operator.Tsidp.Methods.{get_client, list_clients, discovery, got, listed, discovered}
use tsidp_operator.Api.{OidcClient, Secret}
use tsidp_operator.Controller.Environment.{Environment, Event, http}
use tsidp_operator.Controller.Secrets.{secret_adoptable}
use tsidp_operator.Controller.Status.{handle}

-- A property that reads of tsidp and of Secrets, and events, keep.
pub record KeptByReads (E : Environment) (P : E.World → Type 0) : Type 0 where
  pub by_get : (r : Request) (w : E.World) → r.method ≡ get → P w → P (E.send r w).1
  pub by_read : (ns name : Text) (w : E.World) → P w → P (E.read_secret ns name w).1
  pub by_event : (e : Event) (w : E.World) → P w → P (E.emit e w)

-- One that writes and deletions of Secrets keep too.
pub record KeptBySecrets (E : Environment) (P : E.World → Type 0) : Type 0 where
  pub by_upsert :
      (ns name : Text) (f : Secret → Result Secret) (w : E.World)
      → P w
      → P (E.create_or_update ns name f w).1
  pub by_delete : (s : Secret) (uid : Text) (w : E.World) → P w → P (E.delete_secret s uid w).1

module _ {E : Environment} (c : Tsidp.Client) {P : E.World → Type 0} (k : KeptByReads E P) where
  abbrev reading : Text → Request
  reading path = record {
    method = get;
    base_url = c.base_url;
    path = path;
    content_type = "";
    body = Body.absent;
  }

  pub get_client-kept : (id : Text) (w : E.World) → P w → P (get_client (http E) c id w).1
  unfolding get_client
  get_client-kept id w h =
      subst P (sym (proceed-lift _ _ got)) (k.by_get (reading (runes "/clients/" ++ id)) w refl h)

  pub list_clients-kept : (w : E.World) → P w → P (list_clients (http E) c w).1
  unfolding list_clients
  list_clients-kept w h =
      subst P (sym (proceed-lift _ _ listed)) (k.by_get (reading (runes "/clients/")) w refl h)

  pub discovery-kept : (w : E.World) → P w → P (discovery (http E) c w).1
  unfolding discovery
  discovery-kept w h =
      subst P (sym (proceed-lift _ _ discovered))
        (k.by_get (reading (runes "/.well-known/openid-configuration")) w refl h)

  pub secret_adoptable-kept :
      (oc : OidcClient) (name : Text) (w : E.World) → P w → P (secret_adoptable E oc name w).1
  unfolding secret_adoptable
  secret_adoptable-kept oc name w h = k.by_read oc.namespace name w h

-- The two ends of an `if err != nil`.
pub handle_cases :
    {W A B : Type 0} (Q : B × W → Type 0) (m : Exec W A) (w : W) (f : Error → W → B × W)
    (g : A → W → B × W)
    → ((e : Error) → (m w).0 ≡ err e → Q (f e (m w).1))
    → ((a : A) → (m w).0 ≡ ok a → Q (g a (m w).1))
    → Q (handle m w f g)
unfolding handle
handle_cases {A} {B} Q m w f g hf hg = go (m w).0 refl
  where
    go : (r : Result A) → (m w).0 ≡ r → Q (elim r [ err e ↦ f e (m w).1 | ok a ↦ g a (m w).1 ])
    go (err e) p = hf e p
    go (ok a) p = hg a p

-- An `if` with the test's value in each branch.
pub if_cases {ℓ} :
    {A : Type ℓ} (Q : A → Type 0) (b : Bool) (x y : A)
    → (b ≡ true → Q x)
    → (b ≡ false → Q y)
    → Q (if b then x else y)
if_cases Q true x y hx hy = hx refl
if_cases Q false x y hx hy = hy refl
