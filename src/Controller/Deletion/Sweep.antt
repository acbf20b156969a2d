-- ===== src/Controller/Deletion/Sweep.antt =====
-- Deregistration against a tsidp that behaves as the fake does: what is left on the server.
use tsidp_operator.Prelude.{
  ℕ, ◌≡◌, ◌≢◌, refl, sym, ap, subst, ◌∙◌, true, false, List, [], ◌∷◌, ◌++◌, Option, none, some, All,
  if◌then◌else◌, arith, Bool-cases, inl, inr, ◌==◌,
}
use tsidp_operator.Prelude.Map.{Map, lookup, erase, lookup-erase}
use tsidp_operator.Text.{Text, is_empty, runes, text_eq}
use tsidp_operator.Text.Find.{has_substring}
use tsidp_operator.Wire.{get, delete, Body, Request}
use tsidp_operator.Fault.{proceed-lift, ok, is_tsidp_not_found}
use tsidp_operator.Tsidp
use tsidp_operator.Tsidp.{FunnelClient}
use tsidp_operator.Tsidp.Methods.{list_clients, delete_client, listed, deleted}
use tsidp_operator.Fake.{Client, Server}
use tsidp_operator.Fake.Handlers.{blank}
use tsidp_operator.Fake.Json.{listing}
use tsidp_operator.Fake.Contract.{fake_http}
use tsidp_operator.Fake.Contract.Reads.{list_clients_lem, delete_client_eq, removal}
use tsidp_operator.Api.{OidcClient}
use tsidp_operator.Controller.Environment.{Environment, Event, http}
use tsidp_operator.Controller.Names.{fingerprint}
use tsidp_operator.Controller.Status.{emit, text, handle}
use tsidp_operator.Controller.Registration.{serious}
use tsidp_operator.Controller.Deletion.{deregister_listed, deregister_unknown, deregister}

-- tsidp is a server of the fake's, at a fixed time; events leave it alone.
pub record RunsFake (E : Environment) (now : Text) : Type 0 where
  pub server : E.World → Server
  pub reply : (r : Request) (w : E.World) → (E.send r w).0 ≡ ((fake_http now).send r (server w)).0
  pub effect :
      (r : Request) (w : E.World) → server (E.send r w).1 ≡ ((fake_http now).send r (server w)).1
  pub quiet : (e : Event) (w : E.World) → server (E.emit e w) ≡ server w

module _ (E : Environment) (now : Text) (b : RunsFake E now) (c : Tsidp.Client) where
  pub list_clients-backed :
      (w : E.World)
      → ((list_clients (http E) c w).0 ≡ ok (listing (b.server w).clients))
        × (b.server (list_clients (http E) c w).1 ≡ b.server w)
  unfolding list_clients
  list_clients-backed w =
      let r : Request = record {
        method = get;
        base_url = c.base_url;
        path = runes "/clients/";
        content_type = "";
        body = Body.absent;
      } in
      let e = list_clients_lem now c (b.server w) in
      (
        rw (b.reply r w) (ap (λ x. x.0) e),
        subst (λ v. b.server v ≡ b.server w) (sym (proceed-lift _ _ listed))
            (b.effect r w ∙ ap (λ x. x.1) e),
      )

  delete_client-backed :
      (x : ℕ) (id : Text) (w : E.World)
      → ((delete_client (http E) c (x ∷ id) w).0 ≡ removal (lookup (x ∷ id) (b.server w).clients))
        × (b.server (delete_client (http E) c (x ∷ id) w).1
            ≡ record (b.server w) { clients = erase (x ∷ id) (b.server w).clients })
  unfolding delete_client
  delete_client-backed x id w =
      let r : Request = record {
        method = delete;
        base_url = c.base_url;
        path = runes "/clients/" ++ (x ∷ id);
        content_type = "";
        body = Body.absent;
      } in
      let s = b.server w in
      let e = delete_client_eq now c x id s in
      (
        rw (b.reply r w) (ap (λ y. y.0) e),
        subst (λ v. b.server v ≡ record s { clients = erase (x ∷ id) s.clients })
            (sym (proceed-lift _ _ deleted)) (b.effect r w ∙ ap (λ y. y.1) e),
      )

-- What the loop leaves of the server's clients: all but those that it found with the fingerprint.
abbrev pub swept : Text → List FunnelClient → Map Text Client → Map Text Client
swept fp [] m = m
swept fp (x ∷ xs) m =
    swept fp xs (if has_substring x.client_name fp then erase x.client_id m else m)

swept-none :
    (fp : Text) (xs : List FunnelClient) (id : Text) (m : Map Text Client)
    → lookup id m ≡ none
    → lookup id (swept fp xs m) ≡ none
swept-none fp [] id m h = h
swept-none fp (x ∷ xs) id m h =
    swept-none fp xs id (if has_substring x.client_name fp then erase x.client_id m else m)
      (ground (arith, lookup-erase id x.client_id m))

swept-marked :
    (fp : Text) (cs : Map Text Client) (id : Text) (cl : Client) (m : Map Text Client)
    → lookup id cs ≡ some cl
    → cl.client_id ≡ id
    → has_substring cl.client_name fp ≡ true
    → lookup id (swept fp (listing cs) m) ≡ none
unfolding lookup blank
swept-marked fp [] id cl m h k e = cc
swept-marked fp ((j, d) ∷ cs) id cl m h k e = elim (Bool-cases (id == j)) [
  | inl q ↦
      let same : d ≡ cl = ground arith in
      swept-none fp (listing cs) id _ (rw (same, e, k) (lookup-erase id id m ∙ ground arith))
  | inr q ↦ swept-marked fp cs id cl _ (ground arith) k e
]

swept-other :
    (fp : Text) (xs : List FunnelClient) (id : Text) (m : Map Text Client)
    → All (λ (x : FunnelClient). has_substring x.client_name fp ≡ true → x.client_id ≢ id) xs
    → lookup id (swept fp xs m) ≡ lookup id m
swept-other fp [] id m h = refl
swept-other fp (x ∷ xs) id m (n, ns) = elim (Bool-cases (has_substring x.client_name fp)) [
  | inl e ↦
      let n' = n e in
      swept-other fp xs id _ ns ∙ rw e (ground (arith, lookup-erase id x.client_id m))
  | inr e ↦ swept-other fp xs id _ ns ∙ rw e refl
]

module _ (E : Environment) (now : Text) (b : RunsFake E now) (c : Tsidp.Client) (fp : Text) where
  removal-serious : (o : Option Client) → serious (removal o) ≡ none
  unfolding is_tsidp_not_found
  removal-serious none = refl
  removal-serious (some cl) = refl

  pub delete_client-cleared :
      (id : Text) (w : E.World)
      → is_empty id ≡ false
      → (serious (delete_client (http E) c id w).0 ≡ none)
        × (b.server (delete_client (http E) c id w).1
            ≡ record (b.server w) { clients = erase id (b.server w).clients })
  delete_client-cleared [] w n = cc
  delete_client-cleared (y ∷ id) w n =
      let (r, s) = delete_client-backed E now b c y id w in
      (ap serious r ∙ removal-serious (lookup (y ∷ id) (b.server w).clients), s)

  abbrev deleted_event : Text → E.World → E.World
  deleted_event id w =
      emit E false "Deregistered"
        (text "deleted unrecorded fingerprinted client %s during finalization" (id ∷ [])) w

  step_own :
      (x : FunnelClient) (xs : List FunnelClient) (w : E.World)
      → has_substring x.client_name fp ≡ true
      → serious (delete_client (http E) c x.client_id w).0 ≡ none
      → deregister_listed E c fp (x ∷ xs) w
        ≡ deregister_listed E c fp xs
            (deleted_event x.client_id (delete_client (http E) c x.client_id w).1)
  unfolding deregister_listed
  step_own x xs w e n = rw (e, n) refl

  deregister_listed-swept :
      (xs : List FunnelClient) (w : E.World)
      → All (λ (x : FunnelClient). is_empty x.client_id ≡ false) xs
      → ((deregister_listed E c fp xs w).0 ≡ none)
        × (b.server (deregister_listed E c fp xs w).1
            ≡ record (b.server w) { clients = swept fp xs (b.server w).clients })
  unfolding deregister_listed
  deregister_listed-swept [] w n = (refl, refl)
  deregister_listed-swept (x ∷ xs) w (n, ns) = elim (Bool-cases (has_substring x.client_name fp)) [
    | inl e ↦
        let (r, s) = delete_client-cleared x.client_id w n in
        let w' = deleted_event x.client_id (delete_client (http E) c x.client_id w).1 in
        let (done, after) = deregister_listed-swept xs w' ns in
        let step = step_own x xs w e r in
        let effect = b.quiet _ _ ∙ s in
        (
          ap (λ y. y.0) step ∙ done,
          ap (λ y. b.server y.1) step
              ∙ (after
                  ∙ rw e
                      (ap (λ (v : Server). record v { clients = swept fp xs v.clients }) effect)),
        )
    | inr e ↦
        let (done, after) = deregister_listed-swept xs w ns in
        (rw (deregister_listed, e) done, rw (deregister_listed, e) after)
  ]

-- Nothing is left under an id.
abbrev pub IsGone : Text → Server → Type 0
IsGone id s = lookup id s.clients ≡ none

module _ (E : Environment) (now : Text) (b : RunsFake E now) (c : Tsidp.Client)
    (oc : OidcClient) where
  pub deregister_unknown-swept :
      (w : E.World)
      → All (λ (x : FunnelClient). is_empty x.client_id ≡ false) (listing (b.server w).clients)
      → ((deregister_unknown E c oc w).0 ≡ none)
        × (b.server (deregister_unknown E c oc w).1 ≡ record (b.server w) {
          clients = swept (fingerprint oc) (listing (b.server w).clients) (b.server w).clients;
        })
  unfolding deregister_unknown handle
  deregister_unknown-swept w n =
      let (r, s) = list_clients-backed E now b c w in
      let w' = (list_clients (http E) c w).1 in
      let (done, after) =
        deregister_listed-swept E now b c (fingerprint oc) (listing (b.server w).clients) w' n in
      (
        rw (deregister_unknown, handle, r) done,
        rw (deregister_unknown, handle, r)
            (after
              ∙ ap
                  (λ (v : Server). record v {
                    clients = swept (fingerprint oc) (listing (b.server w).clients) v.clients;
                  })
                  s),
      )

  -- Against a tsidp that answers as the fake does, an object without a recorded client is
  -- deregistered in one pass, if every listed client has an id: the deregistration asks for no
  -- retry, each client that stands under its own id and carries the object's fingerprint is gone,
  -- and what stands under an id that no listed client with the fingerprint has is as before.
  pub deregister-swept :
      (w : E.World)
      → is_empty oc.status.client_id ≡ true
      → All (λ (x : FunnelClient). is_empty x.client_id ≡ false) (listing (b.server w).clients)
      → ((deregister E c oc w).0 ≡ none)
        × ((id : Text) (cl : Client)
            → lookup id (b.server w).clients ≡ some cl
            → cl.client_id ≡ id
            → has_substring cl.client_name (fingerprint oc) ≡ true
            → IsGone id (b.server (deregister E c oc w).1))
        × ((id : Text)
            → All
                (λ (x : FunnelClient).
                  has_substring x.client_name (fingerprint oc) ≡ true → x.client_id ≢ id)
                (listing (b.server w).clients)
            → lookup id (b.server (deregister E c oc w).1).clients ≡ lookup id (b.server w).clients)
  unfolding deregister
  deregister-swept w u n =
      let (done, after) = deregister_unknown-swept w n in
      let m = (b.server w).clients in
      (
        rw (deregister, u) done,
        λ id cl h k e. rw (deregister, u, after) (swept-marked (fingerprint oc) m id cl m h k e),
        λ id h. rw (deregister, u, after) (swept-other (fingerprint oc) (listing m) id m h),
      )
