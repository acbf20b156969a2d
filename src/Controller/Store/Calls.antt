-- ===== src/Controller/Store/Calls.antt =====
-- What the reconciler's calls come to over such a cluster.
use tsidp_operator.Prelude.{
  ◌+◌, ◌≡◌, refl, sym, ap, subst, ◌∙◌, true, false, List, [], ◌∷◌, Option, none, some,
}
use tsidp_operator.Prelude.Map.{lookup, erase}
use tsidp_operator.Text.{Text, is_empty, text_eq}
use tsidp_operator.Wire.{Request, Response}
use tsidp_operator.Fault.{is_not_found, Error}
use tsidp_operator.Fault.{Result, ok, err, tsidp_not_found, proceed, proceed-lift}
use tsidp_operator.Tsidp
use tsidp_operator.Tsidp.{FunnelClient, ProviderMetadata, RegistrationRequest}
use tsidp_operator.Tsidp.Methods.{
  register, list_clients, get_client, delete_client, discovery, registered, listed, got, deleted,
  discovered,
}
use tsidp_operator.Fake.{Client, Server}
use tsidp_operator.Fake.Handlers.{serve_http, blank, new_client}
use tsidp_operator.Fake.Json.{visible, listing}
use tsidp_operator.Fake.Contract.Reads.{
  discovery_lem, list_clients_lem, get_client_lem, delete_client_eq, metadata, metadata_some, shown,
  removal,
}
use tsidp_operator.Fake.Contract.Register.{register_lem, registration}
use tsidp_operator.Api.{OidcClient, Secret}
use tsidp_operator.Controller.Environment.{Environment, Event, http}
use tsidp_operator.Controller.Names.{secret_name}
use tsidp_operator.Controller.Secrets.{controlled_by, vet_secret, secret_adoptable}
use tsidp_operator.Controller.Deletion.Sweep.{RunsFake}
use tsidp_operator.Controller.Store.{IsRead, RunsStore, At, Comes}

module _ {E : Environment} {now : Text} {b : RunsFake E now} {ns name : Text}
    (st : RunsStore E now b ns name) where
  -- A request, with what the fake answers, and a pure step after it.
  sent-Comes :
      {A : Type 0} {v v' : Server} {h : Option Secret} {x : Result A} (r : Request) (w : E.World)
      (decode : Response → Result A)
      → At st v h w
      → ◌≡◌ {A = Result A × Server} (decode (serve_http now r v).0, (serve_http now r v).1) (x, v')
      → Comes st x v' h (proceed (E.send r w).0 (E.send r w).1 (λ x w. (decode x, w)))
  sent-Comes {v'} {h} r w decode at e =
      let same : (serve_http now r (b.server w)).1 ≡ v' =
        ap (λ s. (serve_http now r s).1) at.server ∙ ap (λ p. p.1) e in
      record {
        result =
            rw (b.reply r w) (ap (λ s. decode (serve_http now r s).0) at.server ∙ ap (λ p. p.0) e);
        at =
            subst (At st v' h) (sym (proceed-lift _ _ decode))
              (record { server = b.effect r w ∙ same; held = st.send_held r w ∙ at.held });
      }

  module _ (c : Tsidp.Client) {v : Server} {h : Option Secret} (w : E.World)
      (at : At st v h w) where
    pub discovery-Comes :
        is_empty v.issuer ≡ false → Comes st (ok (metadata v.issuer)) v h (discovery (http E) c w)
    unfolding discovery
    discovery-Comes i = sent-Comes _ w discovered at (
        discovery_lem now c v
        ∙ ap (λ (r : Result ProviderMetadata). (r, v)) (metadata_some v.issuer i))

    pub list_clients-Comes : Comes st (ok (listing v.clients)) v h (list_clients (http E) c w)
    unfolding list_clients
    list_clients-Comes = sent-Comes _ w listed at (list_clients_lem now c v)

    pub get_client-Comes :
        (id : Text) (cl : Client)
        → is_empty id ≡ false
        → lookup id v.clients ≡ some cl
        → Comes st (ok (visible (blank cl))) v h (get_client (http E) c id w)
    unfolding get_client
    get_client-Comes [] cl n p = cc
    get_client-Comes (x ∷ id) cl n p =
        sent-Comes _ w got at
          (get_client_lem now c x id v ∙ ap (λ (o : Option Client). (shown o, v)) p)

    pub get_client-missing :
        (id : Text)
        → is_empty id ≡ false
        → lookup id v.clients ≡ none
        → Comes st (err tsidp_not_found) v h (get_client (http E) c id w)
    unfolding get_client
    get_client-missing [] n p = cc
    get_client-missing (x ∷ id) n p =
        sent-Comes _ w got at
          (get_client_lem now c x id v ∙ ap (λ (o : Option Client). (shown o, v)) p)

    pub delete_client-Comes :
        (id : Text) (cl : Client)
        → is_empty id ≡ false
        → lookup id v.clients ≡ some cl
        → Comes st
            (ok tt)
            (record v { clients = erase id v.clients })
            h
            (delete_client (http E) c id w)
    unfolding delete_client
    delete_client-Comes [] cl n p = cc
    delete_client-Comes (x ∷ id) cl n p =
        let v' : Server = record v { clients = erase (x ∷ id) v.clients } in
        sent-Comes _ w deleted at
          (delete_client_eq now c x id v ∙ ap (λ (o : Option Client). (removal o, v')) p)

    pub register-Comes :
        (q : RegistrationRequest) {u : Text} {us : List Text}
        → q.redirect_uris ≡ u ∷ us
        → Comes st
            (ok (visible (new_client now q.client_name (u ∷ us) (v.next_id + 1))))
            (registration now q.client_name (u ∷ us) v).1
            h
            (register (http E) c q w)
    unfolding register
    register-Comes q p =
        sent-Comes _ w registered at
          (register_lem now c q v ∙ ap (λ l. registration now q.client_name l v) p)

  pub emit-At :
      {v : Server} {h : Option Secret} (e : Event) {w : E.World}
      → At st v h w
      → At st v h (E.emit e w)
  emit-At e {w} at = record { server = b.quiet e w ∙ at.server; held = st.emit_held e w ∙ at.held }

module _ {E : Environment} {now : Text} {b : RunsFake E now} (oc : OidcClient)
    (st : RunsStore E now b oc.namespace (secret_name oc)) {v : Server} (w : E.World) where
  pub read-At :
      {h : Option Secret}
      → At st v h w
      → At st v h (E.read_secret oc.namespace (secret_name oc) w).1
  read-At at = record { server = st.read_server w ∙ at.server; held = st.read_held w ∙ at.held }

  pub read-Comes :
      {s : Secret}
      → At st v (some s) w
      → Comes st (ok s) v (some s) (E.read_secret oc.namespace (secret_name oc) w)
  read-Comes at = record {
    result =
        subst (λ o. IsRead o (E.read_secret oc.namespace (secret_name oc) w).0) at.held (st.read w);
    at = read-At at;
  }

  pub read-missing :
      At st v none w
      → (e : Error) × Comes st (err e) v none (E.read_secret oc.namespace (secret_name oc) w)
        × (is_not_found e ≡ true)
  read-missing at =
      let (e, p, q) =
        subst (λ o. IsRead o (E.read_secret oc.namespace (secret_name oc) w).0) at.held
          (st.read w) in
      (e, record { result = p; at = read-At at }, q)

  pub secret_adoptable-absent :
      At st v none w → Comes st (ok none) v none (secret_adoptable E oc (secret_name oc) w)
  unfolding secret_adoptable
  secret_adoptable-absent at =
      let (e, p, q) =
        subst (λ o. IsRead o (E.read_secret oc.namespace (secret_name oc) w).0) at.held
          (st.read w) in
      record { result = rw (secret_adoptable, p, q) refl; at = read-At at }

  pub secret_adoptable-held :
      {s : Secret}
      → At st v (some s) w
      → controlled_by E oc s ≡ true
      → Comes st (ok (some s)) v (some s) (secret_adoptable E oc (secret_name oc) w)
  unfolding secret_adoptable vet_secret
  secret_adoptable-held at own = record {
    result = rw (secret_adoptable, (read-Comes at).result, own) refl;
    at = read-At at;
  }
