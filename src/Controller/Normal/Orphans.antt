-- ===== src/Controller/Normal/Orphans.antt =====
-- Registrations of the object's that no Secret backs are deleted one by one, and then the object is
-- registered: how many passes that takes.
use tsidp_operator.Prelude.{
  ℕ, suc, zero, ◌+◌, ◌≤◌, ◌≡◌, refl, sym, subst, true, List, ◌∷◌, none, some, Option-cases, inl,
  inr, arith,
}
use tsidp_operator.Prelude.Map.{erase}
use tsidp_operator.Text.{Text, is_empty, text_eq}
use tsidp_operator.Tsidp
use tsidp_operator.Tsidp.{FunnelClient, ProviderMetadata}
use tsidp_operator.Fake.{Server}
use tsidp_operator.Fake.Handlers.{new_client}
use tsidp_operator.Fake.Json.{listing}
use tsidp_operator.Api.{OidcClient, Secret}
use tsidp_operator.Controller.Environment.{Environment, IsLawful}
use tsidp_operator.Controller.Names.{secret_name, registered_name, display_name, fingerprint}
use tsidp_operator.Controller.Secrets.{controlled_by}
use tsidp_operator.Controller.Status.{
  second, Return, after, mark_ready, with_issuer, with_client_id,
}
use tsidp_operator.Controller.Registration.{find_owned}
use tsidp_operator.Controller.Deletion.Sweep.{RunsFake}
use tsidp_operator.Controller.Store.{RunsStore, CanOwn, At, Comes}
use tsidp_operator.Controller.Store.Calls.{}
use tsidp_operator.Controller.Store.Writes.{Holds}
use tsidp_operator.Controller.Normal.{drifted, reconcile_normal}
use tsidp_operator.Controller.Normal.Steady.{IsServed, IsPassable}
use tsidp_operator.Controller.Normal.Adoption.{new}
use tsidp_operator.Controller.Normal.Recovery.{first_pass-Comes, next-IsServed}
use tsidp_operator.Controller.Normal.Burning.{
  orphans, IsKeyed, erase-IsKeyed, find_owned-IsOrphan, burning_pass-Comes,
}

-- The result of so many passes and one more, each over the object that the pass before it left.
unfoldable pub passes :
    (E : Environment)
    → Tsidp.Client
    → ℕ
    → ℕ
    → OidcClient
    → E.World
    → (OidcClient × Return) × E.World
passes E c resync zero oc w = reconcile_normal E c resync oc w
passes E c resync (suc n) oc w =
    let x = reconcile_normal E c resync oc w in passes E c resync n x.0.0 x.1

-- The id of the client that tsidp registers next, for the object.
abbrev pub next_id : Text → OidcClient → Server → Text → List Text → Text
next_id now oc v u us = (new_client now (registered_name oc) (u ∷ us) (v.next_id + 1)).client_id

-- The object ready with that client, and the result of the pass.
abbrev pub ready_with :
    Environment → Text → ℕ → OidcClient → Server → Text → List Text → OidcClient × Return
ready_with E now resync oc v u us =
    (mark_ready E (with_client_id (next_id now oc v u us) (with_issuer v.issuer oc)), after resync)

module _ {E : Environment} {now : Text} {b : RunsFake E now} (L : IsLawful E) (c : Tsidp.Client)
    (resync : ℕ) where
  -- So many passes, or fewer, come to a registration that is backed and served.
  record Converges (k : ℕ) (oc : OidcClient) (st : RunsStore E now b oc.namespace (secret_name oc))
      (v : Server) (u : Text) (us : List Text) (w : E.World) : Type 0 where
    more : ℕ
    few : more ≤ k
    server : Server
    secret : Secret
    backed : Holds E oc (new oc st c v u us).client_id secret
    served : IsServed oc (new oc st c v u us).client_id server
    comes :
        Comes st
          (ready_with E now resync oc v u us)
          server
          (some secret)
          (passes E c resync more oc w)

  module _ (oc : OidcClient) (st : RunsStore E now b oc.namespace (secret_name oc))
      (own : CanOwn E oc) (v : Server) (u : Text) (us : List Text) (w : E.World)
      (p : IsPassable E now b L oc st own c resync v) (n : is_empty oc.status.client_id ≡ true)
      (e : oc.spec.redirect_uris ≡ u ∷ us) (at : At st v none w) where
    -- With no orphan, the pass registers.
    Converges-now :
        (k : ℕ)
        → find_owned (fingerprint oc) (listing v.clients) ≡ none
        → Converges k oc st v u us w
    unfolding passes
    Converges-now k f =
        let (t, h, r) = first_pass-Comes L oc st own c resync w v p n u us none tt e f at in
        record {
          more = 0;
          few = omega arith;
          server = _;
          secret = t;
          backed = h;
          served = next-IsServed L oc st own c resync w v p n u us e;
          comes = r;
        }

    -- With an orphan, the pass deletes it, and the passes after it do the rest.
    Converges-later :
        (k : ℕ) (fc : FunnelClient)
        → Comes st
            (with_issuer v.issuer oc, after second)
            (record v { clients = erase fc.client_id v.clients })
            none
            (reconcile_normal E c resync oc w)
        → (unfold secret_name in
            Converges k
              (with_issuer v.issuer oc)
              st
              (record v { clients = erase fc.client_id v.clients })
              u
              us
              (reconcile_normal E c resync oc w).1)
        → Converges (suc k) oc st v u us w
    unfolding passes secret_name fingerprint controlled_by registered_name display_name drifted
    Converges-later k fc r rest = record {
      more = suc rest.more;
      few = omega (arith, rest.few);
      server = rest.server;
      secret = rest.secret;
      backed = record { owned = rest.backed.owned; credentials = rest.backed.credentials };
      served = record {
        client = rest.served.client;
        found = rest.served.found;
        undrifted = rest.served.undrifted;
      };
      comes =
          subst
            (λ (y : OidcClient × Return).
              Comes st (ready_with E now resync oc v u us) rest.server (some rest.secret)
                (passes E c resync rest.more y.0 (reconcile_normal E c resync oc w).1))
            (sym r.result) rest.comes;
    }

  converges :
      (k : ℕ) (oc : OidcClient) (st : RunsStore E now b oc.namespace (secret_name oc))
      (own : CanOwn E oc) (v : Server) (u : Text) (us : List Text) (w : E.World)
      → orphans (fingerprint oc) v.clients ≤ k
      → IsKeyed v.clients
      → IsPassable E now b L oc st own c resync v
      → is_empty oc.status.client_id ≡ true
      → oc.spec.redirect_uris ≡ u ∷ us
      → At st v none w
      → Converges k oc st v u us w
  unfolding secret_name fingerprint controlled_by
  converges zero oc st own v u us w few keyed p n e at =
      elim (Option-cases (find_owned (fingerprint oc) (listing v.clients))) [
        | inl f ↦ Converges-now oc st own v u us w p n e at 0 f
        | inr (fc, f) ↦
            let o = find_owned-IsOrphan (fingerprint oc) fc v.clients keyed f in
            absurd (omega (arith, few, o.fewer))
      ]
  converges (suc k) oc st own v u us w few keyed p n e at =
      elim (Option-cases (find_owned (fingerprint oc) (listing v.clients))) [
        | inl f ↦ Converges-now oc st own v u us w p n e at (suc k) f
        | inr (fc, f) ↦
            let o = find_owned-IsOrphan (fingerprint oc) fc v.clients keyed f in
            let r = burning_pass-Comes L oc st own c resync v fc w p n f o at in
            let fewer : orphans (fingerprint oc) (erase fc.client_id v.clients) ≤ k =
              omega (arith, few, o.fewer) in
            Converges-later oc st own v u us w p n e at k fc r (
              converges k (with_issuer v.issuer oc) st own
                (record v { clients = erase fc.client_id v.clients }) u us
                (reconcile_normal E c resync oc w).1 fewer
                (erase-IsKeyed fc.client_id v.clients keyed)
                (record { good = p.good; issuer = p.issuer; unrenamed = p.unrenamed }) n e r.at)
      ]

module _ (E : Environment) (now : Text) (b : RunsFake E now) (L : IsLawful E) (oc : OidcClient)
    (st : RunsStore E now b oc.namespace (secret_name oc)) (own : CanOwn E oc) (c : Tsidp.Client)
    (resync : ℕ) where
  -- Over a cluster that keeps the object's Secret and a tsidp that answers as the fake does, which
  -- has an issuer and whose clients stand under their ids, none of them empty: an object with a
  -- redirect URI, all without white space and control characters, with no client, no renamed
  -- Secret and no Secret held, is ready after at most as many passes as there are clients with its
  -- fingerprint, and one more, each pass over the object that the one before it left, with the
  -- client that tsidp gave out, which tsidp then serves without drift.
  pub passes_converge :
      (w : E.World) (u : Text) (us : List Text)
      → IsPassable E now b L oc st own c resync (b.server w)
      → IsKeyed (b.server w).clients
      → is_empty oc.status.client_id ≡ true
      → oc.spec.redirect_uris ≡ u ∷ us
      → st.held w ≡ none
      → (n : ℕ) × (n ≤ orphans (fingerprint oc) (b.server w).clients)
        × ((passes E c resync n oc w).0 ≡ ready_with E now resync oc (b.server w) u us)
        × IsServed oc (next_id now oc (b.server w) u us) (b.server (passes E c resync n oc w).1)
  passes_converge w u us p keyed n e h =
      let r =
        converges L c resync (orphans (fingerprint oc) (b.server w).clients) oc st own (b.server w)
          u us w (omega arith) keyed p n e (record { server = refl; held = h }) in
      (r.more, r.few, r.comes.result, subst (IsServed oc _) (sym r.comes.at.server) r.served)
