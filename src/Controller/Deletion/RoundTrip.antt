-- ===== src/Controller/Deletion/RoundTrip.antt =====
-- An object that is registered and then deleted.
use tsidp_operator.Prelude.{ℕ, ◌+◌, ◌≡◌, refl, ap, ◌∙◌, true, false, List, ◌∷◌, none}
use tsidp_operator.Prelude.Map.{erase, erase-insert}
use tsidp_operator.Text.{Text, is_empty, text_eq}
use tsidp_operator.Tsidp
use tsidp_operator.Fake.{Server}
use tsidp_operator.Fake.Handlers.{new_client}
use tsidp_operator.Fake.Invariant.{IsValid, new_client-fresh}
use tsidp_operator.Fake.Json.{listing}
use tsidp_operator.Fake.Contract.Register.{registration}
use tsidp_operator.Api.{OidcClient}
use tsidp_operator.Controller.Environment.{Environment, IsLawful}
use tsidp_operator.Controller.Names.{secret_name, registered_name, fingerprint}
use tsidp_operator.Controller.Status.{mark_ready}
use tsidp_operator.Controller.Registration.{find_owned}
use tsidp_operator.Controller.Normal.{reconcile_normal}
use tsidp_operator.Controller.Normal.Steady.{IsPassable}
use tsidp_operator.Controller.Normal.Orphans.{next_id}
use tsidp_operator.Controller.Normal.Recovery.{first_pass-Comes}
use tsidp_operator.Controller.Reconcile.{reconcile}
use tsidp_operator.Controller.Store.{RunsStore, CanOwn}
use tsidp_operator.Controller.Store.Writes.{MayWrite}
use tsidp_operator.Controller.Deletion.{release}
use tsidp_operator.Controller.Deletion.Sweep.{RunsFake}
use tsidp_operator.Controller.Deletion.Completion.{IsDeleted, deletion_erases}

next_id-not_empty :
    (now : Text) (oc : OidcClient) (v : Server) (u : Text) (us : List Text)
    → is_empty (next_id now oc v u us) ≡ false
unfolding new_client
next_id-not_empty now oc v u us = refl

-- The clients are as they were once the next one is registered and erased.
erase-registration :
    (now : Text) (oc : OidcClient) (v : Server) (u : Text) (us : List Text)
    → IsValid v
    → erase (next_id now oc v u us) (registration now (registered_name oc) (u ∷ us) v).1.clients
      ≡ v.clients
erase-registration now oc v u us k =
    erase-insert (next_id now oc v u us)
      (new_client now (registered_name oc) (u ∷ us) (v.next_id + 1)) v.clients
      (new_client-fresh now (registered_name oc) (u ∷ us) v k)

module _ (E : Environment) (now : Text) (b : RunsFake E now) (L : IsLawful E) (oc : OidcClient)
    (st : RunsStore E now b oc.namespace (secret_name oc)) (own : CanOwn E oc) (c : Tsidp.Client)
    (resync : ℕ) where
  -- Over a cluster that keeps the object's Secret and a tsidp that answers as the fake does, in a
  -- valid state and with an issuer: after a pass over an object with a redirect URI, all without
  -- white space and control characters, with no client, no renamed Secret, no Secret held or one
  -- that the object controls, and no client of tsidp with its fingerprint, a reconciliation that
  -- reads an object with the id that the pass recorded as deleted, with the finalizer, no force-
  -- remove annotation and another policy than Orphan, while tsidp is as the pass left it, does
  -- just what the release of the finalizer does from a world in which tsidp has the clients that
  -- it had before the pass.
  pub registered_deleted :
      (w : E.World) (u : Text) (us : List Text)
      → IsPassable E now b L oc st own c resync (b.server w)
      → IsValid (b.server w)
      → is_empty oc.status.client_id ≡ true
      → oc.spec.redirect_uris ≡ u ∷ us
      → MayWrite E oc (st.held w)
      → find_owned (fingerprint oc) (listing (b.server w).clients) ≡ none
      → (oc' : OidcClient) (namespace name : Text) (w₁ w₂ : E.World)
      → IsDeleted E now b c oc' namespace name w₁ w₂
      → oc'.status.client_id ≡ (reconcile_normal E c resync oc w).0.0.status.client_id
      → b.server w₂ ≡ b.server (reconcile_normal E c resync oc w).1
      → (v : E.World) × (reconcile E c resync namespace name w₁ ≡ release E c oc' v)
        × ((b.server v).clients ≡ (b.server w).clients)
  unfolding new_client mark_ready
  registered_deleted w u us p valid n e m f oc' namespace name w₁ w₂ d id same =
      let v = b.server w in
      let (t, k, r) =
        first_pass-Comes L oc st own c resync w v p n u us (st.held w) m e f
          (record { server = refl; held = refl }) in
      let id' : oc'.status.client_id ≡ next_id now oc v u us =
        id ∙ ap (λ x. x.0.status.client_id) r.result in
      let (x, q, s) =
        deletion_erases E now b c oc' resync namespace name w₁ w₂ d
          (ap is_empty id' ∙ next_id-not_empty now oc v u us) in
      (
        x,
        q,
        s
            ∙ (ap (λ i. erase i (b.server w₂).clients) id'
                ∙ (ap (λ (y : Server). erase (next_id now oc v u us) y.clients) (same ∙ r.at.server)
                    ∙ erase-registration now oc v u us valid)),
      )
