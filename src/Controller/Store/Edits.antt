-- ===== src/Controller/Store/Edits.antt =====
-- `UpdateClient` over such a cluster.
use tsidp_operator.Prelude.{ℕ, ◌≡◌, ◌≢◌, refl, ap, ◌∙◌, false, List, [], ◌∷◌, Option, some}
use tsidp_operator.Prelude.Map.{lookup, insert}
use tsidp_operator.Text.{Text, is_empty, text_eq}
use tsidp_operator.Text.Lines.{AllSolid, trim_all-NoSpace}
use tsidp_operator.Fault.{ok}
use tsidp_operator.Tsidp
use tsidp_operator.Tsidp.{FunnelClient}
use tsidp_operator.Tsidp.Methods.{read_back, update_client}
use tsidp_operator.Fake.{Client, Server}
use tsidp_operator.Fake.Handlers.{serve_http, blank, any_rejected, html}
use tsidp_operator.Fake.Json.{visible}
use tsidp_operator.Fake.Contract.Edit.{
  edit_request, edit_accepted, renamed, posted, found_after, confirmed,
}
use tsidp_operator.Api.{Secret}
use tsidp_operator.Controller.Environment.{Environment, http}
use tsidp_operator.Controller.Deletion.Sweep.{RunsFake}
use tsidp_operator.Controller.Store.{RunsStore, At, Comes, proceed-Comes}
use tsidp_operator.Controller.Store.Calls.{get_client-Comes}

-- The server after an accepted edit of a client.
abbrev pub edited_server : Text → Text → List Text → Client → Server → Server
edited_server id name uris cl v = record v { clients = insert id (renamed name uris cl) v.clients }

module _ {E : Environment} {now : Text} {b : RunsFake E now} {ns name : Text}
    (st : RunsStore E now b ns name) (c : Tsidp.Client) (x : ℕ) (id want u : Text) (us : List Text)
    (v : Server) {h : Option Secret} (cl : Client) (found : lookup (x ∷ id) v.clients ≡ some cl)
    (solid : AllSolid (u ∷ us)) (allowed : any_rejected (u ∷ us) ≡ false) where
  posted-Comes :
      (w : E.World)
      → At st v h w
      → Comes st
          (ok (html "<html><body>client updated</body></html>"))
          (edited_server (x ∷ id) want (u ∷ us) cl v)
          h
          (E.send (edit_request c (x ∷ id) want (u ∷ us)) w)
  posted-Comes w at =
      let r = edit_request c (x ∷ id) want (u ∷ us) in
      let e = posted now c x id want u us v cl found solid allowed in
      record {
        result = b.reply r w ∙ ap (λ s. ok (serve_http now r s).0) at.server ∙ ap (λ y. ok y.0) e;
        at = record {
          server = b.effect r w ∙ ap (λ s. (serve_http now r s).1) at.server ∙ ap (λ y. y.1) e;
          held = st.send_held r w ∙ at.held;
        };
      }

  read_back-Comes :
      (w : E.World)
      → At st (edited_server (x ∷ id) want (u ∷ us) cl v) h w
      → Comes st
          (ok (visible (blank (renamed want (u ∷ us) cl))))
          (edited_server (x ∷ id) want (u ∷ us) cl v)
          h
          (read_back (http E) c (x ∷ id) w)
  unfolding read_back
  read_back-Comes w at =
      let g =
        get_client-Comes st c w at (x ∷ id) (renamed want (u ∷ us) cl) refl
          (found_after now c x id want u us v cl found solid allowed) in
      record { result = rw (read_back, g.result) refl; at = g.at }

  pub update_client-Comes :
      (w : E.World)
      → At st v h w
      → Comes st
          (ok tt)
          (edited_server (x ∷ id) want (u ∷ us) cl v)
          h
          (update_client (http E) c (x ∷ id) want (u ∷ us) w)
  unfolding update_client
  update_client-Comes w at = proceed-Comes st _ _ (posted-Comes w at) (λ w₁ at₁. rw edit_accepted (
      proceed-Comes st _ _ (read_back-Comes w₁ at₁) (λ w₂ at₂. record {
        result =
            rw (trim_all-NoSpace (u ∷ us) solid.no_space solid.not_empty)
              (confirmed now c x id want u us v cl found solid allowed);
        at = at₂;
      })))

-- The same for any id and URIs, neither of them empty.
pub update_client-edits :
    {E : Environment} {now : Text} {b : RunsFake E now} {ns name : Text}
    (st : RunsStore E now b ns name) (c : Tsidp.Client) (id want : Text) (uris : List Text)
    (v : Server) {h : Option Secret} (cl : Client) (w : E.World)
    → is_empty id ≡ false
    → uris ≢ []
    → lookup id v.clients ≡ some cl
    → AllSolid uris
    → any_rejected uris ≡ false
    → At st v h w
    → Comes st (ok tt) (edited_server id want uris cl v) h (update_client (http E) c id want uris w)
update_client-edits st c [] want uris v cl w n l f solid allowed at = cc
update_client-edits st c (x ∷ id) want [] v cl w n l f solid allowed at = absurd (l refl)
update_client-edits st c (x ∷ id) want (u ∷ us) v cl w n l f solid allowed at =
    update_client-Comes st c x id want u us v cl f solid allowed w at
