-- ===== src/Controller/Normal/Repair.antt =====
-- Drift, and what registrations and updates leave of it.
use mathlib.Core.List.{Perm}
use mathlib.Core.List.Perm
use tsidp_operator.Prelude.{
  ℕ, ◌≡◌, ◌↔◌, refl, sym, ap, subst, ◌∙◌, true, false, List, [], ◌∷◌, some, arith,
}
use tsidp_operator.Prelude.Map.{lookup}
use tsidp_operator.Text.{Text, text_eq}
use tsidp_operator.Text.Find.{has_substring}
use tsidp_operator.Text.Order.{equal_sorted_iff}
use tsidp_operator.Text.Lines.{AllSolid, trim_all-NoSpace}
use tsidp_operator.Fault.{ok}
use tsidp_operator.Tsidp
use tsidp_operator.Tsidp.{FunnelClient}
use tsidp_operator.Tsidp.Methods.{register, update_client}
use tsidp_operator.Fake.{Client, Server}
use tsidp_operator.Fake.Handlers.{new_client}
use tsidp_operator.Fake.Json.{visible}
use tsidp_operator.Fake.Contract.{fake_http}
use tsidp_operator.Fake.Contract.Register.{register_lem, registration}
use tsidp_operator.Fake.Contract.Edit.{update_client-stored}
use tsidp_operator.Api.{OidcClient}
use tsidp_operator.Controller.Names.{fingerprint, registered_name}
use tsidp_operator.Controller.Names.Ownership.{IsAdmitted, carries_own, registered_name-trimmed}
use tsidp_operator.Controller.Registration.{registration_request}
use tsidp_operator.Controller.Normal.{drifted}

-- The drift test finds no drift if and only if the client has the registered name and a
-- permutation of the spec's redirect URIs.
pub drifted_iff :
    (oc : OidcClient) (fc : FunnelClient)
    → (drifted oc fc ≡ false)
      ↔ ((fc.client_name ≡ registered_name oc) × Perm fc.redirect_uris oc.spec.redirect_uris)
unfolding drifted
drifted_iff oc fc =
    let (sound, complete) = equal_sorted_iff fc.redirect_uris oc.spec.redirect_uris in
    (λ h. (ground arith, sound (ground arith)), λ (n, p). let c = complete p in ground arith)

registration-ok :
    (now name : Text) (uris : List Text) (s : Server) (fc : FunnelClient)
    → (registration now name uris s).0 ≡ ok fc
    → (fc.client_name ≡ name) × (fc.redirect_uris ≡ uris)
unfolding new_client
registration-ok now name [] s fc h = cc
registration-ok now name (u ∷ us) s fc h = (cc, cc)

-- Against the fake, a client that a registration for an object returns shows no drift from it, and
-- its name contains the object's fingerprint.
pub register-undrifted :
    (now : Text) (c : Tsidp.Client) (oc : OidcClient) (s : Server) (fc : FunnelClient)
    → (register (fake_http now) c (registration_request oc) s).0 ≡ ok fc
    → (drifted oc fc ≡ false) × (has_substring fc.client_name (fingerprint oc) ≡ true)
unfolding registration_request
register-undrifted now c oc s fc h =
    let (n, u) =
      registration-ok now (registered_name oc) oc.spec.redirect_uris s fc
        (ap (λ r. r.0) (sym (register_lem now c (registration_request oc) s)) ∙ h) in
    (
      (drifted_iff oc fc).1
          (n, subst (λ l. Perm l oc.spec.redirect_uris) (sym u) (Perm.refl oc.spec.redirect_uris)),
      rw n (carries_own oc oc (refl, refl, refl)),
    )

-- Against the fake: if the in-place repair of a client with a non-empty id succeeds, for an object
-- that the API server admits and whose redirect URIs are not empty and hold no white space, then
-- the server holds a client under the id that shows no drift from the object.
pub update_client-undrifted :
    (now : Text) (c : Tsidp.Client) (x : ℕ) (id : Text) (oc : OidcClient) (s : Server)
    → IsAdmitted oc
    → AllSolid oc.spec.redirect_uris
    → (update_client (fake_http now) c (x ∷ id) (registered_name oc) oc.spec.redirect_uris s).0
      ≡ ok tt
    → (cl : Client) × (lookup
          (x ∷ id)
          (update_client
            (fake_http now)
            c
            (x ∷ id)
            (registered_name oc)
            oc.spec.redirect_uris
            s).1.clients
        ≡ some cl)
      × (drifted oc (visible cl) ≡ false)
update_client-undrifted now c x id oc s v solid h =
    let (cl, found, n, p) =
      update_client-stored now c x id (registered_name oc) oc.spec.redirect_uris s h in
    (
      cl,
      found,
      (drifted_iff oc (visible cl)).1 (
        n ∙ registered_name-trimmed oc v,
        subst (λ l. Perm cl.redirect_uris l)
            (trim_all-NoSpace oc.spec.redirect_uris solid.no_space solid.not_empty) p,
      ),
    )
