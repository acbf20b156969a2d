-- ===== src/Controller/Reconcile/Errors.antt =====
-- Which failures `Reconcile` hands to controller-runtime as an error: refusals by the API server of
-- the object itself, and no failure of tsidp's or of a Secret's.
use tsidp_operator.Prelude.{
  ℕ, Bool, ◌≡◌, refl, sym, ap, subst, ◌∙◌, true, false, not, Option, none, some, if◌then◌else◌,
}
use tsidp_operator.Prelude.Map.{lookup}
use tsidp_operator.Prelude.{String, string_eq, List, [], ◌∷◌, Bool-cases, inl, inr}
use tsidp_operator.Text.{Text, is_empty}
use tsidp_operator.Text.Find.{has_substring}
use tsidp_operator.Fault.{Error, ok, err, is_not_found, is_conflict}
use tsidp_operator.Tsidp
use tsidp_operator.Tsidp.{FunnelClient}
use tsidp_operator.Tsidp.Methods.{delete_client}
use tsidp_operator.Api.{OidcClient, DeletionPolicy, orphan}
use tsidp_operator.Controller.Environment.{Environment, http}
use tsidp_operator.Controller.Names.{fingerprint}
use tsidp_operator.Controller.Status.{Return, failing, after, second, not_ready, mark_ready}
use tsidp_operator.Controller.Registration.{serious}
use tsidp_operator.Controller.Normal.{reconcile_normal}
use tsidp_operator.Controller.Normal.Frame.{handle_cases, if_cases}
use tsidp_operator.Controller.Normal.Requests.{constant-KeptByCalls}
use tsidp_operator.Controller.Normal.Ends.{IsFrame, reconcile_normal-Ended}
use tsidp_operator.Controller.Deletion.{
  finalizer_name, force_remove_finalizer_annotation, without_finalizer, deregister_known,
  deregister_listed, deregister_unknown, deregister, finalize, release, reconcile_delete,
}
use tsidp_operator.Controller.Reconcile.{
  with_finalizer, ensure_finalizer, observed, write_status, reconcile_found, reconcile,
}

-- An error with which the API server refused a call on the object.
pub data Refused (E : Environment) (e : Error) : Type 0 where
  read :
      (ns name : Text) (w : E.World)
      → (E.get_object ns name w).0 ≡ err e
      → is_not_found e ≡ false
      → Refused E e
  update : (oc : OidcClient) (w : E.World) → (E.update_object oc w).0 ≡ err e → Refused E e
  status :
      (oc : OidcClient) (w : E.World)
      → (E.update_status oc w).0 ≡ err e
      → is_conflict e ≡ false
      → Refused E e

module _ (E : Environment) where
  -- A result with an error has one of those.
  pub record Blames {W : Type 0} (x : Return × W) : Type 0 where
    pub blame : (e : Error) → x.0.error ≡ some e → Refused E e

  -- A part of a deletion that ends the pass does so without an error.
  record Retries {W : Type 0} (x : Option Return × W) : Type 0 where
    calm : (r : Return) → x.0 ≡ some r → r.error ≡ none

module _ (E : Environment) (c : Tsidp.Client) (resync : ℕ) where
  Calm-IsFrame : IsFrame E resync (λ oc w. Unit {0}) (λ x w. x.1.error ≡ none)
  unfolding not_ready mark_ready
  Calm-IsFrame = record {
    kept = λ _. constant-KeptByCalls E _;
    issued = λ _ _ _ _. tt;
    named = λ _ _ _ _. tt;
    halted = λ _ _ _ _ _. refl;
    readied = λ _ _ _. refl;
    forgotten = λ _ _ _. refl;
    spared = λ _ _ _ _. refl;
  }

  reconcile_normal-calm :
      (oc : OidcClient) (w : E.World) → (reconcile_normal E c resync oc w).0.1.error ≡ none
  reconcile_normal-calm oc w =
      (reconcile_normal-Ended E c resync (λ oc w. Unit {0}) (λ x w. x.1.error ≡ none) Calm-IsFrame
        (λ _ _ _ _ _. record { object = λ _ _ _. tt }) oc w tt).stands

  deregister_known-Retries : (oc : OidcClient) (w : E.World) → Retries E (deregister_known E c oc w)
  unfolding deregister_known
  deregister_known-Retries oc w =
      by_result (serious (delete_client (http E) c oc.status.client_id w).0) refl
    where
      by_result :
          (r : Option Error)
          → serious (delete_client (http E) c oc.status.client_id w).0 ≡ r
          → Retries E (deregister_known E c oc w)
      by_result (some e) p = rw (deregister_known, p) (record { calm = λ r q. cc })
      by_result none p = rw (deregister_known, p) (record { calm = λ r q. cc })

  deregister_listed-Retries :
      (fp : Text) (xs : List FunnelClient) (w : E.World) → Retries E (deregister_listed E c fp xs w)
  unfolding deregister_listed
  deregister_listed-Retries fp [] w = record { calm = λ r q. cc }
  deregister_listed-Retries fp (x ∷ xs) w = elim (Bool-cases (has_substring x.client_name fp)) [
    | inl e ↦
        by_result e (serious (delete_client (http E) c x.client_id w).0) refl
          (λ w'. deregister_listed-Retries fp xs w')
    | inr e ↦ rw (deregister_listed, e) (deregister_listed-Retries fp xs w)
  ]
    where
      by_result :
          has_substring x.client_name fp ≡ true
          → (r : Option Error) → serious (delete_client (http E) c x.client_id w).0 ≡ r
          → ((w' : E.World) → Retries E (deregister_listed E c fp xs w'))
          → Retries E (deregister_listed E c fp (x ∷ xs) w)
      by_result e (some f) p rest = rw (deregister_listed, e, p) (record { calm = λ r q. cc })
      by_result e none p rest = rw (deregister_listed, e, p) (rest _)

  deregister-Retries : (oc : OidcClient) (w : E.World) → Retries E (deregister E c oc w)
  unfolding deregister deregister_unknown
  deregister-Retries oc w =
      if_cases (Retries E) (not (is_empty oc.status.client_id)) _ _
        (λ _. deregister_known-Retries oc w)
        (λ _.
          handle_cases (Retries E) _ _ _ _ (λ _ _. record { calm = λ r q. cc })
            (λ list _. deregister_listed-Retries (fingerprint oc) list _))

  finalize-Retries : (oc : OidcClient) (w : E.World) → Retries E (finalize E c oc w)
  unfolding finalize
  finalize-Retries oc w =
      by_force (lookup force_remove_finalizer_annotation oc.annotations) oc.spec.deletion_policy
    where
      by_force :
          (f : Option String) (d : DeletionPolicy)
          → Retries E {W = E.World} (elim f [
            | some v ↦ (none, w)
            | none ↦ elim d [ orphan ↦ (none, w) | _ ↦ deregister E c oc w ]
          ])
      by_force (some v) d = record { calm = λ r q. cc }
      by_force none orphan = record { calm = λ r q. cc }
      by_force none DeletionPolicy.deregister = deregister-Retries oc w
      by_force none (DeletionPolicy.other t) = deregister-Retries oc w

  release-Blames : (oc : OidcClient) (w : E.World) → Blames E (release E c oc w)
  unfolding release
  release-Blames oc w =
      handle_cases (Blames E) _ _ _ _
        (λ e p. record {
          blame = λ e' q. let s : e ≡ e' = cc in update (without_finalizer E c oc) w (p ∙ ap err s);
        })
        (λ _ _. record { blame = λ e' q. cc })

  reconcile_delete-Blames : (oc : OidcClient) (w : E.World) → Blames E (reconcile_delete E c oc w)
  unfolding reconcile_delete
  reconcile_delete-Blames oc w =
      if_cases (Blames E) (not (E.contains_finalizer oc.finalizers finalizer_name)) _ _
        (λ _. record { blame = λ e q. cc })
        (λ _. by_result (finalize E c oc w).1 (finalize E c oc w).0 (finalize-Retries oc w).calm)
    where
      by_result :
          (w' : E.World) (r : Option Return)
          → ((s : Return) → r ≡ some s → s.error ≡ none)
          → Blames E {W = E.World} (elim r [ some ret ↦ (ret, w') | none ↦ release E c oc w' ])
      by_result w' (some ret) h = record { blame = λ e q. let n = h ret refl in cc }
      by_result w' none h = release-Blames oc w'

  write_status-Blames :
      (x : (OidcClient × Return) × E.World)
      → x.0.1.error ≡ none
      → Blames E (write_status E c resync x)
  unfolding write_status
  write_status-Blames ((oc, r), w) n =
      handle_cases (Blames E) _ _ _ _ (λ e p. by_conflict e p _ (is_conflict e) refl)
        (λ _ _. record { blame = λ e' q. cc })
    where
      by_conflict :
          (e : Error)
          → (E.update_status (observed E c resync oc) w).0 ≡ err e
          → (w' : E.World) (b : Bool) → is_conflict e ≡ b
          → Blames E {W = E.World} (if b then after second else failing e, w')
      by_conflict e p w' true k = record { blame = λ e' q. cc }
      by_conflict e p w' false k = record {
        blame = λ e' q.
            let s : e ≡ e' = cc in
            status (observed E c resync oc) w (p ∙ ap err s)
              (subst (λ x. is_conflict x ≡ false) s k);
      }

  ensure_finalizer-Refused :
      (oc : OidcClient) (w : E.World) (e : Error)
      → (ensure_finalizer E c resync oc w).0 ≡ err e
      → Refused E e
  unfolding ensure_finalizer
  ensure_finalizer-Refused oc w e p =
      elim (Bool-cases (E.contains_finalizer oc.finalizers finalizer_name)) [
        | inl k ↦ absurd (cc (kept k, p))
        | inr k ↦ update (with_finalizer E c resync oc) w (sym (stores k) ∙ p)
      ]
    where
      kept :
          E.contains_finalizer oc.finalizers finalizer_name ≡ true
          → (ensure_finalizer E c resync oc w).0 ≡ ok oc
      kept k = rw (ensure_finalizer, k) refl

      stores :
          E.contains_finalizer oc.finalizers finalizer_name ≡ false
          → (ensure_finalizer E c resync oc w).0
            ≡ (E.update_object (with_finalizer E c resync oc) w).0
      stores k = rw (ensure_finalizer, k) refl

  reconcile_found-Blames :
      (oc : OidcClient) (w : E.World) → Blames E (reconcile_found E c resync oc w)
  reconcile_found-Blames oc w =
      if_cases (Blames E) oc.deleting _ _ (λ _. reconcile_delete-Blames oc w)
        (λ _.
          handle_cases (Blames E) _ _ _ _
            (λ e p. record {
              blame = λ e' q.
                  let s : e ≡ e' = cc in subst (Refused E) s (ensure_finalizer-Refused oc w e p);
            })
            (λ oc' p. write_status-Blames _ (reconcile_normal-calm oc' _)))

  reconcile-Blames : (ns name : Text) (w : E.World) → Blames E (reconcile E c resync ns name w)
  unfolding reconcile
  reconcile-Blames ns name w =
      handle_cases (Blames E) _ _ _ _ (λ e p. by_missing e p _ (is_not_found e) refl)
        (λ oc p. reconcile_found-Blames oc _)
    where
      by_missing :
          (e : Error)
          → (E.get_object ns name w).0 ≡ err e
          → (w' : E.World) (b : Bool) → is_not_found e ≡ b
          → Blames E {W = E.World} (if b then after 0 else failing e, w')
      by_missing e p w' true k = record { blame = λ e' q. cc }
      by_missing e p w' false k = record {
        blame = λ e' q.
            let s : e ≡ e' = cc in
            read ns name w (p ∙ ap err s) (subst (λ x. is_not_found x ≡ false) s k);
      }

  -- If a reconciliation returns an error, then it is one with which the API server refused to read
  -- the object, other than that it is missing, to update it, or to write its status, other than by
  -- a conflict: no failure of tsidp or of a Secret is returned as an error.
  pub reconcile_error :
      (ns name : Text) (w : E.World) (e : Error)
      → (reconcile E c resync ns name w).0.error ≡ some e
      → Refused E e
  reconcile_error ns name w e p = (reconcile-Blames ns name w).blame e p
