-- ===== src/Controller/Normal/Verdict.antt =====
-- How a pass ends: the condition, the result and the object go together.
use tsidp_operator.Prelude.{ℕ, ◌≡◌, refl, ap, subst, Bool, true, false, [], some, String}
use tsidp_operator.Text.{is_empty_sound}
use tsidp_operator.Fault.{Message}
use tsidp_operator.Tsidp
use tsidp_operator.Tsidp.{ProviderMetadata}
use tsidp_operator.Api.{OidcClient, ObjectMeta, Condition, condition_ready}
use tsidp_operator.Controller.Environment.{Environment, IsLawful, find_condition}
use tsidp_operator.Controller.Names.{secret_name}
use tsidp_operator.Controller.Status.{
  second, err_backoff, Return, after, set_cond, not_ready, mark_ready,
}
use tsidp_operator.Controller.Registration.Backing.{IsSame, secret_name-Same}
use tsidp_operator.Controller.Normal.{reconcile_normal}
use tsidp_operator.Controller.Normal.Identity.{Same-new}
use tsidp_operator.Controller.Normal.Requests.{constant-KeptByCalls}
use tsidp_operator.Controller.Normal.Ends.{IsFrame, reconcile_normal-Ended}

-- The object says that it is ready, or not, as of a generation.
pub record Reports (status : Bool) (generation : ℕ) (oc : OidcClient) : Type 0 where
  pub condition : Condition
  pub found : find_condition condition_ready oc.status.conditions ≡ some condition
  pub reported : condition.status ≡ status
  pub observed : condition.observed_generation ≡ generation

-- The ends of a pass over the object `oc`, with the object and the result that it comes to.
pub data Verdict (resync : ℕ) (oc : OidcClient) : OidcClient → Return → Type 0 where
  -- Ready, with the Secret's name recorded: the next pass is a matter of routine.
  ready :
      {oc' : OidcClient}
      → Reports true oc.generation oc'
      → oc'.status.secret_name ≡ secret_name oc
      → Verdict resync oc oc' (after resync)
  -- Not ready: the pass is tried again after the backoff.
  blocked :
      {oc' : OidcClient}
      → Reports false oc.generation oc'
      → Verdict resync oc oc' (after err_backoff)
  -- No client is recorded: the next pass registers one at once.
  anew : {oc' : OidcClient} → oc'.status.client_id ≡ [] → Verdict resync oc oc' (after second)

module _ (E : Environment) (L : IsLawful E) where
  set_cond-Reports :
      (oc : OidcClient) (status : Bool) (reason : String) (msg : Message)
      → Reports status oc.generation (set_cond E oc status reason msg)
  unfolding set_cond
  set_cond-Reports oc status reason msg =
      let (d, found, same) = L.find-set oc.status.conditions _ in
      record {
        condition = d;
        found = found;
        reported = same.status;
        observed = same.observed_generation;
      }

module _ (E : Environment) (L : IsLawful E) (c : Tsidp.Client) (resync : ℕ) (oc : OidcClient) where
  abbrev Same : OidcClient → Type 0
  Same oc' = IsSame oc' oc

  -- The generation is part of the metadata.
  Reports-Same :
      (s : Bool) (oc' x : OidcClient)
      → Same oc'
      → Reports s oc'.generation x
      → Reports s oc.generation x
  Reports-Same s oc' x i r =
      subst (λ g. Reports s g x) (ap (λ (m : ObjectMeta). m.generation) i.metadata) r

  Verdict-IsFrame : IsFrame E resync (λ oc' w. Same oc') (λ x w. Verdict resync oc x.0 x.1)
  unfolding not_ready mark_ready
  Verdict-IsFrame = record {
    kept = λ _. constant-KeptByCalls E _;
    issued = λ _ _ _ i. record { spec = i.spec; metadata = i.metadata };
    named = λ _ _ _ i. record { spec = i.spec; metadata = i.metadata };
    halted = λ oc' reason msg _ i.
        blocked (Reports-Same false oc' _ i (set_cond-Reports E L oc' false reason msg));
    readied = λ oc' _ i.
        ready (Reports-Same true oc' _ i (set_cond-Reports E L _ true _ _))
          (secret_name-Same oc' oc i);
    forgotten = λ _ _ _. anew refl;
    spared = λ oc' _ e _. anew (is_empty_sound _ e);
  }

  -- With lawful cluster libraries, whatever tsidp and the cluster answer, a pass has one of three
  -- ends, none with an error: the object reports Ready true for its generation, with its Secret's
  -- name recorded, and comes back after the resync interval; it reports Ready false for its
  -- generation, and comes back after the back-off; or no client is recorded, and it comes back
  -- after a second.
  pub pass-Verdict :
      (w : E.World)
      → Verdict resync oc
          (reconcile_normal E c resync oc w).0.0
          (reconcile_normal E c resync oc w).0.1
  pass-Verdict w =
      (reconcile_normal-Ended E c resync (λ oc' w. Same oc') (λ x w. Verdict resync oc x.0 x.1)
        Verdict-IsFrame (λ oc' disc w' g _. Same-new E L c resync oc oc' disc w' g) oc w
        (record { spec = refl; metadata = refl })).stands
