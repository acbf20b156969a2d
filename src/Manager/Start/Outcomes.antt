-- ===== src/Manager/Start/Outcomes.antt =====
-- How `main` ends, from the parsed flags on: what has happened when it returns, and that a set-up
-- that fails keeps the manager from being started.
use tsidp_operator.Prelude.{
  ℕ, ◌≡◌, refl, sym, ◌∙◌, ap, ◌↔◌, Bool, true, false, ◌&&◌, ◌||◌, not, [], ◌∷◌, Option, none, some,
  String, map, contains, Bool-cases, inl, inr,
}
use tsidp_operator.Prelude.Map.{Map}
use tsidp_operator.Text.{Text, text_eq, is_empty}
use tsidp_operator.Text.Trim.{trim_space}
use tsidp_operator.Text.Lines.{split}
use tsidp_operator.Fault.{Error, Exec, ok, err, errorf}
use tsidp_operator.Tsidp
use tsidp_operator.Tsidp.Methods.{discovery}
use tsidp_operator.Fake.{Server}
use tsidp_operator.Fake.Contract.{fake_http}
use tsidp_operator.Fake.Contract.Reads.{discovery_lem, metadata_if}
use tsidp_operator.Controller.Status.{handle}
use tsidp_operator.Controller.Normal.Frame.{handle_cases}
use tsidp_operator.Manager.{Scope, everything, only, exits, scope}
use tsidp_operator.Manager.Namespaces.{sees, sees-scope}
use tsidp_operator.Manager.Options.{Flags, CacheOptions, Options, options, idp, reconciler, Builder}
use tsidp_operator.Manager.Start.{
  Outcome, returned, exited, Platform, limited, check_timeout, client_timeout, tsidp_check,
  setup_with_manager, or_exit, run_manager, configure, run_in, run,
}

-- Whether the caches hold the objects of a namespace.
abbrev pub watches : CacheOptions → Text → Bool
watches o k = elim o.default_namespaces [ none ↦ true | some m ↦ sees (only m) k ]

-- The part of a start that the flag scopes.
abbrev pub is_listed : Text → Text → Bool
is_listed flag k =
    is_empty flag || (not (is_empty k) && contains (map trim_space (split 0x2c flag)) k)

module _ (P : Platform) (f : Flags) where
  abbrev check : Exec P.World (Unit {0})
  check = tsidp_check (limited P (check_timeout ∷ client_timeout ∷ [])) (idp f)

  -- The calls of a start, in order, each in the world that the one before left: the configuration
  -- was read, a manager was created with the options, the reconciler and both checks were added to
  -- it, and then it ran to its end without an error; `x` is how this leaves the process.
  pub record Served (namespaces : Option (Map Text (Unit {0}))) (w : P.World)
      (x : Outcome × P.World) : Type 0 where
    pub config : P.Config
    pub manager : P.Manager
    pub configured : (P.get_config w).0 ≡ ok config
    pub created :
        let w₁ = (P.get_config w).1 in
        (P.new_manager config (options f namespaces) w₁).0 ≡ ok manager
    pub controlled :
        let w₁ = (P.get_config w).1 in
        let w₂ = (P.new_manager config (options f namespaces) w₁).1 in
        (setup_with_manager P (reconciler f manager) w₂).0 ≡ ok tt
    pub alive :
        let w₁ = (P.get_config w).1 in
        let w₂ = (P.new_manager config (options f namespaces) w₁).1 in
        let w₃ = (setup_with_manager P (reconciler f manager) w₂).1 in
        (P.add_healthz_check manager "healthz" P.ping w₃).0 ≡ ok tt
    pub ready :
        let w₁ = (P.get_config w).1 in
        let w₂ = (P.new_manager config (options f namespaces) w₁).1 in
        let w₃ = (setup_with_manager P (reconciler f manager) w₂).1 in
        let w₄ = (P.add_healthz_check manager "healthz" P.ping w₃).1 in
        (P.add_readyz_check manager "tsidp" check w₄).0 ≡ ok tt
    pub ended :
        let w₁ = (P.get_config w).1 in
        let w₂ = (P.new_manager config (options f namespaces) w₁).1 in
        let w₃ = (setup_with_manager P (reconciler f manager) w₂).1 in
        let w₄ = (P.add_healthz_check manager "healthz" P.ping w₃).1 in
        let w₅ = (P.add_readyz_check manager "tsidp" check w₄).1 in
        let end = P.start manager (P.log_info "starting" f w₅) in
        (end.0 ≡ ok tt) × (x ≡ (returned, end.1))

  or_exit-returned :
      {A : Type 0} (step : Exec P.World A) (what : String) (k : A → P.World → Outcome × P.World)
      (w : P.World)
      → (or_exit P step what k w).0 ≡ returned
      → (a : A) × ((step w).0 ≡ ok a)
        × (or_exit P step what k w ≡ k a (step w).1)
        × ((k a (step w).1).0 ≡ returned)
  unfolding or_exit
  or_exit-returned {A} step what k w =
      handle_cases
        (λ (x : Outcome × P.World).
          x.0 ≡ returned
          → (a : A) × ((step w).0 ≡ ok a) × (x ≡ k a (step w).1) × ((k a (step w).1).0 ≡ returned))
        step w _ _ (λ e p q. cc) (λ a p q. (a, p, refl, q))

  run_manager-returned :
      (namespaces : Option (Map Text (Unit {0}))) (w : P.World) (config : P.Config)
      → (P.get_config w).0 ≡ ok config
      → (run_manager P f namespaces config (P.get_config w).1).0 ≡ returned
      → Served namespaces w (run_manager P f namespaces config (P.get_config w).1)
  unfolding run_manager
  run_manager-returned namespaces w config c h =
      let (mgr, p, e₁, h₁) = or_exit-returned _ _ _ _ h in
      let (u₁, q, e₂, h₂) = or_exit-returned _ _ _ _ h₁ in
      let (u₂, r, e₃, h₃) = or_exit-returned _ _ _ _ h₂ in
      let (u₃, s, e₄, h₄) = or_exit-returned _ _ _ _ h₃ in
      let (u₄, t, e₅, h₅) = or_exit-returned _ _ _ _ h₄ in
      record {
        config = config;
        manager = mgr;
        configured = c;
        created = p;
        controlled = q;
        alive = r;
        ready = s;
        ended = (t, e₁ ∙ e₂ ∙ e₃ ∙ e₄ ∙ e₅);
      }

  configure-returned :
      (namespaces : Option (Map Text (Unit {0}))) (w : P.World)
      → (configure P f namespaces w).0 ≡ returned
      → Served namespaces w (configure P f namespaces w)
  unfolding configure
  configure-returned namespaces w =
      handle_cases (λ (x : Outcome × P.World). x.0 ≡ returned → Served namespaces w x) P.get_config
        w _ _ (λ e p q. cc) (λ config p. run_manager-returned namespaces w config p)

  sees-is_listed : (k : Text) → sees (scope f.watch_namespaces) k ≡ is_listed f.watch_namespaces k
  unfolding scope
  sees-is_listed k = elim (Bool-cases (is_empty f.watch_namespaces)) [
    | inl e ↦ rw (scope, e) refl
    | inr e ↦ sees-scope f.watch_namespaces k e ∙ sym (rw e refl)
  ]

  -- A run from a world to an end that was served by caches that hold just the objects of the
  -- listed namespaces.
  abbrev pub Confined : P.World → Outcome × P.World → Type 0
  Confined w x =
      (namespaces : Option (Map Text (Unit {0}))) × Served namespaces w x
      × ((k : Text) → watches (options f namespaces).cache k ≡ is_listed f.watch_namespaces k)

  run_in-returned :
      (s : Scope) (w : P.World)
      → scope f.watch_namespaces ≡ s
      → (run_in P f s w).0 ≡ returned
      → Confined w (run_in P f s w)
  unfolding options
  run_in-returned everything w p h =
      (none, configure-returned none w h, λ k. ap (λ s. sees s k) (sym p) ∙ sees-is_listed k)
  run_in-returned (only m) w p h =
      (some m, configure-returned (some m) w h, λ k. ap (λ s. sees s k) (sym p) ∙ sees-is_listed k)
  run_in-returned exits w p h = cc

  -- If the program returns from its run with parsed flags, then it read its configuration, created
  -- a manager, added the controller, the liveness check and the readiness check to it, and only
  -- then ran it, each without an error and in the world that the call before left, and the run's
  -- last world is the one that the manager left; and the manager's caches hold the objects of just
  -- these namespaces: all of them with an empty watch flag, else the non-empty trimmed parts of
  -- the flag between commas.
  pub returned-Confined : (w : P.World) → (run P f w).0 ≡ returned → Confined w (run P f w)
  unfolding run
  returned-Confined w h = run_in-returned (scope f.watch_namespaces) w refl h

-- The call fails in every state.
abbrev Fails : {W A : Type 0} → Exec W A → Type 0
Fails {W} m = (w : W) → (e : Error) × ((m w).0 ≡ err e)

Fails-absurd : {W A : Type 0} (m : Exec W A) {w : W} {a : A} → Fails m → (m w).0 ≡ ok a → ⊥
Fails-absurd m {w} f p = let (e, q) = f w in cc (p, q)

-- A set-up call that fails, with whatever manager it is given.
pub data IsBlocked (P : Platform) (f : Flags) : Type 0 where
  config : Fails P.get_config → IsBlocked P f
  manager :
      ((c : P.Config) (n : Option (Map Text (Unit {0}))) → Fails (P.new_manager c (options f n)))
      → IsBlocked P f
  controller : ((m : P.Manager) → Fails (setup_with_manager P (reconciler f m))) → IsBlocked P f
  healthz : ((m : P.Manager) → Fails (P.add_healthz_check m "healthz" P.ping)) → IsBlocked P f
  readyz : ((m : P.Manager) → Fails (P.add_readyz_check m "tsidp" (check P f))) → IsBlocked P f

-- Every call of `run` but the start of the manager keeps the property.
pub record KeptBySetup (P : Platform) (Q : P.World → Type 0) : Type 0 where
  pub by_config : (w : P.World) → Q w → Q (P.get_config w).1
  pub by_manager : (c : P.Config) (o : Options) (w : P.World) → Q w → Q (P.new_manager c o w).1
  pub by_complete : (b : Builder P.Manager) (w : P.World) → Q w → Q (P.complete b w).1
  pub by_healthz :
      (m : P.Manager) (n : String) (x : Exec P.World (Unit {0})) (w : P.World)
      → Q w
      → Q (P.add_healthz_check m n x w).1
  pub by_readyz :
      (m : P.Manager) (n : String) (x : Exec P.World (Unit {0})) (w : P.World)
      → Q w
      → Q (P.add_readyz_check m n x w).1
  pub by_log : (e : Option Error) (m : String) (w : P.World) → Q w → Q (P.log_error e m w)

module _ (P : Platform) (f : Flags) (Q : P.World → Type 0) (k : KeptBySetup P Q)
    (blocked : IsBlocked P f) where
  -- The process has exited with the status 1, and the property is kept.
  record Refused (x : Outcome × P.World) : Type 0 where
    outcome : x.0 ≡ exited 1
    world : Q x.1

  or_exit-Refused :
      {A : Type 0} (step : Exec P.World A) (what : String) (go : A → P.World → Outcome × P.World)
      (w : P.World)
      → Q (step w).1
      → ((a : A) → (step w).0 ≡ ok a → Refused (go a (step w).1))
      → Refused (or_exit P step what go w)
  unfolding or_exit
  or_exit-Refused step what go w h rest =
      handle_cases Refused step w _ _
        (λ e p. record { outcome = refl; world = k.by_log (some e) what _ h }) rest

  run_manager-Refused :
      (namespaces : Option (Map Text (Unit {0}))) (w₀ : P.World) (c : P.Config)
      → (P.get_config w₀).0 ≡ ok c
      → (w : P.World) → Q w
      → Refused (run_manager P f namespaces c w)
  unfolding run_manager setup_with_manager
  run_manager-Refused namespaces w₀ c p w h =
      let h₁ = k.by_manager c (options f namespaces) w h in
      or_exit-Refused _ _ _ w h₁ (λ m p₁.
        let h₂ = k.by_complete _ _ h₁ in
        or_exit-Refused _ _ _ _ h₂ (λ _ p₂.
          let h₃ = k.by_healthz m "healthz" P.ping _ h₂ in
          or_exit-Refused _ _ _ _ h₃ (λ _ p₃.
            or_exit-Refused _ _ _ _ (k.by_readyz m "tsidp" (check P f) _ h₃) (λ _ p₄.
              absurd (elim blocked [
                | config b ↦ Fails-absurd P.get_config b p
                | manager b ↦
                    Fails-absurd (P.new_manager c (options f namespaces)) (b c namespaces) p₁
                | controller b ↦ Fails-absurd (setup_with_manager P (reconciler f m)) (b m) p₂
                | healthz b ↦ Fails-absurd (P.add_healthz_check m "healthz" P.ping) (b m) p₃
                | readyz b ↦ Fails-absurd (P.add_readyz_check m "tsidp" (check P f)) (b m) p₄
              ])))))

  configure-Refused :
      (namespaces : Option (Map Text (Unit {0}))) (w : P.World)
      → Q w
      → Refused (configure P f namespaces w)
  unfolding configure
  configure-Refused namespaces w h =
      handle_cases Refused P.get_config w _ _
        (λ e p. record { outcome = refl; world = k.by_config w h })
        (λ c p. run_manager-Refused namespaces w c p _ (k.by_config w h))

  run_in-Refused : (s : Scope) (w : P.World) → Q w → Refused (run_in P f s w)
  run_in-Refused exits w h = record { outcome = refl; world = k.by_log none _ w h }
  run_in-Refused everything w h = configure-Refused none w h
  run_in-Refused (only m) w h = configure-Refused (some m) w h

  -- If the configuration cannot be read, or the manager cannot be created, or the controller or
  -- one of the two checks cannot be set up, then the run with parsed flags exits with the status
  -- 1, and keeps every property of the world that the set-up calls and the error log keep: the
  -- manager is never started.
  pub blocked_unstarted : (w : P.World) → Q w → ((run P f w).0 ≡ exited 1) × Q (run P f w).1
  unfolding run
  blocked_unstarted w h =
      let r = run_in-Refused (scope f.watch_namespaces) w h in (r.outcome, r.world)

module _ (now : Text) (c : Tsidp.Client) (s : Server) where
  answer : (discovery (fake_http now) c s).0 ≡ metadata_if s.issuer
  answer = ap (λ x. x.0) (discovery_lem now c s)

  check_fails : s.issuer ≡ [] → (e : Error) × ((tsidp_check (fake_http now) c s).0 ≡ err e)
  unfolding tsidp_check handle
  check_fails h = (
    errorf "tsidp: discovery document missing issuer" [],
    rw (tsidp_check, handle, answer, h) refl,
  )

  check_passes :
      {i : ℕ} {is : Text} → s.issuer ≡ i ∷ is → (tsidp_check (fake_http now) c s).0 ≡ ok tt
  unfolding tsidp_check handle
  check_passes h = rw (tsidp_check, handle, answer, h) refl

  -- The readiness check against the fake passes if and only if the issuer is not empty.
  pub tsidp_check_iff : ((tsidp_check (fake_http now) c s).0 ≡ ok tt) ↔ (is_empty s.issuer ≡ false)
  tsidp_check_iff = by_issuer s.issuer refl
    where
      by_issuer :
          (i : Text)
          → s.issuer ≡ i
          → ((tsidp_check (fake_http now) c s).0 ≡ ok tt) ↔ (is_empty s.issuer ≡ false)
      by_issuer [] p = let (e, q) = check_fails p in (λ h. cc (h, q), λ h. cc (ap is_empty p, h))
      by_issuer (x ∷ i) p = (λ _. ap is_empty p, λ _. check_passes p)
