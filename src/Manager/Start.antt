-- ===== src/Manager/Start.antt =====
-- cmd/main.go: `main`, from the parsed flags to the end of the manager, with `SetupWithManager` of
-- internal/controller/oidcclient_controller.go. controller-runtime, the scheme and the logger are a
-- parameter. The flags of the logger are left out.
pub mod Outcomes
use tsidp_operator.Prelude.{ℕ, ◌*◌, List, [], ◌∷◌, Option, none, some, String}
use tsidp_operator.Prelude.Map.{Map}
use tsidp_operator.Text.{Text}
use tsidp_operator.Wire.{Request, Response}
use tsidp_operator.Fault.{Error, Exec, ok, err}
use tsidp_operator.Transport.{Http}
use tsidp_operator.Tsidp
use tsidp_operator.Tsidp.Methods.{discovery}
use tsidp_operator.Controller.Status.{second, handle}
use tsidp_operator.Manager.{Scope, everything, only, exits, scope}
use tsidp_operator.Manager.Options.{
  Flags, default_flags, Options, options, OidcClientReconciler, idp, reconciler, Builder,
  SchemeBuilder, scheme_builder,
}

-- How the process ends.
pub data Outcome : Type 0 where
  returned : Outcome
  exited : ℕ → Outcome
  panicked : Error → Outcome

-- `flag.Parse`: flags, or the status that it exits with.
pub data Parsed : Type 0 where
  flags : Flags → Parsed
  ended : ℕ → Parsed

-- What `main` calls and does not implement.
pub record Platform : Type 1 where
  pub World : Type 0
  pub Config : Type 0
  pub Manager : Type 0
  -- `AddToScheme` of client-go, and of a builder
  pub add_builtin_types : Exec World (Unit {0})
  pub add_types : SchemeBuilder → Exec World (Unit {0})
  -- the command line, given the flags' default values
  pub parse_flags : Flags → Parsed
  -- net/http, with the time limits that hold for the request
  pub send : List ℕ → Request → Exec World Response
  -- ctrl; `GetConfigOrDie` exits where `get_config` fails
  pub get_config : Exec World Config
  pub new_manager : Config → Options → Exec World Manager
  pub complete : Builder Manager → Exec World (Unit {0})
  pub ping : Exec World (Unit {0})
  pub add_healthz_check : Manager → String → Exec World (Unit {0}) → Exec World (Unit {0})
  pub add_readyz_check : Manager → String → Exec World (Unit {0}) → Exec World (Unit {0})
  pub start : Manager → Exec World (Unit {0})
  -- the logger
  pub log_error : Option Error → String → World → World
  pub log_info : String → Flags → World → World

-- `http.Client.Timeout`, and the timeout of the readiness check.
abbrev client_timeout : ℕ
client_timeout = 30 * second

abbrev check_timeout : ℕ
check_timeout = 5 * second

-- The readiness check: tsidp serves its discovery document.
unfoldable pub tsidp_check : (H : Http) → Tsidp.Client → Exec H.World (Unit {0})
tsidp_check H c w = handle (discovery H c) w (λ e w. (err e, w)) (λ _ w. (ok tt, w))

module _ (P : Platform) where
  abbrev limited : List ℕ → Http
  limited limits = record { World = P.World; send = P.send limits }

  -- `SetupWithManager`
  unfoldable pub setup_with_manager : OidcClientReconciler P.Manager → Exec P.World (Unit {0})
  setup_with_manager r =
      P.complete (record {
        object = "OIDCClient";
        owned = "Secret" ∷ [];
        name = "oidcclient";
        reconciler = r;
      })

  -- `if err := step; err != nil { setupLog.Error(err, what); os.Exit(1) }`
  unfoldable pub or_exit :
      {A : Type 0}
      → Exec P.World A
      → String
      → (A → P.World → Outcome × P.World)
      → P.World
      → Outcome × P.World
  or_exit step what continue w =
      handle step w (λ e w. (exited 1, P.log_error (some e) what w)) continue

  -- From the creation of the manager to the end of `main`.
  unfoldable pub run_manager :
      Flags → Option (Map Text (Unit {0})) → P.Config → P.World → Outcome × P.World
  unfolding or_exit setup_with_manager tsidp_check
  run_manager f namespaces config =
      or_exit (P.new_manager config (options f namespaces)) "creating manager" (λ mgr.
        or_exit (setup_with_manager (reconciler f mgr)) "setting up OIDCClient controller" (λ _.
          or_exit (P.add_healthz_check mgr "healthz" P.ping) "adding healthz check" (λ _.
            or_exit
              (P.add_readyz_check mgr "tsidp"
                (tsidp_check (limited (check_timeout ∷ client_timeout ∷ [])) (idp f)))
              "adding readyz check"
              (λ _ w.
                or_exit (P.start mgr) "manager exited" (λ _ w. (returned, w))
                  (P.log_info "starting" f w)))))

  unfoldable pub configure : Flags → Option (Map Text (Unit {0})) → P.World → Outcome × P.World
  unfolding run_manager
  configure f namespaces w = handle P.get_config w (λ e w. (exited 1, w)) (run_manager f namespaces)

  abbrev pub run_in : Flags → Scope → P.World → Outcome × P.World
  run_in f exits w = (
    exited 1,
    P.log_error none "--watch-namespaces was set but contained no usable namespace names" w,
  )
  run_in f everything w = configure f none w
  run_in f (only m) w = configure f (some m) w

  -- From the parsed flags on.
  unfoldable pub run : Flags → P.World → Outcome × P.World
  unfolding configure
  run f w = run_in f (scope f.watch_namespaces) w

  -- `main`
  unfoldable pub main : P.World → Outcome × P.World
  unfolding run
  main w = elim (P.parse_flags default_flags) [ ended n ↦ (exited n, w) | flags f ↦ run f w ]

  -- `init`, whose failures panic, and `main` after it.
  unfoldable pub program : P.World → Outcome × P.World
  unfolding main
  program w =
      handle P.add_builtin_types w (λ e w. (panicked e, w))
        (λ _ w. handle (P.add_types scheme_builder) w (λ e w. (panicked e, w)) (λ _ w. main w))
