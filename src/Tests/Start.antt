-- ===== src/Tests/Start.antt =====
-- Instances of the theorems on the start of the program, and on the specs that are stored.
use tsidp_operator.Prelude.{
  ℕ, ◌≤◌, ◌≡◌, ◌↔◌, refl, false, suc, [], some, nat_eq, string_eq, length, arith,
}
use tsidp_operator.Prelude.Map.{insert}
use tsidp_operator.Text.{runes, is_empty, text_eq, is_space, lower_ascii}
use tsidp_operator.Text.Trim.{trim_space}
use tsidp_operator.Text.Lines.{split}
use tsidp_operator.Text.Find.{has_substring, has_prefix, cut_prefix}
use tsidp_operator.Fault.{ok, err, errorf}
use tsidp_operator.Fake.Handlers.{new_server, serve_http}
use tsidp_operator.Fake.Contract.{fake_http}
use tsidp_operator.Api.{OidcClient, OidcClientSpec, UpdatePolicy, DeletionPolicy, recreate}
use tsidp_operator.Api.Admission.{
  admission, admits, admits_enums, admits_name, admits_uri, admits_uris, defaulted,
}
use tsidp_operator.Api.Bounds.{IsStorable, admission_stable}
use tsidp_operator.Controller.Names.Length.{registered_name-length}
use tsidp_operator.Controller.Names.{registered_name}
use tsidp_operator.Controller.Secrets.{}
use tsidp_operator.Controller.Status.{handle}
use tsidp_operator.Manager.{scope, fill}
use tsidp_operator.Manager.Options.{Flags, default_flags}
use tsidp_operator.Manager.Start.{
  exited, Parsed, Platform, run, configure, run_manager, or_exit, setup_with_manager, tsidp_check,
}
use tsidp_operator.Manager.Start.Outcomes.{
  Confined, returned-Confined, healthz, KeptBySetup, blocked_unstarted, tsidp_check_iff,
}
use tsidp_operator.Tests.Cluster.{now}
use tsidp_operator.Tests.Objects.{app, spec, tsidp, empty_server}

-- A platform on which each call succeeds; the world counts the managers that were started.
abbrev sound : Platform
sound = record {
  World = ℕ;
  Config = Unit {0};
  Manager = Unit {0};
  add_builtin_types = λ w. (ok tt, w);
  add_types = λ b w. (ok tt, w);
  parse_flags = λ f. Parsed.flags f;
  send = λ l r w. (ok (serve_http now r (new_server (runes "https://idp"))).0, w);
  get_config = λ w. (ok tt, w);
  new_manager = λ c o w. (ok tt, w);
  complete = λ b w. (ok tt, w);
  ping = λ w. (ok tt, w);
  add_healthz_check = λ m n x w. (ok tt, w);
  add_readyz_check = λ m n x w. (ok tt, w);
  start = λ m w. (ok tt, suc w);
  log_error = λ e m w. w;
  log_info = λ m f w. w;
}

abbrev watching : Flags
watching = record default_flags { watch_namespaces = runes "web, api" }

returned-Confined_example : Confined sound watching 0 (run sound watching 0)
unfolding run configure run_manager or_exit setup_with_manager handle scope fill split trim_space
    is_space nat_eq insert text_eq
returned-Confined_example = returned-Confined sound watching 0 refl

-- The same where no health check can be added.
abbrev sick : Platform
sick = record sound {
  add_healthz_check = λ m n x w. (err (errorf "manager already started" []), w);
}

abbrev Unstarted : ℕ → Type 0
Unstarted w = w ≡ 0

Unstarted-KeptBySetup : KeptBySetup sick Unstarted
Unstarted-KeptBySetup = record {
  by_config = λ w h. h;
  by_manager = λ c o w h. h;
  by_complete = λ b w h. h;
  by_healthz = λ m n x w h. h;
  by_readyz = λ m n x w h. h;
  by_log = λ e m w h. h;
}

blocked_unstarted_example :
    ((run sick default_flags 0).0 ≡ exited 1) × Unstarted (run sick default_flags 0).1
blocked_unstarted_example =
    blocked_unstarted sick default_flags Unstarted Unstarted-KeptBySetup
      (healthz (λ m w. (errorf "manager already started" [], refl))) 0 refl

tsidp_check_iff_example :
    ((tsidp_check (fake_http now) tsidp empty_server).0 ≡ ok tt)
    ↔ (is_empty empty_server.issuer ≡ false)
tsidp_check_iff_example = tsidp_check_iff now tsidp empty_server

-- A spec that leaves out what has a default, and what is stored for it.
abbrev sent : OidcClientSpec
sent = record (spec (UpdatePolicy.other "")) {
  token_endpoint_auth_method = [];
  deletion_policy = DeletionPolicy.other "";
}

abbrev stored : OidcClientSpec
stored = record (spec recreate) { application_type = runes "web" }

is_stored : admission sent ≡ some stored
unfolding admission admits admits_enums admits_name admits_uri admits_uris defaulted has_substring
    has_prefix cut_prefix nat_eq string_eq text_eq lower_ascii
is_stored = refl

admission_stable_example : IsStorable stored × (admission stored ≡ some stored)
admission_stable_example = admission_stable sent stored is_stored

abbrev stored_app : OidcClient
stored_app = record (app [] recreate) { spec = stored }

registered_name-length_example : length (registered_name stored_app) ≤ 586
registered_name-length_example =
    registered_name-length stored_app sent (record { name = omega arith; namespace = omega arith })
      is_stored
