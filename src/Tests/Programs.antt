-- ===== src/Tests/Programs.antt =====
-- The scripts of web/scripts on concrete inputs.
use dawn_patrol.Prelude.{
  String, true, false, some, [], ◌∷◌, ◌++◌, ◌≡◌, ◌≢◌, ◌↔◌, ◌⊎◌, refl, arith, eq_iff, ◌==◌, ok,
  if◌then◌else◌, Listed,
}
use dawn_patrol.Prelude.Object.{lookup}
use dawn_patrol.Env.{Env}
use dawn_patrol.Build.{
  Messages, Outcome, finished, Effect, empty_build_folder, run_compiler, chain, build, settle,
  collect_messages, is_strict, spells_false, run, handle, copied_files,
}
use dawn_patrol.Build.Exit.{Builds, Prints, IsTolerant, run-zero_iff}
use dawn_patrol.Build.Order.{run_compiles}
use dawn_patrol.Build.Rejections.{Compiles, IsVerdict, chain-IsVerdict}
use dawn_patrol.Start
use dawn_patrol.Start.{
  default_port, protocol, sigint, listening, serving, exited, launch, run_events,
}
use dawn_patrol.Start.Lifecycle.{closings, due, StopsAmong, run_events-closings, run_events-exit}
use dawn_patrol.Https.{Https, plain}
use dawn_patrol.Scripts.TestMode.{AgreeBut}
use dawn_patrol.Tests.Configuration.{load, crypto}

-- A build with two warnings.
abbrev warned : Messages
warned = record { errors = []; warnings = "unused" ∷ "shadowed" ∷ [] }

abbrev inputs : Env → dawn_patrol.Build.Inputs
inputs env = record {
  env = env;
  required_files = true;
  browsers = ok tt;
  sizes = ok tt;
  emptied = ok tt;
  copied = ok tt;
  compiler = ok tt;
  outcome = finished warned;
  sizes_printed = ok tt;
  hosting_printed = ok tt;
  format = λ m. m;
}

abbrev in_ci : Env
in_ci = ("CI", "true") ∷ []

run-zero_iff_example : ((run (inputs in_ci)).1 ≡ 0) ↔ (
    (true ≡ true)
    × ((Builds (inputs in_ci) × Prints (inputs in_ci))
        ⊎ ((¬ Builds (inputs in_ci)) × IsTolerant (inputs in_ci))))
run-zero_iff_example = run-zero_iff (inputs in_ci)

compiled : Listed run_compiler (run (inputs in_ci)).0
unfolding run handle chain build settle collect_messages
compiled = ground arith

run_compiles_example :
    ((inputs in_ci).required_files ≡ true)
    × ((inputs in_ci).browsers ≡ ok tt)
    × ((inputs in_ci).sizes ≡ ok tt)
    × ((inputs in_ci).emptied ≡ ok tt)
    × ((inputs in_ci).copied ≡ ok tt)
    × ((inputs in_ci).compiler ≡ ok tt)
run_compiles_example = run_compiles (inputs in_ci) compiled

compiles : Compiles (inputs in_ci) warned
unfolding collect_messages
compiles = record {
  browsers = refl;
  sizes = refl;
  emptied = refl;
  copied = refl;
  compiler = refl;
  collected = refl;
}

chain-IsVerdict_example : IsVerdict (lookup "CI" in_ci) warned (chain (inputs in_ci)).1
chain-IsVerdict_example = chain-IsVerdict (inputs in_ci) warned compiles

abbrev port_set : Env
port_set = ("PORT", "8080/tcp") ∷ []

abbrev insecure : Https crypto
insecure = plain false

abbrev server : dawn_patrol.Start.Inputs
server = record {
  env = port_set;
  is_interactive = false;
  required_files = true;
  browsers = ok tt;
  port = ok (some 8080);
  setup = ok tt;
}

run_events-closings_example :
    closings (run_events server (launch server) (listening ∷ sigint ∷ sigint ∷ [])).effects
    ≡ due (run_events server (launch server) (listening ∷ sigint ∷ sigint ∷ [])).phase
run_events-closings_example = run_events-closings server (listening ∷ sigint ∷ sigint ∷ [])

run_events-exit_example :
    (StopsAmong server (listening ∷ sigint ∷ [])
      × ((run_events server (launch server) (listening ∷ sigint ∷ [])).phase ≡ exited 0))
    ⊎ ((¬ StopsAmong server (listening ∷ sigint ∷ []))
        × ((run_events server (launch server) (listening ∷ sigint ∷ [])).phase ≡ serving))
unfolding launch dawn_patrol.Start.with_port dawn_patrol.Start.serve
run_events-exit_example = run_events-exit server (launch server) (listening ∷ sigint ∷ []) refl

-- A loader that reads `.env.local`, too.
abbrev load_local : String → Env → Env
load_local f env =
    if f == "/app/.env.local" then env ++ (("REACT_APP_API", "x") ∷ []) else load f env

dotenv-ne : ◌≢◌ {A = String} "/app/.env" ""
dotenv-ne = ground (arith, eq_iff "/app/.env" "")

agree : AgreeBut "/app/.env.local" load_local load
agree f env h = ground (arith, eq_iff f "/app/.env.local")

false-ne : ◌≢◌ {A = String} "False" ""
false-ne = ground (arith, eq_iff "False" "")
