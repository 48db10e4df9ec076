-- ===== src/Start.antt =====
-- web/scripts/start.js: the development server, from its settings to its end. The promises of the
-- launch are settled values; afterwards events arrive in any order.
pub mod Settings
pub mod Lifecycle
use dawn_patrol.Prelude.{
  ℕ, String, ◌<>◌, Bool, true, false, not, ◌||◌, Option, none, some, List, [], ◌∷◌, ◌++◌, truthy,
  truthy?, or_text, is_text, if◌then◌else◌, Result, ok, throw,
}
use dawn_patrol.Prelude.Object.{lookup}
use dawn_patrol.Env.{Env}
use dawn_patrol.ParseInt.{Number, nan, number, truthy_number, parse_int}

-- A variable as a text: a missing one is "undefined".
abbrev pub shown : Option String → String
shown none = "undefined"
shown (some s) = s

-- `parseInt(process.env.PORT, 10) || 3000`.
unfoldable pub default_port : Env → Number
default_port env =
    let port = parse_int (shown (lookup "PORT" env)) in
    if truthy_number port then port else number false 3000

unfoldable pub host : Env → String
host env = or_text (lookup "HOST" env) "0.0.0.0"

unfoldable pub protocol : Env → String
protocol env = if is_text (lookup "HTTPS" env) "true" then "https" else "http"

-- What is seen of the script. `choose_port` has the host and the default port, `create_server` the
-- protocol, `listen` the port and the host.
pub data Effect : Type 0 where
  log : String → Effect
  check_browsers : Effect
  choose_port : String → Number → Effect
  create_server : String → Effect
  listen : ℕ → String → Effect
  clear_console open_browser close_server : Effect

-- The server is up, the script ended without one, or the process exited with a status.
pub data Phase : Type 0 where
  serving ended : Phase
  exited : ℕ → Phase

pub record State : Type 0 where
  pub phase : Phase
  pub effects : List Effect

-- What the launch meets: each call of another package returns or throws with a message, which
-- may be empty.
pub record Inputs : Type 0 where
  pub env : Env
  -- `process.stdout.isTTY`
  pub is_interactive : Bool
  -- `checkRequiredFiles`
  pub required_files : Bool
  -- `checkBrowsers`
  pub browsers : Result String (Unit {0})
  -- `choosePort`
  pub port : Result String (Option ℕ)
  -- from `configFactory` to `new WebpackDevServer`
  pub setup : Result String (Unit {0})

-- The texts that are logged where HOST is set.
abbrev host_notice : Env → List Effect
host_notice env = elim (lookup "HOST" env) [
  | none ↦ []
  | some h ↦
      if truthy h
      then log ("Attempting to bind to HOST environment variable: " <> h)
        ∷ log "If this was unintentional, check that you haven't mistakenly set it in your shell."
        ∷ log "Learn more here: https://bit.ly/CRA-advanced-config"
        ∷ log ""
        ∷ []
      else []
]

-- The handler of the last `catch`.
unfoldable pub fail : List Effect → String → State
fail es message = record {
  phase = exited 1;
  effects = if truthy message then es ++ (log message ∷ []) else es;
}

-- Behind a port: the server is made and begins to listen.
unfoldable pub serve : Inputs → List Effect → ℕ → State
serve i es port = elim i.setup [
  | throw message ↦ fail (es ++ (create_server (protocol i.env) ∷ [])) message
  | ok done ↦ record {
    phase = serving;
    effects = es ++ (create_server (protocol i.env) ∷ listen port (host i.env) ∷ []);
  }
]

-- `choosePort(…).then(…)`.
unfoldable pub with_port : Inputs → List Effect → State
with_port i es = elim i.port [
  | throw message ↦ fail es message
  | ok port ↦ elim port [ none ↦ record { phase = ended; effects = es } | some n ↦ serve i es n ]
]

unfoldable pub launch : Inputs → State
launch i =
    let es = host_notice i.env ++ (check_browsers ∷ []) in
    if not i.required_files then record { phase = exited 1; effects = [] } else elim i.browsers [
      | throw message ↦ fail es message
      | ok done ↦ with_port i (es ++ (choose_port (host i.env) (default_port i.env) ∷ []))
    ]

-- What may happen while the server is up: the callback of `listen`, two signals, and the end of
-- the standard input.
pub data Event : Type 0 where
  listen_failed : String → Event
  listening sigint sigterm stdin_end : Event

abbrev node_path_notice : String
node_path_notice =
    "Setting NODE_PATH to resolve modules absolutely has been deprecated in favor of setting baseUrl in jsconfig.json (or tsconfig.json if you are using TypeScript) and will be removed in a future major release of create-react-app."

-- The handler of the end of the standard input is set only then.
abbrev pub reads_stdin : Inputs → Bool
reads_stdin i = i.is_interactive || not (is_text (lookup "CI" i.env) "true")

-- `devServer.close(); process.exit();`
abbrev shut_down : State → State
shut_down s = record { phase = exited 0; effects = s.effects ++ (close_server ∷ []) }

abbrev announce : Inputs → List Effect
announce i =
    (if i.is_interactive then clear_console ∷ [] else [])
    ++ ((if truthy? (lookup "NODE_PATH" i.env) then log node_path_notice ∷ log "" ∷ [] else [])
        ++ (log "Starting the development server...\n" ∷ open_browser ∷ []))

handle : Inputs → State → Event → State
handle i s (listen_failed message) = record s { effects = s.effects ++ (log message ∷ []) }
handle i s listening = record s { effects = s.effects ++ announce i }
handle i s sigint = shut_down s
handle i s sigterm = shut_down s
handle i s stdin_end = if reads_stdin i then shut_down s else s

-- Handlers run only while the server is up.
step_in : Phase → Inputs → State → Event → State
step_in serving i s e = handle i s e
step_in _ i s e = s

unfoldable pub step : Inputs → State → Event → State
unfolding handle step_in
step i s e = step_in s.phase i s e

unfoldable pub run_events : Inputs → State → List Event → State
run_events i s [] = s
run_events i s (e ∷ es) = run_events i (step i s e) es
