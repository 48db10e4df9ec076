-- ===== src/Env.antt =====
-- web/config/env.js: the .env files, NODE_PATH, and the environment given to the client code.
pub mod Load
pub mod NodePath
pub mod Client
use mathlib.Core.Option
use dawn_patrol.Prelude.{
  ℕ, ◌+◌, String, ◌<>◌, Bool, true, false, not, ◌&&◌, Option, none, some, List, [], ◌∷◌, map, ◌==◌,
  if◌then◌else◌, truthy, truthy?, or_text, filter_truthy, keep, split, join, singleton, Result, ok,
  throw,
}
use dawn_patrol.Prelude.Object.{lookup, insert, keys, assign_all}
use dawn_patrol.Regex.{Regex, alt, seq, chr, anything, word, test}
use dawn_patrol.Platform.{Platform}

-- `process.env`.
abbrev pub Env : Type 0
Env = List (String × String)

pub data EnvError : Type 0 where
  node_env_required : EnvError

-- `dotenvFiles`, the most specific first.
unfoldable pub dotenv_files : String → String → List String
dotenv_files dotenv node_env = filter_truthy (
    some (dotenv <> ("." <> (node_env <> ".local")))
    ∷ some (dotenv <> ("." <> node_env))
    ∷ (if not (node_env == "test") then some (dotenv <> ".local") else none)
    ∷ some dotenv
    ∷ [])

module _ (p : Platform) (load : String → Env → Env) where
  -- The loop over the files; `load` is dotenv-expand over dotenv's `config({path})`.
  unfoldable pub load_files : List String → Env → Env
  load_files [] env = env
  load_files (file ∷ files) env = load_files files (if p.exists file then load file env else env)

-- The folders of NODE_PATH that are kept.
unfoldable pub relative_folders : Platform → String → List String
relative_folders p node_path =
    keep (λ folder. truthy folder && not (p.is_absolute folder)) (split p.delimiter node_path)

unfoldable pub resolved_node_path : Platform → String → Option String → String
resolved_node_path p app_directory node_path =
    join (singleton p.delimiter)
      (map (λ folder. p.resolve app_directory folder) (relative_folders p (or_text node_path "")))

-- What requiring the module does to `process.env`. NODE_ENV is read before the files are.
unfoldable pub read_env :
    Platform → (String → Env → Env) → String → String → Env → Result EnvError Env
read_env p load dotenv app_directory env = elim (lookup "NODE_ENV" env) [
  | none ↦ throw node_env_required
  | some node_env ↦
      if not (truthy node_env)
      then throw node_env_required
      else let loaded = load_files p load (dotenv_files dotenv node_env) env in
        ok (
          insert "NODE_PATH" (resolved_node_path p app_directory (lookup "NODE_PATH" loaded))
            loaded)
]

-- A letter of either case, as the flag `i` reads the ASCII letters.
abbrev either_case : ℕ → Regex
either_case c = alt (chr c) (chr (c + 32))

-- `/^REACT_APP_/i`.
abbrev react_app : Regex
react_app = seq (either_case b'R') (
    seq (either_case b'E') (
      seq (either_case b'A') (
        seq (either_case b'C') (
          seq (either_case b'T') (
            seq (chr b'_') (
              seq (either_case b'A')
                (seq (either_case b'P') (seq (either_case b'P') (seq (chr b'_') anything)))))))))

unfoldable pub is_react_app : String → Bool
unfolding test
is_react_app key = test react_app key

-- The object that `reduce` starts from. A missing variable is a key with the value `undefined`.
unfoldable pub fixed_variables : String → Env → List (String × Option String)
fixed_variables public_url env =
    ("NODE_ENV", some (or_text (lookup "NODE_ENV" env) "development"))
    ∷ ("PUBLIC_URL", some public_url)
    ∷ ("WDS_SOCKET_HOST", lookup "WDS_SOCKET_HOST" env)
    ∷ ("WDS_SOCKET_PATH", lookup "WDS_SOCKET_PATH" env)
    ∷ ("WDS_SOCKET_PORT", lookup "WDS_SOCKET_PORT" env)
    ∷ []

-- `raw` of `getClientEnvironment`.
unfoldable pub raw_environment : String → Env → List (String × Option String)
raw_environment public_url env =
    assign_all (λ key. lookup key env) (keep is_react_app (keys env))
      (fixed_variables public_url env)

-- `JSON.stringify(raw[key])`: `quote` is `JSON.stringify` on a string, and `undefined` gives
-- `undefined`.
abbrev pub quoted : (String → String) → List (String × Option String) → String → Option String
quoted quote raw key = elim (lookup key raw) [ none ↦ none | some v ↦ Option.map quote v ]

-- `stringified['process.env']`.
unfoldable pub stringified :
    (String → String) → List (String × Option String) → List (String × Option String)
stringified quote raw = assign_all (quoted quote raw) (keys raw) []
