-- ===== src/Env/Client.antt =====
-- web/config/env.js, `getClientEnvironment`: which variables reach the client code.
use mathlib.Core.Option
use dawn_patrol.Prelude.{
  String, Bool, true, false, ◌&&◌, Option, none, some, List, [], ◌∷◌, ◌≡◌, refl, arith, eq_iff,
  if◌then◌else◌, keep,
}
use dawn_patrol.Prelude.Object.{lookup, keys, has_key, lookup-assign_all}
use dawn_patrol.Env.{Env, is_react_app, fixed_variables, raw_environment, quoted, stringified}

-- What the client may see: its own variables, and five names that are always there.
abbrev pub visible : String → Env → String → Option (Option String)
visible public_url env k =
    if is_react_app k
    then Option.map (λ v. some v) (lookup k env)
    else lookup k (fixed_variables public_url env)

has_key-keep :
    (p : String → Bool) (k : String) (ks : List String)
    → has_key k (keep p ks) ≡ (p k && has_key k ks)
has_key-keep p k [] = ground arith
has_key-keep p k (j ∷ js) = ground (arith, has_key-keep p k js, eq_iff j k)

abbrev is_set {ℓ} : {V : Type ℓ} → Option V → Bool
is_set none = false
is_set (some v) = true

has_key-keys {ℓ} :
    {V : Type ℓ} (k : String) (o : List (String × V)) → has_key k (keys o) ≡ is_set (lookup k o)
unfolding keys lookup
has_key-keys k [] = refl
has_key-keys k ((j, v) ∷ o) = ground (arith, has_key-keys k o)

not_react_app :
    (is_react_app "NODE_ENV" ≡ false)
    × (is_react_app "PUBLIC_URL" ≡ false)
    × (is_react_app "WDS_SOCKET_HOST" ≡ false)
    × (is_react_app "WDS_SOCKET_PATH" ≡ false)
    × (is_react_app "WDS_SOCKET_PORT" ≡ false)
unfolding is_react_app
not_react_app = (refl, refl, refl, refl, refl)

fixed_variables_hidden :
    (public_url : String) (env : Env) (k : String)
    → is_react_app k ≡ true
    → lookup k (fixed_variables public_url env) ≡ none
unfolding fixed_variables lookup
fixed_variables_hidden public_url env k e = ground (
  arith,
  eq_iff "NODE_ENV" k,
  eq_iff "PUBLIC_URL" k,
  eq_iff "WDS_SOCKET_HOST" k,
  eq_iff "WDS_SOCKET_PATH" k,
  eq_iff "WDS_SOCKET_PORT" k,
  not_react_app,
)

-- A variable is in `raw` exactly as `visible` says: a REACT_APP_ variable (in any case) with its
-- value, one of the five fixed names, and nothing else of the environment.
pub lookup-raw_environment :
    (public_url : String) (env : Env) (k : String)
    → lookup k (raw_environment public_url env) ≡ visible public_url env k
unfolding raw_environment
lookup-raw_environment public_url env k = ground (
  arith,
  lookup-assign_all (λ (key : String). lookup key env) (keep is_react_app (keys env))
      (fixed_variables public_url env) k,
  has_key-keep is_react_app k (keys env),
  has_key-keys k env,
  fixed_variables_hidden public_url env k,
)

-- The stringified object has the same keys, each defined value quoted.
pub lookup-stringified :
    (quote : String → String) (raw : List (String × Option String)) (k : String)
    → lookup k (stringified quote raw) ≡ Option.map (λ v. Option.map quote v) (lookup k raw)
unfolding stringified lookup
lookup-stringified quote raw k =
    ground (arith, lookup-assign_all (quoted quote raw) (keys raw) [] k, has_key-keys k raw)
