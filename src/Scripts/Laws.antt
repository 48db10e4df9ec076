-- ===== src/Scripts/Laws.antt =====
-- The scripts of web/scripts and web/config/env.js together: the mode that a script sets stays.
use dawn_patrol.Prelude.{String, ok, ◌≡◌, ◌≢◌, arith, eq_iff, eq_refl, some}
use dawn_patrol.Prelude.Object.{lookup, insert, lookup-insert}
use dawn_patrol.Platform.{Platform}
use dawn_patrol.Env.{Env, read_env, dotenv_files, load_files, resolved_node_path}
use dawn_patrol.Env.Load.{IsDotenv, load_files-first}
use dawn_patrol.Scripts.{set_mode, load_mode}

-- A variable that is set is not changed by the .env files, and NODE_ENV is not NODE_PATH.
read_env-keeps :
    (p : Platform) (load : String → Env → Env) (content : String → Env)
    → IsDotenv load content
    → (dotenv app_directory mode : String) (env : Env) → mode ≢ ""
    → lookup "NODE_ENV" env ≡ some mode
    → (after : Env) × (read_env p load dotenv app_directory env ≡ ok after)
      × (lookup "NODE_ENV" after ≡ some mode)
unfolding read_env
read_env-keeps p load content h dotenv app_directory mode env named set =
    let loaded = load_files p load (dotenv_files dotenv mode) env in
    let node_path = resolved_node_path p app_directory (lookup "NODE_PATH" loaded) in
    (
      insert "NODE_PATH" node_path loaded,
      ground (arith, eq_iff mode ""),
      ground (
        arith,
        lookup-insert "NODE_PATH" "NODE_ENV" node_path loaded,
        load_files-first p load content h (dotenv_files dotenv mode) env "NODE_ENV",
        eq_iff "NODE_PATH" "NODE_ENV",
      ),
    )

lookup-set_mode : (mode : String) (env : Env) → lookup "NODE_ENV" (set_mode mode env) ≡ some mode
unfolding set_mode
lookup-set_mode mode env = simp (lookup-insert, eq_refl)

-- Whatever the environment and the .env files say, a script with a non-empty mode loads env.js
-- without an error, and afterwards NODE_ENV is the mode that the script set.
pub load_mode_lem :
    (p : Platform) (load : String → Env → Env) (content : String → Env)
    → IsDotenv load content
    → (dotenv app_directory mode : String) (env : Env) → mode ≢ ""
    → (after : Env) × (load_mode p load dotenv app_directory mode env ≡ ok after)
      × (lookup "NODE_ENV" after ≡ some mode)
unfolding load_mode
load_mode_lem p load content h dotenv app_directory mode env named =
    read_env-keeps p load content h dotenv app_directory mode (set_mode mode env) named
      (lookup-set_mode mode env)
