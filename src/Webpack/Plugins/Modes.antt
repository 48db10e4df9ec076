-- ===== src/Webpack/Plugins/Modes.antt =====
-- web/config/webpack.config.js: which plugins the two environments have.
use dawn_patrol.Prelude.{String, true, Option, List, ◌≡◌, arith, eq_iff, All}
use dawn_patrol.Platform.{Platform}
use dawn_patrol.Env.{Env}
use dawn_patrol.Paths.{Paths}
use dawn_patrol.Webpack.{flags}
use dawn_patrol.Webpack.Plugins.{
  Plugin, plugins, html, inline_chunk, hot_module_replacement, case_sensitive_paths,
  watch_missing_node_modules, mini_css_extract, generate_sw, fork_ts_checker,
}

-- The plugins for hot reloading and for editing belong to development; those that write files of
-- their own, minify, or inline the runtime belong to production.
abbrev pub Belongs : String → Plugin → Type 0
Belongs e hot_module_replacement = e ≡ "development"
Belongs e case_sensitive_paths = e ≡ "development"
Belongs e (watch_missing_node_modules _) = e ≡ "development"
Belongs e (fork_ts_checker true _ _ _) = e ≡ "development"
Belongs e (fork_ts_checker _ _ _ true) = e ≡ "production"
Belongs e (mini_css_extract _ _) = e ≡ "production"
Belongs e (generate_sw _ _ _) = e ≡ "production"
Belongs e (inline_chunk _) = e ≡ "production"
Belongs e (html _ true) = e ≡ "production"
Belongs e _ = Unit

-- Whatever the environment variables and the arguments say, a plugin that belongs to one of the
-- two environments is in that environment's configuration only.
pub plugins-Belongs :
    (p : Platform) (paths : Paths) (env : Env) (argv : List String) (webpack_env : String)
    (raw stringified : List (String × Option String)) (pnp_ts : Option String)
    → All
        (Belongs webpack_env)
        (plugins (flags p paths env argv webpack_env) paths raw stringified pnp_ts)
unfolding plugins flags
plugins-Belongs p paths env argv webpack_env raw stringified pnp_ts =
    ground (arith, eq_iff webpack_env "development", eq_iff webpack_env "production")
