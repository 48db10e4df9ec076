-- ===== src/Webpack/Configuration.antt =====
-- web/config/webpack.config.js: the object that the function returns, with what it reads of
-- web/config/env.js and web/config/modules.js.
pub mod PublicUrl
pub mod Runtime
use dawn_patrol.Prelude.{String, ◌<>◌, Bool, true, false, Option, List, [], ◌∷◌}
use dawn_patrol.Platform.{Platform}
use dawn_patrol.Env.{Env, raw_environment, stringified}
use dawn_patrol.Paths.{Paths}
use dawn_patrol.Modules.{Modules}
use dawn_patrol.DevServer.{drop_last}
use dawn_patrol.Webpack.{
  Flags, flags, TextOrFalse, mode, devtool, entry, Output, output, Optimization, optimization,
}
use dawn_patrol.Webpack.Rules.{Rule, lint_rule, one_of_rules}
use dawn_patrol.Webpack.Plugins.{Plugin, plugins}
use dawn_patrol.Webpack.Resolve.{search_modules, extensions, alias}

-- An item of `module.rules`.
pub data ModuleRule : Type 0 where
  require_ensure : Bool → ModuleRule
  rule : Rule → ModuleRule
  one_of : List Rule → ModuleRule

-- `resolve.plugins`: ModuleScopePlugin with its folder and the files that are allowed outside it.
pub data ResolvePlugin : Type 0 where
  pnp : ResolvePlugin
  module_scope : String → List String → ResolvePlugin

-- `chunks` and `name` of `splitChunks`.
pub record SplitChunks : Type 0 where
  pub chunks : String
  pub name : Bool

pub record Config : Type 0 where
  pub mode : TextOrFalse
  pub bail : Bool
  pub devtool : TextOrFalse
  pub entry : List String
  pub output : Output
  pub optimization : Optimization
  pub split_chunks : SplitChunks
  -- the name of the runtime's chunk, by that of the entry point
  pub runtime_chunk : String → String
  pub resolve_modules : List String
  pub resolve_extensions : List String
  pub resolve_alias : List (String × String)
  pub resolve_plugins : List ResolvePlugin
  pub strict_export_presence : Bool
  pub rules : List ModuleRule
  pub plugins : List Plugin
  pub node : List (String × String)
  pub performance : Bool

abbrev node_mocks : List (String × String)
node_mocks =
    ("module", "empty")
    ∷ ("dgram", "empty")
    ∷ ("dns", "mock")
    ∷ ("fs", "empty")
    ∷ ("http2", "empty")
    ∷ ("net", "empty")
    ∷ ("tls", "empty")
    ∷ ("child_process", "empty")
    ∷ []

abbrev split_all : SplitChunks
split_all = record { chunks = "all"; name = false }

-- The name of the runtime's chunk.
abbrev pub runtime_name : String → String
runtime_name entrypoint = "runtime-" <> entrypoint

abbrev resolve_plugins : Paths → List ResolvePlugin
resolve_plugins paths = pnp ∷ module_scope paths.app_src (paths.app_package_json ∷ []) ∷ []

-- `module.rules`.
abbrev module_rules : Flags → Paths → List ModuleRule
module_rules f paths =
    require_ensure false ∷ rule (lint_rule paths) ∷ one_of (one_of_rules f paths) ∷ []

-- What the function finds around it: `process.env` and `process.argv`, the name in package.json,
-- the result of modules.js, the file pnpTs.js under Plug and Play, `require.resolve` and
-- JSON.stringify on strings.
pub record Surroundings : Type 0 where
  pub env : Env
  pub argv : List String
  pub app_name : String
  pub modules : Modules
  pub pnp_ts : Option String
  pub require_resolve : String → String
  pub quote : String → String

-- `env.raw`.
abbrev pub client_raw : Paths → Surroundings → List (String × Option String)
client_raw paths s = raw_environment (drop_last paths.public_url_or_path) s.env

unfoldable pub config : Platform → Paths → Surroundings → (webpack_env : String) → Config
config p paths s webpack_env =
    let f = flags p paths s.env s.argv webpack_env in
    let raw = client_raw paths s in
    record {
      mode = mode f;
      bail = f.is_env_production;
      devtool = devtool f;
      entry = entry s.require_resolve paths f;
      output = output p paths s.app_name f;
      optimization = optimization f;
      split_chunks = split_all;
      runtime_chunk = runtime_name;
      resolve_modules = search_modules paths s.modules.additional_module_paths;
      resolve_extensions = extensions f;
      resolve_alias = alias f s.modules.webpack_aliases;
      resolve_plugins = resolve_plugins paths;
      strict_export_presence = true;
      rules = module_rules f paths;
      plugins = plugins f paths raw (stringified s.quote raw) s.pnp_ts;
      node = node_mocks;
      performance = false;
    }
