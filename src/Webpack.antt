-- ===== src/Webpack.antt =====
-- web/config/webpack.config.js: what the configuration reads of its surroundings, and the fields
-- outside the rules and the plugins. The options that are constants are left out.
pub mod Styles
pub mod Rules
pub mod Plugins
pub mod Resolve
pub mod SourceMaps
pub mod Configuration
use mathlib.Core.Option
use dawn_patrol.Prelude.{
  nat_eq, code, ℕ, String, ◌<>◌, Bool, true, false, not, ◌&&◌, Option, none, some, List, [], ◌∷◌,
  ◌==◌, is_text, or_text, if◌then◌else◌,
}
use dawn_patrol.Prelude.Object.{lookup}
use dawn_patrol.Platform.{Platform}
use dawn_patrol.Env.{Env}
use dawn_patrol.Paths.{Paths}
use dawn_patrol.ParseInt.{Number, parse_int_any}
use dawn_patrol.TestScript.{includes}

-- What the environment, the arguments and `webpackEnv` decide.
pub record Flags : Type 0 where
  pub is_env_development : Bool
  pub is_env_production : Bool
  pub is_env_production_profile : Bool
  pub should_use_source_map : Bool
  pub should_inline_runtime_chunk : Bool
  pub image_inline_size_limit : Number
  pub use_type_script : Bool

unfoldable pub flags :
    Platform → Paths → Env → (argv : List String) → (webpack_env : String) → Flags
flags p paths env argv webpack_env = record {
  is_env_development = webpack_env == "development";
  is_env_production = webpack_env == "production";
  is_env_production_profile = webpack_env == "production" && includes "--profile" argv;
  should_use_source_map = not (is_text (lookup "GENERATE_SOURCEMAP" env) "false");
  should_inline_runtime_chunk = not (is_text (lookup "INLINE_RUNTIME_CHUNK" env) "false");
  image_inline_size_limit = parse_int_any (or_text (lookup "IMAGE_INLINE_SIZE_LIMIT" env) "10000");
  use_type_script = p.exists paths.app_ts_config;
}

-- `[…].filter(Boolean)`: an item that a condition took away is `none`.
abbrev pub present {ℓ} : {A : Type ℓ} → List (Option A) → List A
present [] = []
present (none ∷ xs) = present xs
present (some x ∷ xs) = x ∷ present xs

-- `condition && item`.
abbrev pub only_if {ℓ} : {A : Type ℓ} → Bool → A → Option A
only_if true x = some x
only_if false x = none

-- A setting that is a text or `false`.
abbrev pub TextOrFalse : Type 0
TextOrFalse = Option String

-- `isEnvProduction ? production : isEnvDevelopment && development`.
abbrev pub by_env : Flags → String → String → TextOrFalse
by_env f production development =
    if f.is_env_production then some production else only_if f.is_env_development development

abbrev pub mode : Flags → TextOrFalse
mode f = by_env f "production" "development"

abbrev pub devtool : Flags → TextOrFalse
devtool f =
    if f.is_env_production
    then only_if f.should_use_source_map "source-map"
    else only_if f.is_env_development "cheap-module-source-map"

-- `require_resolve` is `require.resolve`.
abbrev pub entry : (String → String) → Paths → Flags → List String
entry require_resolve paths f = present (
    only_if f.is_env_development (require_resolve "react-dev-utils/webpackHotDevClient")
    ∷ some paths.app_index_js
    ∷ [])

-- `s.replace(/\\/g, '/')`.
abbrev slashes : String → String
slashes String.[] = String.[]
slashes (String.◌∷◌ c s) =
    let rest = slashes s in if nat_eq (code c) 92 then String.◌∷◌ "/" rest else String.◌∷◌ c rest

pub record Output : Type 0 where
  -- `path`: `undefined` is `none`
  pub path : Option String
  pub pathinfo : Bool
  pub filename : TextOrFalse
  pub chunk_filename : TextOrFalse
  pub future_emit_assets : Bool
  pub public_path : String
  -- from `info.absoluteResourcePath`
  pub devtool_module_filename_template : String → TextOrFalse
  pub jsonp_function : String
  pub global_object : String

abbrev pub output : Platform → Paths → (app_name : String) → Flags → Output
output p paths app_name f = record {
  path = only_if f.is_env_production paths.app_build;
  pathinfo = f.is_env_development;
  filename = by_env f "static/js/[name].[contenthash:8].js" "static/js/bundle.js";
  chunk_filename = by_env f "static/js/[name].[contenthash:8].chunk.js" "static/js/[name].chunk.js";
  future_emit_assets = true;
  public_path = paths.public_url_or_path;
  devtool_module_filename_template = λ resource.
      by_env f (slashes (p.relative paths.app_src resource)) (slashes (p.resolve "" resource));
  jsonp_function = "webpackJsonp" <> app_name;
  global_object = "this";
}

-- The settings of the two minimizers that are not constants.
pub record Optimization : Type 0 where
  pub minimize : Bool
  pub keep_classnames : Bool
  pub keep_fnames : Bool
  pub terser_source_map : Bool
  -- `map`: with `inline` and `annotation`, or `false`
  pub css_map : Option (Bool × Bool)

abbrev pub optimization : Flags → Optimization
optimization f = record {
  minimize = f.is_env_production;
  keep_classnames = f.is_env_production_profile;
  keep_fnames = f.is_env_production_profile;
  terser_source_map = f.should_use_source_map;
  css_map = only_if f.should_use_source_map (false, true);
}
