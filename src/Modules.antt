-- ===== src/Modules.antt =====
-- web/config/modules.js: the module paths and the aliases that a TypeScript or JavaScript
-- configuration asks for.
pub mod Laws
use dawn_patrol.Prelude.{
  String, Bool, true, false, Option, none, some, List, [], ◌∷◌, ◌==◌, truthy, truthy?, or_text,
  split, keep, if◌then◌else◌, ◌&&◌, Result, ok, throw, ◌>>=◌,
}
use dawn_patrol.Prelude.Object.{lookup}
use dawn_patrol.Platform.{Platform}
use dawn_patrol.Paths.{Paths}
use dawn_patrol.Env.{Env}

-- The two errors that the module throws.
pub data ModulesError : Type 0 where
  both_configs unsupported_base_url : ModulesError

-- `null`, or a list of folders.
abbrev pub ModulePaths : Type 0
ModulePaths = Option (List String)

-- `undefined`, or an object.
abbrev pub Aliases : Type 0
Aliases = Option (List (String × String))

module _ (p : Platform) (paths : Paths) where
  unfoldable pub get_additional_module_paths : Env → Option String → Result ModulesError ModulePaths
  get_additional_module_paths env none =
      ok (some (keep truthy (split p.delimiter (or_text (lookup "NODE_PATH" env) ""))))
  get_additional_module_paths env (some base_url) =
      let base_url_resolved = p.resolve paths.app_path base_url in
      if p.relative paths.app_node_modules base_url_resolved == ""
      then ok none
      else if p.relative paths.app_src base_url_resolved == ""
      then ok (some (paths.app_src ∷ []))
      else if p.relative paths.app_path base_url_resolved == ""
      then ok none
      else throw unsupported_base_url

  -- The body that the two alias functions share, for their one entry.
  root_alias : String × String → Option String → Aliases
  root_alias entry none = some []
  root_alias entry (some base_url) =
      if truthy base_url
      then if p.relative paths.app_path (p.resolve paths.app_path base_url) == ""
        then some (entry ∷ [])
        else none
      else some []

  unfoldable pub get_webpack_aliases : Option String → Aliases
  unfolding root_alias
  get_webpack_aliases base_url = root_alias ("src", paths.app_src) base_url

  unfoldable pub get_jest_aliases : Option String → Aliases
  unfolding root_alias
  get_jest_aliases base_url = root_alias ("^src/(.*)$", "<rootDir>/src/$1") base_url

-- `compilerOptions` and the configuration around it, as far as they are read.
pub record Config : Type 0 where
  pub compiler_options : Option (Option String)

abbrev pub base_url_of : Option Config → Option String
base_url_of none = none
base_url_of (some c) = elim c.compiler_options [ none ↦ none | some base_url ↦ base_url ]

pub record Modules : Type 0 where
  pub additional_module_paths : ModulePaths
  pub webpack_aliases : Aliases
  pub jest_aliases : Aliases
  pub has_ts_config : Bool

-- The configuration that is read: `read_ts` is TypeScript's reader, `read_js` is `require`.
abbrev pub read_config :
    (String → Option Config) → (String → Option Config) → Paths → Bool → Bool → Option Config
read_config read_ts read_js paths has_ts has_js =
    if has_ts
    then read_ts paths.app_ts_config
    else if has_js
    then read_js paths.app_js_config
    else none

unfoldable pub get_modules :
    Platform
    → Paths
    → (String → Option Config)
    → (String → Option Config)
    → Env
    → Result ModulesError Modules
get_modules p paths read_ts read_js env =
    let has_ts = p.exists paths.app_ts_config in
    let has_js = p.exists paths.app_js_config in
    let base_url = base_url_of (read_config read_ts read_js paths has_ts has_js) in
    if has_ts && has_js then throw both_configs else do
      additional ← get_additional_module_paths p paths env base_url
      ok (record {
        additional_module_paths = additional;
        webpack_aliases = get_webpack_aliases p paths base_url;
        jest_aliases = get_jest_aliases p paths base_url;
        has_ts_config = has_ts;
      })
