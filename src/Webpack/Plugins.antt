-- ===== src/Webpack/Plugins.antt =====
-- web/config/webpack.config.js, `plugins`, and the manifest that one of them generates.
pub mod Modes
pub mod Manifest
use dawn_patrol.Prelude.{
  ℕ, String, ◌<>◌, codes, Bool, true, false, not, nat_eq, ◌||◌, ◌&&◌, Option, none, some, List, [],
  ◌∷◌, keep,
}
use dawn_patrol.Prelude.Object.{insert}
use dawn_patrol.Regex.{Regex, seq, one_of, chr, lit, plus, anything}
use dawn_patrol.Regex.Suffix.{is_suffix}
use dawn_patrol.Paths.{Paths}
use dawn_patrol.Webpack.{Flags, present, only_if}

-- The plugins, with their options that are not constants.
pub data Plugin : Type 0 where
  -- with the template, and whether `minify` is set
  html : String → Bool → Plugin
  -- with the patterns of the files' names
  inline_chunk : List Regex → Plugin
  -- with `env.raw`
  interpolate_html : List (String × Option String) → Plugin
  module_not_found : String → Plugin
  -- with `env.stringified`
  define : List (String × Option String) → Plugin
  hot_module_replacement case_sensitive_paths : Plugin
  watch_missing_node_modules : String → Plugin
  -- with `filename` and `chunkFilename`
  mini_css_extract : String → String → Plugin
  -- with `fileName` and `publicPath`
  manifest : String → String → Plugin
  ignore_locale : Plugin
  -- with `exclude`, `navigateFallback` and `navigateFallbackBlacklist`
  generate_sw : List Regex → String → List Regex → Plugin
  -- with `async`, the two resolving modules, `tsconfig`, and whether there is a formatter
  fork_ts_checker : Bool → Option String → String → Bool → Plugin

-- `.` in a pattern: any character that does not end a line.
abbrev pub is_dot : ℕ → Bool
is_dot c = not (nat_eq c 10 || (nat_eq c 13 || (nat_eq c 0x2028 || nat_eq c 0x2029)))

-- `/runtime-.+[.]js/`.
abbrev pub runtime_regex : Regex
runtime_regex =
    seq anything (seq (lit "runtime-") (seq (plus (one_of is_dot)) (seq (lit ".js") anything)))

-- `[/\.map$/, /asset-manifest\.json$/]`.
abbrev sw_exclude : List Regex
sw_exclude = seq anything (lit ".map") ∷ seq anything (lit "asset-manifest.json") ∷ []

-- `^/_` and `/[^/?]+\.[^/]+$`.
abbrev pub navigate_fallback_blacklist : List Regex
navigate_fallback_blacklist =
    seq (lit "/_") anything
    ∷ seq anything (
        seq (chr b'/') (
          seq (plus (one_of (λ c. not (nat_eq c b'/' || nat_eq c b'?'))))
            (seq (chr b'.') (plus (one_of (λ c. not (nat_eq c b'/')))))))
    ∷ []

-- `raw` and `stringified` are those of `getClientEnvironment`; `pnp_ts` is the file pnpTs.js where
-- `process.versions.pnp` is set.
unfoldable pub plugins :
    Flags
    → Paths
    → (raw stringified : List (String × Option String)) → (pnp_ts : Option String) → List Plugin
plugins f paths raw stringified pnp_ts = present (
    some (html paths.app_html f.is_env_production)
    ∷ only_if (f.is_env_production && f.should_inline_runtime_chunk)
        (inline_chunk (runtime_regex ∷ []))
    ∷ some (interpolate_html raw)
    ∷ some (module_not_found paths.app_path)
    ∷ some (define stringified)
    ∷ only_if f.is_env_development hot_module_replacement
    ∷ only_if f.is_env_development case_sensitive_paths
    ∷ only_if f.is_env_development (watch_missing_node_modules paths.app_node_modules)
    ∷ only_if f.is_env_production (
        mini_css_extract "static/css/[name].[contenthash:8].css"
          "static/css/[name].[contenthash:8].chunk.css")
    ∷ some (manifest "asset-manifest.json" paths.public_url_or_path)
    ∷ some ignore_locale
    ∷ only_if f.is_env_production (
        generate_sw sw_exclude (paths.public_url_or_path <> "index.html")
          navigate_fallback_blacklist)
    ∷ only_if f.use_type_script
        (fork_ts_checker f.is_env_development pnp_ts paths.app_ts_config f.is_env_production)
    ∷ [])

-- `files.reduce(…, seed)`: each file's path under its name.
unfoldable pub manifest_files :
    List (String × String) → List (String × String) → List (String × String)
manifest_files seed [] = seed
manifest_files seed ((name, path) ∷ files) = manifest_files (insert name path seed) files

-- `entrypoints.main.filter(fileName => !fileName.endsWith('.map'))`.
unfoldable pub entrypoint_files : List String → List String
entrypoint_files main = keep (λ file_name. not (is_suffix (codes ".map") (codes file_name))) main
