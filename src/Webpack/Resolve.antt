-- ===== src/Webpack/Resolve.antt =====
-- web/config/webpack.config.js, `resolve`: where modules are looked for.
pub mod Search
use dawn_patrol.Prelude.{
  ℕ, String, ◌<>◌, Bool, true, false, not, ◌||◌, Option, none, some, List, [], ◌∷◌, ◌++◌, map, keep,
  if◌then◌else◌,
}
use dawn_patrol.Prelude.Object.{insert}
use dawn_patrol.Regex.{Regex, seq, lit, anything, test}
use dawn_patrol.Paths.{Paths, module_file_extensions}
use dawn_patrol.Modules.{ModulePaths, Aliases}
use dawn_patrol.Webpack.{Flags}

-- `modules`.
unfoldable pub search_modules : Paths → ModulePaths → List String
search_modules paths none = "node_modules" ∷ paths.app_node_modules ∷ []
search_modules paths (some additional) = "node_modules" ∷ paths.app_node_modules ∷ additional

-- `extensions`; `ext.includes('ts')`.
unfoldable pub extensions : Flags → List String
extensions f =
    keep (λ ext. f.use_type_script || not (test (seq anything (seq (lit "ts") anything)) ext))
      (map (λ ext. "." <> ext) module_file_extensions)

-- `...object` inside an object literal.
abbrev spread : List (String × String) → List (String × String) → List (String × String)
spread o [] = o
spread o ((key, value) ∷ rest) = spread (insert key value o) rest

-- `...(aliases || {})`.
abbrev spread_some : List (String × String) → Aliases → List (String × String)
spread_some o none = o
spread_some o (some aliases) = spread o aliases

abbrev profile_aliases : List (String × String)
profile_aliases =
    ("react-dom$", "react-dom/profiling")
    ∷ ("scheduler/tracing", "scheduler/tracing-profiling")
    ∷ []

-- `alias`.
unfoldable pub alias : Flags → Aliases → List (String × String)
alias f webpack_aliases =
    spread_some
      (spread (("react-native", "react-native-web") ∷ [])
        (if f.is_env_production_profile then profile_aliases else []))
      webpack_aliases
