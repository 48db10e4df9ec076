-- ===== src/Webpack/SourceMaps.antt =====
-- web/config/webpack.config.js: what GENERATE_SOURCEMAP switches off.
use dawn_patrol.Prelude.{String, false, none, some, List, ◌≡◌, arith, All}
use dawn_patrol.Prelude.Object.{lookup}
use dawn_patrol.Platform.{Platform}
use dawn_patrol.Env.{Env}
use dawn_patrol.Paths.{Paths}
use dawn_patrol.Webpack.{flags, devtool, optimization}
use dawn_patrol.Webpack.Styles.{
  Loader, babel_dependencies, css, postcss, resolve_url, get_style_loaders,
}
use dawn_patrol.Webpack.Rules.{Rule, one_of_rules}

-- The loader makes no source map. The pre-processor's is left out: resolve-url-loader, which runs
-- behind it, needs it.
abbrev pub IsUnmapped : Loader → Type 0
IsUnmapped (babel_dependencies source_maps input_source_map) =
    (source_maps ≡ false) × (input_source_map ≡ false)
IsUnmapped (css o) = o.source_map ≡ false
IsUnmapped (postcss source_map) = source_map ≡ false
IsUnmapped (resolve_url source_map) = source_map ≡ false
IsUnmapped _ = Unit

-- With GENERATE_SOURCEMAP = "false" a production build makes no source maps: neither webpack nor
-- the two minimizers nor any loader but the pre-processor of the rules for SASS.
pub no_source_maps :
    (p : Platform) (paths : Paths) (env : Env) (argv : List String)
    → lookup "GENERATE_SOURCEMAP" env ≡ some "false"
    → (devtool (flags p paths env argv "production") ≡ none)
      × ((optimization (flags p paths env argv "production")).terser_source_map ≡ false)
      × ((optimization (flags p paths env argv "production")).css_map ≡ none)
      × All
          (λ (r : Rule). All IsUnmapped r.loaders)
          (one_of_rules (flags p paths env argv "production") paths)
unfolding flags one_of_rules get_style_loaders
no_source_maps p paths env argv h = rw h (ground arith)
