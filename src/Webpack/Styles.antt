-- ===== src/Webpack/Styles.antt =====
-- web/config/webpack.config.js, `getStyleLoaders`, and the loaders of all rules.
pub mod Loaders
use dawn_patrol.Prelude.{
  ℕ, String, codes, Bool, true, false, ◌&&◌, Option, none, some, List, [], ◌∷◌, ◌++◌, nat_eq,
  if◌then◌else◌,
}
use dawn_patrol.ParseInt.{Number}
use dawn_patrol.Webpack.{Flags, present, only_if}

-- The options for `css-loader`; `css_modules` says whether `modules` is set.
pub record CssOptions : Type 0 where
  pub import_loaders : ℕ
  pub source_map : Bool
  pub css_modules : Bool

-- The loaders, with their options that are not constants.
pub data Loader : Type 0 where
  eslint : Loader
  -- with `limit` and `name`
  url : Number → String → Loader
  -- for the application's code, with `compact`
  babel_app : Bool → Loader
  -- for other code, with `sourceMaps` and `inputSourceMap`
  babel_dependencies : Bool → Bool → Loader
  style : Loader
  -- `MiniCssExtractPlugin.loader`, with `publicPath` if it is set
  extract : Option String → Loader
  css : CssOptions → Loader
  -- with `sourceMap`
  postcss resolve_url : Bool → Loader
  -- the loader's name, with `sourceMap`
  pre_processor : String → Bool → Loader
  -- with `name`
  file : String → Loader

-- `s.startsWith('.')`.
abbrev starts_with_dot : List ℕ → Bool
starts_with_dot [] = false
starts_with_dot (c ∷ s) = nat_eq c b'.'

unfoldable pub get_style_loaders : Flags → String → CssOptions → Option String → List Loader
get_style_loaders f public_url_or_path css_options pre =
    present (
      only_if f.is_env_development style
      ∷ only_if f.is_env_production
          (extract (if starts_with_dot (codes public_url_or_path) then some "../../" else none))
      ∷ some (css css_options)
      ∷ some (postcss (f.is_env_production && f.should_use_source_map))
      ∷ [])
    ++ elim pre [
      | none ↦ []
      | some p ↦
          resolve_url (f.is_env_production && f.should_use_source_map) ∷ pre_processor p true ∷ []
    ]
