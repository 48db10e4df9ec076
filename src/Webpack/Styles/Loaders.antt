-- ===== src/Webpack/Styles/Loaders.antt =====
-- web/config/webpack.config.js: the loaders of the rules for styles.
use dawn_patrol.Prelude.{Bool, true, false, List, [], ◌∷◌, ◌≡◌, arith, length, not, All}
use dawn_patrol.Paths.{Paths}
use dawn_patrol.Webpack.{Flags}
use dawn_patrol.Webpack.Styles.{Loader, css, style, extract, get_style_loaders}
use dawn_patrol.Webpack.Rules.{Rule, css_rule, css_module_rule, sass_rule, sass_module_rule}

-- `importLoaders` of css-loader is the number of loaders that run before it, which are those
-- listed behind it.
abbrev pub IsCounted : List Loader → Type 0
IsCounted [] = ⊥
IsCounted (css o ∷ ls) = o.import_loaders ≡ length ls
IsCounted (_ ∷ ls) = IsCounted ls

-- The loader that the styles come out of.
abbrev pub BeginsWith : Bool → List Loader → Type 0
BeginsWith true (extract p ∷ ls) = Unit
BeginsWith false (style ∷ ls) = Unit
BeginsWith _ _ = ⊥

abbrev pub style_rules : Flags → Paths → List Rule
style_rules f paths =
    css_rule f paths ∷ css_module_rule f paths ∷ sass_rule f paths ∷ sass_module_rule f paths ∷ []

-- In each of the four rules for styles css-loader is told how many loaders run before it.
pub style_rules-IsCounted :
    (f : Flags) (paths : Paths) → All (λ (r : Rule). IsCounted r.loaders) (style_rules f paths)
unfolding get_style_loaders
style_rules-IsCounted f paths = ground arith

-- Of the two environments, production extracts the styles into files, and development adds them
-- to the page, in each of the four rules.
pub style_rules-BeginsWith :
    (f : Flags) (paths : Paths) (production : Bool)
    → f.is_env_production ≡ production
    → f.is_env_development ≡ not production
    → All (λ (r : Rule). BeginsWith production r.loaders) (style_rules f paths)
unfolding get_style_loaders
style_rules-BeginsWith f paths production h k = ground arith
