-- ===== src/Webpack/Rules.antt =====
-- web/config/webpack.config.js, `module.rules`.
pub mod Endings
pub mod Choice
pub mod Dispatch
use dawn_patrol.Prelude.{ℕ, String, Bool, true, false, ◌&&◌, Option, none, some, List, [], ◌∷◌}
use dawn_patrol.Regex.{Regex, seq, chr, opt, lit, any_of, anything}
use dawn_patrol.Paths.{Paths}
use dawn_patrol.Webpack.{Flags}
use dawn_patrol.Webpack.Styles.{
  CssOptions, Loader, eslint, url, babel_app, babel_dependencies, file, get_style_loaders,
}

-- `/\.css$/` and `/\.module\.css$/`.
abbrev pub css_regex : Regex
css_regex = seq anything (lit ".css")

abbrev pub css_module_regex : Regex
css_module_regex = seq anything (lit ".module.css")

-- `/\.(scss|sass)$/` and `/\.module\.(scss|sass)$/`.
abbrev pub sass_regex : Regex
sass_regex = seq anything (seq (chr b'.') (any_of (lit "scss" ∷ lit "sass" ∷ [])))

abbrev pub sass_module_regex : Regex
sass_module_regex = seq anything (seq (lit ".module.") (any_of (lit "scss" ∷ lit "sass" ∷ [])))

-- `/\.(js|mjs|jsx|ts|tsx)$/` and `/\.(js|mjs)$/`.
abbrev pub code_regex : Regex
code_regex =
    seq anything
      (seq (chr b'.') (any_of (lit "js" ∷ lit "mjs" ∷ lit "jsx" ∷ lit "ts" ∷ lit "tsx" ∷ [])))

abbrev pub js_regex : Regex
js_regex = seq anything (seq (chr b'.') (any_of (lit "js" ∷ lit "mjs" ∷ [])))

-- `/@babel(?:\/|\\{1,2})runtime/`.
abbrev pub babel_runtime_regex : Regex
babel_runtime_regex = seq anything (
    seq (lit "@babel")
      (seq (any_of (chr b'/' ∷ seq (chr 92) (opt (chr 92)) ∷ [])) (seq (lit "runtime") anything)))

-- `[/\.bmp$/, /\.gif$/, /\.jpe?g$/, /\.png$/]`.
abbrev pub image_regexes : List Regex
image_regexes =
    seq anything (lit ".bmp")
    ∷ seq anything (lit ".gif")
    ∷ seq anything (seq (lit ".jp") (seq (opt (chr b'e')) (chr b'g')))
    ∷ seq anything (lit ".png")
    ∷ []

-- `/\.html$/` and `/\.json$/`.
abbrev pub html_regex : Regex
html_regex = seq anything (lit ".html")

abbrev pub json_regex : Regex
json_regex = seq anything (lit ".json")

abbrev media_name : String
media_name = "static/media/[name].[hash:8].[ext]"

-- A rule: `test`, where no expression means that `test` is missing, `exclude`, `include`, the
-- loaders and `sideEffects`.
pub record Rule : Type 0 where
  pub tests : List Regex
  pub excludes : List Regex
  pub include : Option String
  pub loaders : List Loader
  pub side_effects : Bool

-- The first rule, with `enforce: 'pre'`.
abbrev pub lint_rule : Paths → Rule
lint_rule paths = record {
  tests = code_regex ∷ [];
  excludes = [];
  include = some paths.app_src;
  loaders = eslint ∷ [];
  side_effects = false;
}

module _ (f : Flags) (paths : Paths) where
  abbrev pub image_rule : Rule
  image_rule = record {
    tests = image_regexes;
    excludes = [];
    include = none;
    loaders = url f.image_inline_size_limit media_name ∷ [];
    side_effects = false;
  }

  abbrev pub app_rule : Rule
  app_rule = record {
    tests = code_regex ∷ [];
    excludes = [];
    include = some paths.app_src;
    loaders = babel_app f.is_env_production ∷ [];
    side_effects = false;
  }

  abbrev pub dependencies_rule : Rule
  dependencies_rule = record {
    tests = js_regex ∷ [];
    excludes = babel_runtime_regex ∷ [];
    include = none;
    loaders = babel_dependencies f.should_use_source_map f.should_use_source_map ∷ [];
    side_effects = false;
  }

  abbrev style_options : ℕ → Bool → CssOptions
  style_options import_loaders css_modules = record {
    import_loaders = import_loaders;
    source_map = f.is_env_production && f.should_use_source_map;
    css_modules = css_modules;
  }

  abbrev pub css_rule : Rule
  css_rule = record {
    tests = css_regex ∷ [];
    excludes = css_module_regex ∷ [];
    include = none;
    loaders = get_style_loaders f paths.public_url_or_path (style_options 1 false) none;
    side_effects = true;
  }

  abbrev pub css_module_rule : Rule
  css_module_rule = record {
    tests = css_module_regex ∷ [];
    excludes = [];
    include = none;
    loaders = get_style_loaders f paths.public_url_or_path (style_options 1 true) none;
    side_effects = false;
  }

  abbrev pub sass_rule : Rule
  sass_rule = record {
    tests = sass_regex ∷ [];
    excludes = sass_module_regex ∷ [];
    include = none;
    loaders =
        get_style_loaders f paths.public_url_or_path (style_options 3 false) (some "sass-loader");
    side_effects = true;
  }

  abbrev pub sass_module_rule : Rule
  sass_module_rule = record {
    tests = sass_module_regex ∷ [];
    excludes = [];
    include = none;
    loaders =
        get_style_loaders f paths.public_url_or_path (style_options 3 true) (some "sass-loader");
    side_effects = false;
  }

  abbrev pub file_rule : Rule
  file_rule = record {
    tests = [];
    excludes = code_regex ∷ html_regex ∷ json_regex ∷ [];
    include = none;
    loaders = file media_name ∷ [];
    side_effects = false;
  }

  -- `oneOf`.
  unfoldable pub one_of_rules : List Rule
  one_of_rules =
      image_rule ∷ app_rule ∷ dependencies_rule ∷ css_rule ∷ css_module_rule ∷ sass_rule
      ∷ sass_module_rule ∷ file_rule ∷ []
