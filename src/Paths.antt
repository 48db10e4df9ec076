-- ===== src/Paths.antt =====
-- web/config/paths.js: where the application's files are, and the files named without extension.
pub mod Resolution
use dawn_patrol.Prelude.{String, ◌<>◌, Bool, Option, none, some, List, [], ◌∷◌, find, is_text}
use dawn_patrol.Prelude.Object.{lookup}
use dawn_patrol.Platform.{Platform}
use dawn_patrol.Env.{Env}

abbrev pub module_file_extensions : List String
module_file_extensions =
    "web.mjs" ∷ "mjs" ∷ "web.js" ∷ "js" ∷ "web.ts" ∷ "ts" ∷ "web.tsx" ∷ "tsx" ∷ "json" ∷ "web.jsx"
    ∷ "jsx" ∷ []

-- The file with one of the extensions.
abbrev pub with_extension : (String → String) → String → String → String
with_extension resolve_fn file_path extension = resolve_fn (file_path <> ("." <> extension))

unfoldable pub resolve_module : Platform → (String → String) → String → String
resolve_module p resolve_fn file_path =
    elim (find (λ extension. p.exists (with_extension resolve_fn file_path extension))
      module_file_extensions) [
        | some extension ↦ with_extension resolve_fn file_path extension
        | none ↦ resolve_fn (file_path <> ".js")
      ]

pub record Paths : Type 0 where
  pub dotenv : String
  pub app_path : String
  pub app_build : String
  pub app_public : String
  pub app_html : String
  pub app_index_js : String
  pub app_package_json : String
  pub app_src : String
  pub app_ts_config : String
  pub app_js_config : String
  pub yarn_lock_file : String
  pub tests_setup : String
  pub proxy_setup : String
  pub app_node_modules : String
  pub public_url_or_path : String

-- The exports. `public_url` is react-dev-utils' `getPublicUrlOrPath`, and `homepage` the field of
-- package.json.
unfoldable pub paths :
    Platform
    → (Bool → Option String → Option String → String)
    → String
    → Option String
    → Env
    → Paths
paths p public_url app_directory homepage env =
    let resolve_app : String → String = λ relative_path. p.resolve app_directory relative_path in
    record {
      dotenv = resolve_app ".env";
      app_path = resolve_app ".";
      app_build = resolve_app "build";
      app_public = resolve_app "public";
      app_html = resolve_app "public/index.html";
      app_index_js = resolve_module p resolve_app "src/index";
      app_package_json = resolve_app "package.json";
      app_src = resolve_app "src";
      app_ts_config = resolve_app "tsconfig.json";
      app_js_config = resolve_app "jsconfig.json";
      yarn_lock_file = resolve_app "yarn.lock";
      tests_setup = resolve_module p resolve_app "src/setupTests";
      proxy_setup = resolve_app "src/setupProxy.js";
      app_node_modules = resolve_app "node_modules";
      public_url_or_path =
          public_url (is_text (lookup "NODE_ENV" env) "development") homepage
            (lookup "PUBLIC_URL" env);
    }
