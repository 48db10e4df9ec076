-- ===== src/Tests/Configuration.antt =====
-- The configuration modules of web/config on concrete inputs.
use dawn_patrol.Prelude.{
  String, Bool, true, false, ◌||◌, Option, none, some, [], ◌∷◌, ◌++◌, ◌==◌, ◌≡◌, ◌≢◌, ◌↔◌, ◌⊎◌,
  refl, arith, eq_iff, ◌<>◌, if◌then◌else◌, All, Lacks, ok, throw, join, sym, ◌∙◌, split, map,
}
use dawn_patrol.Prelude.Object.{lookup, insert}
use dawn_patrol.Platform.{Platform}
use dawn_patrol.Env.{
  Env, dotenv_files, load_files, relative_folders, read_env, raw_environment, resolved_node_path,
}
use dawn_patrol.Env.Load.{IsDotenv, first_value, contents, read_env-first}
use dawn_patrol.Env.NodePath.{IsRelative, kept_folders, split-resolved_node_path}
use dawn_patrol.Env.Client.{visible, lookup-raw_environment}
use dawn_patrol.Paths.{Paths, with_extension, resolve_module, module_file_extensions}
use dawn_patrol.Paths.Resolution.{IsFirst, resolve_module-IsFirst}
use dawn_patrol.Modules.{
  Config, unsupported_base_url, get_webpack_aliases, get_jest_aliases, Modules, get_modules,
  get_additional_module_paths,
}
use dawn_patrol.Modules.Laws.{Rejects, Layout, get_modules-throw_iff, get_modules-Layout}
use dawn_patrol.Https.{Crypto, certified, get_https_config}
use dawn_patrol.Https.Laws.{AsksForFiles, IsUsable, file_of, get_https_config-certified_iff}

-- A file system with these files, and paths that are compared as texts.
abbrev exists : String → Bool
exists f =
    f == "/app/.env"
    || (f == "/app/src/index.tsx"
        || (f == "/app/tsconfig.json" || (f == "/app/server.crt" || f == "/app/server.key")))

abbrev resolve : String → String → String
resolve base f = if f == "" || f == "." then base else base <> ("/" <> f)

abbrev relative : String → String → String
relative from to = if from == to then "" else to

abbrev pub platform : Platform
platform = record {
  delimiter = ":";
  is_absolute = λ f. f == "/usr/lib";
  resolve = resolve;
  relative = relative;
  exists = exists;
}

-- One file that sets one variable.
abbrev pub content : String → Env
content f = if f == "/app/.env" then ("REACT_APP_API", "/panic") ∷ [] else []

abbrev pub load : String → Env → Env
load f env = env ++ content f

lookup-append : (k : String) (xs ys : Env) → lookup k (xs ++ ys) ≡ first_value k (xs ∷ ys ∷ [])
unfolding lookup
lookup-append k [] ys = ground arith
lookup-append k ((j, v) ∷ xs) ys = ground (arith, lookup-append k xs ys)

pub load-IsDotenv : IsDotenv load content
load-IsDotenv = record {
  keeps = λ f env k v h. ground (arith, lookup-append k env (content f));
  adds = λ f env k h. ground (arith, lookup-append k env (content f));
}

abbrev started : Env
started = ("NODE_ENV", "test") ∷ []

abbrev loaded : Env
loaded = ("NODE_ENV", "test") ∷ ("REACT_APP_API", "/panic") ∷ ("NODE_PATH", "") ∷ []

loads : read_env platform load "/app/.env" "/app" started ≡ ok loaded
unfolding read_env load_files dotenv_files resolved_node_path relative_folders lookup insert join
    split
loads = refl

different : ◌≢◌ {A = String} "REACT_APP_API" "NODE_PATH"
different = ground (arith, eq_iff "REACT_APP_API" "NODE_PATH")

rooted : ◌≢◌ {A = String} "/app/.env" ""
rooted = ground (arith, eq_iff "/app/.env" "")

read_env-first_example :
    lookup "REACT_APP_API" loaded
    ≡ first_value "REACT_APP_API" (
        started
        ∷ contents platform.exists content
            ("/app/.env.test.local" ∷ "/app/.env.test" ∷ "/app/.env" ∷ []))
unfolding lookup
read_env-first_example =
    read_env-first platform load content load-IsDotenv "/app/.env" "/app" "test" started loaded
      "REACT_APP_API" rooted different refl loads

lookup-raw_environment_example :
    lookup "REACT_APP_API" (raw_environment "" loaded) ≡ visible "" loaded "REACT_APP_API"
lookup-raw_environment_example = lookup-raw_environment "" loaded "REACT_APP_API"

pub kept : kept_folders platform (some "lib::/usr/lib:src") ≡ "lib" ∷ "src" ∷ []
unfolding relative_folders split
kept = refl

pub some_kept : kept_folders platform (some "lib::/usr/lib:src") ≢ []
some_kept h = cc (sym kept ∙ h)

pub none_holds :
    All
      (λ folder. Lacks platform.delimiter (platform.resolve "/app" folder))
      (kept_folders platform (some "lib::/usr/lib:src"))
none_holds = rw kept (ground arith)

split-resolved_node_path_example :
    (split ":" (resolved_node_path platform "/app" (some "lib::/usr/lib:src"))
      ≡ map (λ folder. resolve "/app" folder) (kept_folders platform (some "lib::/usr/lib:src")))
    × All (IsRelative platform) (kept_folders platform (some "lib::/usr/lib:src"))
split-resolved_node_path_example =
    split-resolved_node_path platform "/app" (some "lib::/usr/lib:src") some_kept none_holds

resolve_module-IsFirst_example :
    ((extension : String) × (resolve_module platform (resolve "/app") "src/index"
        ≡ with_extension (resolve "/app") "src/index" extension)
      × IsFirst
          (λ e. platform.exists (with_extension (resolve "/app") "src/index" e))
          module_file_extensions
          extension)
    ⊎ ((resolve_module platform (resolve "/app") "src/index" ≡ resolve "/app" "src/index.js")
        × All
            (λ e. platform.exists (with_extension (resolve "/app") "src/index" e) ≡ false)
            module_file_extensions)
resolve_module-IsFirst_example = resolve_module-IsFirst platform (resolve "/app") "src/index"

abbrev pub folders : Paths
folders = record {
  dotenv = "/app/.env";
  app_path = "/app";
  app_build = "/app/build";
  app_public = "/app/public";
  app_html = "/app/public/index.html";
  app_index_js = "/app/src/index.tsx";
  app_package_json = "/app/package.json";
  app_src = "/app/src";
  app_ts_config = "/app/tsconfig.json";
  app_js_config = "/app/jsconfig.json";
  yarn_lock_file = "/app/yarn.lock";
  tests_setup = "/app/src/setupTests.js";
  proxy_setup = "/app/src/setupProxy.js";
  app_node_modules = "/app/node_modules";
  public_url_or_path = "/";
}

abbrev pub based : String → String → Option Config
based base_url file = some (record { compiler_options = some (some base_url) })

abbrev pub missing : String → Option Config
missing file = none

get_modules-throw_iff_example :
    (get_modules platform folders (based "lib") missing [] ≡ throw unsupported_base_url)
    ↔ Rejects platform folders (based "lib") missing [] unsupported_base_url
get_modules-throw_iff_example =
    get_modules-throw_iff platform folders (based "lib") missing [] unsupported_base_url

abbrev pub rooted_modules : Modules
rooted_modules = record {
  additional_module_paths = none;
  webpack_aliases = some (("src", "/app/src") ∷ []);
  jest_aliases = some (("^src/(.*)$", "<rootDir>/src/$1") ∷ []);
  has_ts_config = true;
}

pub dot-ne : ◌≢◌ {A = String} "." ""
dot-ne = ground (arith, eq_iff "." "")

pub modules_apart : relative "/app/node_modules" "/app" ≢ ""
modules_apart = ground (arith, eq_iff "/app" "")

pub src_apart : relative "/app/src" "/app" ≢ ""
src_apart = ground (arith, eq_iff "/app" "")

pub modules_loads : get_modules platform folders (based ".") missing [] ≡ ok rooted_modules
unfolding get_modules get_additional_module_paths get_webpack_aliases get_jest_aliases
modules_loads = refl

get_modules-Layout_example : Layout platform folders (based ".") missing [] "." rooted_modules
get_modules-Layout_example =
    get_modules-Layout platform folders (based ".") missing [] "." rooted_modules refl dot-ne
      (λ named. modules_apart) (λ named. src_apart) modules_loads

-- A buffer is a text, and a certificate encrypts only with its own key.
abbrev pub crypto : Crypto
crypto = record {
  Buffer = String;
  sample = "test";
  read_file = λ f. ok f;
  public_encrypt = λ cert message. ok (cert <> message);
  private_decrypt =
      λ key message. if message == "/app/server.crttest" then ok "test" else throw "bad decrypt";
}

abbrev secure : Env
secure = ("HTTPS", "true") ∷ ("SSL_CRT_FILE", "server.crt") ∷ ("SSL_KEY_FILE", "server.key") ∷ []

get_https_config-certified_iff_example :
    (get_https_config crypto platform "/app" secure
      ≡ ok (certified "/app/server.crt" "/app/server.key"))
    ↔ (AsksForFiles crypto platform secure
        × IsUsable crypto platform
            (file_of crypto platform "/app" "SSL_CRT_FILE" secure)
            (file_of crypto platform "/app" "SSL_KEY_FILE" secure)
            "/app/server.crt"
            "/app/server.key")
get_https_config-certified_iff_example =
    get_https_config-certified_iff crypto platform "/app" secure "/app/server.crt" "/app/server.key"
