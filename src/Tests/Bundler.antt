-- ===== src/Tests/Bundler.antt =====
-- The configurations of webpack and of its development server on concrete inputs.
use dawn_patrol.Prelude.{
  String, true, false, not, is_text, ◌&&◌, Option, none, some, List, [], ◌∷◌, ◌≡◌, ◌≢◌, ◌↔◌, refl,
  arith, eq_iff, if◌then◌else◌, All, map,
}
use dawn_patrol.Prelude.Object.{lookup}
use dawn_patrol.Env.{Env, resolved_node_path}
use dawn_patrol.Env.NodePath.{kept_folders}
use dawn_patrol.Regex.{matches, test}
use dawn_patrol.Https.{Https, plain}
use dawn_patrol.Webpack.{Flags, flags}
use dawn_patrol.Webpack.Rules.{
  Rule, code_regex, js_regex, babel_runtime_regex, app_rule, dependencies_rule, one_of_rules,
}
use dawn_patrol.Webpack.Rules.Choice.{applies, within, IsOneOf}
use dawn_patrol.Webpack.Rules.Dispatch.{IsLeft, pick-code, pick-none_iff}
use dawn_patrol.DevServer.{server_config}
use dawn_patrol.Webpack.Configuration.{Surroundings, client_raw, config}
use dawn_patrol.Webpack.Configuration.PublicUrl.{config-public_url}
use dawn_patrol.Webpack.Configuration.Runtime.{
  inline_patterns, tests_any, runtime_file, runtime-inlined,
}
use dawn_patrol.Tests.Configuration.{platform, folders, crypto, kept, rooted_modules}

-- The first rule that applies.
pick : List Rule → String → Option Rule
pick [] file = none
pick (r ∷ rs) file = if applies r file then some r else pick rs file

pick-IsOneOf : IsOneOf pick
unfolding pick
pick-IsOneOf = record { no_rule = λ file. refl; next = λ r rs file. refl }

abbrev production : Flags
production = flags platform folders [] ("--profile" ∷ []) "production"

is_code : test code_regex "/app/src/App.js" ≡ true
unfolding test matches
is_code = refl

pick-code_example : pick (one_of_rules production folders) "/app/src/App.js" ≡ (
    if within (some "/app/src") "/app/src/App.js"
    then some (app_rule production folders)
    else if test js_regex "/app/src/App.js" && not (test babel_runtime_regex "/app/src/App.js")
    then some (dependencies_rule production folders)
    else none)
pick-code_example = pick-code pick pick-IsOneOf production folders "/app/src/App.js" is_code

pick-none_iff_example :
    (pick (one_of_rules production folders) "/app/package.json" ≡ none)
    ↔ IsLeft folders "/app/package.json"
pick-none_iff_example = pick-none_iff pick pick-IsOneOf production folders "/app/package.json"

abbrev without_maps : Env
without_maps = ("GENERATE_SOURCEMAP", "false") ∷ []

abbrev with_node_path : Env
with_node_path = ("NODE_PATH", resolved_node_path platform "/app" (some "lib::/usr/lib:src")) ∷ []

abbrev resolved : List String
resolved =
    map (λ folder. platform.resolve "/app" folder)
      (kept_folders platform (some "lib::/usr/lib:src"))

none_empty : All (λ (s : String). s ≢ "") resolved
none_empty =
    rw kept (
      (λ e. ground (arith, eq_iff "/app/lib" "")),
      ((λ e. ground (arith, eq_iff "/app/src" "")), tt),
    )

abbrev surroundings : Surroundings
surroundings = record {
  env = [];
  argv = [];
  app_name = "web";
  modules = rooted_modules;
  pnp_ts = none;
  require_resolve = λ name. name;
  quote = λ s. s;
}

abbrev fill : String → (name hash : String) → String
fill template = runtime_file

runtime-inlined_example :
    tests_any (inline_patterns (config platform folders surroundings "production").plugins) (
      runtime_file
        ((config platform folders surroundings "production").runtime_chunk "main")
        "0a1b2c3d")
    ≡ not (is_text (lookup "INLINE_RUNTIME_CHUNK" []) "false")
runtime-inlined_example =
    runtime-inlined fill (λ name hash. refl) platform folders surroundings "main" "0a1b2c3d"
      "static/js/[name].[contenthash:8].js" (refl, (refl, (refl, (refl, tt))))
      (refl, (refl, (refl, (refl, (refl, (refl, (refl, (refl, tt))))))))
      (unfold config flags in refl)

abbrev https_off : Https crypto
https_off = plain false

config-public_url_example :
    (lookup "PUBLIC_URL" (client_raw folders surroundings) ≡ some (some ""))
    × ((server_config platform folders [] https_off true none).public_path ≡ "")
    × ((config platform folders surroundings "development").output.public_path ≡ "/")
config-public_url_example =
    config-public_url platform folders surroundings "development" "" https_off true none refl
