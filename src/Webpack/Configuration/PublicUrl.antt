-- ===== src/Webpack/Configuration/PublicUrl.antt =====
-- web/config/webpack.config.js, web/config/env.js and web/config/webpackDevServer.config.js
-- together: the public path that they share.
use dawn_patrol.Prelude.{String, ◌<>◌, Bool, Option, some, ◌≡◌, refl, ap, ◌∙◌}
use dawn_patrol.Prelude.Object.{lookup}
use dawn_patrol.Platform.{Platform}
use dawn_patrol.Env.{Env, raw_environment, fixed_variables, is_react_app}
use dawn_patrol.Env.Client.{lookup-raw_environment}
use dawn_patrol.Paths.{Paths}
use dawn_patrol.DevServer.{drop_last, server_config}
use dawn_patrol.DevServer.Access.{drop_last-slash}
use dawn_patrol.Webpack.Configuration.{Surroundings, client_raw, config}

-- `PUBLIC_URL` is one of the fixed names.
public_url_lem :
    (public_url : String) (env : Env)
    → lookup "PUBLIC_URL" (raw_environment public_url env) ≡ some (some public_url)
unfolding is_react_app fixed_variables lookup
public_url_lem public_url env = lookup-raw_environment public_url env "PUBLIC_URL" ∙ refl

-- If the public path ends with a slash, then whatever the environment and the mode are, a URL that
-- the client makes of PUBLIC_URL, a slash and a file's name is the one at which webpack puts the
-- file: PUBLIC_URL of the client is the public path without that slash, which the development
-- server takes too, and the public path of the bundle has the slash.
pub config-public_url :
    {H : Type 0} (p : Platform) (paths : Paths) (s : Surroundings) (webpack_env base : String)
    (https : H) (proxy : Bool) (allowed_host : Option String)
    → paths.public_url_or_path ≡ base <> "/"
    → (lookup "PUBLIC_URL" (client_raw paths s) ≡ some (some base))
      × ((server_config p paths s.env https proxy allowed_host).public_path ≡ base)
      × ((config p paths s webpack_env).output.public_path ≡ base <> "/")
unfolding config server_config
config-public_url p paths s webpack_env base https proxy allowed_host slash =
    let same = ap drop_last slash ∙ drop_last-slash base in
    (
      public_url_lem (drop_last paths.public_url_or_path) s.env ∙ ap (λ t. some (some t)) same,
      same,
      slash,
    )
