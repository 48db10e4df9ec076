-- ===== src/DevServer.antt =====
-- web/config/webpackDevServer.config.js: the configuration of the development server. Settings
-- that are constants are left out.
pub mod Access
use dawn_patrol.Prelude.{
  String, Bool, true, false, not, ◌||◌, Option, none, some, List, [], ◌∷◌, ◌++◌, is_text, or_text,
  if◌then◌else◌, Result, ok, throw, ◌>>=◌,
}
use dawn_patrol.Prelude.Object.{lookup}
use dawn_patrol.Platform.{Platform}
use dawn_patrol.Env.{Env}
use dawn_patrol.Paths.{Paths}
use dawn_patrol.Https.{HttpsError, Crypto, Https, get_https_config}

-- What requests for a path are passed on to.
pub record Target : Type 0 where
  pub target : String
  pub secure : Bool

-- The middleware that the two hooks add.
pub data Middleware : Type 0 where
  eval_source_map error_overlay : Middleware
  -- the file that the user provides
  proxy_setup : String → Middleware
  redirect_served_path noop_service_worker : String → Middleware

-- The configuration, over the type of what getHttpsConfig returns.
pub record ServerConfig (H : Type 0) : Type 0 where
  pub disable_host_check : Bool
  pub content_base : String
  pub content_base_public_path : String
  pub sock_host : Option String
  pub sock_path : Option String
  pub sock_port : Option String
  pub public_path : String
  pub https : H
  pub host : String
  pub history_index : String
  pub public : Option String
  pub proxy : List (String × Target)
  pub before : List Middleware
  pub after : List Middleware

abbrev pub api : Target
api = record { target = "http://api-dev:8080"; secure = false }

-- `s.slice(0, -1)`.
unfoldable pub drop_last : String → String
drop_last String.[] = String.[]
drop_last (String.◌∷◌ c String.[]) = String.[]
drop_last (String.◌∷◌ c (String.◌∷◌ d s)) = String.◌∷◌ c (drop_last (String.◌∷◌ d s))

-- The object that the function returns; `proxy` says whether its first argument is given.
unfoldable pub server_config :
    {H : Type 0}
    → Platform
    → Paths
    → Env
    → H
    → (proxy : Bool) → (allowed_host : Option String) → ServerConfig H
server_config p paths env https proxy allowed_host = record {
  disable_host_check = not proxy || is_text (lookup "DANGEROUSLY_DISABLE_HOST_CHECK" env) "true";
  content_base = paths.app_public;
  content_base_public_path = paths.public_url_or_path;
  sock_host = lookup "WDS_SOCKET_HOST" env;
  sock_path = lookup "WDS_SOCKET_PATH" env;
  sock_port = lookup "WDS_SOCKET_PORT" env;
  public_path = drop_last paths.public_url_or_path;
  https = https;
  host = or_text (lookup "HOST" env) "0.0.0.0";
  history_index = paths.public_url_or_path;
  public = allowed_host;
  proxy = ("/index.json", api) ∷ ("/panic", api) ∷ ("/status", api) ∷ [];
  before =
      eval_source_map
      ∷ error_overlay
      ∷ (if p.exists paths.proxy_setup then proxy_setup paths.proxy_setup ∷ [] else []);
  after =
      redirect_served_path paths.public_url_or_path
      ∷ noop_service_worker paths.public_url_or_path
      ∷ [];
}

-- With the HTTPS configuration, which may throw.
unfoldable pub create_server_config :
    (c : Crypto)
    → Platform
    → Paths
    → Env
    → (proxy : Bool) → (allowed_host : Option String) → Result HttpsError (ServerConfig (Https c))
create_server_config c p paths env proxy allowed_host = do
  https ← get_https_config c p paths.app_path env
  ok (server_config p paths env https proxy allowed_host)
