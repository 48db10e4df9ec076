-- ===== src/DevServer/Access.antt =====
-- web/config/webpackDevServer.config.js: who may reach the development server, and where it is.
use dawn_patrol.Prelude.{
  ok-inj, String, ◌<>◌, Bool, true, false, Option, none, some, [], ◌∷◌, map, ◌≡◌, ◌≢◌, ◌↔◌, refl,
  subst, sym, ◌∙◌, ap, arith, eq_iff, is_text, ok, >>=-eq-ok,
}
use text.Mathlib.TextLemmas.{nil-append, cons-append}
use dawn_patrol.Prelude.Object.{lookup}
use dawn_patrol.Platform.{Platform}
use dawn_patrol.Env.{Env}
use dawn_patrol.Paths.{Paths}
use dawn_patrol.Https.{Crypto, Https, get_https_config}
use dawn_patrol.DevServer.{Target, ServerConfig, drop_last, server_config, create_server_config}

-- A public path without its last slash.
pub drop_last-slash : (s : String) → drop_last (s <> "/") ≡ s
unfolding drop_last
drop_last-slash String.[] = ap drop_last (nil-append "/")
drop_last-slash (String.◌∷◌ c String.[]) =
    ap drop_last (cons-append c "" "/" ∙ ap (λ t. String.◌∷◌ c t) (nil-append "/"))
drop_last-slash (String.◌∷◌ c (String.◌∷◌ d s)) =
    ap drop_last
      (cons-append c (String.◌∷◌ d s) "/" ∙ ap (λ t. String.◌∷◌ c t) (cons-append d s "/"))
    ∙ ap (λ t. String.◌∷◌ c t)
        (ap drop_last (sym (cons-append d s "/")) ∙ drop_last-slash (String.◌∷◌ d s))

-- The host is checked exactly with a proxy and without the variable; three paths are passed on.
abbrev pub IsGuarded : {H : Type 0} → Env → Bool → ServerConfig H → Type 0
IsGuarded env proxy config =
    ((config.disable_host_check ≡ false)
      ↔ ((proxy ≡ true) × (lookup "DANGEROUSLY_DISABLE_HOST_CHECK" env ≢ some "true")))
    × (map (λ (e : String × Target). e.0) config.proxy ≡ "/index.json" ∷ "/panic" ∷ "/status" ∷ [])

is_text_iff : (o : Option String) (t : String) → (is_text o t ≡ false) ↔ (o ≢ some t)
is_text_iff none t = (λ h e. cc, λ h. refl)
is_text_iff (some s) t = ground (arith, eq_iff s t)

server_config-IsGuarded :
    {H : Type 0} (p : Platform) (paths : Paths) (env : Env) (https : H) (proxy : Bool)
    (allowed_host : Option String)
    → IsGuarded env proxy (server_config p paths env https proxy allowed_host)
unfolding server_config
server_config-IsGuarded p paths env https proxy allowed_host =
    let variable = is_text_iff (lookup "DANGEROUSLY_DISABLE_HOST_CHECK" env) "true" in
    (ground arith, refl)

-- If no error is thrown, the host is checked exactly if the function is called with a proxy and
-- DANGEROUSLY_DISABLE_HOST_CHECK is not "true"; but requests for the same three paths are passed
-- on to the API in every case.
pub create_server_config-IsGuarded :
    (c : Crypto) (p : Platform) (paths : Paths) (env : Env) (proxy : Bool)
    (allowed_host : Option String) (config : ServerConfig (Https c))
    → create_server_config c p paths env proxy allowed_host ≡ ok config
    → IsGuarded env proxy config
unfolding create_server_config
create_server_config-IsGuarded c p paths env proxy allowed_host config h =
    let (https, same, made) = >>=-eq-ok (get_https_config c p paths.app_path env) _ h in
    subst (IsGuarded env proxy) (ok-inj made)
      (server_config-IsGuarded p paths env https proxy allowed_host)
