-- ===== src/Tests/Browser.antt =====
-- web/src/serviceWorker.js on concrete events.
use dawn_patrol.Prelude.{
  ◌≤◌, String, true, false, Option, none, some, List, [], ◌∷◌, ◌≡◌, ◌↔◌, ◌⊎◌, refl, codes,
}
use dawn_patrol.ServiceWorker.{
  is_localhost, Page, Config, Response, Event, loaded, fetched, registered, update_found,
  state_changed, ready, unregistered, is_missing, register_page, unregister_page, step, run,
}
use dawn_patrol.ServiceWorker.Reload.{reloads, saw_missing, reload-missing}
use dawn_patrol.ServiceWorker.Registration.{
  registers, IsUnregisterOnly, register-once, unregister_only,
}
use dawn_patrol.ServiceWorker.Callbacks.{updates, successes, callbacks_bounded}
use dawn_patrol.ServiceWorker.Localhost.{Is127, is_localhost_iff}

abbrev page : Page
page = record {
  hostname = "localhost";
  origin = "http://localhost:3000";
  node_env = "production";
  public_url = "";
  public_origin = "http://localhost:3000";
  supported = true;
}

abbrev not_found : Response
not_found = record { status = 404; content_type = none }

abbrev script : Response
script = record { status = 200; content_type = some "application/javascript" }

abbrev reloading : List Event
reloading = loaded ∷ fetched not_found ∷ ready ∷ unregistered ∷ []

abbrev installing : List Event
installing =
    loaded ∷ fetched script ∷ registered ∷ update_found true ∷ state_changed "installed" true ∷ []

has_reloaded : reloads (run page none (register_page page) reloading).effects ≡ true
unfolding register_page run step is_localhost is_missing
has_reloaded = refl

reload-missing_example : (is_localhost "localhost" ≡ true) × (saw_missing reloading ≡ true)
reload-missing_example = reload-missing page none reloading has_reloaded

register-once_example :
    (registers (run page none (register_page page) installing).effects ≡ 0)
    ⊎ ((registers (run page none (register_page page) installing).effects ≡ 1)
        × (page.node_env ≡ "production")
        × (page.supported ≡ true)
        × (page.public_origin ≡ page.origin))
register-once_example = register-once page none installing

unregister_only_example : IsUnregisterOnly (run page none (unregister_page page) reloading).effects
unregister_only_example = unregister_only page none reloading

abbrev config : Option Config
config = some (record { has_on_update = true; has_on_success = false })

callbacks_bounded_example :
    (updates (run page config (register_page page) installing).effects ≤ 1)
    × (successes (run page config (register_page page) installing).effects ≤ 0)
callbacks_bounded_example = callbacks_bounded page config installing

is_localhost_iff_example :
    (is_localhost "127.0.0.255" ≡ true)
    ↔ (◌≡◌ {A = String} "127.0.0.255" "localhost")
      ⊎ ((◌≡◌ {A = String} "127.0.0.255" "[::1]") ⊎ Is127 (codes "127.0.0.255"))
is_localhost_iff_example = is_localhost_iff "127.0.0.255"
