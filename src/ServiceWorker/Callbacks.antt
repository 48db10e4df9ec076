-- ===== src/ServiceWorker/Callbacks.antt =====
-- web/src/serviceWorker.js: when the two callbacks of the configuration are called.
use dawn_patrol.Prelude.{
  ℕ, suc, ◌+◌, ◌≤◌, Bool, true, false, not, ◌&&◌, Option, List, [], ◌∷◌, ◌++◌, ◌==◌, ◌≡◌, arith,
  if◌then◌else◌,
}
use dawn_patrol.ServiceWorker.Registration.{bit}
use dawn_patrol.ServiceWorker.{
  Page, Config, Effect, log, log_error, fetch, register, unregister_worker, reload, on_update,
  on_success, State, register_page, Event, loaded, fetched, fetch_failed, registered,
  register_failed, update_found, state_changed, ready, ready_failed, unregistered, step, run,
  react_log, react_reload, react_unregister, update_text, cached_text, offline_text,
  cache_first_text, sw_url, calls_update, calls_success,
}

abbrev pub updates : List Effect → ℕ
updates [] = 0
updates (on_update ∷ es) = suc (updates es)
updates (_ ∷ es) = updates es

abbrev pub successes : List Effect → ℕ
successes [] = 0
successes (on_success ∷ es) = suc (successes es)
successes (_ ∷ es) = successes es

updates-append :
    (es : List Effect) (e : Effect) → updates (es ++ (e ∷ [])) ≡ updates es + updates (e ∷ [])
updates-append [] e = omega arith
updates-append (on_update ∷ es) e = omega (arith, updates-append es e)
updates-append (log m ∷ es) e = updates-append es e
updates-append (_ ∷ es) e = updates-append es e

successes-append :
    (es : List Effect) (e : Effect) → successes (es ++ (e ∷ [])) ≡ successes es + successes (e ∷ [])
successes-append [] e = omega arith
successes-append (on_success ∷ es) e = omega (arith, successes-append es e)
successes-append (log m ∷ es) e = successes-append es e
successes-append (_ ∷ es) e = successes-append es e

-- A worker is reported as installed, on a page that a worker controls (or does not control).
abbrev pub is_install : Bool → Event → Bool
is_install true (state_changed t controlled) = t == "installed" && controlled
is_install false (state_changed t controlled) = t == "installed" && not controlled
is_install _ _ = false

abbrev pub installs : Bool → List Event → ℕ
installs controlled [] = 0
installs controlled (e ∷ es) =
    if is_install controlled e then suc (installs controlled es) else installs controlled es

react_log-updates : (s : State) → updates (react_log s).effects ≡ updates s.effects
unfolding react_log
react_log-updates s = ground (arith, updates-append s.effects (log cache_first_text))

react_reload-updates : (s : State) → updates (react_reload s).effects ≡ updates s.effects
unfolding react_reload
react_reload-updates s = ground (arith, updates-append s.effects unregister_worker)

react_unregister-updates : (s : State) → updates (react_unregister s).effects ≡ updates s.effects
unfolding react_unregister
react_unregister-updates s = ground (arith, updates-append s.effects unregister_worker)

react_log-successes : (s : State) → successes (react_log s).effects ≡ successes s.effects
unfolding react_log
react_log-successes s = ground (arith, successes-append s.effects (log cache_first_text))

react_reload-successes : (s : State) → successes (react_reload s).effects ≡ successes s.effects
unfolding react_reload
react_reload-successes s = ground (arith, successes-append s.effects unregister_worker)

react_unregister-successes :
    (s : State) → successes (react_unregister s).effects ≡ successes s.effects
unfolding react_unregister
react_unregister-successes s = ground (arith, successes-append s.effects unregister_worker)

module _ (page : Page) (config : Option Config) where
  step-updates :
      (s : State) (e : Event)
      → updates (step page config s e).effects
        ≤ updates s.effects + bit (calls_update config && is_install true e)
  unfolding step
  step-updates s loaded = ground (
    arith,
    updates-append s.effects (fetch (sw_url page)),
    updates-append s.effects (register (sw_url page)),
  )
  step-updates s (fetched r) = ground (arith, updates-append s.effects (register (sw_url page)))
  step-updates s fetch_failed = ground (arith, updates-append s.effects (log offline_text))
  step-updates s registered = ground arith
  step-updates s register_failed = ground (arith, updates-append s.effects log_error)
  step-updates s (update_found b) = ground arith
  step-updates s (state_changed t b) = ground (
    arith,
    updates-append s.effects (log update_text),
    updates-append (s.effects ++ (log update_text ∷ [])) on_update,
    updates-append s.effects (log cached_text),
    updates-append (s.effects ++ (log cached_text ∷ [])) on_success,
  )
  step-updates s ready = omega (
    arith,
    react_unregister-updates (react_reload (react_log s)),
    react_reload-updates (react_log s),
    react_log-updates s,
  )
  step-updates s ready_failed = ground (arith, updates-append s.effects log_error)
  step-updates s unregistered = ground (arith, updates-append s.effects reload)

  step-successes :
      (s : State) (e : Event)
      → successes (step page config s e).effects
        ≤ successes s.effects + bit (calls_success config && is_install false e)
  unfolding step
  step-successes s loaded = ground (
    arith,
    successes-append s.effects (fetch (sw_url page)),
    successes-append s.effects (register (sw_url page)),
  )
  step-successes s (fetched r) = ground (arith, successes-append s.effects (register (sw_url page)))
  step-successes s fetch_failed = ground (arith, successes-append s.effects (log offline_text))
  step-successes s registered = ground arith
  step-successes s register_failed = ground (arith, successes-append s.effects log_error)
  step-successes s (update_found b) = ground arith
  step-successes s (state_changed t b) = ground (
    arith,
    successes-append s.effects (log update_text),
    successes-append (s.effects ++ (log update_text ∷ [])) on_update,
    successes-append s.effects (log cached_text),
    successes-append (s.effects ++ (log cached_text ∷ [])) on_success,
  )
  step-successes s ready = omega (
    arith,
    react_unregister-successes (react_reload (react_log s)),
    react_reload-successes (react_log s),
    react_log-successes s,
  )
  step-successes s ready_failed = ground (arith, successes-append s.effects log_error)
  step-successes s unregistered = ground (arith, successes-append s.effects reload)

  run-updates :
      (s : State) (es : List Event)
      → updates (run page config s es).effects
        ≤ updates s.effects + (if calls_update config then installs true es else 0)
  unfolding run
  run-updates s [] = ground arith
  run-updates s (e ∷ es) = ground (arith, step-updates s e, run-updates (step page config s e) es)

  run-successes :
      (s : State) (es : List Event)
      → successes (run page config s es).effects
        ≤ successes s.effects + (if calls_success config then installs false es else 0)
  unfolding run
  run-successes s [] = ground arith
  run-successes s (e ∷ es) =
      ground (arith, step-successes s e, run-successes (step page config s e) es)

  -- `onUpdate` is called at most once for each report of an installed worker on a page that is
  -- controlled by one, and never if the configuration lacks it; `onSuccess` likewise for the
  -- reports on a page that is not controlled.
  pub callbacks_bounded :
      (es : List Event)
      → (updates (run page config (register_page page) es).effects
          ≤ (if calls_update config then installs true es else 0))
        × (successes (run page config (register_page page) es).effects
            ≤ (if calls_success config then installs false es else 0))
  unfolding register_page
  callbacks_bounded es = (
    ground (arith, run-updates (register_page page) es),
    ground (arith, run-successes (register_page page) es),
  )
