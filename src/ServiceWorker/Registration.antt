-- ===== src/ServiceWorker/Registration.antt =====
-- web/src/serviceWorker.js: how often the worker is registered, when the callbacks are called, and
-- what happens to a page that only unregisters, as web/src/index.js does.
use dawn_patrol.Prelude.{
  ℕ, suc, ◌+◌, ◌≤◌, Bool, true, false, Option, List, [], ◌∷◌, ◌++◌, ◌≡◌, ◌⊎◌, ◌∙◌, arith, eq_iff,
}
use dawn_patrol.ServiceWorker.{
  Page, Config, Effect, log, log_error, fetch, register, unregister_worker, reload, on_update,
  on_success, State, register_page, unregister_page, Event, loaded, fetched, fetch_failed,
  registered, register_failed, update_found, state_changed, ready, ready_failed, unregistered, step,
  run, react_log, react_reload, react_unregister, update_text, cached_text, offline_text,
  cache_first_text, sw_url,
}

-- The calls of `navigator.serviceWorker.register`.
abbrev pub registers : List Effect → ℕ
registers [] = 0
registers (register url ∷ es) = suc (registers es)
registers (_ ∷ es) = registers es

abbrev pub bit : Bool → ℕ
bit true = 1
bit false = 0

-- The calls that were made or may still be made.
abbrev budget : State → ℕ
budget s = registers s.effects + (bit s.armed + bit s.fetching)

registers-append :
    (es : List Effect) (e : Effect) → registers (es ++ (e ∷ [])) ≡ registers es + registers (e ∷ [])
registers-append [] e = omega arith
registers-append (register url ∷ es) e = omega (arith, registers-append es e)
registers-append (log m ∷ es) e = registers-append es e
registers-append (_ ∷ es) e = registers-append es e

react_log-budget : (s : State) → budget (react_log s) ≡ budget s
unfolding react_log
react_log-budget s = ground (arith, registers-append s.effects (log cache_first_text))

react_reload-budget : (s : State) → budget (react_reload s) ≡ budget s
unfolding react_reload
react_reload-budget s = ground (arith, registers-append s.effects unregister_worker)

react_unregister-budget : (s : State) → budget (react_unregister s) ≡ budget s
unfolding react_unregister
react_unregister-budget s = ground (arith, registers-append s.effects unregister_worker)

ready-budget : (s : State) → budget (react_unregister (react_reload (react_log s))) ≡ budget s
ready-budget s =
    react_unregister-budget (react_reload (react_log s))
    ∙ react_reload-budget (react_log s)
    ∙ react_log-budget s

module _ (page : Page) (config : Option Config) where
  step-budget : (s : State) (e : Event) → budget (step page config s e) ≤ budget s
  unfolding step
  step-budget s loaded = ground (
    arith,
    registers-append s.effects (fetch (sw_url page)),
    registers-append s.effects (register (sw_url page)),
  )
  step-budget s (fetched r) = ground (arith, registers-append s.effects (register (sw_url page)))
  step-budget s fetch_failed = ground (arith, registers-append s.effects (log offline_text))
  step-budget s registered = ground arith
  step-budget s register_failed = ground (arith, registers-append s.effects log_error)
  step-budget s (update_found b) = ground arith
  step-budget s (state_changed t b) = ground (
    arith,
    registers-append s.effects (log update_text),
    registers-append (s.effects ++ (log update_text ∷ [])) on_update,
    registers-append s.effects (log cached_text),
    registers-append (s.effects ++ (log cached_text ∷ [])) on_success,
  )
  step-budget s ready = omega (arith, ready-budget s)
  step-budget s ready_failed = ground (arith, registers-append s.effects log_error)
  step-budget s unregistered = ground (arith, registers-append s.effects reload)

  run-budget : (s : State) (es : List Event) → budget (run page config s es) ≤ budget s
  unfolding run
  run-budget s [] = omega arith
  run-budget s (e ∷ es) = omega (arith, step-budget s e, run-budget (step page config s e) es)

  -- Whatever the browser reports after one call of `register`, the worker is registered never, or
  -- exactly once, and the latter only if the page is a production build on a browser with service
  -- workers and PUBLIC_URL is on the page's origin.
  pub register-once :
      (es : List Event)
      → (registers (run page config (register_page page) es).effects ≡ 0)
        ⊎ ((registers (run page config (register_page page) es).effects ≡ 1)
            × (page.node_env ≡ "production")
            × (page.supported ≡ true)
            × (page.public_origin ≡ page.origin))
  unfolding register_page
  register-once es = ground (
    arith,
    run-budget (register_page page) es,
    eq_iff page.node_env "production",
    eq_iff page.public_origin page.origin,
  )

-- All that a page that only unregisters can do.
abbrev pub IsUnregisterOnly : List Effect → Type 0
IsUnregisterOnly es = (es ≡ []) ⊎ ((es ≡ unregister_worker ∷ []) ⊎ (es ≡ log_error ∷ []))

-- Nothing is pending.
record IsDone (s : State) : Type 0 where
  armed : s.armed ≡ false
  fetching : s.fetching ≡ false
  registering : s.registering ≡ false
  unregistering : s.unregistering ≡ false
  ready_log : s.ready_log ≡ false
  ready_reload : s.ready_reload ≡ false
  watching : s.watching ≡ false
  installing : s.installing ≡ false
  outcome :
      ((s.ready_unregister ≡ true) × (s.effects ≡ []))
      ⊎ ((s.ready_unregister ≡ false) × IsUnregisterOnly s.effects)

module _ (page : Page) (config : Option Config) where
  step-IsDone : (s : State) (e : Event) → IsDone s → IsDone (step page config s e)
  unfolding step
  step-IsDone s loaded h = ground arith
  step-IsDone s ready h = ground arith
  step-IsDone s _ h = ground arith

  run-IsDone : (s : State) (es : List Event) → IsDone s → IsDone (run page config s es)
  unfolding run
  run-IsDone s [] h = h
  run-IsDone s (e ∷ es) h = run-IsDone (step page config s e) es (step-IsDone s e h)

  -- A page that calls `unregister` alone, as web/src/index.js does, never fetches, registers or
  -- reloads: whatever the browser reports, it unregisters the worker once, or logs one error, or
  -- does nothing.
  pub unregister_only :
      (es : List Event) → IsUnregisterOnly (run page config (unregister_page page) es).effects
  unfolding unregister_page
  unregister_only es = ground (arith, (run-IsDone (unregister_page page) es (ground arith)).outcome)
