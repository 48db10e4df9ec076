-- ===== src/ServiceWorker/Reload.antt =====
-- web/src/serviceWorker.js: when the page is reloaded, and what never happens without `register`.
use dawn_patrol.Prelude.{
  Bool, true, false, ◌||◌, Option, List, [], ◌∷◌, ◌++◌, ◌≡◌, ◌⊎◌, inl, inr, refl, sym, ◌∙◌, arith,
  Bool-cases,
}
use dawn_patrol.ServiceWorker.{
  is_localhost, Page, Config, Effect, log, log_error, fetch, register, unregister_worker, reload,
  on_update, on_success, State, register_page, Event, loaded, fetched, fetch_failed, registered,
  register_failed, update_found, state_changed, ready, ready_failed, unregistered, is_missing, step,
  run, react_log, react_reload, react_unregister, update_text, cached_text, offline_text,
  cache_first_text, sw_url,
}

-- The page has been reloaded, or will be.
abbrev pub reloads : List Effect → Bool
reloads [] = false
reloads (reload ∷ es) = true
reloads (_ ∷ es) = reloads es

abbrev doomed : State → Bool
doomed s = reloads s.effects || (s.ready_reload || s.unregistering)

-- A response that says that there is no service worker.
abbrev pub is_missing_event : Event → Bool
is_missing_event (fetched r) = is_missing r
is_missing_event _ = false

abbrev pub saw_missing : List Event → Bool
saw_missing [] = false
saw_missing (e ∷ es) = is_missing_event e || saw_missing es

reloads-append :
    (es : List Effect) (e : Effect) → reloads (es ++ (e ∷ [])) ≡ (reloads es || reloads (e ∷ []))
reloads-append [] e = refl
reloads-append (reload ∷ es) e = refl
reloads-append (log m ∷ es) e = reloads-append es e
reloads-append (_ ∷ es) e = reloads-append es e

react_log-doomed : (s : State) → doomed (react_log s) ≡ doomed s
unfolding react_log
react_log-doomed s = ground (arith, reloads-append s.effects (log cache_first_text))

react_reload-doomed : (s : State) → doomed (react_reload s) ≡ doomed s
unfolding react_reload
react_reload-doomed s = ground (arith, reloads-append s.effects unregister_worker)

react_unregister-doomed : (s : State) → doomed (react_unregister s) ≡ doomed s
unfolding react_unregister
react_unregister-doomed s = ground (arith, reloads-append s.effects unregister_worker)

ready-fetching :
    (s : State)
    → s.fetching ≡ false
    → (react_unregister (react_reload (react_log s))).fetching ≡ false
unfolding react_log react_reload react_unregister
ready-fetching s h = ground arith

ready-doomed : (s : State) → doomed (react_unregister (react_reload (react_log s))) ≡ doomed s
ready-doomed s =
    react_unregister-doomed (react_reload (react_log s))
    ∙ react_reload-doomed (react_log s)
    ∙ react_log-doomed s

module _ (page : Page) (config : Option Config) where
  step-doomed :
      (s : State) (e : Event)
      → doomed (step page config s e) ≡ true
      → (doomed s ≡ true) ⊎ ((s.fetching ≡ true) × (is_missing_event e ≡ true))
  unfolding step
  step-doomed s loaded h = ground (
    arith,
    reloads-append s.effects (fetch (sw_url page)),
    reloads-append s.effects (register (sw_url page)),
  )
  step-doomed s (fetched r) h = ground (arith, reloads-append s.effects (register (sw_url page)))
  step-doomed s fetch_failed h = ground (arith, reloads-append s.effects (log offline_text))
  step-doomed s registered h = ground arith
  step-doomed s register_failed h = ground (arith, reloads-append s.effects log_error)
  step-doomed s (update_found b) h = ground arith
  step-doomed s (state_changed t b) h = ground (
    arith,
    reloads-append s.effects (log update_text),
    reloads-append (s.effects ++ (log update_text ∷ [])) on_update,
    reloads-append s.effects (log cached_text),
    reloads-append (s.effects ++ (log cached_text ∷ [])) on_success,
  )
  step-doomed s ready h = inl (sym (ready-doomed s) ∙ h)
  step-doomed s ready_failed h = ground (arith, reloads-append s.effects log_error)
  step-doomed s unregistered h = ground arith

  run-doomed :
      (s : State) (es : List Event)
      → reloads (run page config s es).effects ≡ true
      → (doomed s ≡ true) ⊎ (saw_missing es ≡ true)
  unfolding run
  run-doomed s [] h = ground arith
  run-doomed s (e ∷ es) h = elim (run-doomed (step page config s e) es h) [
    | inl d ↦ elim (step-doomed s e d) [ inl d' ↦ inl d' | inr m ↦ inr (ground (arith, m.1)) ]
    | inr m ↦ inr (ground arith)
  ]

  -- A step leads to a reload only if it is a response that was waited for.
  step-remote-doomed :
      (s : State) (e : Event)
      → (doomed s ≡ false) × (s.fetching ≡ false)
      → doomed (step page config s e) ≡ false
  step-remote-doomed s e q = elim (Bool-cases (doomed (step page config s e))) [
    | inl d ↦ elim (step-doomed s e d) [
      | inl d' ↦ absurd (ground arith)
      | inr m ↦ absurd (ground arith)
    ]
    | inr d ↦ d
  ]

  -- Away from localhost nothing is fetched, so nothing leads to a reload.
  step-remote :
      (s : State) (e : Event)
      → is_localhost page.hostname ≡ false
      → (doomed s ≡ false) × (s.fetching ≡ false)
      → (step page config s e).fetching ≡ false
  unfolding step
  step-remote s loaded h q = ground arith
  step-remote s (fetched r) h q = ground arith
  step-remote s (state_changed t b) h q = ground arith
  step-remote s ready h q = ready-fetching s q.1
  step-remote s _ h q = ground arith

  run-remote :
      (s : State) (es : List Event)
      → is_localhost page.hostname ≡ false
      → (doomed s ≡ false) × (s.fetching ≡ false)
      → reloads (run page config s es).effects ≡ false
  unfolding run
  run-remote s [] h q = ground arith
  run-remote s (e ∷ es) h q =
      run-remote (step page config s e) es h (step-remote-doomed s e q, step-remote s e h q)

  reload-local :
      (es : List Event)
      → reloads (run page config (register_page page) es).effects ≡ true
      → is_localhost page.hostname ≡ true
  unfolding register_page
  reload-local es h = elim (Bool-cases (is_localhost page.hostname)) [
    | inl here ↦ here
    | inr remote ↦ absurd (ground (arith, run-remote (register_page page) es remote (ground arith)))
  ]

  -- After `register` the page is reloaded only on localhost, and only if a response was seen with
  -- status 404 or with a content type that is not JavaScript.
  pub reload-missing :
      (es : List Event)
      → reloads (run page config (register_page page) es).effects ≡ true
      → (is_localhost page.hostname ≡ true) × (saw_missing es ≡ true)
  unfolding register_page
  reload-missing es h = (
    reload-local es h,
    elim (run-doomed (register_page page) es h) [ inl d ↦ absurd (ground arith) | inr m ↦ m ],
  )
