-- ===== src/Start/Lifecycle.antt =====
-- web/scripts/start.js, from the launch to the exit.
use dawn_patrol.Prelude.{
  ℕ, zero, suc, ◌+◌, String, true, List, [], ◌∷◌, ◌++◌, ◌≡◌, ◌⊎◌, inl, inr, refl, ap, ◌∙◌, arith,
  Result-cases, Option-cases,
}
use dawn_patrol.Env.{Env}
use dawn_patrol.Start.{
  create_server, listen, protocol, host, host_notice, default_port, check_browsers, choose_port,
  announce, sigint, sigterm, listening, listen_failed, Effect, log, close_server, Phase, serving,
  exited, State, Inputs, fail, serve, with_port, launch, Event, stdin_end, reads_stdin, step,
  run_events,
}

-- How often the server is closed.
abbrev pub closings : List Effect → ℕ
closings [] = 0
closings (close_server ∷ es) = suc (closings es)
closings (_ ∷ es) = closings es

-- How often it should have been: once if the process has exited with status 0.
abbrev pub due : Phase → ℕ
due (exited zero) = 1
due _ = 0

abbrev pub IsOrderly : State → Type 0
IsOrderly s = closings s.effects ≡ due s.phase

closings-append : (es fs : List Effect) → closings (es ++ fs) ≡ closings es + closings fs
closings-append [] fs = omega arith
closings-append (close_server ∷ es) fs = omega (arith, closings-append es fs)
closings-append (log m ∷ es) fs = closings-append es fs
closings-append (_ ∷ es) fs = closings-append es fs

fail-IsOrderly : (es : List Effect) (m : String) → closings es ≡ 0 → IsOrderly (fail es m)
unfolding fail
fail-IsOrderly es m h = ground (arith, closings-append es (log m ∷ []))

serve-IsOrderly :
    (i : Inputs) (es : List Effect) (n : ℕ) → closings es ≡ 0 → IsOrderly (serve i es n)
unfolding serve
serve-IsOrderly i es n h = elim (Result-cases i.setup) [
  | inl (u, made) ↦
      ground
        (arith, closings-append es (create_server (protocol i.env) ∷ listen n (host i.env) ∷ []))
  | inr (m, failed) ↦
      let fs = es ++ (create_server (protocol i.env) ∷ []) in
      ground (arith, closings-append es (create_server (protocol i.env) ∷ []), fail-IsOrderly fs m)
]

with_port-IsOrderly : (i : Inputs) (es : List Effect) → closings es ≡ 0 → IsOrderly (with_port i es)
unfolding with_port
with_port-IsOrderly i es h = elim (Result-cases i.port) [
  | inl (port, found) ↦ elim (Option-cases port) [
    | inl e ↦ ground arith
    | inr (n, e) ↦ ground (arith, serve-IsOrderly i es n h)
  ]
  | inr (m, failed) ↦ ground (arith, fail-IsOrderly es m h)
]

host_notice-closings : (env : Env) → closings (host_notice env) ≡ 0
host_notice-closings env = ground arith

launch-IsOrderly : (i : Inputs) → IsOrderly (launch i)
unfolding launch
launch-IsOrderly i =
    let es = host_notice i.env ++ (check_browsers ∷ []) in
    let fs = es ++ (choose_port (host i.env) (default_port i.env) ∷ []) in
    let quiet : closings es ≡ 0 = omega (
      arith,
      closings-append (host_notice i.env) (check_browsers ∷ []),
      host_notice-closings i.env,
    ) in
    let quiet' : closings fs ≡ 0 =
      omega (arith, closings-append es (choose_port (host i.env) (default_port i.env) ∷ [])) in
    elim (Result-cases i.browsers) [
      | inl (u, e) ↦ ground (arith, with_port-IsOrderly i fs quiet')
      | inr (m, e) ↦ ground (arith, fail-IsOrderly es m quiet)
    ]

announce-closings : (i : Inputs) → closings (announce i) ≡ 0
announce-closings i = ground arith

step-IsOrderly : (i : Inputs) (s : State) (e : Event) → IsOrderly s → IsOrderly (step i s e)
unfolding step
step-IsOrderly i s (listen_failed m) h = ground (arith, closings-append s.effects (log m ∷ []))
step-IsOrderly i s _ h = ground (
  arith,
  closings-append s.effects (close_server ∷ []),
  closings-append s.effects (announce i),
  announce-closings i,
)

run_events-IsOrderly :
    (i : Inputs) (s : State) (es : List Event) → IsOrderly s → IsOrderly (run_events i s es)
unfolding run_events
run_events-IsOrderly i s [] h = h
run_events-IsOrderly i s (e ∷ es) h =
    run_events-IsOrderly i (step i s e) es (step-IsOrderly i s e h)

-- Whatever the launch meets and whatever happens afterwards, the server is closed exactly once if
-- the process has exited with status 0, and never while it is up, where the script has ended
-- without a port, or after a failure.
pub run_events-closings :
    (i : Inputs) (es : List Event)
    → closings (run_events i (launch i) es).effects ≡ due (run_events i (launch i) es).phase
run_events-closings i es = run_events-IsOrderly i (launch i) es (launch-IsOrderly i)

-- The two signals, and the end of the standard input where a handler is set for it.
abbrev pub Stops : Inputs → Event → Type 0
Stops i sigint = Unit
Stops i sigterm = Unit
Stops i stdin_end = reads_stdin i ≡ true
Stops i _ = ⊥

step-Stops :
    (i : Inputs) (s : State) (e : Event)
    → s.phase ≡ serving
    → Stops i e
    → (step i s e).phase ≡ exited 0
unfolding step
step-Stops i s sigint up h = ground arith
step-Stops i s _ up h = ground arith

step_keeps :
    (i : Inputs) (s : State) (e : Event)
    → s.phase ≡ serving
    → ¬ Stops i e
    → (step i s e).phase ≡ serving
unfolding step
step_keeps i s sigint up h = absurd (h tt)
step_keeps i s sigterm up h = absurd (h tt)
step_keeps i s stdin_end up h = ground arith
step_keeps i s listening up h = ground arith
step_keeps i s (listen_failed m) up h = ground arith

step_exited : (i : Inputs) (s : State) (e : Event) → s.phase ≡ exited 0 → step i s e ≡ s
unfolding step
step_exited i s e h = ground arith

run_exited : (i : Inputs) (s : State) (es : List Event) → s.phase ≡ exited 0 → run_events i s es ≡ s
unfolding run_events
run_exited i s [] h = refl
run_exited i s (e ∷ es) h = rw (step_exited i s e h) (run_exited i s es h)

-- One of the events stops the server.
abbrev pub StopsAmong : Inputs → List Event → Type 0
StopsAmong i [] = ⊥
StopsAmong i (e ∷ es) = Stops i e ⊎ StopsAmong i es

Stops-cases : (i : Inputs) (e : Event) → Stops i e ⊎ (¬ Stops i e)
Stops-cases i sigint = inl tt
Stops-cases i sigterm = inl tt
Stops-cases i stdin_end = ground arith
Stops-cases i listening = inr (λ h. h)
Stops-cases i (listen_failed m) = inr (λ h. h)

-- A server that is up exits with status 0 if one of the events is a signal, or is the end of the
-- standard input and the terminal is interactive or CI is not "true"; else it stays up.
pub run_events-exit :
    (i : Inputs) (s : State) (es : List Event)
    → s.phase ≡ serving
    → (StopsAmong i es × ((run_events i s es).phase ≡ exited 0))
      ⊎ ((¬ StopsAmong i es) × ((run_events i s es).phase ≡ serving))
unfolding run_events
run_events-exit i s [] up = inr (λ h. h, up)
run_events-exit i s (e ∷ es) up = elim (Stops-cases i e) [
  | inl h ↦
      let out = step-Stops i s e up h in
      inl (inl h, ap (λ (t : State). t.phase) (run_exited i (step i s e) es out) ∙ out)
  | inr n ↦ elim (run_events-exit i (step i s e) es (step_keeps i s e up n)) [
    | inl (h, out) ↦ inl (inr h, out)
    | inr (m, out) ↦ inr (elim [ inl h ↦ n h | inr h ↦ m h ], out)
  ]
]
