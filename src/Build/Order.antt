-- ===== src/Build/Order.antt =====
-- web/scripts/build.js, the order of its effects: what must have succeeded before the build folder
-- is emptied and before the compiler runs.
use dawn_patrol.Prelude.{
  String, Bool, true, false, List, [], ◌∷◌, ◌≡◌, inl, inr, refl, arith, ok, throw, is_text,
  Bool-cases, ap, All, All-append, Listed, Listed-append,
}
use dawn_patrol.Prelude.Object.{lookup}
use dawn_patrol.Build.{
  Effect, log, empty_build_folder, run_compiler, print_sizes, print_hosting, print_error, Inputs,
  Rejection, Run, chain, build, handle, run, report, raw, error, ◌>>=◌, type_errors_text,
  failed_text, log_message, catch_report, report_warnings,
}

chain_empties :
    (i : Inputs) → Listed empty_build_folder (chain i).0 → (i.browsers ≡ ok tt) × (i.sizes ≡ ok tt)
unfolding chain
chain_empties i h = ground arith

chain_compiles :
    (i : Inputs)
    → Listed run_compiler (chain i).0
    → (i.browsers ≡ ok tt)
      × (i.sizes ≡ ok tt)
      × (i.emptied ≡ ok tt)
      × (i.copied ≡ ok tt)
      × (i.compiler ≡ ok tt)
unfolding chain build
chain_compiles i h = ground arith

-- The effects that only the chain before the handlers has.
abbrev is_stage : Effect → Bool
is_stage empty_build_folder = true
is_stage run_compiler = true
is_stage _ = false

abbrev Quiet : Effect → Type 0
Quiet e = is_stage e ≡ false

quiet : (e : Effect) (xs : List Effect) → is_stage e ≡ true → All Quiet xs → ¬ Listed e xs
quiet e [] s q h = elim h [ ]
quiet e (x ∷ xs) s (q, qs) (inl same) = cc (ap is_stage same)
quiet e (x ∷ xs) s (q, qs) (inr h) = quiet e xs s qs h

log_message-Quiet : (r : Rejection) → All Quiet (log_message r)
log_message-Quiet (raw e) = ground arith
log_message-Quiet (error m) = ground arith

report_warnings-Quiet : (ws : List String) → All Quiet (report_warnings ws)
report_warnings-Quiet [] = (refl, tt)
report_warnings-Quiet (w ∷ ws) = (refl, (refl, (refl, (refl, tt))))

report_rest-Quiet :
    (i : Inputs)
    → All Quiet
        (◌>>=◌ {A = Unit {0}} {B = Unit {0}}
          (log "File sizes after gzip:\n" ∷ print_sizes ∷ [], i.sizes_printed)
          (λ sized. (log "" ∷ print_hosting ∷ [], i.hosting_printed))).0
report_rest-Quiet i = ground arith

catch_report-Quiet : (r : Run (Unit {0})) → All Quiet r.0 → All Quiet (catch_report r).0
catch_report-Quiet (es, ok u) q = q
catch_report-Quiet (es, throw e) q = All-append Quiet es (log_message e) q (log_message-Quiet e)

report-Quiet : (i : Inputs) (ws : List String) → All Quiet (report i ws).0
unfolding report
report-Quiet i ws =
    All-append Quiet (report_warnings ws) _ (report_warnings-Quiet ws) (report_rest-Quiet i)

failure_quiet :
    (e : Effect) (m : String) (x : Rejection)
    → is_stage e ≡ true
    → ¬ Listed e (log m ∷ print_error x ∷ [])
failure_quiet e m x s h = quiet e (log m ∷ print_error x ∷ []) s (refl, (refl, tt)) h

handle_stage :
    (i : Inputs) (e : Effect) (r : Run (List String))
    → is_stage e ≡ true
    → Listed e (handle i r).0
    → Listed e r.0
unfolding handle
handle_stage i e (es, ok ws) s h = elim (Listed-append e es (catch_report (report i ws)).0 h) [
  | inl k ↦ k
  | inr k ↦ absurd (quiet e _ s (catch_report-Quiet (report i ws) (report-Quiet i ws)) k)
]
handle_stage i e (es, throw x) s h =
    elim (Bool-cases (is_text (lookup "TSC_COMPILE_ON_ERROR" i.env) "true")) [
      | inl t ↦ elim (Listed-append e es _ (rw t at h)) [
        | inl k ↦ k
        | inr k ↦ absurd (failure_quiet e type_errors_text x s k)
      ]
      | inr t ↦ elim (Listed-append e es _ (rw t at h)) [
        | inl k ↦ k
        | inr k ↦ absurd (failure_quiet e failed_text x s k)
      ]
    ]

run_stage :
    (i : Inputs) (e : Effect)
    → is_stage e ≡ true
    → Listed e (run i).0
    → (i.required_files ≡ true) × Listed e (chain i).0
unfolding run
run_stage i e s h = elim (Bool-cases i.required_files) [
  | inl present ↦ (present, handle_stage i e (chain i) s (simp present at h))
  | inr missing ↦ absurd (simp missing at h)
]

-- The build folder is emptied only if the required files are there, the browsers are set and the
-- old file sizes have been read.
pub run_empties :
    (i : Inputs)
    → Listed empty_build_folder (run i).0
    → (i.required_files ≡ true) × (i.browsers ≡ ok tt) × (i.sizes ≡ ok tt)
run_empties i h =
    let (present, k) = run_stage i empty_build_folder refl h in
    let (browsers, sizes) = chain_empties i k in (present, browsers, sizes)

-- The compiler runs only after the build folder has been emptied and the public folder copied,
-- both without an error.
pub run_compiles :
    (i : Inputs)
    → Listed run_compiler (run i).0
    → (i.required_files ≡ true)
      × (i.browsers ≡ ok tt)
      × (i.sizes ≡ ok tt)
      × (i.emptied ≡ ok tt)
      × (i.copied ≡ ok tt)
      × (i.compiler ≡ ok tt)
run_compiles i h =
    let (present, k) = run_stage i run_compiler refl h in
    let (browsers, sizes, emptied, copied, compiler) = chain_compiles i k in
    (present, browsers, sizes, emptied, copied, compiler)
