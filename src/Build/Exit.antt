-- ===== src/Build/Exit.antt =====
-- web/scripts/build.js, the exit status: what it takes for the script to succeed.
use dawn_patrol.Prelude.{
  String, true, false, Option, List, [], ◌∷◌, ◌≡◌, ◌↔◌, ◌⊎◌, inl, inr, refl, ap, sym, ◌∙◌, arith,
  ok, throw, is_text, Bool-cases, Result-cases,
}
use dawn_patrol.Prelude.Object.{lookup}
use dawn_patrol.Build.{
  Inputs, Messages, Rejection, Run, chain, build, settle, settle_lists, catch_report,
  collect_messages, is_strict, handle, run, report,
}

-- Every step before the report ends well: the compiler has no error, and no warning that CI
-- makes an error.
pub record Builds (i : Inputs) : Type 0 where
  pub messages : Messages
  pub browsers : i.browsers ≡ ok tt
  pub sizes : i.sizes ≡ ok tt
  pub emptied : i.emptied ≡ ok tt
  pub copied : i.copied ≡ ok tt
  pub compiler : i.compiler ≡ ok tt
  pub collected : collect_messages i.format i.outcome ≡ ok messages
  pub no_errors : messages.errors ≡ []
  pub allowed : (is_strict (lookup "CI" i.env) ≡ false) ⊎ (messages.warnings ≡ [])

settle_lists-ok :
    (ci : Option String) (es ws : List String) {out : List String}
    → (settle_lists ci es ws).1 ≡ ok out
    → (es ≡ []) × ((is_strict ci ≡ false) ⊎ (ws ≡ []))
unfolding settle_lists
settle_lists-ok ci (e ∷ es) ws h = cc
settle_lists-ok ci [] [] h = (refl, inr refl)
settle_lists-ok ci [] (w ∷ ws) h = elim (Bool-cases (is_strict ci)) [
  | inl e ↦ absurd (ground arith)
  | inr e ↦ (refl, inl e)
]

ok_of_settle :
    (ci : Option String) (es ws : List String)
    → es ≡ []
    → (is_strict ci ≡ false) ⊎ (ws ≡ [])
    → (settle_lists ci es ws).1 ≡ ok ws
unfolding settle_lists
ok_of_settle ci (e ∷ es) ws h k = cc
ok_of_settle ci [] [] h k = refl
ok_of_settle ci [] (w ∷ ws) h (inl lenient) = rw lenient
ok_of_settle ci [] (w ∷ ws) h (inr none_left) = cc

chain_steps :
    (i : Inputs) {ws : List String}
    → (chain i).1 ≡ ok ws
    → (i.browsers ≡ ok tt)
      × (i.sizes ≡ ok tt)
      × (i.emptied ≡ ok tt)
      × (i.copied ≡ ok tt)
      × (i.compiler ≡ ok tt)
      × ((m : Messages) × (collect_messages i.format i.outcome ≡ ok m)
          × ((settle (lookup "CI" i.env) m).1 ≡ ok ws))
unfolding chain build
chain_steps i h = ground arith

chain-ok : (i : Inputs) {ws : List String} → (chain i).1 ≡ ok ws → Builds i
unfolding settle
chain-ok i h =
    let (browsers, sizes, emptied, copied, compiler, (m, collected, settled)) = chain_steps i h in
    let (no_errors, allowed) = settle_lists-ok (lookup "CI" i.env) m.errors m.warnings settled in
    record {
      messages = m;
      browsers = browsers;
      sizes = sizes;
      emptied = emptied;
      copied = copied;
      compiler = compiler;
      collected = collected;
      no_errors = no_errors;
      allowed = allowed;
    }

steps_chain : (i : Inputs) (b : Builds i) → (chain i).1 ≡ (settle (lookup "CI" i.env) b.messages).1
unfolding chain build
steps_chain i b = ground (arith, b.browsers, b.sizes, b.emptied, b.copied, b.compiler, b.collected)

ok_of_Builds : (i : Inputs) (b : Builds i) → (chain i).1 ≡ ok b.messages.warnings
unfolding settle
ok_of_Builds i b =
    steps_chain i b
    ∙ ok_of_settle (lookup "CI" i.env) b.messages.errors b.messages.warnings b.no_errors b.allowed

-- The report is printed.
abbrev pub Prints : Inputs → Type 0
Prints i = (i.sizes_printed ≡ ok tt) × (i.hosting_printed ≡ ok tt)

-- TSC_COMPILE_ON_ERROR is "true".
abbrev pub IsTolerant : Inputs → Type 0
IsTolerant i = is_text (lookup "TSC_COMPILE_ON_ERROR" i.env) "true" ≡ true

catch_report_zero : (r : Run (Unit {0})) → ((catch_report r).1 ≡ 0) ↔ (r.1 ≡ ok tt)
catch_report_zero (es, ok u) = (λ h. refl, λ h. refl)
catch_report_zero (es, throw e) = (λ h. absurd (omega arith), λ h. cc)

report_ok : (i : Inputs) (ws : List String) → ((report i ws).1 ≡ ok tt) ↔ Prints i
unfolding report
report_ok i ws = ground arith

handle_ok :
    (i : Inputs) (r : Run (List String)) {ws : List String}
    → r.1 ≡ ok ws
    → ((handle i r).1 ≡ 0) ↔ Prints i
unfolding handle
handle_ok i (es, ok ws) h =
    let (to, from) = catch_report_zero (report i ws) in
    let (prints, printed) = report_ok i ws in (λ z. prints (to z), λ p. from (printed p))
handle_ok i (es, throw e) h = cc

handle_throw :
    (i : Inputs) (r : Run (List String)) {e : Rejection}
    → r.1 ≡ throw e
    → ((handle i r).1 ≡ 0) ↔ IsTolerant i
unfolding handle
handle_throw i (es, ok ws) h = cc
handle_throw i (es, throw e) h = ground arith

-- A build that rejects does not succeed.
not-Builds : (i : Inputs) {e : Rejection} → (chain i).1 ≡ throw e → ¬ Builds i
not-Builds i h b = cc (ok_of_Builds i b)

handle-zero_iff :
    (i : Inputs)
    → ((handle i (chain i)).1 ≡ 0) ↔ ((Builds i × Prints i) ⊎ ((¬ Builds i) × IsTolerant i))
handle-zero_iff i = elim (Result-cases (chain i).1) [
  | inl (ws, h) ↦
      let (to, from) = handle_ok i (chain i) h in
      let b = chain-ok i h in
      (λ z. inl (b, to z), elim [ inl (_, p) ↦ from p | inr (n, _) ↦ absurd (n b) ])
  | inr (e, h) ↦
      let (to, from) = handle_throw i (chain i) h in
      let n = not-Builds i h in
      (λ z. inr (n, to z), elim [ inl (b, _) ↦ absurd (n b) | inr (_, t) ↦ from t ])
]

run_present : (i : Inputs) → i.required_files ≡ true → run i ≡ handle i (chain i)
unfolding run
run_present i h = simp h

run_missing : (i : Inputs) → i.required_files ≡ false → (run i).1 ≡ 1
unfolding run
run_missing i h = simp h

-- The script ends with status 0 exactly if the required files are there and either the build
-- succeeds and its report is printed, or the build fails and TSC_COMPILE_ON_ERROR is "true".
pub run-zero_iff :
    (i : Inputs)
    → ((run i).1 ≡ 0)
      ↔ ((i.required_files ≡ true) × ((Builds i × Prints i) ⊎ ((¬ Builds i) × IsTolerant i)))
run-zero_iff i = elim (Bool-cases i.required_files) [
  | inl present ↦
      let same : (run i).1 ≡ (handle i (chain i)).1 = ap (λ r. r.1) (run_present i present) in
      let (to, from) = handle-zero_iff i in
      (λ z. (present, to (sym same ∙ z)), λ h. same ∙ from h.1)
  | inr missing ↦ (λ z. absurd (omega (arith, run_missing i missing)), λ h. cc h.0)
]
