-- ===== src/Scripts/TestMode.antt =====
-- web/scripts/test.js and web/config/env.js together: tests see the same variables everywhere,
-- since `.env.local` is not read for them.
use text.Mathlib.TextLemmas.{append_cancel_left, append-nil}
use dawn_patrol.Prelude.{
  String, ◌≡◌, ◌≢◌, refl, ◌∙◌, arith, eq_iff, eq_refl, some, Bool-cases, inl, inr, List, [], ◌∷◌,
  ◌<>◌, All,
}
use dawn_patrol.Prelude.Object.{lookup, insert, lookup-insert}
use dawn_patrol.Platform.{Platform}
use dawn_patrol.Env.{Env, read_env, dotenv_files, load_files}
use dawn_patrol.Env.Load.{dotenv_files_lem}
use dawn_patrol.Scripts.{set_mode, set_test_mode, load_test_mode}

-- Two ways of loading files that differ at one file at most.
abbrev pub AgreeBut : String → (String → Env → Env) → (String → Env → Env) → Type 0
AgreeBut local load load' = (f : String) (env : Env) → f ≢ local → load f env ≡ load' f env

load_files-agree :
    (p : Platform) (load load' : String → Env → Env) (local : String)
    → AgreeBut local load load'
    → (files : List String) (env : Env) → All (λ f. f ≢ local) files
    → load_files p load files env ≡ load_files p load' files env
unfolding load_files
load_files-agree p load load' local agree [] env h = refl
load_files-agree p load load' local agree (f ∷ fs) env (ne, h) = elim (Bool-cases (p.exists f)) [
  | inl e ↦ rw (e, agree f env ne) (load_files-agree p load load' local agree fs (load' f env) h)
  | inr e ↦ rw e (load_files-agree p load load' local agree fs env h)
]

suffix-ne : (s t u : String) → t ≢ u → s <> t ≢ s <> u
suffix-ne s t u h e = h (append_cancel_left s t u e)

test_files_other :
    (dotenv : String) → dotenv ≢ "" → All (λ f. f ≢ dotenv <> ".local") (dotenv_files dotenv "test")
test_files_other dotenv named = rw (dotenv_files_lem dotenv "test" named) (
  suffix-ne dotenv ("." <> ("test" <> ".local")) ".local"
      (λ e. ground (arith, eq_iff ("." <> ("test" <> ".local")) ".local")),
  (
    suffix-ne dotenv ("." <> "test") ".local"
        (λ e. ground (arith, eq_iff ("." <> "test") ".local")),
    (
      (λ e.
          suffix-ne dotenv "" ".local" (λ e'. ground (arith, eq_iff "" ".local"))
            (append-nil dotenv ∙ e)),
      tt,
    ),
  ),
)

lookup-set_test_mode : (env : Env) → lookup "NODE_ENV" (set_test_mode env) ≡ some "test"
unfolding set_test_mode set_mode
lookup-set_test_mode env = ground (
  arith,
  lookup-insert "PUBLIC_URL" "NODE_ENV" ""
      (insert "NODE_ENV" "test" (insert "BABEL_ENV" "test" env)),
  lookup-insert "NODE_ENV" "NODE_ENV" "test" (insert "BABEL_ENV" "test" env),
  eq_iff "PUBLIC_URL" "NODE_ENV",
  eq_refl "NODE_ENV",
)

-- If the path of the .env file is not empty, two loaders that differ at `.env.local` only give the
-- tests the same environment.
pub test_ignores_local :
    (p : Platform) (load load' : String → Env → Env) (dotenv app_directory : String) (env : Env)
    → dotenv ≢ ""
    → AgreeBut (dotenv <> ".local") load load'
    → load_test_mode p load dotenv app_directory env
      ≡ load_test_mode p load' dotenv app_directory env
unfolding load_test_mode read_env
test_ignores_local p load load' dotenv app_directory env named agree =
    let same =
      load_files-agree p load load' (dotenv <> ".local") agree (dotenv_files dotenv "test")
        (set_test_mode env) (test_files_other dotenv named) in
    rw (lookup-set_test_mode env, read_env, same)
