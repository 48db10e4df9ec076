-- ===== src/Env/Load.antt =====
-- web/config/env.js, the .env files: which are read, and which value of a variable wins.
use text.Mathlib.TextLemmas.{append-ne-nil_of_right_ne-nil, append-eq-nil_iff}
use dawn_patrol.Prelude.{
  String, ◌<>◌, Bool, true, Option, none, some, List, [], ◌∷◌, ◌==◌, ◌≡◌, ◌≢◌, arith, eq_iff,
  if◌then◌else◌, Bool-cases, Option-cases, inl, inr, truthy, ok, subst,
}
use dawn_patrol.Prelude.Object.{lookup, lookup-insert}
use dawn_patrol.Platform.{Platform}
use dawn_patrol.Env.{Env, dotenv_files, load_files, read_env, resolved_node_path}

-- The first value that a list of sources gives the variable.
abbrev pub first_value : String → List Env → Option String
first_value k [] = none
first_value k (env ∷ envs) = elim (lookup k env) [ none ↦ first_value k envs | some v ↦ some v ]

abbrev pub contents : (String → Bool) → (String → Env) → List String → List Env
contents exists content [] = []
contents exists content (f ∷ fs) =
    let rest = contents exists content fs in if exists f then content f ∷ rest else rest

-- What dotenv documents, with dotenv-expand over it, for files whose values refer to no other
-- variable: a variable that is set keeps its value, and one that is not set gets the value of the
-- file, if the file has one.
pub record IsDotenv (load : String → Env → Env) (content : String → Env) : Type 0 where
  pub keeps :
      (f : String) (env : Env) (k v : String)
      → lookup k env ≡ some v
      → lookup k (load f env) ≡ some v
  pub adds :
      (f : String) (env : Env) (k : String)
      → lookup k env ≡ none
      → lookup k (load f env) ≡ lookup k (content f)

-- After the loop a variable has the value it had before, or else that of the first file in the
-- list that exists and sets it.
pub load_files-first :
    (p : Platform) (load : String → Env → Env) (content : String → Env)
    → IsDotenv load content
    → (files : List String) (env : Env) (k : String)
    → lookup k (load_files p load files env) ≡ first_value k (env ∷ contents p.exists content files)
unfolding load_files
load_files-first p load content h [] env k = ground arith
load_files-first p load content h (f ∷ fs) env k = elim (Bool-cases (p.exists f)) [
  | inl e ↦ elim (Option-cases (lookup k env)) [
    | inl unset ↦
        rw e (
          ground (arith, load_files-first p load content h fs (load f env) k, h.adds f env k unset))
    | inr (v, set) ↦
        rw e (
          ground
            (arith, load_files-first p load content h fs (load f env) k, h.keeps f env k v set))
  ]
  | inr e ↦ rw e (load_files-first p load content h fs env k)
]

truthy_of_ne : (s : String) → s ≢ "" → truthy s ≡ true
truthy_of_ne s h = ground (arith, eq_iff s "")

truthy-append : (s t : String) → t ≢ "" → truthy (s <> t) ≡ true
truthy-append s t h = truthy_of_ne (s <> t) (append-ne-nil_of_right_ne-nil s h)

dot-ne-nil : (s : String) → ("." <> s) ≢ ""
dot-ne-nil s e = ground (arith, eq_iff "." "", (append-eq-nil_iff.0 e).0)

-- Nothing is dropped from the list but the `false` that stands for `.env.local` in a test.
pub dotenv_files_lem :
    (dotenv node_env : String)
    → dotenv ≢ ""
    → dotenv_files dotenv node_env
      ≡ (dotenv <> ("." <> (node_env <> ".local")))
        ∷ (dotenv <> ("." <> node_env))
        ∷ (if node_env == "test" then dotenv ∷ [] else (dotenv <> ".local") ∷ dotenv ∷ [])
unfolding dotenv_files
dotenv_files_lem dotenv node_env h =
    let long = truthy-append dotenv ("." <> (node_env <> ".local")) (dot-ne-nil _) in
    let short = truthy-append dotenv ("." <> node_env) (dot-ne-nil _) in
    let local = truthy-append dotenv ".local" (dot-ne-nil "local") in
    let plain = truthy_of_ne dotenv h in
    elim (Bool-cases (node_env == "test")) [
      | inl e ↦ rw (long, short, e) (rw plain)
      | inr e ↦ rw (long, short, e) (rw (local, plain))
    ]

-- If dotenv does what it documents and the path of the .env file is not empty, then, after the
-- module is loaded without an error, a variable other than NODE_PATH has the value that the
-- process was started with, or else that of the most specific .env file that exists and sets it;
-- with NODE_ENV = 'test' the file `.env.local` is left out.
pub read_env-first :
    (p : Platform) (load : String → Env → Env) (content : String → Env)
    → IsDotenv load content
    → (dotenv app_directory node_env : String) (env loaded : Env) (k : String) → dotenv ≢ ""
    → k ≢ "NODE_PATH"
    → lookup "NODE_ENV" env ≡ some node_env
    → read_env p load dotenv app_directory env ≡ ok loaded
    → lookup k loaded
      ≡ first_value k (
          env
          ∷ contents p.exists content (
              (dotenv <> ("." <> (node_env <> ".local")))
              ∷ (dotenv <> ("." <> node_env))
              ∷ (if node_env == "test" then dotenv ∷ [] else (dotenv <> ".local") ∷ dotenv ∷ [])))
unfolding read_env
read_env-first p load content h dotenv app_directory node_env env loaded k hd hk he e =
    let after = load_files p load (dotenv_files dotenv node_env) env in
    subst (λ files. lookup k loaded ≡ first_value k (env ∷ contents p.exists content files))
      (dotenv_files_lem dotenv node_env hd)
      (ground (
        arith,
        load_files-first p load content h (dotenv_files dotenv node_env) env k,
        eq_iff "NODE_PATH" k,
        lookup-insert "NODE_PATH" k (resolved_node_path p app_directory (lookup "NODE_PATH" after))
            after,
      ))
