-- ===== src/Build.antt =====
-- web/scripts/build.js: the production build, as a chain of promises that log and may reject.
-- chalk's colours are left out of the printed texts.
pub mod Exit
pub mod Order
pub mod Rejections
use dawn_patrol.Prelude.{
  ℕ, ◌+◌, String, ◌<>◌, codes, Bool, true, false, not, ◌&&◌, Option, none, some, List, [], ◌∷◌,
  ◌++◌, map, truthy, truthy?, is_text, if◌then◌else◌, keep, ◌==◌, leb, nat_eq, join, Result, ok,
  throw,
}
use dawn_patrol.Prelude.Object.{lookup}
use dawn_patrol.Env.{Env}

-- What webpack hands to the callback as `err`: `message` may be missing, and a postcss error has
-- a selector.
pub record WebpackError : Type 0 where
  pub message : Option String
  pub postcss_selector : Option String

pub record Messages : Type 0 where
  pub errors : List String
  pub warnings : List String

-- The two ways in which the compiler calls back.
pub data Outcome : Type 0 where
  failed : WebpackError → Outcome
  finished : Messages → Outcome

-- What a promise is rejected with: webpack's error as it is, or an `Error` with a message.
pub data Rejection : Type 0 where
  raw : WebpackError → Rejection
  error : String → Rejection

-- What the script does that can be seen from outside.
pub data Effect : Type 0 where
  log : String → Effect
  check_browsers measure_sizes empty_build_folder copy_public_folder run_compiler : Effect
  print_sizes print_hosting : Effect
  print_error : Rejection → Effect

-- A promise that is settled, with the effects up to then.
abbrev pub Run {ℓ} : Type ℓ → Type ℓ
Run A = List Effect × Result Rejection A

infixl 5 ◌>>=◌
abbrev pub ◌>>=◌ : {A B : Type 0} → Run A → (A → Run B) → Run B
(es, ok a) >>= f = (es ++ (f a).0, (f a).1)
(es, throw e) >>= f = (es, throw e)

-- The lower case of an ASCII letter. Only these have lower cases among the letters of "false".
abbrev lower : ℕ → ℕ
lower c = if leb b'A' c && leb c b'Z' then c + 32 else c

abbrev same_codes : List ℕ → List ℕ → Bool
same_codes [] [] = true
same_codes (a ∷ s) (b ∷ t) = nat_eq a b && same_codes s t
same_codes _ _ = false

-- `s.toLowerCase() === 'false'`.
abbrev pub spells_false : String → Bool
spells_false s = same_codes (map lower (codes s)) (codes "false")

-- Warnings are errors: CI is set and is not "false". (`process.env` holds only strings.)
unfoldable pub is_strict : Option String → Bool
is_strict none = false
is_strict (some ci) = truthy ci && not (spells_false ci)

-- The message of an error that webpack calls back with.
abbrev pub error_message : String → Option String → String
error_message message none = message
error_message message (some selector) =
    message <> ("\nCompileError: Begins at CSS selector " <> selector)

-- `messages`; `format` is `formatWebpackMessages`.
unfoldable pub collect_messages : (Messages → Messages) → Outcome → Result Rejection Messages
collect_messages format (failed e) = elim e.message [
  | none ↦ throw (raw e)
  | some message ↦
      if not (truthy message)
      then throw (raw e)
      else ok (
          format (record { errors = error_message message e.postcss_selector ∷ []; warnings = [] }))
]
collect_messages format (finished messages) = ok (format messages)

abbrev pub ci_notice : String
ci_notice =
    "\nTreating warnings as errors because process.env.CI = true.\nMost CI servers set it automatically.\n"

-- `messages.errors.length = 1`.
abbrev pub keep_first : List String → List String
keep_first [] = []
keep_first (e ∷ es) = e ∷ []

-- The rest of the callback: the warnings, or the rejection. The lists are those of `messages`.
settle_lists : Option String → (errors warnings : List String) → Run (List String)
settle_lists ci (e ∷ es) ws = ([], throw (error (join "\n\n" (keep_first (e ∷ es)))))
settle_lists ci [] [] = ([], ok [])
settle_lists ci [] (w ∷ ws) =
    if is_strict ci
    then (log ci_notice ∷ [], throw (error (join "\n\n" (w ∷ ws))))
    else ([], ok (w ∷ ws))

unfoldable pub settle : Option String → Messages → Run (List String)
unfolding settle_lists
settle ci messages = settle_lists ci messages.errors messages.warnings

-- What the script meets: the environment, and how each call of another package ends.
pub record Inputs : Type 0 where
  pub env : Env
  -- `checkRequiredFiles`
  pub required_files : Bool
  -- `checkBrowsers`
  pub browsers : Result Rejection (Unit {0})
  -- `measureFileSizesBeforeBuild`
  pub sizes : Result Rejection (Unit {0})
  -- `fs.emptyDirSync` and `fs.copySync`
  pub emptied : Result Rejection (Unit {0})
  pub copied : Result Rejection (Unit {0})
  -- `webpack(config)`
  pub compiler : Result Rejection (Unit {0})
  pub outcome : Outcome
  -- `printFileSizesAfterBuild` and `printHostingInstructions`
  pub sizes_printed : Result Rejection (Unit {0})
  pub hosting_printed : Result Rejection (Unit {0})
  -- `formatWebpackMessages`
  pub format : Messages → Messages

abbrev perform : Effect → Result Rejection (Unit {0}) → Run (Unit {0})
perform e r = (e ∷ [], r)

abbrev node_path_notice : String
node_path_notice =
    "Setting NODE_PATH to resolve modules absolutely has been deprecated in favor of setting baseUrl in jsconfig.json (or tsconfig.json if you are using TypeScript) and will be removed in a future major release of create-react-app."

-- `build`.
unfoldable pub build : Inputs → Run (List String)
build i = do
  noted ←
      (if truthy? (lookup "NODE_PATH" i.env) then log node_path_notice ∷ log "" ∷ [] else [], ok tt)
  begun ← (log "Creating an optimized production build..." ∷ [], i.compiler)
  messages ← (run_compiler ∷ [], collect_messages i.format i.outcome)
  settle (lookup "CI" i.env) messages

-- The chain up to the handlers.
unfoldable pub chain : Inputs → Run (List String)
chain i = do
  checked ← perform check_browsers i.browsers
  measured ← perform measure_sizes i.sizes
  emptied ← perform empty_build_folder i.emptied
  copied ← perform copy_public_folder i.copied
  build i

-- The first lines of the report.
abbrev report_warnings : List String → List Effect
report_warnings [] = log "Compiled successfully.\n" ∷ []
report_warnings (w ∷ ws) =
    log "Compiled with warnings.\n"
    ∷ log (join "\n\n" (w ∷ ws))
    ∷ log "\nSearch for the keywords to learn more about each warning."
    ∷ log "To ignore, add // eslint-disable-next-line to the line before.\n"
    ∷ []

unfoldable pub report : Inputs → List String → Run (Unit {0})
report i warnings = do
  said ← (report_warnings warnings, ok tt)
  sized ← (log "File sizes after gzip:\n" ∷ print_sizes ∷ [], i.sizes_printed)
  (log "" ∷ print_hosting ∷ [], i.hosting_printed)

-- The handler of the last `catch`.
abbrev log_message : Rejection → List Effect
log_message (raw e) = elim e.message [ none ↦ [] | some m ↦ if truthy m then log m ∷ [] else [] ]
log_message (error m) = if truthy m then log m ∷ [] else []

-- An exit status with the effects up to the exit; 0 is the end of the script.
abbrev pub Exit : Type 0
Exit = List Effect × ℕ

-- `.catch(…)`: a report that fails is logged.
abbrev catch_report : Run (Unit {0}) → Exit
catch_report (es, ok u) = (es, 0)
catch_report (es, throw e) = (es ++ log_message e, 1)

abbrev type_errors_text : String
type_errors_text =
    "Compiled with the following type errors (you may want to check these before deploying your app):\n"

abbrev failed_text : String
failed_text = "Failed to compile.\n"

-- The two handlers of `.then(success, failure)`, and the `catch` behind them.
unfoldable pub handle : Inputs → Run (List String) → Exit
handle i (es, ok warnings) =
    let (fs, status) = catch_report (report i warnings) in (es ++ fs, status)
handle i (es, throw e) =
    if is_text (lookup "TSC_COMPILE_ON_ERROR" i.env) "true"
    then (es ++ (log type_errors_text ∷ print_error e ∷ []), 0)
    else (es ++ (log failed_text ∷ print_error e ∷ []), 1)

-- The script.
unfoldable pub run : Inputs → Exit
run i = if not i.required_files then ([], 1) else handle i (chain i)

-- `copyPublicFolder`: which files of the public folder are copied.
unfoldable pub copied_files : String → List String → List String
copied_files app_html files = keep (λ file. not (file == app_html)) files
