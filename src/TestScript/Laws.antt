-- ===== src/TestScript/Laws.antt =====
-- web/scripts/test.js: when jest watches the files.
use dawn_patrol.Prelude.{
  String, Bool, true, false, Option, some, List, [], ◌∷◌, ◌++◌, ◌≡◌, ◌≢◌, ◌↔◌, ◌⊎◌, arith, eq_iff,
  truthy?, Listed, Listed-append,
}
use dawn_patrol.Build.{spells_false, is_strict}
use dawn_patrol.TestScript.{includes, git_command, hg_command, jest_run}

includes_iff : (flag : String) (argv : List String) → (includes flag argv ≡ true) ↔ Listed flag argv
unfolding includes
includes_iff flag [] = (λ h. cc, λ h. elim h [ ])
includes_iff flag (a ∷ argv) = ground (arith, includes_iff flag argv, eq_iff a flag)

append-ne : (argv : List String) (x : String) → argv ++ (x ∷ []) ≢ argv
append-ne [] x h = cc
append-ne (a ∷ argv) x h = append-ne argv x (cc)

-- jest gets the given arguments unchanged exactly if CI is set to anything but the empty text, or
-- one of the two forms of --watchAll is among them.
pub jest_run-unchanged_iff :
    (succeeds : String → Bool) (ci : Option String) (argv : List String)
    → ((jest_run succeeds ci argv).1 ≡ argv)
      ↔ ((truthy? ci ≡ true) ⊎ (Listed "--watchAll" argv ⊎ Listed "--watchAll=false" argv))
unfolding jest_run
jest_run-unchanged_iff succeeds ci argv = ground (
  arith,
  includes_iff "--watchAll" argv,
  includes_iff "--watchAll=false" argv,
  append-ne argv "--watch",
  append-ne argv "--watchAll",
)

-- Where --watch was not given and jest gets it, git has said yes, or git has said no and
-- Mercurial yes; Mercurial is asked in the second case only.
pub jest_run-repository :
    (succeeds : String → Bool) (ci : Option String) (argv : List String)
    → ¬ Listed "--watch" argv
    → Listed "--watch" (jest_run succeeds ci argv).1
    → ((succeeds git_command ≡ true) × ((jest_run succeeds ci argv).0 ≡ git_command ∷ []))
      ⊎ ((succeeds git_command ≡ false)
          × (succeeds hg_command ≡ true)
          × ((jest_run succeeds ci argv).0 ≡ git_command ∷ hg_command ∷ []))
unfolding jest_run
jest_run-repository succeeds ci argv unasked h = ground (
  arith,
  Listed-append "--watch" argv ("--watch" ∷ []),
  Listed-append "--watch" argv ("--watchAll" ∷ []),
  eq_iff "--watchAll" "--watch",
)

-- A CI variable that is not empty and spells "false" lets the build's warnings pass, as if there
-- were no CI, but keeps the tests from watching, as if there were.
pub ci_false :
    (succeeds : String → Bool) (ci : String) (argv : List String)
    → ci ≢ ""
    → spells_false ci ≡ true
    → (is_strict (some ci) ≡ false) × ((jest_run succeeds (some ci) argv).1 ≡ argv)
unfolding is_strict jest_run
ci_false succeeds ci argv named spelled = ground (arith, eq_iff ci "")
