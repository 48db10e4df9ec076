-- ===== src/TestScript.antt =====
-- web/scripts/test.js: the arguments that jest is run with.
pub mod Laws
use dawn_patrol.Prelude.{
  String, Bool, true, false, not, ◌&&◌, ◌||◌, Option, List, [], ◌∷◌, ◌++◌, ◌==◌, truthy?,
  if◌then◌else◌,
}

-- `argv.indexOf(flag) !== -1`.
pub includes : String → List String → Bool
includes flag [] = false
includes flag (a ∷ argv) = a == flag || includes flag argv

abbrev pub git_command : String
git_command = "git rev-parse --is-inside-work-tree"

abbrev pub hg_command : String
hg_command = "hg --cwd . root"

-- The commands that are run, and the arguments for jest. `succeeds` says whether `execSync`
-- returns or throws on a command.
unfoldable pub jest_run : (String → Bool) → Option String → List String → List String × List String
unfolding includes
jest_run succeeds ci argv =
    if not (truthy? ci)
      && (not (includes "--watchAll" argv) && not (includes "--watchAll=false" argv))
    then if succeeds git_command then (git_command ∷ [], argv ++ ("--watch" ∷ [])) else (
      git_command ∷ hg_command ∷ [],
      argv ++ ((if succeeds hg_command then "--watch" else "--watchAll") ∷ []),
    )
    else ([], argv)
