-- ===== src/Webpack/Plugins/Manifest.antt =====
-- web/config/webpack.config.js, `generate`: what the asset manifest holds.
use dawn_patrol.Prelude.{
  String, codes, false, not, Option, some, List, [], ◌∷◌, ◌==◌, ◌≡◌, ◌↔◌, refl, ap, ◌∙◌, arith,
  if◌then◌else◌, Listed, Listed-keep,
}
use dawn_patrol.Prelude.Object.{lookup, insert, lookup-insert}
use dawn_patrol.Regex.Suffix.{is_suffix}
use dawn_patrol.Webpack.Plugins.{manifest_files, entrypoint_files}

-- The path of the last file with the name, or else what is given.
abbrev pub last_path : String → Option String → List (String × String) → Option String
last_path name before [] = before
last_path name before ((n, path) ∷ files) =
    last_path name (if n == name then some path else before) files

-- The manifest gives a name the path of the last file that has it; a name that no file has keeps
-- the seed's path.
pub lookup-manifest_files :
    (seed files : List (String × String)) (name : String)
    → lookup name (manifest_files seed files) ≡ last_path name (lookup name seed) files
unfolding manifest_files
lookup-manifest_files seed [] name = refl
lookup-manifest_files seed ((n, path) ∷ files) name =
    lookup-manifest_files (insert n path seed) files name
    ∙ ap (λ t. last_path name t files) (lookup-insert n name path seed)

-- The entry point's files in the manifest are those that do not end in .map.
pub entrypoint_files_iff :
    (main : List String) (file : String)
    → Listed file (entrypoint_files main)
      ↔ (Listed file main × (is_suffix (codes ".map") (codes file) ≡ false))
unfolding entrypoint_files
entrypoint_files_iff main file =
    ground (arith, Listed-keep (λ (f : String). not (is_suffix (codes ".map") (codes f))) file main)
