-- ===== src/Webpack/Resolve/Search.antt =====
-- web/config/webpack.config.js with web/config/modules.js and web/config/env.js: where an import
-- is looked for.
use dawn_patrol.Prelude.{
  String, Option, none, some, List, [], ◌∷◌, map, ◌≡◌, ◌≢◌, ◌↔◌, inl, inr, refl, sym, ◌∙◌, ap,
  arith, eq_iff, truthy, or_text, keep, split, All, Lacks, ok,
}
use dawn_patrol.Prelude.Object.{lookup, insert}
use dawn_patrol.Platform.{Platform}
use dawn_patrol.Env.{Env, resolved_node_path}
use dawn_patrol.Env.NodePath.{kept_folders, split-resolved_node_path}
use dawn_patrol.Paths.{Paths}
use dawn_patrol.Modules.{Config, ModulePaths, Modules, get_modules, get_additional_module_paths}
use dawn_patrol.Modules.Laws.{Names, base_url, get_modules-Layout}
use dawn_patrol.Webpack.{Flags}
use dawn_patrol.Webpack.Resolve.{search_modules, alias}

keep-All : (xs : List String) → All (λ (s : String). s ≢ "") xs → keep truthy xs ≡ xs
keep-All [] h = refl
keep-All (x ∷ xs) (p, h) = ground (arith, keep-All xs h, eq_iff x "")

or_text_empty : (s : String) → or_text (some s) "" ≡ s
or_text_empty s = ground (arith, eq_iff s "")

-- Without a base URL, webpack looks first in node_modules and then in the resolved folders of
-- NODE_PATH, in their order, if the environment is the one that env.js left, at least one folder
-- is relative, and no resolved folder is empty or holds the delimiter.
pub search_node_path :
    (p : Platform) (paths : Paths) (app_directory : String) (node_path : Option String) (env : Env)
    → lookup "NODE_PATH" env ≡ some (resolved_node_path p app_directory node_path)
    → kept_folders p node_path ≢ []
    → All (λ folder. Lacks p.delimiter (p.resolve app_directory folder)) (kept_folders p node_path)
    → All
        (λ (s : String). s ≢ "")
        (map (λ folder. p.resolve app_directory folder) (kept_folders p node_path))
    → (additional : ModulePaths) × (get_additional_module_paths p paths env none ≡ ok additional)
      × (search_modules paths additional
          ≡ "node_modules"
            ∷ paths.app_node_modules
            ∷ map (λ folder. p.resolve app_directory folder) (kept_folders p node_path))
unfolding get_additional_module_paths search_modules
search_node_path p paths app_directory node_path env set some_left lacks named =
    let (same, relative) = split-resolved_node_path p app_directory node_path some_left lacks in
    let folders = map (λ folder. p.resolve app_directory folder) (kept_folders p node_path) in
    let read = ap (λ (t : Option String). or_text t "") set ∙ or_text_empty _ in
    let pieces =
      ap (λ t. keep truthy (split p.delimiter t)) read
      ∙ ap (keep truthy) same
      ∙ keep-All folders named in
    (some folders, ap (λ t. ok (some t)) pieces, refl)

no_src : (f : Flags) → lookup "src" (alias f none) ≡ none
unfolding alias lookup insert
no_src f = ground arith

src_listed :
    (f : Flags) (folder : String)
    → lookup "src" (alias f (some (("src", folder) ∷ []))) ≡ some folder
unfolding alias lookup insert
src_listed f folder = ground arith

-- If modules.js loads with a base URL that is not empty, and the root is neither node_modules nor
-- src, then `src` is an alias for the source folder exactly if the base URL names the root.
pub src_alias_iff :
    (p : Platform) (paths : Paths) (read_ts read_js : String → Option Config) (env : Env)
    (f : Flags) (b : String) (m : Modules)
    → base_url p paths read_ts read_js env ≡ some b
    → b ≢ ""
    → (Names p paths paths.app_path b → ¬ Names p paths paths.app_node_modules b)
    → (Names p paths paths.app_path b → ¬ Names p paths paths.app_src b)
    → get_modules p paths read_ts read_js env ≡ ok m
    → (lookup "src" (alias f m.webpack_aliases) ≡ some paths.app_src)
      ↔ Names p paths paths.app_path b
src_alias_iff p paths read_ts read_js env f b m given named apart apart' e =
    elim (get_modules-Layout p paths read_ts read_js env b m given named apart apart' e) [
      | inl (n, a, w, j) ↦ (
        λ h. cc (sym h ∙ ap (λ t. lookup "src" (alias f t)) w ∙ no_src f),
        λ h. absurd (apart h n),
      )
      | inr (inl (n, a, w, j)) ↦ (
        λ h. cc (sym h ∙ ap (λ t. lookup "src" (alias f t)) w ∙ no_src f),
        λ h. absurd (apart' h n),
      )
      | inr (inr (n, a, w, j)) ↦
          (λ h. n, λ h. ap (λ t. lookup "src" (alias f t)) w ∙ src_listed f paths.app_src)
    ]
