-- ===== src/Env/NodePath.antt =====
-- web/config/env.js, NODE_PATH: which of its folders stay, and when the module refuses to load.
use dawn_patrol.Prelude.{
  String, false, not, ◌&&◌, Option, none, some, List, [], ◌∷◌, map, ◌≡◌, ◌≢◌, refl, ◌↔◌, ◌⊎◌, inl,
  inr, arith, eq_iff, Option-cases, truthy, or_text, split, join, singleton, keep, All, Lacks,
  split-join, throw,
}
use dawn_patrol.Prelude.Object.{lookup}
use dawn_patrol.Platform.{Platform}
use dawn_patrol.Env.{Env, node_env_required, relative_folders, resolved_node_path, read_env}

-- A folder that is left is named and is not absolute.
abbrev pub IsRelative : Platform → String → Type 0
IsRelative p folder = (folder ≢ "") × (p.is_absolute folder ≡ false)

keep-IsRelative :
    (p : Platform) (folders : List String)
    → All (IsRelative p) (keep (λ folder. truthy folder && not (p.is_absolute folder)) folders)
keep-IsRelative p [] = tt
keep-IsRelative p (f ∷ fs) = ground (arith, keep-IsRelative p fs, eq_iff f "")

All-map :
    (P : String → Type 0) (f : String → String) (xs : List String)
    → All (λ x. P (f x)) xs
    → All P (map f xs)
All-map P f [] h = tt
All-map P f (x ∷ xs) h = (h.0, All-map P f xs h.1)

map-ne-nil : (f : String → String) (xs : List String) → xs ≢ [] → map f xs ≢ []
map-ne-nil f [] h e = h refl
map-ne-nil f (x ∷ xs) h e = cc

relative_folders-IsRelative :
    (p : Platform) (node_path : String) → All (IsRelative p) (relative_folders p node_path)
unfolding relative_folders
relative_folders-IsRelative p node_path = keep-IsRelative p (split p.delimiter node_path)

split_joined :
    (p : Platform) (pieces : List String)
    → pieces ≢ []
    → All (Lacks p.delimiter) pieces
    → split p.delimiter (join (singleton p.delimiter) pieces) ≡ pieces
split_joined p [] some_left h = absurd (some_left refl)
split_joined p (x ∷ xs) some_left h = split-join p.delimiter x xs h

-- The folders that NODE_PATH, or its absence, leaves.
abbrev pub kept_folders : Platform → Option String → List String
kept_folders p node_path = relative_folders p (or_text node_path "")

-- Read back, the new NODE_PATH lists the resolved folders in their order, each from a folder of
-- the old one that is not empty and not absolute, provided that one is left and that no resolved
-- folder holds the delimiter.
pub split-resolved_node_path :
    (p : Platform) (app_directory : String) (node_path : Option String)
    → kept_folders p node_path ≢ []
    → All (λ folder. Lacks p.delimiter (p.resolve app_directory folder)) (kept_folders p node_path)
    → (split p.delimiter (resolved_node_path p app_directory node_path)
        ≡ map (λ folder. p.resolve app_directory folder) (kept_folders p node_path))
      × All (IsRelative p) (kept_folders p node_path)
unfolding resolved_node_path
split-resolved_node_path p app_directory node_path some_left h =
    let folders = relative_folders p (or_text node_path "") in
    (
      split_joined p (map (λ folder. p.resolve app_directory folder) folders)
          (map-ne-nil (λ folder. p.resolve app_directory folder) folders some_left)
          (All-map (Lacks p.delimiter) (λ folder. p.resolve app_directory folder) folders h),
      relative_folders-IsRelative p (or_text node_path ""),
    )

-- Loading the module fails exactly if NODE_ENV is not set or is empty.
pub read_env-throw_iff :
    (p : Platform) (load : String → Env → Env) (dotenv app_directory : String) (env : Env)
    → (read_env p load dotenv app_directory env ≡ throw node_env_required)
      ↔ (lookup "NODE_ENV" env ≡ none) ⊎ (lookup "NODE_ENV" env ≡ some "")
unfolding read_env
read_env-throw_iff p load dotenv app_directory env = elim (Option-cases (lookup "NODE_ENV" env)) [
  | inl e ↦ rw e (ground arith)
  | inr (v, e) ↦ rw e (ground (arith, eq_iff v ""))
]
