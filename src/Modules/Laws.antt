-- ===== src/Modules/Laws.antt =====
-- web/config/modules.js: when the module throws, and how its three results fit together.
use dawn_patrol.Prelude.{
  String, true, false, Option, none, some, [], ◌∷◌, ◌≡◌, ◌≢◌, ◌↔◌, ◌⊎◌, inl, inr, refl, sym, subst,
  arith, eq_iff, ok, throw, Bool-cases, Option-cases,
}
use dawn_patrol.Platform.{Platform}
use dawn_patrol.Paths.{Paths}
use dawn_patrol.Env.{Env}
use dawn_patrol.Modules.{
  both_configs, unsupported_base_url, Config, Modules, base_url_of, read_config,
  get_additional_module_paths, get_webpack_aliases, get_jest_aliases, get_modules, ModulesError,
}

module _ (p : Platform) (paths : Paths) where
  -- `path.relative(directory, resolved base URL)` is empty.
  abbrev pub Names : String → String → Type 0
  Names directory base_url = p.relative directory (p.resolve paths.app_path base_url) ≡ ""

  -- The base URL names none of the three directories.
  abbrev pub IsElsewhere : String → Type 0
  IsElsewhere base_url =
      (¬ Names paths.app_node_modules base_url)
      × (¬ Names paths.app_src base_url)
      × (¬ Names paths.app_path base_url)

  module _ (env : Env) where
    additional-throw :
        (b : String) {e : ModulesError}
        → get_additional_module_paths p paths env (some b) ≡ throw e
        → (e ≡ unsupported_base_url) × IsElsewhere b
    unfolding get_additional_module_paths
    additional-throw b h = ground (
      arith,
      eq_iff (p.relative paths.app_node_modules (p.resolve paths.app_path b)) "",
      eq_iff (p.relative paths.app_src (p.resolve paths.app_path b)) "",
      eq_iff (p.relative paths.app_path (p.resolve paths.app_path b)) "",
    )

    additional-elsewhere :
        (b : String)
        → IsElsewhere b
        → get_additional_module_paths p paths env (some b) ≡ throw unsupported_base_url
    unfolding get_additional_module_paths
    additional-elsewhere b h = ground (
      arith,
      eq_iff (p.relative paths.app_node_modules (p.resolve paths.app_path b)) "",
      eq_iff (p.relative paths.app_src (p.resolve paths.app_path b)) "",
      eq_iff (p.relative paths.app_path (p.resolve paths.app_path b)) "",
    )

    additional-none : (e : ModulesError) → get_additional_module_paths p paths env none ≢ throw e
    unfolding get_additional_module_paths
    additional-none e h = cc

  module _ (read_ts read_js : String → Option Config) (env : Env) where
    -- The base URL of the configuration file that exists.
    abbrev pub base_url : Option String
    base_url = base_url_of (
        read_config read_ts read_js paths (p.exists paths.app_ts_config)
          (p.exists paths.app_js_config))

    -- What each of the two errors means.
    abbrev pub Rejects : ModulesError → Type 0
    Rejects both_configs =
        (p.exists paths.app_ts_config ≡ true) × (p.exists paths.app_js_config ≡ true)
    Rejects unsupported_base_url =
        ((p.exists paths.app_ts_config ≡ false) ⊎ (p.exists paths.app_js_config ≡ false))
        × ((b : String) × (base_url ≡ some b) × IsElsewhere b)

    throws_of_Rejects :
        (e : ModulesError) → Rejects e → get_modules p paths read_ts read_js env ≡ throw e
    unfolding get_modules
    throws_of_Rejects both_configs (ts, js) = rw (ts, js)
    throws_of_Rejects unsupported_base_url (one_missing, (b, given, elsewhere)) =
        ground (arith, additional-elsewhere env b elsewhere)

    both_throw :
        (e : ModulesError)
        → p.exists paths.app_ts_config ≡ true
        → p.exists paths.app_js_config ≡ true
        → get_modules p paths read_ts read_js env ≡ throw e
        → both_configs ≡ e
    unfolding get_modules
    both_throw e ts js h = ground arith

    additional_throws :
        (e : ModulesError)
        → (p.exists paths.app_ts_config ≡ false) ⊎ (p.exists paths.app_js_config ≡ false)
        → get_modules p paths read_ts read_js env ≡ throw e
        → get_additional_module_paths p paths env base_url ≡ throw e
    unfolding get_modules
    additional_throws e one_missing h = ground arith

    additional-Rejects :
        (e : ModulesError)
        → (p.exists paths.app_ts_config ≡ false) ⊎ (p.exists paths.app_js_config ≡ false)
        → get_additional_module_paths p paths env base_url ≡ throw e
        → Rejects e
    additional-Rejects e one_missing h = elim (Option-cases base_url) [
      | inl missing ↦ absurd (additional-none env e (rw missing at h))
      | inr (b, given) ↦
          let (same, elsewhere) = additional-throw env b (rw given at h) in
          subst Rejects (sym same) (one_missing, (b, given, elsewhere))
    ]

    throws-Rejects :
        (e : ModulesError) → get_modules p paths read_ts read_js env ≡ throw e → Rejects e
    throws-Rejects e h = elim (Bool-cases (p.exists paths.app_ts_config)) [
      | inl ts ↦ elim (Bool-cases (p.exists paths.app_js_config)) [
        | inl js ↦ subst Rejects (both_throw e ts js h) (ts, js)
        | inr js ↦ additional-Rejects e (inr js) (additional_throws e (inr js) h)
      ]
      | inr ts ↦ additional-Rejects e (inl ts) (additional_throws e (inl ts) h)
    ]

    -- The module throws exactly if both configuration files exist, or if the base URL of the one
    -- that exists is given and names neither node_modules nor src nor the root.
    pub get_modules-throw_iff :
        (e : ModulesError) → (get_modules p paths read_ts read_js env ≡ throw e) ↔ Rejects e
    get_modules-throw_iff e = (throws-Rejects e, throws_of_Rejects e)

    -- The three layouts that a base URL gives.
    abbrev pub Layout : String → Modules → Type 0
    Layout b m =
        (Names paths.app_node_modules b
          × (m.additional_module_paths ≡ none)
          × (m.webpack_aliases ≡ none)
          × (m.jest_aliases ≡ none))
        ⊎ (Names paths.app_src b
            × (m.additional_module_paths ≡ some (paths.app_src ∷ []))
            × (m.webpack_aliases ≡ none)
            × (m.jest_aliases ≡ none))
        ⊎ (Names paths.app_path b
            × (m.additional_module_paths ≡ none)
            × (m.webpack_aliases ≡ some (("src", paths.app_src) ∷ []))
            × (m.jest_aliases ≡ some (("^src/(.*)$", "<rootDir>/src/$1") ∷ [])))

    -- With a base URL that is not empty, and a root that is neither node_modules nor src, a
    -- module that loads has one of three layouts: nothing is added, `src` is a module path, or
    -- `src` is an alias in both tables.
    pub get_modules-Layout :
        (b : String) (m : Modules)
        → base_url ≡ some b
        → b ≢ ""
        → (Names paths.app_path b → ¬ Names paths.app_node_modules b)
        → (Names paths.app_path b → ¬ Names paths.app_src b)
        → get_modules p paths read_ts read_js env ≡ ok m
        → Layout b m
    unfolding get_modules get_webpack_aliases get_jest_aliases get_additional_module_paths
    get_modules-Layout b m given named modules_apart src_apart h = ground (
      arith,
      eq_iff b "",
      eq_iff (p.relative paths.app_node_modules (p.resolve paths.app_path b)) "",
      eq_iff (p.relative paths.app_src (p.resolve paths.app_path b)) "",
      eq_iff (p.relative paths.app_path (p.resolve paths.app_path b)) "",
    )

  -- If `path.resolve` takes the empty base URL to the root, as it takes ".", both give the same
  -- module paths, but the aliases for `src` are given for "." only.
  pub empty_base_url :
      (env : Env)
      → p.resolve paths.app_path "" ≡ paths.app_path
      → p.resolve paths.app_path "." ≡ paths.app_path
      → p.relative paths.app_path paths.app_path ≡ ""
      → (get_additional_module_paths p paths env (some "")
          ≡ get_additional_module_paths p paths env (some "."))
        × (get_webpack_aliases p paths (some "") ≡ some [])
        × (get_jest_aliases p paths (some "") ≡ some [])
        × (get_webpack_aliases p paths (some ".") ≡ some (("src", paths.app_src) ∷ []))
        × (get_jest_aliases p paths (some ".") ≡ some (("^src/(.*)$", "<rootDir>/src/$1") ∷ []))
  unfolding get_webpack_aliases get_jest_aliases get_additional_module_paths
  empty_base_url env none_root dot_root same =
      (rw (none_root, dot_root), refl, refl, rw (dot_root, same), rw (dot_root, same))
