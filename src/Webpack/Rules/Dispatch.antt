-- ===== src/Webpack/Rules/Dispatch.antt =====
-- web/config/webpack.config.js: which of the `oneOf` rules takes a file.
use dawn_patrol.Prelude.{
  String, true, false, not, ◌&&◌, Option, none, some, List, [], ◌∷◌, ◌≡◌, ◌↔◌, ◌⊎◌, inl, inr, refl,
  sym, ◌∙◌, arith, Bool-cases, if◌then◌else◌,
}
use dawn_patrol.Regex.{test}
use dawn_patrol.Paths.{Paths}
use dawn_patrol.Webpack.{Flags}
use dawn_patrol.Webpack.Rules.{
  css_regex, css_module_regex, sass_regex, sass_module_regex, code_regex, js_regex,
  babel_runtime_regex, html_regex, json_regex, Rule, image_rule, app_rule, dependencies_rule,
  css_rule, css_module_rule, sass_rule, sass_module_rule, file_rule, one_of_rules,
}
use dawn_patrol.Webpack.Rules.Choice.{
  within, applies, IsOneOf, in_turn, pick-in_turn, in_turn-skip, in_turn-ne-none,
}
use dawn_patrol.Webpack.Rules.Endings.{
  ends_any, disjoint, all_clear, image_suffixes, css_suffixes, css_module_suffixes, code_suffixes,
  js_suffixes, sass_suffixes, sass_module_suffixes, data_suffixes, image_ends, code_ends, js_ends,
  css_ends, css_module_ends, sass_ends, sass_module_ends, data_ends,
}

-- What webpack reads itself, or leaves out.
abbrev pub IsLeft : Paths → String → Type 0
IsLeft paths file =
    (test html_regex file ≡ true)
    ⊎ ((test json_regex file ≡ true)
        ⊎ ((test code_regex file ≡ true)
            × (within (some paths.app_src) file ≡ false)
            × ((test js_regex file ≡ false) ⊎ (test babel_runtime_regex file ≡ true))))

module _ (pick : List Rule → String → Option Rule) (first : IsOneOf pick) (f : Flags)
    (paths : Paths) where
  -- The rules from one of them on.
  abbrev from_sass : List Rule
  from_sass = sass_rule f paths ∷ sass_module_rule f paths ∷ file_rule f paths ∷ []

  abbrev from_css : List Rule
  from_css = css_rule f paths ∷ css_module_rule f paths ∷ from_sass

  abbrev from_dependencies : List Rule
  from_dependencies = dependencies_rule f paths ∷ from_css

  abbrev from_app : List Rule
  from_app = app_rule f paths ∷ from_dependencies

  -- No file that ends in one of the suffixes is an image or code.
  module _ (us : List String) (file : String) (e : ends_any us file ≡ true) where
    past_code :
        all_clear us image_suffixes ≡ true
        → all_clear us code_suffixes ≡ true
        → all_clear us js_suffixes ≡ true
        → in_turn (one_of_rules f paths) file ≡ in_turn from_css file
    unfolding one_of_rules
    past_code i c j =
        in_turn-skip (image_rule f paths) from_app file
          (image_ends file ∙ disjoint us image_suffixes file i e)
        ∙ in_turn-skip (app_rule f paths) from_dependencies file
            (rw (code_ends file, disjoint us code_suffixes file c e) refl)
        ∙ in_turn-skip (dependencies_rule f paths) from_css file
            (rw (js_ends file, disjoint us js_suffixes file j e) refl)

    past_css :
        all_clear us css_suffixes ≡ true
        → all_clear us css_module_suffixes ≡ true
        → in_turn from_css file ≡ in_turn from_sass file
    past_css c m =
        in_turn-skip (css_rule f paths) (css_module_rule f paths ∷ from_sass) file
          (rw (css_ends file, disjoint us css_suffixes file c e) refl)
        ∙ in_turn-skip (css_module_rule f paths) from_sass file
            (rw (css_module_ends file, disjoint us css_module_suffixes file m e) refl)

  -- If the first rule of `oneOf` that applies takes a file, one that ends in .css is taken by the
  -- rule for CSS modules if it ends in .module.css, and else by the rule for CSS.
  pub pick-css :
      (file : String)
      → test css_regex file ≡ true
      → pick (one_of_rules f paths) file
        ≡ some (if test css_module_regex file then css_module_rule f paths else css_rule f paths)
  pick-css file h =
      pick-in_turn pick first (one_of_rules f paths) file
      ∙ past_code css_suffixes file (sym (css_ends file) ∙ h) refl refl refl
      ∙ elim (Bool-cases (test css_module_regex file)) [
        | inl m ↦ rw (h, m) refl
        | inr n ↦ rw (h, n) refl
      ]

  -- If the first rule of `oneOf` that applies takes a file, one that ends in .scss or .sass is
  -- taken by the rule for SASS modules if that is behind `.module`, and else by the rule for SASS.
  pub pick-sass :
      (file : String)
      → test sass_regex file ≡ true
      → pick (one_of_rules f paths) file
        ≡ some (if test sass_module_regex file then sass_module_rule f paths else sass_rule f paths)
  pick-sass file h =
      let e = sym (sass_ends file) ∙ h in
      pick-in_turn pick first (one_of_rules f paths) file
      ∙ past_code sass_suffixes file e refl refl refl
      ∙ past_css sass_suffixes file e refl refl
      ∙ elim (Bool-cases (test sass_module_regex file)) [
        | inl m ↦ rw (h, m) refl
        | inr n ↦ rw (h, n) refl
      ]

  past_styles :
      (us : List String) (file : String)
      → ends_any us file ≡ true
      → all_clear us css_suffixes ≡ true
      → all_clear us css_module_suffixes ≡ true
      → all_clear us sass_suffixes ≡ true
      → all_clear us sass_module_suffixes ≡ true
      → in_turn from_css file ≡ in_turn (file_rule f paths ∷ []) file
  past_styles us file e c m s n =
      past_css us file e c m
      ∙ in_turn-skip (sass_rule f paths) (sass_module_rule f paths ∷ file_rule f paths ∷ []) file
          (rw (sass_ends file, disjoint us sass_suffixes file s e) refl)
      ∙ in_turn-skip (sass_module_rule f paths) (file_rule f paths ∷ []) file
          (rw (sass_module_ends file, disjoint us sass_module_suffixes file n e) refl)

  code_choice :
      (file : String) (rest : Option Rule)
      → rest ≡ none
      → test code_regex file ≡ true
      → (if applies (app_rule f paths) file
          then some (app_rule f paths)
          else if applies (dependencies_rule f paths) file
          then some (dependencies_rule f paths)
          else rest)
        ≡ (if within (some paths.app_src) file
            then some (app_rule f paths)
            else if test js_regex file && not (test babel_runtime_regex file)
            then some (dependencies_rule f paths)
            else none)
  code_choice file rest e h = ground arith

  -- If the first rule of `oneOf` that applies takes a file, code in the application's folder is
  -- taken by the application's rule; code elsewhere by the rule for dependencies, if it ends in
  -- .js or .mjs and is not Babel's runtime, and else by none.
  pub pick-code :
      (file : String)
      → test code_regex file ≡ true
      → pick (one_of_rules f paths) file ≡ (
          if within (some paths.app_src) file
          then some (app_rule f paths)
          else if test js_regex file && not (test babel_runtime_regex file)
          then some (dependencies_rule f paths)
          else none)
  unfolding one_of_rules
  pick-code file h =
      let e = sym (code_ends file) ∙ h in
      let rest = past_styles code_suffixes file e refl refl refl refl ∙ rw h refl in
      pick-in_turn pick first (one_of_rules f paths) file
      ∙ in_turn-skip (image_rule f paths) from_app file
          (image_ends file ∙ disjoint code_suffixes image_suffixes file refl e)
      ∙ code_choice file (in_turn from_css file) rest h

  pick-data :
      (file : String) → ends_any data_suffixes file ≡ true → pick (one_of_rules f paths) file ≡ none
  pick-data file e =
      let kind = data_ends file ∙ e in
      pick-in_turn pick first (one_of_rules f paths) file
      ∙ past_code data_suffixes file e refl refl refl
      ∙ past_styles data_suffixes file e refl refl refl refl
      ∙ ground arith

  -- If the first rule of `oneOf` that applies takes a file, none takes it exactly if it ends in
  -- .html or .json, or is code outside the application's folder that does not end in .js or .mjs
  -- or is Babel's runtime.
  pub pick-none_iff :
      (file : String) → (pick (one_of_rules f paths) file ≡ none) ↔ IsLeft paths file
  unfolding one_of_rules
  pick-none_iff file = elim (Bool-cases (ends_any data_suffixes file)) [
    | inl e ↦ let kind = data_ends file ∙ e in (λ _. ground arith, λ _. pick-data file e)
    | inr n ↦
        let kind = data_ends file ∙ n in
        elim (Bool-cases (test code_regex file)) [
          | inl c ↦ rw (pick-code file c) (ground arith)
          | inr m ↦
              let taken =
                in_turn-ne-none
                  (image_rule f paths
                    ∷ app_rule f paths
                    ∷ dependencies_rule f paths
                    ∷ css_rule f paths
                    ∷ css_module_rule f paths
                    ∷ sass_rule f paths
                    ∷ sass_module_rule f paths
                    ∷ [])
                  (file_rule f paths) file (ground arith) in
              (
                λ e. absurd (taken (sym (pick-in_turn pick first (one_of_rules f paths) file) ∙ e)),
                λ l. absurd (ground arith),
              )
        ]
  ]
