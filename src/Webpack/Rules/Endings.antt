-- ===== src/Webpack/Rules/Endings.antt =====
-- The ends of file names that the rules of web/config/webpack.config.js test for.
use dawn_patrol.Prelude.{
  String, codes, Bool, Bool-cases, true, false, not, ◌&&◌, ◌||◌, List, [], ◌∷◌, ◌≡◌, inl, inr, refl,
  arith,
}
use dawn_patrol.Regex.{Regex, seq, alt, chr, empty, lit, anything, test}
use dawn_patrol.Regex.Suffix.{is_suffix, apart, test-suffix, test-pair, test-alt, test-opt}
use dawn_patrol.Webpack.Rules.{
  css_regex, css_module_regex, sass_regex, sass_module_regex, code_regex, js_regex, image_regexes,
  html_regex, json_regex,
}

abbrev pub ends : String → String → Bool
ends suffix s = is_suffix (codes suffix) (codes s)

-- One of the suffixes ends the text.
abbrev pub ends_any : List String → String → Bool
ends_any [] s = false
ends_any (u ∷ us) s = ends u s || ends_any us s

-- None of the suffixes ends the first, nor is ended by it.
abbrev pub clear : String → List String → Bool
clear u [] = true
clear u (v ∷ vs) = not (ends u v) && (not (ends v u) && clear u vs)

abbrev pub all_clear : List String → List String → Bool
all_clear [] vs = true
all_clear (u ∷ us) vs = clear u vs && all_clear us vs

clear_apart :
    (u : String) (vs : List String) (s : String)
    → clear u vs ≡ true
    → ends u s ≡ true
    → ends_any vs s ≡ false
clear_apart u [] s c h = refl
clear_apart u (v ∷ vs) s c h =
    let here = apart (codes u) (codes v) (codes s) (ground arith) (ground arith) h in
    ground (arith, clear_apart u vs s (ground arith) h)

-- A text that ends with one of the first suffixes ends with none of the second.
pub disjoint :
    (us vs : List String) (s : String)
    → all_clear us vs ≡ true
    → ends_any us s ≡ true
    → ends_any vs s ≡ false
disjoint [] vs s c h = cc
disjoint (u ∷ us) vs s c h = elim (Bool-cases (ends u s)) [
  | inl e ↦ clear_apart u vs s (ground arith) e
  | inr n ↦ disjoint us vs s (ground arith) (rw n at h)
]

or_false : (b : Bool) → (b || false) ≡ b
or_false b = ground arith

abbrev pub code_suffixes : List String
code_suffixes = ".js" ∷ ".mjs" ∷ ".jsx" ∷ ".ts" ∷ ".tsx" ∷ []

abbrev pub js_suffixes : List String
js_suffixes = ".js" ∷ ".mjs" ∷ []

abbrev pub sass_suffixes : List String
sass_suffixes = ".scss" ∷ ".sass" ∷ []

abbrev pub sass_module_suffixes : List String
sass_module_suffixes = ".module.scss" ∷ ".module.sass" ∷ []

abbrev pub jpg_suffixes : List String
jpg_suffixes = ".jpg" ∷ ".jpeg" ∷ []

pub code_ends : (s : String) → test code_regex s ≡ ends_any code_suffixes s
code_ends s = rw (
  test-alt (chr b'.') (lit "js") (alt (lit "mjs") (alt (lit "jsx") (alt (lit "ts") (lit "tsx")))) s,
  test-alt (chr b'.') (lit "mjs") (alt (lit "jsx") (alt (lit "ts") (lit "tsx"))) s,
  test-alt (chr b'.') (lit "jsx") (alt (lit "ts") (lit "tsx")) s,
  test-alt (chr b'.') (lit "ts") (lit "tsx") s,
  test-suffix (codes ".js") s,
  test-suffix (codes ".mjs") s,
  test-suffix (codes ".jsx") s,
  test-suffix (codes ".ts") s,
  test-suffix (codes ".tsx") s,
  or_false (ends ".tsx" s),
)

pub js_ends : (s : String) → test js_regex s ≡ ends_any js_suffixes s
js_ends s = rw (
  test-alt (chr b'.') (lit "js") (lit "mjs") s,
  test-suffix (codes ".js") s,
  test-suffix (codes ".mjs") s,
  or_false (ends ".mjs" s),
)

pub sass_ends : (s : String) → test sass_regex s ≡ ends_any sass_suffixes s
sass_ends s = rw (
  test-alt (chr b'.') (lit "scss") (lit "sass") s,
  test-suffix (codes ".scss") s,
  test-suffix (codes ".sass") s,
  or_false (ends ".sass" s),
)

pub sass_module_ends : (s : String) → test sass_module_regex s ≡ ends_any sass_module_suffixes s
sass_module_ends s = rw (
  test-alt (lit ".module.") (lit "scss") (lit "sass") s,
  test-pair (codes ".module.") (codes "scss") s,
  test-pair (codes ".module.") (codes "sass") s,
  or_false (ends ".module.sass" s),
)

pub jpg_ends :
    (s : String)
    → test (seq anything (seq (lit ".jp") (seq (alt empty (chr b'e')) (chr b'g')))) s
      ≡ ends_any jpg_suffixes s
jpg_ends s = rw (
  test-opt (lit ".jp") (chr b'e') (chr b'g') s,
  test-pair (codes ".jp") (codes "g") s,
  test-pair (codes ".jp") (codes "eg") s,
  or_false (ends ".jpeg" s),
)

abbrev pub image_suffixes : List String
image_suffixes = ".bmp" ∷ ".gif" ∷ ".jpg" ∷ ".jpeg" ∷ ".png" ∷ []

abbrev pub css_suffixes : List String
css_suffixes = ".css" ∷ []

abbrev pub css_module_suffixes : List String
css_module_suffixes = ".module.css" ∷ []

abbrev pub data_suffixes : List String
data_suffixes = ".html" ∷ ".json" ∷ []

-- One of the expressions matches.
abbrev pub test_any : List Regex → String → Bool
test_any [] s = false
test_any (r ∷ rs) s = test r s || test_any rs s

pub css_ends : (s : String) → test css_regex s ≡ ends_any css_suffixes s
css_ends s = rw (test-suffix (codes ".css") s, or_false (ends ".css" s)) refl

pub css_module_ends : (s : String) → test css_module_regex s ≡ ends_any css_module_suffixes s
css_module_ends s = rw (test-suffix (codes ".module.css") s, or_false (ends ".module.css" s)) refl

pub image_ends : (s : String) → test_any image_regexes s ≡ ends_any image_suffixes s
image_ends s =
    rw
      (
        test-suffix (codes ".bmp") s,
        test-suffix (codes ".gif") s,
        test-suffix (codes ".png") s,
        jpg_ends s,
      )
      (ground arith)

pub data_ends : (s : String) → test_any (html_regex ∷ json_regex ∷ []) s ≡ ends_any data_suffixes s
data_ends s = rw (test-suffix (codes ".html") s, test-suffix (codes ".json") s)
