-- ===== src/Webpack/Configuration/Runtime.antt =====
-- web/config/webpack.config.js: the runtime's chunk and the plugin that inlines it.
use dawn_patrol.Prelude.{
  ℕ, String, ◌<>◌, codes, code, subst, Bool, true, false, not, ◌||◌, some, List, [], ◌∷◌, ◌++◌, ◌≡◌,
  refl, sym, ap, ◌∙◌, inl, inr, All, All-append, is_text, Bool-cases,
}
use text.Mathlib.TextLemmas.{nil-append, cons-append}
use mathlib.Core.List.{append_assoc}
use dawn_patrol.Prelude.Object.{lookup}
use dawn_patrol.Platform.{Platform}
use dawn_patrol.Paths.{Paths}
use dawn_patrol.Regex.{Regex, anything, star, plus, one_of, test, Matches, single, both, stop, more}
use dawn_patrol.Regex.Laws.{test_iff}
use dawn_patrol.Regex.Suffix.{word_complete}
use dawn_patrol.Webpack.{flags}
use dawn_patrol.Webpack.Plugins.{Plugin, plugins, inline_chunk, is_dot, runtime_regex}
use dawn_patrol.Webpack.Configuration.{Surroundings, config}

-- The patterns of the files that are inlined, and the test of a file's name by them.
abbrev pub inline_patterns : List Plugin → List Regex
inline_patterns [] = []
inline_patterns (inline_chunk ps ∷ rest) = ps ++ inline_patterns rest
inline_patterns (_ ∷ rest) = inline_patterns rest

abbrev pub tests_any : List Regex → String → Bool
tests_any [] file = false
tests_any (p ∷ ps) file = test p file || tests_any ps file

codes-append : (s t : String) → codes (s <> t) ≡ codes s ++ codes t
codes-append String.[] t = ap codes (nil-append t)
codes-append (String.◌∷◌ c s) t =
    ap codes (cons-append c s t) ∙ ap (λ u. code c ∷ u) (codes-append s t)

-- No line ends in it.
abbrev pub IsLine : List ℕ → Type 0
IsLine u = All (λ c. is_dot c ≡ true) u

anything_lem : (u : List ℕ) → Matches anything u
anything_lem [] = stop
anything_lem (c ∷ u) = more (single refl) (anything_lem u) refl

star_line : (u : List ℕ) → IsLine u → Matches (star (one_of is_dot)) u
star_line [] h = stop
star_line (c ∷ u) (d, h) = more (single d) (star_line u h) refl

plus_line : (n h : List ℕ) → IsLine n → IsLine h → Matches (plus (one_of is_dot)) (n ++ (b'.' ∷ h))
plus_line [] h _ k = both (single refl) (star_line h k) refl
plus_line (c ∷ n) h (d, j) k =
    both (single d)
      (star_line (n ++ (b'.' ∷ h)) (All-append (λ c. is_dot c ≡ true) n (b'.' ∷ h) j (refl, k)))
      refl

runtime_Matches :
    (n h : List ℕ)
    → IsLine n
    → IsLine h
    → Matches runtime_regex
        (codes "static/js/" ++ (codes "runtime-" ++ ((n ++ (b'.' ∷ h)) ++ codes ".js")))
runtime_Matches n h j k =
    both (anything_lem (codes "static/js/"))
      (both (word_complete (codes "runtime-"))
        (both (plus_line n h j k) (both (word_complete (codes ".js")) stop refl) refl) refl)
      refl

-- The file of the runtime's chunk: "static/js/[name].[contenthash:8].js", filled in.
abbrev pub runtime_file : (name hash : String) → String
runtime_file name hash = "static/js/" <> (name <> ("." <> (hash <> ".js")))

codes-runtime_file :
    (entrypoint hash : String)
    → codes (runtime_file ("runtime-" <> entrypoint) hash)
      ≡ codes "static/js/"
        ++ (codes "runtime-" ++ ((codes entrypoint ++ (b'.' ∷ codes hash)) ++ codes ".js"))
codes-runtime_file entrypoint hash = simp (codes-append, append_assoc)

runtime-test :
    (entrypoint hash : String)
    → IsLine (codes entrypoint)
    → IsLine (codes hash)
    → test runtime_regex (runtime_file ("runtime-" <> entrypoint) hash) ≡ true
runtime-test entrypoint hash j k =
    (test_iff runtime_regex (runtime_file ("runtime-" <> entrypoint) hash)).1 (
      subst (Matches runtime_regex) (sym (codes-runtime_file entrypoint hash))
        (runtime_Matches (codes entrypoint) (codes hash) j k))

-- If webpack fills the name and the hash into the template for files, and neither holds the end of
-- a line, then the file of the runtime of an entry point is inlined into the page of a production
-- build exactly if INLINE_RUNTIME_CHUNK is not "false".
pub runtime-inlined :
    (fill : String → (name hash : String) → String)
    → ((name hash : String)
        → fill "static/js/[name].[contenthash:8].js" name hash ≡ runtime_file name hash)
    → (p : Platform) (paths : Paths) (s : Surroundings) (entrypoint hash template : String)
    → IsLine (codes entrypoint)
    → IsLine (codes hash)
    → (config p paths s "production").output.filename ≡ some template
    → tests_any
        (inline_patterns (config p paths s "production").plugins)
        (fill template ((config p paths s "production").runtime_chunk entrypoint) hash)
      ≡ not (is_text (lookup "INLINE_RUNTIME_CHUNK" s.env) "false")
unfolding config plugins flags
runtime-inlined fill filled p paths s entrypoint hash template j k named =
    let same : "static/js/[name].[contenthash:8].js" ≡ template = cc in
    let found : test runtime_regex (fill template ("runtime-" <> entrypoint) hash) ≡ true =
      ap (λ t. test runtime_regex (fill t ("runtime-" <> entrypoint) hash)) (sym same)
      ∙ ap (test runtime_regex) (filled ("runtime-" <> entrypoint) hash)
      ∙ runtime-test entrypoint hash j k in
    elim (Bool-cases (is_text (lookup "INLINE_RUNTIME_CHUNK" s.env) "false")) [
      | inl off ↦ elim (Bool-cases (p.exists paths.app_ts_config)) [
        | inl ts ↦ rw (off, ts) refl
        | inr js ↦ rw (off, js) refl
      ]
      | inr on ↦ elim (Bool-cases (p.exists paths.app_ts_config)) [
        | inl ts ↦ rw (on, ts) (rw found refl)
        | inr js ↦ rw (on, js) (rw found refl)
      ]
    ]
