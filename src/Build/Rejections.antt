-- ===== src/Build/Rejections.antt =====
-- web/scripts/build.js: what a build is rejected with, and which public files are copied.
use dawn_patrol.Prelude.{
  String, true, false, not, Option, List, [], ◌∷◌, ◌≡◌, ◌≢◌, ◌↔◌, refl, arith, ok, throw, join,
  Result, ◌⊎◌, inl, inr, subst, sym, Bool-cases, ◌==◌, eq_iff, Listed, Listed-keep,
}
use dawn_patrol.Prelude.Object.{lookup}
use dawn_patrol.Build.{
  Inputs, Messages, Rejection, error, chain, build, settle, settle_lists, collect_messages,
  is_strict, copied_files,
}

-- The compiler was run, and called back with these messages.
pub record Compiles (i : Inputs) (messages : Messages) : Type 0 where
  pub browsers : i.browsers ≡ ok tt
  pub sizes : i.sizes ≡ ok tt
  pub emptied : i.emptied ≡ ok tt
  pub copied : i.copied ≡ ok tt
  pub compiler : i.compiler ≡ ok tt
  pub collected : collect_messages i.format i.outcome ≡ ok messages

chain_compiled :
    (i : Inputs) (m : Messages)
    → Compiles i m
    → (chain i).1 ≡ (settle_lists (lookup "CI" i.env) m.errors m.warnings).1
unfolding chain build settle
chain_compiled i m c =
    ground (arith, c.browsers, c.sizes, c.emptied, c.copied, c.compiler, c.collected)

-- What a list of errors and a list of warnings come to: the first error alone, all of the
-- warnings as an error, or the warnings.
abbrev pub IsVerdict : Option String → Messages → Result Rejection (List String) → Type 0
IsVerdict ci m r =
    ((e : String) × (es : List String) × (m.errors ≡ e ∷ es) × (r ≡ throw (error e)))
    ⊎ ((m.errors ≡ [])
          × (m.warnings ≢ [])
          × (is_strict ci ≡ true)
          × (r ≡ throw (error (join "\n\n" m.warnings)))
        ⊎ (m.errors ≡ []) × ((m.warnings ≡ []) ⊎ (is_strict ci ≡ false)) × (r ≡ ok m.warnings))

nonempty : (w : String) (ws : List String) → w ∷ ws ≢ []
nonempty w ws h = cc

settle-IsVerdict :
    (ci : Option String) (es ws : List String)
    → IsVerdict ci (record { errors = es; warnings = ws }) (settle_lists ci es ws).1
unfolding settle_lists join
settle-IsVerdict ci (e ∷ es) ws = inl (e, es, refl, refl)
settle-IsVerdict ci [] [] = inr (inr (refl, inl refl, refl))
settle-IsVerdict ci [] (w ∷ ws) = elim (Bool-cases (is_strict ci)) [
  | inl strict ↦ inr (inl (refl, nonempty w ws, strict, rw strict))
  | inr lenient ↦ inr (inr (refl, inr lenient, rw lenient))
]

-- Where the steps before it succeed: if the compiler calls back with errors, the build is
-- rejected with the first of them and nothing else; if it has only warnings, a strict CI rejects
-- the build with all of them, and any other setting passes them on.
pub chain-IsVerdict :
    (i : Inputs) (m : Messages) → Compiles i m → IsVerdict (lookup "CI" i.env) m (chain i).1
chain-IsVerdict i m c =
    subst (IsVerdict (lookup "CI" i.env) m) (sym (chain_compiled i m c))
      (settle-IsVerdict (lookup "CI" i.env) m.errors m.warnings)

-- Of the public folder exactly the files other than index.html are copied.
pub copied_files_iff :
    (app_html : String) (files : List String) (file : String)
    → Listed file (copied_files app_html files) ↔ (Listed file files × (file ≢ app_html))
unfolding copied_files
copied_files_iff app_html files file =
    ground
      (arith, Listed-keep (λ (f : String). not (f == app_html)) file files, eq_iff file app_html)
