-- ===== src/Paths/Resolution.antt =====
-- web/config/paths.js, `resolveModule`: which file a module without extension is.
use dawn_patrol.Prelude.{
  String, ◌<>◌, Bool, true, false, List, [], ◌∷◌, ◌++◌, ◌≡◌, refl, ap, ◌⊎◌, inl, inr, find, All,
  Bool-cases, none, some,
}
use dawn_patrol.Platform.{Platform}
use dawn_patrol.Paths.{module_file_extensions, with_extension, resolve_module}

-- The first item of the list that passes the test, with the items before it.
pub record IsFirst {ℓ} {A : Type ℓ} (test : A → Bool) (xs : List A) (x : A) : Type ℓ where
  pub before : List A
  pub after : List A
  pub listed : xs ≡ before ++ (x ∷ after)
  pub passes : test x ≡ true
  pub others_fail : All (λ y. test y ≡ false) before

IsFirst-cons {ℓ} :
    {A : Type ℓ} {test : A → Bool} {xs : List A} {x y : A}
    → test y ≡ false
    → IsFirst test xs x
    → IsFirst test (y ∷ xs) x
IsFirst-cons {y} e r = record {
  before = y ∷ r.before;
  after = r.after;
  listed = ap (λ t. y ∷ t) r.listed;
  passes = r.passes;
  others_fail = (e, r.others_fail);
}

find_cases {ℓ} :
    {A : Type ℓ} (test : A → Bool) (xs : List A)
    → ((x : A) × (find test xs ≡ some x) × IsFirst test xs x)
      ⊎ ((find test xs ≡ none) × All (λ y. test y ≡ false) xs)
unfolding find
find_cases test [] = inr (refl, tt)
find_cases test (y ∷ ys) = elim (Bool-cases (test y)) [
  | inl e ↦
      inl (y, rw e, record { before = []; after = ys; listed = refl; passes = e; others_fail = tt })
  | inr e ↦ elim (find_cases test ys) [
    | inl (x, found, first) ↦ inl (x, rw e found, IsFirst-cons e first)
    | inr (missing, others) ↦ inr (rw e missing, (e, others))
  ]
]

-- The file named is the one with the first of the eleven extensions, in webpack's order, that
-- exists; the `.js` file is named only if none of them exists.
pub resolve_module-IsFirst :
    (p : Platform) (resolve_fn : String → String) (file_path : String)
    → ((extension : String) × (resolve_module p resolve_fn file_path
          ≡ with_extension resolve_fn file_path extension)
        × IsFirst
            (λ e. p.exists (with_extension resolve_fn file_path e))
            module_file_extensions
            extension)
      ⊎ ((resolve_module p resolve_fn file_path ≡ resolve_fn (file_path <> ".js"))
          × All
              (λ e. p.exists (with_extension resolve_fn file_path e) ≡ false)
              module_file_extensions)
unfolding resolve_module
resolve_module-IsFirst p resolve_fn file_path =
    elim (find_cases (λ e. p.exists (with_extension resolve_fn file_path e))
      module_file_extensions) [
        | inl (x, found, first) ↦ inl (x, rw (found, resolve_module), first)
        | inr (missing, others) ↦ inr (rw (missing, resolve_module), others)
      ]
