-- ===== src/Webpack/Rules/Choice.antt =====
-- How webpack chooses among the rules of web/config/webpack.config.js: what the rules' conditions
-- mean, and the choice of `oneOf`, which is a parameter.
use dawn_patrol.Prelude.{
  ℕ, String, codes, Bool, true, false, not, ◌&&◌, Option, none, some, List, [], ◌∷◌, ◌++◌, ◌≡◌, ◌≢◌,
  inl, inr, refl, ◌∙◌, ap, Bool-cases, nat_eq, if◌then◌else◌,
}
use dawn_patrol.Regex.{Regex}
use dawn_patrol.Webpack.Rules.{Rule}
use dawn_patrol.Webpack.Rules.Endings.{test_any}

abbrev starts : List ℕ → List ℕ → Bool
starts [] s = true
starts (c ∷ p) [] = false
starts (c ∷ p) (d ∷ s) = nat_eq c d && starts p s

-- `include`, where it is given: the file's path starts with it.
abbrev pub within : Option String → String → Bool
within none file = true
within (some directory) file = starts (codes directory) (codes file)

-- `test`, where it is given.
abbrev passes : List Regex → String → Bool
passes [] file = true
passes (r ∷ rs) file = test_any (r ∷ rs) file

-- All three conditions of a rule.
abbrev pub applies : Rule → String → Bool
applies r file = passes r.tests file && (not (test_any r.excludes file) && within r.include file)

-- What webpack documents of `oneOf`: the first rule that applies takes the file.
pub record IsOneOf (pick : List Rule → String → Option Rule) : Type 0 where
  pub no_rule : (file : String) → pick [] file ≡ none
  pub next :
      (r : Rule) (rs : List Rule) (file : String)
      → pick (r ∷ rs) file ≡ (if applies r file then some r else pick rs file)

-- The rules in a row, as one conditional.
abbrev pub in_turn : List Rule → String → Option Rule
in_turn [] file = none
in_turn (r ∷ rs) file = if applies r file then some r else in_turn rs file

pub pick-in_turn :
    (pick : List Rule → String → Option Rule)
    → IsOneOf pick
    → (rs : List Rule) (file : String) → pick rs file ≡ in_turn rs file
pick-in_turn pick first [] file = first.no_rule file
pick-in_turn pick first (r ∷ rs) file =
    first.next r rs file
    ∙ ap (λ t. if applies r file then some r else t) (pick-in_turn pick first rs file)

-- A file whose name passes no test of a rule is not taken by it.
pub in_turn-skip :
    (r : Rule) (rs : List Rule) (file : String)
    → passes r.tests file ≡ false
    → in_turn (r ∷ rs) file ≡ in_turn rs file
in_turn-skip r rs file h = rw h refl

-- Where the last rule applies, some rule does.
pub in_turn-ne-none :
    (rs : List Rule) (r : Rule) (file : String)
    → applies r file ≡ true
    → in_turn (rs ++ (r ∷ [])) file ≢ none
in_turn-ne-none [] r file h = rw h (λ e. cc)
in_turn-ne-none (x ∷ rs) r file h = elim (Bool-cases (applies x file)) [
  | inl t ↦ rw t (λ e. cc)
  | inr n ↦ rw n (in_turn-ne-none rs r file h)
]
