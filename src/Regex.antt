-- ===== src/Regex.antt =====
-- Regular expressions as the source writes them: their language, and the test by derivatives.
-- A text is its list of code points. `r.test(s)` asks for a match anywhere, so a pattern without
-- `^` begins with `anything`, and one without `$` ends with it.
pub mod Laws
pub mod Suffix
use dawn_patrol.Prelude.{
  ℕ, String, codes, Bool, true, false, not, ◌&&◌, ◌||◌, List, [], ◌∷◌, ◌++◌, ◌≡◌, nat_eq, leb,
  if◌then◌else◌,
}

pub data Regex : Type 0 where
  never empty : Regex
  one_of : (ℕ → Bool) → Regex
  seq alt : Regex → Regex → Regex
  star : Regex → Regex

-- The pattern's atoms and quantifiers.
abbrev pub chr : ℕ → Regex
chr c = one_of (λ x. nat_eq x c)

abbrev pub range : ℕ → ℕ → Regex
range lo hi = one_of (λ x. leb lo x && leb x hi)

abbrev pub anything : Regex
anything = star (one_of (λ x. true))

abbrev pub opt : Regex → Regex
opt r = alt empty r

abbrev pub plus : Regex → Regex
plus r = seq r (star r)

abbrev pub word : List ℕ → Regex
word [] = empty
word (c ∷ []) = chr c
word (c ∷ d ∷ cs) = seq (chr c) (word (d ∷ cs))

abbrev pub lit : String → Regex
lit s = word (codes s)

-- `(a|b|…)`.
abbrev pub any_of : List Regex → Regex
any_of [] = never
any_of (r ∷ []) = r
any_of (r ∷ s ∷ rs) = alt r (any_of (s ∷ rs))

nullable : Regex → Bool
nullable never = false
nullable empty = true
nullable (one_of p) = false
nullable (seq r s) = nullable r && nullable s
nullable (alt r s) = nullable r || nullable s
nullable (star r) = true

-- `seq` and `alt` that drop what cannot match, so that derivatives stay small.
seq_of : Regex → Regex → Regex
seq_of never s = never
seq_of empty s = s
seq_of r s = seq r s

alt_of : Regex → Regex → Regex
alt_of never s = s
alt_of r never = r
alt_of r s = alt r s

-- What is left to match after the code point `c`.
deriv : ℕ → Regex → Regex
deriv c never = never
deriv c empty = never
deriv c (one_of p) = if p c then empty else never
deriv c (seq r s) =
    let first = seq_of (deriv c r) s in
    let both = alt_of first (deriv c s) in if nullable r then both else first
deriv c (alt r s) = alt_of (deriv c r) (deriv c s)
deriv c (star r) = seq_of (deriv c r) (star r)

unfoldable pub matches : Regex → List ℕ → Bool
unfolding nullable deriv seq_of alt_of
matches r [] = nullable r
matches r (c ∷ s) = matches (deriv c r) s

-- `/^r$/.test(s)`.
unfoldable pub test : Regex → String → Bool
unfolding matches
test r s = matches r (codes s)

-- The language of an expression.
pub data Matches : Regex → List ℕ → Type 0 where
  nothing : Matches empty []
  single : {p : ℕ → Bool} {c : ℕ} → p c ≡ true → Matches (one_of p) (c ∷ [])
  both :
      {r s : Regex} {u v w : List ℕ} → Matches r u → Matches s v → u ++ v ≡ w → Matches (seq r s) w
  left : {r s : Regex} {w : List ℕ} → Matches r w → Matches (alt r s) w
  right : {r s : Regex} {w : List ℕ} → Matches s w → Matches (alt r s) w
  stop : {r : Regex} → Matches (star r) []
  more :
      {r : Regex} {u v w : List ℕ}
      → Matches r u
      → Matches (star r) v
      → u ++ v ≡ w
      → Matches (star r) w
