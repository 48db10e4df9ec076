-- ===== src/Prelude/Text.antt =====
-- Texts of the program: code points, truthiness, splitting and joining.
use Prim.Native.Nat.{ℕ}
use Prim.Native.Char.{Char, code}
use Prim.Native.String.{String, ◌++◌ as ◌<>◌}
use mathlib.Core.Bool.{Bool, false, not}
use mathlib.Core.Option.{Option, none, some}
use mathlib.Core.List.{List, [], ◌∷◌}
use text.Mathlib.Text.{◌==◌}
use dawn_patrol.Prelude.Tests.{if◌then◌else◌, nat_eq}

-- The code points of a text.
abbrev pub codes : String → List ℕ
codes String.[] = []
codes (String.◌∷◌ c s) = code c ∷ codes s

-- JavaScript's truthiness of a string, and of a string that may be `undefined` or `false`.
abbrev pub truthy : String → Bool
truthy s = not (s == "")

abbrev pub truthy? : Option String → Bool
truthy? none = false
truthy? (some s) = truthy s

-- `value || other`.
abbrev pub or_text : Option String → String → String
or_text none other = other
or_text (some s) other = if truthy s then s else other

-- `value === text`.
abbrev pub is_text : Option String → String → Bool
is_text none t = false
is_text (some s) t = s == t

-- `[…].filter(Boolean)` over strings and `false`.
abbrev pub filter_truthy : List (Option String) → List String
filter_truthy [] = []
filter_truthy (none ∷ xs) = filter_truthy xs
filter_truthy (some s ∷ xs) = let rest = filter_truthy xs in if truthy s then s ∷ rest else rest

abbrev pub singleton : Char → String
singleton c = String.◌∷◌ c String.[]

-- `s.split(d)` for a delimiter of one character, with the piece read so far.
unfoldable pub split_from : Char → String → String → List String
split_from d cur String.[] = cur ∷ []
split_from d cur (String.◌∷◌ c s) =
    let cut = cur ∷ split_from d "" s in
    let longer = split_from d (cur <> singleton c) s in
    if nat_eq (code c) (code d) then cut else longer

unfoldable pub split : Char → String → List String
unfolding split_from
split d s = split_from d "" s

-- `xs.join(d)`.
unfoldable pub join : String → List String → String
join d [] = ""
join d (x ∷ []) = x
join d (x ∷ y ∷ ys) = x <> (d <> join d (y ∷ ys))
