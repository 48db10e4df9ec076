-- ===== src/Prelude/Object.antt =====
-- A JavaScript object with string keys, in the order of insertion: a list of keys and values.
-- (Keys that spell array indices, which JavaScript lists first, are kept in insertion order.)
use Prim.Native.String.{String}
use mathlib.Core.Path.{◌≡◌, refl}
use mathlib.Core.Bool.{Bool, false, ◌||◌}
use mathlib.Core.Option.{Option, none, some}
use mathlib.Core.List.{List, [], ◌∷◌}
use native.Mathlib.Omega.{arith}
use text.Mathlib.Text.{◌==◌}
use text.Mathlib.TextEquality.{eq_iff}
use dawn_patrol.Prelude.Tests.{if◌then◌else◌}

module _ {ℓ} {V : Type ℓ} where
  -- `o[key]`; a key that the object lacks gives `undefined`.
  unfoldable pub lookup : (key : String) (o : List (String × V)) → Option V
  lookup key ((name, value) ∷ rest) = if name == key then some value else lookup key rest
  lookup key [] = none

  -- `o[key] = new`; a new key comes last.
  unfoldable pub insert : (key : String) (new : V) (o : List (String × V)) → List (String × V)
  insert key new ((name, value) ∷ rest) =
      if name == key then (key, new) ∷ rest else (name, value) ∷ insert key new rest
  insert key new [] = (key, new) ∷ []

  -- A write is read back, and every other key keeps its value.
  pub lookup-insert :
      (key other : String) (new : V) (o : List (String × V))
      → lookup other (insert key new o) ≡ (if key == other then some new else lookup other o)
  unfolding lookup insert
  lookup-insert key other new ((name, value) ∷ rest) = ground (
    arith,
    eq_iff name other,
    eq_iff name key,
    eq_iff key other,
    lookup-insert key other new rest,
  )
  lookup-insert key other new [] = refl

-- `Object.keys(m)`.
unfoldable pub keys {ℓ} : {V : Type ℓ} → List (String × V) → List String
keys [] = []
keys ((k, v) ∷ m) = k ∷ keys m

-- `list.reduce((o, key) => { o[key] = value(key); return o; }, start)`.
unfoldable pub assign_all {ℓ} :
    {V : Type ℓ} → (String → V) → List String → List (String × V) → List (String × V)
assign_all value [] o = o
assign_all value (k ∷ ks) o = assign_all value ks (insert k (value k) o)

abbrev pub has_key : String → List String → Bool
has_key k [] = false
has_key k (j ∷ js) = j == k || has_key k js

-- The assigned keys have their values, and every other key is as before.
pub lookup-assign_all {ℓ} :
    {V : Type ℓ} (value : String → V) (ks : List String) (o : List (String × V)) (k : String)
    → lookup k (assign_all value ks o) ≡ (if has_key k ks then some (value k) else lookup k o)
unfolding assign_all
lookup-assign_all value [] o k = refl
lookup-assign_all value (j ∷ ks) o k = ground (
  arith,
  lookup-assign_all value ks (insert j (value j) o) k,
  lookup-insert j k (value j) o,
  eq_iff j k,
)
