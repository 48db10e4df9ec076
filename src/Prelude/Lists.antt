-- ===== src/Prelude/Lists.antt =====
-- Lists over the native numbers and Boolean tests, under the library's names.
use Prim.Native.Nat.{ℕ, suc, ◌+◌}
use mathlib.Core.Path.{◌≡◌, refl}
use mathlib.Core.Logic.{◌⊎◌, ◌↔◌, inl, inr}
use mathlib.Core.Bool.{Bool, true}
use mathlib.Core.Option.{Option, none, some}
use mathlib.Core.List.{List, [], ◌∷◌, ◌++◌}
use native.Mathlib.Omega.{arith}
use dawn_patrol.Prelude.Tests.{if◌then◌else◌}

module _ {ℓ} {A : Type ℓ} where
  abbrev pub length : List A → ℕ
  length [] = 0
  length (x ∷ xs) = suc (length xs)

  -- `Array.prototype.filter` and `find` over a Boolean test.
  abbrev pub keep : (A → Bool) → List A → List A
  keep p [] = []
  keep p (x ∷ xs) = let rest = keep p xs in if p x then x ∷ rest else rest

  unfoldable pub find : (A → Bool) → List A → Option A
  find p [] = none
  find p (x ∷ xs) = if p x then some x else find p xs

  pub keep-append : (p : A → Bool) (xs ys : List A) → keep p (xs ++ ys) ≡ keep p xs ++ keep p ys
  keep-append p [] ys = refl
  keep-append p (x ∷ xs) ys = ground (arith, keep-append p xs ys)

  pub length-append : (xs ys : List A) → length (xs ++ ys) ≡ length xs + length ys
  length-append [] ys = omega arith
  length-append (x ∷ xs) ys = omega (arith, length-append xs ys)

module _ {ℓ κ} {A : Type ℓ} (P : A → Type κ) where
  -- `P` holds of every item.
  abbrev pub All : List A → Type κ
  All [] = Unit
  All (x ∷ xs) = P x × All xs

  pub All-append : (xs ys : List A) → All xs → All ys → All (xs ++ ys)
  All-append [] ys _ k = k
  All-append (x ∷ xs) ys (p, h) k = (p, All-append xs ys h k)

module _ {A : Type 0} where
  -- The item is in the list.
  abbrev pub Listed : A → List A → Type 0
  Listed a [] = ⊥
  Listed a (x ∷ xs) = (x ≡ a) ⊎ Listed a xs

  pub Listed-append : (a : A) (xs ys : List A) → Listed a (xs ++ ys) → Listed a xs ⊎ Listed a ys
  Listed-append a [] ys h = inr h
  Listed-append a (x ∷ xs) ys (inl h) = inl (inl h)
  Listed-append a (x ∷ xs) ys (inr h) = elim (Listed-append a xs ys h) [
    | inl k ↦ inl (inr k)
    | inr k ↦ inr k
  ]

  -- A filter keeps exactly the items that pass.
  pub Listed-keep :
      (p : A → Bool) (a : A) (xs : List A) → Listed a (keep p xs) ↔ (Listed a xs × (p a ≡ true))
  Listed-keep p a [] = (λ h. elim h [ ], λ h. h.0)
  Listed-keep p a (x ∷ xs) = ground (arith, Listed-keep p a xs)
