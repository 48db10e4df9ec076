-- ===== src/Api/Bags.antt =====
-- Events up to their order: how often a test holds of them is all that is told of a bag. The API
-- lists events in no order.
use mathlib.Core.Quot
use mathlib.Core.Quot.{Quot, Quot-set}
use dawn_patrol.Prelude.{ℕ, ◌+◌, Bool, List, [], ◌∷◌, ◌++◌, ◌≡◌, refl, arith, if◌then◌else◌}
use dawn_patrol.Api.{Event}

abbrev pub count : (Event → Bool) → List Event → ℕ
count test [] = 0
count test (e ∷ es) = (if test e then 1 else 0) + count test es

pub count-append :
    (test : Event → Bool) (es fs : List Event)
    → count test (es ++ fs) ≡ count test es + count test fs
count-append test [] fs = omega arith
count-append test (e ∷ es) fs = omega (arith, count-append test es fs)

-- Every test holds equally often.
abbrev pub SameEvents : List Event → List Event → Type 0
SameEvents es fs = (test : Event → Bool) → count test es ≡ count test fs

abbrev pub Bag : Type 0
Bag = Quot SameEvents

abbrev pub bag : List Event → Bag
bag es = Quot.mk es

add-SameEvents : (es fs gs : List Event) → SameEvents fs gs → SameEvents (es ++ fs) (es ++ gs)
add-SameEvents es fs gs h test =
    omega (arith, count-append test es fs, count-append test es gs, h test)

-- The events of a list, put into a bag.
unfoldable pub add_all : List Event → Bag → Bag
unfolding add-SameEvents
add_all es =
    Quot.lift Quot-set (λ fs. bag (es ++ fs)) (λ fs gs h. Quot.sound (add-SameEvents es fs gs h))

pub add_all_nil : (b : Bag) → add_all [] b ≡ b
unfolding add_all
add_all_nil = Quot.ind (λ b. Quot-set _ _) (λ fs. refl)

pub add_all-add_all :
    (es fs : List Event) (b : Bag) → add_all es (add_all fs b) ≡ add_all (es ++ fs) b
unfolding add_all
add_all-add_all es fs =
    Quot.ind (λ b. Quot-set _ _)
      (λ gs. Quot.sound (λ test. omega (
        arith,
        count-append test es (fs ++ gs),
        count-append test fs gs,
        count-append test (es ++ fs) gs,
        count-append test es fs,
      )))

-- The order in which events are put into a bag does not matter.
pub add_all_comm :
    (es fs : List Event) (b : Bag) → add_all es (add_all fs b) ≡ add_all fs (add_all es b)
unfolding add_all
add_all_comm es fs =
    Quot.ind (λ b. Quot-set _ _)
      (λ gs. Quot.sound (λ test. omega (
        arith,
        count-append test es (fs ++ gs),
        count-append test fs gs,
        count-append test fs (es ++ gs),
        count-append test es gs,
      )))
