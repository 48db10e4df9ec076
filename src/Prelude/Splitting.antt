-- ===== src/Prelude/Splitting.antt =====
-- `split` undoes `join`, for pieces that do not hold the delimiter.
use Prim.Native.Char.{Char, code}
use Prim.Native.String.{String, [], ◌∷◌, ◌++◌ as ◌<>◌}
use Prim.Native.Nat.{ℕ}
use mathlib.Core.Bool.{true, false}
use mathlib.Core.Path.{◌≡◌, ap, ap₂, sym, ◌∙◌}
use mathlib.Core.Logic.{◌≢◌}
use mathlib.Core.List.{List}
use native.Mathlib.Omega.{arith}
use text.Mathlib.TextLemmas.{nil-append, cons-append, append-nil, append_assoc}
use dawn_patrol.Prelude.Tests.{nat_eq}
use dawn_patrol.Prelude.Lists.{All}
use dawn_patrol.Prelude.Text.{split_from, split, join, singleton}

-- The text does not hold the character.
abbrev pub Lacks : Char → String → Type 0
Lacks d [] = Unit
Lacks d (c ∷ s) = (code c ≢ code d) × Lacks d s

cons-snoc : (cur : String) (c : Char) (s : String) → (cur <> singleton c) <> s ≡ cur <> (c ∷ s)
cons-snoc cur c s =
    append_assoc cur (singleton c) s
    ∙ ap (λ t. cur <> t) (cons-append c [] s ∙ ap (λ t. c ∷ t) (nil-append s))

nat_eq_refl : (n : ℕ) → nat_eq n n ≡ true
nat_eq_refl n = ground arith

nat_eq_ne : (m n : ℕ) → m ≢ n → nat_eq m n ≡ false
nat_eq_ne m n h = ground arith

split_from-other :
    (d c : Char) (cur s : String)
    → code c ≢ code d
    → split_from d cur (c ∷ s) ≡ split_from d (cur <> singleton c) s
unfolding split_from
split_from-other d c cur s h = rw (nat_eq_ne (code c) (code d) h)

split_from-Lacks :
    (d : Char) (cur s : String) → Lacks d s → split_from d cur s ≡ List.◌∷◌ (cur <> s) List.[]
split_from-Lacks d cur [] h =
    unfold split_from in ap (λ t. List.◌∷◌ t List.[]) (sym (append-nil cur))
split_from-Lacks d cur (c ∷ s) h =
    split_from-other d c cur s h.0
    ∙ split_from-Lacks d (cur <> singleton c) s h.1
    ∙ ap (λ t. List.◌∷◌ t List.[]) (cons-snoc cur c s)

cons-of-append : (d : Char) (t : String) → singleton d <> t ≡ d ∷ t
cons-of-append d t = cons-append d [] t ∙ ap (λ r. d ∷ r) (nil-append t)

split_from-delimiter :
    (d : Char) (cur t : String) → split_from d cur (d ∷ t) ≡ List.◌∷◌ cur (split_from d "" t)
unfolding split_from
split_from-delimiter d cur t = rw (nat_eq_refl (code d))

split_from-append :
    (d : Char) (cur s t : String)
    → Lacks d s
    → split_from d cur (s <> (singleton d <> t)) ≡ List.◌∷◌ (cur <> s) (split_from d "" t)
split_from-append d cur [] t h =
    rw (nil-append, cons-of-append d t, append-nil) (split_from-delimiter d cur t)
split_from-append d cur (c ∷ s) t h = rw (cons-append c s (singleton d <> t)) (
    split_from-other d c cur _ h.0
    ∙ split_from-append d (cur <> singleton c) s t h.1
    ∙ ap (λ r. List.◌∷◌ r (split_from d "" t)) (cons-snoc cur c s))

-- Splitting what was joined gives the pieces back, if there is one and none holds the delimiter.
pub split-join :
    (d : Char) (x : String) (xs : List String)
    → All (Lacks d) (List.◌∷◌ x xs)
    → split d (join (singleton d) (List.◌∷◌ x xs)) ≡ List.◌∷◌ x xs
unfolding split join
split-join d x List.[] h = split_from-Lacks d "" x h.0 ∙ ap (λ t. List.◌∷◌ t List.[]) (nil-append x)
split-join d x (List.◌∷◌ y ys) h =
    split_from-append d "" x (join (singleton d) (List.◌∷◌ y ys)) h.0
    ∙ ap₂ (λ t ts. List.◌∷◌ t ts) (nil-append x) (split-join d y ys h.1)
