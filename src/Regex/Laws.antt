-- ===== src/Regex/Laws.antt =====
-- The test by derivatives decides the language of the expression.
use dawn_patrol.Prelude.{
  ℕ, String, codes, true, List, [], ◌∷◌, ◌++◌, ◌≡◌, refl, sym, ap, subst, ◌∙◌, ◌↔◌, inl, inr,
  Bool-cases, arith,
}
use dawn_patrol.Regex.{
  Regex, never, empty, one_of, seq, alt, star, nullable, seq_of, alt_of, deriv, matches, test,
  Matches, nothing, single, both, left, right, stop, more,
}

Matches-never : {w : List ℕ} → Matches never w → ⊥
Matches-never h = elim h [ ]

seq_of_sound : (r s : Regex) {w : List ℕ} → Matches (seq_of r s) w → Matches (seq r s) w
unfolding seq_of
seq_of_sound never s h = absurd (Matches-never h)
seq_of_sound empty s h = both nothing h refl
seq_of_sound _ s h = h

seq_of_complete : (r s : Regex) {w : List ℕ} → Matches (seq r s) w → Matches (seq_of r s) w
unfolding seq_of
seq_of_complete never s (both h k e) = absurd (Matches-never h)
seq_of_complete empty s (both nothing k e) = subst (Matches s) e k
seq_of_complete _ s h = h

alt_of_sound : (r s : Regex) {w : List ℕ} → Matches (alt_of r s) w → Matches (alt r s) w
unfolding alt_of
alt_of_sound never s h = right h
alt_of_sound r never h = left h
alt_of_sound r s h = h

alt_of_complete : (r s : Regex) {w : List ℕ} → Matches (alt r s) w → Matches (alt_of r s) w
unfolding alt_of
alt_of_complete never s (left h) = absurd (Matches-never h)
alt_of_complete never s (right h) = h
alt_of_complete r never (left h) = h
alt_of_complete r never (right h) = absurd (Matches-never h)
alt_of_complete r s h = h

nullable_sound : (r : Regex) → nullable r ≡ true → Matches r []
unfolding nullable
nullable_sound never e = cc
nullable_sound empty e = nothing
nullable_sound (one_of p) e = cc
nullable_sound (seq r s) e =
    both (nullable_sound r (ground arith)) (nullable_sound s (ground arith)) refl
nullable_sound (alt r s) e = elim (Bool-cases (nullable r)) [
  | inl h ↦ left (nullable_sound r h)
  | inr h ↦ right (nullable_sound s (ground arith))
]
nullable_sound (star r) e = stop

append-eq-nil : (u v : List ℕ) → u ++ v ≡ [] → (u ≡ []) × (v ≡ [])
append-eq-nil [] v e = (refl, e)
append-eq-nil (x ∷ u) v e = cc

nullable_complete : {r : Regex} {w : List ℕ} → Matches r w → w ≡ [] → nullable r ≡ true
unfolding nullable
nullable_complete nothing e = refl
nullable_complete (single h) e = cc
nullable_complete (both {u} {v} h k q) e =
    let (p, p') = append-eq-nil u v (q ∙ e) in
    ground (arith, nullable_complete h p, nullable_complete k p')
nullable_complete (left h) e = ground (arith, nullable_complete h e)
nullable_complete (right h) e = ground (arith, nullable_complete h e)
nullable_complete stop e = refl
nullable_complete (more h k q) e = refl

Matches-empty : {w : List ℕ} → Matches empty w → w ≡ []
Matches-empty nothing = refl

-- `r` matches after `c` all that its derivative matches.
abbrev Sound : ℕ → Regex → Type 0
Sound c r = (w : List ℕ) → Matches (deriv c r) w → Matches r (c ∷ w)

module _ (c : ℕ) (r : Regex) (ih : Sound c r) where
  seq_step : (s : Regex) {w : List ℕ} → Matches (seq (deriv c r) s) w → Matches (seq r s) (c ∷ w)
  seq_step s (both {u} a b q) = both (ih u a) b (ap (λ t. c ∷ t) q)

  seq_steps :
      (s : Regex) {w : List ℕ}
      → Sound c s
      → nullable r ≡ true
      → Matches (alt (seq_of (deriv c r) s) (deriv c s)) w
      → Matches (seq r s) (c ∷ w)
  seq_steps s ih' e (left k) = seq_step s (seq_of_sound (deriv c r) s k)
  seq_steps s {w} ih' e (right k) = both (nullable_sound r e) (ih' w k) refl

  star_step : {w : List ℕ} → Matches (seq (deriv c r) (star r)) w → Matches (star r) (c ∷ w)
  star_step (both {u} a b q) = more (ih u a) b (ap (λ t. c ∷ t) q)

alt_step :
    (c : ℕ) (r s : Regex) {w : List ℕ}
    → Sound c r
    → Sound c s
    → Matches (alt (deriv c r) (deriv c s)) w
    → Matches (alt r s) (c ∷ w)
alt_step c r s {w} ih ih' (left k) = left (ih w k)
alt_step c r s {w} ih ih' (right k) = right (ih' w k)

deriv-Sound : (c : ℕ) (r : Regex) → Sound c r
unfolding deriv
deriv-Sound c never w h = absurd (Matches-never h)
deriv-Sound c empty w h = absurd (Matches-never h)
deriv-Sound c (one_of p) w h = elim (Bool-cases (p c)) [
  | inl e ↦ subst (λ x. Matches (one_of p) (c ∷ x)) (sym (Matches-empty (rw e at h))) (single e)
  | inr e ↦ absurd (Matches-never (rw e at h))
]
deriv-Sound c (seq r s) w h = elim (Bool-cases (nullable r)) [
  | inl e ↦
      seq_steps c r (deriv-Sound c r) s (deriv-Sound c s) e
        (alt_of_sound (seq_of (deriv c r) s) (deriv c s) (rw e at h))
  | inr e ↦ seq_step c r (deriv-Sound c r) s (seq_of_sound (deriv c r) s (rw e at h))
]
deriv-Sound c (alt r s) w h =
    alt_step c r s (deriv-Sound c r) (deriv-Sound c s) (alt_of_sound (deriv c r) (deriv c s) h)
deriv-Sound c (star r) w h = star_step c r (deriv-Sound c r) (seq_of_sound (deriv c r) (star r) h)

seq_first :
    (c : ℕ) (r s : Regex) {w : List ℕ}
    → Matches (seq_of (deriv c r) s) w
    → Matches (deriv c (seq r s)) w
unfolding deriv
seq_first c r s h = elim (Bool-cases (nullable r)) [
  | inl e ↦ rw e (alt_of_complete _ _ (left h))
  | inr e ↦ rw e h
]

seq_second :
    (c : ℕ) (r s : Regex) {w : List ℕ}
    → nullable r ≡ true
    → Matches (deriv c s) w
    → Matches (deriv c (seq r s)) w
unfolding deriv
seq_second c r s e h = rw e (alt_of_complete (seq_of (deriv c r) s) _ (right h))

-- The derivative matches what follows `c` in any text of the language.
deriv_complete :
    (c : ℕ) {r : Regex} {x : List ℕ} (w : List ℕ) → Matches r x → x ≡ c ∷ w → Matches (deriv c r) w
unfolding deriv
deriv_complete c w nothing e = cc
deriv_complete c w (single {p} {c = d} h) e =
    let same : d ≡ c = cc in
    let ended : [] ≡ w = cc in
    let passed : p c ≡ true = subst (λ x. p x ≡ true) same h in
    rw passed (subst (Matches empty) ended nothing)
deriv_complete c w (both {r} {s} {u = []} {v} h k q) e =
    seq_second c r s (nullable_complete h refl) (deriv_complete c w k (q ∙ e))
deriv_complete c w (both {r} {s} {u = d ∷ u} {v} h k q) e =
    seq_first c r s (seq_of_complete _ s (both (deriv_complete c u h (cc)) k (cc)))
deriv_complete c w (left h) e = alt_of_complete _ _ (left (deriv_complete c w h e))
deriv_complete c w (right h) e = alt_of_complete _ _ (right (deriv_complete c w h e))
deriv_complete c w stop e = cc
deriv_complete c w (more {r} {u = []} h k q) e = deriv_complete c w k (q ∙ e)
deriv_complete c w (more {r} {u = d ∷ u} h k q) e =
    seq_of_complete _ (star r) (both (deriv_complete c u h (cc)) k (cc))

pub matches_sound : (r : Regex) (w : List ℕ) → matches r w ≡ true → Matches r w
unfolding matches
matches_sound r [] e = nullable_sound r e
matches_sound r (c ∷ w) e = deriv-Sound c r w (matches_sound (deriv c r) w e)

pub matches_complete : (r : Regex) (w : List ℕ) → Matches r w → matches r w ≡ true
unfolding matches
matches_complete r [] h = nullable_complete h refl
matches_complete r (c ∷ w) h = matches_complete (deriv c r) w (deriv_complete c w h refl)

-- The test by derivatives accepts exactly the texts of the expression's language.
pub test_iff : (r : Regex) (s : String) → (test r s ≡ true) ↔ Matches r (codes s)
unfolding test
test_iff r s = (matches_sound r (codes s), matches_complete r (codes s))
