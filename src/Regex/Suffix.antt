-- ===== src/Regex/Suffix.antt =====
-- The ends of texts, as patterns such as `/\.css$/` test them.
use dawn_patrol.Prelude.{
  ℕ, String, codes, Bool, true, false, ◌&&◌, ◌||◌, List, [], ◌∷◌, ◌++◌, ◌≡◌, ◌⊎◌, inl, inr, refl,
  sym, ◌∙◌, ap, subst, nat_eq, arith, Bool-cases,
}
use dawn_patrol.Regex.{
  Regex, seq, alt, empty, anything, word, test, Matches, nothing, single, both, left, right, stop,
  more,
}
use dawn_patrol.Regex.Laws.{test_iff}

abbrev pub same : List ℕ → List ℕ → Bool
same [] [] = true
same (a ∷ u) (b ∷ v) = nat_eq a b && same u v
same _ _ = false

same_refl : (u : List ℕ) → same u u ≡ true
same_refl [] = refl
same_refl (a ∷ u) = ground (arith, same_refl u)

same-eq : (u v : List ℕ) → same u v ≡ true → u ≡ v
same-eq [] [] h = refl
same-eq [] (b ∷ v) h = cc
same-eq (a ∷ u) [] h = cc
same-eq (a ∷ u) (b ∷ v) h = ground (arith, same-eq u v)

-- The first list ends the second.
abbrev pub is_suffix : List ℕ → List ℕ → Bool
is_suffix u [] = same u []
is_suffix u (x ∷ w) = same u (x ∷ w) || is_suffix u w

-- Of two ends of one text, one ends the other.
pub is_suffix_clash :
    (u v w : List ℕ)
    → is_suffix u w ≡ true
    → is_suffix v w ≡ true
    → (is_suffix u v ≡ true) ⊎ (is_suffix v u ≡ true)
is_suffix_clash u v [] h k = inl (subst (λ t. is_suffix u t ≡ true) (sym (same-eq v [] k)) h)
is_suffix_clash u v (x ∷ w) h k = elim (Bool-cases (same u (x ∷ w))) [
  | inl e ↦ inr (subst (λ t. is_suffix v t ≡ true) (sym (same-eq u (x ∷ w) e)) k)
  | inr n ↦ elim (Bool-cases (same v (x ∷ w))) [
    | inl e ↦ inl (subst (λ t. is_suffix u t ≡ true) (sym (same-eq v (x ∷ w) e)) h)
    | inr m ↦ is_suffix_clash u v w (rw n at h) (rw m at k)
  ]
]

is_suffix_append : (u v : List ℕ) → is_suffix u (v ++ u) ≡ true
is_suffix_append [] [] = refl
is_suffix_append (a ∷ u) [] = ground (arith, same_refl u)
is_suffix_append u (x ∷ v) = ground (arith, is_suffix_append u v)

word_sound : (u : List ℕ) {w : List ℕ} → Matches (word u) w → u ≡ w
word_sound [] nothing = refl
word_sound (c ∷ []) (single {c = d} h) = ground arith
word_sound (c ∷ d ∷ u) (both (single {c = x} h) k e) =
    let rest = word_sound (d ∷ u) k in
    let first : c ≡ x = ground arith in ap (λ t. t ∷ (d ∷ u)) first ∙ ap (λ t. x ∷ t) rest ∙ e

pub word_complete : (u : List ℕ) → Matches (word u) u
word_complete [] = nothing
word_complete (c ∷ []) = single (ground arith)
word_complete (c ∷ d ∷ u) = both (single (ground arith)) (word_complete (d ∷ u)) refl

longer :
    (r : Regex) (x : ℕ) {w : List ℕ} → Matches (seq anything r) w → Matches (seq anything r) (x ∷ w)
longer r x (both h k e) = both (more (single refl) h refl) k (ap (λ t. x ∷ t) e)

suffix_sound : (u w : List ℕ) → is_suffix u w ≡ true → Matches (seq anything (word u)) w
suffix_sound u [] h = both stop (subst (Matches (word u)) (same-eq u [] h) (word_complete u)) refl
suffix_sound u (x ∷ w) h = elim (Bool-cases (same u (x ∷ w))) [
  | inl e ↦ both stop (subst (Matches (word u)) (same-eq u (x ∷ w) e) (word_complete u)) refl
  | inr n ↦ longer (word u) x (suffix_sound u w (rw n at h))
]

suffix_complete :
    (u : List ℕ) {w : List ℕ} → Matches (seq anything (word u)) w → is_suffix u w ≡ true
suffix_complete u (both {u = v} h k e) =
    subst (λ t. is_suffix u t ≡ true) (ap (λ t. v ++ t) (word_sound u k) ∙ e) (is_suffix_append u v)

eq_of_iff : (a b : Bool) → (a ≡ true → b ≡ true) → (b ≡ true → a ≡ true) → a ≡ b
eq_of_iff a b h k = ground arith

-- A pattern that is a word before the end of the text tests for the end.
pub test-suffix : (u : List ℕ) (s : String) → test (seq anything (word u)) s ≡ is_suffix u (codes s)
test-suffix u s =
    let (to, from) = test_iff (seq anything (word u)) s in
    eq_of_iff (test (seq anything (word u)) s) (is_suffix u (codes s))
      (λ h. suffix_complete u (to h)) (λ h. from (suffix_sound u (codes s) h))

pair_sound : (u v : List ℕ) {w : List ℕ} → Matches (seq (word u) (word v)) w → u ++ v ≡ w
pair_sound u v (both h k e) = rw (word_sound u h, word_sound v k) e

pair_suffix :
    (u v : List ℕ) {w : List ℕ}
    → Matches (seq anything (seq (word u) (word v))) w
    → is_suffix (u ++ v) w ≡ true
pair_suffix u v (both {u = x} h k e) =
    subst (λ t. is_suffix (u ++ v) t ≡ true) (ap (λ t. x ++ t) (pair_sound u v k) ∙ e)
      (is_suffix_append (u ++ v) x)

pair-Matches :
    (u v : List ℕ) {w : List ℕ}
    → Matches (seq anything (word (u ++ v))) w
    → Matches (seq anything (seq (word u) (word v))) w
pair-Matches u v (both h k e) =
    both h (both (word_complete u) (word_complete v) (word_sound (u ++ v) k)) e

-- Two ends of which neither ends the other have no text in common.
pub apart :
    (u v w : List ℕ)
    → is_suffix u v ≡ false
    → is_suffix v u ≡ false
    → is_suffix u w ≡ true
    → is_suffix v w ≡ false
apart u v w n m h = elim (Bool-cases (is_suffix v w)) [
  | inr e ↦ e
  | inl e ↦ elim (is_suffix_clash u v w h e) [ inl k ↦ cc | inr k ↦ cc ]
]

-- Two words before the end of the text.
pub test-pair :
    (u v : List ℕ) (s : String)
    → test (seq anything (seq (word u) (word v))) s ≡ is_suffix (u ++ v) (codes s)
test-pair u v s =
    let (to, from) = test_iff (seq anything (seq (word u) (word v))) s in
    eq_of_iff (test (seq anything (seq (word u) (word v))) s) (is_suffix (u ++ v) (codes s))
      (λ h. pair_suffix u v (to h))
      (λ h. from (pair-Matches u v (suffix_sound (u ++ v) (codes s) h)))

module _ (p r t : Regex) where
  split_alt :
      {w : List ℕ}
      → Matches (seq anything (seq p (alt r t))) w
      → Matches (seq anything (seq p r)) w ⊎ Matches (seq anything (seq p t)) w
  split_alt (both h (both k (left m) q) e) = inl (both h (both k m q) e)
  split_alt (both h (both k (right m) q) e) = inr (both h (both k m q) e)

  into_left :
      {w : List ℕ} → Matches (seq anything (seq p r)) w → Matches (seq anything (seq p (alt r t))) w
  into_left (both h (both k m q) e) = both h (both k (left m) q) e

  into_right :
      {w : List ℕ} → Matches (seq anything (seq p t)) w → Matches (seq anything (seq p (alt r t))) w
  into_right (both h (both k m q) e) = both h (both k (right m) q) e

  -- `(r|t)` behind the same start.
  pub test-alt :
      (s : String)
      → test (seq anything (seq p (alt r t))) s
        ≡ (test (seq anything (seq p r)) s || test (seq anything (seq p t)) s)
  test-alt s =
      let (to, from) = test_iff (seq anything (seq p (alt r t))) s in
      let (to', from') = test_iff (seq anything (seq p r)) s in
      let (to'', from'') = test_iff (seq anything (seq p t)) s in
      eq_of_iff (test (seq anything (seq p (alt r t))) s)
        (test (seq anything (seq p r)) s || test (seq anything (seq p t)) s)
        (λ h. elim (split_alt (to h)) [
          | inl m ↦ let e = from' m in ground arith
          | inr m ↦ let e = from'' m in ground arith
        ])
        (λ h. elim (Bool-cases (test (seq anything (seq p r)) s)) [
          | inl e ↦ from (into_left (to' e))
          | inr n ↦ from (into_right (to'' (rw n at h)))
        ])

module _ (p r t : Regex) where
  split_opt :
      {w : List ℕ}
      → Matches (seq anything (seq p (seq (alt empty r) t))) w
      → Matches (seq anything (seq p t)) w ⊎ Matches (seq anything (seq p (seq r t))) w
  split_opt (both h (both {u} {w} k (both (left nothing) m e) q) d) =
      inl (both h (both k m (ap (λ x. u ++ x) e ∙ q)) d)
  split_opt (both h (both k (both (right n) m e) q) d) = inr (both h (both k (both n m e) q) d)

  without :
      {w : List ℕ}
      → Matches (seq anything (seq p t)) w
      → Matches (seq anything (seq p (seq (alt empty r) t))) w
  without (both h (both k m q) d) = both h (both k (both (left nothing) m refl) q) d

  with_it :
      {w : List ℕ}
      → Matches (seq anything (seq p (seq r t))) w
      → Matches (seq anything (seq p (seq (alt empty r) t))) w
  with_it (both h (both k (both n m e) q) d) = both h (both k (both (right n) m e) q) d

  -- `r?` between a start and an end.
  pub test-opt :
      (s : String)
      → test (seq anything (seq p (seq (alt empty r) t))) s
        ≡ (test (seq anything (seq p t)) s || test (seq anything (seq p (seq r t))) s)
  test-opt s =
      let (to, from) = test_iff (seq anything (seq p (seq (alt empty r) t))) s in
      let (to', from') = test_iff (seq anything (seq p t)) s in
      let (to'', from'') = test_iff (seq anything (seq p (seq r t))) s in
      eq_of_iff (test (seq anything (seq p (seq (alt empty r) t))) s)
        (test (seq anything (seq p t)) s || test (seq anything (seq p (seq r t))) s)
        (λ h. elim (split_opt (to h)) [
          | inl m ↦ let e = from' m in ground arith
          | inr m ↦ let e = from'' m in ground arith
        ])
        (λ h. elim (Bool-cases (test (seq anything (seq p t)) s)) [
          | inl e ↦ from (without (to' e))
          | inr n ↦ from (with_it (to'' (rw n at h)))
        ])
