-- ===== src/ServiceWorker/Localhost.antt =====
-- web/src/serviceWorker.js, `isLocalhost`: which host names the pattern accepts.
use dawn_patrol.Prelude.{
  ℕ, ◌+◌, ◌*◌, ◌-◌, ◌≤◌, String, codes, true, List, [], ◌∷◌, ◌++◌, ◌≡◌, ◌↔◌, ◌⊎◌, inl, inr, refl,
  arith, eq_iff, Bool-cases,
}
use dawn_patrol.Regex.{
  seq, chr, range, opt, lit, matches, test, Matches, nothing, single, both, left, right,
}
use dawn_patrol.Regex.Laws.{test_iff, matches_sound}
use dawn_patrol.ServiceWorker.{octet, dotted, loopback, is_localhost}

-- The code point of a decimal digit.
abbrev pub Digit : ℕ → Type 0
Digit c = (48 ≤ c) × (c ≤ 57)

-- One to three decimal digits, of a value up to 255.
abbrev pub IsOctet : List ℕ → Type 0
IsOctet (a ∷ []) = Digit a
IsOctet (a ∷ b ∷ []) = Digit a × Digit b
IsOctet (a ∷ b ∷ c ∷ []) =
    Digit a × Digit b × Digit c × ((a - 48) * 100 + (b - 48) * 10 + (c - 48) ≤ 255)
IsOctet _ = ⊥

range-Matches :
    (lo hi : ℕ) {w : List ℕ}
    → Matches (range lo hi) w
    → (c : ℕ) × (w ≡ c ∷ []) × (lo ≤ c) × (c ≤ hi)
range-Matches lo hi (single {c} h) = (c, refl, ground arith, ground arith)

chr-Matches : (c : ℕ) {w : List ℕ} → Matches (chr c) w → w ≡ c ∷ []
chr-Matches c (single {c = d} h) = ground arith

opt-Matches :
    (lo hi : ℕ) {w : List ℕ}
    → Matches (opt (range lo hi)) w
    → (w ≡ []) ⊎ ((c : ℕ) × (w ≡ c ∷ []) × (lo ≤ c) × (c ≤ hi))
opt-Matches lo hi (left nothing) = inl refl
opt-Matches lo hi (right h) = inr (range-Matches lo hi h)

high_sound :
    {u v w : List ℕ} → Matches (lit "25") u → Matches (range 48 53) v → u ++ v ≡ w → IsOctet w
high_sound {w} (both h k q) r e =
    let (c, same, low, high) = range-Matches 48 53 r in
    let first = chr-Matches 50 h in
    let second = chr-Matches 53 k in rw (← e, ← q, first, second, same) (omega arith)

middle_sound :
    {u v w : List ℕ}
    → Matches (chr 50) u
    → Matches (seq (range 48 52) (range 48 57)) v
    → u ++ v ≡ w
    → IsOctet w
middle_sound h (both k r q) e =
    let first = chr-Matches 50 h in
    let (b, second, low, high) = range-Matches 48 52 k in
    let (c, third, low', high') = range-Matches 48 57 r in
    rw (← e, ← q, first, second, third) (omega arith)

low_sound :
    {u v w : List ℕ}
    → Matches (opt (range 48 49)) u
    → Matches (seq (range 48 57) (opt (range 48 57))) v
    → u ++ v ≡ w
    → IsOctet w
low_sound h (both k r q) e =
    let (b, second, low, high) = range-Matches 48 57 k in
    elim (opt-Matches 48 49 h) [
      | inl first ↦ elim (opt-Matches 48 57 r) [
        | inl third ↦ rw (← e, ← q, first, second, third) (omega arith)
        | inr (c, third, low', high') ↦ rw (← e, ← q, first, second, third) (omega arith)
      ]
      | inr (a, first, low'', high'') ↦ elim (opt-Matches 48 57 r) [
        | inl third ↦ rw (← e, ← q, first, second, third) (omega arith)
        | inr (c, third, low', high') ↦ rw (← e, ← q, first, second, third) (omega arith)
      ]
    ]

octet_sound : {w : List ℕ} → Matches octet w → IsOctet w
octet_sound (left (both h k e)) = high_sound h k e
octet_sound (right (left (both h k e))) = middle_sound h k e
octet_sound (right (right (both h k e))) = low_sound h k e

octet_complete : (w : List ℕ) → IsOctet w → matches octet w ≡ true
unfolding matches
octet_complete [] h = elim h [ ]
octet_complete (a ∷ []) h = ground arith
octet_complete (a ∷ b ∷ []) h = ground arith
octet_complete (a ∷ b ∷ c ∷ []) h = ground arith
octet_complete (a ∷ b ∷ c ∷ d ∷ w) h = elim h [ ]

-- The dotted form `127.a.b.c`.
abbrev pub Is127 : List ℕ → Type 0
Is127 w =
    (a b c : List ℕ) × IsOctet a
    × IsOctet b
    × IsOctet c
    × (codes "127" ++ ((46 ∷ a) ++ ((46 ∷ b) ++ (46 ∷ c))) ≡ w)

dotted_sound : {w : List ℕ} → Matches dotted w → (a : List ℕ) × IsOctet a × (46 ∷ a ≡ w)
dotted_sound (both {v} h k e) = (v, octet_sound k, rw (← e, chr-Matches 46 h))

dotted_complete : (a : List ℕ) → IsOctet a → Matches dotted (46 ∷ a)
dotted_complete a h = both (single refl) (matches_sound octet a (octet_complete a h)) refl

digits_sound : {w : List ℕ} → Matches (lit "127") w → codes "127" ≡ w
digits_sound (both h (both k l q) e) =
    rw (← e, ← q, chr-Matches 49 h, chr-Matches 50 k, chr-Matches 55 l)

loopback_sound : {w : List ℕ} → Matches loopback w → Is127 w
loopback_sound (both h (both k (both l m r) q) e) =
    let (a, a_ok, a_is) = dotted_sound k in
    let (b, b_ok, b_is) = dotted_sound l in
    let (c, c_ok, c_is) = dotted_sound m in
    (a, b, c, a_ok, b_ok, c_ok, rw (← e, ← q, ← r, ← a_is, ← b_is, ← c_is, ← digits_sound h))

three_digits : matches (lit "127") (codes "127") ≡ true
unfolding matches
three_digits = refl

loopback_complete : {w : List ℕ} → Is127 w → Matches loopback w
loopback_complete (a, b, c, a_ok, b_ok, c_ok, e) =
    both (matches_sound (lit "127") (codes "127") three_digits)
      (both (dotted_complete a a_ok) (both (dotted_complete b b_ok) (dotted_complete c c_ok) refl)
        refl)
      e

-- The page counts as local exactly if its host is `localhost`, `[::1]`, or `127.` and three
-- octets, each of one to three decimal digits with a value up to 255.
pub is_localhost_iff :
    (h : String) → (is_localhost h ≡ true) ↔ (h ≡ "localhost") ⊎ ((h ≡ "[::1]") ⊎ Is127 (codes h))
unfolding is_localhost
is_localhost_iff h =
    let (to, from) = test_iff loopback h in
    (
      λ e. elim (Bool-cases (test loopback h)) [
        | inl t ↦ inr (inr (loopback_sound (to t)))
        | inr f ↦ ground (arith, eq_iff h "localhost", eq_iff h "[::1]")
      ],
      elim [
        | inl e ↦ ground (arith, eq_iff h "localhost")
        | inr (inl e) ↦ ground (arith, eq_iff h "[::1]")
        | inr (inr e) ↦ let t = from (loopback_complete e) in ground arith
      ],
    )
