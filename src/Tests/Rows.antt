-- ===== src/Tests/Rows.antt =====
-- The rows of a database in memory: their order, their unique columns and their keys.
use dawn_patrol.Prelude.{
  ℕ, suc, ◌+◌, String, Bool, true, false, not, ◌&&◌, ◌||◌, Option, none, some, List, [], ◌∷◌, ◌++◌,
  ◌⊎◌, length, ◌==◌, ◌≡◌, ◌≢◌, arith, eq_iff, eq_refl, nat_eq, if◌then◌else◌, Result, ok, throw,
}
use dawn_patrol.Api.{Association}

-- The ids of associations are their places from 1 on. An id of zero and an empty acronym are no
-- conditions.
abbrev pub first_at : ℕ → ℕ → String → List Association → Option Association
first_at n k acronym [] = none
first_at n k acronym (a ∷ s) =
    if (nat_eq k 0 || nat_eq k (suc n)) && (acronym == "" || a.acronym == acronym)
    then some (record a { id = suc n })
    else first_at (suc n) k acronym s

abbrev pub like_at : ℕ → Association → List Association → Option Association
like_at n a [] = none
like_at n a (b ∷ s) =
    if b.acronym == a.acronym && b.name == a.name
    then some (record b { id = suc n })
    else like_at (suc n) a s

abbrev pub host_at : ℕ → String → List Association → Result String Association
host_at n host [] = throw "record not found"
host_at n host (a ∷ s) =
    if host == a.host then ok (record a { id = suc n }) else host_at (suc n) host s

-- The three unique indexes.
abbrev shares : Association → Association → Bool
shares a b = b.acronym == a.acronym || b.host == a.host || b.name == a.name

abbrev pub free_at : Association → List Association → Bool
free_at a [] = true
free_at a (b ∷ s) = not (shares a b) && free_at a s

-- Whether an id is there.
abbrev pub place_at : ℕ → ℕ → List Association → Bool
place_at n id [] = false
place_at n id (a ∷ s) = nat_eq id (suc n) || place_at (suc n) id s

pub first_at-append :
    (n : ℕ) (a : Association) (s : List Association)
    → a.acronym ≢ ""
    → free_at a s ≡ true
    → first_at n 0 a.acronym (s ++ (a ∷ [])) ≡ some (record a { id = suc (n + length s) })
first_at-append n a [] named h = rw (eq_refl a.acronym) (ground (arith, eq_iff a.acronym ""))
first_at-append n a (b ∷ s) named h =
    ground (arith, eq_iff a.acronym "", first_at-append (suc n) a s named)

pub first_at-found :
    (n k : ℕ) (acronym : String) (s : List Association) (a : Association)
    → first_at n k acronym s ≡ some a
    → (a.id ≢ 0) × (place_at n a.id s ≡ true) × ((acronym ≡ "") ⊎ (a.acronym ≡ acronym))
first_at-found n k acronym [] a h = cc
first_at-found n k acronym (b ∷ s) a h =
    ground
      (arith, eq_iff acronym "", eq_iff b.acronym acronym, first_at-found (suc n) k acronym s a)

pub first_at-taken :
    (n : ℕ) (a b : Association) (s : List Association)
    → a.acronym ≢ ""
    → first_at n 0 a.acronym s ≡ some b
    → free_at a s ≡ false
first_at-taken n a b [] named h = cc
first_at-taken n a b (c ∷ s) named h =
    ground (arith, eq_iff a.acronym "", first_at-taken (suc n) a b s named)

pub first_at-stays :
    (n k : ℕ) (acronym : String) (a f : Association) (s : List Association)
    → first_at n k acronym s ≡ some f
    → first_at n k acronym (s ++ (a ∷ [])) ≡ some f
first_at-stays n k acronym a f [] h = cc
first_at-stays n k acronym a f (b ∷ s) h = ground (arith, first_at-stays (suc n) k acronym a f s)

pub free_at-append :
    (a b : Association) (s : List Association)
    → a.acronym ≢ b.acronym
    → a.host ≢ b.host
    → a.name ≢ b.name
    → free_at a s ≡ true
    → free_at a (s ++ (b ∷ [])) ≡ true
free_at-append a b [] n m o h =
    ground (arith, eq_iff b.acronym a.acronym, eq_iff b.host a.host, eq_iff b.name a.name)
free_at-append a b (c ∷ s) n m o h = ground (arith, free_at-append a b s n m o)

pub place_at-stays :
    (n id : ℕ) (a : Association) (s : List Association)
    → place_at n id s ≡ true
    → place_at n id (s ++ (a ∷ [])) ≡ true
place_at-stays n id a [] h = cc
place_at-stays n id a (b ∷ s) h = ground (arith, place_at-stays (suc n) id a s)

pub place_at-append :
    (n : ℕ) (a : Association) (s : List Association)
    → place_at n (suc (n + length s)) (s ++ (a ∷ [])) ≡ true
place_at-append n a [] = ground arith
place_at-append n a (b ∷ s) = ground (arith, place_at-append (suc n) a s)

pub host_at-append :
    (n : ℕ) (host : String) (a : Association) (s : List Association) (e : String)
    → host_at n host s ≡ throw e
    → (host == a.host) ≡ true
    → host_at n host (s ++ (a ∷ [])) ≡ ok (record a { id = suc (n + length s) })
host_at-append n host a [] e h k = rw k (ground arith)
host_at-append n host a (b ∷ s) e h k = ground (arith, host_at-append (suc n) host a s e)
