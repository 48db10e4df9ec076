-- ===== src/Api/Databases.antt =====
-- api/pkg/db/databases.go: the choice of a database, and opening it with retries.
use dawn_patrol.Prelude.{
  String, codes, ◌<>◌, ◌==◌, ◌&&◌, nat_eq, Result, ok, throw, ℕ, zero, suc, ◌+◌, ◌*◌, ◌/◌, ◌≤◌, ◌<◌,
  Bool, true, false, Option, none, some, List, [], ◌∷◌, ◌≡◌, inl, inr, refl, ap, arith, length,
  Bool-cases, if◌then◌else◌,
}
use dawn_patrol.Prelude.Object.{lookup}
use dawn_patrol.Env.{Env}

abbrev power : ℕ → ℕ → ℕ
power b zero = 1
power b (suc n) = b * power b n

-- `time.Duration(math.Pow(1.5, float64(a)))`: the seconds of the wait, rounded down.
abbrev pub wait : ℕ → ℕ
wait a = power 3 a / power 2 a

-- The loop of `openURLWithAttempts` from the attempt `a` on, with so many attempts left: the
-- waits, and the attempt that opened the database; `none` is the panic. `opens` says whether
-- `gorm.Open` succeeds at an attempt.
unfoldable pub open_from : (ℕ → Bool) → (a left : ℕ) → List ℕ × Option ℕ
open_from opens a zero = ([], none)
open_from opens a (suc left) =
    let (waits, opened) = open_from opens (suc a) left in
    if opens a then ([], some a) else (wait a ∷ waits, opened)

unfoldable pub open_url_with_attempts : (ℕ → Bool) → ℕ → List ℕ × Option ℕ
open_url_with_attempts opens attempts = open_from opens 0 attempts

-- `openURL`.
abbrev pub open_url : (ℕ → Bool) → List ℕ × Option ℕ
open_url opens = open_url_with_attempts opens 10

-- `os.Getenv`: a variable that is not set reads as the empty text.
abbrev pub getenv : String → Env → String
getenv key env = elim (lookup key env) [ none ↦ "" | some value ↦ value ]

abbrev pub if_empty : String → String → String
if_empty url other = if url == "" then other else url

-- What the choice of a database reads: the environment, and `strings.ToUpper` and `ToLower`.
pub record Settings : Type 0 where
  pub env : Env
  pub to_upper : String → String
  pub to_lower : String → String

unfoldable pub database_url : Settings → String → String
database_url i association =
    if association == ""
    then if_empty (getenv "DATABASE_URL" i.env)
        "postgres://dawnpatrol@db/dawnpatrol_development?sslmode=disable"
    else if_empty (getenv (i.to_upper association <> "_DATABASE_URL") i.env) (
        i.to_lower association
        <> (":rails@tcp(rails-db:3306)/" <> (i.to_lower association <> "?parseTime=True")))

-- `strings.HasPrefix(url, prefix)`.
unfoldable pub has_prefix : List ℕ → List ℕ → Bool
has_prefix url [] = true
has_prefix [] (p ∷ ps) = false
has_prefix (c ∷ cs) (p ∷ ps) = nat_eq c p && has_prefix cs ps

unfoldable pub database_driver : String → String
database_driver url = if has_prefix (codes url) (codes "postgres") then "postgres" else "mysql"

-- `For`: the URL of the database that is opened, or the message of the panic. `opens` says whether
-- `gorm.Open` succeeds with a URL at an attempt, and `refusal` is the last error.
unfoldable pub for_association :
    Settings → (String → ℕ → Bool) → (String → String) → String → Result String String
unfolding open_url_with_attempts database_url database_driver
for_association i opens refusal association =
    let url = database_url i association in
    elim (open_url (opens url)).1 [
      | some attempt ↦ ok url
      | none ↦ throw (
          "Could not connect to "
          <> (database_driver url <> (", " <> (url <> (". " <> refusal url)))))
    ]

-- Every attempt from the first to before the second fails.
abbrev pub AllFail : (ℕ → Bool) → ℕ → ℕ → Type 0
AllFail opens a k = (j : ℕ) → a ≤ j → j < k → opens j ≡ false

-- What a loop of attempts comes to: the first attempt that succeeds, after as many waits as there
-- were failures, or a panic after a wait for each attempt.
abbrev pub Attempted : (ℕ → Bool) → ℕ → ℕ → List ℕ × Option ℕ → Type 0
Attempted opens a left (waits, none) = AllFail opens a (a + left) × (length waits ≡ left)
Attempted opens a left (waits, some k) =
    (a ≤ k) × (k < a + left) × (opens k ≡ true) × AllFail opens a k × (a + length waits ≡ k)

later : (opens : ℕ → Bool) (a k : ℕ) → opens a ≡ false → AllFail opens (suc a) k → AllFail opens a k
later opens a k h rest j low high = ground (arith, rest j)

Attempted-later :
    (opens : ℕ → Bool) (a left : ℕ) (r : List ℕ × Option ℕ)
    → opens a ≡ false
    → Attempted opens (suc a) left r
    → Attempted opens a (suc left) (wait a ∷ r.0, r.1)
Attempted-later opens a left (waits, none) n (fails, same) =
    ((λ j low high. later opens a (suc a + left) n fails j low (omega arith)), ap suc same)
Attempted-later opens a left (waits, some k) n (low, high, e, fails, same) =
    (omega arith, omega arith, e, later opens a k n fails, omega arith)

open_from-Attempted :
    (opens : ℕ → Bool) (a left : ℕ) → Attempted opens a left (open_from opens a left)
unfolding open_from
open_from-Attempted opens a zero = ((λ j low high. absurd (omega arith)), refl)
open_from-Attempted opens a (suc left) = elim (Bool-cases (opens a)) [
  | inl e ↦ rw e (omega arith, omega arith, e, (λ j low high. absurd (omega arith)), omega arith)
  | inr n ↦ rw n (Attempted-later opens a left _ n (open_from-Attempted opens (suc a) left))
]

-- With a number of attempts, the database is opened by the first attempt that succeeds, after a
-- wait for each one before it; if none of them succeeds, the function panics after a wait for
-- each.
pub open_url_with_attempts-Attempted :
    (opens : ℕ → Bool) (attempts : ℕ)
    → Attempted opens 0 attempts (open_url_with_attempts opens attempts)
unfolding open_url_with_attempts
open_url_with_attempts-Attempted opens attempts = open_from-Attempted opens 0 attempts
