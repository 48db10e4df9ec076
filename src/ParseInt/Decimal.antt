-- ===== src/ParseInt/Decimal.antt =====
-- `parseInt` reads back what is printed in decimal.
use dawn_patrol.Prelude.{
  ℕ, zero, suc, ◌+◌, ◌*◌, ◌-◌, ◌/◌, ◌%◌, ◌<◌, ◌≡◌, refl, sym, ◌∙◌, ap, String, codes, Bool, true,
  false, some, List, [], ◌∷◌, ltb, if◌then◌else◌, Bool-cases, inl, inr, arith,
}
use dawn_patrol.ParseInt.{
  number, is_space, is_digit, signed, read_digits, read_signed, skip_space, parse_int,
}

-- The decimal digits of a number in front of a text; the fuel bounds the digits.
pub print_from : ℕ → ℕ → List ℕ → List ℕ
print_from zero n out = out
print_from (suc fuel) n out =
    let more = print_from fuel (n / 10) ((b'0' + n % 10) ∷ out) in
    if ltb n 10 then (b'0' + n) ∷ out else more

unfoldable pub print_decimal : ℕ → List ℕ → List ℕ
unfolding print_from
print_decimal n out = print_from (suc n) n out

-- The text does not go on with a digit.
abbrev pub EndsDigits : List ℕ → Type 0
EndsDigits [] = Unit
EndsDigits (c ∷ s) = is_digit c ≡ false

is_digit_lem : (d : ℕ) → d < 10 → is_digit (b'0' + d) ≡ true
is_digit_lem d h = ground arith

read_digit :
    (value d : ℕ) (seen : Bool) (out : List ℕ)
    → d < 10
    → read_digits value seen ((b'0' + d) ∷ out) ≡ read_digits (value * 10 + d) true out
unfolding read_digits
read_digit value d seen out h =
    let same : b'0' + d - b'0' ≡ d = omega arith in rw (is_digit_lem d h, same)

read_digits-print_from :
    (fuel n : ℕ) (seen : Bool) (out : List ℕ)
    → n < fuel
    → read_digits 0 seen (print_from fuel n out) ≡ read_digits n true out
unfolding print_from
read_digits-print_from zero n seen out h = elim h [ ]
read_digits-print_from (suc fuel) n seen out h = elim (Bool-cases (ltb n 10)) [
  | inl small ↦
      rw small
        (read_digit 0 n seen out (ground arith) ∙ ap (λ v. read_digits v true out) (omega arith))
  | inr large ↦ rw large (
      read_digits-print_from fuel (n / 10) seen ((b'0' + n % 10) ∷ out) (ground arith)
      ∙ read_digit (n / 10) (n % 10) true out (omega arith)
      ∙ ap (λ v. read_digits v true out) (omega arith))
]

-- The printed text begins with a digit.
print_from-head :
    (fuel n : ℕ) (out : List ℕ)
    → n < fuel
    → (d : ℕ) × (s : List ℕ) × (print_from fuel n out ≡ (b'0' + d) ∷ s) × (d < 10)
unfolding print_from
print_from-head zero n out h = elim h [ ]
print_from-head (suc fuel) n out h = elim (Bool-cases (ltb n 10)) [
  | inl small ↦ (n, out, rw small, ground arith)
  | inr large ↦
      let (d, s, same, below) =
        print_from-head fuel (n / 10) ((b'0' + n % 10) ∷ out) (ground arith) in
      (d, s, rw large same, below)
]

digit_not_space : (d : ℕ) → d < 10 → is_space (b'0' + d) ≡ false
digit_not_space d h = ground arith

digit_starts :
    (d : ℕ) (s : List ℕ)
    → d < 10
    → read_signed (skip_space ((b'0' + d) ∷ s))
      ≡ signed false (read_digits 0 false ((b'0' + d) ∷ s))
unfolding read_signed skip_space
digit_starts d s h = rw (digit_not_space d h) (ground arith)

read_digits_end : (n : ℕ) (out : List ℕ) → EndsDigits out → read_digits n true out ≡ some n
unfolding read_digits
read_digits_end n [] h = refl
read_digits_end n (c ∷ s) h = rw h

-- A text that is a number in decimal, with anything behind it but a further digit, is read as
-- that number.
pub parse_int-print_decimal :
    (text : String) (n : ℕ) (out : List ℕ)
    → codes text ≡ print_decimal n out
    → EndsDigits out
    → parse_int text ≡ number false n
unfolding parse_int print_decimal
parse_int-print_decimal text n out h ends =
    let (d, s, same, below) = print_from-head (suc n) n out (omega arith) in
    let reads = read_digits-print_from (suc n) n false out (omega arith) in
    ap (λ cs. read_signed (skip_space cs)) (h ∙ same)
    ∙ digit_starts d s below
    ∙ ap (λ cs. signed false (read_digits 0 false cs)) (sym same)
    ∙ ap (signed false) (reads ∙ read_digits_end n out ends)
