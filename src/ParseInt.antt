-- ===== src/ParseInt.antt =====
-- JavaScript's `parseInt(text, 10)`, as web/scripts/start.js uses it, and `parseInt(text)`, as
-- web/config/webpack.config.js does. Values beyond 2^53, which a JavaScript number rounds, are
-- kept exact.
pub mod Decimal
use dawn_patrol.Prelude.{
  ℕ, ◌+◌, ◌*◌, ◌-◌, String, codes, Bool, true, false, ◌||◌, ◌&&◌, not, Option, none, some, List, [],
  ◌∷◌, nat_eq, leb, if◌then◌else◌,
}

-- NaN, or a sign and a magnitude (`-0` is a number of its own).
pub data Number : Type 0 where
  nan : Number
  number : (negative : Bool) (magnitude : ℕ) → Number

-- A number is false in a test if it is 0, -0 or NaN.
abbrev pub truthy_number : Number → Bool
truthy_number nan = false
truthy_number (number _ n) = not (nat_eq n 0)

-- White space and line terminators.
abbrev pub is_space : ℕ → Bool
is_space c =
    (leb 9 c && leb c 13)
    || (nat_eq c 32
        || (nat_eq c 0xa0
            || (nat_eq c 0x1680
                || ((leb 0x2000 c && leb c 0x200a)
                    || (nat_eq c 0x2028
                        || (nat_eq c 0x2029
                            || (nat_eq c 0x202f
                                || (nat_eq c 0x205f || (nat_eq c 0x3000 || nat_eq c 0xfeff)))))))))

abbrev pub is_digit : ℕ → Bool
is_digit c = leb b'0' c && leb c b'9'

-- The digits at the front of the text, after a value; `seen` says whether there was one.
pub read_digits : ℕ → Bool → List ℕ → Option ℕ
read_digits value seen [] = if seen then some value else none
read_digits value seen (c ∷ s) =
    let rest = read_digits (value * 10 + (c - b'0')) true s in
    if is_digit c then rest else if seen then some value else none

abbrev signed : Bool → Option ℕ → Number
signed negative none = nan
signed negative (some n) = number negative n

pub read_signed : List ℕ → Number
unfolding read_digits
read_signed [] = nan
read_signed (c ∷ s) =
    if nat_eq c b'-'
    then signed true (read_digits 0 false s)
    else if nat_eq c b'+'
    then signed false (read_digits 0 false s)
    else signed false (read_digits 0 false (c ∷ s))

pub skip_space : List ℕ → List ℕ
skip_space [] = []
skip_space (c ∷ s) = if is_space c then skip_space s else c ∷ s

unfoldable pub parse_int : String → Number
unfolding read_signed skip_space
parse_int text = read_signed (skip_space (codes text))

-- The value of a hexadecimal digit.
hex_value : ℕ → Option ℕ
hex_value c =
    if is_digit c
    then some (c - b'0')
    else if leb b'a' c && leb c b'f'
    then some (c - b'a' + 10)
    else if leb b'A' c && leb c b'F'
    then some (c - b'A' + 10)
    else none

read_hex : ℕ → Bool → List ℕ → Option ℕ
read_hex value seen [] = if seen then some value else none
read_hex value seen (c ∷ s) = elim (hex_value c) [
  | none ↦ if seen then some value else none
  | some d ↦ read_hex (value * 16 + d) true s
]

-- `0x` says that the number is hexadecimal.
read_prefixed : List ℕ → Option ℕ
unfolding read_digits
read_prefixed (z ∷ x ∷ s) =
    if nat_eq z b'0' && (nat_eq x b'x' || nat_eq x b'X')
    then read_hex 0 false s
    else read_digits 0 false (z ∷ x ∷ s)
read_prefixed s = read_digits 0 false s

read_any_sign : List ℕ → Number
read_any_sign [] = nan
read_any_sign (c ∷ s) =
    if nat_eq c b'-'
    then signed true (read_prefixed s)
    else if nat_eq c b'+'
    then signed false (read_prefixed s)
    else signed false (read_prefixed (c ∷ s))

-- `parseInt(text)`, without a radix.
unfoldable pub parse_int_any : String → Number
unfolding read_any_sign read_prefixed read_hex hex_value read_digits skip_space
parse_int_any text = read_any_sign (skip_space (codes text))
