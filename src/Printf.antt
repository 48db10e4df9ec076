-- ===== src/Printf.antt =====
-- Go's `fmt.Fprintf` with a format and no operands, as package fmt documents it. Argument indexes
-- (`%[1]d`), and widths beyond a million, which Go drops, are left out.
use dawn_patrol.Prelude.{
  ℕ, codes, Bool, true, false, not, ◌&&◌, ◌||◌, List, [], ◌∷◌, ◌++◌, ◌≡◌, ◌∙◌, refl, ap, arith,
  nat_eq, leb, if◌then◌else◌, Bool-cases, inl, inr,
}

-- Where the reader of the format is: outside a directive, or in one, before its flags, width,
-- point and precision have ended, or before its verb.
pub data Part : Type 0 where
  plain flags width point precision digits verb : Part

abbrev is_flag : ℕ → Bool
is_flag c = nat_eq c b'#' || (nat_eq c b'0' || (nat_eq c b'+' || (nat_eq c b'-' || nat_eq c b' ')))

abbrev is_digit : ℕ → Bool
is_digit c = leb b'0' c && leb c b'9'

-- The part that the reader is in behind a character; a verb ends the directive.
next : Part → ℕ → Part
next plain c = if nat_eq c b'%' then flags else plain
next flags c =
    if is_flag c
    then flags
    else if nat_eq c b'*'
    then point
    else if is_digit c
    then width
    else if nat_eq c b'.'
    then precision
    else plain
next width c = if is_digit c then width else if nat_eq c b'.' then precision else plain
next point c = if nat_eq c b'.' then precision else plain
next precision c = if nat_eq c b'*' then verb else if is_digit c then digits else plain
next digits c = if is_digit c then digits else plain
next verb c = plain

-- A verb with no operand, and a percent sign.
abbrev missing : ℕ → List ℕ
missing c = if nat_eq c b'%' then b'%' ∷ [] else codes "%!" ++ (c ∷ codes "(MISSING)")

-- What is written for a character in a directive that does not end it.
abbrev bad : Part → ℕ → List ℕ
bad flags c = if nat_eq c b'*' then codes "%!(BADWIDTH)" else []
bad precision c = if nat_eq c b'*' then codes "%!(BADPREC)" else []
bad _ c = []

-- What is written for a character, and where the reader is behind it.
written : Part → Part → ℕ → List ℕ
written plain flags c = []
written plain _ c = c ∷ []
written part plain c = missing c
written part _ c = bad part c

print_from : Part → List ℕ → List ℕ
unfolding next written
print_from plain [] = []
print_from _ [] = codes "%!(NOVERB)"
print_from part (c ∷ s) = written part (next part c) c ++ print_from (next part c) s

unfoldable pub fprintf : List ℕ → List ℕ
unfolding print_from
fprintf format = print_from plain format

-- No percent sign.
abbrev pub is_plain : List ℕ → Bool
is_plain [] = true
is_plain (c ∷ s) = not (nat_eq c b'%') && is_plain s

abbrev pub is_letter : ℕ → Bool
is_letter c = leb b'a' c && leb c b'z' || leb b'A' c && leb c b'Z'

-- What stands before the first percent sign is written as it is.
print_from-append :
    (s t : List ℕ) → is_plain s ≡ true → print_from plain (s ++ t) ≡ s ++ print_from plain t
unfolding print_from
print_from-append [] t h = refl
print_from-append (c ∷ s) t h = elim (Bool-cases (nat_eq c b'%')) [
  | inl e ↦ ground arith
  | inr n ↦ rw n (ap (λ u. c ∷ u) (print_from-append s t (ground arith)))
]

letter_next : (c : ℕ) → is_letter c ≡ true → (next flags c ≡ plain) × (nat_eq c b'%' ≡ false)
unfolding next
letter_next c h = ground arith

-- The first percent sign of a format, if a letter follows it, is written with a complaint.
pub fprintf-letter :
    (s : List ℕ) (c : ℕ) (t : List ℕ)
    → is_plain s ≡ true
    → is_letter c ≡ true
    → fprintf (s ++ (b'%' ∷ c ∷ t)) ≡ s ++ (codes "%!" ++ (c ∷ (codes "(MISSING)" ++ fprintf t)))
unfolding fprintf print_from
fprintf-letter s c t h k =
    let (n, m) = letter_next c k in
    print_from-append s (b'%' ∷ c ∷ t) h ∙ ap (λ u. s ++ u) (rw (n, m) refl)

print_from-plain : (s : List ℕ) → is_plain s ≡ true → print_from plain s ≡ s
unfolding print_from
print_from-plain [] h = refl
print_from-plain (c ∷ s) h = elim (Bool-cases (nat_eq c b'%')) [
  | inl e ↦ ground arith
  | inr n ↦ rw n (ap (λ u. c ∷ u) (print_from-plain s (ground arith)))
]

-- A format with no percent sign is written as it is.
pub fprintf-plain : (s : List ℕ) → is_plain s ≡ true → fprintf s ≡ s
unfolding fprintf
fprintf-plain = print_from-plain
