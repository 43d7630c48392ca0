-- ===== src/Text/Decimal.antt =====
-- `strconv.Itoa` and `strconv.Atoi`, and Go's `int` (64 bits) as ℤ.
use uncut_core.Base.{
  leb, eqb, if◌then◌else◌, Bool-cases, ℕ, zero, suc, ◌+◌, ◌-◌, ◌*◌, ◌/◌, ◌%◌, ◌^◌, ◌≤◌, ◌<◌, ◌≡◌,
  inl, inr, true, Option, none, some, [], ◌∷◌, arith,
}
use uncut_core.Text.{Text, is_digit}

-- `negsuc n` is -(n + 1).
pub data ℤ : Type 0 where
  pos : ℕ → ℤ
  negsuc : ℕ → ℤ

-- The digits of `n` in front of `out`. Each round divides `n` by ten, so `suc n` rounds are enough.
unfoldable pub digits : ℕ → ℕ → Text → Text
digits zero n out = out
digits (suc fuel) n out =
    let more = digits fuel (n / 10) ((b'0' + n % 10) ∷ out) in
    if eqb (n / 10) 0 then (b'0' + n % 10) ∷ out else more

unfoldable pub print : ℕ → Text
unfolding digits
print n = digits (suc n) n []

-- `strconv.Itoa`
unfoldable pub itoa : ℤ → Text
unfolding print
itoa (pos n) = print n
itoa (negsuc n) = b'-' ∷ print (suc n)

read : ℕ → Text → Option ℕ
unfolding is_digit
read n [] = some n
read n (c ∷ s) = let rest = read (n * 10 + (c - b'0')) s in if is_digit c then rest else none

-- The digits of a number, of which there is one at least.
read_number : Text → Option ℕ
unfolding read
read_number [] = none
read_number (c ∷ s) = read 0 (c ∷ s)

abbrev pub max_int : ℕ
max_int = 2 ^ 63 - 1

abbrev as_positive : Option ℕ → Option ℤ
as_positive none = none
as_positive (some n) = if leb n max_int then some (pos n) else none

abbrev as_negative : Option ℕ → Option ℤ
as_negative none = none
as_negative (some zero) = some (pos 0)
as_negative (some (suc n)) = if leb n max_int then some (negsuc n) else none

-- `strconv.Atoi`; `none` is its error.
unfoldable pub atoi : Text → Option ℤ
unfolding read_number
atoi [] = none
atoi (c ∷ s) =
    if eqb c b'-'
    then as_negative (read_number s)
    else if eqb c b'+'
    then as_positive (read_number s)
    else as_positive (read_number (c ∷ s))

read_last : (n : ℕ) (out : Text) → read (n / 10) ((b'0' + n % 10) ∷ out) ≡ read n out
unfolding read
read_last n out = ground arith

read-digits : (fuel n : ℕ) (out : Text) → n < fuel → read 0 (digits fuel n out) ≡ read n out
unfolding digits
read-digits zero n out h = elim h [ ]
read-digits (suc fuel) n out h = elim (Bool-cases (eqb (n / 10) 0)) [
  | inl e ↦ rw e (ground (arith, read_last n out))
  | inr e ↦
      rw e (ground (arith, read-digits fuel (n / 10) ((b'0' + n % 10) ∷ out), read_last n out))
]

-- The first character of a printed number is a digit.
abbrev FirstDigit : Text → Type 0
FirstDigit [] = ⊥
FirstDigit (c ∷ s) = is_digit c ≡ true

digits_first : (fuel n : ℕ) (out : Text) → 0 < fuel → FirstDigit (digits fuel n out)
unfolding digits is_digit
digits_first zero n out h = elim h [ ]
digits_first (suc zero) n out h = ground arith
digits_first (suc (suc fuel)) n out h =
    ground (arith, digits_first (suc fuel) (n / 10) ((b'0' + n % 10) ∷ out))

atoi-read : (s : Text) → FirstDigit s → atoi s ≡ as_positive (read 0 s)
unfolding atoi is_digit
atoi-read [] h = absurd h
atoi-read (c ∷ s) h = ground arith

-- A printed number that is an `int` is read back.
pub atoi-print : (n : ℕ) → n ≤ max_int → atoi (print n) ≡ some (pos n)
unfolding print
atoi-print n h =
    rw
      (
        atoi-read (digits (suc n) n []) (digits_first (suc n) n [] (omega arith)),
        read-digits (suc n) n [] (omega arith),
      )
      (unfold read in ground arith)
