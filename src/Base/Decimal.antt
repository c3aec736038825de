-- ===== src/Base/Decimal.antt =====
-- Decimal numerals: `bigint.toString()`, `/^\d+$/.test(raw)` and `BigInt(raw)`.
use Prim.Native.Nat.{ℕ, zero, suc, ◌+◌, ◌-◌, ◌*◌, ◌/◌, ◌%◌, ◌≤◌, ◌<◌}
use Prim.Native.Char.{Char, code}
use Prim.Native.String
use Prim.Native.String.{String, [], ◌∷◌}
use mathlib.Core.Path.{◌≡◌, refl, ◌∙◌, ap}
use mathlib.Core.Logic.{◌⊎◌, inl, inr}
use mathlib.Core.Bool.{Bool, true, false, ◌&&◌}
use native.Mathlib.Omega.{arith}
use miniledger.Base.Tests.{leb, ltb, Bool-cases}
use miniledger.Base.Int.{ℤ, pos, negsuc}

digit : ℕ → Char
digit zero = "0"
digit (suc zero) = "1"
digit (suc (suc zero)) = "2"
digit (suc (suc (suc zero))) = "3"
digit (suc (suc (suc (suc zero)))) = "4"
digit (suc (suc (suc (suc (suc zero))))) = "5"
digit (suc (suc (suc (suc (suc (suc zero)))))) = "6"
digit (suc (suc (suc (suc (suc (suc (suc zero))))))) = "7"
digit (suc (suc (suc (suc (suc (suc (suc (suc zero)))))))) = "8"
digit (suc (suc (suc (suc (suc (suc (suc (suc (suc n))))))))) = "9"

-- The digits of `n` in front of `acc`; the fuel is `n + 1`, more than the number of digits.
digits_from : ℕ → ℕ → String → String
digits_from zero n acc = acc
digits_from (suc fuel) n acc = elim (ltb n 10) [
  | true ↦ digit n ∷ acc
  | false ↦ digits_from fuel (n / 10) (digit (n % 10) ∷ acc)
]

unfoldable pub nat_to_string : ℕ → String
unfolding digit digits_from
nat_to_string n = digits_from (suc n) n ""

-- `bigint.toString()`
unfoldable pub to_string : ℤ → String
unfolding nat_to_string
to_string (pos n) = nat_to_string n
to_string (negsuc n) = String.◌++◌ "-" (nat_to_string (suc n))

unfoldable pub is_digit : Char → Bool
is_digit c = leb b'0' (code c) && leb (code c) b'9'

unfoldable pub all_digits : String → Bool
unfolding is_digit
all_digits [] = true
all_digits (c ∷ s) = is_digit c && all_digits s

-- `/^\d+$/.test(raw)`
unfoldable pub is_numeral : String → Bool
unfolding all_digits
is_numeral [] = false
is_numeral (c ∷ s) = is_digit c && all_digits s

unfoldable pub read_from : ℕ → String → ℕ
read_from n [] = n
read_from n (c ∷ s) = read_from (n * 10 + (code c - b'0')) s

-- `BigInt(raw)` of a numeral
unfoldable pub read_nat : String → ℕ
unfolding read_from
read_nat s = read_from 0 s

digit_code : (n : ℕ) → n < 10 → code (digit n) ≡ n + b'0'
unfolding digit
digit_code zero h = omega arith
digit_code (suc zero) h = omega arith
digit_code (suc (suc zero)) h = omega arith
digit_code (suc (suc (suc zero))) h = omega arith
digit_code (suc (suc (suc (suc zero)))) h = omega arith
digit_code (suc (suc (suc (suc (suc zero))))) h = omega arith
digit_code (suc (suc (suc (suc (suc (suc zero)))))) h = omega arith
digit_code (suc (suc (suc (suc (suc (suc (suc zero))))))) h = omega arith
digit_code (suc (suc (suc (suc (suc (suc (suc (suc zero)))))))) h = omega arith
digit_code (suc (suc (suc (suc (suc (suc (suc (suc (suc zero))))))))) h = omega arith
digit_code (suc (suc (suc (suc (suc (suc (suc (suc (suc (suc n)))))))))) h = absurd (omega arith)

-- Reading resumes after the printed digits: with `m` read so far and `n` printed.
scale : ℕ → ℕ → ℕ → ℕ
scale zero n m = m
scale (suc fuel) n m = elim (ltb n 10) [ true ↦ m * 10 | false ↦ scale fuel (n / 10) m * 10 ]

scale-zero : (fuel n : ℕ) → scale fuel n 0 ≡ 0
unfolding scale
scale-zero zero n = refl
scale-zero (suc fuel) n = ground (arith, scale-zero fuel (n / 10))

digits_from_small :
    (fuel n : ℕ) (acc : String) → ltb n 10 ≡ true → digits_from (suc fuel) n acc ≡ (digit n ∷ acc)
unfolding digits_from
digits_from_small fuel n acc h = ground arith

digits_from_large :
    (fuel n : ℕ) (acc : String)
    → ltb n 10 ≡ false
    → digits_from (suc fuel) n acc ≡ digits_from fuel (n / 10) (digit (n % 10) ∷ acc)
unfolding digits_from
digits_from_large fuel n acc h = ground arith

scale_small : (fuel n m : ℕ) → ltb n 10 ≡ true → scale (suc fuel) n m ≡ m * 10
unfolding scale
scale_small fuel n m h = ground arith

scale_large : (fuel n m : ℕ) → ltb n 10 ≡ false → scale (suc fuel) n m ≡ scale fuel (n / 10) m * 10
unfolding scale
scale_large fuel n m h = ground arith

read_from-digits_from :
    (fuel n m : ℕ) (acc : String)
    → n < fuel
    → read_from m (digits_from fuel n acc) ≡ read_from (scale fuel n m + n) acc
unfolding read_from
read_from-digits_from zero n m acc h = absurd (omega arith)
read_from-digits_from (suc fuel) n m acc h = elim (Bool-cases (ltb n 10)) [
  | inl small ↦
      rw (digits_from_small fuel n acc small, scale_small fuel n m small)
        (ap (λ k. read_from k acc) (omega (arith, digit_code n (ground arith))))
  | inr large ↦
      rw (digits_from_large fuel n acc large, scale_large fuel n m large)
        (read_from-digits_from fuel (n / 10) m (digit (n % 10) ∷ acc) (ground arith)
          ∙ ap (λ k. read_from k acc) (omega (arith, digit_code (n % 10) (omega arith))))
]

-- Reading a printed number gives it back.
pub read_nat-nat_to_string : (n : ℕ) → read_nat (nat_to_string n) ≡ n
unfolding read_nat nat_to_string
read_nat-nat_to_string n =
    read_from-digits_from (suc n) n 0 "" (omega arith) ∙ omega (arith, scale-zero (suc n) n)

is_digit-digit : (n : ℕ) → n < 10 → is_digit (digit n) ≡ true
unfolding is_digit
is_digit-digit n h = ground (arith, digit_code n h)

-- A text of digits with at least one.
abbrev NonEmptyDigits : String → Type 0
NonEmptyDigits [] = ⊥
NonEmptyDigits (c ∷ s) = (is_digit c ≡ true) × (all_digits s ≡ true)

digits_from-NonEmptyDigits :
    (fuel n : ℕ) (c : Char) (acc : String)
    → is_digit c ≡ true
    → all_digits acc ≡ true
    → NonEmptyDigits (digits_from fuel n (c ∷ acc))
unfolding all_digits
digits_from-NonEmptyDigits zero n c acc h k = unfold digits_from in (h, k)
digits_from-NonEmptyDigits (suc fuel) n c acc h k = elim (Bool-cases (ltb n 10)) [
  | inl small ↦
      rw (digits_from_small fuel n (c ∷ acc) small) (is_digit-digit n (ground arith), ground arith)
  | inr large ↦ rw (digits_from_large fuel n (c ∷ acc) large) (
      digits_from-NonEmptyDigits fuel (n / 10) (digit (n % 10)) (c ∷ acc)
        (is_digit-digit (n % 10) (omega arith)) (ground arith))
]

nat_to_string-NonEmptyDigits : (n : ℕ) → NonEmptyDigits (nat_to_string n)
unfolding nat_to_string
nat_to_string-NonEmptyDigits n = elim (Bool-cases (ltb n 10)) [
  | inl small ↦
      rw (digits_from_small n n "" small)
        (is_digit-digit n (ground arith), unfold all_digits in refl)
  | inr large ↦ rw (digits_from_large n n "" large) (
      digits_from-NonEmptyDigits n (n / 10) (digit (n % 10)) ""
        (is_digit-digit (n % 10) (omega arith)) (unfold all_digits in refl))
]

is_numeral_of_NonEmptyDigits : (s : String) → NonEmptyDigits s → is_numeral s ≡ true
unfolding is_numeral
is_numeral_of_NonEmptyDigits [] h = absurd h
is_numeral_of_NonEmptyDigits (c ∷ s) h = ground arith

-- The first character is a digit other than zero.
abbrev pub NonZeroHead : String → Type 0
NonZeroHead [] = ⊥
NonZeroHead (c ∷ s) = (b'0' < code c) × (code c ≤ b'9')

digits_from-NonZeroHead :
    (fuel n : ℕ) (acc : String) → n < fuel → 0 < n → NonZeroHead (digits_from fuel n acc)
digits_from-NonZeroHead zero n acc h k = absurd (omega arith)
digits_from-NonZeroHead (suc fuel) n acc h k = elim (Bool-cases (ltb n 10)) [
  | inl small ↦
      rw (digits_from_small fuel n acc small)
        (let at = digit_code n (ground arith) in (omega arith, ground arith))
  | inr large ↦
      rw (digits_from_large fuel n acc large)
        (digits_from-NonZeroHead fuel (n / 10) (digit (n % 10) ∷ acc) (ground arith) (ground arith))
]

-- A printed number is "0" or does not begin with a zero.
pub nat_to_string-zero_or_NonZeroHead :
    (n : ℕ) → (nat_to_string n ≡ "0") ⊎ NonZeroHead (nat_to_string n)
unfolding nat_to_string
nat_to_string-zero_or_NonZeroHead zero = inl refl
nat_to_string-zero_or_NonZeroHead (suc n) =
    inr (digits_from-NonZeroHead (suc (suc n)) (suc n) "" (omega arith) (omega arith))

-- A printed natural number is a numeral.
pub is_numeral-nat_to_string : (n : ℕ) → is_numeral (nat_to_string n) ≡ true
is_numeral-nat_to_string n = is_numeral_of_NonEmptyDigits _ (nat_to_string-NonEmptyDigits n)

printed : to_string (negsuc 1204) ≡ "-1205"
unfolding to_string
printed = refl
