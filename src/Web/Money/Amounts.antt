-- ===== src/Web/Money/Amounts.antt =====
-- web/src/lib/money.ts: what a typed amount is read as.
use Prim.Native.String.{[], ◌∷◌}
use miniledger.Base.{
  ℕ, zero, suc, ◌-◌, ◌*◌, ◌^◌, ◌≤◌, ◌<◌, ◌⊎◌, ◌≡◌, refl, String, true, false, Option, none, some,
  all_digits, is_numeral, read_nat, arith,
}
use miniledger.Base.Texts.{◌<>◌, length, zeros}
use miniledger.Web.Money.{is_decimal, or_empty, or_zero, strip_zeros}

pub all_digits-append :
    (s t : String) → all_digits s ≡ true → all_digits t ≡ true → all_digits (s <> t) ≡ true
unfolding all_digits
all_digits-append [] t hs ht = ht
all_digits-append (c ∷ s) t hs ht = ground (arith, all_digits-append s t)

pub all_digits-zeros : (n : ℕ) → all_digits (zeros n) ≡ true
unfolding all_digits
all_digits-zeros zero = refl
all_digits-zeros (suc n) = all_digits-zeros n

pub all_digits_of_numeral : (s : String) → is_numeral s ≡ true → all_digits s ≡ true
unfolding is_numeral all_digits
all_digits_of_numeral [] h = refl
all_digits_of_numeral (c ∷ s) h = h

pub strip_zeros-digits : (s : String) → is_numeral s ≡ true → is_numeral (strip_zeros s) ≡ true
unfolding strip_zeros is_numeral
strip_zeros-digits [] h = cc
strip_zeros-digits (c ∷ []) h = h
strip_zeros-digits (c ∷ d ∷ s) h = ground (arith, strip_zeros-digits (d ∷ s))

pub or_zero_lem : (s : String) → is_numeral s ≡ true → or_zero s ≡ s
unfolding is_numeral
or_zero_lem [] h = cc
or_zero_lem (c ∷ s) h = refl

pub is_numeral-append :
    (s t : String) → is_numeral s ≡ true → all_digits t ≡ true → is_numeral (s <> t) ≡ true
unfolding is_numeral
is_numeral-append [] t hs ht = cc
is_numeral-append (c ∷ s) t hs ht = ground (arith, all_digits-append s t)

pub digits_of_decimal :
    (parts : String × Option String)
    → is_decimal parts ≡ true
    → (is_numeral parts.0 ≡ true) × (all_digits (or_empty parts.1) ≡ true)
digits_of_decimal (whole, none) h = (h, unfold all_digits in refl)
digits_of_decimal (whole, some fraction) h =
    (ground arith, all_digits_of_numeral fraction (ground arith))

-- What a text of digits, with the places of the currency, is in minor units.
abbrev pub IsMinor : ℕ → String → String → String → Type 0
IsMinor scale whole fraction m =
    (is_numeral m ≡ true)
    × (read_nat m ≡ read_nat (whole <> fraction) * 10 ^ (scale - length fraction))

-- The two answers of `toMinorUnits` on the parts of a text.
abbrev pub IsRead : ℕ → String × Option String → Option String → Type 0
IsRead scale parts none = (is_decimal parts ≡ false) ⊎ (scale < length (or_empty parts.1))
IsRead scale parts (some m) =
    (is_decimal parts ≡ true)
    × (length (or_empty parts.1) ≤ scale)
    × IsMinor scale parts.0 (or_empty parts.1) m
