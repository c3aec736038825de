-- ===== src/Web/Money/Positive.antt =====
-- web/src/lib/money.ts: an amount in minor units other than "0" is positive.
use Prim.Native.Char.{Char, code}
use Prim.Native.String.{[], ◌∷◌}
use text.Mathlib.TextEquality.{Char-path}
use miniledger.Base.{
  ℕ, ◌+◌, ◌-◌, ◌*◌, ◌<◌, ◌≡◌, ◌≢◌, ap, sym, ◌∙◌, ◌⊎◌, inl, inr, String, true, ◌&&◌, Option, some,
  ltb, nat_eq, Bool-cases, is_digit, all_digits, is_numeral, read_from, read_nat, NonZeroHead,
  arith, some-eq-some,
}
use miniledger.Base.Texts.{◌<>◌, length, pad_end, zeros}
use miniledger.Web.Money.{is_decimal, or_empty, strip_zeros, minor_of}
use miniledger.Web.Money.Amounts.{
  all_digits-append, all_digits-zeros, is_numeral-append, digits_of_decimal, or_zero_lem,
  strip_zeros-digits,
}

digit_cases : (c : Char) → is_digit c ≡ true → (c ≡ "0") ⊎ NonZeroHead (c ∷ "")
unfolding is_digit
digit_cases c h = elim (Bool-cases (nat_eq (code c) b'0')) [
  | inl z ↦ inl (Char-path c "0" (ground arith))
  | inr other ↦ inr (ground arith, ground arith)
]

strip_zeros-cases :
    (s : String) → is_numeral s ≡ true → (strip_zeros s ≡ "0") ⊎ NonZeroHead (strip_zeros s)
unfolding strip_zeros is_numeral all_digits is_digit
strip_zeros-cases [] h = cc h
strip_zeros-cases (c ∷ []) h = elim (digit_cases c (ground arith)) [
  | inl z ↦ inl (ap (λ (d : Char). d ∷ "") z)
  | inr other ↦ inr other
]
strip_zeros-cases (c ∷ d ∷ s) h = elim (Bool-cases (nat_eq (code c) b'0' && is_digit d)) [
  | inl both ↦ rw both (strip_zeros-cases (d ∷ s) (ground arith))
  | inr other ↦ rw other (inr (ground arith, ground arith))
]

read_from-pos : (n : ℕ) (s : String) → 0 < n → 0 < read_from n s
unfolding read_from
read_from-pos n [] h = h
read_from-pos n (c ∷ s) h = read_from-pos (n * 10 + (code c - b'0')) s (omega arith)

read_nat-pos : (s : String) → NonZeroHead s → 0 < read_nat s
unfolding read_nat read_from
read_nat-pos [] h = absurd h
read_nat-pos (c ∷ s) h = read_from-pos (0 * 10 + (code c - b'0')) s (omega arith)

-- An accepted amount is a numeral, and it is "0" or its value is positive.
pub minor_of-pos :
    (scale : ℕ) (parts : String × Option String) {m : String}
    → minor_of scale parts ≡ some m
    → m ≢ "0"
    → (is_numeral m ≡ true) × (0 < read_nat m)
minor_of-pos scale parts {m} h nonzero = elim (Bool-cases (is_decimal parts)) [
  | inr other ↦ cc (rw other at h)
  | inl decimal ↦ elim (Bool-cases (ltb scale (length (or_empty parts.1)))) [
    | inl long ↦ cc (rw (decimal, long) at h)
    | inr fits ↦
        let (hw, hf) = digits_of_decimal parts decimal in
        let text = parts.0 <> pad_end scale (or_empty parts.1) in
        let numeral = is_numeral-append parts.0 (pad_end scale (or_empty parts.1)) hw (
          all_digits-append (or_empty parts.1) (zeros (scale - length (or_empty parts.1))) hf
            (all_digits-zeros (scale - length (or_empty parts.1)))) in
        let stripped = strip_zeros-digits text numeral in
        let same : strip_zeros text ≡ m =
          sym (or_zero_lem (strip_zeros text) stripped) ∙ some-eq-some (rw (decimal, fits) at h) in
        elim (strip_zeros-cases text numeral) [
          | inl z ↦ absurd (nonzero (sym same ∙ z))
          | inr head ↦ rw (← same) (stripped, read_nat-pos (strip_zeros text) head)
        ]
  ]
]
