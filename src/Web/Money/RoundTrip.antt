-- ===== src/Web/Money/RoundTrip.antt =====
-- web/src/lib/money.ts: a formatted amount typed in again.
use miniledger.Base.{
  ℕ, ◌+◌, ◌-◌, ◌≤◌, ◌≡◌, refl, ap, ◌∙◌, inl, inr, String, true, false, some, ltb, Bool-cases,
  all_digits, is_numeral, if◌then◌else◌, nat_to_string, is_numeral-nat_to_string, arith,
}
use miniledger.Base.Texts.{
  ◌<>◌, length, take, drop, zeros, pad_start, trim, trim_lem, is_space, visible, AllChars,
  AllChars-append, take-drop, length-append, length-zeros, length-drop,
}
use miniledger.Web.Money.{
  scale_of, group_from, group, or_zero, format_digits, format_money, split_dot, strip_zeros,
  minor_of, to_minor_units,
}
use miniledger.Web.Money.Amounts.{all_digits_of_numeral}
use miniledger.Web.Money.Digits.{
  remove_commas, remove_commas-append, remove_commas-digits, remove_commas-group_from,
  digits-visible, split_dot-digits, split_dot-append, strip_zeros-nat_to_string, is_numeral-zeros,
  strip_zeros-zeros, all_digits-parts, is_numeral_of_length, not-is_negative-digits,
  or_zero-numeral, append-nil, empty_of_length,
}

-- What is typed again: digits, and a dot before the last `scale` of them.
plain : ℕ → String → String → String
plain scale whole fraction = if ltb 0 scale then whole <> "." <> fraction else whole

module _ (scale : ℕ) (whole fraction : String) (hw : is_numeral whole ≡ true)
    (hf : all_digits fraction ≡ true) (places : length fraction ≡ scale) where
  plain-visible : AllChars visible (plain scale whole fraction)
  unfolding plain is_space
  plain-visible =
      let dw = digits-visible whole (all_digits_of_numeral whole hw) in
      elim (Bool-cases (ltb 0 scale)) [
        | inl some_places ↦
            rw some_places (
              AllChars-append visible whole ("." <> fraction) dw (refl, digits-visible fraction hf))
        | inr no_places ↦ rw no_places dw
      ]

  minor_of-plain :
      minor_of scale (split_dot (plain scale whole fraction))
      ≡ some (or_zero (strip_zeros (whole <> fraction)))
  unfolding plain
  minor_of-plain = elim (Bool-cases (ltb 0 scale)) [
    | inl some_places ↦
        rw (some_places, split_dot-append whole fraction (all_digits_of_numeral whole hw))
          (let enough : ltb scale (length fraction) ≡ false = ground arith in
            let all : scale - length fraction ≡ 0 = omega arith in
            let numeral = is_numeral_of_length fraction (ground arith) hf in
            rw (hw, numeral, enough, all, append-nil fraction))
    | inr no_places ↦
        rw (no_places, split_dot-digits whole (all_digits_of_numeral whole hw))
          (let zero_scale : scale ≡ 0 = ground arith in
            let empty = empty_of_length fraction (places ∙ zero_scale) in
            rw (hw, zero_scale, empty))
  ]

-- The padded digits of a number, taken apart before the last `scale` of them.
module _ (scale n : ℕ) where
  abbrev digits : String
  digits = pad_start (scale + 1) (nat_to_string n)

  abbrev point : ℕ
  point = length digits - scale

  digits-numeral : is_numeral digits ≡ true
  digits-numeral = is_numeral-zeros _ (nat_to_string n) (is_numeral-nat_to_string n)

  length-digits : scale + 1 ≤ length digits
  length-digits = omega (
    arith,
    length-append (zeros (scale + 1 - length (nat_to_string n))) (nat_to_string n),
    length-zeros (scale + 1 - length (nat_to_string n)),
  )

  abbrev whole : String
  whole = take point digits

  abbrev fraction : String
  fraction = drop point digits

  length-fraction : length fraction ≡ scale
  length-fraction = omega (arith, length-drop point digits, length-digits)

  parts-digits : (all_digits whole ≡ true) × (all_digits fraction ≡ true)
  parts-digits =
      all_digits-parts whole fraction
        (rw (take-drop point digits) (all_digits_of_numeral digits digits-numeral))

  whole-numeral : is_numeral whole ≡ true
  whole-numeral =
      is_numeral_of_length whole
        (omega (
          arith,
          length-append whole fraction,
          ap length (take-drop point digits),
          length-fraction,
          length-digits,
        ))
        parts-digits.0

  remove_commas-format_digits :
      remove_commas (format_digits scale digits) ≡ plain scale whole fraction
  unfolding plain group
  remove_commas-format_digits =
      rw (or_zero-numeral whole whole-numeral, remove_commas-append (group_from false whole))
        (rw (remove_commas-group_from false whole parts-digits.0) (elim (Bool-cases (ltb 0 scale)) [
          | inl some_places ↦ rw some_places (
              ap (λ t. whole <> t)
                (unfold remove_commas in
                  (ap (λ t. "." <> t) (remove_commas-digits fraction parts-digits.1))))
          | inr no_places ↦ rw no_places (unfold remove_commas in (append-nil whole))
        ]))

  read-format_digits :
      minor_of scale (split_dot (trim (plain scale whole fraction))) ≡ some (nat_to_string n)
  read-format_digits =
      rw
        (trim_lem _
          (plain-visible scale whole fraction whole-numeral parts-digits.1 length-fraction))
        (minor_of-plain scale whole fraction whole-numeral parts-digits.1 length-fraction
          ∙ rw
              (
                take-drop point digits,
                strip_zeros-zeros _ (nat_to_string n) (is_numeral-nat_to_string n),
                strip_zeros-nat_to_string n,
              )
              (ap some (or_zero-numeral _ (is_numeral-nat_to_string n))))

-- A formatted natural number, with its commas taken out, is read back as that number.
pub to_minor_units-format_money :
    (n : ℕ) (currency : String)
    → to_minor_units (remove_commas (format_money (nat_to_string n) currency)) currency
      ≡ some (nat_to_string n)
unfolding to_minor_units format_money
to_minor_units-format_money n currency =
    rw (not-is_negative-digits _ (all_digits_of_numeral _ (is_numeral-nat_to_string n))) (
      rw (remove_commas-format_digits (scale_of currency) n)
        (read-format_digits (scale_of currency) n))
