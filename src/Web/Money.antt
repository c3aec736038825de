-- ===== src/Web/Money.antt =====
-- web/src/lib/money.ts
pub mod Amounts
pub mod Digits
pub mod Positive
pub mod RoundTrip
use Prim.Native.Char.{code}
use Prim.Native.String.{[], ◌∷◌}
use mathlib.Core.List as L
use miniledger.Base.{
  ℕ, zero, suc, ◌+◌, ◌-◌, ◌%◌, String, Bool, true, false, ◌&&◌, ◌||◌, Option, none, some, List, map,
  find, ltb, leb, nat_eq, ◌==◌, if◌then◌else◌, is_digit, is_numeral,
}
use miniledger.Base.Texts.{◌<>◌, length, take, drop, pad_start, pad_end, trim}

pub record CurrencyDef : Type 0 where
  pub code : String
  pub scale : ℕ

abbrev pub currencies : List CurrencyDef
currencies =
    L.◌∷◌ (record { code = "USD"; scale = 2 })
      (L.◌∷◌ (record { code = "EUR"; scale = 2 }) (L.◌∷◌ (record { code = "JPY"; scale = 0 }) L.[]))

abbrev pub currency_codes : List String
currency_codes = map (λ c. c.code) currencies

-- `scaleOf`, `scaleFor`
unfoldable pub scale_of : String → ℕ
scale_of code = elim (find (λ c. c.code == code) currencies) [ none ↦ 2 | some c ↦ c.scale ]

-- `\w`
unfoldable pub is_word : ℕ → Bool
is_word c =
    (leb b'0' c && leb c b'9')
    || (leb b'A' c && leb c b'Z')
    || nat_eq c b'_'
    || (leb b'a' c && leb c b'z')

unfoldable pub digit_run : String → ℕ
digit_run [] = 0
digit_run (c ∷ s) = let rest = digit_run s in if is_digit c then suc rest else 0

-- `(?=(\d{3})+(?!\d))` in front of a text
unfoldable pub before_thousands : String → Bool
unfolding digit_run
before_thousands s = ltb 0 (digit_run s) && nat_eq (digit_run s % 3) 0

-- The rest of a text behind a character that is, or is not, a `\w`. The lookahead wants a digit, so
-- `\B` holds behind a word character only.
unfoldable pub group_from : Bool → String → String
unfolding before_thousands is_word
group_from behind_word [] = ""
group_from behind_word (c ∷ s) =
    let rest = group_from (is_word (code c)) s in
    if behind_word && before_thousands (c ∷ s) then "," ∷ c ∷ rest else c ∷ rest

-- `whole.replace(/\B(?=(\d{3})+(?!\d))/g, ',')`
unfoldable pub group : String → String
unfolding group_from
group whole = group_from false whole

abbrev pub or_zero : String → String
or_zero [] = "0"
or_zero (c ∷ s) = c ∷ s

-- `minorUnits.startsWith('-')`
unfoldable pub is_negative : String → Bool
is_negative [] = false
is_negative (c ∷ s) = nat_eq (code c) b'-'

abbrev pub sign : String → String
sign m = if is_negative m then "-" else ""

abbrev pub unsigned : String → String
unsigned m = if is_negative m then drop 1 m else m

abbrev pub fraction_of : ℕ → String → String
fraction_of scale digits = if ltb 0 scale then "." <> drop (length digits - scale) digits else ""

abbrev pub format_digits : ℕ → String → String
format_digits scale digits =
    group (or_zero (take (length digits - scale) digits)) <> fraction_of scale digits

unfoldable pub format_money : String → String → String
unfolding scale_of is_negative group
format_money minor_units currency =
    let scale = scale_of currency in
    sign minor_units <> format_digits scale (pad_start (scale + 1) (unsigned minor_units))

-- `trimmed.split('.')`, at the first dot
unfoldable pub split_dot : String → String × Option String
split_dot [] = ("", none)
split_dot (c ∷ s) =
    let (whole, fraction) = split_dot s in
    if nat_eq (code c) b'.' then ("", some s) else (c ∷ whole, fraction)

-- `/^\d+(\.\d+)?$/.test(trimmed)`, on the two parts: a second dot makes the fraction no numeral.
abbrev pub is_decimal : String × Option String → Bool
is_decimal (whole, none) = is_numeral whole
is_decimal (whole, some fraction) = is_numeral whole && is_numeral fraction

abbrev pub or_empty : Option String → String
or_empty none = ""
or_empty (some fraction) = fraction

-- `.replace(/^0+(?=\d)/, '')`
unfoldable pub strip_zeros : String → String
strip_zeros [] = ""
strip_zeros (c ∷ []) = c ∷ ""
strip_zeros (c ∷ d ∷ s) =
    let rest = strip_zeros (d ∷ s) in if nat_eq (code c) b'0' && is_digit d then rest else c ∷ d ∷ s

abbrev pub minor_text : ℕ → String → String → String
minor_text scale whole fraction = or_zero (strip_zeros (whole <> pad_end scale fraction))

abbrev pub minor_of : ℕ → String × Option String → Option String
minor_of scale parts =
    if is_decimal parts
    then (if ltb scale (length (or_empty parts.1))
        then none
        else some (minor_text scale parts.0 (or_empty parts.1)))
    else none

unfoldable pub to_minor_units : String → String → Option String
unfolding scale_of split_dot strip_zeros
to_minor_units input currency = minor_of (scale_of currency) (split_dot (trim input))
