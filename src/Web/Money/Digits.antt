-- ===== src/Web/Money/Digits.antt =====
-- web/src/lib/money.ts: texts of digits under the helpers of the money module.
use Prim.Native.Char.{Char, code}
use Prim.Native.String.{[], ◌∷◌}
use miniledger.Base.{
  ℕ, zero, suc, ◌<◌, ◌≡◌, refl, ap, ◌∙◌, inl, inr, String, Bool, true, false, none, some, nat_eq,
  is_digit, all_digits, is_numeral, if◌then◌else◌, nat_to_string, nat_to_string-zero_or_NonZeroHead,
  NonZeroHead, arith,
}
use miniledger.Base.Texts.{◌<>◌, length, zeros, is_space, visible, AllChars}
use miniledger.Web.Money.{is_word, group_from, or_zero, is_negative, split_dot, strip_zeros}
use miniledger.Web.Money.Amounts.{all_digits-append, all_digits-zeros, all_digits_of_numeral}

-- A text without its commas.
unfoldable pub remove_commas : String → String
remove_commas [] = ""
remove_commas (c ∷ s) =
    let rest = remove_commas s in if nat_eq (code c) b',' then rest else c ∷ rest

pub remove_commas-append :
    (s t : String) → remove_commas (s <> t) ≡ remove_commas s <> remove_commas t
unfolding remove_commas
remove_commas-append [] t = refl
remove_commas-append (c ∷ s) t = ground (arith, remove_commas-append s t)

pub remove_commas-digits : (s : String) → all_digits s ≡ true → remove_commas s ≡ s
unfolding remove_commas all_digits
remove_commas-digits [] h = refl
remove_commas-digits (c ∷ s) h = ground (arith, remove_commas-digits s)

pub remove_commas-group_from :
    (behind_word : Bool) (s : String)
    → all_digits s ≡ true
    → remove_commas (group_from behind_word s) ≡ s
unfolding remove_commas group_from all_digits
remove_commas-group_from behind_word [] h = refl
remove_commas-group_from behind_word (c ∷ s) h =
    ground (arith, remove_commas-group_from (is_word (code c)) s)

-- Digits and a dot are not white space.
pub visible-digit : (c : Char) → is_digit c ≡ true → is_space (code c) ≡ false
unfolding is_digit is_space
visible-digit c h = ground arith

pub digits-visible : (s : String) → all_digits s ≡ true → AllChars visible s
unfolding all_digits
digits-visible [] h = tt
digits-visible (c ∷ s) h = (rw (visible-digit c (ground arith)), digits-visible s (ground arith))

pub split_dot-digits : (s : String) → all_digits s ≡ true → split_dot s ≡ (s, none)
unfolding split_dot all_digits
split_dot-digits [] h = refl
split_dot-digits (c ∷ s) h = ground (arith, split_dot-digits s)

pub split_dot-append :
    (s t : String) → all_digits s ≡ true → split_dot (s <> "." <> t) ≡ (s, some t)
unfolding split_dot all_digits
split_dot-append [] t h = refl
split_dot-append (c ∷ s) t h = ground (arith, split_dot-append s t)

pub strip_zeros-plain : (s : String) → NonZeroHead s → strip_zeros s ≡ s
unfolding strip_zeros
strip_zeros-plain [] h = absurd h
strip_zeros-plain (c ∷ []) h = refl
strip_zeros-plain (c ∷ d ∷ s) h = ground arith

pub strip_zeros-nat_to_string : (n : ℕ) → strip_zeros (nat_to_string n) ≡ nat_to_string n
strip_zeros-nat_to_string n = elim (nat_to_string-zero_or_NonZeroHead n) [
  | inl z ↦ rw z (unfold strip_zeros in refl)
  | inr h ↦ strip_zeros-plain _ h
]

pub strip_zeros-zero : (s : String) → is_numeral s ≡ true → strip_zeros ("0" ∷ s) ≡ strip_zeros s
unfolding strip_zeros is_numeral is_digit
strip_zeros-zero [] h = cc
strip_zeros-zero (c ∷ s) h = ground arith

pub is_numeral-zeros : (k : ℕ) (s : String) → is_numeral s ≡ true → is_numeral (zeros k <> s) ≡ true
unfolding is_numeral is_digit
is_numeral-zeros zero s h = h
is_numeral-zeros (suc k) s h =
    all_digits-append (zeros k) s (all_digits-zeros k) (all_digits_of_numeral s h)

pub strip_zeros-zeros :
    (k : ℕ) (s : String) → is_numeral s ≡ true → strip_zeros (zeros k <> s) ≡ strip_zeros s
strip_zeros-zeros zero s h = refl
strip_zeros-zeros (suc k) s h =
    strip_zeros-zero (zeros k <> s) (is_numeral-zeros k s h) ∙ strip_zeros-zeros k s h

pub all_digits-parts :
    (s t : String) → all_digits (s <> t) ≡ true → (all_digits s ≡ true) × (all_digits t ≡ true)
unfolding all_digits
all_digits-parts [] t h = (refl, h)
all_digits-parts (c ∷ s) t h =
    let (hs, ht) = all_digits-parts s t (ground arith) in (ground arith, ht)

pub is_numeral_of_length : (s : String) → 0 < length s → all_digits s ≡ true → is_numeral s ≡ true
unfolding is_numeral all_digits
is_numeral_of_length [] h k = absurd (omega arith)
is_numeral_of_length (c ∷ s) h k = k

pub not-is_negative-digits : (s : String) → all_digits s ≡ true → is_negative s ≡ false
unfolding is_negative all_digits is_digit
not-is_negative-digits [] h = refl
not-is_negative-digits (c ∷ s) h = ground arith

pub or_zero-numeral : (s : String) → is_numeral s ≡ true → or_zero s ≡ s
unfolding is_numeral
or_zero-numeral [] h = cc
or_zero-numeral (c ∷ s) h = refl

pub append-nil : (s : String) → s <> "" ≡ s
append-nil [] = refl
append-nil (c ∷ s) = ap (λ t. c ∷ t) (append-nil s)

pub empty_of_length : (s : String) → length s ≡ 0 → s ≡ ""
empty_of_length [] h = refl
empty_of_length (c ∷ s) h = absurd (omega arith)
