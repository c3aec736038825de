-- ===== src/Domain/HashChain/Canonical.antt =====
-- src/ledger/domain/hash-chain.ts: the text that hashPosting digests shows the posting.
use Prim.Native.Char.{Char, code}
use Prim.Native.String
use Prim.Native.String.{[], ◌∷◌}
use mathlib.Core.Path.{ap₂}
use text.Mathlib.TextLemmas.{
  nil-append, cons-append, head-eq_of_cons-eq, tail-eq_of_cons-eq, append_cancel_left,
}
use miniledger.Base.{
  ℕ, suc, ℤ, pos, negsuc, to_string, nat_to_string, read_nat, read_nat-nat_to_string, all_digits,
  is_digit, is_numeral, is_numeral-nat_to_string, ◌≡◌, ◌≢◌, refl, sym, ap, ◌∙◌, String, true, false,
  Option, nat_eq, arith,
}
use miniledger.Domain.HashChain.{PostingContent, or_empty, join, canonical}

-- A text without the separator.
abbrev pub HasNoBar : String → Type 0
HasNoBar [] = Unit
HasNoBar (c ∷ s) = (nat_eq (code c) b'|' ≡ false) × HasNoBar s

bar-append : (x : String) → String.◌++◌ "|" x ≡ ("|" ∷ x)
bar-append x = cons-append "|" "" x ∙ ap (λ r. "|" ∷ r) (nil-append x)

empty_before_bar : (x : String) → String.◌++◌ "" (String.◌++◌ "|" x) ≡ ("|" ∷ x)
empty_before_bar x = nil-append (String.◌++◌ "|" x) ∙ bar-append x

not_bar : (d : Char) → nat_eq (code d) b'|' ≡ false → ◌≢◌ {A = Char} "|" d
not_bar d h e = cc (rw (← ap code e) at h)

-- A text that is joined to a rest, taken apart.
joined_parts :
    (s t x y : String)
    → HasNoBar s
    → HasNoBar t
    → String.◌++◌ s (String.◌++◌ "|" x) ≡ String.◌++◌ t (String.◌++◌ "|" y)
    → (s ≡ t) × (x ≡ y)
joined_parts [] [] x y hs ht e =
    (refl, tail-eq_of_cons-eq (sym (empty_before_bar x) ∙ e ∙ empty_before_bar y))
joined_parts [] (d ∷ t) x y hs ht e = absurd (
    not_bar d ht.0
      (head-eq_of_cons-eq (sym (empty_before_bar x) ∙ e ∙ cons-append d t (String.◌++◌ "|" y))))
joined_parts (c ∷ s) [] x y hs ht e = absurd (
    not_bar c hs.0
      (head-eq_of_cons-eq (sym (empty_before_bar y) ∙ sym e ∙ cons-append c s (String.◌++◌ "|" x))))
joined_parts (c ∷ s) (d ∷ t) x y hs ht e =
    let e' = sym (cons-append c s (String.◌++◌ "|" x)) ∙ e ∙ cons-append d t (String.◌++◌ "|" y) in
    let (same, rest) = joined_parts s t x y hs.1 ht.1 (tail-eq_of_cons-eq e') in
    (ap₂ (λ (a : Char) b. a ∷ b) (head-eq_of_cons-eq e') same, rest)

digits-HasNoBar : (s : String) → all_digits s ≡ true → HasNoBar s
unfolding all_digits is_digit
digits-HasNoBar [] h = tt
digits-HasNoBar (c ∷ s) h = (ground arith, digits-HasNoBar s (ground arith))

numeral-HasNoBar : (s : String) → is_numeral s ≡ true → HasNoBar s
unfolding is_numeral is_digit
numeral-HasNoBar [] h = tt
numeral-HasNoBar (c ∷ s) h = (ground arith, digits-HasNoBar s (ground arith))

HasNoBar-minus : (s : String) → HasNoBar s → HasNoBar (String.◌++◌ "-" s)
HasNoBar-minus s h = rw (cons-append "-" "" s, nil-append s) (refl, h)

to_string-HasNoBar : (a : ℤ) → HasNoBar (to_string a)
unfolding to_string
to_string-HasNoBar (pos n) = numeral-HasNoBar _ (is_numeral-nat_to_string n)
to_string-HasNoBar (negsuc n) =
    HasNoBar-minus _ (numeral-HasNoBar _ (is_numeral-nat_to_string (suc n)))

nat_to_string-injective : (m n : ℕ) → nat_to_string m ≡ nat_to_string n → m ≡ n
nat_to_string-injective m n e =
    sym (read_nat-nat_to_string m) ∙ ap read_nat e ∙ read_nat-nat_to_string n

not-minus : (s t : String) → is_numeral s ≡ true → s ≢ String.◌++◌ "-" t
unfolding is_numeral is_digit
not-minus [] t h e = cc h
not-minus (c ∷ s) t h e =
    let c_minus = head-eq_of_cons-eq (e ∙ cons-append "-" "" t) in
    absurd (ground (arith, ap code c_minus))

minus_cancel : (s t : String) → String.◌++◌ "-" s ≡ String.◌++◌ "-" t → s ≡ t
minus_cancel s t e = append_cancel_left "-" s t e

-- Printed integers differ.
to_string-injective : (a b : ℤ) → to_string a ≡ to_string b → a ≡ b
unfolding to_string
to_string-injective (pos m) (pos n) e = ap pos (nat_to_string-injective m n e)
to_string-injective (pos m) (negsuc n) e = absurd (not-minus _ _ (is_numeral-nat_to_string m) e)
to_string-injective (negsuc m) (pos n) e =
    absurd (not-minus _ _ (is_numeral-nat_to_string n) (sym e))
to_string-injective (negsuc m) (negsuc n) e =
    let same = nat_to_string-injective (suc m) (suc n) (minus_cancel _ _ e) in
    ap negsuc (omega (arith, same))

-- Ids without the separator, as PostgreSQL prints them.
abbrev pub IsPlain : PostingContent → Type 0
IsPlain c = HasNoBar c.transaction_id × HasNoBar c.account_id

-- The text of a posting shows its parts.
pub canonical-injective :
    (prev prev' : Option String) (c d : PostingContent)
    → HasNoBar (or_empty prev)
    → HasNoBar (or_empty prev')
    → IsPlain c
    → IsPlain d
    → canonical prev c ≡ canonical prev' d
    → (or_empty prev ≡ or_empty prev') × (c ≡ d)
unfolding canonical join
canonical-injective prev prev' c d hp hp' hc hd e =
    let (p, e1) = joined_parts (or_empty prev) (or_empty prev') _ _ hp hp' e in
    let (t, e2) = joined_parts c.transaction_id d.transaction_id _ _ hc.0 hd.0 e1 in
    let (a, e3) = joined_parts c.account_id d.account_id _ _ hc.1 hd.1 e2 in
    let (m, e4) =
      joined_parts (to_string c.amount) (to_string d.amount) _ _ (to_string-HasNoBar c.amount)
        (to_string-HasNoBar d.amount) e3 in
    (p, cc (t, a, to_string-injective _ _ m, to_string-injective _ _ e4))
