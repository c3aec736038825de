-- ===== src/Kernel/Money/Laws.antt =====
-- What the methods of `Money` guarantee.
use miniledger.Base.{
  ℤ, pos, ◌+ℤ◌, ◌≡◌, ap, true, List, [], ◌∷◌, All, ok, option_eq→eq, option_eq_self, +ℤ_assoc,
  +ℤ-zero, zero-+ℤ, ◌∙◌,
}
use miniledger.Kernel.Currency
use miniledger.Kernel.Currency.{Currency}
use miniledger.Kernel.Money.{Money, of, add, sum_from, sum}

pub currency-equals→eq : (a b : Currency) → Currency.equals a b ≡ true → a.code ≡ b.code
unfolding Currency.equals
currency-equals→eq a b h = option_eq→eq a.code b.code h

pub currency-equals_self : (a : Currency) → Currency.equals a a ≡ true
unfolding Currency.equals
currency-equals_self a = option_eq_self a.code

-- The plain sum of the amounts.
abbrev pub amounts : List Money → ℤ
amounts [] = pos 0
amounts (m ∷ ms) = m.amount +ℤ amounts ms

abbrev pub IsIn : Currency → Money → Type 0
IsIn currency m = Currency.equals currency m.currency ≡ true

sum_from-IsIn :
    (currency : Currency) (total : ℤ) (ms : List Money)
    → All (IsIn currency) ms
    → sum_from (ok (of total currency)) ms ≡ ok (of (total +ℤ amounts ms) currency)
unfolding sum_from add
sum_from-IsIn currency total [] h = rw +ℤ-zero
sum_from-IsIn currency total (m ∷ ms) h =
    rw h.0 (rw (sum_from-IsIn currency (total +ℤ m.amount) ms h.1) (rw +ℤ_assoc))

-- Summing monies of one currency never throws, and gives the sum of the amounts in that currency.
pub sum-IsIn :
    (currency : Currency) (ms : List Money)
    → All (IsIn currency) ms
    → sum ms currency ≡ ok (of (amounts ms) currency)
unfolding sum
sum-IsIn currency ms h =
    sum_from-IsIn currency (pos 0) ms h ∙ ap (λ a. ok (of a currency)) (zero-+ℤ (amounts ms))
