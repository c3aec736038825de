-- ===== src/Application/Transfers/Amounts.antt =====
-- TransferService.parseAmount.
use miniledger.Base.{
  ℕ, pos, ◌≡◌, some, nat_to_string, read_nat-nat_to_string, is_numeral-nat_to_string,
}
use miniledger.Application.Transfers.{parse_amount}

-- The decimal text of a natural number is parsed as that amount, however large.
pub parse_amount-nat_to_string : (n : ℕ) → parse_amount (nat_to_string n) ≡ some (pos n)
unfolding parse_amount
parse_amount-nat_to_string n = rw (is_numeral-nat_to_string n, read_nat-nat_to_string n)
