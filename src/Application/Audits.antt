-- ===== src/Application/Audits.antt =====
-- src/ledger/application/audit.service.ts
use Prim.Native.String.{compare}
use text.Mathlib.Text.{is_le}
use miniledger.Base.{
  ℕ, ℤ, pos, ◌+ℤ◌, eq_ℤ, String, Bool, ◌&&◌, Option, none, some, List, [], ◌∷◌, map, length, last,
  every, get_elem?, Map, Result, ok, err, if◌then◌else◌, option_eq,
}
use miniledger.Domain.Ids.{account_id}
use miniledger.Domain.Account.{Account}
use miniledger.Domain.HashChain.{ChainEntry, verify_chain}
use miniledger.Persistence.Store.{LockedBalance}
use miniledger.Persistence.Platform.{Platform}
use miniledger.Persistence.Action.{Action, pure, ◌>>=◌}
use miniledger.Persistence.Accounts.{find_by_id}
use miniledger.Persistence.Audit.{
  AuditPosting, postings_for_account, account_state, conservation_by_currency,
}

pub data VerifyAccountError : Type 0 where
  unknown_account : VerifyAccountError

pub record AccountAuditReport : Type 0 where
  pub account_id : String
  pub posting_count : ℕ
  pub balance : ℤ
  pub chain_valid : Bool
  pub head_matches : Bool
  pub reconciled : Bool
  pub broken_at_seq : Option ℕ

pub record CurrencyTotal : Type 0 where
  pub currency : String
  pub total : ℤ

pub record ConservationReport : Type 0 where
  pub conserved : Bool
  pub by_currency : List CurrencyTotal

abbrev pub chain_entry : AuditPosting → ChainEntry
chain_entry p = record {
  prev_hash = p.prev_hash;
  hash = p.hash;
  content = record {
    transaction_id = p.transaction_id;
    account_id = p.account_id;
    amount = p.amount;
    balance_after = p.balance_after;
  };
}

abbrev pub state_balance : Option LockedBalance → ℤ
state_balance none = pos 0
state_balance (some s) = s.balance

abbrev pub state_chain_hash : Option LockedBalance → Option String
state_chain_hash none = none
state_chain_hash (some s) = s.chain_hash

abbrev pub hash_field : Option AuditPosting → Option String
hash_field none = none
hash_field (some p) = some p.hash

abbrev pub balance_after_field : Option AuditPosting → ℤ
balance_after_field none = pos 0
balance_after_field (some p) = p.balance_after

abbrev pub seq_field : Option AuditPosting → Option ℕ
seq_field none = none
seq_field (some p) = some p.seq

abbrev pub seq_at : List AuditPosting → Option ℕ → Option ℕ
seq_at postings none = none
seq_at postings (some index) = seq_field (get_elem? postings index)

-- `postings.reduce((total, posting) => total + posting.amount, 0n)`
unfoldable pub sum_from : ℤ → List AuditPosting → ℤ
sum_from total [] = total
sum_from total (p ∷ ps) = sum_from (total +ℤ p.amount) ps

-- `.sort((a, b) => a.currency.localeCompare(b.currency))`: for the codes in use, by code points.
unfoldable pub insert_total : CurrencyTotal → List CurrencyTotal → List CurrencyTotal
insert_total t [] = t ∷ []
insert_total t (u ∷ us) =
    let rest = insert_total t us in
    if is_le (compare t.currency u.currency) then t ∷ u ∷ us else u ∷ rest

unfoldable pub sort_totals : Map ℤ → List CurrencyTotal
sort_totals [] = []
sort_totals ((currency, total) ∷ totals) =
    insert_total (record { currency = currency; total = total }) (sort_totals totals)

abbrev pub is_zero_total : CurrencyTotal → Bool
is_zero_total t = eq_ℤ t.total (pos 0)

unfoldable pub conservation_report : Map ℤ → ConservationReport
conservation_report totals =
    let by_currency = sort_totals totals in
    record { conserved = every is_zero_total by_currency; by_currency = by_currency }

module _ (platform : Platform) where
  unfoldable pub report : String → List AuditPosting → Option LockedBalance → AccountAuditReport
  report id postings state =
      let balance = state_balance state in
      let verification = verify_chain platform.sha256 (map chain_entry postings) in
      record {
        account_id = id;
        posting_count = length postings;
        balance = balance;
        chain_valid = verification.valid;
        head_matches = option_eq (hash_field (last postings)) (state_chain_hash state);
        reconciled =
            eq_ℤ (sum_from (pos 0) postings) balance
            && eq_ℤ balance (balance_after_field (last postings));
        broken_at_seq = seq_at postings verification.broken_at_index;
      }

  abbrev verify_found :
      String → Option Account → Action (Result AccountAuditReport VerifyAccountError)
  verify_found id none = pure (err unknown_account)
  verify_found id (some account) = do
    postings ← postings_for_account platform (account_id id)
    state ← account_state platform (account_id id)
    pure (ok (report account.id.value postings state))

  -- `verifyAccount`
  unfoldable pub verify_account : String → Action (Result AccountAuditReport VerifyAccountError)
  verify_account id = do account ← find_by_id platform (account_id id); verify_found id account

  -- `verifyConservation`
  unfoldable pub verify_conservation : Action ConservationReport
  verify_conservation = do totals ← conservation_by_currency; pure (conservation_report totals)
