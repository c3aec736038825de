-- ===== src/Tests/Ledger.antt =====
-- The theorems on the ledger, on the tables that the tests run.
use miniledger.Base.{pos, ◌≡◌, refl, sym, ◌∙◌, true, none, some, [], ◌∷◌, lookup, ok, arith}
use miniledger.Domain.Ids.{account_id, transaction_id}
use miniledger.Domain.Account.{Account, open_user}
use miniledger.Persistence.Store.{Db, KeyRow, TransferReceipt}
use miniledger.Application.Audits
use miniledger.Application.Audits.{AccountAuditReport, ConservationReport, state_balance}
use miniledger.Application.Transfers
use miniledger.Application.Transfers.{TransferInput, fingerprint, transfer}
use miniledger.Application.Transfers.Outcome as TransferOutcome
use miniledger.Application.Transfers.Retries.{answer, transfer-kept}
use miniledger.Application.Reversals.{reverse}
use miniledger.Application.Reversals.Outcome as ReversalOutcome
use miniledger.Ledger.Invariant.{IsLedger}
use miniledger.Ledger.Reachable.{Reachable, migrated, after, opens, transfers, Reachable-IsLedger}
use miniledger.Ledger.Audits.{IsClean, verify_account-IsClean, verify_conservation-conserved}
use miniledger.Ledger.Movements.{MovesOnce, transfer-MovesBy}
use miniledger.Ledger.Retries.{transfer-retry}
use miniledger.Ledger.Reversals.{MovesBack, reverse-MovesBy}
use miniledger.Ledger.Listing.{Lists, list_visible-Lists}
use miniledger.Tests.{code, try_platform, start, with_alice, with_bob, request, funded, moved}

abbrev funding : TransferInput
funding = request "usd" "alice" "100" "ann" (some "k1")

abbrev pub moving : TransferInput
moving = request "alice" "bob" "30" "ann" none

funded-Reachable : Reachable try_platform funded
unfolding code funded
funded-Reachable =
    after
      (after
        (after (migrated 0 "usd" "eur" "jpy")
          (opens 1 (account_id "alice") (record { currency = "USD"; owner_id = "ann" }) start))
        (opens 2 (account_id "bob") (record { currency = "USD"; owner_id = "ben" }) with_alice))
      (transfers 3 (transaction_id "t1") funding with_bob (refl, refl, refl))

pub funded-IsLedger : IsLedger try_platform funded
funded-IsLedger = Reachable-IsLedger try_platform funded-Reachable

moved-Reachable : Reachable try_platform moved
unfolding code moved
moved-Reachable =
    after funded-Reachable (transfers 4 (transaction_id "t2") moving funded (refl, refl, refl))

Reachable-IsLedger_example : IsLedger try_platform moved
Reachable-IsLedger_example = Reachable-IsLedger try_platform moved-Reachable

pub moved-IsLedger : IsLedger try_platform moved
moved-IsLedger = Reachable-IsLedger try_platform moved-Reachable

alice : Account
unfolding code
alice =
    open_user (account_id "alice") (record { code = some "USD"; minor_unit_scale = some 2 }) "ann" 1

verify_account-IsClean_example :
    (r : AccountAuditReport) × (Audits.verify_account try_platform "alice" moved
      ≡ (ok (ok r), moved))
    × IsClean (state_balance (lookup "alice" moved.balances)) r
unfolding code moved alice
verify_account-IsClean_example =
    verify_account-IsClean try_platform "alice" moved {a = alice} moved-IsLedger refl refl

verify_conservation-conserved_example :
    (r : ConservationReport) × (Audits.verify_conservation try_platform moved ≡ (ok r, moved))
    × (r.conserved ≡ true)
verify_conservation-conserved_example =
    verify_conservation-conserved try_platform moved moved-IsLedger

-- The receipt of the second transfer.
abbrev pub moved_receipt : TransferReceipt
moved_receipt = record {
  id = "t2";
  currency = some "USD";
  postings =
      record { account_id = "alice"; amount = "-30"; balance_after = "70" }
      ∷ record { account_id = "bob"; amount = "30"; balance_after = "30" }
      ∷ [];
}

transfer-MovesBy_example : MovesOnce try_platform moving funded moved
unfolding code moved
transfer-MovesBy_example =
    transfer-MovesBy try_platform 4 (transaction_id "t2") moving funded {r = some moved_receipt}
      {db' = moved} (refl, refl, refl) refl

abbrev funding_receipt : TransferReceipt
funding_receipt = record {
  id = "t1";
  currency = some "USD";
  postings =
      record { account_id = "usd"; amount = "-100"; balance_after = "-100" }
      ∷ record { account_id = "alice"; amount = "100"; balance_after = "100" }
      ∷ [];
}

abbrev kept_row : KeyRow
kept_row = record {
  fingerprint = "ann|usd|alice|100|USD";
  transaction_id = some "t1";
  response = some funding_receipt;
}

funding_result :
    transfer try_platform 3 (transaction_id "t1") funding with_bob
    ≡ (ok (ok (some funding_receipt)), funded)
unfolding code funded
funding_result = refl

funding_key : Transfers.key_of funding.idempotency_key ≡ some "k1"
unfolding code
funding_key = refl

kept_by_funding : lookup "k1" funded.idempotency_keys ≡ some kept_row
unfolding code funded
kept_by_funding = refl

kept_by_moving : lookup "k1" moved.idempotency_keys ≡ some kept_row
unfolding code moved
kept_by_moving = refl

-- Sent again after another transfer.
transfer-retry_example :
    transfer try_platform 9 (transaction_id "t9") funding moved
    ≡ (ok (ok (some funding_receipt)), moved)
transfer-retry_example =
    transfer-retry try_platform 3 (transaction_id "t1") funding with_bob (refl, refl, refl)
      {r = some funding_receipt} {db' = funded} {key = "k1"} 9 (transaction_id "t9") moved
      funding_key funding_result (kept_by_moving ∙ sym kept_by_funding)

-- Another amount under the same key.
transfer-kept_example :
    transfer try_platform 9
      (transaction_id "t9")
      (request "usd" "alice" "50" "ann" (some "k1"))
      moved
    ≡ (
      ok (
          answer kept_row
            (fingerprint try_platform (request "usd" "alice" "50" "ann" (some "k1")))),
      moved,
    )
unfolding code moved
transfer-kept_example =
    transfer-kept try_platform 9 (transaction_id "t9")
      (request "usd" "alice" "50" "ann" (some "k1")) moved
      {currency = record { code = some "USD"; minor_unit_scale = some 2 }} {amount = pos 50}
      {key = "k1"} {row = kept_row}
      (record { currency_eq = refl; amount_eq = refl; positive = omega arith; distinct = refl })
      refl refl

transfer-outcome_example :
    TransferOutcome.Outcome try_platform 4 (transaction_id "t2") moving funded
transfer-outcome_example =
    TransferOutcome.transfer-outcome try_platform 4 (transaction_id "t2") moving funded

reverse-outcome_example : ReversalOutcome.Outcome try_platform 5 (transaction_id "t3") "t2" moved
reverse-outcome_example =
    ReversalOutcome.reverse-outcome try_platform 5 (transaction_id "t3") "t2" moved

unfoldable pub reversed : Db
unfolding code moved
reversed = (reverse try_platform 5 (transaction_id "t3") "t2" moved).1

abbrev pub reversed_receipt : TransferReceipt
reversed_receipt = record {
  id = "t3";
  currency = some "USD";
  postings =
      record { account_id = "alice"; amount = "30"; balance_after = "100" }
      ∷ record { account_id = "bob"; amount = "-30"; balance_after = "0" }
      ∷ [];
}

reverse-MovesBy_example :
    MovesBack try_platform 5 (transaction_id "t3") "t2" moved moved-IsLedger refl reversed
unfolding code moved reversed
reverse-MovesBy_example =
    reverse-MovesBy try_platform 5 (transaction_id "t3") "t2" moved moved-IsLedger refl
      {r = reversed_receipt} {db' = reversed} refl

list_visible-Lists_example : Lists try_platform "ann" moved
list_visible-Lists_example = list_visible-Lists try_platform "ann" moved moved-Reachable
