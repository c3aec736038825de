-- ===== src/Ledger/Reachable.antt =====
-- The states that the services can bring the ledger to, one call after another.
use miniledger.Base.{
  ℕ, ◌≡◌, refl, inl, inr, String, none, some, List, [], ◌∷◌, Map, lookup, find, ◌==◌, Bool-cases,
  arith,
}
use miniledger.Domain.Ids.{AccountId, TransactionId}
use miniledger.Persistence.Store.{Db, AccountRow, LockedBalance}
use miniledger.Persistence.Platform.{Platform, IsCanonical}
use miniledger.Persistence.Balances.{opened}
use miniledger.Persistence.Genesis.{genesis}
use miniledger.Application.Accounts.{OpenAccountInput, open_account}
use miniledger.Application.Transfers.{TransferInput, transfer}
use miniledger.Application.Reversals.{reverse}
use miniledger.Ledger.Chain.{Linked}
use miniledger.Ledger.Invariant.{start_at, IsLedger}
use miniledger.Ledger.Accounts.{open_account-IsLedger}
use miniledger.Ledger.Transfers.{IsSpelled, transfer-IsLedger}
use miniledger.Ledger.Reversals.{reverse-IsLedger}

module _ (platform : Platform) where
  -- One call of a service that writes, whatever it returns.
  pub data Step : Db → Db → Type 0 where
    opens :
        (now : ℕ) (id : AccountId) (input : OpenAccountInput) (db : Db)
        → Step db (open_account platform now id input db).1
    transfers :
        (now : ℕ) (id : TransactionId) (input : TransferInput) (db : Db)
        → IsSpelled platform id input
        → Step db (transfer platform now id input db).1
    reverses :
        (now : ℕ) (id : TransactionId) (t : String) (db : Db)
        → IsCanonical platform id.value
        → Step db (reverse platform now id t db).1

  -- From the migrated tables, through any number of calls.
  pub data Reachable : Db → Type 0 where
    migrated : (now : ℕ) (usd eur jpy : String) → Reachable (genesis now usd eur jpy)
    after : {db db' : Db} → Reachable db → Step db db' → Reachable db'

  abbrev AreOpened : Map LockedBalance → Type 0
  AreOpened [] = Unit
  AreOpened ((k, s) ∷ m) = (s ≡ opened) × AreOpened m

  AreOpened-Linked :
      (a : String) (m : Map LockedBalance)
      → AreOpened m
      → Linked platform.sha256 (start_at (lookup a m)) [] (lookup a m)
  AreOpened-Linked a [] o = refl
  AreOpened-Linked a ((k, s) ∷ m) o = elim (Bool-cases (k == a)) [
    | inl same ↦ rw (same, o.0) (refl, refl)
    | inr other ↦ rw other (AreOpened-Linked a m o.1)
  ]

  abbrev HaveNoFloor : List AccountRow → Type 0
  HaveNoFloor [] = Unit
  HaveNoFloor (r ∷ rows) = (r.overdraft_floor ≡ none) × HaveNoFloor rows

  no_floor :
      (a : String) (rows : List AccountRow) {row : AccountRow}
      → HaveNoFloor rows
      → find (λ r. r.id == a) rows ≡ some row
      → row.overdraft_floor ≡ none
  no_floor a [] h e = cc e
  no_floor a (r ∷ rows) {row} h e = elim (Bool-cases (r.id == a)) [
    | inl same ↦ ground (arith, h.0)
    | inr other ↦ no_floor a rows {row = row} h.1 (rw other at e)
  ]

  genesis-IsLedger : (now : ℕ) (usd eur jpy : String) → IsLedger platform (genesis now usd eur jpy)
  genesis-IsLedger now usd eur jpy = record {
    linked = λ a. AreOpened-Linked a (genesis now usd eur jpy).balances (refl, (refl, (refl, tt)));
    above = λ a row floor e f.
        cc (
          no_floor a (genesis now usd eur jpy).accounts {row = row} (refl, (refl, (refl, tt))) e,
          f,
        );
    balanced = λ t. refl;
    known = tt;
    conserved = λ c. refl;
    ascending = omega arith;
    canonical = tt;
  }

  pub Step-IsLedger : {db db' : Db} → Step db db' → IsLedger platform db → IsLedger platform db'
  Step-IsLedger (opens now id input db) l = open_account-IsLedger platform now id input db l
  Step-IsLedger (transfers now id input db spelled) l =
      transfer-IsLedger platform now id input db spelled l
  Step-IsLedger (reverses now id t db spelled) l = reverse-IsLedger platform now id t db l spelled

  -- After any calls of the services, successful or not, every account's postings form a hash chain
  -- from its opening to its stored balance and head, no account with a floor is below it, every
  -- transaction and every currency sums to zero, and the postings stand in the order of their numbers.
  -- The ids of the transfers' accounts are spelled as the database spells them.
  pub Reachable-IsLedger : {db : Db} → Reachable db → IsLedger platform db
  Reachable-IsLedger (migrated now usd eur jpy) = genesis-IsLedger now usd eur jpy
  Reachable-IsLedger (after r s) = Step-IsLedger s (Reachable-IsLedger r)
