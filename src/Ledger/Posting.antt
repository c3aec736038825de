-- ===== src/Ledger/Posting.antt =====
-- LedgerPoster.post against the ledger's invariant.
use miniledger.Base.{
  ℕ, suc, ◌+◌, pos, zero-+ℤ, ◌≡◌, sym, ap, ◌∙◌, inl, inr, String, Option, some, List, [], ◌∷◌, ◌++◌,
  length, select-append, find, All, All-append, lookup, ◌==◌, option_eq, eq_self, subst, Bool-cases,
}
use miniledger.Kernel.Currency.{Currency}
use miniledger.Domain.Journal.{Posting, JournalTransaction}
use miniledger.Domain.Journal.Laws.{amount_sum}
use miniledger.Persistence.Store.{
  Db, AccountRow, LockedBalance, PostingRow, TransactionRow, OutboxRow, TransferReceipt,
}
use miniledger.Persistence.Platform.{Platform, IsCanonical}
use miniledger.Persistence.Balances.{contains}
use miniledger.Persistence.Balances.Laws.{write_all}
use miniledger.Persistence.Balances.Locks.{
  IsLocked, lock_for_update-IsLocked, lock_for_update_outside,
}
use miniledger.Persistence.Journals.{PostingLine, to_posting_rows}
use miniledger.Persistence.Journals.Laws.{rows-IsCanonical}
use miniledger.Persistence.Audit.{currency_of}
use miniledger.Application.Poster.{PostOptions, nobody, floor_of, receipt_of}
use miniledger.Application.Poster.Running.{
  run_postings-Linked, run_postings-Above, run_postings-IsDistinct, length-run_postings,
}
use miniledger.Application.Poster.Lookups.{values, check_accounts-floor}
use miniledger.Application.Poster.Effect.{Posts, involved, ids-IsCanonical}
use miniledger.Ledger.Chain.{Linked, Linked-append, Above, rows_for}
use miniledger.Ledger.Order.{Ascending-append, to_posting_rows-Ascending}
use miniledger.Ledger.Totals.{
  IsBalanced-append, AreKnown, has_transaction-append, has_transaction-last, total_in,
  total_in-append, total_in-transactions, total_in-to_posting_rows, if_same,
}
use miniledger.Ledger.Invariant.{
  AreLinked, AreAbove, IsLedger, Moves, Written, Written-Moves, write_all-Written,
}

-- The rows of a transaction are known once it is stored.
AreKnown-append :
    (id currency : String) (reversed : Option String) (now seq : ℕ) (old : List TransactionRow)
    (ps : List Posting) (lines : List PostingLine)
    → AreKnown
        (old ++ record { id = id; currency = currency; reverses_transaction_id = reversed } ∷ [])
        (to_posting_rows id now seq ps lines)
unfolding to_posting_rows
AreKnown-append id currency reversed now seq old [] lines = tt
AreKnown-append id currency reversed now seq old (p ∷ ps) [] = tt
AreKnown-append id currency reversed now seq old (p ∷ ps) (line ∷ lines) = (
  has_transaction-last (record { id = id; currency = currency; reverses_transaction_id = reversed })
      old (eq_self id),
  AreKnown-append id currency reversed now (suc seq) old ps lines,
)

AreKnown-transactions :
    (rows more : List TransactionRow) (ps : List PostingRow)
    → AreKnown rows ps
    → AreKnown (rows ++ more) ps
AreKnown-transactions rows more [] k = tt
AreKnown-transactions rows more (p ∷ ps) k =
    (has_transaction-append p.transaction_id rows more k.0, AreKnown-transactions rows more ps k.1)

module _ (platform : Platform) (now : ℕ) (journal : JournalTransaction) (currency : Currency)
    (options : PostOptions) (db : Db) {receipt : TransferReceipt} {db' : Db}
    (c : All (λ p. IsCanonical platform p.account_id.value) journal.postings)
    (p : Posts platform now journal currency options db receipt db') where
  abbrev new_rows : List PostingRow
  new_rows = to_posting_rows journal.id.value now db.next_seq journal.postings p.lines

  locks : IsLocked platform db.balances p.locked
  locks =
      lock_for_update-IsLocked platform (involved journal) db {m = p.locked}
        (ids-IsCanonical platform journal.postings c) p.locked_eq

  links :
      (a : String)
      → Linked platform.sha256 (lookup a p.locked) (rows_for a new_rows) (lookup a p.running)
  links a =
      run_postings-Linked platform currency p.maps.floors journal.id.value now db.next_seq a
        journal.postings p.locked p.run

  written : (a : String) → Written platform a db.balances p.locked p.running (rows_for a new_rows)
  written a =
      write_all-Written platform a db.balances p.locked p.running (rows_for a new_rows) locks
        (run_postings-IsDistinct platform currency p.maps.floors journal.id.value journal.postings
          p.locked p.run locks.distinct)
        (links a)

  -- The state of one account before and after, and its new rows.
  pub account-Moves :
      (a : String)
      → Moves platform
          (lookup a db.balances)
          (rows_for a new_rows)
          (lookup a (write_all p.running db.balances))
  account-Moves a =
      Written-Moves platform a db.balances p.locked p.running (rows_for a new_rows) (links a)
        (written a)

  AreLinked-Posts :
      AreLinked platform db.postings db.balances
      → AreLinked platform (db.postings ++ new_rows) (write_all p.running db.balances)
  AreLinked-Posts linked a =
      let (moved, start) = account-Moves a in
      rw (select-append (λ q. q.account_id == a) db.postings new_rows, start)
        (Linked-append platform.sha256 _ _ _ (rows_for a db.postings) (rows_for a new_rows)
          (linked a) moved)

  -- An account that is locked is among those whose floor was read.
  floor-Posts :
      (a : String) (row : AccountRow) {s : LockedBalance}
      → find (λ r. r.id == a) db.accounts ≡ some row
      → lookup a p.locked ≡ some s
      → lookup a p.maps.floors ≡ some row.overdraft_floor
  floor-Posts a row e here = elim (Bool-cases (contains a (values (involved journal)))) [
    | inl asked ↦
        check_accounts-floor platform currency db a row (involved journal) p.found nobody
          {maps' = p.maps} e p.fetched p.checked (inl asked)
    | inr other ↦ cc (
      here,
      lock_for_update_outside platform a (involved journal) db {m = p.locked} other p.locked_eq,
    )
  ]

  AreAbove-Posts :
      AreAbove platform db.accounts db.balances
      → AreAbove platform db.accounts (write_all p.running db.balances)
  AreAbove-Posts above a row floor e f = elim (written a) [
    | inl (nothing, same) ↦ rw same (above a row floor e f)
    | inr (s, s', here, before, after, new) ↦
        let start : Above floor (lookup a p.locked) =
          subst (Above floor) (before ∙ sym here) (above a row floor e f) in
        subst (Above floor) (after ∙ sym new) (
          run_postings-Above platform currency p.maps.floors journal.id.value a {floor = floor}
            journal.postings p.locked (ap floor_of (floor-Posts a row {s = s} e here) ∙ f) p.run
            start)
  ]

  lines-length : length p.lines ≡ length journal.postings
  lines-length =
      length-run_postings platform currency p.maps.floors journal.id.value journal.postings p.locked
        p.run

  abbrev event : OutboxRow
  event = record {
    type = options.event_type;
    payload = receipt_of platform journal currency p.lines;
  }

  abbrev new_transaction : TransactionRow
  new_transaction = record {
    id = journal.id.value;
    currency = p.appends.currency;
    reverses_transaction_id = p.appends.reversed;
  }

  -- The tables after the call.
  abbrev pub after : Db
  after = record db {
    balances = write_all p.running db.balances;
    transactions = db.transactions ++ new_transaction ∷ [];
    postings = db.postings ++ new_rows;
    next_seq = db.next_seq + length new_rows;
    outbox = db.outbox ++ event ∷ [];
  }

  pub after-eq : after ≡ db'
  after-eq =
      let finish : Db → Db = λ m. record m {
        balances = write_all p.running m.balances;
        outbox = m.outbox ++ event ∷ [];
      } in
      ap finish p.appends.written ∙ p.written

  conserved-Posts :
      amount_sum journal.postings ≡ pos 0
      → IsLedger platform db
      → (currency : String) → total_in after.transactions currency after.postings ≡ pos 0
  conserved-Posts zero l currency =
      total_in-append currency after.transactions db.postings new_rows
      ∙ rw
          (
            total_in-transactions currency db.transactions (new_transaction ∷ []) db.postings
                l.known,
            l.conserved currency,
            total_in-to_posting_rows currency after.transactions journal.id.value now db.next_seq
                journal.postings p.lines lines-length,
            zero,
            if_same (option_eq (currency_of after.transactions journal.id.value) (some currency))
                (pos 0),
          )
          (zero-+ℤ (pos 0))

  -- A call of `post` with a balanced transaction keeps the invariant.
  pub IsLedger-Posts :
      amount_sum journal.postings ≡ pos 0 → IsLedger platform db → IsLedger platform db'
  IsLedger-Posts zero l = subst (IsLedger platform) after-eq (record {
    linked = AreLinked-Posts l.linked;
    above = AreAbove-Posts l.above;
    balanced =
        IsBalanced-append journal.id.value now db.next_seq db.postings journal.postings p.lines
          lines-length zero l.balanced;
    known =
        All-append _ db.postings new_rows
          (AreKnown-transactions db.transactions (new_transaction ∷ []) db.postings l.known)
          (AreKnown-append journal.id.value p.appends.currency p.appends.reversed now db.next_seq
            db.transactions journal.postings p.lines);
    conserved = conserved-Posts zero l;
    ascending =
        Ascending-append 0 db.next_seq (db.next_seq + length new_rows) db.postings new_rows
          l.ascending
          (to_posting_rows-Ascending journal.id.value now db.next_seq journal.postings p.lines);
    canonical =
        All-append _ db.postings new_rows l.canonical
          (rows-IsCanonical platform journal.id.value now db.next_seq journal.postings p.lines c);
  })
