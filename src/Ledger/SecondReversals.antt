-- ===== src/Ledger/SecondReversals.antt =====
-- Reversing a transaction again.
use miniledger.Base.{
  ℕ, ◌≡◌, refl, sym, ap, ◌∙◌, String, true, Option, none, some, List, [], ◌∷◌, ◌++◌, map, find, ok,
  err, ◌==◌, option_eq_self, subst, arith, All,
}
use miniledger.Kernel.Currency
use miniledger.Kernel.Currency.{Currency}
use miniledger.Domain.Ids.{TransactionId}
use miniledger.Domain.Journal
use miniledger.Domain.Journal.{Posting, JournalTransaction}
use miniledger.Domain.Journal.Laws.{IsLeg, create-IsBooked, create_complete}
use miniledger.Persistence.Store.{Db, TransactionRow, TransferReceipt}
use miniledger.Persistence.Platform.{Platform, IsCanonical}
use miniledger.Persistence.Action.{◌>>=◌, pure, gets, throw_if, unless_missing, with_transaction}
use miniledger.Persistence.Journals.{original_posting, has_reversal_of, has_reversal}
use miniledger.Persistence.Journals.Laws.{Reads}
use miniledger.Application.Reversals.{already_reversed, opposite_legs, post_reversal, reverse}
use miniledger.Application.Reversals.Outcome.{originals, Reverses, reverse-Reverses, begun}
use miniledger.Ledger.Totals.{rows_of}
use miniledger.Ledger.Invariant.{IsLedger}
use miniledger.Ledger.Posting.{after-eq}
use miniledger.Ledger.History.{Posts-Extends, Later, Later-IsLedger, Later-Extends}
use miniledger.Ledger.Reversals.{
  found_id, reversal_options, Reverses-Compensates, reverse-IsLedger, originals-eq,
}

has_reversal_of-last :
    (key : String) (rows : List TransactionRow) (row : TransactionRow)
    → row.reverses_transaction_id ≡ some key
    → has_reversal_of (rows ++ row ∷ []) key ≡ true
has_reversal_of-last key [] row h = rw (h, option_eq_self (some key))
has_reversal_of-last key (r ∷ rows) row h = ground (arith, has_reversal_of-last key rows row h)

-- Postings that can be booked under one id can be booked under another.
create-other :
    (id other : TransactionId) (ps : List Posting) {j : JournalTransaction}
    → Journal.create id ps ≡ ok (ok j)
    → (k : JournalTransaction) × (Journal.create other ps ≡ ok (ok k))
create-other id other [] {j} h = absurd ((create-IsBooked id [] {j = j} h).nonempty refl)
create-other id other (p ∷ ps) {j} h =
    let booked = create-IsBooked id (p ∷ ps) {j = j} h in
    (
      record { id = other; currency = p.amount.currency; postings = p ∷ ps },
      create_complete other p ps
          (subst (λ c. All (IsLeg c) (p ∷ ps)) (sym booked.legs.0.0) booked.legs) booked.balanced,
    )

module _ (platform : Platform) where
  Reads-some :
      (t key : String) (reversed : Option String)
      → platform.uuid t ≡ some key
      → Reads platform (some t) reversed
      → reversed ≡ some key
  Reads-some t key none e r = absurd r
  Reads-some t key (some s) e r = sym r ∙ e

  -- A stored and compensable transaction that has been reversed is refused.
  reversed-refused :
      (now : ℕ) (id : TransactionId) (t : String) (db : Db) {key : String} {row : TransactionRow}
      {currency : Currency} {journal : JournalTransaction}
      → platform.uuid t ≡ some key
      → find (λ r. r.id == key) db.transactions ≡ some row
      → Currency.of row.currency ≡ ok currency
      → Journal.create id (opposite_legs currency (originals platform now id t db row.id))
        ≡ ok (ok journal)
      → has_reversal_of db.transactions key ≡ true
      → reverse platform now id t db ≡ (ok (err already_reversed), db)
  unfolding with_transaction post_reversal has_reversal ◌>>=◌ unless_missing gets throw_if pure
  reversed-refused now id t db {key} {row} {currency} {journal} read found known built reversed =
      begun platform now id t db {key = key} {row = row} {currency = currency} {journal = journal}
        read found known built
      ∙ rw (read, reversed)

  module _ (now : ℕ) (id : TransactionId) (t : String) (db : Db) (l : IsLedger platform db)
      (spelled : IsCanonical platform id.value) where
    -- The tables after a reversal: the transaction and its postings as before, and reversed.
    record StillThere (key : String) (row : TransactionRow) (db' : Db) : Type 0 where
      pub found : find (λ r. r.id == key) db'.transactions ≡ some row
      pub rows : rows_of key db'.postings ≡ rows_of key db.postings
      pub reversed : has_reversal_of db'.transactions key ≡ true

    Compensates-StillThere :
        {r : TransferReceipt} {db' : Db} (s : Reverses platform now id t db r db')
        → StillThere s.key s.row db'
    Compensates-StillThere {r} {db'} s =
        let c = Reverses-Compensates platform now id t db l spelled s in
        let a = c.posts.appends in
        let state =
          after-eq platform now c.journal c.currency (reversal_options t) db c.canonical c.posts in
        let more =
          Posts-Extends platform now c.journal c.currency (reversal_options t) db c.canonical
            c.posts in
        let marked = Reads-some t s.key a.reversed s.key_eq a.reversed_eq in
        record {
          found = more.found s.key s.found;
          rows = more.rows s.key {row = s.row} s.found;
          reversed =
              ap (λ d. has_reversal_of d.transactions s.key) (sym state)
              ∙ has_reversal_of-last s.key db.transactions _ marked;
        }

    Later-StillThere :
        (key : String) (row : TransactionRow) {db' db2 : Db}
        → IsLedger platform db'
        → Later platform db' db2
        → StillThere key row db'
        → StillThere key row db2
    Later-StillThere key row kept calls there =
        let more = Later-Extends platform calls kept in
        record {
          found = more.found key there.found;
          rows = more.rows key {row = row} there.found ∙ there.rows;
          reversed = more.reversed key there.reversed;
        }

    -- On tables that satisfy the invariant, after a reversal that returned a receipt and any later
    -- calls of open, transfer (between accounts spelled as the database spells them) and reverse,
    -- every further reversal of that transaction, at any time and with the id in any spelling, is
    -- refused as already reversed and writes nothing.
    pub reverse-reverse :
        {r : TransferReceipt} {db' db2 : Db} (later : ℕ) (other : TransactionId) (t' : String)
        → reverse platform now id t db ≡ (ok (ok r), db')
        → Later platform db' db2
        → platform.uuid t' ≡ platform.uuid t
        → reverse platform later other t' db2 ≡ (ok (err already_reversed), db2)
    reverse-reverse {r} {db'} {db2} later other t' h calls same =
        let s = reverse-Reverses platform now id t db h in
        let first : IsLedger platform db' =
          subst (IsLedger platform) (ap (λ p. p.1) h)
            (reverse-IsLedger platform now id t db l spelled) in
        let kept = Later-IsLedger platform calls first in
        let there = Later-StillThere s.key s.row first calls (Compensates-StillThere s) in
        let key_eq = found_id s.key db.transactions {row = s.row} s.found in
        let same_rows : rows_of s.row.id db2.postings ≡ rows_of s.row.id db.postings =
          rw key_eq there.rows in
        let (k, built) = create-other id other _ {j = s.journal} s.built in
        let same_originals : originals platform now id t db2 s.row.id
            ≡ originals platform now id t db s.row.id =
          originals-eq platform now id t db2 kept spelled s.row.id
          ∙ ap (map original_posting) same_rows
          ∙ sym (originals-eq platform now id t db l spelled s.row.id) in
        let rebuilt : Journal.create other
              (opposite_legs s.currency (originals platform now id t db2 s.row.id))
            ≡ ok (ok k) =
          subst (λ os. Journal.create other (opposite_legs s.currency os) ≡ ok (ok k))
            (sym same_originals) built in
        reversed-refused later other t' db2 {key = s.key} {row = s.row} {currency = s.currency}
          {journal = k} (same ∙ s.key_eq) there.found s.currency_eq rebuilt there.reversed
