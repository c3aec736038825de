-- ===== src/Ledger/History.antt =====
-- What is booked stays as it is: the stored transactions, their postings and their reversals, through
-- any calls of the services.
use miniledger.Base.{
  ℕ, ℤ, suc, ◌≡◌, refl, sym, ap, ◌∙◌, inl, inr, String, true, false, Option, none, some, List, [],
  ◌∷◌, ◌++◌, All, find, select-append, ◌==◌, eq_iff, Bool-cases, subst, arith,
}
use miniledger.Kernel.Currency.{Currency}
use miniledger.Domain.Ids.{AccountId, TransactionId}
use miniledger.Domain.Journal.{Posting, JournalTransaction}
use miniledger.Persistence.Store.{Db, TransactionRow, PostingRow, TransferReceipt}
use miniledger.Persistence.Platform.{Platform, IsCanonical}
use miniledger.Persistence.Journals.{PostingLine, has_transaction, has_reversal_of, to_posting_rows}
use miniledger.Application.Poster.{PostOptions}
use miniledger.Application.Poster.Effect.{Posts}
use miniledger.Ledger.Accounts.{open_account-cases}
use miniledger.Application.Accounts.{OpenAccountInput, open_account}
use miniledger.Application.Transfers.{TransferInput, key_of, fingerprint, transfer}
use miniledger.Application.Transfers.Cases.{journal_of}
use miniledger.Application.Transfers.Effect.{Runs, transfer_options, with_claim}
use miniledger.Application.Transfers.Outcome.{transfer-outcome}
use miniledger.Application.Reversals.{reverse}
use miniledger.Application.Reversals.Outcome.{reverse-outcome}
use miniledger.Ledger.Totals.{rows_of}
use miniledger.Ledger.Invariant.{IsLedger}
use miniledger.Ledger.Posting.{after-eq}
use miniledger.Ledger.Transfers.{IsSpelled, Succeeds-Runs, canonical_legs}
use miniledger.Ledger.Reversals.{reversal_options, Reverses-Compensates}
use miniledger.Ledger.Reachable.{Step, opens, transfers, reverses, Step-IsLedger}

find-append-some :
    (key : String) (rows more : List TransactionRow) {row : TransactionRow}
    → find (λ r. r.id == key) rows ≡ some row
    → find (λ r. r.id == key) (rows ++ more) ≡ some row
find-append-some key [] more h = cc h
find-append-some key (r ∷ rows) more {row} h =
    ground (arith, find-append-some key rows more {row = row})

rows_of-other :
    (t id : String) (now seq : ℕ) (ps : List Posting) (lines : List PostingLine)
    → (id == t) ≡ false
    → rows_of t (to_posting_rows id now seq ps lines) ≡ []
unfolding to_posting_rows
rows_of-other t id now seq [] lines h = refl
rows_of-other t id now seq (p ∷ ps) [] h = refl
rows_of-other t id now seq (p ∷ ps) (line ∷ lines) h =
    rw h (rows_of-other t id now (suc seq) ps lines h)

append-nil : (xs : List PostingRow) → xs ++ [] ≡ xs
append-nil [] = refl
append-nil (x ∷ xs) = ap (λ ys. x ∷ ys) (append-nil xs)

has_reversal_of-append :
    (key : String) (rows more : List TransactionRow)
    → has_reversal_of rows key ≡ true
    → has_reversal_of (rows ++ more) key ≡ true
has_reversal_of-append key [] more h = cc h
has_reversal_of-append key (r ∷ rows) more h = ground (arith, has_reversal_of-append key rows more)

-- The transactions and their postings as before, and what was reversed still is.
pub record Extends (db db' : Db) : Type 0 where
  pub found :
      (key : String) {row : TransactionRow}
      → find (λ r. r.id == key) db.transactions ≡ some row
      → find (λ r. r.id == key) db'.transactions ≡ some row
  pub rows :
      (key : String) {row : TransactionRow}
      → find (λ r. r.id == key) db.transactions ≡ some row
      → rows_of key db'.postings ≡ rows_of key db.postings
  pub reversed :
      (key : String)
      → has_reversal_of db.transactions key ≡ true
      → has_reversal_of db'.transactions key ≡ true

-- The same transactions and postings.
same-Extends :
    (db db' : Db) → db.transactions ≡ db'.transactions → db.postings ≡ db'.postings → Extends db db'
same-Extends db db' ts ps = record {
  found = λ key {row} h. subst (λ ts. find (λ r. r.id == key) ts ≡ some row) ts h;
  rows = λ key h. ap (rows_of key) (sym ps);
  reversed = λ key h. subst (λ ts. has_reversal_of ts key ≡ true) ts h;
}

Extends-trans : (a b c : Db) → Extends a b → Extends b c → Extends a c
Extends-trans a b c e f = record {
  found = λ key h. f.found key (e.found key h);
  rows = λ key h. f.rows key (e.found key h) ∙ e.rows key h;
  reversed = λ key h. f.reversed key (e.reversed key h);
}

unlike :
    (db : Db) (key new : String) {row : TransactionRow}
    → find (λ r. r.id == key) db.transactions ≡ some row
    → has_transaction db.transactions new ≡ false
    → (new == key) ≡ false
unlike db key new {row} found fresh = elim (Bool-cases (new == key)) [
  | inr other ↦ other
  | inl same ↦
      let here : find (λ r. r.id == new) db.transactions ≡ some row =
        rw ((eq_iff new key).0 same) found in
      cc (rw here at fresh)
]

module _ (platform : Platform) where
  pub Posts-Extends :
      (now : ℕ) (journal : JournalTransaction) (currency : Currency) (options : PostOptions)
      (db : Db) {receipt : TransferReceipt} {db' : Db}
      → All (λ p. IsCanonical platform p.account_id.value) journal.postings
      → Posts platform now journal currency options db receipt db'
      → Extends db db'
  Posts-Extends now journal currency options db {receipt} {db'} c p =
      let new = to_posting_rows journal.id.value now db.next_seq journal.postings p.lines in
      subst (Extends db) (after-eq platform now journal currency options db c p) (record {
        found = λ key {row} h. find-append-some key db.transactions _ {row = row} h;
        rows = λ key {row} h.
            select-append (λ p. p.transaction_id == key) db.postings new
            ∙ ap (λ x. rows_of key db.postings ++ x)
                (rows_of-other key journal.id.value now db.next_seq journal.postings p.lines
                  (unlike db key journal.id.value {row = row} h p.appends.fresh))
            ∙ append-nil (rows_of key db.postings);
        reversed = λ key h. has_reversal_of-append key db.transactions _ h;
      })

  Runs-Extends :
      (now : ℕ) (id : TransactionId) (input : TransferInput) (db : Db)
      → IsSpelled platform id input
      → (amount : ℤ) (currency : Currency) (key : Option String) (print : String)
        (r : Option TransferReceipt) {db' : Db}
      → Runs platform now
          (journal_of id input amount currency)
          currency
          input.owner_id
          key
          print
          db
          r
          db'
      → Extends db db'
  Runs-Extends now id input db spelled amount currency none print r u =
      Posts-Extends now (journal_of id input amount currency) currency
        (transfer_options input.owner_id) db
        (canonical_legs platform now id input db spelled amount currency) u.posts
  Runs-Extends now id input db spelled amount currency (some key) print r (inl replayed) =
      subst (Extends db) replayed.unchanged (same-Extends db db refl refl)
  Runs-Extends now id input db spelled amount currency (some key) print r {db'} (inr k) =
      let posted =
        Posts-Extends now (journal_of id input amount currency) currency
          (transfer_options input.owner_id) (with_claim key print db)
          (canonical_legs platform now id input db spelled amount currency) k.posts in
      let claimed = same-Extends db (with_claim key print db) refl refl in
      let kept =
        same-Extends k.middle db' (ap (λ d. d.transactions) k.written)
          (ap (λ d. d.postings) k.written) in
      Extends-trans db (with_claim key print db) db' claimed
        (Extends-trans (with_claim key print db) k.middle db' posted kept)

  transfer-Extends :
      (now : ℕ) (id : TransactionId) (input : TransferInput) (db : Db)
      → IsSpelled platform id input
      → Extends db (transfer platform now id input db).1
  transfer-Extends now id input db spelled = elim (transfer-outcome platform now id input db) [
    | inr (kept, refused) ↦ subst (Extends db) (sym kept) (same-Extends db db refl refl)
    | inl (r, db', s, result) ↦ subst (Extends db) (sym (ap (λ p. p.1) result)) (
        Runs-Extends now id input db spelled s.amount s.currency (key_of input.idempotency_key)
          (fingerprint platform input) r (Succeeds-Runs platform now id input db spelled s))
  ]

  reverse-Extends :
      (now : ℕ) (id : TransactionId) (t : String) (db : Db)
      → IsLedger platform db
      → IsCanonical platform id.value
      → Extends db (reverse platform now id t db).1
  reverse-Extends now id t db l spelled = elim (reverse-outcome platform now id t db) [
    | inr (kept, refused) ↦ subst (Extends db) (sym kept) (same-Extends db db refl refl)
    | inl (r, db', s, result) ↦
        let c = Reverses-Compensates platform now id t db l spelled s in
        subst (Extends db) (sym (ap (λ p. p.1) result))
          (Posts-Extends now c.journal c.currency (reversal_options t) db c.canonical c.posts)
  ]

  open_account-Extends :
      (now : ℕ) (id : AccountId) (input : OpenAccountInput) (db : Db)
      → Extends db (open_account platform now id input db).1
  open_account-Extends now id input db = elim (open_account-cases platform now id input db) [
    | inl kept ↦ subst (Extends db) (sym kept) (same-Extends db db refl refl)
    | inr (currency, key, code, known, coded, opening) ↦
        same-Extends db _ (ap (λ d. d.transactions) opening.written)
          (ap (λ d. d.postings) opening.written)
  ]

  Step-Extends : {db db' : Db} → Step platform db db' → IsLedger platform db → Extends db db'
  Step-Extends (opens now id input db) l = open_account-Extends now id input db
  Step-Extends (transfers now id input db spelled) l = transfer-Extends now id input db spelled
  Step-Extends (reverses now id t db spelled) l = reverse-Extends now id t db l spelled

  -- What the tables are after any number of calls.
  pub data Later : Db → Db → Type 0 where
    at_once : {db : Db} → Later db db
    next : {db db' db'' : Db} → Later db db' → Step platform db' db'' → Later db db''

  pub Later-IsLedger : {db db' : Db} → Later db db' → IsLedger platform db → IsLedger platform db'
  Later-IsLedger at_once l = l
  Later-IsLedger (next before step) l = Step-IsLedger platform step (Later-IsLedger before l)

  pub Later-Extends : {db db' : Db} → Later db db' → IsLedger platform db → Extends db db'
  Later-Extends {db} at_once l = same-Extends db db refl refl
  Later-Extends {db} {db'} (next {db' = mid} before step) l =
      Extends-trans db mid db' (Later-Extends before l)
        (Step-Extends step (Later-IsLedger before l))
