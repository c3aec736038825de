-- ===== src/Persistence/Journals/Laws.antt =====
-- What a successful append leaves in the tables.
use miniledger.Base.{
  ℕ, suc, ◌+◌, pos, eq_ℤ, ◌≡◌, sym, ◌∙◌, ◌≢◌, inl, inr, String, true, false, ◌&&◌, Option, none,
  some, List, [], ◌∷◌, ◌++◌, length, All, ok, arith, Bool-cases, Result-cases, subst, ok-injective,
  some-eq-some,
}
use miniledger.Domain.Journal.{Posting, JournalTransaction}
use miniledger.Persistence.Store.{Db, TransactionRow, PostingRow, AccountRow, fits_int8}
use miniledger.Persistence.Platform.{Platform, IsCanonical}
use miniledger.Persistence.Action.{◌>>=◌, ◌>>◌, gets}
use miniledger.Persistence.Action.Laws.{
  bind-ok, throw_if-then, unless_missing-then, lift-then, gets-then, modify-ok, pure-ok,
}
use miniledger.Persistence.Journals.{
  PostingLine, parse_optional, has_transaction, has_account, insert_transaction, to_posting_rows,
  check_row, store_row, store_rows, insert_postings, append,
}

-- What the constraints of the table give for a stored row.
pub record IsStorable (accounts : List AccountRow) (row : PostingRow) : Type 0 where
  pub nonzero : row.amount ≢ pos 0
  pub known : has_account accounts row.account_id ≡ true
  pub amount_fits : fits_int8 row.amount ≡ true
  pub balance_fits : fits_int8 row.balance_after ≡ true

check_row-ok :
    (accounts : List AccountRow) (row : PostingRow) {stored : PostingRow}
    → check_row accounts row.account_id row ≡ ok stored
    → (row ≡ stored) × IsStorable accounts row
unfolding check_row
check_row-ok accounts row {stored} h =
    elim (Bool-cases (fits_int8 row.amount && fits_int8 row.balance_after)) [
      | inr wide ↦ cc (rw (wide, check_row) at h)
      | inl fits ↦ elim (Bool-cases (eq_ℤ row.amount (pos 0))) [
        | inl null ↦ cc (rw (fits, null, check_row) at h)
        | inr some_amount ↦ elim (Bool-cases (has_account accounts row.account_id)) [
          | inr foreign ↦ cc (rw (fits, some_amount, foreign, check_row) at h)
          | inl known ↦ (
            ok-injective (rw (fits, some_amount, known, check_row) at h),
            record {
              nonzero = λ e. cc (rw e at some_amount);
              known = known;
              amount_fits = ground arith;
              balance_fits = ground arith;
            },
          )
        ]
      ]
    ]

-- The state after an insert into `journal_transactions`, and what its constraints give.
pub insert_transaction-ok :
    (row : TransactionRow) (db : Db) {db' : Db}
    → insert_transaction row db ≡ (ok tt, db')
    → (record db { transactions = db.transactions ++ row ∷ [] } ≡ db')
      × (has_transaction db.transactions row.id ≡ false)
unfolding insert_transaction
insert_transaction-ok row db h =
    let h0 = gets-then _ _ db h in
    let (fresh, h1) = throw_if-then _ _ _ db h0 in
    let (unreversed, h2) = throw_if-then _ _ _ db h1 in
    let (known, h3) = throw_if-then _ _ _ db h2 in (modify-ok _ db h3, fresh)

module _ (platform : Platform) where
  store_row_canonical :
      (accounts : List AccountRow) (row : PostingRow) {stored : PostingRow}
      → IsCanonical platform row.account_id
      → store_row platform accounts row ≡ ok stored
      → (row ≡ stored) × IsStorable accounts row
  unfolding store_row
  store_row_canonical accounts row {stored} c h =
      check_row-ok accounts row {stored = stored} (rw (c, store_row) at h)

  -- Rows with canonical accounts are stored as they are.
  pub store_rows_canonical :
      (accounts : List AccountRow) (rows : List PostingRow) {stored : List PostingRow}
      → All (λ row. IsCanonical platform row.account_id) rows
      → store_rows platform accounts rows ≡ ok stored
      → (rows ≡ stored) × All (IsStorable accounts) rows
  unfolding store_rows
  store_rows_canonical accounts [] c h = (ok-injective h, tt)
  store_rows_canonical accounts (row ∷ rows) {stored} c h =
      elim (Result-cases (store_row platform accounts row)) [
        | inr (e, failed) ↦ cc (rw (failed, store_rows) at h)
        | inl (first, kept) ↦ elim (Result-cases (store_rows platform accounts rows)) [
          | inr (e, failed) ↦ cc (rw (kept, failed, store_rows) at h)
          | inl (more, all_kept) ↦
              let (same, storable) = store_row_canonical accounts row {stored = first} c.0 kept in
              let (rest, others) =
                store_rows_canonical accounts rows {stored = more} c.1 all_kept in
              (
                rw (same, rest) (ok-injective (rw (kept, all_kept, store_rows) at h)),
                (storable, others),
              )
        ]
      ]

  pub rows-IsCanonical :
      (id : String) (now seq : ℕ) (ps : List Posting) (lines : List PostingLine)
      → All (λ p. IsCanonical platform p.account_id.value) ps
      → All (λ row. IsCanonical platform row.account_id) (to_posting_rows id now seq ps lines)
  unfolding to_posting_rows
  rows-IsCanonical id now seq [] lines c = tt
  rows-IsCanonical id now seq (p ∷ ps) [] c = tt
  rows-IsCanonical id now seq (p ∷ ps) (line ∷ lines) c =
      (c.0, rows-IsCanonical id now (suc seq) ps lines c.1)

  -- The column of an optional UUID parameter.
  abbrev pub Reads : Option String → Option String → Type 0
  Reads none none = Unit
  Reads none (some t) = ⊥
  Reads (some s) none = ⊥
  Reads (some s) (some t) = platform.uuid s ≡ some t

  parse_optional-ok :
      (o : Option String) (db : Db) {t : Option String} {db' : Db}
      → parse_optional platform o db ≡ (ok t, db')
      → (db ≡ db') × Reads o t
  parse_optional-ok none db h = let (e, same) = pure-ok none db h in (same, subst (Reads none) e tt)
  parse_optional-ok (some s) db h =
      let (id, read, h1) = unless_missing-then _ _ _ db h in
      let (e, same) = pure-ok (some id) db h1 in (same, subst (Reads (some s)) e read)

  insert_postings-ok :
      (rows : List PostingRow) (db : Db) {db' : Db}
      → All (λ row. IsCanonical platform row.account_id) rows
      → insert_postings platform rows db ≡ (ok tt, db')
      → (record db { postings = db.postings ++ rows; next_seq = db.next_seq + length rows } ≡ db')
        × All (IsStorable db.accounts) rows
  unfolding insert_postings
  insert_postings-ok rows db c h =
      let h1 = gets-then _ _ db h in
      let (stored, kept, h2) = lift-then _ _ db h1 in
      let (same, storable) = store_rows_canonical db.accounts rows {stored = stored} c kept in
      (rw same (modify-ok _ db h2), storable)

  -- What `append` writes: one transaction row, and the rows of the postings in their order.
  pub record Appends (now : ℕ) (journal : JournalTransaction) (lines : List PostingLine)
      (reverses : Option String) (db db' : Db) : Type 0 where
    pub currency : String
    pub reversed : Option String
    pub reversed_eq : Reads reverses reversed
    pub currency_eq : journal.currency.code ≡ some currency
    pub fresh : has_transaction db.transactions journal.id.value ≡ false
    pub storable :
        All
          (IsStorable db.accounts)
          (to_posting_rows journal.id.value now db.next_seq journal.postings lines)
    pub written :
        record db {
          transactions =
              db.transactions
              ++ record {
                id = journal.id.value;
                currency = currency;
                reverses_transaction_id = reversed;
              }
                ∷ [];
          postings =
              db.postings
              ++ to_posting_rows journal.id.value now db.next_seq journal.postings lines;
          next_seq =
              db.next_seq
              + length (to_posting_rows journal.id.value now db.next_seq journal.postings lines);
        }
        ≡ db'

  abbrev transaction_row : JournalTransaction → String → Option String → TransactionRow
  transaction_row journal currency reversed = record {
    id = journal.id.value;
    currency = currency;
    reverses_transaction_id = reversed;
  }

  -- The inserts of `append`, once its parameters are read.
  inserted-Appends :
      (now : ℕ) (journal : JournalTransaction) (lines : List PostingLine) (reverses : Option String)
      (db : Db) (currency : String) (reversed : Option String) {db' : Db}
      → All (λ p. IsCanonical platform p.account_id.value) journal.postings
      → journal.currency.code ≡ some currency
      → Reads reverses reversed
      → (insert_transaction (transaction_row journal currency reversed)
            >> (gets (λ s. s.next_seq) >>= λ seq.
                insert_postings platform
                  (to_posting_rows journal.id.value now seq journal.postings lines)))
          db
        ≡ (ok tt, db')
      → Appends now journal lines reverses db db'
  inserted-Appends now journal lines reverses db currency reversed c code reads h =
      let b = bind-ok _ _ h in
      let (inserted, fresh) = insert_transaction-ok _ db b.first in
      let (posted, storable) =
        insert_postings-ok _ _ (rows-IsCanonical journal.id.value now _ journal.postings lines c)
          (rw (← inserted) at (gets-then _ _ _ b.rest)) in
      record {
        currency = currency;
        reversed = reversed;
        reversed_eq = reads;
        currency_eq = code;
        fresh = fresh;
        storable = storable;
        written = posted;
      }

  pub append-Appends :
      (now : ℕ) (journal : JournalTransaction) (lines : List PostingLine) (reverses : Option String)
      (db : Db) {db' : Db}
      → IsCanonical platform journal.id.value
      → All (λ p. IsCanonical platform p.account_id.value) journal.postings
      → append platform now journal lines reverses db ≡ (ok tt, db')
      → Appends now journal lines reverses db db'
  unfolding append
  append-Appends now journal lines reverses db {db'} cid c h =
      let (lengths, h1) = throw_if-then _ _ _ db h in
      let (id, id_eq, h2) = unless_missing-then _ _ _ db h1 in
      let (currency, currency_eq, h3) = unless_missing-then _ _ _ db h2 in
      let b = bind-ok _ _ h3 in
      let (same, reads) = parse_optional-ok reverses db b.first in
      let same_id : id ≡ journal.id.value = some-eq-some (sym id_eq ∙ cid) in
      inserted-Appends now journal lines reverses db currency b.value c currency_eq reads
        (rw (← same, same_id) at (b.rest))
