-- ===== src/Ledger/Totals.antt =====
-- The sums over the postings: of one transaction, and of one currency through the join with the
-- transactions.
use miniledger.Base.{
  ℕ, suc, ℤ, pos, ◌+ℤ◌, int_laws, zero-+ℤ, +ℤ_assoc, ◌≡◌, refl, sym, ap, ◌∙◌, inl, inr, Bool, true,
  String, some, List, [], ◌∷◌, ◌++◌, select, select-append, every, length, All, ◌==◌, option_eq,
  arith, if◌then◌else◌, Bool-cases,
}
use miniledger.Domain.Journal.{Posting}
use miniledger.Domain.Journal.Laws.{amount_sum}
use miniledger.Persistence.Store.{Db, PostingRow, TransactionRow}
use miniledger.Persistence.Action.{sum_amounts, is_transaction_balanced, may_commit}
use miniledger.Persistence.Journals.{PostingLine, has_transaction, to_posting_rows}
use miniledger.Persistence.Audit.{currency_of}

abbrev pub rows_of : String → List PostingRow → List PostingRow
rows_of t rows = select (λ p. p.transaction_id == t) rows

-- Every transaction's postings sum to zero.
abbrev pub IsBalanced : List PostingRow → Type 0
IsBalanced postings = (t : String) → sum_amounts (rows_of t postings) ≡ pos 0

sum_amounts-append :
    (ps qs : List PostingRow) → sum_amounts (ps ++ qs) ≡ sum_amounts ps +ℤ sum_amounts qs
sum_amounts-append [] qs = omega int_laws
sum_amounts-append (p ∷ ps) qs = rw (sum_amounts-append ps qs) (sym (+ℤ_assoc _ _ _))

-- The rows of a posted transaction sum to what its postings sum to, and only they have its id.
rows_of-to_posting_rows :
    (t id : String) (now seq : ℕ) (ps : List Posting) (lines : List PostingLine)
    → length lines ≡ length ps
    → sum_amounts (rows_of t (to_posting_rows id now seq ps lines))
      ≡ (if id == t then amount_sum ps else pos 0)
unfolding to_posting_rows
rows_of-to_posting_rows t id now seq [] lines h = ground arith
rows_of-to_posting_rows t id now seq (p ∷ ps) [] h = cc h
rows_of-to_posting_rows t id now seq (p ∷ ps) (line ∷ lines) h =
    ground (arith, rows_of-to_posting_rows t id now (suc seq) ps lines)

pub if_same : (b : Bool) (z : ℤ) → (if b then z else z) ≡ z
if_same b z = ground arith

pub IsBalanced-append :
    (id : String) (now seq : ℕ) (old : List PostingRow) (ps : List Posting)
    (lines : List PostingLine)
    → length lines ≡ length ps
    → amount_sum ps ≡ pos 0
    → IsBalanced old
    → IsBalanced (old ++ to_posting_rows id now seq ps lines)
IsBalanced-append id now seq old ps lines h z b t =
    ap sum_amounts (select-append _ old (to_posting_rows id now seq ps lines))
    ∙ sum_amounts-append (rows_of t old) (rows_of t (to_posting_rows id now seq ps lines))
    ∙ rw (b t, rows_of-to_posting_rows t id now seq ps lines h, z, if_same (id == t) (pos 0))
        (zero-+ℤ (pos 0))

every-balanced :
    (postings new : List PostingRow)
    → IsBalanced postings
    → every (is_transaction_balanced postings) new ≡ true
unfolding is_transaction_balanced
every-balanced postings [] b = refl
every-balanced postings (p ∷ ps) b = rw (b p.transaction_id, every-balanced postings ps b)

-- The deferred constraint trigger lets such tables commit.
pub may_commit-IsBalanced :
    (before after : Db) → IsBalanced after.postings → may_commit before after ≡ true
unfolding may_commit
may_commit-IsBalanced before after b = every-balanced after.postings _ b

-- What one posting adds to a currency.
abbrev pub amount_in : List TransactionRow → String → PostingRow → ℤ
amount_in transactions c p =
    if option_eq (currency_of transactions p.transaction_id) (some c) then p.amount else pos 0

abbrev pub total_in : List TransactionRow → String → List PostingRow → ℤ
total_in transactions c [] = pos 0
total_in transactions c (p ∷ ps) = amount_in transactions c p +ℤ total_in transactions c ps

-- Every posting belongs to a transaction.
abbrev pub AreKnown : List TransactionRow → List PostingRow → Type 0
AreKnown transactions postings =
    All (λ p. has_transaction transactions p.transaction_id ≡ true) postings

currency_of-append :
    (t : String) (rows more : List TransactionRow)
    → has_transaction rows t ≡ true
    → currency_of (rows ++ more) t ≡ currency_of rows t
currency_of-append t [] more h = cc h
currency_of-append t (r ∷ rows) more h = ground (arith, currency_of-append t rows more)

pub has_transaction-append :
    (t : String) (rows more : List TransactionRow)
    → has_transaction rows t ≡ true
    → has_transaction (rows ++ more) t ≡ true
has_transaction-append t [] more h = cc h
has_transaction-append t (r ∷ rows) more h = ground (arith, has_transaction-append t rows more)

pub has_transaction-last :
    (row : TransactionRow) (rows : List TransactionRow)
    → (row.id == row.id) ≡ true
    → has_transaction (rows ++ row ∷ []) row.id ≡ true
has_transaction-last row [] h = rw h
has_transaction-last row (r ∷ rows) h = ground (arith, has_transaction-last row rows h)

pub total_in-transactions :
    (c : String) (rows more : List TransactionRow) (ps : List PostingRow)
    → AreKnown rows ps
    → total_in (rows ++ more) c ps ≡ total_in rows c ps
total_in-transactions c rows more [] k = refl
total_in-transactions c rows more (p ∷ ps) k =
    rw (currency_of-append p.transaction_id rows more k.0, total_in-transactions c rows more ps k.1)

pub total_in-append :
    (c : String) (rows : List TransactionRow) (ps qs : List PostingRow)
    → total_in rows c (ps ++ qs) ≡ total_in rows c ps +ℤ total_in rows c qs
total_in-append c rows [] qs = omega int_laws
total_in-append c rows (p ∷ ps) qs = rw (total_in-append c rows ps qs) (sym (+ℤ_assoc _ _ _))

pub total_in-to_posting_rows :
    (c : String) (rows : List TransactionRow) (id : String) (now seq : ℕ) (ps : List Posting)
    (lines : List PostingLine)
    → length lines ≡ length ps
    → total_in rows c (to_posting_rows id now seq ps lines)
      ≡ (if option_eq (currency_of rows id) (some c) then amount_sum ps else pos 0)
unfolding to_posting_rows
total_in-to_posting_rows c rows id now seq [] lines h = ground arith
total_in-to_posting_rows c rows id now seq (p ∷ ps) [] h = cc h
total_in-to_posting_rows c rows id now seq (p ∷ ps) (line ∷ lines) h =
    let rest = total_in-to_posting_rows c rows id now (suc seq) ps lines (omega arith) in
    elim (Bool-cases (option_eq (currency_of rows id) (some c))) [
      | inl same ↦ rw (same, rest, same)
      | inr other ↦ rw (other, rest, other) (zero-+ℤ (pos 0))
    ]
