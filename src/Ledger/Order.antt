-- ===== src/Ledger/Order.antt =====
-- The order of the postings table by its identity column.
use miniledger.Base.{
  ℕ, suc, ◌+◌, ◌≤◌, ◌≡◌, refl, ap, ◌∙◌, Bool, String, List, [], ◌∷◌, ◌++◌, select, length, arith,
}
use miniledger.Domain.Journal.{Posting}
use miniledger.Persistence.Store.{PostingRow}
use miniledger.Persistence.Journals.{PostingLine, insert_by_seq, order_by_seq, to_posting_rows}

-- The numbers grow, from one bound to below another.
abbrev pub Ascending : ℕ → ℕ → List PostingRow → Type 0
Ascending lo hi [] = lo ≤ hi
Ascending lo hi (p ∷ ps) = (lo ≤ p.seq) × Ascending (suc p.seq) hi ps

pub Ascending-append :
    (lo mid hi : ℕ) (ps qs : List PostingRow)
    → Ascending lo mid ps
    → Ascending mid hi qs
    → Ascending lo hi (ps ++ qs)
Ascending-append lo mid hi [] [] a b = omega arith
Ascending-append lo mid hi [] (q ∷ qs) a b = (omega arith, b.1)
Ascending-append lo mid hi (p ∷ ps) qs a b = (a.0, Ascending-append (suc p.seq) mid hi ps qs a.1 b)

Ascending-weaken :
    (lo lo' hi : ℕ) (ps : List PostingRow) → lo' ≤ lo → Ascending lo hi ps → Ascending lo' hi ps
Ascending-weaken lo lo' hi [] h a = omega arith
Ascending-weaken lo lo' hi (p ∷ ps) h a = (omega arith, a.1)

pub Ascending-select :
    (f : PostingRow → Bool) (lo hi : ℕ) (ps : List PostingRow)
    → Ascending lo hi ps
    → Ascending lo hi (select f ps)
Ascending-select f lo hi [] a = a
Ascending-select f lo hi (p ∷ ps) a =
    let rest = Ascending-select f (suc p.seq) hi ps a.1 in
    ground (arith, Ascending-weaken (suc p.seq) lo hi (select f ps))

-- Rows in that order are in the order of the query already.
pub order_by_seq-Ascending :
    (lo hi : ℕ) (ps : List PostingRow) → Ascending lo hi ps → order_by_seq ps ≡ ps
unfolding order_by_seq insert_by_seq
order_by_seq-Ascending lo hi [] a = refl
order_by_seq-Ascending lo hi (p ∷ []) a = refl
order_by_seq-Ascending lo hi (p ∷ q ∷ ps) a =
    ap (insert_by_seq p) (order_by_seq-Ascending (suc p.seq) hi (q ∷ ps) a.1) ∙ ground arith

pub to_posting_rows-Ascending :
    (id : String) (now seq : ℕ) (ps : List Posting) (lines : List PostingLine)
    → Ascending seq
        (seq + length (to_posting_rows id now seq ps lines))
        (to_posting_rows id now seq ps lines)
unfolding to_posting_rows
to_posting_rows-Ascending id now seq [] lines = omega arith
to_posting_rows-Ascending id now seq (p ∷ ps) [] = omega arith
to_posting_rows-Ascending id now seq (p ∷ ps) (line ∷ lines) =
    let rest = to_posting_rows-Ascending id now (suc seq) ps lines in ground arith
