-- ===== src/Domain/BalanceFold.antt =====
-- src/ledger/domain/balance-fold.ts
use miniledger.Base.{
  ℤ, pos, ◌+ℤ◌, int_laws, zero-+ℤ, ◌∙◌, String, ◌≡◌, Option, none, some, List, [], ◌∷◌, Map, lookup,
  insert, lookup-insert, ◌==◌, if◌then◌else◌, eq_iff, Bool-cases, inl, inr,
}
use miniledger.Domain.Journal.{Posting}

-- `balances.get(key) ?? 0n`
abbrev pub balance_or_zero : Option ℤ → ℤ
balance_or_zero none = pos 0
balance_or_zero (some b) = b

fold_from : Map ℤ → List Posting → Map ℤ
fold_from balances [] = balances
fold_from balances (p ∷ ps) =
    let key = p.account_id.value in
    fold_from (insert key (balance_or_zero (lookup key balances) +ℤ p.amount.amount) balances) ps

-- `foldByAccount`
unfoldable pub fold_by_account : List Posting → Map ℤ
unfolding fold_from
fold_by_account postings = fold_from [] postings

total_from : ℤ → List Posting → ℤ
total_from total [] = total
total_from total (p ∷ ps) = total_from (total +ℤ p.amount.amount) ps

-- `totalAmount`
unfoldable pub total_amount : List Posting → ℤ
unfolding total_from
total_amount postings = total_from (pos 0) postings

-- The sum of the amounts posted to one account.
abbrev pub posted_to : String → List Posting → ℤ
posted_to a [] = pos 0
posted_to a (p ∷ ps) =
    (if p.account_id.value == a then p.amount.amount else pos 0) +ℤ posted_to a ps

fold_from-posted_to :
    (a : String) (balances : Map ℤ) (ps : List Posting)
    → balance_or_zero (lookup a (fold_from balances ps))
      ≡ balance_or_zero (lookup a balances) +ℤ posted_to a ps
unfolding fold_from
fold_from-posted_to a balances [] = omega int_laws
fold_from-posted_to a balances (p ∷ ps) =
    let key = p.account_id.value in
    let sum = balance_or_zero (lookup key balances) +ℤ p.amount.amount in
    rw (fold_from-posted_to a (insert key sum balances) ps, lookup-insert key a sum balances)
      (elim (Bool-cases (key == a)) [
        | inl same ↦ rw same (rw ((eq_iff key a).0 same) (omega int_laws))
        | inr other ↦ rw other (omega int_laws)
      ])

-- Folding the postings gives every account the sum of what is posted to it.
pub fold_by_account-posted_to :
    (a : String) (ps : List Posting)
    → balance_or_zero (lookup a (fold_by_account ps)) ≡ posted_to a ps
unfolding fold_by_account
fold_by_account-posted_to a ps = fold_from-posted_to a [] ps ∙ zero-+ℤ _
