-- ===== src/Ledger/Audits.antt =====
-- What AuditService reports on tables that satisfy the ledger's invariant.
use miniledger.Base.{
  ℤ, pos, ◌+ℤ◌, +ℤ_assoc, zero-+ℤ, +ℤ-zero, eq_ℤ_self, ◌≡◌, refl, sym, ap, ◌∙◌, inl, inr, String,
  true, Option, none, some, List, [], ◌∷◌, map, last, every, Map, lookup, lookup-insert, IsDistinct,
  insert-IsDistinct, ok, option_eq, option_eq_self, eq_iff, eq_self, ◌==◌, if◌then◌else◌,
  Bool-cases, arith,
}
use miniledger.Domain.Ids.{account_id}
use miniledger.Domain.Account.{Account}
use miniledger.Domain.HashChain.{verify_from, verify_chain}
use miniledger.Domain.HashChain.Laws.{IsChain, verify_from-IsChain}
use miniledger.Persistence.Store.{Db, LockedBalance, PostingRow, TransactionRow}
use miniledger.Persistence.Platform.{Platform, IsCanonical}
use miniledger.Persistence.Action.{sum_amounts, ◌>>=◌, pure, gets, unless_missing}
use miniledger.Persistence.Accounts.{domain_of}
use miniledger.Persistence.Journals.{order_by_seq}
use miniledger.Persistence.Audit.{
  audit_posting, postings_for_account, account_state, currency_of, total_or_zero, add_to_group,
  group_from, conservation_by_currency,
}
use miniledger.Application.Poster.Lookups.{row_at, find_by_id_canonical}
use miniledger.Application.Audits.{
  AccountAuditReport, chain_entry, state_balance, hash_field, balance_after_field, sum_from,
  insert_total, sort_totals, is_zero_total, CurrencyTotal, conservation_report, report,
  verify_account, verify_conservation, ConservationReport,
}
use miniledger.Ledger.Chain.{Chain, Linked, rows_for}
use miniledger.Ledger.Order.{Ascending-select, order_by_seq-Ascending}
use miniledger.Ledger.Totals.{total_in}
use miniledger.Ledger.Invariant.{start_at, IsLedger}
use miniledger.Ledger.Movements.{Chain-sum}

-- A report that finds nothing wrong with a balance.
pub record IsClean (balance : ℤ) (r : AccountAuditReport) : Type 0 where
  pub chain_valid : r.chain_valid ≡ true
  pub head_matches : r.head_matches ≡ true
  pub reconciled : r.reconciled ≡ true
  pub unbroken : r.broken_at_seq ≡ none
  pub balance_eq : r.balance ≡ balance

Chain-IsChain :
    (sha256 : String → String) (h h' : Option String) (b b' : ℤ) (ps : List PostingRow)
    → Chain sha256 h b ps h' b'
    → IsChain sha256 h (map chain_entry (map audit_posting ps))
Chain-IsChain sha256 h h' b b' [] c = tt
Chain-IsChain sha256 h h' b b' (p ∷ ps) (e1, e2, e3, c) =
    (e1, e3, Chain-IsChain sha256 (some p.hash) h' p.balance_after b' ps c)

Chain-last :
    (sha256 : String → String) (h h' : Option String) (b b' : ℤ) (p : PostingRow)
    (ps : List PostingRow)
    → Chain sha256 h b (p ∷ ps) h' b'
    → (hash_field (last (map audit_posting (p ∷ ps))) ≡ h')
      × (balance_after_field (last (map audit_posting (p ∷ ps))) ≡ b')
Chain-last sha256 h h' b b' p [] (e1, e2, e3, c) = (c.0, c.1)
Chain-last sha256 h h' b b' p (q ∷ ps) (e1, e2, e3, c) =
    Chain-last sha256 (some p.hash) h' p.balance_after b' q ps c

-- The head and the balance that the last posting shows, from an opened account.
Chain-ends :
    (sha256 : String → String) (h' : Option String) (b' : ℤ) (ps : List PostingRow)
    → Chain sha256 none (pos 0) ps h' b'
    → (hash_field (last (map audit_posting ps)) ≡ h')
      × (balance_after_field (last (map audit_posting ps)) ≡ b')
Chain-ends sha256 h' b' [] c = c
Chain-ends sha256 h' b' (p ∷ ps) c = Chain-last sha256 none h' (pos 0) b' p ps c

sum_from-sum_amounts :
    (t : ℤ) (ps : List PostingRow) → sum_from t (map audit_posting ps) ≡ t +ℤ sum_amounts ps
unfolding sum_from
sum_from-sum_amounts t [] = sym (+ℤ-zero t)
sum_from-sum_amounts t (p ∷ ps) = sum_from-sum_amounts (t +ℤ p.amount) ps ∙ +ℤ_assoc t p.amount _

module _ (platform : Platform) where
  untouched-IsClean : (id : String) → IsClean (pos 0) (report platform id [] none)
  unfolding report verify_chain verify_from sum_from
  untouched-IsClean id = record {
    chain_valid = refl;
    head_matches = refl;
    reconciled = refl;
    unbroken = refl;
    balance_eq = refl;
  }

  Linked-IsClean :
      (id : String) (ps : List PostingRow) (o : Option LockedBalance)
      → Linked platform.sha256 (start_at o) ps o
      → IsClean (state_balance o) (report platform id (map audit_posting ps) o)
  unfolding report verify_chain
  Linked-IsClean id ps none l = rw l (untouched-IsClean id)
  Linked-IsClean id ps (some s) l =
      let valid =
        verify_from-IsChain platform.sha256 none 0 _
          (Chain-IsChain platform.sha256 none s.chain_hash (pos 0) s.balance ps l) in
      let (head, end) = Chain-ends platform.sha256 s.chain_hash s.balance ps l in
      let sum =
        sum_from-sum_amounts (pos 0) ps
        ∙ sym (Chain-sum platform.sha256 none s.chain_hash (pos 0) s.balance ps l) in
      record {
        chain_valid = ap (λ v. v.valid) valid;
        head_matches = rw head (option_eq_self s.chain_hash);
        reconciled = rw (sum, end, eq_ℤ_self s.balance);
        unbroken = rw valid;
        balance_eq = refl;
      }

  rows-eq :
      (id : String) (db : Db)
      → IsLedger platform db
      → order_by_seq (rows_for id db.postings) ≡ rows_for id db.postings
  rows-eq id db l =
      order_by_seq-Ascending 0 db.next_seq (rows_for id db.postings)
        (Ascending-select (λ p. p.account_id == id) 0 db.next_seq db.postings l.ascending)

  -- The audit of an account on tables that satisfy the invariant: the chain is valid, its head is the
  -- stored one, and the postings, the last balance and the stored balance agree.
  pub verify_account-IsClean :
      (id : String) (db : Db) {a : Account}
      → IsLedger platform db
      → IsCanonical platform id
      → domain_of (row_at db id) ≡ ok (some a)
      → (r : AccountAuditReport) × (verify_account platform id db ≡ (ok (ok r), db))
        × IsClean (state_balance (lookup id db.balances)) r
  unfolding verify_account ◌>>=◌ postings_for_account account_state unless_missing gets pure
  verify_account-IsClean id db {a} l c e = (
    report platform a.id.value (map audit_posting (rows_for id db.postings))
        (lookup id db.balances),
    rw (find_by_id_canonical platform (account_id id) db c, e, c, rows-eq id db l),
    Linked-IsClean a.id.value (rows_for id db.postings) (lookup id db.balances) (l.linked id),
  )

-- The total of a currency in the groups is the sum over its postings.
group_from-total_in :
    (transactions : List TransactionRow) (c : String) (groups : Map ℤ) (ps : List PostingRow)
    → total_or_zero (lookup c (group_from transactions groups ps))
      ≡ total_or_zero (lookup c groups) +ℤ total_in transactions c ps
unfolding group_from
group_from-total_in transactions c groups [] = sym (+ℤ-zero _)
group_from-total_in transactions c groups (p ∷ ps) =
    group_from-total_in transactions c
      (add_to_group (currency_of transactions p.transaction_id) p.amount groups) ps
    ∙ ap (λ x. x +ℤ total_in transactions c ps) (added (currency_of transactions p.transaction_id))
    ∙ +ℤ_assoc (total_or_zero (lookup c groups)) _ _
  where
    added :
        (o : Option String)
        → total_or_zero (lookup c (add_to_group o p.amount groups))
          ≡ total_or_zero (lookup c groups) +ℤ (if option_eq o (some c) then p.amount else pos 0)
    added none = sym (+ℤ-zero _)
    added (some k) =
        rw (lookup-insert k c (total_or_zero (lookup k groups) +ℤ p.amount) groups)
          (elim (Bool-cases (k == c)) [
            | inl same ↦ rw same (rw ((eq_iff k c).0 same) refl)
            | inr other ↦ rw other (sym (+ℤ-zero _))
          ])

group_from-IsDistinct :
    (transactions : List TransactionRow) (groups : Map ℤ) (ps : List PostingRow)
    → IsDistinct groups
    → IsDistinct (group_from transactions groups ps)
unfolding group_from
group_from-IsDistinct transactions groups [] d = d
group_from-IsDistinct transactions groups (p ∷ ps) d =
    group_from-IsDistinct transactions
      (add_to_group (currency_of transactions p.transaction_id) p.amount groups) ps
      (added (currency_of transactions p.transaction_id))
  where
    added : (o : Option String) → IsDistinct (add_to_group o p.amount groups)
    added none = d
    added (some k) = insert-IsDistinct k _ groups d

every-insert_total :
    (t : CurrencyTotal) (ts : List CurrencyTotal)
    → is_zero_total t ≡ true
    → every is_zero_total ts ≡ true
    → every is_zero_total (insert_total t ts) ≡ true
unfolding insert_total
every-insert_total t [] z h = rw z
every-insert_total t (u ∷ us) z h = ground (arith, every-insert_total t us z)

every-sort_totals :
    (totals : Map ℤ)
    → IsDistinct totals
    → ((c : String) → total_or_zero (lookup c totals) ≡ pos 0)
    → every is_zero_total (sort_totals totals) ≡ true
unfolding sort_totals
every-sort_totals [] d z = refl
every-sort_totals ((k, t) ∷ totals) d z =
    let here : t ≡ pos 0 = rw (eq_self k) at (z k) in
    every-insert_total (record { currency = k; total = t }) (sort_totals totals) (rw here refl)
      (every-sort_totals totals d.1 (λ c. elim (Bool-cases (k == c)) [
        | inl same ↦ rw (← (eq_iff k c).0 same, d.0)
        | inr other ↦ rw other at (z c)
      ]))

module _ (platform : Platform) where
  -- On tables that satisfy the invariant, the conservation report says that every currency's postings
  -- sum to zero.
  pub verify_conservation-conserved :
      (db : Db)
      → IsLedger platform db
      → (r : ConservationReport) × (verify_conservation platform db ≡ (ok r, db))
        × (r.conserved ≡ true)
  unfolding verify_conservation conservation_report conservation_by_currency ◌>>=◌ gets pure
  verify_conservation-conserved db l = (
    conservation_report (group_from db.transactions [] db.postings),
    refl,
    every-sort_totals (group_from db.transactions [] db.postings)
        (group_from-IsDistinct db.transactions [] db.postings tt)
        (λ c. group_from-total_in db.transactions c [] db.postings ∙ zero-+ℤ _ ∙ l.conserved c),
  )
