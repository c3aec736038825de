-- ===== src/Ledger/Statements.antt =====
-- StatementService.forAccount, following the cursors.
use miniledger.Base.{
  ℕ, suc, ◌+◌, ◌≡◌, sym, ap, ◌∙◌, String, ◌&&◌, Option, none, some, List, ◌++◌, map, take, select,
  ok, ◌==◌, some-eq-some, subst, arith,
}
use miniledger.Domain.Account.{Account}
use miniledger.Domain.Ids.{account_id}
use miniledger.Persistence.Store.{Db}
use miniledger.Persistence.Platform.{Platform, IsCanonical}
use miniledger.Persistence.Action.Laws.{bind-ok, pure-ok, unless_missing-then, gets-ok}
use miniledger.Persistence.Journals.{order_by_seq}
use miniledger.Persistence.Statements.{StatementEntry, entry_of, is_after, page}
use miniledger.Application.Poster.Lookups.{find_by_id_canonical}
use miniledger.Application.Accounts.{visible_to}
use miniledger.Application.Statements.{Statement, paginate, page_for, for_account}
use miniledger.Ledger.Order.{Ascending-select, order_by_seq-Ascending}
use miniledger.Ledger.Invariant.{IsLedger}
use miniledger.Ledger.Pages.{rows_after, remaining, paginate-remaining}

module _ (platform : Platform) where
  page-ok :
      (id : String) (limit : ℕ) (cursor : Option ℕ) (db : Db) {rows : List StatementEntry}
      {db' : Db}
      → IsLedger platform db
      → IsCanonical platform id
      → page platform (account_id id) limit cursor db ≡ (ok rows, db')
      → (map entry_of (take limit (rows_after id cursor db)) ≡ rows) × (db ≡ db')
  unfolding page
  page-ok id limit cursor db l c h =
      let (key, read, h1) = unless_missing-then _ _ _ db h in
      let (made, same) = gets-ok _ db h1 in
      let key_eq : key ≡ id = some-eq-some (sym read ∙ c) in
      let sorted =
        order_by_seq-Ascending 0 db.next_seq (rows_after id cursor db)
          (Ascending-select _ 0 db.next_seq db.postings l.ascending) in
      (
        ap (λ rows. map entry_of (take limit rows)) (sym sorted)
            ∙ ap
                (λ k. map entry_of (
                  take limit (
                    order_by_seq
                      (select (λ row. (row.account_id == k) && is_after cursor row) db.postings))))
                (sym key_eq)
            ∙ made,
        same,
      )

  abbrev pub Covers : String → Option ℕ → Db → Statement → Db → Type 0
  Covers id cursor db statement db' =
      (statement.entries ++ remaining id statement.next_cursor db
        ≡ map entry_of (rows_after id cursor db))
      × (db ≡ db')

  page_for-Covers :
      (id : String) (n : ℕ) (cursor : Option ℕ) (o : Option Account) (db : Db)
      {statement : Statement} {db' : Db}
      → IsLedger platform db
      → IsCanonical platform id
      → page_for platform id (suc n) cursor o db ≡ (ok (some statement), db')
      → Covers id cursor db statement db'
  page_for-Covers id n cursor none db l c h = cc (pure-ok none db h).0
  page_for-Covers id n cursor (some a) db {statement} l c h =
      let b = bind-ok _ _ h in
      let (rows, same) = page-ok id (suc n + 1) cursor db l c b.first in
      let (made, same2) = pure-ok _ _ b.rest in
      let limit : suc n + 1 ≡ suc (suc n) = omega arith in
      let statement_eq : paginate (suc n)
            (map entry_of (take (suc (suc n)) (rows_after id cursor db)))
          ≡ statement =
        ap (λ k. paginate (suc n) (map entry_of (take k (rows_after id cursor db)))) (sym limit)
        ∙ ap (paginate (suc n)) rows
        ∙ some-eq-some made in
      (
        subst
            (λ s.
              s.entries ++ remaining id s.next_cursor db ≡ map entry_of (rows_after id cursor db))
            statement_eq (paginate-remaining id n cursor db db.next_seq l.ascending),
        same ∙ same2,
      )

  returned-Covers :
      (id subject : String) (n : ℕ) (cursor : Option ℕ) (db : Db) {statement : Statement} {db' : Db}
      → IsLedger platform db
      → IsCanonical platform id
      → for_account platform id subject (suc n) cursor db ≡ (ok (some statement), db')
      → Covers id cursor db statement db'
  unfolding for_account
  returned-Covers id subject n cursor db l c h =
      let b = bind-ok _ _ h in
      let same : db ≡ b.middle =
        ap (λ p. p.1) (sym (find_by_id_canonical platform (account_id id) db c) ∙ b.first) in
      page_for-Covers id n cursor (visible_to subject b.value) db l c (rw (← same) at (b.rest))

  -- On tables that satisfy the invariant, and for an id spelled as the database spells it, a returned
  -- page of a positive limit and what there is after its next cursor are, in order, exactly the
  -- postings of the account after the given cursor; without a next cursor the page is all of them.
  -- Nothing is written.
  pub for_account-Covers :
      (id subject : String) (n : ℕ) (cursor : Option ℕ) (db : Db) {statement : Statement}
      → IsLedger platform db
      → IsCanonical platform id
      → (for_account platform id subject (suc n) cursor db).0 ≡ ok (some statement)
      → Covers id cursor db statement (for_account platform id subject (suc n) cursor db).1
  for_account-Covers id subject n cursor db l c h =
      returned-Covers id subject n cursor db l c
        (ap (λ r. (r, (for_account platform id subject (suc n) cursor db).1)) h)
