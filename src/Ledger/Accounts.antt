-- ===== src/Ledger/Accounts.antt =====
-- AccountsService.open against the ledger.
use miniledger.Base.{
  ℕ, pos, ◌≡◌, refl, sym, ap, ◌∙◌, ◌⊎◌, inl, inr, String, true, false, Option, none, some, List, [],
  ◌∷◌, ◌++◌, find, Map, lookup, lookup-append, Result, ok, ◌==◌, eq_iff, Bool-cases, Option-cases,
  Result-cases, some-eq-some, subst, arith,
}
use miniledger.Kernel.Currency
use miniledger.Kernel.Currency.{Currency}
use miniledger.Domain.Ids.{AccountId}
use miniledger.Domain.Account.{Account, open_user}
use miniledger.Persistence.Store.{Db, AccountRow, LockedBalance, PostingRow}
use miniledger.Persistence.Platform.{Platform}
use miniledger.Persistence.Action.{Action, ◌>>=◌, ◌>>◌, pure, throw, with_transaction}
use miniledger.Persistence.Action.Laws.{
  bind-ok, throw_if-then, unless_missing-then, gets-then, modify-ok, with_transaction-cases,
}
use miniledger.Persistence.Accounts.{unless_absent, to_row, insert_account, save}
use miniledger.Persistence.Balances.{opened, is_some, initialize}
use miniledger.Application.Accounts.{
  OpenAccountError, OpenAccountInput, store_account, open_account,
}
use miniledger.Ledger.Chain.{Linked, rows_for}
use miniledger.Ledger.Invariant.{start_at, AreLinked, AreAbove, IsLedger}

-- A row and its balance, added to tables that have neither.
pub record Opens (row : AccountRow) (db db' : Db) : Type 0 where
  pub no_account : find (λ r. r.id == row.id) db.accounts ≡ none
  pub no_balance : lookup row.id db.balances ≡ none
  pub written :
      record db {
        accounts = db.accounts ++ row ∷ [];
        balances = db.balances ++ (row.id, opened) ∷ [];
      }
      ≡ db'

unless_absent-then :
    (o : Option AccountRow) (constraint : String) {B : Type 0} (k : Unit {0} → Action B) (db : Db)
    {x : B} {db' : Db}
    → (unless_absent o constraint >>= k) db ≡ (ok x, db')
    → (o ≡ none) × (k tt db ≡ (ok x, db'))
unfolding ◌>>=◌ pure throw
unless_absent-then none constraint k db h = (refl, h)
unless_absent-then (some r) constraint k db h = cc h

insert_account-ok :
    (row : AccountRow) (db : Db) {db' : Db}
    → insert_account row db ≡ (ok tt, db')
    → (find (λ r. r.id == row.id) db.accounts ≡ none)
      × (record db { accounts = db.accounts ++ row ∷ [] } ≡ db')
unfolding insert_account
insert_account-ok row db h =
    let (fits, h1) = throw_if-then _ _ _ db h in
    let (fresh, h2) = unless_absent-then _ _ _ db (gets-then _ _ db h1) in
    let (unnamed, h3) = unless_absent-then _ _ _ db (gets-then _ _ db h2) in
    (fresh, modify-ok _ db h3)

is_some-false : {A : Type 0} (o : Option A) → is_some o ≡ false → o ≡ none
is_some-false none h = refl
is_some-false (some a) h = cc h

module _ (platform : Platform) where
  initialize-ok :
      (id : AccountId) (db : Db) {key : String} {db' : Db}
      → platform.uuid id.value ≡ some key
      → initialize platform id db ≡ (ok tt, db')
      → (lookup key db.balances ≡ none)
        × (record db { balances = db.balances ++ (key, opened) ∷ [] } ≡ db')
  unfolding initialize
  initialize-ok id db {key} read h =
      let (key', read', h1) = unless_missing-then _ _ _ db h in
      let same : key' ≡ key = some-eq-some (sym read' ∙ read) in
      let (free, h2) = throw_if-then _ _ _ db (gets-then _ _ db h1) in
      let (known, h3) = throw_if-then _ _ _ db (gets-then _ _ db h2) in
      rw (← same) (is_some-false _ free, modify-ok _ db h3)

  pub store_account-Opens :
      (a : Account) (db : Db) {db' : Db}
      → store_account platform a db ≡ (ok tt, db')
      → (key currency : String) × (a.currency.code ≡ some currency)
        × Opens (to_row a key currency) db db'
  unfolding store_account save to_row
  store_account-Opens a db h =
      let b = bind-ok _ _ h in
      let (key, read, h1) = unless_missing-then _ _ _ db b.first in
      let (currency, code, h2) = unless_missing-then _ _ _ db h1 in
      let (fresh, inserted) = insert_account-ok (to_row a key currency) db h2 in
      let (free, written) = initialize-ok a.id b.middle {key = key} read b.rest in
      (
        key,
        currency,
        code,
        record {
          no_account = fresh;
          no_balance = ap (λ d. lookup key d.balances) inserted ∙ free;
          written = rw (← inserted) at written;
        },
      )

  Opens-Linked :
      (a key : String) (balances : Map LockedBalance) (postings : List PostingRow)
      → lookup key balances ≡ none
      → AreLinked platform postings balances
      → Linked platform.sha256
          (start_at (lookup a (balances ++ (key, opened) ∷ [])))
          (rows_for a postings)
          (lookup a (balances ++ (key, opened) ∷ []))
  Opens-Linked a key balances postings free linked =
      rw (lookup-append a balances ((key, opened) ∷ [])) (elim (Option-cases (lookup a balances)) [
        | inr (s, here) ↦ rw here (rw here at (linked a))
        | inl absent ↦ elim (Bool-cases (key == a)) [
          | inl same ↦ rw (absent, same) (rw (rw absent at (linked a)) (refl, refl))
          | inr other ↦ rw (absent, other) (rw absent at (linked a))
        ]
      ])

  find-append :
      (a : String) (rows : List AccountRow) (new : AccountRow) {row : AccountRow}
      → find (λ r. r.id == a) (rows ++ new ∷ []) ≡ some row
      → (find (λ r. r.id == a) rows ≡ some row)
        ⊎ ((find (λ r. r.id == a) rows ≡ none) × ((new.id == a) ≡ true) × (new ≡ row))
  find-append a [] new h = ground arith
  find-append a (r ∷ rows) new {row} h = ground (arith, find-append a rows new {row = row})

  Opens-Above :
      (row : AccountRow) (db db' : Db)
      → row.overdraft_floor ≡ some (pos 0)
      → Opens row db db'
      → AreAbove platform db.accounts db.balances
      → AreAbove platform (db.accounts ++ row ∷ []) (db.balances ++ (row.id, opened) ∷ [])
  Opens-Above row db db' zero o above a r floor e f =
      rw (lookup-append a db.balances ((row.id, opened) ∷ []))
        (elim (find-append a db.accounts row e) [
          | inl old ↦ elim (Option-cases (lookup a db.balances)) [
            | inr (s, here) ↦ rw here (rw here at (above a r floor old f))
            | inl absent ↦ elim (Bool-cases (row.id == a)) [
              | inl same ↦
                  let gone : find (λ r. r.id == a) db.accounts ≡ none =
                    rw ((eq_iff row.id a).0 same) at (o.no_account) in
                  cc (old, gone)
              | inr other ↦ rw (absent, other) tt
            ]
          ]
          | inr (none_old, same, new) ↦
              let gone : lookup a db.balances ≡ none =
                rw ((eq_iff row.id a).0 same) at (o.no_balance) in
              let floor_eq : floor ≡ pos 0 =
                some-eq-some (sym f ∙ sym (ap (λ x. x.overdraft_floor) new) ∙ zero) in
              rw (gone, same, floor_eq) (omega arith)
        ])

  Opens-IsLedger :
      (row : AccountRow) (db : Db) {db' : Db}
      → row.overdraft_floor ≡ some (pos 0)
      → Opens row db db'
      → IsLedger platform db
      → IsLedger platform db'
  Opens-IsLedger row db {db'} zero o l = subst (IsLedger platform) o.written (record {
    linked = λ a. Opens-Linked a row.id db.balances db.postings o.no_balance l.linked;
    above = Opens-Above row db db' zero o l.above;
    balanced = l.balanced;
    known = l.known;
    conserved = l.conserved;
    ascending = l.ascending;
    canonical = l.canonical;
  })

  continue-keeps : {A B : Type 0} (m : Action A) (x : B) (db : Db) → ((m >> pure x) db).1 ≡ (m db).1
  unfolding ◌>>=◌ pure
  continue-keeps m x db = elim (Result-cases (m db).0) [
    | inl (a, done) ↦ rw done
    | inr (e, failed) ↦ rw failed
  ]

  -- Opening an account writes nothing, or it adds the row of a new account in a known currency.
  pub open_account-cases :
      (now : ℕ) (id : AccountId) (input : OpenAccountInput) (db : Db)
      → ((open_account platform now id input db).1 ≡ db)
        ⊎ ((currency : Currency) × (key code : String) × (Currency.of input.currency ≡ ok currency)
            × (currency.code ≡ some code)
            × Opens
                (to_row (open_user id currency input.owner_id now) key code)
                db
                (open_account platform now id input db).1)
  unfolding open_account open_user pure
  open_account-cases now id input db = elim (Result-cases (Currency.of input.currency)) [
    | inr (e, unknown) ↦ inl (rw unknown refl)
    | inl (currency, known) ↦
        let account = open_user id currency input.owner_id now in
        let same : (open_account platform now id input db).1
            ≡ (with_transaction (store_account platform account) db).1 =
          rw known (
            continue-keeps {B = Result Account OpenAccountError}
              (with_transaction (store_account platform account)) (ok account) db) in
        elim (with_transaction-cases (store_account platform account) db) [
          | inr (e, undone) ↦ inl (same ∙ ap (λ p. p.1) undone)
          | inl (u, ran, returned, committed) ↦
              let (key, code, coded, opening) = store_account-Opens account db ran in
              inr (
                currency,
                key,
                code,
                known,
                coded,
                subst (Opens (to_row account key code) db) (sym same) opening,
              )
        ]
  ]

  -- Opening an account, whatever comes of it, keeps the ledger's invariant.
  pub open_account-IsLedger :
      (now : ℕ) (id : AccountId) (input : OpenAccountInput) (db : Db)
      → IsLedger platform db
      → IsLedger platform (open_account platform now id input db).1
  unfolding open_user to_row
  open_account-IsLedger now id input db l = elim (open_account-cases now id input db) [
    | inl kept ↦ subst (IsLedger platform) (sym kept) l
    | inr (currency, key, code, known, coded, opening) ↦
        Opens-IsLedger (to_row (open_user id currency input.owner_id now) key code) db refl opening
          l
  ]
