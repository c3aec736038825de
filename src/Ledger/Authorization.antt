-- ===== src/Ledger/Authorization.antt =====
-- Who may move money out of an account: the owner check of LedgerPoster.post on a transfer.
use miniledger.Base.{
  ℕ, ℤ, pos, neg_ℤ, ◌<ℤ◌, ltb_ℤ, int_laws, ◌≡◌, refl, sym, ap, ◌∙◌, ◌⊎◌, inl, inr, String, true,
  false, Option, none, some, List, [], ◌∷◌, Map, lookup, lookup-insert_eq, lookup-insert_ne, ok,
  ◌==◌, eq_iff, eq_self, Bool-cases, arith, option_eq→eq, ok-injective,
}
use miniledger.Kernel.Currency
use miniledger.Kernel.Currency.{Currency}
use miniledger.Kernel.Money
use miniledger.Domain.Ids.{TransactionId, AccountId, account_id}
use miniledger.Domain.Account.{
  Account, AccountType, user, system, type_is_system, is_system, is_owned_by,
}
use miniledger.Persistence.Store.{Db, AccountRow, TransferReceipt}
use miniledger.Persistence.Platform.{Platform}
use miniledger.Persistence.Accounts.{domain_of}
use miniledger.Application.Poster.{
  Involved, nobody, involve, check_accounts, check_owner, check_required_owner, is_foreign,
}
use miniledger.Application.Poster.Lookups.{row_at, Fetched, domain_of-row, row_at-id}
use miniledger.Application.Poster.Effect.{Posts}
use miniledger.Application.Transfers.{TransferInput, key_of, fingerprint, transfer}
use miniledger.Application.Transfers.Cases.{journal_of, IsAccepted}
use miniledger.Application.Transfers.Effect.{Runs, transfer_options, with_claim}
use miniledger.Application.Transfers.Outcome.{transfer-Succeeds}
use miniledger.Ledger.Transfers.{IsSpelled, Succeeds-Runs}

-- The two accounts that a successful check has collected.
check_accounts-two :
    (currency : Currency) (o1 o2 : Option Account) {maps : Involved}
    → check_accounts currency (o1 ∷ o2 ∷ []) nobody ≡ ok maps
    → (a b : Account) × (o1 ≡ some a) × (o2 ≡ some b) × (involve b (involve a nobody) ≡ maps)
unfolding check_accounts
check_accounts-two currency none o2 h = cc h
check_accounts-two currency (some a) none h =
    elim (Bool-cases (Currency.equals a.currency currency)) [
      | inl same ↦ cc (rw same at h)
      | inr other ↦ cc (rw other at h)
    ]
check_accounts-two currency (some a) (some b) h =
    elim (Bool-cases (Currency.equals a.currency currency)) [
      | inr other ↦ cc (rw other at h)
      | inl same ↦ elim (Bool-cases (Currency.equals b.currency currency)) [
        | inr other ↦ cc (rw (same, other) at h)
        | inl same2 ↦ (a, b, refl, refl, ok-injective (rw (same, same2) at h))
      ]
    ]

is_foreign-false :
    (owner : String) (a : Account)
    → is_foreign owner (some a) ≡ false
    → (a.type ≡ system) ⊎ (a.owner_id ≡ some owner)
unfolding is_system is_owned_by
is_foreign-false owner a h = ground (arith, option_eq→eq a.owner_id (some owner), system_of a.type)
  where
    system_of : (t : AccountType) → type_is_system t ≡ true → t ≡ system
    system_of user h = cc h
    system_of system h = refl

-- The first debit passes the owner check only if its source is nobody's or the owner's.
check_owner-first :
    (owner : String) (by_id : Map Account) (id : TransactionId) (input : TransferInput) (amount : ℤ)
    (currency : Currency)
    → pos 0 <ℤ amount
    → check_owner owner by_id (journal_of id input amount currency).postings ≡ ok tt
    → is_foreign owner (lookup input.from by_id) ≡ false
unfolding check_owner Money.is_negative Money.negate
check_owner-first owner by_id id input amount currency positive h =
    let negative : ltb_ℤ (neg_ℤ amount) (pos 0) ≡ true = ground (arith, neg_parts amount) in
    elim (Bool-cases (is_foreign owner (lookup input.from by_id))) [
      | inr mine ↦ mine
      | inl foreign ↦ cc (rw (negative, foreign) at h)
    ]
  where
    neg_parts : (a : ℤ) → pos 0 <ℤ a → neg_ℤ a <ℤ pos 0
    neg_parts a h = omega int_laws

module _ (platform : Platform) where
  -- The source of a transfer is stored, and it is a system account or the owner's.
  unfoldable pub IsPermitted : TransferInput → Db → Type 0
  IsPermitted input db =
      (row : AccountRow) × (row_at db input.from ≡ some row)
      × ((row.type ≡ system) ⊎ (row.owner_id ≡ some input.owner_id))

  Fetched-two :
      (db : Db) (from to : AccountId) (found : List (Option Account))
      → Fetched platform db (from ∷ to ∷ []) found
      → (o1 o2 : Option Account) × (found ≡ (o1 ∷ o2 ∷ []))
        × (domain_of (row_at db from.value) ≡ ok o1)
        × (domain_of (row_at db to.value) ≡ ok o2)
  Fetched-two db from to [] f = absurd f
  Fetched-two db from to (o1 ∷ []) f = absurd f.1
  Fetched-two db from to (o1 ∷ o2 ∷ []) f = (o1, o2, refl, f.0, f.1.0)
  Fetched-two db from to (o1 ∷ o2 ∷ o3 ∷ rest) f = absurd f.1.1

  Posts-IsPermitted :
      (now : ℕ) (id : TransactionId) (input : TransferInput) (amount : ℤ) (currency : Currency)
      (db : Db) {receipt : TransferReceipt} {db' : Db}
      → IsAccepted input currency amount
      → Posts platform now
          (journal_of id input amount currency)
          currency
          (transfer_options input.owner_id)
          db
          receipt
          db'
      → IsPermitted input db
  unfolding IsPermitted check_required_owner
  Posts-IsPermitted now id input amount currency db checks p =
      let (o1, o2, two, first, second) =
        Fetched-two db (account_id input.from) (account_id input.to) p.found p.fetched in
      let (a, b, e1, e2, maps) = check_accounts-two currency o1 o2 (rw two at (p.checked)) in
      let (row, here, id_eq, floor_eq, type_eq, owner_eq) =
        domain_of-row platform (row_at db input.from) (first ∙ ap ok e1) in
      let (row2, there, id_eq2, floor_eq2, type_eq2, owner_eq2) =
        domain_of-row platform (row_at db input.to) (second ∙ ap ok e2) in
      let from_key : a.id.value ≡ input.from =
        id_eq ∙ row_at-id platform input.from db.accounts here in
      let to_key : b.id.value ≡ input.to = id_eq2 ∙ row_at-id platform input.to db.accounts there in
      let apart : (b.id.value == input.from) ≡ false =
        rw to_key (apart_sym input checks.distinct) in
      let known : lookup input.from p.maps.by_id ≡ some a =
        sym (ap (λ m. lookup input.from m.by_id) maps)
        ∙ lookup-insert_ne b.id.value input.from b (involve a nobody).by_id apart
        ∙ lookup-insert_eq a.id.value input.from a [] (rw from_key (eq_self input.from)) in
      let mine =
        check_owner-first input.owner_id p.maps.by_id id input amount currency checks.positive
          p.owned in
      (
        row,
        here,
        owned_row input row a type_eq owner_eq
            (is_foreign-false input.owner_id a (rw known at mine)),
      )
    where
      apart_sym :
          (input : TransferInput)
          → (input.from == input.to) ≡ false
          → (input.to == input.from) ≡ false
      apart_sym input h = ground (arith, eq_iff input.from input.to, eq_iff input.to input.from)

      owned_row :
          (input : TransferInput) (row : AccountRow) (a : Account)
          → a.type ≡ row.type
          → a.owner_id ≡ row.owner_id
          → (a.type ≡ system) ⊎ (a.owner_id ≡ some input.owner_id)
          → (row.type ≡ system) ⊎ (row.owner_id ≡ some input.owner_id)
      owned_row input row a t o (inl s) = inl (sym t ∙ s)
      owned_row input row a t o (inr s) = inr (sym o ∙ s)

  Runs-IsPermitted :
      (now : ℕ) (id : TransactionId) (input : TransferInput) (db : Db) (amount : ℤ)
      (currency : Currency) (key : Option String) (print : String) (r : Option TransferReceipt)
      {db' : Db}
      → IsAccepted input currency amount
      → Runs platform now
          (journal_of id input amount currency)
          currency
          input.owner_id
          key
          print
          db
          r
          db'
      → (db ≡ db') ⊎ IsPermitted input db
  unfolding IsPermitted
  Runs-IsPermitted now id input db amount currency none print r checks u =
      inr (Posts-IsPermitted now id input amount currency db checks u.posts)
  Runs-IsPermitted now id input db amount currency (some key) print r checks (inl replayed) =
      inl replayed.unchanged
  Runs-IsPermitted now id input db amount currency (some key) print r checks (inr k) =
      inr (Posts-IsPermitted now id input amount currency (with_claim key print db) checks k.posts)

  -- A transfer that returns a receipt, between accounts spelled as the database spells them, either
  -- replayed one and wrote nothing, or its source is a stored account that belongs to the system or
  -- to the caller.
  pub transfer-IsPermitted :
      (now : ℕ) (id : TransactionId) (input : TransferInput) (db : Db) {r : Option TransferReceipt}
      {db' : Db}
      → IsSpelled platform id input
      → transfer platform now id input db ≡ (ok (ok r), db')
      → (db ≡ db') ⊎ IsPermitted input db
  transfer-IsPermitted now id input db {r} spelled h =
      let s = transfer-Succeeds platform now id input db h in
      Runs-IsPermitted now id input db s.amount s.currency (key_of input.idempotency_key)
        (fingerprint platform input) r s.accepted_by
        (Succeeds-Runs platform now id input db spelled s)
