-- ===== src/Seed/Seeded.antt =====
-- Tables in which the owner of src/seed.ts has an account.
use miniledger.Base.{
  ℕ, ◌≡◌, refl, sym, ap, subst, false, inl, inr, String, true, false, List, [], ◌∷◌, ◌++◌, select,
  select-append, Result, ok, Result-cases, Bool-cases, ok-injective, eq_self,
}
use miniledger.Kernel.Currency
use miniledger.Kernel.Currency.{Currency}
use miniledger.Domain.Ids.{AccountId, account_id}
use miniledger.Domain.Account.{Account, is_system, open_user}
use miniledger.Persistence.Failure.{Failure}
use miniledger.Persistence.Store.{AccountRow}
use miniledger.Persistence.Accounts.{to_domain, to_row, all_to_domain}
use miniledger.Persistence.Store.{Db}
use miniledger.Persistence.Platform.{Platform}
use miniledger.Application.Accounts.{OpenAccountInput, open_account}
use miniledger.Ledger.Accounts.{open_account-cases}
use miniledger.Ledger.Listing.{of_code}
use miniledger.Ledger.Untouched.Transfers.{transfer-Keeps}
use miniledger.Ledger.Untouched.Reversals.{reverse-Keeps}
use miniledger.Ledger.Reachable.{Step, opens, transfers, reverses}
use miniledger.Ledger.History.{Later, at_once, next}
use miniledger.Seed.{has_user}
use miniledger.Ledger.Listing.{is_shown}

abbrev pub shown : String → List AccountRow → Result (List Account) Failure
shown owner rows = all_to_domain (select (is_shown owner) rows)

-- The owner's accounts can be read, and one of them is a user's.
pub record IsSeeded (owner : String) (rows : List AccountRow) : Type 0 where
  pub accounts : List Account
  pub read : shown owner rows ≡ ok accounts
  pub applied : has_user accounts ≡ true

all_to_domain-append :
    (rows : List AccountRow) (row : AccountRow) {accounts : List Account} {a : Account}
    → all_to_domain rows ≡ ok accounts
    → to_domain row ≡ ok a
    → all_to_domain (rows ++ row ∷ []) ≡ ok (accounts ++ a ∷ [])
unfolding all_to_domain
all_to_domain-append [] row {accounts} {a} h k =
    rw (all_to_domain, k) (ap (λ l. ok (l ++ a ∷ [])) (ok-injective h))
all_to_domain-append (r ∷ rows) row {accounts} {a} h k = elim (Result-cases (to_domain r)) [
  | inr (e, bad) ↦ cc (rw (all_to_domain, bad) at h)
  | inl (b, good) ↦ elim (Result-cases (all_to_domain rows)) [
    | inr (e, bad) ↦ cc (rw (all_to_domain, good, bad) at h)
    | inl (rest, read) ↦
        rw (all_to_domain, good, all_to_domain-append rows row read k)
          (ap (λ l. ok (l ++ a ∷ [])) (ok-injective (rw (all_to_domain, good, read) at h)))
  ]
]

has_user-append :
    (accounts : List Account) (a : Account)
    → is_system a ≡ false
    → has_user (accounts ++ a ∷ []) ≡ true
unfolding has_user
has_user-append [] a h = rw h refl
has_user-append (b ∷ accounts) a h = elim (Bool-cases (is_system b)) [
  | inl s ↦ rw s (has_user-append accounts a h)
  | inr s ↦ rw s refl
]

-- A user's row, added to rows that can be read.
added-IsSeeded :
    (owner : String) (rows : List AccountRow) (row : AccountRow) {accounts : List Account}
    {a : Account}
    → shown owner rows ≡ ok accounts
    → is_shown owner row ≡ true
    → to_domain row ≡ ok a
    → is_system a ≡ false
    → IsSeeded owner (rows ++ row ∷ [])
added-IsSeeded owner rows row {accounts} {a} read mine readable user = record {
  accounts = accounts ++ a ∷ [];
  read =
      rw (select-append (is_shown owner) rows (row ∷ []), mine)
        (all_to_domain-append (select (is_shown owner) rows) row read readable);
  applied = has_user-append accounts a user;
}

pub opened-IsSeeded :
    (owner : String) (rows : List AccountRow) (id : AccountId) (key code : String) (now : ℕ)
    {currency : Currency} {accounts : List Account}
    → Currency.of code ≡ ok currency
    → shown owner rows ≡ ok accounts
    → IsSeeded owner (rows ++ to_row (open_user id currency owner now) key code ∷ [])
unfolding to_row open_user to_domain is_system
opened-IsSeeded owner rows id key code now {currency} known read =
    added-IsSeeded owner rows (to_row (open_user id currency owner now) key code)
      {a = open_user (account_id key) currency owner now} read (rw (eq_self owner) refl)
      (rw (to_domain, known) refl) refl

has_user-kept :
    (accounts : List Account) (a : Account)
    → has_user accounts ≡ true
    → has_user (accounts ++ a ∷ []) ≡ true
unfolding has_user
has_user-kept [] a h = cc h
has_user-kept (b ∷ accounts) a h = elim (Bool-cases (is_system b)) [
  | inl s ↦ rw s (has_user-kept accounts a (rw (has_user, s) at h))
  | inr s ↦ rw s refl
]

append-nil : (rows : List AccountRow) → rows ++ [] ≡ rows
append-nil [] = refl
append-nil (r ∷ rows) = ap (λ rs. r ∷ rs) (append-nil rows)

-- A row that can be read, whoever it belongs to, added to a seeded table.
appended-IsSeeded :
    (owner : String) (rows : List AccountRow) (row : AccountRow) {a : Account}
    → to_domain row ≡ ok a
    → IsSeeded owner rows
    → IsSeeded owner (rows ++ row ∷ [])
appended-IsSeeded owner rows row {a} readable s = elim (Bool-cases (is_shown owner row)) [
  | inl mine ↦ record {
    accounts = s.accounts ++ a ∷ [];
    read =
        rw (select-append (is_shown owner) rows (row ∷ []), mine)
          (all_to_domain-append (select (is_shown owner) rows) row s.read readable);
    applied = has_user-kept s.accounts a s.applied;
  }
  | inr hidden ↦ record {
    accounts = s.accounts;
    read =
        rw
          (
            select-append (is_shown owner) rows (row ∷ []),
            hidden,
            append-nil (select (is_shown owner) rows),
          )
          (s.read);
    applied = s.applied;
  }
]

module _ (platform : Platform) (owner : String) where
  open_account-IsSeeded :
      (now : ℕ) (id : AccountId) (input : OpenAccountInput) (db : Db)
      → IsSeeded owner db.accounts
      → IsSeeded owner (open_account platform now id input db).1.accounts
  unfolding to_row to_domain open_user
  open_account-IsSeeded now id input db s = elim (open_account-cases platform now id input db) [
    | inl kept ↦ subst (IsSeeded owner) (sym (ap (λ d. d.accounts) kept)) s
    | inr (currency, key, code, known, coded, opening) ↦
        let (read, found) = of_code input.currency code known coded in
        subst (IsSeeded owner) (ap (λ d. d.accounts) opening.written) (
          appended-IsSeeded owner db.accounts
            (to_row (open_user id currency input.owner_id now) key code)
            {a = open_user (account_id key) read input.owner_id now} (rw (to_domain, found) refl) s)
  ]

  Step-IsSeeded :
      {db db' : Db}
      → Step platform db db'
      → IsSeeded owner db.accounts
      → IsSeeded owner db'.accounts
  Step-IsSeeded (opens now id input db) s = open_account-IsSeeded now id input db s
  Step-IsSeeded (transfers now id input db spelled) s =
      subst (IsSeeded owner) (sym ((transfer-Keeps platform now id input).accounts_eq db)) s
  Step-IsSeeded (reverses now id t db spelled) s =
      subst (IsSeeded owner) (sym ((reverse-Keeps platform now id t).accounts_eq db)) s

  -- Whatever is opened, moved and reversed, the owner has an account.
  pub Later-IsSeeded :
      {db db' : Db}
      → Later platform db db'
      → IsSeeded owner db.accounts
      → IsSeeded owner db'.accounts
  Later-IsSeeded at_once s = s
  Later-IsSeeded (next before step) s = Step-IsSeeded step (Later-IsSeeded before s)
