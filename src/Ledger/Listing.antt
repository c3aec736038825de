-- ===== src/Ledger/Listing.antt =====
-- AccountsService.listVisible against the ledger: what it lists, and that it always can.
use miniledger.Base.{
  ℕ, ◌≡◌, refl, sym, ap, ◌∙◌, inl, inr, String, Bool, true, false, ◌||◌, some, List, [], ◌∷◌, map,
  All, All-append, select, ok, ◌==◌, option_eq, Bool-cases, some-eq-some, ok-injective, subst,
}
use miniledger.Kernel.Currency
use miniledger.Kernel.Currency.{Currency}
use miniledger.Domain.Ids.{AccountId, account_id}
use miniledger.Domain.Account.{Account, is_system, is_owned_by, open_user}
use miniledger.Persistence.Store.{Db, AccountRow}
use miniledger.Persistence.Platform.{Platform}
use miniledger.Persistence.Accounts.{
  to_domain, to_row, all_to_domain, list_visible_to, row_is_system,
}
use miniledger.Application.Accounts.{OpenAccountInput, open_account, list_visible}
use miniledger.Ledger.Accounts.{open_account-cases}
use miniledger.Ledger.Untouched.Transfers.{transfer-Keeps}
use miniledger.Ledger.Untouched.Reversals.{reverse-Keeps}
use miniledger.Ledger.Reachable.{Step, opens, transfers, reverses, Reachable, migrated, after}

abbrev pub is_shown : String → AccountRow → Bool
is_shown subject r = option_eq r.owner_id (some subject) || row_is_system r.type

-- A row whose currency is a known one.
abbrev IsReadable : AccountRow → Type 0
IsReadable r = (c : Currency) × (Currency.of r.currency ≡ ok c)

-- The code of a currency is a known one.
code-known :
    (t code : String) {c d : Currency}
    → Currency.of code ≡ ok c
    → c ≡ d
    → c.code ≡ some code
    → d.code ≡ some t
    → (e : Currency) × (Currency.of t ≡ ok e)
code-known t code {c} {d} known same named coded =
    let spelled : t ≡ code = some-eq-some (sym coded ∙ ap (λ c. c.code) (sym same) ∙ named) in
    (c, rw spelled known)

pub of_code :
    (s t : String) {c : Currency}
    → Currency.of s ≡ ok c
    → c.code ≡ some t
    → (d : Currency) × (Currency.of t ≡ ok d)
unfolding Currency.of Currency.definition_of
of_code s t {c} known coded = elim (Bool-cases ("USD" == s)) [
  | inl usd ↦
      code-known t "USD" refl
        (ok-injective (rw (Currency.of, Currency.definition_of, usd) at known)) refl coded
  | inr not_usd ↦ elim (Bool-cases ("EUR" == s)) [
    | inl eur ↦
        code-known t "EUR" refl
          (ok-injective (rw (Currency.of, Currency.definition_of, not_usd, eur) at known)) refl
          coded
    | inr not_eur ↦ elim (Bool-cases ("JPY" == s)) [
      | inl jpy ↦
          code-known t "JPY" refl
            (ok-injective
              (rw (Currency.of, Currency.definition_of, not_usd, not_eur, jpy) at known))
            refl coded
      | inr not_jpy ↦ elim (Bool-cases (Currency.is_listed s Currency.inherited)) [
        | inl member ↦
            let missing = ok-injective (
              rw (Currency.of, Currency.definition_of, not_usd, not_eur, not_jpy, member) at
                known) in
            cc (ap (λ c. c.code) missing, coded)
        | inr unknown ↦
            cc (
              rw (Currency.of, Currency.definition_of, not_usd, not_eur, not_jpy, unknown) at known)
      ]
    ]
  ]
]

-- What listVisible gives: the rows of the system and of the caller, in the order of the table.
abbrev pub Lists : Platform → String → Db → Type 0
Lists platform subject db =
    (accounts : List Account) × (list_visible platform subject db ≡ (ok accounts, db))
    × (map (λ a. a.id.value) accounts ≡ map (λ r. r.id) (select (is_shown subject) db.accounts))
    × All (λ a. (is_system a || is_owned_by a subject) ≡ true) accounts

select-All :
    (P : AccountRow → Type 0) (p : AccountRow → Bool) (rows : List AccountRow)
    → All P rows
    → All (λ r. P r × (p r ≡ true)) (select p rows)
select-All P p [] h = tt
select-All P p (r ∷ rows) h = elim (Bool-cases (p r)) [
  | inl chosen ↦ rw chosen ((h.0, chosen), select-All P p rows h.1)
  | inr left_out ↦ rw left_out (select-All P p rows h.1)
]

or_comm : (a b : Bool) → (a || b) ≡ (b || a)
or_comm true true = refl
or_comm true false = refl
or_comm false true = refl
or_comm false false = refl

abbrev Shows : String → List AccountRow → Type 0
Shows subject rows =
    (accounts : List Account) × (all_to_domain rows ≡ ok accounts)
    × (map (λ a. a.id.value) accounts ≡ map (λ r. r.id) rows)
    × All (λ a. (is_system a || is_owned_by a subject) ≡ true) accounts

readable-Shows :
    (subject : String) (rows : List AccountRow)
    → All (λ r. IsReadable r × (is_shown subject r ≡ true)) rows
    → Shows subject rows
unfolding all_to_domain to_domain is_system is_owned_by
readable-Shows subject [] h = ([], refl, refl, tt)
readable-Shows subject (r ∷ rows) (((c, known), shown), h) =
    let (accounts, read, ids, mine) = readable-Shows subject rows h in
    let account : Account = record {
      id = account_id r.id;
      type = r.type;
      currency = c;
      overdraft_floor = r.overdraft_floor;
      handle = r.handle;
      owner_id = r.owner_id;
      created_at = r.created_at;
    } in
    (
      account ∷ accounts,
      rw (all_to_domain, to_domain, known, read) refl,
      ap (λ l. r.id ∷ l) ids,
      (or_comm (is_system account) (is_owned_by account subject) ∙ shown, mine),
    )

module _ (platform : Platform) where
  open_account-AreReadable :
      (now : ℕ) (id : AccountId) (input : OpenAccountInput) (db : Db)
      → All IsReadable db.accounts
      → All IsReadable (open_account platform now id input db).1.accounts
  unfolding to_row open_user
  open_account-AreReadable now id input db rs = elim (open_account-cases platform now id input db) [
    | inl kept ↦ subst (All IsReadable) (sym (ap (λ d. d.accounts) kept)) rs
    | inr (currency, key, code, known, coded, opening) ↦
        subst (All IsReadable) (ap (λ d. d.accounts) opening.written) (
          All-append IsReadable db.accounts
            (to_row (open_user id currency input.owner_id now) key code ∷ []) rs
            (of_code input.currency code known coded, tt))
  ]

  Step-AreReadable :
      {db db' : Db}
      → Step platform db db'
      → All IsReadable db.accounts
      → All IsReadable db'.accounts
  Step-AreReadable (opens now id input db) rs = open_account-AreReadable now id input db rs
  Step-AreReadable (transfers now id input db spelled) rs =
      subst (All IsReadable) (sym ((transfer-Keeps platform now id input).accounts_eq db)) rs
  Step-AreReadable (reverses now id t db spelled) rs =
      subst (All IsReadable) (sym ((reverse-Keeps platform now id t).accounts_eq db)) rs

  Reachable-AreReadable : {db : Db} → Reachable platform db → All IsReadable db.accounts
  unfolding Currency.of Currency.definition_of
  Reachable-AreReadable (migrated now usd eur jpy) = (
    (record { code = some "USD"; minor_unit_scale = some 2 }, refl),
    (
      (record { code = some "EUR"; minor_unit_scale = some 2 }, refl),
      ((record { code = some "JPY"; minor_unit_scale = some 0 }, refl), tt),
    ),
  )
  Reachable-AreReadable (after r s) = Step-AreReadable s (Reachable-AreReadable r)

-- After any calls of open, transfer (between accounts spelled as the database spells them) and
-- reverse from the migrated tables, the listing for a caller succeeds, and it gives exactly the
-- accounts of the system and the caller's, in the order of the table.
pub list_visible-Lists :
    (platform : Platform) (subject : String) (db : Db)
    → Reachable platform db
    → Lists platform subject db
unfolding list_visible list_visible_to
list_visible-Lists platform subject db r =
    let (accounts, read, ids, mine) =
      readable-Shows subject (select (is_shown subject) db.accounts)
        (select-All IsReadable (is_shown subject) db.accounts (Reachable-AreReadable platform r)) in
    (accounts, ap (λ r. (r, db)) read, ids, mine)
