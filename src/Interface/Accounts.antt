-- ===== src/Interface/Accounts.antt =====
-- src/ledger/interface/accounts.controller.ts. A date in a response is the number that stands for it.
use miniledger.Base.{
  ℕ, ℤ, to_string, ◌≡◌, refl, sym, ap, ◌∙◌, ◌⊎◌, inl, inr, String, true, Option, none, some, List,
  [], ◌∷◌, map, Result, ok, err, Bool-cases, some-eq-some, option_eq→eq, ◌||◌, arith,
}
use miniledger.Domain.Ids.{AccountId, account_id}
use miniledger.Domain.Account.{
  Account, AccountType, user, system, type_is_system, is_system, is_owned_by,
}
use miniledger.Persistence.Store.{Db}
use miniledger.Persistence.Platform.{Platform, IsCanonical}
use miniledger.Persistence.Action.{Action, pure, lift, ◌>>=◌}
use miniledger.Persistence.Action.Laws.{bind-ok, pure-ok}
use miniledger.Persistence.Accounts.{domain_of}
use miniledger.Persistence.Statements.{StatementEntry}
use miniledger.Application.Poster.Lookups.{row_at, find_by_id_canonical}
use miniledger.Application.Accounts.{
  OpenAccountError, visible_to, open_account, get_visible, list_visible, balance_of,
}
use miniledger.Application.Statements.{Statement, for_account}
use miniledger.Interface.Problems.{ProblemDetails, problem}

pub record AccountResponse : Type 0 where
  pub id : String
  pub type : AccountType
  pub currency : Option String
  pub balance : String
  pub overdraft_floor : Option String
  pub created_at : ℕ

pub record StatementEntryResponse : Type 0 where
  pub seq : ℕ
  pub transaction_id : String
  pub amount : String
  pub balance_after : String
  pub created_at : ℕ

pub record StatementResponse : Type 0 where
  pub entries : List StatementEntryResponse
  pub next_cursor : Option ℕ

abbrev pub printed_floor : Option ℤ → Option String
printed_floor none = none
printed_floor (some floor) = some (to_string floor)

-- `toResponse`
abbrev pub to_response : Account → ℤ → AccountResponse
to_response a balance = record {
  id = a.id.value;
  type = a.type;
  currency = a.currency.code;
  balance = to_string balance;
  overdraft_floor = printed_floor a.overdraft_floor;
  created_at = a.created_at;
}

abbrev pub account_not_found : ProblemDetails
account_not_found = record {
  type = "about:blank";
  title = "Account not found";
  status = 404;
  detail = none;
}

abbrev pub entry_response : StatementEntry → StatementEntryResponse
entry_response e = record {
  seq = e.seq;
  transaction_id = e.transaction_id;
  amount = to_string e.amount;
  balance_after = to_string e.balance_after;
  created_at = e.created_at;
}

abbrev pub statement_reply : Option Statement → Action (Result StatementResponse ProblemDetails)
statement_reply none = pure (err account_not_found)
statement_reply (some statement) = pure (
    ok (record {
      entries = map entry_response statement.entries;
      next_cursor = statement.next_cursor;
    }))

module _ (platform : Platform) where
  abbrev pub with_balance : Account → Action AccountResponse
  with_balance a = do balance ← balance_of platform a.id; pure (to_response a balance)

  abbrev pub opened_reply :
      Result Account OpenAccountError → Action (Result AccountResponse ProblemDetails)
  opened_reply (err _) = pure (err (problem 422 "Unknown currency" "unknown_currency"))
  opened_reply (ok account) = do response ← with_balance account; pure (ok response)

  -- `open`, with the principal's subject
  unfoldable pub create_account :
      ℕ → AccountId → String → String → Action (Result AccountResponse ProblemDetails)
  create_account now id currency subject = do
    result ← open_account platform now id (record { currency = currency; owner_id = subject })
    opened_reply result

  abbrev pub found_reply : Option Account → Action (Result AccountResponse ProblemDetails)
  found_reply none = pure (err account_not_found)
  found_reply (some account) = do response ← with_balance account; pure (ok response)

  -- `getById`
  unfoldable pub get_by_id : String → String → Action (Result AccountResponse ProblemDetails)
  get_by_id id subject = do account ← get_visible platform id subject; found_reply account

  -- The responses of `list`, one account after the other.
  unfoldable pub with_balances : List Account → Action (List AccountResponse)
  with_balances [] = pure []
  with_balances (a ∷ accounts) = do
    response ← with_balance a
    rest ← with_balances accounts
    pure (response ∷ rest)

  -- `list`
  unfoldable pub list_accounts : String → Action (List AccountResponse)
  list_accounts subject = do accounts ← list_visible platform subject; with_balances accounts

  -- `statement`
  unfoldable pub get_statement :
      String → String → ℕ → Option ℕ → Action (Result StatementResponse ProblemDetails)
  get_statement id subject limit cursor = do
    statement ← for_account platform id subject limit cursor
    statement_reply statement

  visible_to-some :
      (subject : String) (o : Option Account) {a : Account}
      → visible_to subject o ≡ some a
      → (o ≡ some a) × ((a.type ≡ system) ⊎ (a.owner_id ≡ some subject))
  unfolding is_system is_owned_by
  visible_to-some subject none h = cc h
  visible_to-some subject (some b) {a} h =
      elim (Bool-cases (is_system b || is_owned_by b subject)) [
        | inr hidden ↦ cc (rw hidden at h)
        | inl shown ↦
            let same : b ≡ a = some-eq-some (rw shown at h) in
            rw (← same)
              (refl, ground (arith, option_eq→eq b.owner_id (some subject), system_of b.type))
      ]
    where
      system_of : (t : AccountType) → type_is_system t ≡ true → t ≡ system
      system_of user e = cc e
      system_of system e = refl

  get_visible-ok :
      (id subject : String) (db : Db) {o : Option Account} {db' : Db}
      → IsCanonical platform id
      → get_visible platform id subject db ≡ (ok o, db')
      → (p : Option Account) × (domain_of (row_at db id) ≡ ok p) × (visible_to subject p ≡ o)
  unfolding get_visible lift
  get_visible-ok id subject db c h =
      let b = bind-ok _ _ h in
      let (shown, same) = pure-ok _ _ b.rest in
      let read = sym (find_by_id_canonical platform (account_id id) db c) ∙ b.first in
      (b.value, ap (λ r. r.0) read, shown)

  -- The account behind a response.
  abbrev pub IsShown : String → String → Db → Type 0
  IsShown id subject db =
      (a : Account) × (domain_of (row_at db id) ≡ ok (some a))
      × ((a.type ≡ system) ⊎ (a.owner_id ≡ some subject))

  -- A request for one account, by a canonical id, is answered with the account only if a stored account
  -- has that id and it is the system's or the caller's.
  pub get_by_id-IsShown :
      (id subject : String) (db : Db) {response : AccountResponse}
      → IsCanonical platform id
      → (get_by_id id subject db).0 ≡ ok (ok response)
      → IsShown id subject db
  unfolding get_by_id
  get_by_id-IsShown id subject db {response} c h =
      let b = bind-ok _ _ (ap (λ r. (r, (get_by_id id subject db).1)) h) in
      let (p, found, shown) = get_visible-ok id subject db c b.first in
      let (a, some_a) = answered b.value b.middle b.rest in
      let (stored, mine) = visible_to-some subject p {a = a} (shown ∙ some_a) in
      (a, found ∙ ap ok stored, mine)
    where
      answered :
          (o : Option Account) (db : Db) {response : AccountResponse} {db' : Db}
          → found_reply o db ≡ (ok (ok response), db')
          → (a : Account) × (o ≡ some a)
      answered none db e = cc (pure-ok _ db e).0
      answered (some a) db e = (a, refl)
