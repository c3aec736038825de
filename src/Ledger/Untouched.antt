-- ===== src/Ledger/Untouched.antt =====
-- Calls that leave the accounts as they are: src/ledger/application/transfer.service.ts and
-- reverse.service.ts write no account.
pub mod Transfers
pub mod Reversals
use miniledger.Base.{
  ℕ, ℤ, ◌≡◌, refl, sym, ap, ◌∙◌, inl, inr, String, Bool, true, false, Option, none, some, List, [],
  ◌∷◌, Map, lookup, Result, ok, err, Result-cases, Bool-cases, leb_ℤ, ◌==◌, pos, if◌then◌else◌,
}
use miniledger.Domain.Ids.{AccountId, account_id, TransactionId}
use miniledger.Kernel.Currency
use miniledger.Kernel.Currency.{Currency, CurrencyError}
use miniledger.Kernel.Money.{CurrencyMismatchError}
use miniledger.Domain.Journal.{JournalTransaction, JournalError}
use miniledger.Persistence.Failure.{Failure, PostingError}
use miniledger.Persistence.Store.{
  Db, LockedBalance, TransactionRow, PostingRow, KeyRow, TransferReceipt,
}
use miniledger.Persistence.Platform.{Platform}
use miniledger.Persistence.Action.{
  Action, pure, throw, lift, gets, throw_if, modify, unless_missing, with_transaction, ◌>>=◌, ◌>>◌,
}
use miniledger.Persistence.Action.Laws.{with_transaction-cases}
use miniledger.Persistence.Accounts.{find_by_id}
use miniledger.Persistence.Balances.{is_some, lock_for_update, update_balance}
use miniledger.Persistence.Journals.{
  PostingLine, insert_transaction, insert_postings, parse_optional, append, find_transaction,
  has_reversal, append_event,
}
use miniledger.Persistence.Idempotency.{
  claimed, IdempotencyClaim, owned, taken, insert_key, claim, complete,
}
use miniledger.Application.Poster.{PostOptions, find_all, update_all, post}

-- Whatever comes of the call, the accounts are those of before.
pub record Keeps {A : Type 0} (m : Action A) : Type 0 where
  pub accounts_eq : (db : Db) → (m db).1.accounts ≡ db.accounts

module _ {A : Type 0} where
  pub pure-Keeps : (a : A) → Keeps (pure a)
  unfolding pure
  pure-Keeps a = record { accounts_eq = λ db. refl }

  pub throw-Keeps : (e : Failure) → Keeps {A = A} (throw e)
  unfolding throw
  throw-Keeps e = record { accounts_eq = λ db. refl }

  pub lift-Keeps : (r : Result A Failure) → Keeps (lift r)
  unfolding lift
  lift-Keeps r = record { accounts_eq = λ db. refl }

  pub gets-Keeps : (f : Db → A) → Keeps (gets f)
  unfolding gets
  gets-Keeps f = record { accounts_eq = λ db. refl }

  pub unless_missing-Keeps : (o : Option A) (e : Failure) → Keeps (unless_missing o e)
  unfolding unless_missing
  unless_missing-Keeps none e = record { accounts_eq = λ db. refl }
  unless_missing-Keeps (some a) e = record { accounts_eq = λ db. refl }

pub throw_if-Keeps : (b : Bool) (e : Failure) → Keeps (throw_if b e)
unfolding throw_if
throw_if-Keeps b e = record { accounts_eq = λ db. refl }

modify-Keeps : (f : Db → Db) → ((db : Db) → (f db).accounts ≡ db.accounts) → Keeps (modify f)
unfolding modify
modify-Keeps f h = record { accounts_eq = h }

pub bind-Keeps :
    {A B : Type 0} {m : Action A} {f : A → Action B}
    → Keeps m
    → ((a : A) → Keeps (f a))
    → Keeps (m >>= f)
unfolding ◌>>=◌
bind-Keeps {m} {f} km kf = record {
  accounts_eq = λ db. elim (Result-cases (m db).0) [
    | inl (a, done) ↦ rw done ((kf a).accounts_eq (m db).1 ∙ km.accounts_eq db)
    | inr (e, failed) ↦ rw failed (km.accounts_eq db)
  ];
}

pub with_transaction-Keeps : {A : Type 0} {m : Action A} → Keeps m → Keeps (with_transaction m)
with_transaction-Keeps {m} k = record {
  accounts_eq = λ db. elim (with_transaction-cases m db) [
    | inl (a, ran, returned, committed) ↦ sym (ap (λ p. p.1.accounts) ran) ∙ k.accounts_eq db
    | inr (e, undone) ↦ ap (λ p. p.1.accounts) undone
  ];
}

insert_transaction-Keeps : (row : TransactionRow) → Keeps (insert_transaction row)
unfolding insert_transaction
insert_transaction-Keeps row = bind-Keeps (gets-Keeps _) (λ rows.
    bind-Keeps (throw_if-Keeps _ _) (λ _.
      bind-Keeps (throw_if-Keeps _ _)
        (λ _. bind-Keeps (throw_if-Keeps _ _) (λ _. modify-Keeps _ (λ db. refl)))))

append_event-Keeps : (type : String) (payload : TransferReceipt) → Keeps (append_event type payload)
unfolding append_event
append_event-Keeps type payload = modify-Keeps _ (λ db. refl)

insert_key-Keeps : (key fingerprint : String) → Keeps (insert_key key fingerprint)
unfolding insert_key
insert_key-Keeps key fingerprint = record {
  accounts_eq = λ db. elim (Bool-cases (is_some (lookup key db.idempotency_keys))) [
    | inl taken_key ↦ rw taken_key refl
    | inr fresh ↦ rw fresh refl
  ];
}

claimed-Keeps : (key : String) (o : Option KeyRow) → Keeps (claimed key o)
claimed-Keeps key none = throw-Keeps _
claimed-Keeps key (some row) = pure-Keeps _

pub if-Keeps :
    {A : Type 0} (b : Bool) {m n : Action A} → Keeps m → Keeps n → Keeps (if b then m else n)
if-Keeps true km kn = km
if-Keeps false km kn = kn

pub claim-Keeps : (key fingerprint : String) → Keeps (claim key fingerprint)
unfolding claim
claim-Keeps key fingerprint = bind-Keeps (insert_key-Keeps key fingerprint) (λ inserted.
    bind-Keeps (gets-Keeps _) (λ row. if-Keeps inserted (pure-Keeps _) (claimed-Keeps key row)))

lock_for_update-Keeps :
    (platform : Platform) (ids : List AccountId) → Keeps (lock_for_update platform ids)
unfolding lock_for_update
lock_for_update-Keeps platform ids = record { accounts_eq = λ db. refl }

module _ (platform : Platform) where
  find_by_id-Keeps : (id : AccountId) → Keeps (find_by_id platform id)
  unfolding find_by_id
  find_by_id-Keeps id =
      bind-Keeps (unless_missing-Keeps _ _) (λ key. bind-Keeps (gets-Keeps _) (λ row. lift-Keeps _))

  find_all-Keeps : (ids : List AccountId) → Keeps (find_all platform ids)
  unfolding find_all
  find_all-Keeps [] = pure-Keeps _
  find_all-Keeps (id ∷ ids) =
      bind-Keeps (find_by_id-Keeps id) (λ a. bind-Keeps (find_all-Keeps ids) (λ rest. pure-Keeps _))

  update_all-Keeps : (running : Map LockedBalance) → Keeps (update_all platform running)
  unfolding update_all update_balance
  update_all-Keeps [] = pure-Keeps _
  update_all-Keeps ((key, state) ∷ running) =
      bind-Keeps
        (bind-Keeps (unless_missing-Keeps _ _)
          (λ id. bind-Keeps (throw_if-Keeps _ _) (λ _. modify-Keeps _ (λ db. refl))))
        (λ _. update_all-Keeps running)

  insert_postings-Keeps : (rows : List PostingRow) → Keeps (insert_postings platform rows)
  unfolding insert_postings
  insert_postings-Keeps rows =
      bind-Keeps (gets-Keeps _)
        (λ accounts. bind-Keeps (lift-Keeps _) (λ stored. modify-Keeps _ (λ db. refl)))

  parse_optional-Keeps : (o : Option String) → Keeps (parse_optional platform o)
  parse_optional-Keeps none = pure-Keeps _
  parse_optional-Keeps (some s) = bind-Keeps (unless_missing-Keeps _ _) (λ id. pure-Keeps _)

  pub complete-Keeps :
      (key id : String) (response : Option TransferReceipt)
      → Keeps (complete platform key id response)
  unfolding complete
  complete-Keeps key id response = bind-Keeps (unless_missing-Keeps _ _) (λ transaction.
      bind-Keeps (gets-Keeps _)
        (λ rows. bind-Keeps (throw_if-Keeps _ _) (λ _. modify-Keeps _ (λ db. refl))))

  append-Keeps :
      (now : ℕ) (journal : JournalTransaction) (lines : List PostingLine) (reverses : Option String)
      → Keeps (append platform now journal lines reverses)
  unfolding append
  append-Keeps now journal lines reverses = bind-Keeps (throw_if-Keeps _ _) (λ _.
      bind-Keeps (unless_missing-Keeps _ _) (λ id.
        bind-Keeps (unless_missing-Keeps _ _) (λ currency.
          bind-Keeps (parse_optional-Keeps reverses) (λ reversed.
            bind-Keeps (insert_transaction-Keeps _)
              (λ _. bind-Keeps (gets-Keeps _) (λ seq. insert_postings-Keeps _))))))

  pub post-Keeps :
      (now : ℕ) (journal : JournalTransaction) (currency : Currency) (options : PostOptions)
      → Keeps (post platform now journal currency options)
  unfolding post
  post-Keeps now journal currency options = bind-Keeps (find_all-Keeps _) (λ accounts.
      bind-Keeps (lift-Keeps _) (λ maps. bind-Keeps (lift-Keeps _) (λ _.
        bind-Keeps (lock_for_update-Keeps platform _) (λ locked.
          bind-Keeps (lift-Keeps _) (λ posted. bind-Keeps (append-Keeps now journal _ _) (λ _.
            bind-Keeps (update_all-Keeps _)
              (λ _. bind-Keeps (append_event-Keeps _ _) (λ _. pure-Keeps _))))))))
