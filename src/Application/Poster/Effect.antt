-- ===== src/Application/Poster/Effect.antt =====
-- What a successful call of LedgerPoster.post leaves in the tables, and what it has checked.
use miniledger.Base.{
  ℕ, ℤ, ◌≡◌, sym, ap, ◌∙◌, String, Option, List, [], ◌∷◌, ◌++◌, map, All, Map, ok, some-eq-some,
}
use miniledger.Kernel.Currency.{Currency}
use miniledger.Domain.Ids.{AccountId, account_id}
use miniledger.Domain.Account.{Account}
use miniledger.Domain.Journal.{Posting, JournalTransaction}
use miniledger.Persistence.Store.{Db, LockedBalance, TransferReceipt}
use miniledger.Persistence.Platform.{Platform, IsCanonical}
use miniledger.Persistence.Action.{Action, ◌>>=◌, ◌>>◌, lift, pure}
use miniledger.Persistence.Action.Laws.{
  bind-ok, throw_if-then, unless_missing-then, lift-then, modify-ok, modify-then, pure-ok,
}
use miniledger.Persistence.Balances.{
  set_where, lock_order, lock_from, lock_for_update, update_balance,
}
use miniledger.Persistence.Balances.Laws.{write_all}
use miniledger.Persistence.Balances.Locks.{HasCanonicalKeys, lock_for_update-IsLocked}
use miniledger.Persistence.Journals.{PostingLine, append, append_event}
use miniledger.Persistence.Journals.Laws.{Appends, append-Appends}
use miniledger.Application.Poster.{
  Involved, nobody, PostOptions, check_accounts, check_required_owner, run_postings, update_all,
  receipt_of, post,
}
use miniledger.Application.Poster.Running.{run_postings-HasCanonicalKeys}
use miniledger.Application.Poster.Lookups.{Fetched, find_all-Fetched}

abbrev pub involved : JournalTransaction → List AccountId
involved journal = map (λ p. p.account_id) journal.postings

module _ (platform : Platform) where
  update_balance-ok :
      (id : AccountId) (state : LockedBalance) (db : Db) {db' : Db}
      → IsCanonical platform id.value
      → update_balance platform id state.balance state.chain_hash db ≡ (ok tt, db')
      → record db { balances = set_where id.value state db.balances } ≡ db'
  unfolding update_balance
  update_balance-ok id state db c h =
      let (key, key_eq, h1) = unless_missing-then _ _ _ db h in
      let (fits, h2) = throw_if-then _ _ _ db h1 in
      rw (some-eq-some (sym c ∙ key_eq)) (modify-ok _ db h2)

  update_all-ok :
      (running : Map LockedBalance) (db : Db) {db' : Db}
      → HasCanonicalKeys platform running
      → update_all platform running db ≡ (ok tt, db')
      → record db { balances = write_all running db.balances } ≡ db'
  unfolding update_all write_all
  update_all-ok [] db c h = (pure-ok tt db h).1
  update_all-ok ((key, state) ∷ running) db {db'} c h =
      let b = bind-ok _ _ h in
      let first = update_balance-ok (account_id key) state db c.0 b.first in
      update_all-ok running (record db { balances = set_where key state db.balances }) c.1
        (rw (← first) at (b.rest))

  -- A call that returns: what it read and checked, and the tables it leaves.
  pub record Posts (now : ℕ) (journal : JournalTransaction) (currency : Currency)
      (options : PostOptions) (db : Db) (receipt : TransferReceipt) (db' : Db) : Type 0 where
    pub found : List (Option Account)
    pub fetched : Fetched platform db (involved journal) found
    pub maps : Involved
    pub checked : check_accounts currency found nobody ≡ ok maps
    pub owned : check_required_owner options.require_owner maps.by_id journal.postings ≡ ok tt
    pub locked : Map LockedBalance
    pub locked_eq : lock_from platform db.balances [] (lock_order (involved journal)) ≡ ok locked
    pub lines : List PostingLine
    pub running : Map LockedBalance
    pub run :
        run_postings platform currency maps.floors journal.id.value journal.postings locked
        ≡ ok (lines, running)
    pub middle : Db
    pub appends : Appends platform now journal lines options.reverses_transaction_id db middle
    pub receipt_eq : receipt_of platform journal currency lines ≡ receipt
    pub written :
        record middle {
          balances = write_all running middle.balances;
          outbox =
              middle.outbox
              ++ record {
                type = options.event_type;
                payload = receipt_of platform journal currency lines;
              }
                ∷ [];
        }
        ≡ db'

  pub ids-IsCanonical :
      (ps : List Posting)
      → All (λ p. IsCanonical platform p.account_id.value) ps
      → All (λ id. IsCanonical platform id.value) (map (λ p. p.account_id) ps)
  ids-IsCanonical [] c = tt
  ids-IsCanonical (p ∷ ps) c = (c.0, ids-IsCanonical ps c.1)

  lock_for_update-ok :
      (ids : List AccountId) (db : Db) {locked : Map LockedBalance} {db' : Db}
      → lock_for_update platform ids db ≡ (ok locked, db')
      → (lock_from platform db.balances [] (lock_order ids) ≡ ok locked) × (db ≡ db')
  unfolding lock_for_update
  lock_for_update-ok ids db h = (ap (λ r. r.0) h, ap (λ r. r.1) h)

  -- The keys of the running balances are canonical, since the locked ones are.
  running-HasCanonicalKeys :
      (currency : Currency) (floors : Map (Option ℤ)) (id : String) (ps : List Posting) (db : Db)
      {locked running : Map LockedBalance} {lines : List PostingLine}
      → All (λ p. IsCanonical platform p.account_id.value) ps
      → lock_from platform db.balances [] (lock_order (map (λ p. p.account_id) ps)) ≡ ok locked
      → run_postings platform currency floors id ps locked ≡ ok (lines, running)
      → HasCanonicalKeys platform running
  running-HasCanonicalKeys currency floors id ps db {locked} c e run =
      let locks =
        lock_for_update-IsLocked platform (map (λ p. p.account_id) ps) db {m = locked}
          (ids-IsCanonical ps c) e in
      run_postings-HasCanonicalKeys platform currency floors id ps locked c run locks.canonical

  -- The writes that end the call: the balances, the event and the receipt.
  finish-ok :
      (running : Map LockedBalance) (type : String) (receipt : TransferReceipt) (db : Db)
      {receipt' : TransferReceipt} {db' : Db}
      → HasCanonicalKeys platform running
      → (update_all platform running >> (append_event type receipt >> pure receipt)) db
        ≡ (ok receipt', db')
      → (receipt ≡ receipt')
        × (record db {
          balances = write_all running db.balances;
          outbox = db.outbox ++ record { type = type; payload = receipt } ∷ [];
        }
            ≡ db')
  unfolding append_event
  finish-ok running type receipt db c h =
      let b = bind-ok _ _ h in
      let balances = update_all-ok running db c b.first in
      let h1 = modify-then _ _ _ (rw (← balances) at (b.rest)) in pure-ok receipt _ h1

  -- `post` after the checks of the accounts.
  abbrev post_checked :
      ℕ → JournalTransaction → Currency → PostOptions → Involved → Action TransferReceipt
  post_checked now journal currency options maps = do
    locked ← lock_for_update platform (involved journal)
    posted ←
        lift (run_postings platform currency maps.floors journal.id.value journal.postings locked)
    append platform now journal posted.0 options.reverses_transaction_id
    update_all platform posted.1
    append_event options.event_type (receipt_of platform journal currency posted.0)
    pure (receipt_of platform journal currency posted.0)

  post_checked-Posts :
      (now : ℕ) (journal : JournalTransaction) (currency : Currency) (options : PostOptions)
      (db : Db) (found : List (Option Account)) (maps : Involved) {receipt : TransferReceipt}
      {db' : Db}
      → IsCanonical platform journal.id.value
      → All (λ p. IsCanonical platform p.account_id.value) journal.postings
      → Fetched platform db (involved journal) found
      → check_accounts currency found nobody ≡ ok maps
      → check_required_owner options.require_owner maps.by_id journal.postings ≡ ok tt
      → post_checked now journal currency options maps db ≡ (ok receipt, db')
      → Posts now journal currency options db receipt db'
  post_checked-Posts now journal currency options db found maps cid c fetched checked owned h =
      let b2 = bind-ok _ _ h in
      let (locked_eq, same) = lock_for_update-ok (involved journal) db b2.first in
      let (posted, run, h4) = lift-then _ _ db (rw (← same) at (b2.rest)) in
      let b3 = bind-ok _ _ h4 in
      let (receipt_eq, written) =
        finish-ok posted.1 options.event_type _ b3.middle
          (running-HasCanonicalKeys currency maps.floors journal.id.value journal.postings db
            {locked = b2.value} c locked_eq run)
          b3.rest in
      record {
        found = found;
        fetched = fetched;
        maps = maps;
        checked = checked;
        owned = owned;
        locked = b2.value;
        locked_eq = locked_eq;
        lines = posted.0;
        running = posted.1;
        run = run;
        middle = b3.middle;
        appends =
            append-Appends platform now journal posted.0 options.reverses_transaction_id db cid c
              b3.first;
        receipt_eq = receipt_eq;
        written = written;
      }

  pub post-Posts :
      (now : ℕ) (journal : JournalTransaction) (currency : Currency) (options : PostOptions)
      (db : Db) {receipt : TransferReceipt} {db' : Db}
      → IsCanonical platform journal.id.value
      → All (λ p. IsCanonical platform p.account_id.value) journal.postings
      → post platform now journal currency options db ≡ (ok receipt, db')
      → Posts now journal currency options db receipt db'
  unfolding post
  post-Posts now journal currency options db {receipt} {db'} cid c h =
      let b1 = bind-ok _ _ h in
      let (same1, fetched) =
        find_all-Fetched platform (involved journal) (ids-IsCanonical journal.postings c)
          b1.first in
      let (maps, checked, h2) = lift-then _ _ db (rw (← same1) at (b1.rest)) in
      let (u, owned, h3) = lift-then _ _ db h2 in
      post_checked-Posts now journal currency options db b1.value maps cid c fetched checked owned
        h3
