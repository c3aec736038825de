-- ===== src/Ledger/Commits.antt =====
-- The deferred trigger of drizzle/0004_ledger_invariants.sql against what the services write.
use miniledger.Base.{ℕ, pos, ◌≡◌, All, ok}
use miniledger.Kernel.Currency.{Currency}
use miniledger.Domain.Journal.{JournalTransaction}
use miniledger.Domain.Journal.Laws.{amount_sum}
use miniledger.Persistence.Store.{Db, TransferReceipt}
use miniledger.Persistence.Platform.{Platform, IsCanonical}
use miniledger.Persistence.Action.{with_transaction}
use miniledger.Application.Poster.{PostOptions, post}
use miniledger.Application.Poster.Effect.{post-Posts}
use miniledger.Ledger.Totals.{may_commit-IsBalanced}
use miniledger.Ledger.Invariant.{IsLedger}
use miniledger.Ledger.Posting.{IsLedger-Posts}

module _ (platform : Platform) where
  -- On tables that satisfy the invariant, a call of post that returns, for a balanced transaction
  -- whose ids are spelled as the database spells them, is committed: the trigger does not refuse it.
  pub post-with_transaction :
      (now : ℕ) (journal : JournalTransaction) (currency : Currency) (options : PostOptions)
      (db : Db) {receipt : TransferReceipt} {db' : Db}
      → IsLedger platform db
      → IsCanonical platform journal.id.value
      → All (λ p. IsCanonical platform p.account_id.value) journal.postings
      → amount_sum journal.postings ≡ pos 0
      → post platform now journal currency options db ≡ (ok receipt, db')
      → with_transaction (post platform now journal currency options) db ≡ (ok receipt, db')
  unfolding with_transaction
  post-with_transaction now journal currency options db {receipt} {db'} l cid c zero h =
      let posts = post-Posts platform now journal currency options db cid c h in
      let kept = IsLedger-Posts platform now journal currency options db c posts zero l in
      rw (h, may_commit-IsBalanced db db' kept.balanced)
