-- ===== src/Ledger/Movements.antt =====
-- What a transfer does to the balances.
use miniledger.Base.{
  ℕ, suc, ℤ, pos, ◌+ℤ◌, neg_ℤ, +ℤ_assoc, zero-+ℤ, +ℤ-zero, ◌≡◌, refl, sym, ap, ◌∙◌, ◌⊎◌, inl, inr,
  String, Option, none, some, List, [], ◌∷◌, All, lookup, ok, length, ◌==◌, if◌then◌else◌,
  Bool-cases, subst, arith,
}
use miniledger.Kernel.Currency.{Currency}
use miniledger.Kernel.Money
use miniledger.Domain.Ids.{TransactionId}
use miniledger.Domain.Journal.{Posting, JournalTransaction}
use miniledger.Domain.BalanceFold.{posted_to}
use miniledger.Persistence.Store.{Db, LockedBalance, PostingRow, TransferReceipt}
use miniledger.Persistence.Platform.{Platform, IsCanonical}
use miniledger.Persistence.Action.{sum_amounts}
use miniledger.Persistence.Balances.Laws.{write_all}
use miniledger.Persistence.Journals.{PostingLine, to_posting_rows}
use miniledger.Application.Poster.{PostOptions}
use miniledger.Application.Poster.Running.{length-run_postings}
use miniledger.Application.Poster.Effect.{Posts}
use miniledger.Application.Transfers.{TransferInput, parse_amount, key_of, fingerprint, transfer}
use miniledger.Application.Transfers.Cases.{journal_of}
use miniledger.Application.Transfers.Effect.{Runs, transfer_options, with_claim}
use miniledger.Application.Transfers.Outcome.{transfer-Succeeds}
use miniledger.Ledger.Chain.{Chain, Linked, rows_for}
use miniledger.Ledger.Posting.{account-Moves, after-eq}
use miniledger.Ledger.Transfers.{IsSpelled, Succeeds-Runs, canonical_legs}

-- A chain adds the amounts of its postings up.
pub Chain-sum :
    (sha256 : String → String) (h h' : Option String) (b b' : ℤ) (ps : List PostingRow)
    → Chain sha256 h b ps h' b'
    → b' ≡ b +ℤ sum_amounts ps
Chain-sum sha256 h h' b b' [] c = sym c.1 ∙ sym (+ℤ-zero b)
Chain-sum sha256 h h' b b' (p ∷ ps) (e1, e2, e3, c) =
    Chain-sum sha256 (some p.hash) h' p.balance_after b' ps c
    ∙ ap (λ x. x +ℤ sum_amounts ps) e2
    ∙ +ℤ_assoc b p.amount (sum_amounts ps)

rows_for-posted_to :
    (a id : String) (now seq : ℕ) (ps : List Posting) (lines : List PostingLine)
    → length lines ≡ length ps
    → sum_amounts (rows_for a (to_posting_rows id now seq ps lines)) ≡ posted_to a ps
unfolding to_posting_rows
rows_for-posted_to a id now seq [] lines h = refl
rows_for-posted_to a id now seq (p ∷ ps) [] h = cc h
rows_for-posted_to a id now seq (p ∷ ps) (line ∷ lines) h =
    let rest = rows_for-posted_to a id now (suc seq) ps lines (omega (arith, h)) in
    elim (Bool-cases (p.account_id.value == a)) [
      | inl same ↦ rw (same, rest)
      | inr other ↦ rw (other, rest) (sym (zero-+ℤ (posted_to a ps)))
    ]

-- The states before and after a movement of an amount.
abbrev pub MovesBy : ℤ → Option LockedBalance → Option LockedBalance → Type 0
MovesBy amount none o' = o' ≡ none
MovesBy amount (some s) none = ⊥
MovesBy amount (some s) (some s') = s'.balance ≡ s.balance +ℤ amount

Linked-MovesBy :
    (sha256 : String → String) (o o' : Option LockedBalance) (rows : List PostingRow)
    → Linked sha256 o rows o'
    → MovesBy (sum_amounts rows) o o'
Linked-MovesBy sha256 none none rows l = refl
Linked-MovesBy sha256 none (some s') rows l = absurd l
Linked-MovesBy sha256 (some s) none rows l = absurd l
Linked-MovesBy sha256 (some s) (some s') rows l =
    Chain-sum sha256 s.chain_hash s'.chain_hash s.balance s'.balance rows l

module _ (platform : Platform) where
  -- Posting moves every balance by what is posted to the account, and no other.
  pub Posts-MovesBy :
      (now : ℕ) (journal : JournalTransaction) (currency : Currency) (options : PostOptions)
      (db : Db) {receipt : TransferReceipt} {db' : Db}
      → All (λ p. IsCanonical platform p.account_id.value) journal.postings
      → Posts platform now journal currency options db receipt db'
      → (a : String)
      → MovesBy (posted_to a journal.postings) (lookup a db.balances) (lookup a db'.balances)
  Posts-MovesBy now journal currency options db {receipt} {db'} c p a =
      let moved =
        Linked-MovesBy platform.sha256 (lookup a db.balances)
          (lookup a (write_all p.running db.balances))
          (rows_for a (to_posting_rows journal.id.value now db.next_seq journal.postings p.lines))
          (account-Moves platform now journal currency options db {receipt = receipt} {db' = db'} c
            p a).0 in
      let lines =
        length-run_postings platform currency p.maps.floors journal.id.value journal.postings
          p.locked p.run in
      subst
        (λ d. MovesBy (posted_to a journal.postings) (lookup a db.balances) (lookup a d.balances))
        (after-eq platform now journal currency options db {receipt = receipt} {db' = db'} c p)
        (rw (← rows_for-posted_to a journal.id.value now db.next_seq journal.postings p.lines lines)
          moved)

  -- The change of one account's balance.
  abbrev pub change : TransferInput → ℤ → String → ℤ
  change input amount a =
      (if input.from == a then neg_ℤ amount else pos 0) +ℤ (if input.to == a then amount else pos 0)

  posted_to-journal_of :
      (id : TransactionId) (input : TransferInput) (amount : ℤ) (currency : Currency) (a : String)
      → posted_to a (journal_of id input amount currency).postings ≡ change input amount a
  unfolding Money.negate
  posted_to-journal_of id input amount currency a =
      ap (λ x. (if input.from == a then neg_ℤ amount else pos 0) +ℤ x)
        (+ℤ-zero (if input.to == a then amount else pos 0))

  abbrev pub Changes : TransferInput → ℤ → Db → Db → Type 0
  Changes input amount db db' =
      (a : String) → MovesBy (change input amount a) (lookup a db.balances) (lookup a db'.balances)

  Runs-Changes :
      (now : ℕ) (id : TransactionId) (input : TransferInput) (db : Db) (amount : ℤ)
      (currency : Currency) (key : Option String) (print : String) (r : Option TransferReceipt)
      {db' : Db}
      → IsSpelled platform id input
      → Runs platform now
          (journal_of id input amount currency)
          currency
          input.owner_id
          key
          print
          db
          r
          db'
      → (db ≡ db') ⊎ Changes input amount db db'
  Runs-Changes now id input db amount currency none print r {db'} spelled u = inr (λ a.
      rw (← posted_to-journal_of id input amount currency a) (
        Posts-MovesBy now (journal_of id input amount currency) currency
          (transfer_options input.owner_id) db
          (canonical_legs platform now id input db spelled amount currency) u.posts a))
  Runs-Changes now id input db amount currency (some key) print r spelled (inl replayed) =
      inl replayed.unchanged
  Runs-Changes now id input db amount currency (some key) print r {db'} spelled (inr k) = inr (λ a.
      rw (← posted_to-journal_of id input amount currency a, ← k.written)
        (Posts-MovesBy now (journal_of id input amount currency) currency
          (transfer_options input.owner_id) (with_claim key print db)
          (canonical_legs platform now id input db spelled amount currency) k.posts a))

  abbrev pub MovesOnce : TransferInput → Db → Db → Type 0
  MovesOnce input db db' =
      (db ≡ db')
      ⊎ ((amount : ℤ) × (parse_amount input.amount ≡ some amount) × Changes input amount db db')

  -- A transfer that returns a receipt, between accounts spelled as the database spells them, either replayed one and wrote nothing, or moved its amount: the
  -- source lost it, the destination gained it, and every other balance stayed.
  pub transfer-MovesBy :
      (now : ℕ) (id : TransactionId) (input : TransferInput) (db : Db) {r : Option TransferReceipt}
      {db' : Db}
      → IsSpelled platform id input
      → transfer platform now id input db ≡ (ok (ok r), db')
      → MovesOnce input db db'
  transfer-MovesBy now id input db {r} {db'} spelled h =
      let s = transfer-Succeeds platform now id input db h in
      elim (Runs-Changes now id input db s.amount s.currency (key_of input.idempotency_key)
        (fingerprint platform input) r spelled (Succeeds-Runs platform now id input db spelled s)) [
          | inl same ↦ inl same
          | inr changes ↦ inr (s.amount, s.accepted_by.amount_eq, changes)
        ]
