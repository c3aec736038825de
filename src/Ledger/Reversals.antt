-- ===== src/Ledger/Reversals.antt =====
-- ReverseService.reverse against the ledger: its invariant, and the amounts moved.
use miniledger.Base.{
  ℕ, pos, neg_ℤ, int_laws, ◌≡◌, sym, ap, ◌∙◌, inl, inr, String, Bool, none, some, List, [], ◌∷◌,
  map, select, find, All, lookup, eq_iff, ok, ◌==◌, Bool-cases, subst, arith,
}
use miniledger.Kernel.Currency.{Currency}
use miniledger.Kernel.Money
use miniledger.Domain.Ids.{TransactionId}
use miniledger.Domain.Journal.{JournalTransaction}
use miniledger.Domain.Journal.Laws.{amount_sum, create-IsBooked}
use miniledger.Domain.BalanceFold.{posted_to}
use miniledger.Persistence.Store.{Db, PostingRow, TransactionRow, TransferReceipt}
use miniledger.Persistence.Platform.{Platform, IsCanonical}
use miniledger.Persistence.Action.{sum_amounts}
use miniledger.Persistence.Action.Laws.{bind-ok, throw_if-then, unless_missing-then, gets-ok}
use miniledger.Persistence.Journals.{original_posting, has_reversal, has_reversal_of}
use miniledger.Application.Poster.{PostOptions}
use miniledger.Application.Poster.Effect.{Posts, post-Posts}
use miniledger.Application.Reversals.{opposite_legs, post_reversal, reverse}
use miniledger.Application.Reversals.Outcome.{
  originals, Reverses, reverse-outcome, reverse-Reverses,
}
use miniledger.Ledger.Chain.{rows_for}
use miniledger.Ledger.Order.{Ascending-select, order_by_seq-Ascending}
use miniledger.Ledger.Totals.{rows_of}
use miniledger.Ledger.Invariant.{IsLedger}
use miniledger.Ledger.Posting.{IsLedger-Posts}
use miniledger.Ledger.Movements.{MovesBy, Posts-MovesBy}

abbrev pub reversal_options : String → PostOptions
reversal_options t = record {
  require_owner = none;
  event_type = "transfer.reversed";
  reverses_transaction_id = some t;
}

pub found_id :
    (key : String) (rows : List TransactionRow) {row : TransactionRow}
    → find (λ r. r.id == key) rows ≡ some row
    → row.id ≡ key
found_id key [] h = cc h
found_id key (r ∷ rows) {row} h = elim (Bool-cases (r.id == key)) [
  | inl same ↦ ground (arith, eq_iff r.id key)
  | inr other ↦ found_id key rows {row = row} (rw other at h)
]

module _ (platform : Platform) where
  has_reversal-ok :
      (t : String) (db : Db) {b : Bool} {db' : Db}
      → has_reversal platform t db ≡ (ok b, db')
      → (key : String) × (platform.uuid t ≡ some key)
        × (has_reversal_of db.transactions key ≡ b)
        × (db ≡ db')
  unfolding has_reversal
  has_reversal-ok t db h =
      let (key, read, h1) = unless_missing-then _ _ _ db h in
      let (e, same) = gets-ok _ db h1 in (key, read, e, same)

  -- The unit of work of a reversal posts, and the transaction had not been reversed.
  post_reversal-Posts :
      (now : ℕ) (t : String) (journal : JournalTransaction) (currency : Currency) (db : Db)
      {r : TransferReceipt} {db' : Db}
      → IsCanonical platform journal.id.value
      → All (λ p. IsCanonical platform p.account_id.value) journal.postings
      → post_reversal platform now t journal currency db ≡ (ok r, db')
      → Posts platform now journal currency (reversal_options t) db r db'
  unfolding post_reversal
  post_reversal-Posts now t journal currency db cid c h =
      let b = bind-ok _ _ h in
      let (key, read, free, same) = has_reversal-ok t db b.first in
      let (unreversed, h1) = throw_if-then _ _ _ b.middle b.rest in
      post-Posts platform now journal currency (reversal_options t) db cid c (rw (← same) at h1)

  opposite_legs-IsCanonical :
      (currency : Currency) (rows : List PostingRow)
      → All (λ p. IsCanonical platform p.account_id) rows
      → All
          (λ p. IsCanonical platform p.account_id.value)
          (opposite_legs currency (map original_posting rows))
  unfolding opposite_legs
  opposite_legs-IsCanonical currency [] c = tt
  opposite_legs-IsCanonical currency (p ∷ ps) c = (c.0, opposite_legs-IsCanonical currency ps c.1)

  select-IsCanonical :
      (f : PostingRow → Bool) (rows : List PostingRow)
      → All (λ p. IsCanonical platform p.account_id) rows
      → All (λ p. IsCanonical platform p.account_id) (select f rows)
  select-IsCanonical f [] c = tt
  select-IsCanonical f (p ∷ ps) c = ground (arith, select-IsCanonical f ps c.1)

  posted_to-opposite_legs :
      (a : String) (currency : Currency) (rows : List PostingRow)
      → posted_to a (opposite_legs currency (map original_posting rows))
        ≡ neg_ℤ (sum_amounts (rows_for a rows))
  unfolding opposite_legs Money.negate
  posted_to-opposite_legs a currency [] = omega int_laws
  posted_to-opposite_legs a currency (p ∷ ps) = elim (Bool-cases (p.account_id == a)) [
    | inl same ↦ rw (same, posted_to-opposite_legs a currency ps) (omega int_laws)
    | inr other ↦ rw (other, posted_to-opposite_legs a currency ps) (omega int_laws)
  ]

  module _ (now : ℕ) (id : TransactionId) (t : String) (db : Db) (l : IsLedger platform db)
      (spelled : IsCanonical platform id.value) where
    pub originals-eq :
        (key : String)
        → originals platform now id t db key ≡ map original_posting (rows_of key db.postings)
    originals-eq key = ap (map original_posting) (
        order_by_seq-Ascending 0 db.next_seq (rows_of key db.postings)
          (Ascending-select (λ p. p.transaction_id == key) 0 db.next_seq db.postings l.ascending))

    -- What a returned reversal has posted.
    pub record Compensates (r : TransferReceipt) (db' : Db) : Type 0 where
      pub key : String
      pub key_eq : platform.uuid t ≡ some key
      pub journal : JournalTransaction
      pub currency : Currency
      pub legs :
          journal.postings ≡ opposite_legs currency (map original_posting (rows_of key db.postings))
      pub zero : amount_sum journal.postings ≡ pos 0
      pub canonical : All (λ p. IsCanonical platform p.account_id.value) journal.postings
      pub posts : Posts platform now journal currency (reversal_options t) db r db'

    pub Reverses-Compensates :
        {r : TransferReceipt} {db' : Db} → Reverses platform now id t db r db' → Compensates r db'
    Reverses-Compensates {r} {db'} s =
        let booked = create-IsBooked id _ {j = s.journal} s.built in
        let legs : s.journal.postings
            ≡ opposite_legs s.currency (map original_posting (rows_of s.key db.postings)) =
          booked.postings_kept
          ∙ ap (opposite_legs s.currency) (originals-eq s.row.id)
          ∙ ap (λ k. opposite_legs s.currency (map original_posting (rows_of k db.postings)))
              (found_id s.key db.transactions {row = s.row} s.found) in
        let canonical : All (λ p. IsCanonical platform p.account_id.value) s.journal.postings =
          rw legs (
            opposite_legs-IsCanonical s.currency (rows_of s.key db.postings)
              (select-IsCanonical _ db.postings l.canonical)) in
        let named : IsCanonical platform s.journal.id.value = rw booked.id_kept spelled in
        record {
          key = s.key;
          key_eq = s.key_eq;
          journal = s.journal;
          currency = s.currency;
          legs = legs;
          zero = ap amount_sum booked.postings_kept ∙ booked.balanced;
          canonical = canonical;
          posts = post_reversal-Posts now t s.journal s.currency db named canonical s.ran;
        }

    -- A reversal, whatever comes of it and however the transaction's id is spelled, keeps the ledger's
    -- invariant.
    pub reverse-IsLedger : IsLedger platform (reverse platform now id t db).1
    reverse-IsLedger = elim (reverse-outcome platform now id t db) [
      | inr (kept, refused) ↦ subst (IsLedger platform) (sym kept) l
      | inl (r, db', s, result) ↦
          let c = Reverses-Compensates s in
          subst (IsLedger platform) (sym (ap (λ p. p.1) result)) (
            IsLedger-Posts platform now c.journal c.currency (reversal_options t) db c.canonical
              c.posts c.zero l)
    ]

    abbrev pub MovesBack : Db → Type 0
    MovesBack db' =
        (key : String) × (platform.uuid t ≡ some key)
        × ((a : String)
            → MovesBy (neg_ℤ (sum_amounts (rows_for a (rows_of key db.postings))))
                (lookup a db.balances) (lookup a db'.balances))

    -- On tables that satisfy the invariant, a reversal that returns a receipt moves every balance by
    -- the opposite of what the postings of the transaction sum to on that account.
    pub reverse-MovesBy :
        {r : TransferReceipt} {db' : Db}
        → reverse platform now id t db ≡ (ok (ok r), db')
        → MovesBack db'
    reverse-MovesBy {r} {db'} h =
        let c = Reverses-Compensates (reverse-Reverses platform now id t db h) in
        (
          c.key,
          c.key_eq,
          λ a.
              rw (← posted_to-opposite_legs a c.currency (rows_of c.key db.postings), ← c.legs)
                (Posts-MovesBy platform now c.journal c.currency (reversal_options t) db c.canonical
                  c.posts a),
        )
