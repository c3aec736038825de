-- ===== src/Ledger/Transfers.antt =====
-- TransferService.transfer against the ledger's invariant.
use miniledger.Base.{
  ℕ, ℤ, pos, int_laws, ◌≡◌, sym, ap, inl, inr, String, Option, none, some, All, Map, subst,
}
use miniledger.Kernel.Currency.{Currency}
use miniledger.Kernel.Money
use miniledger.Domain.Ids.{TransactionId}
use miniledger.Domain.Journal.Laws.{amount_sum}
use miniledger.Persistence.Store.{Db, KeyRow, TransferReceipt}
use miniledger.Persistence.Platform.{Platform, IsCanonical}
use miniledger.Application.Transfers.{TransferInput, key_of, fingerprint, transfer}
use miniledger.Application.Transfers.Cases.{journal_of}
use miniledger.Application.Transfers.Effect.{Runs, run-Runs, transfer_options, with_claim}
use miniledger.Application.Transfers.Outcome.{Succeeds, transfer-outcome}
use miniledger.Ledger.Invariant.{IsLedger}
use miniledger.Ledger.Posting.{IsLedger-Posts}

amount_sum-journal_of :
    (id : TransactionId) (input : TransferInput) (amount : ℤ) (currency : Currency)
    → amount_sum (journal_of id input amount currency).postings ≡ pos 0
unfolding Money.negate
amount_sum-journal_of id input amount currency = omega int_laws

module _ (platform : Platform) where
  -- The invariant does not read the idempotency keys.
  pub IsLedger-keys :
      (db : Db) (keys : Map KeyRow)
      → IsLedger platform db
      → IsLedger platform (record db { idempotency_keys = keys })
  IsLedger-keys db keys l = record {
    linked = l.linked;
    above = l.above;
    balanced = l.balanced;
    known = l.known;
    conserved = l.conserved;
    ascending = l.ascending;
    canonical = l.canonical;
  }

  -- A request whose ids are spelled as the database spells them.
  abbrev pub IsSpelled : TransactionId → TransferInput → Type 0
  IsSpelled id input =
      IsCanonical platform id.value
      × IsCanonical platform input.from
      × IsCanonical platform input.to

  module _ (now : ℕ) (id : TransactionId) (input : TransferInput) (db : Db)
      (spelled : IsSpelled id input) where
    pub canonical_legs :
        (amount : ℤ) (currency : Currency)
        → All
            (λ p. IsCanonical platform p.account_id.value)
            (journal_of id input amount currency).postings
    canonical_legs amount currency = (spelled.1, (spelled.2, tt))

    pub Succeeds-Runs :
        {r : Option TransferReceipt} {db' : Db}
        → (s : Succeeds platform now id input db r db')
        → Runs platform now
            (journal_of id input s.amount s.currency)
            s.currency
            input.owner_id
            (key_of input.idempotency_key)
            (fingerprint platform input)
            db
            r
            db'
    Succeeds-Runs s =
        run-Runs platform now _ s.currency input.owner_id (key_of input.idempotency_key)
          (fingerprint platform input) db spelled.0 (canonical_legs s.amount s.currency) s.ran

    IsLedger-Runs :
        (amount : ℤ) (currency : Currency) (key : Option String) (print : String)
        (r : Option TransferReceipt) {db' : Db}
        → IsLedger platform db
        → Runs platform now
            (journal_of id input amount currency)
            currency
            input.owner_id
            key
            print
            db
            r
            db'
        → IsLedger platform db'
    IsLedger-Runs amount currency none print r l u =
        IsLedger-Posts platform now (journal_of id input amount currency) currency
          (transfer_options input.owner_id) db (canonical_legs amount currency) u.posts
          (amount_sum-journal_of id input amount currency) l
    IsLedger-Runs amount currency (some key) print r l (inl replayed) =
        subst (IsLedger platform) replayed.unchanged l
    IsLedger-Runs amount currency (some key) print r l (inr k) =
        let claimed = IsLedger-keys db (with_claim key print db).idempotency_keys l in
        let posted =
          IsLedger-Posts platform now (journal_of id input amount currency) currency
            (transfer_options input.owner_id) (with_claim key print db)
            (canonical_legs amount currency) k.posts
            (amount_sum-journal_of id input amount currency) claimed in
        subst (IsLedger platform) k.written (IsLedger-keys k.middle _ posted)

    -- A transfer between accounts spelled as the database spells them, whatever comes of it, keeps
    -- the ledger's invariant.
    pub transfer-IsLedger :
        IsLedger platform db → IsLedger platform (transfer platform now id input db).1
    transfer-IsLedger l = elim (transfer-outcome platform now id input db) [
      | inr (kept, refused) ↦ subst (IsLedger platform) (sym kept) l
      | inl (r, db', s, result) ↦ subst (IsLedger platform) (sym (ap (λ p. p.1) result)) (
          IsLedger-Runs s.amount s.currency (key_of input.idempotency_key)
            (fingerprint platform input) r l (Succeeds-Runs s))
    ]
