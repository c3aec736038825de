-- ===== src/Ledger/Chain.antt =====
-- The history of one account as a hash chain of postings that carries the running balance
-- (docs/adr/008-audit-hash-chain.md).
use miniledger.Base.{
  ℤ, ◌+ℤ◌, ◌≤ℤ◌, ◌≡◌, refl, String, Option, none, some, List, [], ◌∷◌, ◌++◌, select, ◌==◌,
}
use miniledger.Domain.HashChain.{PostingContent, hash_posting}
use miniledger.Persistence.Store.{PostingRow, LockedBalance}

abbrev pub content_of : PostingRow → PostingContent
content_of p = record {
  transaction_id = p.transaction_id;
  account_id = p.account_id;
  amount = p.amount;
  balance_after = p.balance_after;
}

abbrev pub rows_for : String → List PostingRow → List PostingRow
rows_for a rows = select (λ p. p.account_id == a) rows

-- A state, if there is one, whose balance is not below a floor.
abbrev pub Above : ℤ → Option LockedBalance → Type 0
Above floor none = Unit
Above floor (some state) = floor ≤ℤ state.balance

module _ (sha256 : String → String) where
  -- From a head and a balance, through some postings, to a head and a balance.
  abbrev pub Chain : Option String → ℤ → List PostingRow → Option String → ℤ → Type 0
  Chain head balance [] head' balance' = (head ≡ head') × (balance ≡ balance')
  Chain head balance (p ∷ ps) head' balance' =
      (p.prev_hash ≡ head)
      × (p.balance_after ≡ balance +ℤ p.amount)
      × (p.hash ≡ hash_posting sha256 head (content_of p))
      × Chain (some p.hash) p.balance_after ps head' balance'

  -- From the state of an account to a later one; an account without a state has no postings.
  abbrev pub Linked : Option LockedBalance → List PostingRow → Option LockedBalance → Type 0
  Linked none rows none = rows ≡ []
  Linked none rows (some s') = ⊥
  Linked (some s) rows none = ⊥
  Linked (some s) rows (some s') = Chain s.chain_hash s.balance rows s'.chain_hash s'.balance

  pub Chain-append :
      (h h' h'' : Option String) (b b' b'' : ℤ) (ps qs : List PostingRow)
      → Chain h b ps h' b'
      → Chain h' b' qs h'' b''
      → Chain h b (ps ++ qs) h'' b''
  Chain-append h h' h'' b b' b'' [] qs (eh, eb) c = rw (eh, eb) c
  Chain-append h h' h'' b b' b'' (p ∷ ps) qs (e1, e2, e3, c) d =
      (e1, e2, e3, Chain-append (some p.hash) h' h'' p.balance_after b' b'' ps qs c d)

  pub Linked-append :
      (o o' o'' : Option LockedBalance) (ps qs : List PostingRow)
      → Linked o ps o'
      → Linked o' qs o''
      → Linked o (ps ++ qs) o''
  Linked-append none none none ps qs c d = rw c d
  Linked-append none none (some s'') ps qs c d = absurd d
  Linked-append none (some s') o'' ps qs c d = absurd c
  Linked-append (some s) none o'' ps qs c d = absurd c
  Linked-append (some s) (some s') none ps qs c d = absurd d
  Linked-append (some s) (some s') (some s'') ps qs c d =
      Chain-append s.chain_hash s'.chain_hash s''.chain_hash s.balance s'.balance s''.balance ps qs
        c d

  pub Linked-nil : (o : Option LockedBalance) → Linked o [] o
  Linked-nil none = refl
  Linked-nil (some s) = (refl, refl)
