-- ===== src/Ledger/Invariant.antt =====
-- The invariant of the ledger's tables (docs/adr), and one account through a call of `post`.
use miniledger.Base.{
  ℤ, pos, ◌≡◌, refl, ◌⊎◌, inl, inr, String, Option, none, some, List, [], find, IsDistinct, All,
  Map, lookup, ◌==◌, Option-cases,
}
use miniledger.Persistence.Store.{Db, AccountRow, LockedBalance, PostingRow}
use miniledger.Persistence.Platform.{Platform, IsCanonical}
use miniledger.Persistence.Balances.{opened}
use miniledger.Persistence.Balances.Laws.{write_all, lookup-write_all-none, lookup-write_all-some}
use miniledger.Persistence.Balances.Locks.{IsLocked}
use miniledger.Ledger.Chain.{Linked, Linked-nil, Above, rows_for}
use miniledger.Ledger.Order.{Ascending}
use miniledger.Ledger.Totals.{IsBalanced, AreKnown, total_in}

-- The state in which an account was opened, if it is there.
abbrev pub start_at : Option LockedBalance → Option LockedBalance
start_at none = none
start_at (some state) = some opened

module _ (platform : Platform) where
  -- The history of every account leads from its opening to its stored state.
  abbrev pub AreLinked : List PostingRow → Map LockedBalance → Type 0
  AreLinked postings balances =
      (a : String)
      → Linked platform.sha256 (start_at (lookup a balances)) (rows_for a postings)
          (lookup a balances)

  -- No account that has a floor is below it.
  abbrev pub AreAbove : List AccountRow → Map LockedBalance → Type 0
  AreAbove accounts balances =
      (a : String) (row : AccountRow) (floor : ℤ)
      → find (λ r. r.id == a) accounts ≡ some row
      → row.overdraft_floor ≡ some floor
      → Above floor (lookup a balances)

  -- What holds of the tables at all times.
  pub record IsLedger (db : Db) : Type 0 where
    pub linked : AreLinked db.postings db.balances
    pub above : AreAbove db.accounts db.balances
    pub balanced : IsBalanced db.postings
    pub known : AreKnown db.transactions db.postings
    pub conserved : (c : String) → total_in db.transactions c db.postings ≡ pos 0
    pub ascending : Ascending 0 db.next_seq db.postings
    pub canonical : All (λ p. IsCanonical platform p.account_id) db.postings

  -- One account through a call of `post`: its new rows lead from its old state to its new one.
  abbrev pub Moves : Option LockedBalance → List PostingRow → Option LockedBalance → Type 0
  Moves o rows o' = Linked platform.sha256 o rows o' × (start_at o' ≡ start_at o)

  Linked-some :
      (s : LockedBalance) (rows : List PostingRow) (o : Option LockedBalance)
      → Linked platform.sha256 (some s) rows o
      → (s' : LockedBalance) × (o ≡ some s')
  Linked-some s rows none l = absurd l
  Linked-some s rows (some s') l = (s', refl)

  Linked-none :
      (rows : List PostingRow) (o : Option LockedBalance)
      → Linked platform.sha256 none rows o
      → (rows ≡ []) × (o ≡ none)
  Linked-none rows none l = (l, refl)
  Linked-none rows (some s) l = absurd l

  -- An account outside the locked ones keeps its row and has no new postings; a locked one goes from
  -- its row to its running balance.
  abbrev pub Written :
      String → Map LockedBalance → Map LockedBalance → Map LockedBalance → List PostingRow → Type 0
  Written a table locked running rows =
      ((rows ≡ []) × (lookup a (write_all running table) ≡ lookup a table))
      ⊎ ((s s' : LockedBalance) × (lookup a locked ≡ some s)
          × (lookup a table ≡ some s)
          × (lookup a running ≡ some s')
          × (lookup a (write_all running table) ≡ some s'))

  pub write_all-Written :
      (a : String) (table locked running : Map LockedBalance) (rows : List PostingRow)
      → IsLocked platform table locked
      → IsDistinct running
      → Linked platform.sha256 (lookup a locked) rows (lookup a running)
      → Written a table locked running rows
  write_all-Written a table locked running rows l d link = elim (Option-cases (lookup a locked)) [
    | inl outside ↦
        let (e, absent) = Linked-none rows (lookup a running) (rw outside at link) in
        inl (e, lookup-write_all-none a running table absent)
    | inr (s, here) ↦
        let (s', after) = Linked-some s rows (lookup a running) (rw here at link) in
        let before = l.from_table a s here in
        inr (
          s,
          s',
          here,
          before,
          after,
          lookup-write_all-some a running table {s = s'} {v = s} d after before,
        )
  ]

  pub Written-Moves :
      (a : String) (table locked running : Map LockedBalance) (rows : List PostingRow)
      → Linked platform.sha256 (lookup a locked) rows (lookup a running)
      → Written a table locked running rows
      → Moves (lookup a table) rows (lookup a (write_all running table))
  Written-Moves a table locked running rows link (inl (e, same)) =
      rw (e, same) (Linked-nil platform.sha256 (lookup a table), refl)
  Written-Moves a table locked running rows link (inr (s, s', here, before, after, now)) =
      rw (before, now) (rw (here, after) at link, refl)
