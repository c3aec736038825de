-- ===== src/Persistence/Locking.antt =====
-- Transactions that lock balance rows at the same time: the loop of lockForUpdate in
-- src/ledger/infrastructure/persistence/drizzle-account-balances.repository.ts, one row at a time.
-- `FOR UPDATE` takes a row that no other transaction has locked, and waits for one that another has;
-- PostgreSQL keeps the locks up to the end of the transaction (src/db/drizzle-unit-of-work.ts). The
-- scheduler is a list of positions: which transaction goes on next.
pub mod Progress
pub mod Finishes
use miniledger.Base.{
  ℕ, zero, suc, ◌+◌, ◌≡◌, String, Bool, true, false, ◌||◌, Option, none, some, List, [], ◌∷◌, ◌++◌,
  All, length, if◌then◌else◌,
}
use miniledger.Domain.Ids.{AccountId}
use miniledger.Persistence.Platform.{Platform, IsCanonical}
use miniledger.Persistence.Balances.{contains, lock_order}

-- A transaction in the loop: the ids that are left, and the rows that it has locked.
pub record Locker : Type 0 where
  pub wants : List String
  pub holds : List String

abbrev pub Pool : Type 0
Pool = List Locker

-- The loop is entered.
unfoldable pub entering : List AccountId → Locker
entering ids = record { wants = lock_order ids; holds = [] }

unfoldable pub is_held : String → Pool → Bool
is_held key [] = false
is_held key (t ∷ ts) = contains key t.holds || is_held key ts

abbrev pub if_free : Bool → Locker → Option (Option Locker)
if_free true t = none
if_free false t = some (some t)

-- What comes of a transaction is put in its place; one that has ended leaves the pool.
abbrev pub placed : Option (Option Locker) → Pool → Option Pool
placed none ts = none
placed (some none) ts = some ts
placed (some (some t)) ts = some (t ∷ ts)

abbrev pub placed_after : Locker → Option Pool → Option Pool
placed_after t none = none
placed_after t (some ts) = some (t ∷ ts)

unfoldable pub remove_at : ℕ → Pool → Pool
remove_at n [] = []
remove_at zero (t ∷ ts) = ts
remove_at (suc n) (t ∷ ts) = t ∷ remove_at n ts

module _ (platform : Platform) where
  abbrev pub lock_key : Pool → List String → List String → Option String → Option (Option Locker)
  lock_key others rest holds none = none
  lock_key others rest holds (some key) =
      if_free (is_held key others) (record { wants = rest; holds = key ∷ holds })

  -- One turn of the loop beside the other transactions, and after the last one the end of the
  -- transaction; `none` where it waits or its statement fails.
  abbrev pub move : Pool → List String → List String → Option (Option Locker)
  move others [] holds = some none
  move others (id ∷ rest) holds = lock_key others rest holds (platform.uuid id)

  -- The transaction at a position goes on; the ones before that are passed are kept.
  unfoldable pub advance : Pool → ℕ → Pool → Option Pool
  advance passed n [] = none
  advance passed zero (t ∷ ts) = placed (move (passed ++ ts) t.wants t.holds) ts
  advance passed (suc n) (t ∷ ts) = placed_after t (advance (t ∷ passed) n ts)

  unfoldable pub run : List ℕ → Pool → Option Pool
  run [] pool = some pool
  run (n ∷ ns) pool = elim (advance [] n pool) [ none ↦ none | some after ↦ run ns after ]

  -- The pools that come up: transactions enter with ids in the spelling of the database, go on, or
  -- fail at any time, which rolls them back.
  pub data Reachable : Pool → Type 0 where
    idle : Reachable []
    enters :
        (ids : List AccountId) {pool : Pool}
        → All (λ id. IsCanonical platform id.value) ids
        → Reachable pool
        → Reachable (entering ids ∷ pool)
    goes_on :
        (n : ℕ) {pool after : Pool}
        → advance [] n pool ≡ some after
        → Reachable pool
        → Reachable after
    fails : (n : ℕ) {pool : Pool} → Reachable pool → Reachable (remove_at n pool)

-- How many turns are left.
unfoldable pub turns : Pool → ℕ
turns [] = 0
turns (t ∷ ts) = suc (length t.wants + turns ts)
