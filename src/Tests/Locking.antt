-- ===== src/Tests/Locking.antt =====
-- Two transactions that lock the same two rows.
use miniledger.Base.{ℕ, ◌≡◌, refl, ◌+◌, none, some, List, [], ◌∷◌, length}
use miniledger.Domain.Ids.{AccountId, account_id}
use miniledger.Persistence.Balances.{contains, distinct_from, insert_sorted, sort, lock_order}
use miniledger.Persistence.Locking.{
  Pool, entering, is_held, advance, run, turns, Reachable, idle, enters,
}
use miniledger.Persistence.Locking.Finishes.{Finishes, Reachable-Finishes}
use miniledger.Tests.{try_platform}

abbrev to_bob : List AccountId
to_bob = account_id "alice" ∷ account_id "bob" ∷ []

abbrev to_alice : List AccountId
to_alice = account_id "bob" ∷ account_id "alice" ∷ []

abbrev opposed : Pool
opposed = entering to_bob ∷ entering to_alice ∷ []

opposed-Reachable : Reachable try_platform opposed
opposed-Reachable = enters to_bob (refl, (refl, tt)) (enters to_alice (refl, (refl, tt)) idle)

-- The second transaction goes first, to its second row.
abbrev second_first : Pool
second_first =
    record { wants = "alice" ∷ "bob" ∷ []; holds = [] }
    ∷ record { wants = []; holds = "bob" ∷ "alice" ∷ [] }
    ∷ []

second_first_run : run try_platform (1 ∷ 1 ∷ []) opposed ≡ some second_first
unfolding run advance is_held entering contains distinct_from insert_sorted sort lock_order
second_first_run = refl

-- The first one waits.
second_first_waits : advance try_platform [] 0 second_first ≡ none
unfolding advance is_held contains
second_first_waits = refl

Reachable-Finishes_example :
    Finishes try_platform second_first
    × (turns opposed ≡ length {A = ℕ} (1 ∷ 1 ∷ []) + turns second_first)
Reachable-Finishes_example =
    Reachable-Finishes try_platform opposed (1 ∷ 1 ∷ []) second_first opposed-Reachable
      second_first_run

-- With one account in two spellings the orders differ, and both transactions wait for good.
abbrev spelled : Pool
spelled =
    entering (account_id "ALICE" ∷ account_id "aaron" ∷ [])
    ∷ entering (account_id "alice" ∷ account_id "aaron" ∷ [])
    ∷ []

abbrev stuck : Pool
stuck =
    record { wants = "aaron" ∷ []; holds = "alice" ∷ [] }
    ∷ record { wants = "alice" ∷ []; holds = "aaron" ∷ [] }
    ∷ []

spelled_run : run try_platform (0 ∷ 1 ∷ []) spelled ≡ some stuck
unfolding run advance is_held entering contains distinct_from insert_sorted sort lock_order
spelled_run = refl

stuck_waits : (advance try_platform [] 0 stuck ≡ none) × (advance try_platform [] 1 stuck ≡ none)
unfolding advance is_held contains
stuck_waits = (refl, refl)
