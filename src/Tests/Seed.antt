-- ===== src/Tests/Seed.antt =====
-- Runs of the demo seed (src/seed.ts) on the tables after the migrations, and the instances of its
-- theorems.
use miniledger.Base.{
  ◌+◌, ℕ, ℤ, pos, negsuc, to_string, String, ◌≡◌, refl, none, some, [], ◌∷◌, ok, err, lookup,
  Option, map,
}
use miniledger.Persistence.Store.{Db}
use miniledger.Domain.Ids.{account_id, transaction_id}
use miniledger.Application.Accounts.{OpenAccountInput, open_account}
use miniledger.Application.Transfers.{TransferInput, transfer}
use miniledger.Ledger.Reachable.{opens, transfers}
use miniledger.Ledger.History.{Later, at_once, next}
use miniledger.Seed.{
  Report, applied, already_applied, owner_required, and_then, has_user, world, open_one, post,
  post_all, undo, seed_for, main,
}
use miniledger.Seed.Again.{seed_for-AppliesOnce}
use miniledger.Tests.{code, try_platform, start}

abbrev clock : ℕ → ℕ
clock call = call

abbrev later : ℕ → ℕ
later call = 100 + call

abbrev ids : ℕ → String
ids call = to_string (pos call)

seeded : Db
unfolding code seed_for and_then has_user world open_one post post_all undo
seeded = (seed_for try_platform clock ids "ann" start).1

-- The seed posts eight transfers from the `@world` accounts on and undoes the last one.
abbrev seeded_report : Report
seeded_report = applied "ann" ("0" ∷ "1" ∷ "2" ∷ []) 8

seeded_run : seed_for try_platform clock ids "ann" start ≡ (ok (ok seeded_report), seeded)
unfolding code seeded seed_for and_then has_user world open_one post post_all undo
seeded_run = refl

abbrev balance_in : Db → String → Option ℤ
balance_in db id = elim (lookup id db.balances) [ none ↦ none | some s ↦ some s.balance ]

seeded_balances :
    map (balance_in seeded) ("usd" ∷ "eur" ∷ "0" ∷ "1" ∷ "2" ∷ [])
    ≡ some (negsuc 266354)
      ∷ some (negsuc 137009)
      ∷ some (pos 141355)
      ∷ some (pos 125000)
      ∷ some (pos 137010)
      ∷ []
unfolding code seeded seed_for and_then has_user world open_one post post_all undo
seeded_balances = refl

-- Without the environment variable, or with an empty one, nothing is read or written.
unnamed : main try_platform clock ids (some "") start ≡ (ok (err owner_required), start)
unfolding code main
unnamed = refl

abbrev bens : OpenAccountInput
bens = record { currency = "EUR"; owner_id = "ben" }

-- Another caller opens an account, and the owner pays from savings.
abbrev opened : Db
opened = (open_account try_platform 50 (account_id "ben") bens seeded).1

abbrev saved : TransferInput
saved = record {
  from = "1";
  to = "0";
  amount = "500";
  currency = "USD";
  owner_id = "ann";
  idempotency_key = none;
}

abbrev used : Db
used = (transfer try_platform 60 (transaction_id "t60") saved opened).1

calls : Later try_platform seeded used
calls =
    next (next at_once (opens 50 (account_id "ben") bens seeded))
      (transfers 60 (transaction_id "t60") saved opened (refl, refl, refl))

-- The account and the payment are there.
used_balances :
    map (balance_in used) ("0" ∷ "1" ∷ "2" ∷ "ben" ∷ [])
    ≡ some (pos 141855) ∷ some (pos 124500) ∷ some (pos 137010) ∷ some (pos 0) ∷ []
unfolding code seeded seed_for and_then has_user world open_one post post_all undo
used_balances = refl

seed_for-AppliesOnce_example :
    seed_for try_platform later ids "ann" used ≡ (ok (ok (already_applied "ann")), used)
seed_for-AppliesOnce_example =
    seed_for-AppliesOnce try_platform clock later ids ids "ann" start {r = seeded_report} seeded_run
      calls
