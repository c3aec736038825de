-- ===== src/Seed.antt =====
-- src/seed.ts: the demo ledger, seeded through the services. The time of each call and the UUID that it
-- generates are given by the number of the call. What `main` throws by itself is the error of a result.
pub mod Seeded
pub mod Again
use Prim.Native.String
use miniledger.Base.{
  ℕ, suc, ◌+◌, String, Bool, true, false, not, ◌&&◌, ◌||◌, Option, none, some, List, [], ◌∷◌,
  Result, ok, err, find, length, ◌==◌, option_eq, if◌then◌else◌,
}
use miniledger.Base.Texts.{truthy}
use miniledger.Domain.Ids.{account_id, transaction_id}
use miniledger.Domain.Account.{Account, is_system}
use miniledger.Persistence.Failure.{TransferError}
use miniledger.Persistence.Store.{TransferReceipt}
use miniledger.Persistence.Platform.{Platform}
use miniledger.Persistence.Action.{Action, pure, ◌>>=◌}
use miniledger.Application.Accounts.{OpenAccountError, open_account, list_visible}
use miniledger.Application.Transfers
use miniledger.Application.Transfers.{transfer}
use miniledger.Application.Reversals
use miniledger.Application.Reversals.{ReverseError, reverse}

pub record Movement : Type 0 where
  pub key : String
  pub from : String
  pub to : String
  pub amount : String
  pub currency : String

-- The errors that the script throws; `no_receipt` is the reading of the id of a missing receipt.
pub data SeedError : Type 0 where
  owner_required : SeedError
  missing_world : String → SeedError
  open_failed : String → OpenAccountError → SeedError
  movement_failed : String → TransferError → SeedError
  no_receipt : String → SeedError
  reversal_failed : ReverseError → SeedError

-- What is written to the output.
pub data Report : Type 0 where
  already_applied : String → Report
  applied : String → List String → ℕ → Report

abbrev pub Attempt : Type 0 → Type 0
Attempt A = Action (Result A SeedError)

abbrev pub proceed : {A B : Type 0} → (A → Attempt B) → Result A SeedError → Attempt B
proceed f (ok a) = f a
proceed f (err e) = pure (err e)

-- A step, and the rest of the script where the step does not throw.
unfoldable pub and_then : {A B : Type 0} → Attempt A → (A → Attempt B) → Attempt B
and_then m f = m >>= proceed f

unfoldable pub has_user : List Account → Bool
has_user [] = false
has_user (a ∷ accounts) = not (is_system a) || has_user accounts

abbrev pub found_world : String → Option Account → Result Account SeedError
found_world currency none = err (missing_world currency)
found_world currency (some a) = ok a

-- `world(currency)`
unfoldable pub world : List Account → String → Result Account SeedError
world visible currency =
    found_world currency
      (find (λ a. is_system a && option_eq a.currency.code (some currency)) visible)

abbrev pub opened_or_thrown : String → Result Account OpenAccountError → Result Account SeedError
opened_or_thrown currency (ok a) = ok a
opened_or_thrown currency (err e) = err (open_failed currency e)

abbrev pub posted_or_thrown : String → Transfers.Response → Result String SeedError
posted_or_thrown key (ok (some receipt)) = ok receipt.id
posted_or_thrown key (ok none) = err (no_receipt key)
posted_or_thrown key (err e) = err (movement_failed key e)

abbrev pub reversed_or_thrown : Reversals.Response → Result (Unit {0}) SeedError
reversed_or_thrown (ok receipt) = ok tt
reversed_or_thrown (err e) = err (reversal_failed e)

-- The array of `movements`.
abbrev pub movements : String → String → String → String → String → List Movement
movements usd_world eur_world checking savings travel =
    record { key = "payroll"; from = usd_world; to = checking; amount = "420000"; currency = "USD" }
    ∷ record { key = "save-1"; from = checking; to = savings; amount = "75000"; currency = "USD" }
    ∷ record { key = "rent"; from = checking; to = usd_world; amount = "145000"; currency = "USD" }
    ∷ record {
      key = "groceries";
      from = checking;
      to = usd_world;
      amount = "8645";
      currency = "USD";
    }
    ∷ record { key = "save-2"; from = checking; to = savings; amount = "50000"; currency = "USD" }
    ∷ record {
      key = "fx-top-up";
      from = eur_world;
      to = travel;
      amount = "180000";
      currency = "EUR";
    }
    ∷ record { key = "hotel"; from = travel; to = eur_world; amount = "42990"; currency = "EUR" }
    ∷ []

abbrev pub duplicate : String → String → Movement
duplicate usd_world checking = record {
  key = "duplicate-groceries";
  from = checking;
  to = usd_world;
  amount = "8645";
  currency = "USD";
}

module _ (platform : Platform) (time : ℕ → ℕ) (uuid : ℕ → String) (owner : String) where
  -- `open(currency)`
  unfoldable pub open_one : ℕ → String → Attempt Account
  open_one call currency = do
    opened ←
        open_account platform (time call) (account_id (uuid call))
          (record { currency = currency; owner_id = owner })
    pure (opened_or_thrown currency opened)

  -- `post(movement)`
  unfoldable pub post : ℕ → Movement → Attempt String
  post call movement = do
    result ← transfer platform (time call) (transaction_id (uuid call)) (record {
      from = movement.from;
      to = movement.to;
      amount = movement.amount;
      currency = movement.currency;
      owner_id = owner;
      idempotency_key = some (String.◌++◌ "seed-" movement.key);
    })
    pure (posted_or_thrown movement.key result)

  -- The loop over the movements; the number of posted ones is that of the movements, whose keys differ.
  unfoldable pub post_all : ℕ → List Movement → Attempt (Unit {0})
  post_all call [] = pure (ok tt)
  post_all call (movement ∷ rest) = and_then (post call movement) (λ id. post_all (suc call) rest)

  unfoldable pub undo : ℕ → String → Attempt (Unit {0})
  undo call duplicate_charge = do
    reversed ← reverse platform (time call) (transaction_id (uuid call)) duplicate_charge
    pure (reversed_or_thrown reversed)

  abbrev pub move_all : Account → Account → Account → Account → Account → Attempt Report
  move_all checking savings travel usd_world eur_world =
      let planned =
        movements usd_world.id.value eur_world.id.value checking.id.value savings.id.value
          travel.id.value in
      and_then (post_all 3 planned) (λ _.
        and_then (post 10 (duplicate usd_world.id.value checking.id.value)) (λ duplicate_charge.
          and_then (undo 11 duplicate_charge) (λ _. pure (
            ok (
              applied owner (checking.id.value ∷ savings.id.value ∷ travel.id.value ∷ [])
                (length planned + 1))))))

  abbrev pub open_all : List Account → Attempt Report
  open_all visible = and_then (open_one 0 "USD") (λ checking.
      and_then (open_one 1 "USD") (λ savings. and_then (open_one 2 "EUR") (λ travel.
        and_then (pure (world visible "USD")) (λ usd_world.
          and_then (pure (world visible "EUR"))
            (λ eur_world. move_all checking savings travel usd_world eur_world)))))

  abbrev pub seed_visible : List Account → Attempt Report
  seed_visible visible =
      if has_user visible then pure (ok (already_applied owner)) else open_all visible

  unfoldable pub seed_for : Attempt Report
  seed_for = do visible ← list_visible platform owner; seed_visible visible

abbrev main_for : Platform → (ℕ → ℕ) → (ℕ → String) → Option String → Attempt Report
main_for platform time uuid none = pure (err owner_required)
main_for platform time uuid (some owner) = seed_for platform time uuid owner

-- `main`, with the environment variable `DEMO_OWNER_SUBJECT`
unfoldable pub main : Platform → (ℕ → ℕ) → (ℕ → String) → Option String → Attempt Report
main platform time uuid subject = main_for platform time uuid (truthy subject)
