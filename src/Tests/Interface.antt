-- ===== src/Tests/Interface.antt =====
-- The theorems on the HTTP interface, on the tables that the tests run.
use miniledger.Base.{
  ◌≡◌, refl, String, Option, none, some, List, [], ◌∷◌, Result, ok, err, ◌==◌, if◌then◌else◌,
}
use miniledger.Base.Texts.{trim}
use miniledger.Base.Json.{Value}
use miniledger.Access.{Env, VerifyOptions, Payload, can_activate}
use miniledger.Access.Laws.{IsGuarded, can_activate-IsGuarded}
use miniledger.Interface.Filter.{IsValidated, transform, transform-IsValidated}
use miniledger.Domain.Ids.{transaction_id}
use miniledger.Domain.Account.{user}
use miniledger.Interface.Problems.{ProblemDetails, problem, IsClientError}
use miniledger.Interface.Transfers.{
  TransferDto, transfer_problem, create_transfer, create_transfer-problem,
}
use miniledger.Interface.Reversals.{reversal_problem, create_reversal, create_reversal-problem}
use miniledger.Interface.Accounts.{AccountResponse, IsShown, get_by_id, get_by_id-IsShown}
use miniledger.Tests.{code, try_platform, with_alice}

abbrev body : TransferDto
body = record { from = "alice"; to = "usd"; amount = "5"; currency = "USD" }

abbrev overdrawn : ProblemDetails
overdrawn = problem 422 "Insufficient funds" "insufficient_funds"

overdrawn_answer :
    create_transfer try_platform 2 (transaction_id "t1") body "ann" none with_alice
    ≡ (ok (err overdrawn), with_alice)
unfolding code create_transfer transfer_problem with_alice
overdrawn_answer = refl

create_transfer-problem_example : IsClientError overdrawn × (with_alice ≡ with_alice)
create_transfer-problem_example =
    create_transfer-problem try_platform 2 (transaction_id "t1") body "ann" none with_alice
      {p = overdrawn} {db' = with_alice} overdrawn_answer

abbrev not_found : ProblemDetails
not_found = problem 404 "Transaction not found" "unknown_transaction"

not_found_answer :
    create_reversal try_platform 2
      (transaction_id "t1")
      (record { transaction_id = "t0" })
      with_alice
    ≡ (ok (err not_found), with_alice)
unfolding code create_reversal reversal_problem with_alice
not_found_answer = refl

create_reversal-problem_example : IsClientError not_found × (with_alice ≡ with_alice)
create_reversal-problem_example =
    create_reversal-problem try_platform 2 (transaction_id "t1") (record { transaction_id = "t0" })
      with_alice {p = not_found} {db' = with_alice} not_found_answer

abbrev alice_response : AccountResponse
alice_response = record {
  id = "alice";
  type = user;
  currency = some "USD";
  balance = "0";
  overdraft_floor = some "0";
  created_at = 1;
}

alice_answer : (get_by_id try_platform "alice" "ann" with_alice).0 ≡ ok (ok alice_response)
unfolding code with_alice get_by_id
alice_answer = refl

get_by_id-IsShown_example : IsShown try_platform "alice" "ann" with_alice
get_by_id-IsShown_example =
    get_by_id-IsShown try_platform "alice" "ann" with_alice {response = alice_response} refl
      alice_answer

abbrev env : Env
env = record {
  accesscore_jwt_issuer = "https://auth.accesscore.dev";
  accesscore_jwt_audience = "accesscore";
  accesscore_clock_skew_seconds = 30;
}

-- A verifier that accepts one token.
abbrev verify : VerifyOptions → String → Option Payload
verify options token =
    if token == "good"
    then some (record { sub = some "ann"; org = some (Value.text "org-9"); sid = none; aal = none })
    else none

can_activate-IsGuarded_example :
    IsGuarded verify env (some "Bearer  good") (can_activate verify env (some "Bearer  good"))
can_activate-IsGuarded_example = can_activate-IsGuarded verify env (some "Bearer  good")

let_in :
    can_activate verify env (some "Bearer  good")
    ≡ ok (record { subject = "ann"; org = some "org-9"; session_id = none; assurance_level = none })
unfolding can_activate trim
let_in = refl

abbrev refuse : Value → Result String (List String)
refuse value = err ("Required" ∷ "Too short" ∷ [])

transform-IsValidated_example : IsValidated refuse Value.null (transform refuse Value.null)
transform-IsValidated_example = transform-IsValidated refuse Value.null
