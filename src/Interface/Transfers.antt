-- ===== src/Interface/Transfers.antt =====
-- src/ledger/interface/transfers.controller.ts and transfer.dto.ts
use miniledger.Base.{
  ℕ, ◌≡◌, refl, sym, ap, ◌∙◌, inl, inr, String, Option, Result, ok, err, arith, subst,
}
use miniledger.Domain.Ids.{TransactionId}
use miniledger.Persistence.Failure.{TransferError}
use miniledger.Persistence.Store.{Db, TransferReceipt}
use miniledger.Persistence.Platform.{Platform}
use miniledger.Persistence.Action.{Action, pure, ◌>>=◌}
use miniledger.Persistence.Action.Laws.{bind-ok, pure-ok}
use miniledger.Application.Transfers.{TransferInput, Response, key_of, transfer}
use miniledger.Application.Transfers.Outcome.{transfer-outcome}
use miniledger.Interface.Problems.{ProblemDetails, problem, IsClientError}

pub record TransferDto : Type 0 where
  pub from : String
  pub to : String
  pub amount : String
  pub currency : String

-- `PROBLEMS[error]`, with the error's name as the detail
unfoldable pub transfer_problem : TransferError → ProblemDetails
transfer_problem TransferError.unknown_currency = problem 422 "Unknown currency" "unknown_currency"
transfer_problem TransferError.non_positive_amount =
    problem 422 "Amount must be a positive integer" "non_positive_amount"
transfer_problem TransferError.same_account =
    problem 422 "Source and destination must differ" "same_account"
transfer_problem TransferError.unknown_account = problem 404 "Account not found" "unknown_account"
transfer_problem TransferError.account_currency_mismatch =
    problem 422 "Account currency does not match the transfer" "account_currency_mismatch"
transfer_problem TransferError.not_account_owner =
    problem 403 "You do not own the source account" "not_account_owner"
transfer_problem TransferError.insufficient_funds =
    problem 422 "Insufficient funds" "insufficient_funds"
transfer_problem TransferError.idempotency_conflict =
    problem 409 "Idempotency key reused for a different request" "idempotency_conflict"

abbrev pub Reply : Type 0
Reply = Result (Option TransferReceipt) ProblemDetails

abbrev pub transfer_reply : Response → Action Reply
transfer_reply (ok receipt) = pure (ok receipt)
transfer_reply (err e) = pure (err (transfer_problem e))

-- `{ ...body, ownerId: principal.subject, idempotencyKey: idempotencyKey || undefined }`
abbrev pub transfer_input : TransferDto → String → Option String → TransferInput
transfer_input body subject idempotency_key = record {
  from = body.from;
  to = body.to;
  amount = body.amount;
  currency = body.currency;
  owner_id = subject;
  idempotency_key = key_of idempotency_key;
}

transfer_problem-IsClientError : (e : TransferError) → IsClientError (transfer_problem e)
unfolding transfer_problem
transfer_problem-IsClientError TransferError.unknown_currency = (omega arith, omega arith)
transfer_problem-IsClientError TransferError.non_positive_amount = (omega arith, omega arith)
transfer_problem-IsClientError TransferError.same_account = (omega arith, omega arith)
transfer_problem-IsClientError TransferError.unknown_account = (omega arith, omega arith)
transfer_problem-IsClientError TransferError.account_currency_mismatch = (omega arith, omega arith)
transfer_problem-IsClientError TransferError.not_account_owner = (omega arith, omega arith)
transfer_problem-IsClientError TransferError.insufficient_funds = (omega arith, omega arith)
transfer_problem-IsClientError TransferError.idempotency_conflict = (omega arith, omega arith)

module _ (platform : Platform) where
  -- `create`, with the principal's subject and the Idempotency-Key header, behind the route's guards
  unfoldable pub create_transfer :
      ℕ → TransactionId → TransferDto → String → Option String → Action Reply
  create_transfer now id body subject idempotency_key = do
    result ← transfer platform now id (transfer_input body subject idempotency_key)
    transfer_reply result

  refused-keeps :
      (now : ℕ) (id : TransactionId) (input : TransferInput) (db : Db) {e : TransferError}
      {db' : Db}
      → transfer platform now id input db ≡ (ok (err e), db')
      → db ≡ db'
  refused-keeps now id input db h = elim (transfer-outcome platform now id input db) [
    | inl (r, db'', s, returned) ↦ cc (sym returned ∙ h)
    | inr (kept, refused) ↦ sym kept ∙ ap (λ p. p.1) h
  ]

  reply-problem :
      (response : Response) (db : Db) {p : ProblemDetails} {db' : Db}
      → transfer_reply response db ≡ (ok (err p), db')
      → (e : TransferError) × (response ≡ err e) × (transfer_problem e ≡ p) × (db ≡ db')
  reply-problem (ok r) db h = cc (pure-ok _ db h).0
  reply-problem (err e) db {p} h =
      let (same, kept) = pure-ok {B = Reply} (err (transfer_problem e)) db {y = err p} h in
      (e, refl, cc same, kept)

  -- Behind the guards of its route, which are not part of it, the handler of a transfer answers with a
  -- problem only with a status from 400 to 499, and then nothing was written.
  pub create_transfer-problem :
      (now : ℕ) (id : TransactionId) (body : TransferDto) (subject : String)
      (idempotency_key : Option String) (db : Db) {p : ProblemDetails} {db' : Db}
      → create_transfer now id body subject idempotency_key db ≡ (ok (err p), db')
      → IsClientError p × (db ≡ db')
  unfolding create_transfer
  create_transfer-problem now id body subject idempotency_key db {p} h =
      let b = bind-ok _ _ h in
      let (e, refused, p_eq, same) = reply-problem b.value b.middle b.rest in
      (
        subst IsClientError p_eq (transfer_problem-IsClientError e),
        refused-keeps now id (transfer_input body subject idempotency_key) db {e = e}
              (rw (← refused) (b.first))
            ∙ same,
      )
