-- ===== src/Interface/Reversals.antt =====
-- src/ledger/interface/reversals.controller.ts and reversal.dto.ts
use miniledger.Base.{ℕ, ◌≡◌, refl, sym, ap, ◌∙◌, inl, inr, String, Result, ok, err, arith, subst}
use miniledger.Domain.Ids.{TransactionId}
use miniledger.Persistence.Store.{Db, TransferReceipt}
use miniledger.Persistence.Platform.{Platform}
use miniledger.Persistence.Action.{Action, pure, ◌>>=◌}
use miniledger.Persistence.Action.Laws.{bind-ok, pure-ok}
use miniledger.Application.Reversals.{ReverseError, Response, reverse}
use miniledger.Application.Reversals.Outcome.{reverse-outcome}
use miniledger.Interface.Problems.{ProblemDetails, problem, IsClientError}

pub record ReversalDto : Type 0 where
  pub transaction_id : String

-- `PROBLEMS[error]`, with the error's name as the detail
unfoldable pub reversal_problem : ReverseError → ProblemDetails
reversal_problem ReverseError.unknown_transaction =
    problem 404 "Transaction not found" "unknown_transaction"
reversal_problem ReverseError.already_reversed =
    problem 409 "Transaction already reversed" "already_reversed"
reversal_problem ReverseError.insufficient_funds =
    problem 422 "Insufficient funds to reverse" "insufficient_funds"

abbrev pub ReversalReply : Type 0
ReversalReply = Result TransferReceipt ProblemDetails

abbrev pub reversal_reply : Response → Action ReversalReply
reversal_reply (ok receipt) = pure (ok receipt)
reversal_reply (err e) = pure (err (reversal_problem e))

reversal_problem-IsClientError : (e : ReverseError) → IsClientError (reversal_problem e)
unfolding reversal_problem
reversal_problem-IsClientError ReverseError.unknown_transaction = (omega arith, omega arith)
reversal_problem-IsClientError ReverseError.already_reversed = (omega arith, omega arith)
reversal_problem-IsClientError ReverseError.insufficient_funds = (omega arith, omega arith)

module _ (platform : Platform) where
  -- `create`, behind the route's guards
  unfoldable pub create_reversal : ℕ → TransactionId → ReversalDto → Action ReversalReply
  create_reversal now id body = do
    result ← reverse platform now id body.transaction_id
    reversal_reply result

  refused-keeps :
      (now : ℕ) (id : TransactionId) (t : String) (db : Db) {e : ReverseError} {db' : Db}
      → reverse platform now id t db ≡ (ok (err e), db')
      → db ≡ db'
  refused-keeps now id t db h = elim (reverse-outcome platform now id t db) [
    | inl (r, db'', s, returned) ↦ cc (sym returned ∙ h)
    | inr (kept, refused) ↦ sym kept ∙ ap (λ p. p.1) h
  ]

  reply-problem :
      (response : Response) (db : Db) {p : ProblemDetails} {db' : Db}
      → reversal_reply response db ≡ (ok (err p), db')
      → (e : ReverseError) × (response ≡ err e) × (reversal_problem e ≡ p) × (db ≡ db')
  reply-problem (ok r) db h = cc (pure-ok _ db h).0
  reply-problem (err e) db {p} h =
      let (same, kept) = pure-ok {B = ReversalReply} (err (reversal_problem e)) db {y = err p} h in
      (e, refl, cc same, kept)

  -- Behind the guards of its route, which are not part of it, the handler of a reversal answers with a
  -- problem only with a status from 400 to 499, and then nothing was written.
  pub create_reversal-problem :
      (now : ℕ) (id : TransactionId) (body : ReversalDto) (db : Db) {p : ProblemDetails} {db' : Db}
      → create_reversal now id body db ≡ (ok (err p), db')
      → IsClientError p × (db ≡ db')
  unfolding create_reversal
  create_reversal-problem now id body db {p} h =
      let b = bind-ok _ _ h in
      let (e, refused, p_eq, same) = reply-problem b.value b.middle b.rest in
      (
        subst IsClientError p_eq (reversal_problem-IsClientError e),
        refused-keeps now id body.transaction_id db {e = e} (rw (← refused) (b.first)) ∙ same,
      )
