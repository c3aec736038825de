-- ===== src/Interface/Audits.antt =====
-- src/ledger/interface/audit.controller.ts
use miniledger.Base.{ℕ, to_string, String, Bool, Option, List, map, Result, ok, err}
use miniledger.Persistence.Platform.{Platform}
use miniledger.Persistence.Action.{Action, pure, ◌>>=◌}
use miniledger.Application.Audits.{
  AccountAuditReport, CurrencyTotal, VerifyAccountError, verify_account, verify_conservation,
}
use miniledger.Interface.Problems.{ProblemDetails, problem}

pub record AccountAuditResponse : Type 0 where
  pub account_id : String
  pub posting_count : ℕ
  pub balance : String
  pub chain_valid : Bool
  pub head_matches : Bool
  pub reconciled : Bool
  pub broken_at_seq : Option ℕ

pub record CurrencyTotalResponse : Type 0 where
  pub currency : String
  pub total : String

pub record ConservationResponse : Type 0 where
  pub conserved : Bool
  pub by_currency : List CurrencyTotalResponse

abbrev pub audit_response : AccountAuditReport → AccountAuditResponse
audit_response r = record {
  account_id = r.account_id;
  posting_count = r.posting_count;
  balance = to_string r.balance;
  chain_valid = r.chain_valid;
  head_matches = r.head_matches;
  reconciled = r.reconciled;
  broken_at_seq = r.broken_at_seq;
}

abbrev pub total_response : CurrencyTotal → CurrencyTotalResponse
total_response t = record { currency = t.currency; total = to_string t.total }

abbrev pub audit_reply :
    Result AccountAuditReport VerifyAccountError
    → Action (Result AccountAuditResponse ProblemDetails)
audit_reply (err _) = pure (err (problem 404 "Account not found" "unknown_account"))
audit_reply (ok report) = pure (ok (audit_response report))

module _ (platform : Platform) where
  -- `verifyAccount`
  unfoldable pub get_account_audit : String → Action (Result AccountAuditResponse ProblemDetails)
  get_account_audit id = do result ← verify_account platform id; audit_reply result

  -- `verifyConservation`
  unfoldable pub get_conservation : Action ConservationResponse
  get_conservation = do
    report ← verify_conservation platform
    pure (record {
      conserved = report.conserved;
      by_currency = map total_response report.by_currency;
    })
