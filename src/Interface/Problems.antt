-- ===== src/Interface/Problems.antt =====
-- src/shared/http/problem-details.ts
use miniledger.Base.{ℕ, ◌≤◌, ◌<◌, String, Option, some}

pub record ProblemDetails : Type 0 where
  pub type : String
  pub title : String
  pub status : ℕ
  pub detail : Option String

abbrev pub problem : ℕ → String → String → ProblemDetails
problem status title detail = record {
  type = "about:blank";
  title = title;
  status = status;
  detail = some detail;
}

-- A status that blames the request.
abbrev pub IsClientError : ProblemDetails → Type 0
IsClientError p = (400 ≤ p.status) × (p.status < 500)
