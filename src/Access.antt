-- ===== src/Access.antt =====
-- src/access: access-token.guard.ts and principal.ts. Verifying a token is the jose library's
-- `jwtVerify`: a parameter, which gives the payload of a valid token.
pub mod Laws
use Prim.Native.String.{[], ◌∷◌}
use mathlib.Core.List as L
use miniledger.Base.{
  ℕ, ℤ, pos, String, Bool, true, false, Option, none, some, List, Result, ok, err, ◌==◌,
  if◌then◌else◌,
}
use miniledger.Base.Texts.{take, drop, trim, truthy}
use miniledger.Base.Json.{Value, as_text}
use miniledger.Interface.Problems.{ProblemDetails, problem}

pub record Principal : Type 0 where
  pub subject : String
  pub org : Option String
  pub session_id : Option String
  pub assurance_level : Option String

pub record VerifyOptions : Type 0 where
  pub issuer : String
  pub audience : String
  pub algorithms : List String
  pub clock_tolerance : ℕ

-- The payload of a token: its subject and the claims that the guard reads.
pub record Payload : Type 0 where
  pub sub : Option String
  pub org : Option Value
  pub sid : Option Value
  pub aal : Option Value

pub record Env : Type 0 where
  pub accesscore_jwt_issuer : String
  pub accesscore_jwt_audience : String
  pub accesscore_clock_skew_seconds : ℕ

abbrev pub verify_options : Env → VerifyOptions
verify_options env = record {
  issuer = env.accesscore_jwt_issuer;
  audience = env.accesscore_jwt_audience;
  algorithms = L.◌∷◌ "EdDSA" L.[];
  clock_tolerance = env.accesscore_clock_skew_seconds;
}

-- `bearer`
unfoldable pub bearer : Option String → Option String
bearer none = none
bearer (some header) =
    if take 7 header == "Bearer " then truthy (some (trim (drop 7 header))) else none

-- `stringClaim`
abbrev pub string_claim : Option Value → Option String
string_claim claim = as_text claim

abbrev pub unauthenticated : String → ProblemDetails
unauthenticated detail = problem 401 "Unauthenticated" detail

abbrev pub principal_of : Payload → String → Principal
principal_of payload subject = record {
  subject = subject;
  org = string_claim payload.org;
  session_id = string_claim payload.sid;
  assurance_level = string_claim payload.aal;
}

abbrev pub Answer : Type 0
Answer = Result Principal ProblemDetails

module _ (verify : VerifyOptions → String → Option Payload) (env : Env) where
  abbrev with_subject : Payload → Option String → Answer
  with_subject payload none = err (unauthenticated "the access token has no subject")
  with_subject payload (some subject) = ok (principal_of payload subject)

  abbrev with_payload : Option Payload → Answer
  with_payload none = err (unauthenticated "the access token is invalid or expired")
  with_payload (some payload) = with_subject payload (truthy payload.sub)

  abbrev with_token : Option String → Answer
  with_token none = err (unauthenticated "a bearer access token is required")
  with_token (some token) = with_payload (verify (verify_options env) token)

  -- `canActivate`, on the Authorization header: the principal that it puts on the request, or what it
  -- throws.
  unfoldable pub can_activate : Option String → Answer
  unfolding bearer
  can_activate authorization = with_token (bearer authorization)
