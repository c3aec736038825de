-- ===== src/Web/ServerLedger.antt =====
-- web/src/lib/server-ledger.ts: the ledger as the server's pages read it.
use mathlib.Core.List as L
use miniledger.Base.{
  ℕ, ◌≡◌, ◌≢◌, ◌⊎◌, refl, String, Bool, false, Option, none, some, Option-cases, Bool-cases, inl,
  inr, nat_eq, nat_to_string, if◌then◌else◌, arith,
}
use miniledger.Base.Texts.{◌<>◌}
use miniledger.Base.Json.{Value}
use miniledger.Web.Runtime.{Runtime, Incoming, given}
use miniledger.Web.Upstream.{ml_token_cookie, UpstreamResult, Sent, call_miniledger}
use miniledger.Web.Proxy.{NextResponse, or_object, may_have_body, relay, proxy_get}

pub data LedgerResult (A : Type 0) : Type 0 where
  found : A → LedgerResult A
  failed : ℕ → LedgerResult A

abbrev pub is_unauthorized : {A : Type 0} → LedgerResult A → Bool
is_unauthorized (found a) = false
is_unauthorized (failed status) = nat_eq status 401

abbrev pub ledger_result : Option UpstreamResult → LedgerResult Value
ledger_result none = failed 503
ledger_result (some response) =
    if nat_eq response.status 200 then found response.body else failed response.status

module _ (runtime : Runtime) (incoming : Incoming) where
  abbrev asked : String → String → Sent (Option UpstreamResult)
  asked path token =
      call_miniledger runtime path incoming.headers
        (record { method = "GET"; token = some token; body = none; headers = L.[] })

  abbrev get_with : String → Option String → Sent (LedgerResult Value)
  get_with path none = record { requests = L.[]; result = failed 401 }
  get_with path (some token) =
      let call = asked path token in
      record { requests = call.requests; result = ledger_result call.result }

  unfoldable pub get : String → Sent (LedgerResult Value)
  unfolding call_miniledger
  get path = get_with path (given ml_token_cookie incoming.cookies)

  unfoldable pub get_accounts : Sent (LedgerResult Value)
  unfolding get
  get_accounts = get "/accounts"

  unfoldable pub get_account : String → Sent (LedgerResult Value)
  unfolding get
  get_account id = get ("/accounts/" <> runtime.encode id)

  -- `limit` is 50 where the caller gives none.
  unfoldable pub get_statement : String → ℕ → Sent (LedgerResult Value)
  unfolding get
  get_statement id limit =
      get ("/accounts/" <> runtime.encode id <> "/statement?limit=" <> nat_to_string limit)

  unfoldable pub get_conservation : Sent (LedgerResult Value)
  unfolding get
  get_conservation = get "/audit/conservation"

  unfoldable pub get_account_audit : String → Sent (LedgerResult Value)
  unfolding get
  get_account_audit id = get ("/audit/accounts/" <> runtime.encode id)

-- What a page reads and what the proxied route answers for the same path.
abbrev pub Agrees : LedgerResult Value → NextResponse → Type 0
Agrees (found body) response = (response.status ≡ 200) × (response.body ≡ or_object body)
Agrees (failed code) response =
    (response.status ≢ 200)
    × ((response.status ≡ code) ⊎ ((may_have_body code ≡ false) × (response.status ≡ 503)))

ledger_result-Agrees :
    (upstream : Option UpstreamResult) → Agrees (ledger_result upstream) (relay upstream)
unfolding relay
ledger_result-Agrees none = (λ e. absurd (omega arith), inl refl)
ledger_result-Agrees (some upstream) = elim (Bool-cases (nat_eq upstream.status 200)) [
  | inl good ↦
      let at : upstream.status ≡ 200 = ground arith in rw at (unfold may_have_body in (refl, refl))
  | inr bad ↦ rw bad (elim (Bool-cases (may_have_body upstream.status)) [
    | inl has ↦ rw has (ground arith, inl refl)
    | inr without ↦ rw without (λ e. absurd (omega arith), inr (refl, refl))
  ])
]

-- A page and the browser's route see one ledger: for the same path they send the same requests, and
-- the route answers 200 with the body that the page has found, or, where the page has failed, with the
-- page's status or 503 if a response of that status can have no body.
pub get-Agrees :
    (runtime : Runtime) (incoming : Incoming) (path : String)
    → ((get runtime incoming path).requests ≡ (proxy_get runtime incoming path).requests)
      × Agrees (get runtime incoming path).result (proxy_get runtime incoming path).result
unfolding get proxy_get
get-Agrees runtime incoming path = elim (Option-cases (given ml_token_cookie incoming.cookies)) [
  | inl missing ↦ rw missing (refl, ((λ e. absurd (omega arith)), inl refl))
  | inr (token, signed_in) ↦
      rw signed_in (refl, ledger_result-Agrees (asked runtime incoming path token).result)
]
