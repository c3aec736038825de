-- ===== src/Web/Proxy.antt =====
-- web/src/lib/bff.ts, and the routes that are one call of it: web/src/app/api/accounts/route.ts,
-- accounts/[id]/statement/route.ts and transfers/route.ts.
pub mod Laws
use mathlib.Core.List as L
use miniledger.Base.{
  ℕ, ℤ, String, Bool, ◌&&◌, ◌||◌, not, Option, none, some, List, Map, leb, nat_eq, if◌then◌else◌,
}
use miniledger.Base.Texts.{◌<>◌}
use miniledger.Base.Json.{Value, null, text, object, end, singleton}
use miniledger.Web.Runtime.{Runtime, Incoming, given}
use miniledger.Web.Upstream.{
  ml_token_cookie, UpstreamResult, CallOptions, CookieOptions, Sent, insert_some, call_miniledger,
}

pub record Cookie : Type 0 where
  pub name : String
  pub value : String
  pub options : CookieOptions

pub record NextResponse : Type 0 where
  pub status : ℕ
  pub body : Value
  pub cookies : List Cookie

-- `NextResponse.json(body, { status })`
abbrev pub json : Value → ℕ → NextResponse
json body status = record { status = status; body = body; cookies = L.[] }

abbrev pub error_json : String → ℕ → NextResponse
error_json error status = json (singleton "error" (text error)) status

-- A response with a body has a status from 200 to 599 that is none of 204, 205 and 304: for any
-- other `NextResponse.json` throws.
unfoldable pub may_have_body : ℕ → Bool
may_have_body status =
    leb 200 status
    && leb status 599
    && not (nat_eq status 204 || nat_eq status 205 || nat_eq status 304)

-- `body ?? {}`
abbrev pub or_object : Value → Value
or_object null = object end
or_object (Value.boolean b) = Value.boolean b
or_object (Value.number n) = Value.number n
or_object (text s) = text s
or_object (Value.array items) = Value.array items
or_object (object fields) = object fields

-- The end of both proxies: the answer passed on, and 503 where the call or the answer throws.
unfoldable pub relay : Option UpstreamResult → NextResponse
relay none = error_json "service_unavailable" 503
relay (some upstream) =
    if may_have_body upstream.status
    then json (or_object upstream.body) upstream.status
    else error_json "service_unavailable" 503

abbrev pub relay_sent : Sent (Option UpstreamResult) → Sent NextResponse
relay_sent call = record { requests = call.requests; result = relay call.result }

abbrev pub not_authenticated : Sent NextResponse
not_authenticated = record { requests = L.[]; result = error_json "not_authenticated" 401 }

abbrev pub or_empty_object : Option Value → Value
or_empty_object none = object end
or_empty_object (some body) = body

module _ (runtime : Runtime) where
  abbrev get_with : Incoming → String → Option String → Sent NextResponse
  get_with incoming path none = not_authenticated
  get_with incoming path (some token) = relay_sent (
      call_miniledger runtime path incoming.headers
        (record { method = "GET"; token = some token; body = none; headers = L.[] }))

  unfoldable pub proxy_get : Incoming → String → Sent NextResponse
  unfolding call_miniledger relay
  proxy_get incoming path = get_with incoming path (given ml_token_cookie incoming.cookies)

  abbrev pub forward_options : Incoming → String → String → CallOptions
  forward_options incoming method token = record {
    method = method;
    token = some token;
    body = some (or_empty_object incoming.json);
    headers = insert_some "idempotency-key" (given "idempotency-key" incoming.headers) L.[];
  }

  abbrev send_with : Incoming → String → String → Option String → Sent NextResponse
  send_with incoming path method none = not_authenticated
  send_with incoming path method (some token) =
      relay_sent
        (call_miniledger runtime path incoming.headers (forward_options incoming method token))

  unfoldable pub proxy_authorized : Incoming → String → String → Sent NextResponse
  unfolding call_miniledger relay
  proxy_authorized incoming path method =
      send_with incoming path method (given ml_token_cookie incoming.cookies)

  -- GET /api/accounts
  unfoldable pub get_accounts : Incoming → Sent NextResponse
  unfolding proxy_get
  get_accounts incoming = proxy_get incoming "/accounts"

  -- POST /api/accounts
  unfoldable pub post_accounts : Incoming → Sent NextResponse
  unfolding proxy_authorized
  post_accounts incoming = proxy_authorized incoming "/accounts" "POST"

  -- GET /api/accounts/[id]/statement, with the query of the request
  unfoldable pub get_statement : Incoming → String → String → Sent NextResponse
  unfolding proxy_get
  get_statement incoming id search =
      proxy_get incoming ("/accounts/" <> runtime.encode id <> "/statement" <> search)

  -- POST /api/transfers
  unfoldable pub post_transfers : Incoming → Sent NextResponse
  unfolding proxy_authorized
  post_transfers incoming = proxy_authorized incoming "/transfers" "POST"
