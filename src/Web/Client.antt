-- ===== src/Web/Client.antt =====
-- web/src/lib/client.ts: the browser's calls of the dashboard's routes, with the types of
-- web/src/lib/types.ts.
pub mod Answers
pub mod Delivery
use Prim.Native.String.{[], ◌∷◌}
use mathlib.Core.List as L
use miniledger.Base.{
  ℕ, ℤ, String, Bool, true, false, ◌&&◌, Option, none, some, List, Map, insert, leb, nat_eq,
  nat_to_string, if◌then◌else◌,
}
use miniledger.Base.Texts.{◌<>◌, truthy}
use miniledger.Base.Json.{
  Value, Fields, null, boolean, number, text, array, object, end, field, read, as_text,
}
use miniledger.Web.Runtime.{FetchRequest, FetchResponse, Runtime}
use miniledger.Web.Upstream.{Sent, insert_some, spread}

pub data ApiResult (A : Type 0) : Type 0 where
  ok : A → ApiResult A
  unauthorized unavailable : ApiResult A
  error : String → ApiResult A

abbrev pub first_text : List String → Value → Option String
first_text L.[] body = none
first_text (L.◌∷◌ key keys) body = elim (truthy (as_text (read key body))) [
  | some s ↦ some s
  | none ↦ first_text keys body
]

-- `messageFrom`
unfoldable pub message_from : Value → String → String
message_from body fallback =
    elim (first_text (L.◌∷◌ "message" (L.◌∷◌ "title" (L.◌∷◌ "error" (L.◌∷◌ "detail" L.[])))) body) [
      | none ↦ fallback
      | some message ↦ message
    ]

-- `response.ok`
abbrev pub is_ok_status : ℕ → Bool
is_ok_status status = leb 200 status && leb status 299

abbrev pub failed_message : ℕ → String
failed_message status = "Request failed (" <> nat_to_string status <> ")"

pub record TransferBody : Type 0 where
  pub from : String
  pub to : String
  pub amount : String
  pub currency : String

abbrev pub transfer_json : TransferBody → Value
transfer_json input = object (
    field "from" (text input.from) (
      field "to" (text input.to)
        (field "amount" (text input.amount) (field "currency" (text input.currency) end))))

-- The result of a response, by its status and its body.
abbrev pub by_status : ℕ → Value → ApiResult Value
by_status status body =
    if nat_eq status 401
    then unauthorized
    else (if nat_eq status 503
        then unavailable
        else (if is_ok_status status
            then ok body
            else error (message_from body (failed_message status))))

module _ (runtime : Runtime) where
  abbrev parsed_or_null : Option String → Value
  parsed_or_null none = null
  parsed_or_null (some raw) = elim (runtime.parse raw) [ none ↦ null | some body ↦ body ]

  -- `interpret`
  unfoldable pub interpret : FetchResponse → ApiResult Value
  interpret response = by_status response.status (parsed_or_null response.raw)

  abbrev pub interpret_some : Option FetchResponse → ApiResult Value
  interpret_some none = unavailable
  interpret_some (some response) = interpret response

  abbrev pub ask : FetchRequest → Sent (ApiResult Value)
  ask request = record {
    requests = L.◌∷◌ request L.[];
    result = interpret_some (runtime.fetch request);
  }

  unfoldable pub send : String → String → Value → Map String → Sent (ApiResult Value)
  unfolding interpret spread
  send method path payload headers = ask (record {
    url = path;
    method = method;
    headers = spread (L.◌∷◌ ("content-type", "application/json") L.[]) headers;
    body = some (runtime.stringify payload);
  })

  unfoldable pub get : String → Sent (ApiResult Value)
  unfolding interpret
  get path = ask (record { url = path; method = "GET"; headers = L.[]; body = none })

  unfoldable pub post : String → Value → Sent (ApiResult Value)
  unfolding send
  post path payload = send "POST" path payload L.[]

  unfoldable pub login : String → String → Sent (ApiResult Value)
  unfolding post
  login email password =
      post "/api/login" (object (field "email" (text email) (field "password" (text password) end)))

  -- A failure is passed over.
  unfoldable pub logout : List FetchRequest
  logout = L.◌∷◌ (record { url = "/api/logout"; method = "POST"; headers = L.[]; body = none }) L.[]

  unfoldable pub open_account : String → Sent (ApiResult Value)
  unfolding post
  open_account currency = post "/api/accounts" (object (field "currency" (text currency) end))

  -- `limit` is 50 where the caller gives none.
  unfoldable pub fetch_statement : String → ℕ → ℕ → Sent (ApiResult Value)
  unfolding get
  fetch_statement id cursor limit = get (
      "/api/accounts/"
      <> runtime.encode id
      <> "/statement?limit="
      <> nat_to_string limit
      <> "&cursor="
      <> nat_to_string cursor)

  unfoldable pub transfer : TransferBody → Option String → Sent (ApiResult Value)
  unfolding send
  transfer input idempotency_key =
      send "POST" "/api/transfers" (transfer_json input)
        (insert_some "idempotency-key" (truthy idempotency_key) L.[])
