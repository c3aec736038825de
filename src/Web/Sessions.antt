-- ===== src/Web/Sessions.antt =====
-- web/src/app/api/login/route.ts and logout/route.ts. A handler gives no response where it throws:
-- the framework then answers with a status of 500.
pub mod Laws
use mathlib.Core.List as L
use miniledger.Base.{
  ℕ, ℤ, pos, ◌≤ℤ◌, leb_ℤ, String, Bool, true, false, Option, none, some, List, nat_eq,
  if◌then◌else◌,
}
use miniledger.Base.Texts.{truthy}
use miniledger.Base.Json.{
  Value, Fields, null, boolean, number, text, array, object, end, field, read, as_text, as_number,
  singleton,
}
use miniledger.Web.Runtime.{Runtime, Incoming, FetchRequest, given}
use miniledger.Web.Upstream.{
  ml_token_cookie, ml_user_cookie, ml_token_max_age_seconds, UpstreamResult, CallOptions, Sent,
  call_accesscore, token_cookie_options,
}
use miniledger.Web.Proxy.{Cookie, NextResponse, json, error_json}

abbrev pub min_ℤ : ℤ → ℤ → ℤ
min_ℤ a b = if leb_ℤ a b then a else b

abbrev pub max_ℤ : ℤ → ℤ → ℤ
max_ℤ a b = if leb_ℤ a b then b else a

-- `Math.max(1, Math.min(expiresIn, ML_TOKEN_MAX_AGE_SECONDS))`
unfoldable pub max_age : Option ℤ → ℤ
max_age none = max_ℤ (pos 1) (min_ℤ (pos ml_token_max_age_seconds) (pos ml_token_max_age_seconds))
max_age (some expires_in) = max_ℤ (pos 1) (min_ℤ expires_in (pos ml_token_max_age_seconds))

abbrev pub or_empty_text : Option String → String
or_empty_text none = ""
or_empty_text (some s) = s

abbrev answer : List FetchRequest → NextResponse → Sent (Option NextResponse)
answer requests response = record { requests = requests; result = some response }

abbrev throws : List FetchRequest → Sent (Option NextResponse)
throws requests = record { requests = requests; result = none }

abbrev pub credentials : String → String → Value
credentials email password =
    object (field "email" (text email) (field "password" (text password) end))

abbrev ok_json : Value
ok_json = singleton "ok" (boolean true)

module _ (runtime : Runtime) where
  abbrev pub session_cookies : String → String → ℤ → List Cookie
  session_cookies token email age =
      L.◌∷◌
        (record {
          name = ml_token_cookie;
          value = token;
          options = token_cookie_options runtime age;
        })
        (L.◌∷◌
          (record {
            name = ml_user_cookie;
            value = email;
            options = token_cookie_options runtime age;
          })
          L.[])

  abbrev pub open_session : String → Value → Option String → NextResponse
  open_session email body none =
      error_json "Unexpected response from the authorization service." 502
  open_session email body (some token) = record {
    status = 200;
    body = ok_json;
    cookies = session_cookies token email (max_age (as_number (read "expires_in" body)));
  }

  -- A property of `null` cannot be read.
  abbrev pub with_body : String → Value → Option NextResponse
  with_body email null = none
  with_body email (boolean b) = some (open_session email (boolean b) none)
  with_body email (number n) = some (open_session email (number n) none)
  with_body email (text s) = some (open_session email (text s) none)
  with_body email (array items) = some (open_session email (array items) none)
  with_body email (object fields) =
      some (open_session email (object fields) (as_text (read "access_token" (object fields))))

  unfoldable pub after_login : String → Option UpstreamResult → Option NextResponse
  unfolding max_age
  after_login email none = some (error_json "service_unavailable" 503)
  after_login email (some upstream) =
      if nat_eq upstream.status 200
      then with_body email upstream.body
      else some (error_json "Invalid credentials." 401)

  abbrev pub log_in : Incoming → String → String → Sent (Option UpstreamResult)
  log_in incoming email password = call_accesscore runtime "/auth/login" incoming.headers (record {
    method = "POST";
    token = none;
    body = some (credentials email password);
    headers = L.[];
  })

  abbrev pub log_in_with : Incoming → Option String → Option String → Sent (Option NextResponse)
  log_in_with incoming none password =
      answer L.[] (error_json "Email and password are required." 400)
  log_in_with incoming (some email) none =
      answer L.[] (error_json "Email and password are required." 400)
  log_in_with incoming (some email) (some password) =
      let call = log_in incoming email password in
      record { requests = call.requests; result = after_login email call.result }

  abbrev read_login : Incoming → Value → Sent (Option NextResponse)
  read_login incoming payload =
      log_in_with incoming (truthy (as_text (read "email" payload)))
        (truthy (as_text (read "password" payload)))

  abbrev pub with_payload : Incoming → Option Value → Sent (Option NextResponse)
  with_payload incoming none = answer L.[] (error_json "invalid_request" 400)
  with_payload incoming (some null) = throws L.[]
  with_payload incoming (some (boolean b)) = read_login incoming (boolean b)
  with_payload incoming (some (number n)) = read_login incoming (number n)
  with_payload incoming (some (text s)) = read_login incoming (text s)
  with_payload incoming (some (array items)) = read_login incoming (array items)
  with_payload incoming (some (object fields)) = read_login incoming (object fields)

  -- POST /api/login
  unfoldable pub post_login : Incoming → Sent (Option NextResponse)
  unfolding after_login call_accesscore
  post_login incoming = with_payload incoming incoming.json

  abbrev pub cleared : NextResponse
  cleared = record { status = 200; body = ok_json; cookies = session_cookies "" "" (pos 0) }

  abbrev log_out_with : Incoming → Option String → Sent NextResponse
  log_out_with incoming none = record { requests = L.[]; result = cleared }
  log_out_with incoming (some token) =
      let call =
        call_accesscore runtime "/auth/logout" incoming.headers
          (record { method = "POST"; token = some token; body = none; headers = L.[] }) in
      record { requests = call.requests; result = cleared }

  -- POST /api/logout
  unfoldable pub post_logout : Incoming → Sent NextResponse
  unfolding call_accesscore
  post_logout incoming = log_out_with incoming (given ml_token_cookie incoming.cookies)
