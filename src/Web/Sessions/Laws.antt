-- ===== src/Web/Sessions/Laws.antt =====
-- web/src/app/api/login/route.ts: when a session is opened, and for how long.
use mathlib.Core.List as L
use miniledger.Base.{
  true, ℕ, ◌≤◌, ℤ, pos, ◌≤ℤ◌, ◌≡◌, refl, ◌⊎◌, inl, inr, String, Option, none, some, Bool-cases,
  nat_eq, arith,
}
use miniledger.Base.Texts.{◌<>◌, truthy}
use miniledger.Base.Json.{
  Value, null, boolean, number, text, array, object, field, end, read, as_text, as_number,
}
use miniledger.Web.Runtime.{Runtime, Incoming, FetchRequest}
use miniledger.Web.Upstream.{
  UpstreamResult, Sent, accesscore_url, call, call_accesscore, read_response, token_cookie_options,
}
use miniledger.Web.Proxy.{Cookie, NextResponse}
use miniledger.Web.Sessions.{
  max_age, open_session, with_body, log_in_with, with_payload, after_login, post_login,
}

max_age-bounds : (o : Option ℤ) → (pos 1 ≤ℤ max_age o) × (max_age o ≤ℤ pos 900)
unfolding max_age
max_age-bounds none = ground arith
max_age-bounds (some n) = ground arith

-- A cookie of a session, that scripts cannot read, for a number of seconds.
abbrev pub cookie : Runtime → String → String → ℤ → Cookie
cookie runtime name value age = record {
  name = name;
  value = value;
  options = record {
    http_only = true;
    secure = runtime.production;
    same_site = "lax";
    path = "/";
    max_age = age;
  };
}

-- What a login comes to, by the answer of AccessCore: an error with no cookie; a session of 1 to 900
-- seconds, under the token of an answer with a status of 200; or a throw, where such an answer has no
-- body.
abbrev pub IsLogin : Runtime → String → Option UpstreamResult → Option NextResponse → Type 0
IsLogin runtime email upstream none =
    (answered : UpstreamResult) × (upstream ≡ some answered)
    × (answered.status ≡ 200)
    × (answered.body ≡ null)
IsLogin runtime email upstream (some response) =
    ((400 ≤ response.status) × (response.cookies ≡ L.[]))
    ⊎ ((answered : UpstreamResult) × (token : String) × (age : ℤ) × (upstream ≡ some answered)
        × (answered.status ≡ 200)
        × (as_text (read "access_token" answered.body) ≡ some token)
        × (response.status ≡ 200)
        × (response.cookies
            ≡ L.◌∷◌ (cookie runtime "ml_token" token age)
                (L.◌∷◌ (cookie runtime "ml_user" email age) L.[]))
        × (pos 1 ≤ℤ age)
        × (age ≤ℤ pos 900))

module _ (runtime : Runtime) (email : String) where
  open_session-IsLogin :
      (status : ℕ) (body : Value) (token : Option String)
      → status ≡ 200
      → as_text (read "access_token" body) ≡ token
      → IsLogin runtime email
          (some (record { status = status; body = body }))
          (some (open_session runtime email body token))
  unfolding token_cookie_options
  open_session-IsLogin status body none h k = inl (omega arith, refl)
  open_session-IsLogin status body (some token) h k =
      let (low, high) = max_age-bounds (as_number (read "expires_in" body)) in
      inr (
        record { status = status; body = body },
        token,
        max_age (as_number (read "expires_in" body)),
        refl,
        h,
        k,
        refl,
        refl,
        low,
        high,
      )

  with_body-IsLogin :
      (status : ℕ) (body : Value)
      → status ≡ 200
      → IsLogin runtime email
          (some (record { status = status; body = body }))
          (with_body runtime email body)
  with_body-IsLogin status null h = (record { status = status; body = null }, refl, h, refl)
  with_body-IsLogin status (boolean b) h = open_session-IsLogin status (boolean b) none h refl
  with_body-IsLogin status (number n) h = open_session-IsLogin status (number n) none h refl
  with_body-IsLogin status (text s) h = open_session-IsLogin status (text s) none h refl
  with_body-IsLogin status (array items) h = open_session-IsLogin status (array items) none h refl
  with_body-IsLogin status (object fields) h = open_session-IsLogin status (object fields) _ h refl

  after_login-IsLogin :
      (upstream : Option UpstreamResult)
      → IsLogin runtime email upstream (after_login runtime email upstream)
  unfolding after_login
  after_login-IsLogin none = inl (omega arith, refl)
  after_login-IsLogin (some answered) = elim (Bool-cases (nat_eq answered.status 200)) [
    | inl good ↦ rw good (with_body-IsLogin answered.status answered.body (ground arith))
    | inr bad ↦ rw bad (inl (omega arith, refl))
  ]

-- A login that is refused before AccessCore is asked.
abbrev IsRefused : Incoming → Option NextResponse → Type 0
IsRefused incoming none = incoming.json ≡ some null
IsRefused incoming (some response) = (response.status ≡ 400) × (response.cookies ≡ L.[])

-- The two credentials, not empty, of the request's body.
abbrev Asks : Incoming → String → String → Type 0
Asks incoming email password =
    (payload : Value) × (incoming.json ≡ some payload)
    × (truthy (as_text (read "email" payload)) ≡ some email)
    × (truthy (as_text (read "password" payload)) ≡ some password)

-- The one request of a login, with the credentials.
pub record IsSent (runtime : Runtime) (email password : String) (request : FetchRequest)
    : Type 0 where
  pub to_accesscore : request.url ≡ accesscore_url runtime <> "/auth/login"
  pub by_method : request.method ≡ "POST"
  pub with_credentials :
      request.body
      ≡ some (
          runtime.stringify
            (object (field "email" (text email) (field "password" (text password) end))))

abbrev pub IsAnswered : Runtime → Incoming → Sent (Option NextResponse) → Type 0
IsAnswered runtime incoming sent =
    ((sent.requests ≡ L.[]) × IsRefused incoming sent.result)
    ⊎ ((email : String) × (password : String) × Asks incoming email password
        × ((request : FetchRequest) × (sent.requests ≡ L.◌∷◌ request L.[])
            × IsSent runtime email password request
            × IsLogin runtime email (read_response runtime (runtime.fetch request)) sent.result))

module _ (runtime : Runtime) (incoming : Incoming) where
  log_in_with-IsAnswered :
      (payload : Value) (email password : Option String)
      → incoming.json ≡ some payload
      → truthy (as_text (read "email" payload)) ≡ email
      → truthy (as_text (read "password" payload)) ≡ password
      → IsAnswered runtime incoming (log_in_with runtime incoming email password)
  unfolding call_accesscore call
  log_in_with-IsAnswered payload none password h e k = inl (refl, (refl, refl))
  log_in_with-IsAnswered payload (some email) none h e k = inl (refl, (refl, refl))
  log_in_with-IsAnswered payload (some email) (some password) h e k = inr (
    email,
    password,
    (payload, h, e, k),
    (
      _,
      refl,
      record { to_accesscore = refl; by_method = refl; with_credentials = refl },
      after_login-IsLogin runtime email _,
    ),
  )

  with_payload-IsAnswered :
      (json : Option Value)
      → incoming.json ≡ json
      → IsAnswered runtime incoming (with_payload runtime incoming json)
  with_payload-IsAnswered none h = inl (refl, (refl, refl))
  with_payload-IsAnswered (some null) h = inl (refl, h)
  with_payload-IsAnswered (some (boolean b)) h = log_in_with-IsAnswered (boolean b) _ _ h refl refl
  with_payload-IsAnswered (some (number n)) h = log_in_with-IsAnswered (number n) _ _ h refl refl
  with_payload-IsAnswered (some (text s)) h = log_in_with-IsAnswered (text s) _ _ h refl refl
  with_payload-IsAnswered (some (array items)) h =
      log_in_with-IsAnswered (array items) _ _ h refl refl
  with_payload-IsAnswered (some (object fields)) h =
      log_in_with-IsAnswered (object fields) _ _ h refl refl

  -- A login is refused with a status of 400 and no request is sent unless the body has an email and a
  -- password that are not empty; with them, AccessCore alone is asked, with those two, and a session
  -- is opened, of 1 to 900 seconds, only where it answers 200 with a token: that token and the email
  -- are the two cookies. Any other answer sets no cookie and has a status from 400; the handler
  -- throws only at a body, or an answer of 200, that is `null`.
  pub post_login-IsAnswered : IsAnswered runtime incoming (post_login runtime incoming)
  unfolding post_login
  post_login-IsAnswered = with_payload-IsAnswered incoming.json refl
