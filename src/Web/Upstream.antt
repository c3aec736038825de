-- ===== src/Web/Upstream.antt =====
-- web/src/lib/upstream.ts: the calls of AccessCore and of the ledger. A call gives the requests that
-- it sent, and no result where it throws.
use Prim.Native.Char.{Char, code}
use Prim.Native.String.{[], ◌∷◌}
use mathlib.Core.List as L
use miniledger.Base.{
  ℕ, ℤ, ◌*◌, String, Bool, true, Option, none, some, List, Map, lookup, insert, nat_eq,
  if◌then◌else◌,
}
use miniledger.Base.Texts.{◌<>◌, trim, last_part, truthy}
use miniledger.Base.Json.{Value, null, text, singleton}
use miniledger.Web.Runtime.{FetchRequest, FetchResponse, Runtime, given}

abbrev pub ml_token_cookie : String
ml_token_cookie = "ml_token"

abbrev pub ml_user_cookie : String
ml_user_cookie = "ml_user"

-- `value.replace(/\/+$/, '')`
abbrev drop_slash : Char → String → String
drop_slash c [] = if nat_eq (code c) b'/' then "" else c ∷ ""
drop_slash c (d ∷ s) = c ∷ d ∷ s

unfoldable pub trim_slashes : String → String
trim_slashes [] = ""
trim_slashes (c ∷ s) = drop_slash c (trim_slashes s)

abbrev pub or_default : String → Option String → String
or_default fallback none = fallback
or_default fallback (some url) = url

-- `ACCESSCORE_API_URL`
unfoldable pub accesscore_url : Runtime → String
accesscore_url runtime =
    trim_slashes (or_default "https://auth.deviego.xyz" runtime.accesscore_api_url)

-- `MINILEDGER_API_URL`
unfoldable pub miniledger_url : Runtime → String
miniledger_url runtime =
    trim_slashes (or_default "https://ledger.deviego.xyz" runtime.miniledger_api_url)

abbrev pub ml_token_max_age_seconds : ℕ
ml_token_max_age_seconds = 15 * 60

pub record UpstreamResult : Type 0 where
  pub status : ℕ
  pub body : Value

pub record CallOptions : Type 0 where
  pub method : String
  pub token : Option String
  pub body : Option Value
  pub headers : Map String

abbrev pub insert_some : String → Option String → Map String → Map String
insert_some name none headers = headers
insert_some name (some value) headers = insert name value headers

-- `incoming.get('x-forwarded-for')?.split(',').at(-1)?.trim()`
abbrev pub forwarded_address : Option String → Option String
forwarded_address none = none
forwarded_address (some addresses) = truthy (some (trim (last_part addresses)))

unfoldable pub visitor_headers : Map String → Map String
visitor_headers incoming =
    insert_some "user-agent" (given "user-agent" incoming)
      (insert_some "x-forwarded-for" (forwarded_address (lookup "x-forwarded-for" incoming)) L.[])

-- `{ ...from, ...over }`
unfoldable pub spread : Map String → Map String → Map String
spread from L.[] = from
spread from (L.◌∷◌ (name, value) over) = spread (insert name value from) over

abbrev bearer : Option String → Option String
bearer none = none
bearer (some token) = some ("Bearer " <> token)

abbrev pub call_headers : Map String → CallOptions → Map String
call_headers incoming options =
    insert_some "authorization" (bearer (truthy options.token))
      (spread (insert "content-type" "application/json" (visitor_headers incoming)) options.headers)

-- A call's requests, in order, and what it comes to.
pub record Sent (A : Type 0) : Type 0 where
  pub requests : List FetchRequest
  pub result : A

module _ (runtime : Runtime) where
  abbrev body_text : Option Value → Option String
  body_text none = none
  body_text (some body) = some (runtime.stringify body)

  abbrev pub request_to : String → String → Map String → CallOptions → FetchRequest
  request_to base path incoming options = record {
    url = base <> path;
    method = options.method;
    headers = call_headers incoming options;
    body = body_text options.body;
  }

  abbrev parsed_or_message : String → Option Value → Value
  parsed_or_message raw none = singleton "message" (text raw)
  parsed_or_message raw (some body) = body

  -- The body of a response: empty, JSON, or any other text.
  unfoldable pub read_body : String → Value
  read_body [] = null
  read_body (c ∷ s) = parsed_or_message (c ∷ s) (runtime.parse (c ∷ s))

  abbrev read_raw : ℕ → Option String → Option UpstreamResult
  read_raw status none = none
  read_raw status (some raw) = some (record { status = status; body = read_body raw })

  abbrev pub read_response : Option FetchResponse → Option UpstreamResult
  read_response none = none
  read_response (some response) = read_raw response.status response.raw

  -- `call`
  unfoldable pub call : String → String → Map String → CallOptions → Sent (Option UpstreamResult)
  unfolding visitor_headers spread read_body
  call base path incoming options =
      let request = request_to base path incoming options in
      record { requests = L.◌∷◌ request L.[]; result = read_response (runtime.fetch request) }

  unfoldable pub call_accesscore : String → Map String → CallOptions → Sent (Option UpstreamResult)
  unfolding accesscore_url
  call_accesscore path incoming options = call (accesscore_url runtime) path incoming options

  unfoldable pub call_miniledger : String → Map String → CallOptions → Sent (Option UpstreamResult)
  unfolding miniledger_url
  call_miniledger path incoming options = call (miniledger_url runtime) path incoming options

pub record CookieOptions : Type 0 where
  pub http_only : Bool
  pub secure : Bool
  pub same_site : String
  pub path : String
  pub max_age : ℤ

unfoldable pub token_cookie_options : Runtime → ℤ → CookieOptions
token_cookie_options runtime max_age = record {
  http_only = true;
  secure = runtime.production;
  same_site = "lax";
  path = "/";
  max_age = max_age;
}
