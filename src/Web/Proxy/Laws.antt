-- ===== src/Web/Proxy/Laws.antt =====
-- web/src/lib/bff.ts: what is sent on behalf of the browser.
use Prim.Native.String.{[], ◌∷◌}
use mathlib.Core.List as L
use miniledger.Base.{
  ◌≡◌, refl, ◌∙◌, ◌⊎◌, inl, inr, String, false, Option, none, some, Map, lookup, insert,
  lookup-insert_eq, lookup-insert_ne, ◌==◌, Option-cases, subst, some-eq-some, eq_self,
}
use miniledger.Base.Texts.{◌<>◌, truthy}
use miniledger.Web.Runtime.{FetchRequest, Runtime, Incoming, given}
use miniledger.Web.Upstream.{
  ml_token_cookie, miniledger_url, visitor_headers, spread, forwarded_address, insert_some, Sent,
  call_miniledger, call, request_to, read_response,
}
use miniledger.Web.Proxy.{
  NextResponse, not_authenticated, or_empty_object, forward_options, proxy_authorized, relay,
}

truthy-given : (o : Option String) {s : String} → truthy o ≡ some s → truthy (some s) ≡ some s
truthy-given none h = cc
truthy-given (some []) h = cc
truthy-given (some (c ∷ t)) h = subst (λ r. truthy (some r) ≡ some r) (some-eq-some h) refl

insert_some_other :
    (k j : String) (o : Option String) (m : Map String)
    → (k == j) ≡ false
    → lookup j (insert_some k o m) ≡ lookup j m
insert_some_other k j none m h = refl
insert_some_other k j (some v) m h = lookup-insert_ne k j v m h

insert_some_same :
    (k : String) (o : Option String) (m : Map String)
    → lookup k m ≡ none
    → lookup k (insert_some k o m) ≡ o
insert_some_same k none m h = h
insert_some_same k (some v) m h = lookup-insert_eq k k v m (eq_self k)

-- The visitor's headers are two, and neither is one that the proxy sets.
visitor_headers-other :
    (incoming : Map String) (j : String)
    → ("user-agent" == j) ≡ false
    → ("x-forwarded-for" == j) ≡ false
    → lookup j (visitor_headers incoming) ≡ none
unfolding visitor_headers
visitor_headers-other incoming j h k =
    insert_some_other "user-agent" j (given "user-agent" incoming) _ h
    ∙ insert_some_other "x-forwarded-for" j (forwarded_address (lookup "x-forwarded-for" incoming))
        _ k

abbrev base_headers : Map String → Map String
base_headers incoming = insert "content-type" "application/json" (visitor_headers incoming)

abbrev key_headers : Option String → Map String
key_headers key = insert_some "idempotency-key" key L.[]

spread-key :
    (from : Map String) (key : Option String)
    → spread from (key_headers key) ≡ insert_some "idempotency-key" key from
unfolding spread
spread-key from none = refl
spread-key from (some k) = refl

-- One request, on behalf of a visitor with a token.
pub record IsOnBehalf (runtime : Runtime) (incoming : Incoming) (path method token : String)
    (request : FetchRequest) : Type 0 where
  pub to_ledger : request.url ≡ miniledger_url runtime <> path
  pub by_method : request.method ≡ method
  pub with_token : lookup "authorization" request.headers ≡ some ("Bearer " <> token)
  pub with_key : lookup "idempotency-key" request.headers ≡ given "idempotency-key" incoming.headers
  pub with_body : request.body ≡ some (runtime.stringify (or_empty_object incoming.json))

-- Nothing is sent without a token, and one request with one.
abbrev pub IsProxied : Runtime → Incoming → String → String → Sent NextResponse → Type 0
IsProxied runtime incoming path method sent =
    ((given ml_token_cookie incoming.cookies ≡ none) × (sent ≡ not_authenticated))
    ⊎ ((token : String) × (request : FetchRequest) × (given ml_token_cookie incoming.cookies
          ≡ some token)
        × (sent.requests ≡ L.◌∷◌ request L.[])
        × (sent.result ≡ relay (read_response runtime (runtime.fetch request)))
        × IsOnBehalf runtime incoming path method token request)

module _ (runtime : Runtime) (incoming : Incoming) where
  abbrev key : Option String
  key = given "idempotency-key" incoming.headers

  sent_key :
      (token : String)
      → lookup "idempotency-key" (
          insert "authorization"
            ("Bearer " <> token)
            (spread (base_headers incoming.headers) (key_headers key)))
        ≡ key
  sent_key token =
      lookup-insert_ne "authorization" "idempotency-key" ("Bearer " <> token)
        (spread (base_headers incoming.headers) (key_headers key)) refl
      ∙ rw (spread-key (base_headers incoming.headers) key) (
          insert_some_same "idempotency-key" key (base_headers incoming.headers) (
            lookup-insert_ne "content-type" "idempotency-key" "application/json"
              (visitor_headers incoming.headers) refl
            ∙ visitor_headers-other incoming.headers "idempotency-key" refl refl))

  request-IsOnBehalf :
      (path method token : String)
      → truthy (some token) ≡ some token
      → IsOnBehalf runtime incoming path method token (
          request_to runtime
            (miniledger_url runtime)
            path
            incoming.headers
            (forward_options runtime incoming method token))
  request-IsOnBehalf path method token h = record {
    to_ledger = refl;
    by_method = refl;
    with_token = rw h (
        lookup-insert_eq "authorization" "authorization" ("Bearer " <> token)
          (spread (base_headers incoming.headers) (key_headers key)) refl);
    with_key = rw h (sent_key token);
    with_body = refl;
  }

  -- A proxied write sends nothing and answers 401 when the cookie with the token is missing or empty;
  -- otherwise it sends one request, to the ledger, with the token, the caller's idempotency key and
  -- the caller's body, and passes its answer on.
  pub proxy_authorized-IsProxied :
      (path method : String)
      → IsProxied runtime incoming path method (proxy_authorized runtime incoming path method)
  unfolding proxy_authorized call_miniledger call
  proxy_authorized-IsProxied path method =
      elim (Option-cases (given ml_token_cookie incoming.cookies)) [
        | inl missing ↦ rw missing (inl (refl, refl))
        | inr (token, found) ↦
            let h = truthy-given _ found in
            rw found (inr (token, _, refl, refl, refl, request-IsOnBehalf path method token h))
      ]
