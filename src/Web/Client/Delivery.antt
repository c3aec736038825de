-- ===== src/Web/Client/Delivery.antt =====
-- From the browser's call to the ledger's answer: web/src/lib/client.ts over web/src/lib/bff.ts.
use Prim.Native.String.{[], ◌∷◌}
use mathlib.Core.List as L
use miniledger.Base.{
  List, subst, sym, ◌≡◌, refl, ap, ◌∙◌, ◌⊎◌, inl, inr, String, Option, none, some, Map, lookup,
}
use miniledger.Base.Texts.{◌<>◌, truthy}
use miniledger.Base.Json.{Value, text, object, field, end}
use miniledger.Web.Runtime.{FetchRequest, FetchResponse, Runtime, Incoming, given}
use miniledger.Web.Upstream.{ml_token_cookie, miniledger_url, read_response, insert_some, spread}
use miniledger.Web.Proxy.{NextResponse, or_empty_object, post_transfers}
use miniledger.Web.Proxy.Laws.{proxy_authorized-IsProxied}
use miniledger.Web.Client.Answers.{Shows, relay-Shows}
use miniledger.Web.Client.{
  ApiResult, unauthorized, by_status, TransferBody, transfer_json, interpret, transfer,
}

module _ (browser server : Runtime) (cookies : Map String) where
  abbrev parsed : Option String → Option Value
  parsed none = none
  parsed (some body) = server.parse body

  -- The browser's request as the route sees it, and the route's response as the browser sees it.
  abbrev pub incoming_of : FetchRequest → Incoming
  incoming_of request = record {
    headers = request.headers;
    cookies = cookies;
    json = parsed request.body;
  }

  abbrev pub response_of : NextResponse → FetchResponse
  response_of response = record {
    status = response.status;
    raw = some (server.stringify response.body);
  }

  -- The request that the browser makes for a transfer.
  abbrev pub browser_request : TransferBody → Option String → FetchRequest
  browser_request input key = record {
    url = "/api/transfers";
    method = "POST";
    headers =
        spread (L.◌∷◌ ("content-type", "application/json") L.[])
          (insert_some "idempotency-key" (truthy key) L.[]);
    body = some (browser.stringify (transfer_json input));
  }

  abbrev pub served : TransferBody → Option String → NextResponse
  served input key = (post_transfers server (incoming_of (browser_request input key))).result

  -- The browser reaches the dashboard, and each reads what the other prints.
  pub record IsConnected (input : TransferBody) (key : Option String) : Type 0 where
    pub serves : browser.fetch (browser_request input key) ≡ some (response_of (served input key))
    pub reads_request :
        server.parse (browser.stringify (transfer_json input)) ≡ some (transfer_json input)
    pub reads_response :
        browser.parse (server.stringify (served input key).body) ≡ some (served input key).body

given_key :
    (key : Option String)
    → given "idempotency-key" (
        spread
          (L.◌∷◌ ("content-type", "application/json") L.[])
          (insert_some "idempotency-key" (truthy key) L.[]))
      ≡ truthy key
unfolding spread
given_key none = refl
given_key (some []) = refl
given_key (some (c ∷ s)) = refl

module _ (browser server : Runtime) (cookies : Map String) (input : TransferBody)
    (key : Option String) where
  abbrev request : FetchRequest
  request = browser_request browser server cookies input key

  shown :
      (connected : IsConnected browser server cookies input key)
      → (transfer browser input key).result
        ≡ by_status
            (served browser server cookies input key).status
            (served browser server cookies input key).body
  unfolding transfer interpret
  shown connected = rw (connected.serves, connected.reads_response) refl

  sent_key : given "idempotency-key" request.headers ≡ truthy key
  sent_key = given_key key

  -- The body of a transfer.
  abbrev pub given_body : Value
  given_body = object (
      field "from" (text input.from) (
        field "to" (text input.to)
          (field "amount" (text input.amount) (field "currency" (text input.currency) end))))

  -- What the dashboard sends for the transfer.
  abbrev pub forwarded : List FetchRequest
  forwarded = (post_transfers server (incoming_of browser server cookies request)).requests

  -- The ledger's request for a transfer, and what the browser makes of the answer.
  abbrev pub IsDelivered : ApiResult Value → Type 0
  IsDelivered result =
      ((given ml_token_cookie cookies ≡ none) × (forwarded ≡ L.[]) × (result ≡ unauthorized))
      ⊎ ((token : String) × (request : FetchRequest) × (given ml_token_cookie cookies ≡ some token)
          × (forwarded ≡ L.◌∷◌ request L.[])
          × (request.url ≡ miniledger_url server <> "/transfers")
          × (request.method ≡ "POST")
          × (lookup "authorization" request.headers ≡ some ("Bearer " <> token))
          × (lookup "idempotency-key" request.headers ≡ truthy key)
          × (request.body ≡ some (server.stringify given_body))
          × Shows (read_response server (server.fetch request)) result)

  -- A transfer asked for in the browser shows `unauthorized`, and the ledger is not asked, without the
  -- cookie of a session. Otherwise the dashboard sends one request, to the ledger, under the token of
  -- the cookie, the key that was given and the body that was given; and what is shown is decided by
  -- the ledger's answer: its body where the status is a success, `unauthorized` for a 401,
  -- `unavailable` for a 503 or where there is no answer or one that can have no body, and an error for
  -- any other.
  pub transfer-IsDelivered :
      IsConnected browser server cookies input key → IsDelivered (transfer browser input key).result
  unfolding post_transfers
  transfer-IsDelivered connected =
      elim (proxy_authorized-IsProxied server (incoming_of browser server cookies request)
        "/transfers" "POST") [
          | inl (missing, refused) ↦ inl (
            missing,
            ap (λ s. s.requests) refused,
            shown connected ∙ ap (λ s. by_status s.result.status s.result.body) refused,
          )
          | inr (token, asked, found, sent, answered, on) ↦ inr (
            token,
            asked,
            found,
            sent,
            on.to_ledger,
            on.by_method,
            on.with_token,
            on.with_key ∙ sent_key,
            on.with_body
                ∙ ap (λ j. some (server.stringify (or_empty_object j))) connected.reads_request,
            subst (Shows (read_response server (server.fetch asked)))
                (sym (shown connected ∙ ap (λ r. by_status r.status r.body) answered))
                (relay-Shows (read_response server (server.fetch asked))),
          )
        ]
