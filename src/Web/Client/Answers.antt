-- ===== src/Web/Client/Answers.antt =====
-- What the browser shows of an answer that web/src/lib/bff.ts passes on: `interpret` of
-- web/src/lib/client.ts, status by status.
use miniledger.Base.{
  ℕ, ◌≤◌, ◌<◌, ◌≡◌, ◌≢◌, refl, ◌⊎◌, inl, inr, String, true, false, Option, none, some, Bool-cases,
  leb, nat_eq, arith,
}
use miniledger.Base.Json.{Value}
use miniledger.Web.Upstream.{UpstreamResult}
use miniledger.Web.Proxy.{may_have_body, or_object, relay}
use miniledger.Web.Client.{ApiResult, ok, unauthorized, unavailable, error, is_ok_status, by_status}

-- A status with which a response can have a body.
abbrev pub HasBody : ℕ → Type 0
HasBody status = (200 ≤ status) × (status ≤ 599) × (status ≢ 204) × (status ≢ 205) × (status ≢ 304)

-- Or with which it cannot.
abbrev pub HasNoBody : ℕ → Type 0
HasNoBody status =
    (status < 200) ⊎ ((599 < status) ⊎ ((status ≡ 204) ⊎ ((status ≡ 205) ⊎ (status ≡ 304))))

-- What the browser shows for a status and a body.
abbrev pub ShowsBody : ℕ → Value → ApiResult Value → Type 0
ShowsBody status body result =
    ((status ≡ 401) × (result ≡ unauthorized))
    ⊎ (((status ≡ 503) × (result ≡ unavailable))
        ⊎ (((200 ≤ status) × (status ≤ 299) × (result ≡ ok body))
            ⊎ ((299 < status)
                × (status ≢ 401)
                × (status ≢ 503)
                × ((message : String) × (result ≡ error message)))))

-- What the browser shows for an answer of the ledger, or for none. An answer without a body is relayed
-- as an empty object.
abbrev pub Shows : Option UpstreamResult → ApiResult Value → Type 0
Shows none result = result ≡ unavailable
Shows (some upstream) result =
    (HasNoBody upstream.status × (result ≡ unavailable))
    ⊎ (HasBody upstream.status × ShowsBody upstream.status (or_object upstream.body) result)

may_have_body-cases :
    (status : ℕ)
    → ((may_have_body status ≡ true) × HasBody status)
      ⊎ ((may_have_body status ≡ false) × HasNoBody status)
unfolding may_have_body
may_have_body-cases status = ground arith

by_status-ShowsBody :
    (status : ℕ) (body : Value) → 200 ≤ status → ShowsBody status body (by_status status body)
by_status-ShowsBody status body low = elim (Bool-cases (nat_eq status 401)) [
  | inl refused ↦ rw refused (inl (ground arith, refl))
  | inr let_in ↦ elim (Bool-cases (nat_eq status 503)) [
    | inl down ↦ rw (let_in, down) (inr (inl (ground arith, refl)))
    | inr up ↦ elim (Bool-cases (leb status 299)) [
      | inl fine ↦
          let success : is_ok_status status ≡ true = ground arith in
          rw (let_in, up, success) (inr (inr (inl (low, ground arith, refl))))
      | inr bad ↦
          let failure : is_ok_status status ≡ false = ground arith in
          rw (let_in, up, failure)
            (inr (inr (inr (ground arith, ground arith, ground arith, (_, refl)))))
    ]
  ]
]

pub relay-Shows :
    (upstream : Option UpstreamResult)
    → Shows upstream (by_status (relay upstream).status (relay upstream).body)
unfolding relay
relay-Shows none = refl
relay-Shows (some upstream) = elim (may_have_body-cases upstream.status) [
  | inl (has, body) ↦ rw has (inr (body, by_status-ShowsBody upstream.status _ body.0))
  | inr (without, no_body) ↦ rw without (inl (no_body, refl))
]
