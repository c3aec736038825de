-- ===== src/Access/Laws.antt =====
-- src/access/access-token.guard.ts: whom the guard lets in.
use mathlib.Core.List as L
use miniledger.Base.{
  ◌≡◌, refl, ◌⊎◌, inl, inr, String, Option, none, some, ok, err, Option-cases, ◌==◌, eq_iff,
  Bool-cases, sym, ◌∙◌, ap,
}
use miniledger.Base.Texts.{◌<>◌, take, drop, take-drop, trim, truthy}
use miniledger.Base.Json.{as_text}
use miniledger.Access.{VerifyOptions, Payload, Env, Principal, bearer, Answer, can_activate}

-- A header that carries a token: behind `Bearer ` and white space, not empty.
abbrev pub Carries : Option String → String → Type 0
Carries authorization token =
    (rest : String) × (authorization ≡ some ("Bearer " <> rest))
    × (truthy (some (trim rest)) ≡ some token)

bearer-Carries :
    (authorization : Option String) {token : String}
    → bearer authorization ≡ some token
    → Carries authorization token
unfolding bearer
bearer-Carries none h = cc h
bearer-Carries (some header) h = elim (Bool-cases (take 7 header == "Bearer ")) [
  | inl prefixed ↦ (
    drop 7 header,
    ap some (
        sym (take-drop 7 header)
        ∙ ap (λ s. s <> drop 7 header) ((eq_iff (take 7 header) "Bearer ").0 prefixed)),
    rw prefixed at h,
  )
  | inr other ↦ cc (rw other at h)
]

-- The options of a verification: the configured issuer, audience and clock skew, and one algorithm.
abbrev pub options_of : Env → VerifyOptions
options_of env = record {
  issuer = env.accesscore_jwt_issuer;
  audience = env.accesscore_jwt_audience;
  algorithms = L.◌∷◌ "EdDSA" L.[];
  clock_tolerance = env.accesscore_clock_skew_seconds;
}

-- The claims of a principal.
pub record IsPrincipal (payload : Payload) (subject : String) (principal : Principal) : Type 0 where
  pub subject_eq : principal.subject ≡ subject
  pub org_eq : principal.org ≡ as_text payload.org
  pub session_eq : principal.session_id ≡ as_text payload.sid
  pub level_eq : principal.assurance_level ≡ as_text payload.aal

Carries-bearer :
    (authorization : Option String) (token : String)
    → Carries authorization token
    → bearer authorization ≡ some token
unfolding bearer
Carries-bearer authorization token (rest, prefixed, named) = rw prefixed named

module _ (verify : VerifyOptions → String → Option Payload) (env : Env) where
  -- What the guard decides.
  abbrev pub IsGuarded : Option String → Answer → Type 0
  IsGuarded authorization (ok principal) =
      (token : String) × (payload : Payload) × (subject : String) × Carries authorization token
      × (verify (options_of env) token ≡ some payload)
      × (truthy payload.sub ≡ some subject)
      × IsPrincipal payload subject principal
  IsGuarded authorization (err p) =
      (p.status ≡ 401)
      × ((¬ ((token : String) × Carries authorization token))
          ⊎ ((token : String) × Carries authorization token
              × ((verify (options_of env) token ≡ none)
                  ⊎ ((payload : Payload) × (verify (options_of env) token ≡ some payload)
                      × (truthy payload.sub ≡ none)))))

  no_token :
      (authorization : Option String)
      → bearer authorization ≡ none
      → ¬ ((token : String) × Carries authorization token)
  no_token authorization missing (token, carries) =
      cc (missing, Carries-bearer authorization token carries)

  -- The guard lets a request in exactly when its header carries a token that verifies, under EdDSA and
  -- the configured issuer, audience and clock skew, with a subject that is not empty; the principal has
  -- that subject and those of the claims org, sid and aal that are texts. Any other request is answered
  -- with a status of 401.
  pub can_activate-IsGuarded :
      (authorization : Option String)
      → IsGuarded authorization (can_activate verify env authorization)
  unfolding can_activate
  can_activate-IsGuarded authorization = elim (Option-cases (bearer authorization)) [
    | inl missing ↦ rw missing (refl, inl (no_token authorization missing))
    | inr (token, found) ↦
        let carries = bearer-Carries authorization found in
        elim (Option-cases (verify (options_of env) token)) [
          | inl invalid ↦ rw (found, invalid) (refl, inr (token, carries, inl invalid))
          | inr (payload, valid) ↦ elim (Option-cases (truthy payload.sub)) [
            | inl anonymous ↦
                rw (found, valid, anonymous)
                  (refl, inr (token, carries, inr (payload, valid, anonymous)))
            | inr (subject, named) ↦
                rw (found, valid, named)
                  (
                    token,
                    payload,
                    subject,
                    carries,
                    valid,
                    named,
                    record { subject_eq = refl; org_eq = refl; session_eq = refl; level_eq = refl },
                  )
          ]
        ]
  ]
