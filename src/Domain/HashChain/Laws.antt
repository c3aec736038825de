-- ===== src/Domain/HashChain/Laws.antt =====
-- What verifyChain decides.
use miniledger.Base.{
  ℕ, suc, ◌+◌, ◌≡◌, refl, ap, ◌↔◌, inl, inr, String, Bool, true, false, not, ◌||◌, Option, none,
  some, List, [], ◌∷◌, take, ◌==◌, eq_iff, eq_self, option_eq, option_eq→eq, option_eq_self,
  Bool-cases, arith,
}
use miniledger.Domain.HashChain.{ChainEntry, hash_posting, verify_from, verify_chain}

module _ (sha256 : String → String) where
  -- Every entry names the hash before it, and carries the hash of that and its own content.
  abbrev pub IsChain : Option String → List ChainEntry → Type 0
  IsChain prev [] = Unit
  IsChain prev (e ∷ es) =
      (e.prev_hash ≡ prev)
      × (e.hash ≡ hash_posting sha256 prev e.content)
      × IsChain (some e.hash) es

  abbrev fits : Option String → ChainEntry → Bool
  fits prev e =
      not (not (option_eq e.prev_hash prev) || not (e.hash == hash_posting sha256 prev e.content))

  fits-true :
      (prev : Option String) (e : ChainEntry)
      → fits prev e ≡ true
      → (e.prev_hash ≡ prev) × (e.hash ≡ hash_posting sha256 prev e.content)
  fits-true prev e h =
      ground
        (arith, option_eq→eq e.prev_hash prev, eq_iff e.hash (hash_posting sha256 prev e.content))

  fits-intro :
      (prev : Option String) (e : ChainEntry)
      → e.prev_hash ≡ prev
      → e.hash ≡ hash_posting sha256 prev e.content
      → (not (option_eq e.prev_hash prev) || not (e.hash == hash_posting sha256 prev e.content))
        ≡ false
  fits-intro prev e h k =
      rw (h, k, option_eq_self prev, eq_self (hash_posting sha256 prev e.content))

  pub verify_from-IsChain :
      (prev : Option String) (index : ℕ) (es : List ChainEntry)
      → IsChain prev es
      → verify_from sha256 prev index es ≡ record { valid = true; broken_at_index = none }
  unfolding verify_from
  verify_from-IsChain prev index [] c = refl
  verify_from-IsChain prev index (e ∷ es) c =
      rw (fits-intro prev e c.0 c.1) (verify_from-IsChain (some e.hash) (suc index) es c.2)

  verify_from-valid :
      (prev : Option String) (index : ℕ) (es : List ChainEntry)
      → (verify_from sha256 prev index es).valid ≡ true
      → IsChain prev es
  unfolding verify_from
  verify_from-valid prev index [] h = tt
  verify_from-valid prev index (e ∷ es) h = elim (Bool-cases (fits prev e)) [
    | inr bad ↦ ground arith
    | inl good ↦
        let (p, q) = fits-true prev e good in
        (p, q, verify_from-valid (some e.hash) (suc index) es (ground arith))
  ]

  -- `verifyChain` reports a valid chain exactly when the entries form one.
  pub verify_chain-IsChain :
      (es : List ChainEntry) → ((verify_chain sha256 es).valid ≡ true) ↔ IsChain none es
  unfolding verify_chain
  verify_chain-IsChain es =
      (verify_from-valid none 0 es, λ c. ap (λ v. v.valid) (verify_from-IsChain none 0 es c))

  verify_from-break :
      (prev : Option String) (index : ℕ) (es : List ChainEntry) {j : ℕ}
      → (verify_from sha256 prev index es).broken_at_index ≡ some j
      → (k : ℕ) × (j ≡ index + k) × IsChain prev (take k es) × (IsChain prev (take (suc k) es) → ⊥)
  unfolding verify_from
  verify_from-break prev index [] h = cc h
  verify_from-break prev index (e ∷ es) {j} h = elim (Bool-cases (fits prev e)) [
    | inr bad ↦ (0, ground arith, tt, λ c. cc (fits-intro prev e c.0 c.1, bad))
    | inl good ↦
        let (p, q) = fits-true prev e good in
        let (k, at_k, before, after) =
          verify_from-break (some e.hash) (suc index) es {j = j} (ground arith) in
        (suc k, omega (arith, at_k), (p, q, before), λ c. after c.2)
  ]

  -- The reported index is the first break: the entries before it form a chain, and with the entry at
  -- it they do not.
  pub verify_chain-break :
      (es : List ChainEntry) {j : ℕ}
      → (verify_chain sha256 es).broken_at_index ≡ some j
      → IsChain none (take j es) × (IsChain none (take (suc j) es) → ⊥)
  unfolding verify_chain
  verify_chain-break es {j} h =
      let (k, at_k, before, after) = verify_from-break none 0 es {j = j} h in
      let same : j ≡ k = omega (arith, at_k) in rw same (before, after)
