-- ===== src/Domain/HashChain/Tampering.antt =====
-- What a hash chain protects: the texts that hashPosting digests, and the contents behind them.
use mathlib.Core.List as L
use mathlib.Core.Path.{ap₂}
use miniledger.Base.{
  ◌≡◌, ◌≢◌, refl, sym, ap, ◌∙◌, ◌⊎◌, inl, inr, String, true, Option, none, some, List, length, map,
  All, ◌==◌, eq_iff, Bool-cases, arith,
}
use miniledger.Domain.HashChain.Canonical.{HasNoBar, IsPlain, canonical-injective}
use miniledger.Domain.HashChain.{
  PostingContent, or_empty, canonical, ChainEntry, hash_posting, verify_chain,
}
use miniledger.Domain.HashChain.Laws.{IsChain, verify_chain-IsChain}

-- The hash that a chain ends in, or the one before it.
abbrev pub head_of : Option String → List ChainEntry → Option String
head_of prev L.[] = prev
head_of prev (L.◌∷◌ e es) = head_of (some e.hash) es

abbrev pub contents : List ChainEntry → List PostingContent
contents es = map (λ e. e.content) es

module _ (sha256 : String → String) where
  -- Two texts with one digest.
  abbrev pub Collision : Type 0
  Collision = (s : String) × (t : String) × (s ≢ t) × (sha256 s ≡ sha256 t)

  digests_agree : (s t : String) → sha256 s ≡ sha256 t → (s ≡ t) ⊎ Collision
  digests_agree s t e = elim (Bool-cases (s == t)) [
    | inl same ↦ inl ((eq_iff s t).0 same)
    | inr other ↦ inr (s, t, λ q. cc ((eq_iff s t).1 q, other), e)
  ]

  module _ (plain : (s : String) → HasNoBar (sha256 s)) where
    link-agrees :
        (prev prev' : Option String) (e e' : ChainEntry)
        → HasNoBar (or_empty prev)
        → HasNoBar (or_empty prev')
        → IsPlain e.content
        → IsPlain e'.content
        → e.hash ≡ hash_posting sha256 prev e.content
        → e'.hash ≡ hash_posting sha256 prev' e'.content
        → e.hash ≡ e'.hash
        → ((or_empty prev ≡ or_empty prev') × (e.content ≡ e'.content)) ⊎ Collision
    unfolding hash_posting
    link-agrees prev prev' e e' hp hp' he he' h h' same =
        elim (digests_agree (canonical prev e.content) (canonical prev' e'.content)
          (sym h ∙ same ∙ h')) [
            | inl texts ↦
                inl (canonical-injective prev prev' e.content e'.content hp hp' he he' texts)
            | inr collision ↦ inr collision
          ]

    hash-HasNoBar :
        (prev : Option String) (e : ChainEntry)
        → e.hash ≡ hash_posting sha256 prev e.content
        → HasNoBar e.hash
    unfolding hash_posting
    hash-HasNoBar prev e h = rw h (plain (canonical prev e.content))

    chains-agree :
        (prev prev' : Option String) (es es' : List ChainEntry)
        → HasNoBar (or_empty prev)
        → HasNoBar (or_empty prev')
        → All IsPlain (contents es)
        → All IsPlain (contents es')
        → IsChain sha256 prev es
        → IsChain sha256 prev' es'
        → length es ≡ length es'
        → or_empty (head_of prev es) ≡ or_empty (head_of prev' es')
        → ((or_empty prev ≡ or_empty prev') × (contents es ≡ contents es')) ⊎ Collision
    chains-agree prev prev' L.[] L.[] hp hp' pl pl' c c' n h = inl (h, refl)
    chains-agree prev prev' L.[] (L.◌∷◌ e es) hp hp' pl pl' c c' n h = absurd (omega arith)
    chains-agree prev prev' (L.◌∷◌ e es) L.[] hp hp' pl pl' c c' n h = absurd (omega arith)
    chains-agree prev prev' (L.◌∷◌ e es) (L.◌∷◌ e' es') hp hp' pl pl' c c' n h =
        elim (chains-agree (some e.hash) (some e'.hash) es es' (hash-HasNoBar prev e c.1)
          (hash-HasNoBar prev' e' c'.1) pl.1 pl'.1 c.2 c'.2 (omega arith) h) [
            | inr collision ↦ inr collision
            | inl (hash_same, rest) ↦
                elim (link-agrees prev prev' e e' hp hp' pl.0 pl'.0 c.1 c'.1 hash_same) [
                  | inr collision ↦ inr collision
                  | inl (prev_same, content_same) ↦
                      inl (prev_same, ap₂ (λ (a : PostingContent) b. L.◌∷◌ a b) content_same rest)
                ]
          ]

    -- Tamper evidence: two lists of entries of the same length that verifyChain accepts and that end
    -- in the same hash have the same contents, or else two texts with one digest are at hand. The
    -- digest and the ids have no `|` in them.
    pub verify_chain-agree :
        (es es' : List ChainEntry)
        → All IsPlain (contents es)
        → All IsPlain (contents es')
        → (verify_chain sha256 es).valid ≡ true
        → (verify_chain sha256 es').valid ≡ true
        → length es ≡ length es'
        → head_of none es ≡ head_of none es'
        → (contents es ≡ contents es') ⊎ Collision
    verify_chain-agree es es' pl pl' v v' n h =
        elim (chains-agree none none es es' tt tt pl pl' ((verify_chain-IsChain sha256 es).0 v)
          ((verify_chain-IsChain sha256 es').0 v') n (ap or_empty h)) [
            | inl (_, same) ↦ inl same
            | inr collision ↦ inr collision
          ]
