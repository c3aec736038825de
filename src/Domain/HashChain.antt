-- ===== src/Domain/HashChain.antt =====
-- src/ledger/domain/hash-chain.ts. The SHA-256 digest of node:crypto is a parameter.
pub mod Laws
pub mod Canonical
pub mod Tampering
use Prim.Native.String
use miniledger.Base.{
  ℕ, zero, suc, ℤ, to_string, String, Bool, true, false, not, ◌||◌, Option, none, some, List, [],
  ◌∷◌, ◌==◌, if◌then◌else◌, option_eq,
}

pub record PostingContent : Type 0 where
  pub transaction_id : String
  pub account_id : String
  pub amount : ℤ
  pub balance_after : ℤ

-- `prevHash ?? ''`
abbrev pub or_empty : Option String → String
or_empty none = ""
or_empty (some s) = s

-- `parts.join('|')`
unfoldable pub join : List String → String
join [] = ""
join (s ∷ []) = s
join (s ∷ t ∷ ts) = String.◌++◌ s (String.◌++◌ "|" (join (t ∷ ts)))

unfoldable pub canonical : Option String → PostingContent → String
canonical prev_hash content = join (
    or_empty prev_hash
    ∷ content.transaction_id
    ∷ content.account_id
    ∷ to_string content.amount
    ∷ to_string content.balance_after
    ∷ [])

pub record ChainEntry : Type 0 where
  pub prev_hash : Option String
  pub hash : String
  pub content : PostingContent

pub record ChainVerification : Type 0 where
  pub valid : Bool
  pub broken_at_index : Option ℕ

module _ (sha256 : String → String) where
  -- `hashPosting`
  unfoldable pub hash_posting : Option String → PostingContent → String
  hash_posting prev_hash content = sha256 (canonical prev_hash content)

  -- The loop of `verifyChain`, at an index.
  unfoldable pub verify_from : Option String → ℕ → List ChainEntry → ChainVerification
  verify_from prev index [] = record { valid = true; broken_at_index = none }
  verify_from prev index (entry ∷ entries) =
      let rest = verify_from (some entry.hash) (suc index) entries in
      if not (option_eq entry.prev_hash prev) || not (entry.hash == hash_posting prev entry.content)
      then record { valid = false; broken_at_index = some index }
      else rest

  -- `verifyChain`
  unfoldable pub verify_chain : List ChainEntry → ChainVerification
  verify_chain entries = verify_from none 0 entries
