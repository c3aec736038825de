-- ===== src/Tests/Domain.antt =====
-- The theorems on the domain and the persistence operations, at concrete inputs.
use miniledger.Base.{
  ◌⊎◌, ℤ, pos, negsuc, ◌≡◌, refl, ◌↔◌, String, true, Option, none, some, List, [], ◌∷◌, Result, ok,
  lookup,
}
use miniledger.Kernel.Currency.{Currency}
use miniledger.Kernel.Money
use miniledger.Kernel.Money.Laws.{amounts, sum-IsIn}
use miniledger.Domain.Ids.{account_id, transaction_id}
use miniledger.Domain.Journal
use miniledger.Domain.Journal.{Posting, posting, JournalTransaction, JournalError}
use miniledger.Domain.Journal.Laws.{IsBooked, create_total, create-IsBooked, create_complete}
use miniledger.Domain.BalanceFold.{
  balance_or_zero, fold_by_account, posted_to, fold_by_account-posted_to,
}
use miniledger.Domain.HashChain.{ChainEntry, verify_chain}
use miniledger.Domain.HashChain.Laws.{IsChain, verify_chain-IsChain, verify_chain-break}
use miniledger.Domain.HashChain.Tampering.{contents, Collision, verify_chain-agree}
use miniledger.Tests.{code}

abbrev usd : Currency
usd = record { code = some "USD"; minor_unit_scale = some 2 }

abbrev legs : List Posting
legs =
    posting (account_id "a") (Money.of (negsuc 6) usd)
    ∷ posting (account_id "b") (Money.of (pos 7) usd)
    ∷ []

abbrev booked : JournalTransaction
booked = record { id = transaction_id "t"; currency = usd; postings = legs }

sum-IsIn_example :
    Money.sum (Money.of (pos 3) usd ∷ Money.of (negsuc 4) usd ∷ []) usd
    ≡ ok (Money.of (amounts (Money.of (pos 3) usd ∷ Money.of (negsuc 4) usd ∷ [])) usd)
unfolding code
sum-IsIn_example =
    sum-IsIn usd (Money.of (pos 3) usd ∷ Money.of (negsuc 4) usd ∷ []) (refl, (refl, tt))

create_total_example :
    (r : Result JournalTransaction JournalError) × (Journal.create (transaction_id "t") legs ≡ ok r)
create_total_example = create_total (transaction_id "t") legs

create-IsBooked_example : IsBooked (transaction_id "t") legs booked
unfolding code
create-IsBooked_example = create-IsBooked (transaction_id "t") legs {j = booked} refl

create_complete_example : Journal.create (transaction_id "t") legs ≡ ok (ok booked)
unfolding code
create_complete_example =
    create_complete (transaction_id "t") (posting (account_id "a") (Money.of (negsuc 6) usd))
      (posting (account_id "b") (Money.of (pos 7) usd) ∷ [])
      ((refl, λ e. cc e), ((refl, λ e. cc e), tt)) refl

fold_by_account-posted_to_example :
    balance_or_zero (lookup "a" (fold_by_account legs)) ≡ posted_to "a" legs
fold_by_account-posted_to_example = fold_by_account-posted_to "a" legs

abbrev entry : Option String → String → ℤ → ChainEntry
entry prev hash amount = record {
  prev_hash = prev;
  hash = hash;
  content = record {
    transaction_id = "t";
    account_id = "a";
    amount = amount;
    balance_after = pos 5;
  };
}

-- The second entry does not carry the hash of its content.
abbrev tampered : List ChainEntry
tampered = entry none "|t|a|5|5" (pos 5) ∷ entry (some "|t|a|5|5") "forged" (pos 0) ∷ []

verify_chain-IsChain_example :
    ((verify_chain (λ s. s) tampered).valid ≡ true) ↔ IsChain (λ s. s) none tampered
verify_chain-IsChain_example = verify_chain-IsChain (λ s. s) tampered

verify_chain-break_example :
    IsChain (λ s. s) none (entry none "|t|a|5|5" (pos 5) ∷ [])
    × (IsChain (λ s. s) none tampered → ⊥)
unfolding code
verify_chain-break_example = verify_chain-break (λ s. s) tampered {j = 1} refl

-- One posting, with another amount in a second list: under a digest that is the same for all texts.
abbrev constant : String → String
constant s = "00"

abbrev kept : List ChainEntry
kept = entry none "00" (pos 5) ∷ []

abbrev changed : List ChainEntry
changed = entry none "00" (pos 9) ∷ []

verify_chain-agree_example : (contents kept ≡ contents changed) ⊎ Collision constant
unfolding code
verify_chain-agree_example =
    verify_chain-agree constant (λ s. (refl, (refl, tt))) kept changed
      (((refl, tt), (refl, tt)), tt) (((refl, tt), (refl, tt)), tt) refl refl refl refl
