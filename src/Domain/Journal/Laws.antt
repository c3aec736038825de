-- ===== src/Domain/Journal/Laws.antt =====
-- When a journal transaction is built: JournalTransaction.create and transfer.
use miniledger.Base.{
  ℤ, pos, ◌+ℤ◌, neg_ℤ-eq_zero, int_laws, eq_ℤ→eq, String, ◌≡◌, refl, sym, ap, ◌∙◌, ◌≢◌, inl, inr,
  ◌↔◌, true, Option, List, [], ◌∷◌, map, All, Result, ok, err, Bool-cases, arith, option_eq_self,
  ok-injective, Result-cases,
}
use miniledger.Kernel.Currency
use miniledger.Kernel.Currency.{Currency}
use miniledger.Kernel.Money
use miniledger.Kernel.Money.{Money, CurrencyMismatchError}
use miniledger.Kernel.Money.Laws.{amounts, IsIn, sum-IsIn, currency-equals→eq}
use miniledger.Domain.Ids.{AccountId, TransactionId}
use miniledger.Domain.Journal.{
  Posting, posting, JournalError, empty, JournalTransaction, check_postings, balanced, create,
  transfer,
}

-- The sum of the signed amounts.
abbrev pub amount_sum : List Posting → ℤ
amount_sum [] = pos 0
amount_sum (p ∷ ps) = p.amount.amount +ℤ amount_sum ps

amounts-map : (ps : List Posting) → amounts (map (λ p. p.amount) ps) ≡ amount_sum ps
amounts-map [] = refl
amounts-map (p ∷ ps) = rw (amounts-map ps)

-- A posting of a given currency with a nonzero amount.
abbrev pub IsLeg : Option String → Posting → Type 0
IsLeg code p = (p.amount.currency.code ≡ code) × (p.amount.amount ≢ pos 0)

equals_of_code : (a b : Currency) → a.code ≡ b.code → Currency.equals a b ≡ true
unfolding Currency.equals
equals_of_code a b h = rw h (option_eq_self b.code)

is_zero_iff : (m : Money) → (Money.is_zero m ≡ true) ↔ (m.amount ≡ pos 0)
unfolding Money.is_zero
is_zero_iff m = (eq_ℤ→eq m.amount (pos 0), λ e. rw e refl)

check_postings→legs :
    (c : Currency) (ps : List Posting) → check_postings c ps ≡ ok tt → All (IsLeg c.code) ps
unfolding check_postings
check_postings→legs c [] h = tt
check_postings→legs c (p ∷ ps) h = elim (Bool-cases (Currency.equals p.amount.currency c)) [
  | inl same ↦ elim (Bool-cases (Money.is_zero p.amount)) [
    | inl null ↦ ground arith
    | inr some ↦ (
      (currency-equals→eq p.amount.currency c same, λ e. cc (some, (is_zero_iff p.amount).1 e)),
      check_postings→legs c ps (ground arith),
    )
  ]
  | inr other ↦ ground arith
]

legs→check_postings :
    (c : Currency) (ps : List Posting) → All (IsLeg c.code) ps → check_postings c ps ≡ ok tt
unfolding check_postings
legs→check_postings c [] h = refl
legs→check_postings c (p ∷ ps) ((code, nonzero), h) = ground (
  arith,
  equals_of_code p.amount.currency c code,
  is_zero_iff p.amount,
  legs→check_postings c ps h,
)

legs→IsIn :
    (c : Currency) (ps : List Posting)
    → All (IsLeg c.code) ps
    → All (IsIn c) (map (λ p. p.amount) ps)
legs→IsIn c [] h = tt
legs→IsIn c (p ∷ ps) h = (equals_of_code c p.amount.currency (sym h.0.0), legs→IsIn c ps h.1)

legs→sum :
    (c : Currency) (ps : List Posting)
    → All (IsLeg c.code) ps
    → Money.sum (map (λ p. p.amount) ps) c ≡ ok (Money.of (amount_sum ps) c)
legs→sum c ps h = sum-IsIn c _ (legs→IsIn c ps h) ∙ ap (λ a. ok (Money.of a c)) (amounts-map ps)

-- Whatever the postings, building a transaction never throws: the currencies are compared before
-- the amounts are added.
pub create_total :
    (id : TransactionId) (ps : List Posting)
    → (r : Result JournalTransaction JournalError) × (create id ps ≡ ok r)
unfolding create
create_total id [] = (err empty, refl)
create_total id (p ∷ ps) = elim (Result-cases (check_postings p.amount.currency (p ∷ ps))) [
  | inl (u, h) ↦ rw (h, legs→sum _ _ (check_postings→legs _ _ h)) (_, refl)
  | inr (e, h) ↦ (err e, rw h)
]

-- What a built transaction holds.
pub record IsBooked (id : TransactionId) (ps : List Posting) (j : JournalTransaction) : Type 0 where
  pub id_kept : j.id ≡ id
  pub postings_kept : j.postings ≡ ps
  pub nonempty : ps ≢ []
  pub legs : All (IsLeg j.currency.code) ps
  pub balanced : amount_sum ps ≡ pos 0

IsBooked-of_total :
    (id : TransactionId) (c : Currency) (ps : List Posting) {j : JournalTransaction}
    → ps ≢ []
    → All (IsLeg c.code) ps
    → balanced id c ps (Money.of (amount_sum ps) c) ≡ ok j
    → IsBooked id ps j
IsBooked-of_total id c ps {j} nonempty legs h =
    elim (Bool-cases (Money.is_zero (Money.of (amount_sum ps) c))) [
      | inl null ↦
          let same : record { id = id; currency = c; postings = ps } ≡ j = ground arith in
          rw (← same) (record {
            id_kept = refl;
            postings_kept = refl;
            nonempty = nonempty;
            legs = legs;
            balanced = (is_zero_iff _).0 null;
          })
      | inr nonzero ↦ ground arith
    ]

-- A built transaction is the given postings under the given id, and these are not empty, of one
-- currency, each of a nonzero amount, and sum to zero.
pub create-IsBooked :
    (id : TransactionId) (ps : List Posting) {j : JournalTransaction}
    → create id ps ≡ ok (ok j)
    → IsBooked id ps j
unfolding create
create-IsBooked id [] h = ground arith
create-IsBooked id (p ∷ ps) {j} h =
    elim (Result-cases (check_postings p.amount.currency (p ∷ ps))) [
      | inl (u, k) ↦
          let legs = check_postings→legs p.amount.currency (p ∷ ps) k in
          IsBooked-of_total id p.amount.currency (p ∷ ps) (λ e. cc e) legs
            (ok-injective (rw (k, legs→sum _ _ legs) at h))
      | inr (e, k) ↦ cc (k, h)
    ]

-- Conversely, such postings are always accepted, in the currency of the first.
pub create_complete :
    (id : TransactionId) (p : Posting) (ps : List Posting)
    → All (IsLeg p.amount.currency.code) (p ∷ ps)
    → amount_sum (p ∷ ps) ≡ pos 0
    → create id (p ∷ ps)
      ≡ ok (ok (record { id = id; currency = p.amount.currency; postings = p ∷ ps }))
unfolding create
create_complete id p ps h z =
    rw (legs→check_postings p.amount.currency (p ∷ ps) h, legs→sum p.amount.currency (p ∷ ps) h)
      (ground (arith, is_zero_iff (Money.of (amount_sum (p ∷ ps)) p.amount.currency)))

-- A transfer of a nonzero amount between two accounts is always built: a debit of the source and a
-- credit of the destination.
pub transfer-nonzero :
    (id : TransactionId) (from to : AccountId) (m : Money)
    → m.amount ≢ pos 0
    → transfer id from to m
      ≡ ok (
          ok (record {
            id = id;
            currency = m.currency;
            postings = posting from (Money.negate m) ∷ posting to m ∷ [];
          }))
unfolding transfer Money.negate
transfer-nonzero id from to m h =
    create_complete id _ _ ((refl, λ e. h (neg_ℤ-eq_zero m.amount e)), ((refl, h), tt))
      (omega int_laws)
