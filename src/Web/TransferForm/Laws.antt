-- ===== src/Web/TransferForm/Laws.antt =====
-- A submission of the transfer form, and the checks of src/ledger/application/transfer.service.ts.
use miniledger.Base.{
  ◌⊎◌, ℕ, ◌<◌, pos, ◌≡◌, ◌≢◌, refl, inl, inr, String, Bool, true, false, not, ◌&&◌, Option, some,
  List, [], ◌∷◌, select, find, ◌==◌, eq_iff, eq_self, option_eq, Bool-cases, Option-cases,
  is_numeral, read_nat, ok, arith, some-eq-some, subst,
}
use miniledger.Kernel.Currency
use miniledger.Kernel.Currency.{Currency}
use miniledger.Application.Transfers.{parse_amount}
use miniledger.Application.Transfers.Cases.{IsAccepted}
use miniledger.Interface.Transfers.{TransferDto, transfer_input}
use miniledger.Base.Texts.{trim}
use miniledger.Web.Types.{Account}
use miniledger.Web.Money.{scale_of, split_dot, to_minor_units}
use miniledger.Web.Money.Positive.{minor_of-pos}
use miniledger.Web.Client.{TransferBody}
use miniledger.Web.TransferForm.{
  Form, id_or_empty, currency, to_options, has_id, effective_to, minor_units, can_submit,
  submission,
}

to_minor_units-pos :
    (input code : String) {m : String}
    → to_minor_units input code ≡ some m
    → m ≢ "0"
    → (is_numeral m ≡ true) × (0 < read_nat m)
unfolding to_minor_units
to_minor_units-pos input code h nonzero =
    minor_of-pos (scale_of code) (split_dot (trim input)) h nonzero

-- An account of the list that has the id and passes the test.
abbrev Holds : (Account → Bool) → String → List Account → Type 0
Holds p id [] = ⊥
Holds p id (a ∷ accounts) = ((a.id ≡ id) × (p a ≡ true)) ⊎ Holds p id accounts

has_id-select :
    (p : Account → Bool) (id : String) (accounts : List Account)
    → has_id id (select p accounts) ≡ true
    → Holds p id accounts
has_id-select p id [] h = cc h
has_id-select p id (a ∷ accounts) h = elim (Bool-cases (p a)) [
  | inr fails ↦ inr (has_id-select p id accounts (rw fails at h))
  | inl passes ↦ elim (Bool-cases (a.id == id)) [
    | inl same ↦ inl ((eq_iff a.id id).0 same, passes)
    | inr other ↦ inr (has_id-select p id accounts (rw (passes, other) at h))
  ]
]

Holds-weaken :
    (p q : Account → Bool) (id : String) (accounts : List Account)
    → ((a : Account) → p a ≡ true → q a ≡ true)
    → Holds p id accounts
    → Holds q id accounts
Holds-weaken p q id [] w h = h
Holds-weaken p q id (a ∷ accounts) w (inl (same, passes)) = inl (same, w a passes)
Holds-weaken p q id (a ∷ accounts) w (inr h) = inr (Holds-weaken p q id accounts w h)

has_id-id_or_empty :
    (options : List Account)
    → (id_or_empty options == "") ≡ false
    → has_id (id_or_empty options) options ≡ true
has_id-id_or_empty [] h = cc h
has_id-id_or_empty (a ∷ options) h = rw eq_self refl

-- What a form that is submitted asks for.
pub record IsSubmission (accounts : List Account) (body : TransferBody) : Type 0 where
  pub distinct : (body.from == body.to) ≡ false
  pub source :
      (a : Account) × (find (λ a. a.id == body.from) accounts ≡ some a)
      × (a.currency ≡ body.currency)
  pub target : Holds (λ a. a.currency == body.currency) body.to accounts
  pub positive : (n : ℕ) × (0 < n) × (parse_amount body.amount ≡ some (pos n))

abbrev dto_of : TransferBody → TransferDto
dto_of body = record {
  from = body.from;
  to = body.to;
  amount = body.amount;
  currency = body.currency;
}

-- A body that the transfer service accepts from a caller, between two of the accounts offered that are
-- in its currency.
abbrev pub Submitted : List Account → TransferBody → Currency → String → Option String → Type 0
Submitted accounts body c subject key =
    ((n : ℕ) × IsAccepted (transfer_input (dto_of body) subject key) c (pos n))
    × ((a : Account) × (find (λ a. a.id == body.from) accounts ≡ some a)
        × (a.currency ≡ body.currency))
    × Holds (λ a. a.currency == body.currency) body.to accounts

module _ (accounts : List Account) (form : Form) where
  can_submit-checks :
      can_submit accounts form ≡ true
      → ((effective_to accounts form == "") ≡ false)
        × ((form.from == effective_to accounts form) ≡ false)
        × (option_eq (minor_units accounts form) (some "0") ≡ false)
  unfolding can_submit
  can_submit-checks h = ground arith

  effective_to-offered :
      (effective_to accounts form == "") ≡ false
      → has_id (effective_to accounts form) (to_options accounts form) ≡ true
  unfolding effective_to
  effective_to-offered h = elim (Bool-cases (has_id form.to (to_options accounts form))) [
    | inl held ↦ rw held held
    | inr missing ↦ rw missing (has_id-id_or_empty (to_options accounts form) (rw missing at h))
  ]

  effective_to-Holds :
      (effective_to accounts form == "") ≡ false
      → Holds (λ a. a.currency == currency accounts form) (effective_to accounts form) accounts
  unfolding to_options
  effective_to-Holds h =
      Holds-weaken (λ a. not (a.id == form.from) && (a.currency == currency accounts form))
        (λ a. a.currency == currency accounts form) (effective_to accounts form) accounts
        (λ a passes. ground arith)
        (has_id-select (λ a. not (a.id == form.from) && (a.currency == currency accounts form))
          (effective_to accounts form) accounts (effective_to-offered h))

  currency-source :
      (currency accounts form == "") ≡ false
      → (a : Account) × (find (λ a. a.id == form.from) accounts ≡ some a)
        × (a.currency ≡ currency accounts form)
  unfolding currency
  currency-source h = elim (Option-cases (find (λ a. a.id == form.from) accounts)) [
    | inl missing ↦ cc (rw missing at h)
    | inr (a, found) ↦ (a, found, rw found refl)
  ]

  minor_units-pos :
      {m : String}
      → minor_units accounts form ≡ some m
      → option_eq (minor_units accounts form) (some "0") ≡ false
      → ((currency accounts form == "") ≡ false)
        × ((n : ℕ) × (0 < n) × (parse_amount m ≡ some (pos n)))
  unfolding minor_units parse_amount
  minor_units-pos {m} h nonzero = elim (Bool-cases (currency accounts form == "")) [
    | inl empty ↦ cc (rw empty at h)
    | inr known ↦
        let (numeral, positive) =
          to_minor_units-pos form.amount (currency accounts form) {m = m} (rw known at h)
            (λ e. cc (rw (h, e) at nonzero)) in
        (known, (read_nat m, positive, rw numeral refl))
  ]

  submission-IsSubmission :
      {body : TransferBody} → submission accounts form ≡ some body → IsSubmission accounts body
  unfolding submission
  submission-IsSubmission {body} h = elim (Bool-cases (can_submit accounts form)) [
    | inr refused ↦ cc (rw refused at h)
    | inl allowed ↦
        let (to_given, distinct, nonzero) = can_submit-checks allowed in
        elim (Option-cases (minor_units accounts form)) [
          | inl missing ↦ cc (rw (allowed, missing) at h)
          | inr (amount, read) ↦
              let (known, positive) = minor_units-pos read nonzero in
              subst (IsSubmission accounts) (some-eq-some (rw (allowed, read) at h)) (record {
                distinct = distinct;
                source = currency-source known;
                target = effective_to-Holds to_given;
                positive = positive;
              })
        ]
  ]

  -- What the form submits, in a currency that the ledger knows, passes the checks of the transfer
  -- service: a positive amount and two different accounts. They are two of the accounts offered, and
  -- both are in the currency of the transfer.
  pub submission-IsAccepted :
      {body : TransferBody} {c : Currency} (subject : String) (key : Option String)
      → submission accounts form ≡ some body
      → Currency.of body.currency ≡ ok c
      → Submitted accounts body c subject key
  submission-IsAccepted {body} {c} subject key h known =
      let s = submission-IsSubmission {body = body} h in
      let (n, positive, read) = s.positive in
      (
        (
          n,
          record {
            currency_eq = known;
            amount_eq = read;
            positive = omega arith;
            distinct = s.distinct;
          },
        ),
        s.source,
        s.target,
      )
