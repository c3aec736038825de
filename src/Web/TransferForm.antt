-- ===== src/Web/TransferForm.antt =====
-- web/src/components/dashboard/transfer-form.tsx: what the form's fields amount to, and its submission.
-- The rendering is left out.
pub mod Laws
use Prim.Native.String
use miniledger.Base.{
  ℕ, String, Bool, true, false, not, ◌&&◌, ◌||◌, Option, none, some, List, [], ◌∷◌, find, select,
  ◌==◌, option_eq, if◌then◌else◌,
}
use miniledger.Base.Texts.{trim, truthy}
use miniledger.Web.Types.{Account, TransferReceipt}
use miniledger.Web.Money.{to_minor_units}
use miniledger.Web.Client.{ApiResult, ok, unauthorized, unavailable, error, TransferBody}

-- `State`
pub data State : Type 0 where
  idle saving : State
  posted : TransferReceipt → State
  failed : String → State

-- The form's hooks: `from`, `to`, `amount`, `idempotencyKey` and `state`.
pub record Form : Type 0 where
  pub from : String
  pub to : String
  pub amount : String
  pub idempotency_key : String
  pub state : State

abbrev pub is_saving : State → Bool
is_saving saving = true
is_saving idle = false
is_saving (posted receipt) = false
is_saving (failed message) = false

abbrev pub id_or_empty : List Account → String
id_or_empty [] = ""
id_or_empty (a ∷ accounts) = a.id

abbrev currency_or_empty : Option Account → String
currency_or_empty none = ""
currency_or_empty (some a) = a.currency

-- `some((account) => account.id === id)`
abbrev pub has_id : String → List Account → Bool
has_id id [] = false
has_id id (a ∷ rest) = (a.id == id) || has_id id rest

module _ (accounts : List Account) (form : Form) where
  -- `fromAccount?.currency ?? ''`
  unfoldable pub currency : String
  currency = currency_or_empty (find (λ a. a.id == form.from) accounts)

  unfoldable pub to_options : List Account
  unfolding currency
  to_options = select (λ a. not (a.id == form.from) && (a.currency == currency)) accounts

  unfoldable pub effective_to : String
  unfolding to_options
  effective_to = if has_id form.to to_options then form.to else id_or_empty to_options

  -- `currency ? toMinorUnits(amount, currency) : null`
  unfoldable pub minor_units : Option String
  unfolding currency
  minor_units = if currency == "" then none else to_minor_units form.amount currency

  unfoldable pub can_submit : Bool
  unfolding effective_to minor_units
  can_submit =
      not (form.from == "")
      && not (effective_to == "")
      && not (form.from == effective_to)
      && not (option_eq minor_units none)
      && not (option_eq minor_units (some "0"))
      && not (is_saving form.state)

  abbrev pub body_of : Bool → Option String → Option TransferBody
  body_of true (some amount) =
      some (record { from = form.from; to = effective_to; amount = amount; currency = currency })
  body_of true none = none
  body_of false amount = none

  -- The body that `submit` sends, if any.
  unfoldable pub submission : Option TransferBody
  unfolding can_submit
  submission = body_of can_submit minor_units

  -- `idempotencyKey.trim() || undefined`
  abbrev pub submission_key : Option String
  submission_key = truthy (some (trim form.idempotency_key))

-- The form after a submission came back; none where the page goes to the login.
unfoldable pub settle : String → Form → ApiResult TransferReceipt → Option Form
settle unavailable_text form unauthorized = none
settle unavailable_text form unavailable = some (record form { state = failed unavailable_text })
settle unavailable_text form (error message) = some (record form { state = failed message })
settle unavailable_text form (ok receipt) =
    some (record form { state = posted receipt; amount = "" })
