-- ===== src/Kernel/Currency.antt =====
-- src/shared/kernel/currency.ts. `undefined` is `none`.
use miniledger.Base.{
  ℕ, String, Bool, false, ◌||◌, Option, none, some, List, [], ◌∷◌, map, Result, ok, err, Map,
  lookup, ◌==◌, if◌then◌else◌, option_eq,
}

pub data CurrencyError : Type 0 where
  unknown_currency : CurrencyError

pub record CurrencyDefinition : Type 0 where
  pub code : Option String
  pub minor_unit_scale : Option ℕ

-- The object literal `SUPPORTED`: its own properties.
abbrev pub supported : Map CurrencyDefinition
supported =
    ("USD", record { code = some "USD"; minor_unit_scale = some 2 })
    ∷ ("EUR", record { code = some "EUR"; minor_unit_scale = some 2 })
    ∷ ("JPY", record { code = some "JPY"; minor_unit_scale = some 0 })
    ∷ []

-- The properties that every JavaScript object literal inherits from `Object.prototype`.
abbrev pub inherited : List String
inherited =
    "constructor" ∷ "__defineGetter__" ∷ "__defineSetter__" ∷ "hasOwnProperty" ∷ "__lookupGetter__"
    ∷ "__lookupSetter__" ∷ "isPrototypeOf" ∷ "propertyIsEnumerable" ∷ "toString" ∷ "valueOf"
    ∷ "__proto__" ∷ "toLocaleString" ∷ []

unfoldable pub is_listed : String → List String → Bool
is_listed s [] = false
is_listed s (t ∷ ts) = (t == s) || is_listed s ts

-- An inherited property is a function or an object, which has neither of the two fields.
abbrev pub inherited_definition : CurrencyDefinition
inherited_definition = record { code = none; minor_unit_scale = none }

-- `SUPPORTED[code]`
unfoldable pub definition_of : String → Option CurrencyDefinition
definition_of code = elim (lookup code supported) [
  | some d ↦ some d
  | none ↦ if is_listed code inherited then some inherited_definition else none
]

pub record Currency : Type 0 where
  pub code : Option String
  pub minor_unit_scale : Option ℕ

abbrev from_definition : Option CurrencyDefinition → Result Currency CurrencyError
from_definition none = err unknown_currency
from_definition (some d) = ok (record { code = d.code; minor_unit_scale = d.minor_unit_scale })

-- `Currency.of`
unfoldable pub of : String → Result Currency CurrencyError
of code = from_definition (definition_of code)

-- `Currency.codes`
unfoldable pub codes : List String
codes = map (λ e. e.0) supported

unfoldable pub equals : Currency → Currency → Bool
equals a b = option_eq a.code b.code
