-- ===== src/Web/Languages.antt =====
-- web/src/lib/i18n.ts, over the texts of web/src/lib/dictionaries.ts. A key is a literal of the code,
-- none that an object inherits.
mod English
mod Spanish
pub mod Laws
use Prim.Native.Char.{Char, code}
use Prim.Native.String.{[], ◌∷◌}
use miniledger.Base.{
  ℕ, zero, suc, ◌+◌, String, Bool, true, false, ◌||◌, Option, none, some, Map, lookup, nat_eq, ◌==◌,
  if◌then◌else◌,
}
use miniledger.Base.Texts.{◌<>◌, length}
use miniledger.Web.Money.{is_word}
unfoldable pub use English.{en}
unfoldable pub use Spanish.{es}

-- `Locale`: the codes 'en' and 'es'.
pub data Locale : Type 0 where
  english spanish : Locale

abbrev pub default_locale : Locale
default_locale = english

-- `isLocale`, and the locale of the cookie `ml_lang` (`getLocale` of i18n-server.ts)
abbrev pub read_locale : String → Option Locale
read_locale s = if s == "en" then some english else (if s == "es" then some spanish else none)

abbrev or_default : Option Locale → Locale
or_default none = default_locale
or_default (some locale) = locale

unfoldable pub get_locale : Map String → Locale
get_locale cookies = elim (lookup "ml_lang" cookies) [
  | none ↦ default_locale
  | some value ↦ or_default (read_locale value)
]

unfoldable pub dictionary : Locale → Map String
dictionary english = en
dictionary spanish = es

-- What stands before the next character that is no word character, if that closes a placeholder.
abbrev name_rest : Char → Option String → Option String
name_rest c none = none
name_rest c (some name) = some (c ∷ name)

unfoldable pub placeholder_name : String → Option String
unfolding is_word
placeholder_name [] = none
placeholder_name (c ∷ s) =
    let rest = placeholder_name s in
    if nat_eq (code c) b'}' then some "" else (if is_word (code c) then name_rest c rest else none)

-- The name of a placeholder behind its `{`; `\w+` is not empty.
abbrev pub named : Option String → Option String
named none = none
named (some []) = none
named (some (c ∷ name)) = some (c ∷ name)

abbrev pub value_of : Map String → String → String
value_of vars name = elim (lookup name vars) [ some value ↦ value | none ↦ "{" <> name <> "}" ]

-- The replacement from a character on, `skip` characters later.
unfoldable pub interpolate_from : Map String → ℕ → String → String
unfolding placeholder_name
interpolate_from vars skip [] = ""
interpolate_from vars (suc skip) (c ∷ s) = interpolate_from vars skip s
interpolate_from vars zero (c ∷ s) =
    let name = if nat_eq (code c) b'{' then named (placeholder_name s) else none in
    elim name [
      | none ↦ c ∷ interpolate_from vars 0 s
      | some name ↦ value_of vars name <> interpolate_from vars (length name + 1) s
    ]

-- `interpolate`: the values are given as texts.
unfoldable pub interpolate : String → Option (Map String) → String
unfolding interpolate_from
interpolate template none = template
interpolate template (some vars) = interpolate_from vars 0 template

abbrev or_key : String → Option String → String
or_key key none = key
or_key key (some template) = template

unfoldable pub template_of : Locale → String → String
unfolding dictionary
template_of locale key = elim (lookup key (dictionary locale)) [
  | some template ↦ template
  | none ↦ or_key key (lookup key en)
]

unfoldable pub translate : Locale → String → Option (Map String) → String
unfolding template_of interpolate
translate locale key vars = interpolate (template_of locale key) vars
