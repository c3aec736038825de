-- ===== src/Web/Identity.antt =====
-- web/src/lib/identity.ts: what the dashboard shows of a token, which it does not verify.
use Prim.Native.Char.{Char, code}
use Prim.Native.String.{[], ◌∷◌}
use miniledger.Base.{ℤ, String, Option, none, some, nat_eq, if◌then◌else◌}
use miniledger.Base.Texts.{truthy}
use miniledger.Base.Json.{Value, null, object, end, read, as_text, as_number}
use miniledger.Web.Runtime.{Runtime}

pub record Identity : Type 0 where
  pub email : Option String
  pub subject : String
  pub org : Option String
  pub aal : Option ℤ

-- `token.split('.')[1]`, of a text behind its first dot: up to the next.
abbrev pub until_dot : String → String
until_dot [] = ""
until_dot (c ∷ s) = let rest = until_dot s in if nat_eq (code c) b'.' then "" else c ∷ rest

abbrev pub second_part : String → Option String
second_part [] = none
second_part (c ∷ s) =
    let rest = second_part s in if nat_eq (code c) b'.' then some (until_dot s) else rest

abbrev pub base64_char : Char → Char
base64_char c = if nat_eq (code c) b'-' then "+" else (if nat_eq (code c) b'_' then "/" else c)

-- `.replace(/-/g, '+').replace(/_/g, '/')`
unfoldable pub base64 : String → String
base64 [] = ""
base64 (c ∷ s) = base64_char c ∷ base64 s

module _ (runtime : Runtime) where
  abbrev object_or_empty : Option Value → Value
  object_or_empty (some (object fields)) = object fields
  object_or_empty (some (Value.array items)) = Value.array items
  object_or_empty none = object end
  object_or_empty (some null) = object end
  object_or_empty (some (Value.boolean b)) = object end
  object_or_empty (some (Value.number n)) = object end
  object_or_empty (some (Value.text s)) = object end

  abbrev claims_of : Option String → Value
  claims_of none = object end
  claims_of (some part) = object_or_empty (runtime.parse (runtime.decode_base64 (base64 part)))

  -- `decodeClaims`
  unfoldable pub decode_claims : String → Value
  unfolding base64
  decode_claims token = claims_of (truthy (second_part token))

  abbrev or_unknown : Option String → String
  or_unknown none = "unknown"
  or_unknown (some subject) = subject

  unfoldable pub decode_identity : String → Option String → Identity
  unfolding decode_claims
  decode_identity token email =
      let claims = decode_claims token in
      record {
        email = email;
        subject = or_unknown (as_text (read "sub" claims));
        org = as_text (read "org" claims);
        aal = as_number (read "aal" claims);
      }
