-- ===== src/Persistence/Platform.antt =====
-- What the program calls and does not implement: the SHA-256 digest of node:crypto, in hexadecimal,
-- and PostgreSQL's reading of a `uuid` value. PostgreSQL accepts several spellings of one UUID (upper
-- case, for example) and gives it back in one: `uuid s` is that spelling, or `none` if `s` is no UUID.
-- `error_fields` are the `code` and `constraint` that a caught error of the database driver shows.
use miniledger.Base.{String, ◌≡◌, Option, some}
use miniledger.Persistence.Failure.{DatabaseError, database_error, invalid_text}
use miniledger.Persistence.Action.{Action, unless_missing}

pub record Platform : Type 0 where
  pub sha256 : String → String
  pub uuid : String → Option String
  pub error_fields : DatabaseError → Option (String × String)

-- A UUID that PostgreSQL has given back is read as itself.
abbrev pub StableUuids : Platform → Type 0
StableUuids platform = (s t : String) → platform.uuid s ≡ some t → platform.uuid t ≡ some t

-- A text in the spelling that PostgreSQL gives back.
abbrev pub IsCanonical : Platform → String → Type 0
IsCanonical platform s = platform.uuid s ≡ some s

module _ (platform : Platform) where
  -- A parameter of a statement, where the column is a `uuid`.
  abbrev pub parse_uuid : String → Action String
  parse_uuid s = unless_missing (platform.uuid s) (database_error invalid_text)
