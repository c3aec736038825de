-- ===== src/Base/Json.antt =====
-- The values that are read and written as JSON. A number is a whole one: the code reads
-- statuses, cursors and seconds.
use miniledger.Base.Tests.{if◌then◌else◌, eq_self}
use mathlib.Core.Path.{◌≡◌}
use native.Mathlib.Omega.{arith}
use package.text.Mathlib.TextEquality.{eq_iff}
use miniledger.Base.Int.{ℤ}
use mathlib.Core.Bool.{Bool, false}
use mathlib.Core.Option.{Option, none, some}
use package.text.Mathlib.Text.{◌==◌}
use Prim.Native.String.{String}

mutual
  pub data Value : Type 0 where
    null : Value
    boolean : Bool → Value
    number : ℤ → Value
    text : String → Value
    array : Items → Value
    object : Fields → Value

  pub data Items : Type 0 where
    nil : Items
    cons : Value → Items → Items

  pub data Fields : Type 0 where
    end : Fields
    field : String → Value → Fields → Fields

unfoldable pub get : String → Fields → Option Value
get k end = none
get k (field j v fields) = if j == k then some v else get k fields

-- `value[k]` of a value that is not null. The keys that the code reads are no methods of texts,
-- numbers or arrays.
abbrev pub read : String → Value → Option Value
read k (object fields) = get k fields
read k null = none
read k (boolean b) = none
read k (number n) = none
read k (text s) = none
read k (array items) = none

-- `typeof value === 'string' ? value : undefined`
abbrev pub as_text : Option Value → Option String
as_text (some (text s)) = some s
as_text none = none
as_text (some null) = none
as_text (some (boolean b)) = none
as_text (some (number n)) = none
as_text (some (array items)) = none
as_text (some (object fields)) = none

-- `typeof value === 'number' ? value : undefined`
abbrev pub as_number : Option Value → Option ℤ
as_number (some (number n)) = some n
as_number none = none
as_number (some null) = none
as_number (some (boolean b)) = none
as_number (some (text s)) = none
as_number (some (array items)) = none
as_number (some (object fields)) = none

-- `{ [k]: v }`
abbrev pub singleton : String → Value → Value
singleton k v = object (field k v end)

-- `{ ...fields, [k]: v }`: a present key keeps its place.
unfoldable pub set : String → Value → Fields → Fields
set k v end = field k v end
set k v (field j w fields) = if j == k then field j v fields else field j w (set k v fields)

pub get-set_self : (k : String) (v : Value) (fields : Fields) → get k (set k v fields) ≡ some v
unfolding get set
get-set_self k v end = ground (arith, eq_self k)
get-set_self k v (field j w fields) = ground (arith, get-set_self k v fields)

pub get-set_other :
    (k j : String) (v : Value) (fields : Fields)
    → (k == j) ≡ false
    → get j (set k v fields) ≡ get j fields
unfolding get set
get-set_other k j v end h = ground arith
get-set_other k j v (field i w fields) h =
    ground (arith, eq_iff k j, eq_iff i k, eq_iff i j, get-set_other k j v fields)
