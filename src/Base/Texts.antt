-- ===== src/Base/Texts.antt =====
-- What the program does with texts: lengths, slices, padding, trimming. A text is its characters;
-- JavaScript counts UTF-16 units, which are the characters below U+10000.
use Prim.Native.Nat.{ℕ, zero, suc, ◌+◌, ◌-◌}
use Prim.Native.Char.{Char, code}
use Prim.Native.String.{String, [], ◌∷◌}
use mathlib.Core.Path.{◌≡◌, refl, ap}
use mathlib.Core.Bool.{Bool, true, not, ◌&&◌, ◌||◌}
use mathlib.Core.Option.{Option, none, some}
use native.Mathlib.Omega.{arith}
use miniledger.Base.Tests.{leb, nat_eq, if◌then◌else◌}

-- `s + t`, and the parts of a template literal.
infixr 65 ◌<>◌
abbrev pub ◌<>◌ : String → String → String
[] <> t = t
(c ∷ s) <> t = c ∷ (s <> t)

pub append-empty : (s : String) → (s <> "") ≡ s
append-empty [] = refl
append-empty (c ∷ s) = ap (λ t. c ∷ t) (append-empty s)

abbrev pub length : String → ℕ
length [] = 0
length (c ∷ s) = suc (length s)

-- `s.slice(0, n)`
abbrev pub take : ℕ → String → String
take zero s = ""
take (suc n) [] = ""
take (suc n) (c ∷ s) = c ∷ take n s

-- `s.slice(n)`
abbrev pub drop : ℕ → String → String
drop zero s = s
drop (suc n) [] = ""
drop (suc n) (c ∷ s) = drop n s

-- `'0'.repeat(n)`
abbrev pub zeros : ℕ → String
zeros zero = ""
zeros (suc n) = "0" ∷ zeros n

-- `s.padStart(n, '0')`
abbrev pub pad_start : ℕ → String → String
pad_start n s = zeros (n - length s) <> s

-- `s.padEnd(n, '0')`
abbrev pub pad_end : ℕ → String → String
pad_end n s = s <> zeros (n - length s)

-- White space and line ends, as `trim` takes them.
unfoldable pub is_space : ℕ → Bool
is_space c =
    (leb b'\t' c && leb c b'\r')
    || nat_eq c b' '
    || nat_eq c 0xA0
    || nat_eq c 0x1680
    || (leb 0x2000 c && leb c 0x200A)
    || nat_eq c 0x2028
    || nat_eq c 0x2029
    || nat_eq c 0x202F
    || nat_eq c 0x205F
    || nat_eq c 0x3000
    || nat_eq c 0xFEFF

unfoldable pub trim_start : String → String
unfolding is_space
trim_start [] = ""
trim_start (c ∷ s) = let rest = trim_start s in if is_space (code c) then rest else c ∷ s

abbrev put : Char → String → String
put c [] = if is_space (code c) then "" else c ∷ ""
put c (d ∷ s) = c ∷ d ∷ s

unfoldable pub trim_end : String → String
unfolding is_space
trim_end [] = ""
trim_end (c ∷ s) = put c (trim_end s)

-- `s.trim()`
unfoldable pub trim : String → String
unfolding trim_start trim_end
trim s = trim_end (trim_start s)

-- The part behind the last comma: `s.split(',').at(-1)`.
abbrev after_comma : Char → String → Option String → Option String
after_comma c s (some part) = some part
after_comma c s none = if nat_eq (code c) b',' then some s else none

unfoldable pub behind_comma : String → Option String
behind_comma [] = none
behind_comma (c ∷ s) = after_comma c s (behind_comma s)

unfoldable pub last_part : String → String
unfolding behind_comma
last_part s = elim (behind_comma s) [ none ↦ s | some part ↦ part ]

-- A text that JavaScript takes for false when it is missing or empty.
abbrev pub truthy : Option String → Option String
truthy none = none
truthy (some []) = none
truthy (some (c ∷ s)) = some (c ∷ s)

-- Every character passes a test.
abbrev pub AllChars : (ℕ → Bool) → String → Type 0
AllChars p [] = Unit
AllChars p (c ∷ s) = (p (code c) ≡ true) × AllChars p s

pub AllChars-append :
    (p : ℕ → Bool) (s t : String) → AllChars p s → AllChars p t → AllChars p (s <> t)
AllChars-append p [] t hs ht = ht
AllChars-append p (c ∷ s) t hs ht = (hs.0, AllChars-append p s t hs.1 ht)

pub take-drop : (n : ℕ) (s : String) → take n s <> drop n s ≡ s
take-drop zero s = refl
take-drop (suc n) [] = refl
take-drop (suc n) (c ∷ s) = ap (λ t. c ∷ t) (take-drop n s)

pub length-append : (s t : String) → length (s <> t) ≡ length s + length t
length-append [] t = omega arith
length-append (c ∷ s) t = omega (arith, length-append s t)

pub length-zeros : (n : ℕ) → length (zeros n) ≡ n
length-zeros zero = refl
length-zeros (suc n) = omega (arith, length-zeros n)

pub length-drop : (n : ℕ) (s : String) → length (drop n s) ≡ length s - n
length-drop zero s = omega arith
length-drop (suc n) [] = omega arith
length-drop (suc n) (c ∷ s) = omega (arith, length-drop n s)

abbrev pub visible : ℕ → Bool
visible c = not (is_space c)

trim_start_lem : (s : String) → AllChars visible s → trim_start s ≡ s
unfolding trim_start
trim_start_lem [] h = refl
trim_start_lem (c ∷ s) h = ground arith

put_lem : (c : Char) (s : String) → visible (code c) ≡ true → put c s ≡ (c ∷ s)
put_lem c [] h = ground arith
put_lem c (d ∷ s) h = refl

trim_end_lem : (s : String) → AllChars visible s → trim_end s ≡ s
unfolding trim_end
trim_end_lem [] h = refl
trim_end_lem (c ∷ s) h = rw (trim_end_lem s h.1) (put_lem c s h.0)

-- A text without white space is left as it is.
pub trim_lem : (s : String) → AllChars visible s → trim s ≡ s
unfolding trim
trim_lem s h = rw (trim_start_lem s h) (trim_end_lem s h)
