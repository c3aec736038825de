-- ===== src/Web/Languages/Laws.antt =====
-- web/src/lib/dictionaries.ts: the two languages have the same texts.
use Prim.Native.Char.{code}
use mathlib.Core.Path.{ap₂}
use miniledger.Base.{
  ◌≡◌, refl, ap, String, Bool, true, false, ◌&&◌, Option, none, some, List, [], ◌∷◌, Map, lookup,
  every, ◌==◌, eq_iff, Bool-cases, Option-cases, some-eq-some, subst, inl, inr, nat_eq,
  if◌then◌else◌, arith,
}
use miniledger.Web.Languages.{
  Locale, english, spanish, dictionary, en, es, placeholder_name, named, template_of, interpolate,
  translate,
}

-- The names of a text's placeholders, in order.
pub placeholders : String → List String
placeholders String.[] = []
placeholders (String.◌∷◌ c s) =
    let rest = placeholders s in
    elim (if nat_eq (code c) b'{' then named (placeholder_name s) else none) [
      | none ↦ rest
      | some name ↦ name ∷ rest
    ]

names_eq : List String → List String → Bool
names_eq [] [] = true
names_eq [] (t ∷ ts) = false
names_eq (s ∷ ss) [] = false
names_eq (s ∷ ss) (t ∷ ts) = (s == t) && names_eq ss ts

names_eq→eq : (ss ts : List String) → names_eq ss ts ≡ true → ss ≡ ts
unfolding names_eq
names_eq→eq [] [] h = refl
names_eq→eq [] (t ∷ ts) h = cc h
names_eq→eq (s ∷ ss) [] h = cc h
names_eq→eq (s ∷ ss) (t ∷ ts) h =
    ap₂ (λ (a : String) b. a ∷ b) ((eq_iff s t).0 (ground arith)) (names_eq→eq ss ts (ground arith))

-- An entry has one in another dictionary, with the same placeholders.
has_like : Map String → String × String → Bool
has_like m (key, text) = elim (lookup key m) [
  | none ↦ false
  | some other ↦ names_eq (placeholders text) (placeholders other)
]

abbrev IsLike : Map String → String → String → Type 0
IsLike m key text =
    (other : String) × (lookup key m ≡ some other) × (placeholders text ≡ placeholders other)

has_like→IsLike :
    (m : Map String) (key text : String) → has_like m (key, text) ≡ true → IsLike m key text
unfolding has_like
has_like→IsLike m key text h = elim (Option-cases (lookup key m)) [
  | inl missing ↦ cc (rw (missing, has_like) at h)
  | inr (other, found) ↦ (
    other,
    found,
    names_eq→eq (placeholders text) (placeholders other) (rw (found, has_like) at h),
  )
]

every-IsLike :
    (m n : Map String) (key : String) {text : String}
    → every (has_like m) n ≡ true
    → lookup key n ≡ some text
    → IsLike m key text
every-IsLike m [] key h found = cc found
every-IsLike m ((k, v) ∷ n) key {text} h found = elim (Bool-cases (k == key)) [
  | inl same ↦
      subst (IsLike m key) (some-eq-some (rw same at found))
        (subst (λ j. IsLike m j v) ((eq_iff k key).0 same) (has_like→IsLike m k v (ground arith)))
  | inr other ↦ every-IsLike m n key {text = text} (ground arith) (rw other at found)
]

english-spanish : every (has_like es) en ≡ true
unfolding en es has_like names_eq placeholders placeholder_name
english-spanish = refl

english-english : every (has_like en) en ≡ true
unfolding en es has_like names_eq placeholders placeholder_name
english-english = refl

spanish-spanish : every (has_like es) es ≡ true
unfolding en es has_like names_eq placeholders placeholder_name
spanish-spanish = refl

spanish-english : every (has_like en) es ≡ true
unfolding en es has_like names_eq placeholders placeholder_name
spanish-english = refl

like-every :
    (locale other : Locale) → every (has_like (dictionary other)) (dictionary locale) ≡ true
unfolding dictionary
like-every english english = english-english
like-every english spanish = english-spanish
like-every spanish english = spanish-english
like-every spanish spanish = spanish-spanish

-- A key that has a text in one language has one in the other, with the same placeholders in the same
-- order, and it is that text that is shown: neither the English one nor the key itself.
pub translate-IsLike :
    (locale other : Locale) (key : String) (vars : Option (Map String)) {text : String}
    → lookup key (dictionary locale) ≡ some text
    → (shown : String) × (lookup key (dictionary other) ≡ some shown)
      × (placeholders text ≡ placeholders shown)
      × (translate other key vars ≡ interpolate shown vars)
unfolding translate
translate-IsLike locale other key vars {text} found =
    let (shown, there, alike) =
      every-IsLike (dictionary other) (dictionary locale) key {text = text}
        (like-every locale other) found in
    (shown, there, alike, ap (λ t. interpolate t vars) (rw (there, template_of) refl))
