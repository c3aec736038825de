-- ===== src/Persistence/Balances/Order.antt =====
-- The order in which lockForUpdate takes its rows: `.sort()` of distinct texts.
use Prim.Native.Nat.{ℕ, Ordering, compare as compare_ℕ}
use Prim.Native.Char.{code}
use Prim.Native.String.compare
use Prim.Native.String.{String, [], ◌∷◌, compare, then}
use text.Mathlib.Text.{is_le}
use text.Mathlib.TextEquality.{path_by_compare}
use miniledger.Base.{◌≡◌, refl, sym, ◌∙◌, ◌⊎◌, inl, inr, true, false, ◌==◌, eq_self, arith}
use text.Mathlib.TextPositions.{compare_refl}

abbrev pub IsBefore : String → String → Type 0
IsBefore s t = compare s t ≡ Ordering.lt

before_code :
    (a b c : ℕ)
    → compare_ℕ a b ≡ Ordering.lt
    → compare_ℕ b c ≡ Ordering.lt
    → compare_ℕ a c ≡ Ordering.lt
before_code a b c h k = ground arith

after_code : (a b : ℕ) → compare_ℕ a b ≡ Ordering.gt → compare_ℕ b a ≡ Ordering.lt
after_code a b h = ground arith

same_code : (a b : ℕ) → compare_ℕ a b ≡ Ordering.eq → a ≡ b
same_code a b h = ground arith

then-cases :
    (o r : Ordering)
    → then o r ≡ Ordering.lt
    → (o ≡ Ordering.lt) ⊎ ((o ≡ Ordering.eq) × (r ≡ Ordering.lt))
then-cases Ordering.lt r h = inl refl
then-cases Ordering.eq r h = inr (refl, h)
then-cases Ordering.gt r h = cc h

then-gt :
    (o r : Ordering)
    → then o r ≡ Ordering.gt
    → (o ≡ Ordering.gt) ⊎ ((o ≡ Ordering.eq) × (r ≡ Ordering.gt))
then-gt Ordering.lt r h = cc h
then-gt Ordering.eq r h = inr (refl, h)
then-gt Ordering.gt r h = inl refl

equal_code : (a b : ℕ) → compare_ℕ a b ≡ Ordering.eq → compare_ℕ b a ≡ Ordering.eq
equal_code a b h = ground arith

pub IsBefore-trans : (s t u : String) → IsBefore s t → IsBefore t u → IsBefore s u
IsBefore-trans [] [] u h k = k
IsBefore-trans [] (d ∷ t) [] h k = cc (sym (compare.cons-nil d t) ∙ k)
IsBefore-trans [] (d ∷ t) (e ∷ u) h k = compare.nil-cons e u
IsBefore-trans (c ∷ s) [] u h k = cc (sym (compare.cons-nil c s) ∙ h)
IsBefore-trans (c ∷ s) (d ∷ t) [] h k = cc (sym (compare.cons-nil d t) ∙ k)
IsBefore-trans (c ∷ s) (d ∷ t) (e ∷ u) h k =
    compare.cons-cons c e s u
    ∙ elim (then-cases (compare_ℕ (code c) (code d)) (compare s t)
        (sym (compare.cons-cons c d s t) ∙ h)) [
          | inl c_d ↦
              elim (then-cases (compare_ℕ (code d) (code e)) (compare t u)
                (sym (compare.cons-cons d e t u) ∙ k)) [
                  | inl d_e ↦ rw (before_code (code c) (code d) (code e) c_d d_e) refl
                  | inr (d_e, t_u) ↦ rw (← same_code (code d) (code e) d_e, c_d) refl
                ]
          | inr (c_d, s_t) ↦
              rw (same_code (code c) (code d) c_d)
                (elim (then-cases (compare_ℕ (code d) (code e)) (compare t u)
                  (sym (compare.cons-cons d e t u) ∙ k)) [
                    | inl d_e ↦ rw d_e refl
                    | inr (d_e, t_u) ↦ rw d_e (IsBefore-trans s t u s_t t_u)
                  ])
        ]

pub IsBefore-flip : (s t : String) → compare s t ≡ Ordering.gt → IsBefore t s
IsBefore-flip [] [] h = cc (sym compare.nil-nil ∙ h)
IsBefore-flip [] (d ∷ t) h = cc (sym (compare.nil-cons d t) ∙ h)
IsBefore-flip (c ∷ s) [] h = compare.nil-cons c s
IsBefore-flip (c ∷ s) (d ∷ t) h =
    compare.cons-cons d c t s
    ∙ elim (then-gt (compare_ℕ (code c) (code d)) (compare s t)
        (sym (compare.cons-cons c d s t) ∙ h)) [
          | inl c_d ↦ rw (after_code (code c) (code d) c_d) refl
          | inr (c_d, s_t) ↦ rw (equal_code (code c) (code d) c_d) (IsBefore-flip s t s_t)
        ]

pub IsBefore-irrefl : (s : String) → IsBefore s s → ⊥
IsBefore-irrefl s h = cc (sym (compare_refl s) ∙ h)

is_le-cases :
    (o : Ordering)
    → ((o ≡ Ordering.lt) × (is_le o ≡ true))
      ⊎ ((o ≡ Ordering.eq) ⊎ ((o ≡ Ordering.gt) × (is_le o ≡ false)))
is_le-cases Ordering.lt = inl (refl, refl)
is_le-cases Ordering.eq = inr (inl refl)
is_le-cases Ordering.gt = inr (inr (refl, refl))

-- Two texts that differ stand in one order or the other.
pub IsBefore-cases :
    (s t : String)
    → (t == s) ≡ false
    → (IsBefore s t × (is_le (compare s t) ≡ true)) ⊎ (IsBefore t s × (is_le (compare s t) ≡ false))
IsBefore-cases s t differ = elim (is_le-cases (compare s t)) [
  | inl before ↦ inl before
  | inr (inr (after, greater)) ↦ inr (IsBefore-flip s t after, greater)
  | inr (inl same) ↦
      let equal : (t == s) ≡ true = rw (path_by_compare s t same) (eq_self t) in cc (differ, equal)
]
