-- ===== src/Persistence/Balances/Ascending.antt =====
-- What `.sort()` and `new Set(…)` do to the ids of lockForUpdate.
use miniledger.Base.{
  ◌≡◌, refl, ◌∙◌, ap, inl, inr, String, true, false, List, [], ◌∷◌, map, All, ◌||◌, ◌==◌, arith,
  Bool-cases, eq_self, eq_iff,
}
use miniledger.Domain.Ids.{AccountId}
use miniledger.Persistence.Balances.{contains, distinct_from, insert_sorted, sort, lock_order}
use miniledger.Persistence.Balances.Order.{IsBefore, IsBefore-trans, IsBefore-cases}

contains-insert_sorted :
    (a s : String) (ss : List String) → contains a (insert_sorted s ss) ≡ contains a (s ∷ ss)
unfolding contains insert_sorted
contains-insert_sorted a s [] = refl
contains-insert_sorted a s (t ∷ ts) = ground (arith, contains-insert_sorted a s ts)

contains-sort : (a : String) (ss : List String) → contains a (sort ss) ≡ contains a ss
unfolding contains sort
contains-sort a [] = refl
contains-sort a (s ∷ ss) =
    contains-insert_sorted a s (sort ss) ∙ ap (λ b. (s == a) || b) (contains-sort a ss)

contains-distinct_from :
    (a : String) (seen ss : List String)
    → contains a ss ≡ false
    → contains a (distinct_from seen ss) ≡ false
unfolding contains distinct_from
contains-distinct_from a seen [] h = h
contains-distinct_from a seen (s ∷ ss) h =
    ground (arith, contains-distinct_from a seen ss, contains-distinct_from a (s ∷ seen) ss)

pub contains-lock_order :
    (a : String) (ids : List AccountId)
    → contains a (map (λ id. id.value) ids) ≡ false
    → contains a (lock_order ids) ≡ false
unfolding lock_order
contains-lock_order a ids h = contains-sort a _ ∙ contains-distinct_from a [] _ h

module _ (P : String → Type 0) where
  insert_sorted-All : (s : String) (ss : List String) → P s → All P ss → All P (insert_sorted s ss)
  unfolding insert_sorted
  insert_sorted-All s [] p h = (p, tt)
  insert_sorted-All s (t ∷ ts) p h = ground (arith, insert_sorted-All s ts p h.1)

  pub sort-All : (ss : List String) → All P ss → All P (sort ss)
  unfolding sort
  sort-All [] h = tt
  sort-All (s ∷ ss) h = insert_sorted-All s (sort ss) h.0 (sort-All ss h.1)

-- Each text stands before all that follow it.
abbrev pub IsAscending : List String → Type 0
IsAscending [] = Unit {0}
IsAscending (s ∷ ss) = All (IsBefore s) ss × IsAscending ss

abbrev IsUnique : List String → Type 0
IsUnique [] = Unit {0}
IsUnique (s ∷ ss) = (contains s ss ≡ false) × IsUnique ss

pub IsBefore-All :
    (s t : String) (ss : List String) → IsBefore s t → All (IsBefore t) ss → All (IsBefore s) ss
IsBefore-All s t [] b h = tt
IsBefore-All s t (u ∷ us) b h = (IsBefore-trans s t u b h.0, IsBefore-All s t us b h.1)

insert_sorted-IsAscending :
    (s : String) (ss : List String)
    → contains s ss ≡ false
    → IsAscending ss
    → IsAscending (insert_sorted s ss)
unfolding insert_sorted contains
insert_sorted-IsAscending s [] new h = (tt, tt)
insert_sorted-IsAscending s (t ∷ ts) new h = elim (Bool-cases (t == s)) [
  | inl same ↦ cc (rw same at new)
  | inr differ ↦ elim (IsBefore-cases s t differ) [
    | inl (before, smaller) ↦ rw smaller ((before, IsBefore-All s t ts before h.0), h)
    | inr (after, greater) ↦ rw greater (
      insert_sorted-All (IsBefore t) s ts after h.0,
      insert_sorted-IsAscending s ts (rw differ at new) h.1,
    )
  ]
]

sort-IsAscending : (ss : List String) → IsUnique ss → IsAscending (sort ss)
unfolding sort
sort-IsAscending [] h = tt
sort-IsAscending (s ∷ ss) h =
    insert_sorted-IsAscending s (sort ss) (contains-sort s ss ∙ h.0) (sort-IsAscending ss h.1)

distinct_from_seen :
    (a : String) (seen ss : List String)
    → contains a seen ≡ true
    → contains a (distinct_from seen ss) ≡ false
unfolding contains distinct_from
distinct_from_seen a seen [] h = refl
distinct_from_seen a seen (s ∷ ss) h =
    ground (arith, distinct_from_seen a seen ss h, distinct_from_seen a (s ∷ seen) ss, eq_iff s a)

distinct_from-IsUnique : (seen ss : List String) → IsUnique (distinct_from seen ss)
unfolding contains distinct_from
distinct_from-IsUnique seen [] = tt
distinct_from-IsUnique seen (s ∷ ss) = elim (Bool-cases (contains s seen)) [
  | inl old ↦ rw old (distinct_from-IsUnique seen ss)
  | inr new ↦ rw new (
    distinct_from_seen s (s ∷ seen) ss (rw (eq_self s) refl),
    distinct_from-IsUnique (s ∷ seen) ss,
  )
]

-- The rows of an account list are locked in ascending order, none twice.
pub lock_order-IsAscending : (ids : List AccountId) → IsAscending (lock_order ids)
unfolding lock_order
lock_order-IsAscending ids = sort-IsAscending _ (distinct_from-IsUnique [] _)
