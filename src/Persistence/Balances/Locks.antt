-- ===== src/Persistence/Balances/Locks.antt =====
-- lockForUpdate: the map of the locked rows, and its keys.
use miniledger.Base.{
  ◌≡◌, refl, sym, ◌∙◌, inl, inr, String, false, none, some, List, [], ◌∷◌, map, All, Map, lookup,
  insert, lookup-insert, lookup-insert_ne, ok-injective, IsDistinct, insert-IsDistinct, ok, ◌==◌,
  eq_iff, arith, Bool-cases, Option-cases, Result-cases, subst,
}
use miniledger.Domain.Ids.{AccountId}
use miniledger.Persistence.Store.{Db, LockedBalance}
use miniledger.Persistence.Platform.{Platform, IsCanonical}
use miniledger.Persistence.Balances.Ascending.{contains-lock_order, sort-All}
use miniledger.Persistence.Balances.{contains, distinct_from, lock_order, lock_row, lock_from}

module _ (platform : Platform) where
  abbrev pub HasCanonicalKeys : Map LockedBalance → Type 0
  HasCanonicalKeys m = All (λ e. IsCanonical platform e.0) m

  pub insert-HasCanonicalKeys :
      (k : String) (v : LockedBalance) (m : Map LockedBalance)
      → IsCanonical platform k
      → HasCanonicalKeys m
      → HasCanonicalKeys (insert k v m)
  insert-HasCanonicalKeys k v [] c h = (c, tt)
  insert-HasCanonicalKeys k v ((j, w) ∷ m) c h = ground (arith, insert-HasCanonicalKeys k v m c h.1)

  distinct_from-All :
      (seen ss : List String)
      → All (IsCanonical platform) ss
      → All (IsCanonical platform) (distinct_from seen ss)
  unfolding distinct_from
  distinct_from-All seen [] h = tt
  distinct_from-All seen (s ∷ ss) h =
      ground (arith, distinct_from-All seen ss h.1, distinct_from-All (s ∷ seen) ss h.1)

  ids-All :
      (ids : List AccountId)
      → All (λ id. IsCanonical platform id.value) ids
      → All (IsCanonical platform) (map (λ id. id.value) ids)
  ids-All [] h = tt
  ids-All (id ∷ ids) h = (h.0, ids-All ids h.1)

  pub lock_order-All :
      (ids : List AccountId)
      → All (λ id. IsCanonical platform id.value) ids
      → All (IsCanonical platform) (lock_order ids)
  unfolding lock_order
  lock_order-All ids h = sort-All (IsCanonical platform) _ (distinct_from-All [] _ (ids-All ids h))

  -- What is known of a map of locked rows: its keys are distinct and canonical, and every entry is
  -- the row of the table.
  pub record IsLocked (table locked : Map LockedBalance) : Type 0 where
    pub distinct : IsDistinct locked
    pub canonical : HasCanonicalKeys locked
    pub from_table :
        (a : String) (s : LockedBalance) → lookup a locked ≡ some s → lookup a table ≡ some s

  lock_row-ok :
      (table : Map LockedBalance) (id : String) {row : LockedBalance}
      → IsCanonical platform id
      → lock_row platform table id ≡ ok row
      → lookup id table ≡ some row
  unfolding lock_row
  lock_row-ok table id {row} c h = elim (Option-cases (lookup id table)) [
    | inl missing ↦ ground arith
    | inr (v, found) ↦ ground arith
  ]

  locked_from_table :
      (id : String) (row : LockedBalance) (table locked : Map LockedBalance)
      → lookup id table ≡ some row
      → ((a : String) (s : LockedBalance) → lookup a locked ≡ some s → lookup a table ≡ some s)
      → (a : String) (s : LockedBalance) → lookup a (insert id row locked) ≡ some s
      → lookup a table ≡ some s
  locked_from_table id row table locked found old a s e =
      let split = sym (lookup-insert id a row locked) ∙ e in
      elim (Bool-cases (id == a)) [
        | inl same ↦ rw (← (eq_iff id a).0 same) (found ∙ rw same at split)
        | inr other ↦ old a s (rw other at split)
      ]

  lock_from-IsLocked :
      (table locked : Map LockedBalance) (ids : List String) {m : Map LockedBalance}
      → All (IsCanonical platform) ids
      → IsLocked table locked
      → lock_from platform table locked ids ≡ ok m
      → IsLocked table m
  unfolding lock_from
  lock_from-IsLocked table locked [] c l h = subst (IsLocked table) (cc h) l
  lock_from-IsLocked table locked (id ∷ ids) {m} c l h =
      elim (Result-cases (lock_row platform table id)) [
        | inr (e, failed) ↦ cc (rw (failed, lock_from) at h)
        | inl (row, found) ↦
            lock_from-IsLocked table (insert id row locked) ids {m = m} c.1
              (record {
                distinct = insert-IsDistinct id row locked l.distinct;
                canonical = insert-HasCanonicalKeys id row locked c.0 l.canonical;
                from_table =
                    locked_from_table id row table locked
                      (lock_row-ok table id {row = row} c.0 found) l.from_table;
              })
              (rw (found, lock_from) at h)
      ]

  -- Locking takes the rows as they are in the table.
  pub lock_for_update-IsLocked :
      (ids : List AccountId) (db : Db) {m : Map LockedBalance}
      → All (λ id. IsCanonical platform id.value) ids
      → lock_from platform db.balances [] (lock_order ids) ≡ ok m
      → IsLocked db.balances m
  lock_for_update-IsLocked ids db {m} c h =
      lock_from-IsLocked db.balances [] (lock_order ids) {m = m} (lock_order-All ids c)
        (record { distinct = tt; canonical = tt; from_table = λ a s e. cc e }) h

  -- An id that is not asked for is not locked.
  lock_from_outside :
      (a : String) (table locked : Map LockedBalance) (ids : List String) {m : Map LockedBalance}
      → contains a ids ≡ false
      → lookup a locked ≡ none
      → lock_from platform table locked ids ≡ ok m
      → lookup a m ≡ none
  unfolding lock_from contains
  lock_from_outside a table locked [] c l h = subst (λ m. lookup a m ≡ none) (ok-injective h) l
  lock_from_outside a table locked (id ∷ ids) {m} c l h =
      elim (Result-cases (lock_row platform table id)) [
        | inr (e, failed) ↦ cc (rw (failed, lock_from) at h)
        | inl (row, found) ↦ elim (Bool-cases (id == a)) [
          | inl same ↦ cc (rw (same, contains) at c)
          | inr other ↦
              lock_from_outside a table (insert id row locked) ids {m = m}
                (rw (other, contains) at c) (lookup-insert_ne id a row locked other ∙ l)
                (rw (found, lock_from) at h)
        ]
      ]

  pub lock_for_update_outside :
      (a : String) (ids : List AccountId) (db : Db) {m : Map LockedBalance}
      → contains a (map (λ id. id.value) ids) ≡ false
      → lock_from platform db.balances [] (lock_order ids) ≡ ok m
      → lookup a m ≡ none
  lock_for_update_outside a ids db {m} c h =
      lock_from_outside a db.balances [] (lock_order ids) {m = m} (contains-lock_order a ids c) refl
        h
