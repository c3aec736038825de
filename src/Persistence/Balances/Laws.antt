-- ===== src/Persistence/Balances/Laws.antt =====
-- What the balance rows look like after each operation of the balances repository.
use miniledger.Base.{
  ◌≡◌, refl, ◌∙◌, inl, inr, String, false, none, some, [], ◌∷◌, Map, lookup, IsDistinct, ◌==◌,
  eq_iff, arith, Bool-cases,
}
use miniledger.Persistence.Store.{LockedBalance}
use miniledger.Persistence.Balances.{set_where}

pub lookup-set_where_ne :
    (id a : String) (row : LockedBalance) (m : Map LockedBalance)
    → (id == a) ≡ false
    → lookup a (set_where id row m) ≡ lookup a m
unfolding set_where
lookup-set_where_ne id a row [] h = refl
lookup-set_where_ne id a row ((k, v) ∷ m) h =
    ground (arith, lookup-set_where_ne id a row m h, eq_iff k a, eq_iff k id, eq_iff id a)

pub lookup-set_where_self :
    (id : String) (row : LockedBalance) (m : Map LockedBalance) {v : LockedBalance}
    → lookup id m ≡ some v
    → lookup id (set_where id row m) ≡ some row
unfolding set_where
lookup-set_where_self id row [] h = cc h
lookup-set_where_self id row ((k, w) ∷ m) {v} h = elim (Bool-cases (k == id)) [
  | inl same ↦ rw same refl
  | inr other ↦ rw other (lookup-set_where_self id row m {v = v} (rw other at h))
]

-- The table after the updates from a map of running balances, in its order.
unfoldable pub write_all : Map LockedBalance → Map LockedBalance → Map LockedBalance
write_all [] table = table
write_all ((key, state) ∷ running) table = write_all running (set_where key state table)

-- An account outside the map keeps its row.
pub lookup-write_all-none :
    (a : String) (running table : Map LockedBalance)
    → lookup a running ≡ none
    → lookup a (write_all running table) ≡ lookup a table
unfolding write_all
lookup-write_all-none a [] table h = refl
lookup-write_all-none a ((k, s) ∷ running) table h = elim (Bool-cases (k == a)) [
  | inl same ↦ cc (rw same at h)
  | inr other ↦
      lookup-write_all-none a running (set_where k s table) (rw other at h)
      ∙ lookup-set_where_ne k a s table other
]

-- An account of the map that has a row gets the state of the map.
pub lookup-write_all-some :
    (a : String) (running table : Map LockedBalance) {s v : LockedBalance}
    → IsDistinct running
    → lookup a running ≡ some s
    → lookup a table ≡ some v
    → lookup a (write_all running table) ≡ some s
unfolding write_all
lookup-write_all-some a [] table d h t = cc h
lookup-write_all-some a ((k, w) ∷ running) table {s} {v} d h t = elim (Bool-cases (k == a)) [
  | inl same ↦
      let e : k ≡ a = (eq_iff k a).0 same in
      lookup-write_all-none a running (set_where k w table) (rw e at (d.0))
      ∙ rw e (lookup-set_where_self a w table {v = v} t)
      ∙ rw same at h
  | inr other ↦
      lookup-write_all-some a running (set_where k w table) {s = s} {v = v} d.1 (rw other at h)
        (lookup-set_where_ne k a w table other ∙ t)
]
