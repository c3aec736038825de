-- ===== src/Persistence/Locking/Progress.antt =====
-- Transactions that lock their rows in one order never wait for each other in a circle.
use miniledger.Base.{
  ℕ, zero, suc, ◌+◌, ◌≡◌, refl, sym, ap, ◌∙◌, ◌⊎◌, inl, inr, String, some, List, [], ◌∷◌, ◌++◌, All,
  length, Bool-cases, Option-cases, some-eq-some, subst, arith,
}
use miniledger.Persistence.Platform.{Platform, IsCanonical}
use miniledger.Persistence.Balances.Order.{IsBefore}
use miniledger.Persistence.Balances.Ascending.{IsAscending, lock_order-IsAscending}
use miniledger.Persistence.Balances.Locks.{lock_order-All}
use miniledger.Persistence.Locking.{
  Locker, Pool, entering, is_held, placed, remove_at, move, advance, run, Reachable, idle, enters,
  goes_on, fails, turns,
}

module _ (platform : Platform) where
  -- What is left is in order, and what is locked stands before it.
  pub record IsOrdered (t : Locker) : Type 0 where
    pub canonical : All (IsCanonical platform) t.wants
    pub ascending : IsAscending t.wants
    pub behind : All (λ h. All (IsBefore h) t.wants) t.holds

  All-tails :
      (w : String) (ws hs : List String)
      → All (λ h. All (IsBefore h) (w ∷ ws)) hs
      → All (λ h. All (IsBefore h) ws) hs
  All-tails w ws [] a = tt
  All-tails w ws (h ∷ hs) a = (a.0.1, All-tails w ws hs a.1)

  -- A turn ends the transaction, or it locks the next row.
  placed-cases :
      (others ts : Pool) (wants holds : List String) {after : Pool}
      → placed (move platform others wants holds) ts ≡ some after
      → ((wants ≡ []) × (ts ≡ after))
        ⊎ ((id : String) × (rest : List String) × (key : String) × (wants ≡ id ∷ rest)
            × (platform.uuid id ≡ some key)
            × (record { wants = rest; holds = key ∷ holds } ∷ ts ≡ after))
  placed-cases others ts [] holds h = inl (refl, some-eq-some h)
  placed-cases others ts (id ∷ rest) holds h = elim (Option-cases (platform.uuid id)) [
    | inl unread ↦ cc (rw unread at h)
    | inr (key, read) ↦ elim (Bool-cases (is_held key others)) [
      | inl held ↦ cc (rw (read, held) at h)
      | inr free ↦ inr (id, rest, key, refl, read, some-eq-some (rw (read, free) at h))
    ]
  ]

  locked-IsOrdered :
      (id : String) (rest holds : List String)
      → IsOrdered (record { wants = id ∷ rest; holds = holds })
      → IsOrdered (record { wants = rest; holds = id ∷ holds })
  locked-IsOrdered id rest holds o = record {
    canonical = o.canonical.1;
    ascending = o.ascending.1;
    behind = (o.ascending.0, All-tails id rest holds o.behind);
  }

  placed-IsOrdered :
      (others : Pool) (t : Locker) (ts after : Pool)
      → placed (move platform others t.wants t.holds) ts ≡ some after
      → IsOrdered t
      → All IsOrdered ts
      → All IsOrdered after
  placed-IsOrdered others t ts after h o os = elim (placed-cases others ts t.wants t.holds h) [
    | inl (ended, same) ↦ subst (All IsOrdered) same os
    | inr (id, rest, key, wanted, read, locked) ↦
        let ordered : IsOrdered (record { wants = id ∷ rest; holds = t.holds }) = rw wanted at o in
        let canonical : key ≡ id = some-eq-some (sym read ∙ ordered.canonical.0) in
        subst (All IsOrdered) locked (rw canonical (locked-IsOrdered id rest t.holds ordered, os))
  ]

  pub advance-IsOrdered :
      (passed : Pool) (n : ℕ) (ts after : Pool)
      → advance platform passed n ts ≡ some after
      → All IsOrdered ts
      → All IsOrdered after
  unfolding advance
  advance-IsOrdered passed n [] after h os = cc h
  advance-IsOrdered passed zero (t ∷ ts) after h os =
      placed-IsOrdered (passed ++ ts) t ts after h os.0 os.1
  advance-IsOrdered passed (suc n) (t ∷ ts) after h os =
      elim (Option-cases (advance platform (t ∷ passed) n ts)) [
        | inl waits ↦ cc (rw waits at h)
        | inr (rest, moved) ↦
            subst (All IsOrdered) (some-eq-some (rw moved at h))
              (os.0, advance-IsOrdered (t ∷ passed) n ts rest moved os.1)
      ]

  remove_at-IsOrdered : (n : ℕ) (ts : Pool) → All IsOrdered ts → All IsOrdered (remove_at n ts)
  unfolding remove_at
  remove_at-IsOrdered n [] os = tt
  remove_at-IsOrdered zero (t ∷ ts) os = os.1
  remove_at-IsOrdered (suc n) (t ∷ ts) os = (os.0, remove_at-IsOrdered n ts os.1)

  pub Reachable-IsOrdered : (pool : Pool) → Reachable platform pool → All IsOrdered pool
  unfolding entering
  Reachable-IsOrdered pool idle = tt
  Reachable-IsOrdered pool (enters ids c r) = (
    record {
      canonical = lock_order-All platform ids c;
      ascending = lock_order-IsAscending ids;
      behind = tt;
    },
    Reachable-IsOrdered _ r,
  )
  Reachable-IsOrdered pool (goes_on n h r) =
      advance-IsOrdered [] n _ pool h (Reachable-IsOrdered _ r)
  Reachable-IsOrdered pool (fails n r) = remove_at-IsOrdered n _ (Reachable-IsOrdered _ r)

  -- Each turn brings the end one turn nearer.
  pub advance-turns :
      (passed : Pool) (n : ℕ) (ts after : Pool)
      → advance platform passed n ts ≡ some after
      → turns ts ≡ suc (turns after)
  unfolding advance turns
  advance-turns passed n [] after h = cc h
  advance-turns passed zero (t ∷ ts) after h =
      elim (placed-cases (passed ++ ts) ts t.wants t.holds h) [
        | inl (ended, same) ↦ rw (ended, ← same) (omega arith)
        | inr (id, rest, key, wanted, read, locked) ↦ rw (wanted, ← locked) (omega arith)
      ]
  advance-turns passed (suc n) (t ∷ ts) after h =
      elim (Option-cases (advance platform (t ∷ passed) n ts)) [
        | inl waits ↦ cc (rw waits at h)
        | inr (rest, moved) ↦
            let nearer = advance-turns (t ∷ passed) n ts rest moved in
            rw (← some-eq-some (rw moved at h)) (omega (arith, nearer))
      ]

  pub run-turns :
      (ns : List ℕ) (pool after : Pool)
      → run platform ns pool ≡ some after
      → turns pool ≡ length ns + turns after
  unfolding run
  run-turns [] pool after h = let same = ap turns (some-eq-some h) in omega arith
  run-turns (n ∷ ns) pool after h = elim (Option-cases (advance platform [] n pool)) [
    | inl waits ↦ cc (rw (run, waits) at h)
    | inr (next, moved) ↦
        let first = advance-turns [] n pool next moved in
        let others = run-turns ns next after (rw (run, moved) at h) in omega arith
  ]
