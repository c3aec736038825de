-- ===== src/Persistence/Locking/Finishes.antt =====
-- Transactions that lock their rows in one order never wait for each other in a circle.
use miniledger.Base.{
  ℕ, zero, suc, ◌+◌, ◌≡◌, refl, sym, ap, ◌⊎◌, inl, inr, String, true, false, some, List, [], ◌∷◌,
  ◌++◌, All, All-append, length, subst, some-eq-some, Bool-cases, Option-cases, arith, ◌==◌, eq_iff,
}
use miniledger.Persistence.Platform.{Platform, IsCanonical}
use miniledger.Persistence.Balances.{contains}
use miniledger.Persistence.Balances.Order.{
  IsBefore, IsBefore-trans, IsBefore-irrefl, IsBefore-cases,
}
use miniledger.Persistence.Locking.{Locker, Pool, is_held, advance, run, Reachable, turns}
use miniledger.Persistence.Locking.Progress.{
  IsOrdered, advance-IsOrdered, Reachable-IsOrdered, advance-turns, run-turns,
}

-- The transaction wants a row, and none before a given one.
abbrev IsAhead : String → Locker → Type 0
IsAhead w t = (v : String) × (rest : List String) × (t.wants ≡ v ∷ rest) × (IsBefore w v → ⊥)

abbrev IsNext : String → Locker → Type 0
IsNext w t = (rest : List String) × (t.wants ≡ w ∷ rest)

abbrev HasEnded : Locker → Type 0
HasEnded t = t.wants ≡ []

-- Some transaction of the pool.
abbrev Exists : (Locker → Type 0) → Pool → Type 0
Exists P [] = ⊥
Exists P (t ∷ ts) = P t ⊎ Exists P ts

wants-cases :
    (ws : List String) → (ws ≡ []) ⊎ ((w : String) × (rest : List String) × (ws ≡ w ∷ rest))
wants-cases [] = inl refl
wants-cases (w ∷ rest) = inr (w, rest, refl)

module _ (platform : Platform) where
  -- Whoever holds a row wants only later ones.
  holds-IsBefore :
      (w : String) (hs ws : List String)
      → All (λ h. All (IsBefore h) ws) hs
      → contains w hs ≡ true
      → All (IsBefore w) ws
  unfolding contains
  holds-IsBefore w [] ws a h = cc h
  holds-IsBefore w (x ∷ hs) ws a h = elim (Bool-cases (x == w)) [
    | inl same ↦ rw ((eq_iff x w).0 same) at a.0
    | inr other ↦ holds-IsBefore w hs ws a.1 (rw other at h)
  ]

  ahead_holds :
      (w : String) (t : Locker) → IsOrdered platform t → IsAhead w t → contains w t.holds ≡ false
  ahead_holds w t o (v, rest, wanted, ahead) = elim (Bool-cases (contains w t.holds)) [
    | inr free ↦ free
    | inl held ↦ absurd (ahead (rw wanted at (holds-IsBefore w t.holds t.wants o.behind held)).0)
  ]

  is_held-ahead :
      (w : String) (ts : Pool)
      → All (IsOrdered platform) ts
      → All (IsAhead w) ts
      → is_held w ts ≡ false
  unfolding is_held
  is_held-ahead w [] os fs = refl
  is_held-ahead w (t ∷ ts) os fs = rw (ahead_holds w t os.0 fs.0, is_held-ahead w ts os.1 fs.1) refl

  -- A transaction whose turn is not blocked can go on, wherever it stands.
  abbrev CanAdvance : Pool → Pool → Type 0
  CanAdvance passed ts = (n : ℕ) × (after : Pool) × (advance platform passed n ts ≡ some after)

  skip :
      (passed : Pool) (t : Locker) (ts : Pool)
      → CanAdvance (t ∷ passed) ts
      → CanAdvance passed (t ∷ ts)
  unfolding advance
  skip passed t ts (n, after, moved) = (suc n, t ∷ after, rw moved refl)

  ended-CanAdvance : (passed ts : Pool) → Exists HasEnded ts → CanAdvance passed ts
  unfolding advance
  ended-CanAdvance passed [] e = absurd e
  ended-CanAdvance passed (t ∷ ts) (inl ended) = (0, ts, rw ended refl)
  ended-CanAdvance passed (t ∷ ts) (inr e) = skip passed t ts (ended-CanAdvance (t ∷ passed) ts e)

  next-CanAdvance :
      (w : String) (passed ts : Pool)
      → All (IsOrdered platform) passed
      → All (IsOrdered platform) ts
      → All (IsAhead w) passed
      → All (IsAhead w) ts
      → Exists (IsNext w) ts
      → CanAdvance passed ts
  unfolding advance
  next-CanAdvance w passed [] ps os fs gs e = absurd e
  next-CanAdvance w passed (t ∷ ts) ps os fs gs (inl (rest, wanted)) =
      let read : All (IsCanonical platform) (w ∷ rest) = rw wanted at (os.0.canonical) in
      let free =
        is_held-ahead w (passed ++ ts) (All-append (IsOrdered platform) passed ts ps os.1)
          (All-append (IsAhead w) passed ts fs gs.1) in
      (0, record { wants = rest; holds = w ∷ t.holds } ∷ ts, rw (wanted, read.0, free) refl)
  next-CanAdvance w passed (t ∷ ts) ps os fs gs (inr e) =
      skip passed t ts (next-CanAdvance w (t ∷ passed) ts (os.0, ps) os.1 (gs.0, fs) gs.1 e)

  IsAhead-before :
      (v w : String) (ts : Pool) → IsBefore w v → All (IsAhead w) ts → All (IsAhead v) ts
  IsAhead-before v w [] b h = tt
  IsAhead-before v w (t ∷ ts) b ((x, rest, wanted, ahead), h) = (
    (x, rest, wanted, λ before. ahead (IsBefore-trans w v x b before)),
    IsAhead-before v w ts b h,
  )

  -- All transactions are ahead of the last row that is wanted next.
  abbrev LastWanted : Pool → Type 0
  LastWanted ts = (w : String) × All (IsAhead w) ts × Exists (IsNext w) ts

  last_of :
      (t : Locker) (ts : Pool) (v : String) (rest : List String)
      → t.wants ≡ v ∷ rest
      → LastWanted ts
      → LastWanted (t ∷ ts)
  last_of t ts v rest wanted (w, ahead, next) = elim (Bool-cases (w == v)) [
    | inl same ↦
        let itself : IsBefore w v → ⊥ = rw ((eq_iff w v).0 same) (IsBefore-irrefl v) in
        (w, ((v, rest, wanted, itself), ahead), inr next)
    | inr differ ↦ elim (IsBefore-cases v w differ) [
      | inl (before, smaller) ↦
          let back = λ (b : IsBefore w v). IsBefore-irrefl v (IsBefore-trans v w v before b) in
          (w, ((v, rest, wanted, back), ahead), inr next)
      | inr (after, greater) ↦ (
        v,
        ((v, rest, wanted, IsBefore-irrefl v), IsAhead-before v w ts after ahead),
        inl (rest, wanted),
      )
    ]
  ]

  last_wanted : (ts : Pool) → Exists HasEnded ts ⊎ ((ts ≡ []) ⊎ LastWanted ts)
  last_wanted [] = inr (inl refl)
  last_wanted (t ∷ ts) = elim (wants-cases t.wants) [
    | inl ended ↦ inl (inl ended)
    | inr (v, rest, wanted) ↦ elim (last_wanted ts) [
      | inl ended ↦ inl (inr ended)
      | inr (inl empty) ↦ inr (
          inr (
            v,
            ((v, rest, wanted, IsBefore-irrefl v), subst (All (IsAhead v)) (sym empty) tt),
            inl (rest, wanted),
          ))
      | inr (inr last) ↦ inr (inr (last_of t ts v rest wanted last))
    ]
  ]

  ordered_advances :
      (pool : Pool) → All (IsOrdered platform) pool → (pool ≡ []) ⊎ CanAdvance [] pool
  ordered_advances pool os = elim (last_wanted pool) [
    | inl ended ↦ inr (ended-CanAdvance [] pool ended)
    | inr (inl empty) ↦ inl empty
    | inr (inr (w, ahead, next)) ↦ inr (next-CanAdvance w [] pool tt os tt ahead next)
  ]

  -- A schedule under which all transactions end.
  abbrev pub Finishes : Pool → Type 0
  Finishes pool = (ns : List ℕ) × (run platform ns pool ≡ some [])

  turns-Finishes :
      (k : ℕ) (pool : Pool) → turns pool ≡ k → All (IsOrdered platform) pool → Finishes pool
  unfolding run
  turns-Finishes zero pool count os = elim (ordered_advances pool os) [
    | inl empty ↦ ([], ap some empty)
    | inr (n, after, moved) ↦
        let nearer = advance-turns platform [] n pool after moved in
        let none_left : ⊥ = omega arith in absurd none_left
  ]
  turns-Finishes (suc k) pool count os = elim (ordered_advances pool os) [
    | inl empty ↦ ([], ap some empty)
    | inr (n, after, moved) ↦
        let nearer = advance-turns platform [] n pool after moved in
        let (ns, finished) =
          turns-Finishes k after (omega arith)
            (advance-IsOrdered platform [] n pool after moved os) in
        (n ∷ ns, rw (run, moved) finished)
  ]

  run-IsOrdered :
      (ns : List ℕ) (pool after : Pool)
      → run platform ns pool ≡ some after
      → All (IsOrdered platform) pool
      → All (IsOrdered platform) after
  unfolding run
  run-IsOrdered [] pool after h os = subst (All (IsOrdered platform)) (some-eq-some h) os
  run-IsOrdered (n ∷ ns) pool after h os = elim (Option-cases (advance platform [] n pool)) [
    | inl waits ↦ cc (rw (run, waits) at h)
    | inr (next, moved) ↦
        run-IsOrdered ns next after (rw (run, moved) at h)
          (advance-IsOrdered platform [] n pool next moved os)
  ]

-- Transactions that lock balance rows by ids in the spelling of the database never block each other
-- for good: from any pool that comes up, and in whatever order they go on, there stays an order in
-- which all of them come to their end, and each turn is one of the finitely many that are left.
pub Reachable-Finishes :
    (platform : Platform) (pool : Pool) (ns : List ℕ) (after : Pool)
    → Reachable platform pool
    → run platform ns pool ≡ some after
    → Finishes platform after × (turns pool ≡ length ns + turns after)
Reachable-Finishes platform pool ns after r h = (
  turns-Finishes platform (turns after) after refl
      (run-IsOrdered platform ns pool after h (Reachable-IsOrdered platform pool r)),
  run-turns platform ns pool after h,
)
