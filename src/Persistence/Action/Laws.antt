-- ===== src/Persistence/Action/Laws.antt =====
-- Taking a successful run apart, step by step.
use miniledger.Base.{
  ◌≡◌, refl, ap, ◌⊎◌, inl, inr, Bool, true, false, Option, none, some, Result, ok, err, Bool-cases,
  ok-injective,
}
use miniledger.Persistence.Failure.{Failure, database_error, check_violation}
use miniledger.Persistence.Store.{Db}
use miniledger.Persistence.Action.{
  Action, continue, ◌>>=◌, throw_if, unless_missing, lift, gets, modify, pure, settle,
  with_transaction, may_commit,
}

module _ {A B : Type 0} where
  -- A bind that returns: the first action returned, and the rest ran on its value.
  pub record BindsTo (m : Action A) (f : A → Action B) (db : Db) (b : B) (db' : Db) : Type 0 where
    pub value : A
    pub middle : Db
    pub first : m db ≡ (ok value, middle)
    pub rest : f value middle ≡ (ok b, db')

  continue-ok :
      (r : Result A Failure) (db1 : Db) (m : Action A) (f : A → Action B) {db : Db} {b : B}
      {db' : Db}
      → m db ≡ (r, db1)
      → continue r f db1 ≡ (ok b, db')
      → BindsTo m f db b db'
  continue-ok (ok a) db1 m f e h = record { value = a; middle = db1; first = e; rest = h }
  continue-ok (err x) db1 m f e h = cc h

  pub bind-ok :
      (m : Action A) (f : A → Action B) {db : Db} {b : B} {db' : Db}
      → (m >>= f) db ≡ (ok b, db')
      → BindsTo m f db b db'
  unfolding ◌>>=◌
  bind-ok m f {db} h = continue-ok (m db).0 (m db).1 m f refl h

module _ {A : Type 0} where
  pub lift-ok :
      (r : Result A Failure) {db db' : Db} {a : A}
      → lift r db ≡ (ok a, db')
      → (r ≡ ok a) × (db ≡ db')
  unfolding lift
  lift-ok r h = (ap (λ p. p.0) h, ap (λ p. p.1) h)

  pub unless_missing-ok :
      (o : Option A) (e : Failure) {db db' : Db} {a : A}
      → unless_missing o e db ≡ (ok a, db')
      → (o ≡ some a) × (db ≡ db')
  unfolding unless_missing
  unless_missing-ok none e h = cc h
  unless_missing-ok (some b) e h = (cc h, cc h)

  abbrev pub Settles : Action A → Db → Type 0
  Settles work db =
      ((a : A) × (work db ≡ (ok a, (with_transaction work db).1))
        × ((with_transaction work db).0 ≡ ok a)
        × (may_commit db (with_transaction work db).1 ≡ true))
      ⊎ ((e : Failure) × (with_transaction work db ≡ (err e, db)))

  -- A transaction either returns what the work returned and commits exactly its writes, which the
  -- deferred trigger allows, or it fails and leaves the tables as they were.
  pub with_transaction-cases : (work : Action A) (db : Db) → Settles work db
  unfolding with_transaction
  with_transaction-cases work db = settle_cases (work db).0 (work db).1 refl
    where
      settle_cases :
          (r : Result A Failure) (db1 : Db)
          → work db ≡ (r, db1)
          → ((a : A) × (work db ≡ (ok a, (settle db (work db)).1))
              × ((settle db (work db)).0 ≡ ok a)
              × (may_commit db (settle db (work db)).1 ≡ true))
            ⊎ ((e : Failure) × (settle db (work db) ≡ (err e, db)))
      settle_cases (err e) db1 h = inr (e, rw h refl)
      settle_cases (ok a) db1 h = elim (Bool-cases (may_commit db db1)) [
        | inl yes_commit ↦ inl (
          a,
          rw h (rw yes_commit refl),
          rw h (rw yes_commit refl),
          rw h (rw yes_commit yes_commit),
        )
        | inr refused ↦ inr (database_error check_violation, rw h (rw refused refl))
      ]

pub throw_if-ok :
    (b : Bool) (e : Failure) {db db' : Db}
    → throw_if b e db ≡ (ok tt, db')
    → (b ≡ false) × (db ≡ db')
unfolding throw_if
throw_if-ok true e h = cc h
throw_if-ok false e h = (refl, cc h)

-- The same for the first action of a block, whatever follows it.
module _ {B : Type 0} where
  pub throw_if-then :
      (b : Bool) (e : Failure) (k : Unit {0} → Action B) (db : Db) {x : B} {db' : Db}
      → (throw_if b e >>= k) db ≡ (ok x, db')
      → (b ≡ false) × (k tt db ≡ (ok x, db'))
  unfolding throw_if ◌>>=◌
  throw_if-then true e k db h = cc h
  throw_if-then false e k db h = (refl, h)

  pub unless_missing-then :
      {A : Type 0} (o : Option A) (e : Failure) (k : A → Action B) (db : Db) {x : B} {db' : Db}
      → (unless_missing o e >>= k) db ≡ (ok x, db')
      → (a : A) × (o ≡ some a) × (k a db ≡ (ok x, db'))
  unfolding unless_missing ◌>>=◌
  unless_missing-then none e k db h = cc h
  unless_missing-then (some a) e k db h = (a, refl, h)

  pub lift-then :
      {A : Type 0} (r : Result A Failure) (k : A → Action B) (db : Db) {x : B} {db' : Db}
      → (lift r >>= k) db ≡ (ok x, db')
      → (a : A) × (r ≡ ok a) × (k a db ≡ (ok x, db'))
  unfolding lift ◌>>=◌
  lift-then (ok a) k db h = (a, refl, h)
  lift-then (err e) k db h = cc h

  pub gets-then :
      {A : Type 0} (f : Db → A) (k : A → Action B) (db : Db) {x : B} {db' : Db}
      → (gets f >>= k) db ≡ (ok x, db')
      → k (f db) db ≡ (ok x, db')
  unfolding gets ◌>>=◌
  gets-then f k db h = h

  pub modify-then :
      (f : Db → Db) (k : Unit {0} → Action B) (db : Db) {x : B} {db' : Db}
      → (modify f >>= k) db ≡ (ok x, db')
      → k tt (f db) ≡ (ok x, db')
  unfolding modify ◌>>=◌
  modify-then f k db h = h

  pub pure-ok :
      (x : B) (db : Db) {y : B} {db' : Db} → pure x db ≡ (ok y, db') → (x ≡ y) × (db ≡ db')
  unfolding pure
  pure-ok x db h = (ok-injective (ap (λ r. r.0) h), ap (λ r. r.1) h)

pub modify-ok : (f : Db → Db) (db : Db) {db' : Db} → modify f db ≡ (ok tt, db') → f db ≡ db'
unfolding modify
modify-ok f db h = ap (λ r. r.1) h

pub gets-ok :
    {A : Type 0} (f : Db → A) (db : Db) {a : A} {db' : Db}
    → gets f db ≡ (ok a, db')
    → (f db ≡ a) × (db ≡ db')
unfolding gets
gets-ok f db h = (ok-injective (ap (λ r. r.0) h), ap (λ r. r.1) h)
