-- ===== src/Persistence/Action.antt =====
-- A call that reads and writes the tables and may throw. What was written before a throw stays
-- written; the unit of work (src/db/drizzle-unit-of-work.ts) takes it back.
pub mod Laws
use miniledger.Base.{
  ℤ, pos, ◌+ℤ◌, eq_ℤ, ◌≡◌, refl, Bool, true, false, Option, none, some, List, [], ◌∷◌, String,
  Result, ok, err, drop, length, select, every, ◌==◌, if◌then◌else◌,
}
use miniledger.Persistence.Failure.{
  Failure, database_error, check_violation, DatabaseError, currency_mismatch_error,
}
use miniledger.Persistence.Store.{Db, PostingRow}

abbrev pub Action : Type 0 → Type 0
Action A = Db → Result A Failure × Db

module _ {A : Type 0} where
  unfoldable pub pure : A → Action A
  pure a db = (ok a, db)

  unfoldable pub throw : Failure → Action A
  throw e db = (err e, db)

  unfoldable pub lift : Result A Failure → Action A
  lift r db = (r, db)

  unfoldable pub gets : (Db → A) → Action A
  gets f db = (ok (f db), db)

infixl 5 ◌>>=◌ ◌>>◌
abbrev pub continue : {A B : Type 0} → Result A Failure → (A → Action B) → Action B
continue (ok a) f db = f a db
continue (err e) f db = (err e, db)

unfoldable pub ◌>>=◌ : {A B : Type 0} → Action A → (A → Action B) → Action B
◌>>=◌ m f db = let (r, db') = m db in continue r f db'

abbrev pub ◌>>◌ : {A B : Type 0} → Action A → Action B → Action B
m >> k = m >>= λ _. k

unfoldable pub throw_if : Bool → Failure → Action (Unit {0})
throw_if b e db = (if b then err e else ok tt, db)

unfoldable pub modify : (Db → Db) → Action (Unit {0})
modify f db = (ok tt, f db)

unfoldable pub unless_missing : {A : Type 0} → Option A → Failure → Action A
unless_missing none e db = (err e, db)
unless_missing (some a) e db = (ok a, db)

-- `SELECT COALESCE(SUM(amount), 0)` of some postings
abbrev pub sum_amounts : List PostingRow → ℤ
sum_amounts [] = pos 0
sum_amounts (p ∷ ps) = p.amount +ℤ sum_amounts ps

-- `assert_transaction_balanced` of drizzle/0004_ledger_invariants.sql, for one inserted row
unfoldable pub is_transaction_balanced : List PostingRow → PostingRow → Bool
is_transaction_balanced postings new =
    eq_ℤ (sum_amounts (select (λ p. p.transaction_id == new.transaction_id) postings)) (pos 0)

-- The deferred trigger looks at every row that the transaction inserted, when it commits.
unfoldable pub may_commit : Db → Db → Bool
may_commit before after =
    every (is_transaction_balanced after.postings) (drop (length before.postings) after.postings)

abbrev pub settle : {A : Type 0} → Db → Result A Failure × Db → Result A Failure × Db
settle before (ok a, after) =
    if may_commit before after
    then (ok a, after)
    else (err (database_error check_violation), before)
settle before (err e, after) = (err e, before)

-- `withTransaction`: commit when the work returns, roll back when it throws.
unfoldable pub with_transaction : {A : Type 0} → Action A → Action A
with_transaction work db = settle db (work db)
