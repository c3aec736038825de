-- ===== src/Seed/Again.antt =====
-- Running src/seed.ts again.
use miniledger.Base.{
  ℕ, suc, ◌≡◌, refl, sym, ap, ◌∙◌, inl, inr, String, some, List, [], ◌∷◌, Result, ok, err,
  Result-cases, Bool-cases, subst, some-eq-some,
}
use miniledger.Kernel.Currency
use miniledger.Kernel.Currency.{Currency}
use miniledger.Domain.Ids.{account_id}
use miniledger.Domain.Account.{Account, open_user}
use miniledger.Persistence.Store.{Db}
use miniledger.Persistence.Platform.{Platform}
use miniledger.Persistence.Action.{pure, ◌>>=◌}
use miniledger.Persistence.Action.Laws.{bind-ok, with_transaction-cases}
use miniledger.Persistence.Accounts.{list_visible_to}
use miniledger.Application.Accounts.{open_account, store_account, list_visible}
use miniledger.Ledger.Accounts.{store_account-Opens}
use miniledger.Seed.{
  Movement, SeedError, Report, already_applied, Attempt, proceed, and_then, has_user, open_one,
  post, post_all, undo, move_all, open_all, seed_for,
}
use miniledger.Ledger.Untouched.{Keeps, pure-Keeps, bind-Keeps}
use miniledger.Ledger.Untouched.Transfers.{transfer-Keeps}
use miniledger.Ledger.Untouched.Reversals.{reverse-Keeps}
use miniledger.Ledger.History.{Later}
use miniledger.Seed.Seeded.{shown, IsSeeded, opened-IsSeeded, Later-IsSeeded}

module _ {A B : Type 0} where
  and_then-ok :
      (m : Attempt A) (f : A → Attempt B) {db db' : Db} {b : B}
      → and_then m f db ≡ (ok (ok b), db')
      → (a : A) × (db1 : Db) × (m db ≡ (ok (ok a), db1)) × (f a db1 ≡ (ok (ok b), db'))
  unfolding and_then pure
  and_then-ok m f {db} h =
      let bound = bind-ok m (proceed f) h in
      elim (Result-cases bound.value) [
        | inl (a, good) ↦ (
          a,
          bound.middle,
          bound.first ∙ ap (λ r. (ok r, bound.middle)) good,
          rw good at bound.rest,
        )
        | inr (e, bad) ↦ cc (rw bad at bound.rest)
      ]

  proceed-Keeps :
      (f : A → Attempt B) → ((a : A) → Keeps (f a)) → (r : Result A SeedError) → Keeps (proceed f r)
  proceed-Keeps f k (ok a) = k a
  proceed-Keeps f k (err e) = pure-Keeps _

  and_then-Keeps :
      {m : Attempt A} {f : A → Attempt B} → Keeps m → ((a : A) → Keeps (f a)) → Keeps (and_then m f)
  unfolding and_then
  and_then-Keeps {f} km kf = bind-Keeps km (proceed-Keeps f kf)

module _ (platform : Platform) (time : ℕ → ℕ) (uuid : ℕ → String) (owner : String) where
  open_one-IsSeeded :
      (call : ℕ) (code : String) {currency : Currency} (db : Db) {db' : Db}
      {accounts : List Account} {a : Account}
      → Currency.of code ≡ ok currency
      → currency.code ≡ some code
      → shown owner db.accounts ≡ ok accounts
      → open_one platform time uuid owner call code db ≡ (ok (ok a), db')
      → IsSeeded owner db'.accounts
  unfolding open_one open_account pure open_user
  open_one-IsSeeded call code {currency} db {db'} known named read h =
      let account = open_user (account_id (uuid call)) currency owner (time call) in
      let outer = bind-ok _ _ h in
      let inner = bind-ok _ _ (rw known at outer.first) in
      elim (with_transaction-cases (store_account platform account) db) [
        | inr (e, undone) ↦ cc (undone, inner.first)
        | inl (u, ran, returned, committed) ↦
            let (key, stored, coded, opens) = store_account-Opens platform account db ran in
            let same : stored ≡ code = some-eq-some (sym coded ∙ named) in
            subst (IsSeeded owner)
              (ap (λ d. d.accounts)
                (opens.written
                  ∙ ap (λ p. p.1) inner.first
                  ∙ ap (λ p. p.1) inner.rest
                  ∙ ap (λ p. p.1) outer.rest))
              (rw same
                (opened-IsSeeded owner db.accounts account.id key code (time call) known read))
      ]

  post-Keeps :
      (call : ℕ) (movement : Movement) → Keeps (post platform time uuid owner call movement)
  unfolding post
  post-Keeps call movement = bind-Keeps (transfer-Keeps platform _ _ _) (λ r. pure-Keeps _)

  post_all-Keeps :
      (call : ℕ) (planned : List Movement) → Keeps (post_all platform time uuid owner call planned)
  unfolding post_all
  post_all-Keeps call [] = pure-Keeps _
  post_all-Keeps call (movement ∷ rest) =
      and_then-Keeps (post-Keeps call movement) (λ id. post_all-Keeps (suc call) rest)

  undo-Keeps : (call : ℕ) (charge : String) → Keeps (undo platform time uuid owner call charge)
  unfolding undo
  undo-Keeps call charge = bind-Keeps (reverse-Keeps platform _ _ _) (λ r. pure-Keeps _)

  move_all-Keeps :
      (checking savings travel usd_world eur_world : Account)
      → Keeps (move_all platform time uuid owner checking savings travel usd_world eur_world)
  move_all-Keeps checking savings travel usd_world eur_world =
      and_then-Keeps (post_all-Keeps 3 _) (λ _.
        and_then-Keeps (post-Keeps 10 _)
          (λ charge. and_then-Keeps (undo-Keeps 11 charge) (λ _. pure-Keeps _)))

  open_all-IsSeeded :
      (visible : List Account) (db : Db) {db' : Db} {r : Report}
      → shown owner db.accounts ≡ ok visible
      → open_all platform time uuid owner visible db ≡ (ok (ok r), db')
      → IsSeeded owner db'.accounts
  unfolding Currency.of Currency.definition_of
  open_all-IsSeeded visible db {db'} read h =
      let (checking, db1, opened1, h1) = and_then-ok _ _ h in
      let (savings, db2, opened2, h2) = and_then-ok _ _ h1 in
      let (travel, db3, opened3, h3) = and_then-ok _ _ h2 in
      let s1 = open_one-IsSeeded 0 "USD" db refl refl read opened1 in
      let s2 = open_one-IsSeeded 1 "USD" db1 refl refl s1.read opened2 in
      let s3 = open_one-IsSeeded 2 "EUR" db2 refl refl s2.read opened3 in
      let moved = and_then-Keeps (pure-Keeps _) (λ usd.
        and_then-Keeps (pure-Keeps _) (λ eur. move_all-Keeps checking savings travel usd eur)) in
      subst (IsSeeded owner) (sym (moved.accounts_eq db3) ∙ ap (λ p. p.1.accounts) h3) s3

  first-IsSeeded :
      (db : Db) {db' : Db} {r : Report}
      → seed_for platform time uuid owner db ≡ (ok (ok r), db')
      → IsSeeded owner db'.accounts
  unfolding seed_for list_visible list_visible_to pure
  first-IsSeeded db {db'} h =
      let b = bind-ok _ _ h in
      let read = ap (λ p. p.0) b.first in
      let same = ap (λ p. p.1) b.first in
      elim (Bool-cases (has_user b.value)) [
        | inl found ↦
            subst (IsSeeded owner)
              (ap (λ d. d.accounts) (same ∙ ap (λ p. p.1) (rw found at b.rest)))
              (record { accounts = b.value; read = read; applied = found })
        | inr fresh ↦ open_all-IsSeeded b.value b.middle (rw (← same) read) (rw fresh at b.rest)
      ]

second :
    (platform : Platform) (time : ℕ → ℕ) (uuid : ℕ → String) (owner : String) (db : Db)
    → IsSeeded owner db.accounts
    → seed_for platform time uuid owner db ≡ (ok (ok (already_applied owner)), db)
unfolding seed_for list_visible list_visible_to pure ◌>>=◌
second platform time uuid owner db s = rw (s.read, s.applied) refl

-- Where a run of the seed returns, whether it opened accounts or found the owner's, every run for the
-- same owner after any later calls of open, transfer (between accounts spelled as the database spells
-- them) and reverse reports that the seed is applied and writes nothing, at any time and with any
-- generated ids.
pub seed_for-AppliesOnce :
    (platform : Platform) (time time' : ℕ → ℕ) (uuid uuid' : ℕ → String) (owner : String) (db : Db)
    {db' db2 : Db} {r : Report}
    → seed_for platform time uuid owner db ≡ (ok (ok r), db')
    → Later platform db' db2
    → seed_for platform time' uuid' owner db2 ≡ (ok (ok (already_applied owner)), db2)
seed_for-AppliesOnce platform time time' uuid uuid' owner db {db'} {db2} h calls =
    second platform time' uuid' owner db2
      (Later-IsSeeded platform owner calls (first-IsSeeded platform time uuid owner db h))
