-- ===== src/Ledger/Pages.antt =====
-- The postings of an account after a cursor, cut into pages: StatementService.forAccount without its
-- lookups.
use miniledger.Base.{
  ℕ, zero, suc, ◌≤◌, ◌<◌, ltb, ◌≡◌, refl, sym, ap, ◌∙◌, inl, inr, String, Bool, true, ◌&&◌, Option,
  none, some, List, [], ◌∷◌, ◌++◌, map, All, take, drop, last, length, select, ◌==◌, Bool-cases,
  some-eq-some, subst, arith,
}
use miniledger.Persistence.Store.{Db, PostingRow}
use miniledger.Persistence.Statements.{StatementEntry, entry_of, is_after}
use miniledger.Application.Statements.{seq_field, paginate}
use miniledger.Ledger.Order.{Ascending, Ascending-select}

-- The postings of an account after a cursor.
abbrev pub rows_after : String → Option ℕ → Db → List PostingRow
rows_after id cursor db = select (λ row. (row.account_id == id) && is_after cursor row) db.postings

-- What a client still has to read when it is given a next cursor.
abbrev pub remaining : String → Option ℕ → Db → List StatementEntry
remaining id none db = []
remaining id (some cursor) db = map entry_of (rows_after id (some cursor) db)

abbrev beyond : ℕ → List PostingRow → List PostingRow
beyond c rows = select (λ row. ltb c row.seq) rows

beyond-all :
    (c lo hi : ℕ) (rows : List PostingRow) → c < lo → Ascending lo hi rows → beyond c rows ≡ rows
beyond-all c lo hi [] h a = refl
beyond-all c lo hi (r ∷ rows) h a =
    let rest = beyond-all c (suc r.seq) hi rows (omega arith) a.1 in ground (arith, rest)

last-bound :
    (lo hi n : ℕ) (rows : List PostingRow) {row : PostingRow}
    → Ascending lo hi rows
    → last (take n rows) ≡ some row
    → lo ≤ row.seq
last-bound lo hi zero rows a h = cc h
last-bound lo hi (suc n) [] a h = cc h
last-bound lo hi (suc zero) (r ∷ rows) a h = ground arith
last-bound lo hi (suc (suc n)) (r ∷ []) a h = ground arith
last-bound lo hi (suc (suc n)) (r ∷ s ∷ rows) {row} a h =
    let rest = last-bound (suc r.seq) hi (suc n) (s ∷ rows) {row = row} a.1 h in omega arith

-- The rows beyond the last of the first rows are the others.
beyond-last :
    (lo hi n : ℕ) (rows : List PostingRow) {row : PostingRow}
    → Ascending lo hi rows
    → last (take n rows) ≡ some row
    → beyond row.seq rows ≡ drop n rows
beyond-last lo hi zero rows a h = cc h
beyond-last lo hi (suc n) [] a h = refl
beyond-last lo hi (suc zero) (r ∷ rows) {row} a h =
    let same : r ≡ row = some-eq-some h in
    let rest = beyond-all r.seq (suc r.seq) hi rows (omega arith) a.1 in
    subst (λ x. beyond x.seq (r ∷ rows) ≡ rows) same (ground (arith, rest))
beyond-last lo hi (suc (suc n)) (r ∷ []) {row} a h =
    let same : r ≡ row = some-eq-some h in rw (← same) (ground arith)
beyond-last lo hi (suc (suc n)) (r ∷ s ∷ rows) {row} a h =
    let rest = beyond-last (suc r.seq) hi (suc n) (s ∷ rows) {row = row} a.1 h in
    let bound = last-bound (suc r.seq) hi (suc n) (s ∷ rows) {row = row} a.1 h in
    ground (arith, rest, bound)

take-drop : (n : ℕ) (rows : List PostingRow) → take n rows ++ drop n rows ≡ rows
take-drop zero rows = refl
take-drop (suc n) [] = refl
take-drop (suc n) (r ∷ rows) = ap (λ x. r ∷ x) (take-drop n rows)

take-all : (n : ℕ) (rows : List PostingRow) → length rows ≤ n → take n rows ≡ rows
take-all zero [] h = refl
take-all zero (r ∷ rows) h = absurd (omega (arith, h))
take-all (suc n) [] h = refl
take-all (suc n) (r ∷ rows) h = ap (λ x. r ∷ x) (take-all n rows (omega (arith, h)))

map-append :
    (xs ys : List PostingRow) → map entry_of (xs ++ ys) ≡ map entry_of xs ++ map entry_of ys
map-append [] ys = refl
map-append (x ∷ xs) ys = ap (λ zs. entry_of x ∷ zs) (map-append xs ys)

take-page :
    (n : ℕ) (rows : List PostingRow)
    → take n (map entry_of (take (suc n) rows)) ≡ map entry_of (take n rows)
take-page zero rows = refl
take-page (suc n) [] = refl
take-page (suc n) (r ∷ rows) = ap (λ x. entry_of r ∷ x) (take-page n rows)

page-longer :
    (n : ℕ) (rows : List PostingRow)
    → ltb n (length (map entry_of (take (suc n) rows))) ≡ ltb n (length rows)
page-longer zero [] = refl
page-longer zero (r ∷ rows) = ground arith
page-longer (suc n) [] = refl
page-longer (suc n) (r ∷ rows) = ground (arith, page-longer n rows)

last-map :
    (rows : List PostingRow) {row : PostingRow}
    → last rows ≡ some row
    → seq_field (last (map entry_of rows)) ≡ some row.seq
last-map [] h = cc h
last-map (r ∷ []) h = ap (λ x. some x.seq) (some-eq-some h)
last-map (r ∷ s ∷ rows) {row} h = last-map (s ∷ rows) {row = row} h

last-nonempty :
    (n : ℕ) (rows : List PostingRow)
    → ltb (suc n) (length rows) ≡ true
    → (row : PostingRow) × (last (take (suc n) rows) ≡ some row)
last-nonempty n [] h = let no_rows : ⊥ = ground arith in absurd no_rows
last-nonempty zero (r ∷ rows) h = (r, refl)
last-nonempty (suc n) (r ∷ []) h = (r, refl)
last-nonempty (suc n) (r ∷ s ∷ rows) h = last-nonempty n (s ∷ rows) (ground arith)

select-refine :
    (id : String) (cursor : Option ℕ) (c : ℕ) (rows : List PostingRow)
    → ((row : PostingRow) → ltb c row.seq ≡ true → is_after cursor row ≡ true)
    → select (λ row. (row.account_id == id) && is_after (some c) row) rows
      ≡ beyond c (select (λ row. (row.account_id == id) && is_after cursor row) rows)
select-refine id cursor c [] h = refl
select-refine id cursor c (r ∷ rows) h = ground (arith, select-refine id cursor c rows h, h r)

select-All :
    (f : PostingRow → Bool) (rows : List PostingRow) → All (λ row. f row ≡ true) (select f rows)
select-All f [] = tt
select-All f (r ∷ rows) = ground (arith, select-All f rows)

last-All :
    (f : PostingRow → Bool) (n : ℕ) (rows : List PostingRow) {row : PostingRow}
    → All (λ r. f r ≡ true) rows
    → last (take n rows) ≡ some row
    → f row ≡ true
last-All f zero rows a h = cc h
last-All f (suc n) [] a h = cc h
last-All f (suc zero) (r ∷ rows) a h = subst (λ x. f x ≡ true) (some-eq-some h) a.0
last-All f (suc (suc n)) (r ∷ []) a h = subst (λ x. f x ≡ true) (some-eq-some h) a.0
last-All f (suc (suc n)) (r ∷ s ∷ rows) {row} a h = last-All f (suc n) (s ∷ rows) {row = row} a.1 h

is_after-later :
    (cursor : Option ℕ) (row later : PostingRow)
    → is_after cursor row ≡ true
    → ltb row.seq later.seq ≡ true
    → is_after cursor later ≡ true
is_after-later none row later h k = refl
is_after-later (some c) row later h k = ground arith

entries-nil : (xs : List StatementEntry) → xs ++ [] ≡ xs
entries-nil [] = refl
entries-nil (x ∷ xs) = ap (λ ys. x ∷ ys) (entries-nil xs)

second_of : (b : Bool) {c : Bool} → (b && c) ≡ true → c ≡ true
second_of b h = ground arith

-- A page and what remains after its cursor are what there was to read.
pub paginate-remaining :
    (id : String) (n : ℕ) (cursor : Option ℕ) (db : Db) (hi : ℕ)
    → Ascending 0 hi db.postings
    → (paginate (suc n) (map entry_of (take (suc (suc n)) (rows_after id cursor db)))).entries
        ++ remaining id
            (paginate
              (suc n)
              (map entry_of (take (suc (suc n)) (rows_after id cursor db)))).next_cursor
            db
      ≡ map entry_of (rows_after id cursor db)
unfolding paginate
paginate-remaining id n cursor db hi a =
    let rows = rows_after id cursor db in
    let sorted =
      Ascending-select (λ row. (row.account_id == id) && is_after cursor row) 0 hi db.postings a in
    elim (Bool-cases (ltb (suc n) (length rows))) [
      | inr short ↦
          rw
            (
              page-longer (suc n) rows,
              short,
              take-page (suc n) rows,
              take-all (suc n) rows (ground arith),
            )
            (entries-nil (map entry_of rows))
      | inl long ↦
          let (row, at_end) = last-nonempty n rows long in
          let passes =
            last-All (λ row. (row.account_id == id) && is_after cursor row) (suc n) rows {row = row}
              (select-All _ db.postings) at_end in
          rw (page-longer (suc n) rows, long, take-page (suc n) rows)
            (rw
              (
                last-map (take (suc n) rows) {row = row} at_end,
                select-refine id cursor row.seq db.postings (λ later.
                    is_after-later cursor row later (second_of (row.account_id == id) passes)),
                beyond-last 0 hi (suc n) rows {row = row} sorted at_end,
              )
              (sym (map-append (take (suc n) rows) (drop (suc n) rows))
                ∙ ap (map entry_of) (take-drop (suc n) rows)))
    ]
