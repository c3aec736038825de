-- ===== src/Web/StatementView/Laws.antt =====
-- What the view shows after any number of loads.
use mathlib.Core.List.{append_assoc, append-nil}
use miniledger.Base.{
  ℕ, ◌≡◌, refl, sym, ap, ◌∙◌, String, Option, none, some, List, [], ◌++◌, some-eq-some, subst,
}
use miniledger.Web.Types.{StatementEntry, Statement}
use miniledger.Web.Client.{ApiResult, ok, unauthorized, unavailable, error}
use miniledger.Web.StatementView.{View, initial, waiting, settle, load_at, load_more}

-- A statement, by what there is after each cursor; after none there is nothing.
abbrev after : (ℕ → List StatementEntry) → Option ℕ → List StatementEntry
after entries_after none = []
after entries_after (some cursor) = entries_after cursor

module _ (entries_after : ℕ → List StatementEntry) where
  -- A page, and what there is after its next cursor, are what there is after a cursor.
  abbrev pub IsPage : List StatementEntry → Statement → Type 0
  IsPage rest page = page.entries ++ after entries_after page.next_cursor ≡ rest

  abbrev pub IsAnswer : ℕ → ApiResult Statement → Type 0
  IsAnswer cursor (ok page) = IsPage (entries_after cursor) page
  IsAnswer cursor unauthorized = Unit
  IsAnswer cursor unavailable = Unit
  IsAnswer cursor (error message) = Unit

  -- A ledger that answers each request for a page, or not.
  abbrev pub Answers : (ℕ → ApiResult Statement) → Type 0
  Answers fetch_statement = (cursor : ℕ) → IsAnswer cursor (fetch_statement cursor)

  -- The views that loads lead to.
  pub data Loads (unavailable_text : String) (start : View) : View → Type 0 where
    none_yet : Loads unavailable_text start start
    one_more :
        {view next : View} (fetch_statement : ℕ → ApiResult Statement)
        → Loads unavailable_text start view
        → Answers fetch_statement
        → load_more unavailable_text fetch_statement view ≡ some next
        → Loads unavailable_text start next

  -- What is shown, and what there is after the cursor, are the whole statement.
  abbrev pub Shows : List StatementEntry → View → Type 0
  Shows all view = view.entries ++ after entries_after view.cursor ≡ all

  settle-Shows :
      (text : String) (all : List StatementEntry) (view : View) (cursor : ℕ)
      (answer : ApiResult Statement) {next : View}
      → view.cursor ≡ some cursor
      → Shows all view
      → IsAnswer cursor answer
      → settle text (waiting view) answer ≡ some next
      → Shows all next
  settle-Shows text all view cursor unauthorized at s a h = cc h
  settle-Shows text all view cursor unavailable at s a h = subst (Shows all) (some-eq-some h) s
  settle-Shows text all view cursor (error message) at s a h = subst (Shows all) (some-eq-some h) s
  settle-Shows text all view cursor (ok page) at s a h = subst (Shows all) (some-eq-some h) (
      append_assoc view.entries page.entries (after entries_after page.next_cursor)
      ∙ ap (λ r. view.entries ++ r) a
      ∙ rw at at s)

  load_at-Shows :
      (text : String) (fetch_statement : ℕ → ApiResult Statement) (all : List StatementEntry)
      (view : View) (cursor : Option ℕ) {next : View}
      → Answers fetch_statement
      → view.cursor ≡ cursor
      → Shows all view
      → load_at text fetch_statement view cursor ≡ some next
      → Shows all next
  load_at-Shows text fetch_statement all view none answers at s h =
      subst (Shows all) (some-eq-some h) s
  load_at-Shows text fetch_statement all view (some cursor) {next} answers at s h =
      settle-Shows text all view cursor (fetch_statement cursor) {next = next} at s (answers cursor)
        h

  load_more-Shows :
      (text : String) (fetch_statement : ℕ → ApiResult Statement) (all : List StatementEntry)
      (view : View) {next : View}
      → Answers fetch_statement
      → Shows all view
      → load_more text fetch_statement view ≡ some next
      → Shows all next
  unfolding load_more
  load_more-Shows text fetch_statement all view {next} answers s h =
      load_at-Shows text fetch_statement all view view.cursor {next = next} answers refl s h

  Loads-Shows :
      (text : String) (start : View) (all : List StatementEntry) {view : View}
      → Shows all start
      → Loads text start view
      → Shows all view
  Loads-Shows text start all s none_yet = s
  Loads-Shows text start all s (one_more {view} fetch_statement loads answers h) =
      load_more-Shows text fetch_statement all view answers
        (Loads-Shows text start all {view = view} s loads) h

  -- Over a ledger whose every page, with what there is after its next cursor, is what there is after
  -- the cursor asked for, the view shows after any loads, failed ones among them, the beginning of the
  -- statement up to its cursor; once there is no next cursor it shows all of the statement.
  pub Loads-complete :
      (text : String) (first : Statement) (all : List StatementEntry) {view : View}
      → IsPage all first
      → Loads text (initial first.entries first.next_cursor) view
      → Shows all view × (view.cursor ≡ none → view.entries ≡ all)
  Loads-complete text first all {view} p loads =
      let s =
        Loads-Shows text (initial first.entries first.next_cursor) all {view = view} p loads in
      (s, λ last. sym (append-nil view.entries) ∙ rw last at s)
