-- ===== src/Web/StatementView.antt =====
-- web/src/components/dashboard/statement-view.tsx: the pages that the view loads. The rendering is left
-- out.
pub mod Laws
use miniledger.Base.{ℕ, String, Bool, true, false, Option, none, some, List, [], ◌∷◌, ◌++◌}
use miniledger.Web.Types.{StatementEntry, Statement}
use miniledger.Web.Client.{ApiResult, ok, unauthorized, unavailable, error}

-- The view's hooks: `entries`, `cursor`, `loading` and `error`.
pub record View : Type 0 where
  pub entries : List StatementEntry
  pub cursor : Option ℕ
  pub loading : Bool
  pub error : Option String

-- `useState` of the page that the server rendered
abbrev pub initial : List StatementEntry → Option ℕ → View
initial entries cursor = record {
  entries = entries;
  cursor = cursor;
  loading = false;
  error = none;
}

-- The view while a page is fetched.
abbrev pub waiting : View → View
waiting view = record view { loading = true; error = none }

-- The view after an answer; none where the page goes to the login.
abbrev pub settle : String → View → ApiResult Statement → Option View
settle unavailable_text view unauthorized = none
settle unavailable_text view unavailable =
    some (record view { loading = false; error = some unavailable_text })
settle unavailable_text view (error message) =
    some (record view { loading = false; error = some message })
settle unavailable_text view (ok page) = some (record view {
  entries = view.entries ++ page.entries;
  cursor = page.next_cursor;
  loading = false;
})

abbrev load_at : String → (ℕ → ApiResult Statement) → View → Option ℕ → Option View
load_at unavailable_text fetch_statement view none = some view
load_at unavailable_text fetch_statement view (some cursor) =
    settle unavailable_text (waiting view) (fetch_statement cursor)

-- `loadMore`
unfoldable pub load_more : String → (ℕ → ApiResult Statement) → View → Option View
load_more unavailable_text fetch_statement view =
    load_at unavailable_text fetch_statement view view.cursor
