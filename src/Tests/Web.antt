-- ===== src/Tests/Web.antt =====
-- The theorems on the dashboard, at a session that sends one transfer.
use miniledger.Base
use miniledger.Base.{
  ℕ, ◌+◌, lookup, ◌≡◌, refl, String, Bool, true, false, Option, none, some, List, [], ◌∷◌, ok,
  nat_to_string, ◌==◌, if◌then◌else◌, Map, is_numeral, read_nat,
}
use miniledger.Base.Json
use miniledger.Base.Json.{Value}
use miniledger.Kernel.Currency
use miniledger.Kernel.Currency.{Currency}
use miniledger.Web.Runtime.{Runtime, Incoming}
use miniledger.Web.Types.{Account, StatementEntry, Statement}
use miniledger.Web.Money.{to_minor_units, format_money}
use miniledger.Web.Money.Digits.{remove_commas}
use miniledger.Web.Money.RoundTrip.{to_minor_units-format_money}
use miniledger.Base.Texts.{trim}
use miniledger.Web.Upstream.{spread, call}
use miniledger.Web.Proxy.{may_have_body, post_transfers, proxy_get, proxy_authorized}
use miniledger.Web.Proxy.Laws.{IsProxied, proxy_authorized-IsProxied}
use miniledger.Web.Sessions.{post_login, max_age}
use miniledger.Web.Sessions.Laws.{IsAnswered, post_login-IsAnswered}
use miniledger.Web.Client.{ApiResult, TransferBody, transfer_json, transfer}
use miniledger.Web.Client.Delivery.{IsDelivered, IsConnected, transfer-IsDelivered}
use miniledger.Web.ServerLedger
use miniledger.Web.ServerLedger.{Agrees, get-Agrees}
use miniledger.Web.TransferForm.{Form, State, submission}
use miniledger.Web.TransferForm.Laws.{Submitted, submission-IsAccepted}
use miniledger.Web.StatementView.{View, initial, load_more}
use miniledger.Web.StatementView.Laws.{Shows, Loads, none_yet, one_more, Loads-complete}
use miniledger.Web.Languages.{en, es, english, spanish, translate, interpolate, dictionary}
use miniledger.Web.Languages.Laws.{placeholders, translate-IsLike}

to_minor_units-format_money_example :
    to_minor_units (remove_commas (format_money (nat_to_string 123456789) "USD")) "USD"
    ≡ some (nat_to_string 123456789)
to_minor_units-format_money_example = to_minor_units-format_money 123456789 "USD"

typed : to_minor_units " 0012.5 " "USD" ≡ some "1250"
unfolding to_minor_units trim is_numeral
typed = refl

shown : format_money "-123456789" "USD" ≡ "-1,234,567.89"
unfolding format_money is_numeral
shown = refl

-- A separator that the formatting put in is no digit: such a text is refused.
grouped_refused : to_minor_units (format_money "123456" "USD") "USD" ≡ none
unfolding to_minor_units format_money trim is_numeral
grouped_refused = refl

abbrev body : TransferBody
body = record { from = "alice"; to = "bob"; amount = "1250"; currency = "USD" }

abbrev answer : Value
answer = Json.singleton "transactionId" (Json.text "t1")

-- A server whose upstreams answer 201, and a browser before it.
abbrev server : Runtime
server = record {
  fetch = λ request. some (record { status = 201; raw = some "answer" });
  stringify = λ v. "json";
  parse = λ s. if s == "json" then some (transfer_json body) else some answer;
  encode = λ s. s;
  decode_base64 = λ s. s;
  accesscore_api_url = none;
  miniledger_api_url = some "http://ledger/";
  production = true;
}

abbrev browser : Runtime
browser = record server {
  fetch = λ request. some (record { status = 201; raw = some "json" });
  parse = λ s. some answer;
}

abbrev cookies : Map String
cookies = ("ml_token", "secret") ∷ []

abbrev incoming : Incoming
incoming = record {
  headers = ("idempotency-key", "k1") ∷ [];
  cookies = cookies;
  json = some (transfer_json body);
}

proxy_authorized-IsProxied_example :
    IsProxied server incoming "/transfers" "POST"
      (proxy_authorized server incoming "/transfers" "POST")
proxy_authorized-IsProxied_example = proxy_authorized-IsProxied server incoming "/transfers" "POST"

connected : IsConnected browser server cookies body (some "k1")
unfolding post_transfers spread call may_have_body
connected = record { serves = refl; reads_request = refl; reads_response = refl }

transfer-IsDelivered_example :
    IsDelivered browser server cookies body (some "k1") (transfer browser body (some "k1")).result
transfer-IsDelivered_example =
    transfer-IsDelivered browser server cookies body (some "k1") connected

get-Agrees_example :
    ((ServerLedger.get server incoming "/accounts").requests
      ≡ (proxy_get server incoming "/accounts").requests)
    × Agrees
        (ServerLedger.get server incoming "/accounts").result
        (proxy_get server incoming "/accounts").result
get-Agrees_example = get-Agrees server incoming "/accounts"

abbrev login_request : Incoming
login_request = record incoming {
  json = some (
      Json.object (
        Json.field "email" (Json.text "ann@example.com")
          (Json.field "password" (Json.text "pw") Json.end)));
}

post_login-IsAnswered_example : IsAnswered server login_request (post_login server login_request)
post_login-IsAnswered_example = post_login-IsAnswered server login_request

-- A body that is `null` is JSON, and the handler throws at it.
null_login : (post_login server (record incoming { json = some Json.null })).result ≡ none
unfolding post_login
null_login = refl

long_session : max_age (some (Base.pos 86400)) ≡ Base.pos 900
unfolding max_age
long_session = refl

abbrev account : String → String → Account
account id currency = record {
  id = id;
  type = "user";
  currency = currency;
  balance = "0";
  overdraft_floor = some "0";
  created_at = "";
}

abbrev accounts : List Account
accounts = account "alice" "USD" ∷ account "carol" "EUR" ∷ account "bob" "USD" ∷ []

abbrev form : Form
form = record {
  from = "alice";
  to = "carol";
  amount = "12.50";
  idempotency_key = " ";
  state = State.idle;
}

abbrev usd : Currency
usd = record { code = some "USD"; minor_unit_scale = some 2 }

-- The target that is not in the currency gives way to the one that is.
submitted : submission accounts form ≡ some body
unfolding submission to_minor_units trim is_numeral
submitted = refl

known_usd : Currency.of "USD" ≡ ok usd
unfolding Currency.of Currency.definition_of
known_usd = refl

submission-IsAccepted_example : Submitted accounts body usd "ann" none
submission-IsAccepted_example =
    submission-IsAccepted accounts form {body = body} {c = usd} "ann" none submitted known_usd

abbrev entry : ℕ → StatementEntry
entry seq = record {
  seq = seq;
  transaction_id = "t";
  amount = "5";
  balance_after = "5";
  created_at = "";
}

abbrev entries_after : ℕ → List StatementEntry
entries_after cursor = entry (cursor + 1) ∷ []

abbrev first_page : Statement
first_page = record { entries = entry 1 ∷ []; next_cursor = some 1 }

abbrev answers : ℕ → ApiResult Statement
answers cursor = ApiResult.ok (record { entries = entry (cursor + 1) ∷ []; next_cursor = none })

abbrev both : List StatementEntry
both = entry 1 ∷ entry 2 ∷ []

abbrev loaded : View
loaded = record { entries = both; cursor = none; loading = false; error = none }

loads : Loads entries_after "down" (initial first_page.entries first_page.next_cursor) loaded
unfolding load_more
loads = one_more answers none_yet (λ cursor. refl) refl

Loads-complete_example :
    Shows entries_after both loaded × (loaded.cursor ≡ none → loaded.entries ≡ both)
Loads-complete_example =
    Loads-complete entries_after "down" first_page both {view = loaded} refl loads

broken_text : lookup "integrity.broken" (dictionary english) ≡ some "Broken at #{seq}"
unfolding dictionary en
broken_text = refl

translate-IsLike_example :
    (shown : String) × (lookup "integrity.broken" (dictionary spanish) ≡ some shown)
    × (placeholders "Broken at #{seq}" ≡ placeholders shown)
    × (translate spanish "integrity.broken" (some (("seq", "4") ∷ []))
        ≡ interpolate shown (some (("seq", "4") ∷ [])))
translate-IsLike_example =
    translate-IsLike english spanish "integrity.broken" (some (("seq", "4") ∷ [])) broken_text

in_spanish : translate spanish "integrity.broken" (some (("seq", "4") ∷ [])) ≡ "Rota en #4"
unfolding translate dictionary interpolate es
in_spanish = refl
