-- ===== src/Web/Runtime.antt =====
-- What the dashboard runs on: the network, the runtime's JSON, URI and base64 codecs, the environment
-- and the request at hand (its headers, its cookies and its body).
use miniledger.Base.{ℕ, String, Bool, Option, Map, lookup}
use miniledger.Base.Texts.{truthy}
use miniledger.Base.Json.{Value}

pub record FetchRequest : Type 0 where
  pub url : String
  pub method : String
  pub headers : Map String
  pub body : Option String

-- `raw` is missing where the connection breaks while the body is read.
pub record FetchResponse : Type 0 where
  pub status : ℕ
  pub raw : Option String

-- `fetch` and `parse` give nothing where they throw.
pub record Runtime : Type 0 where
  pub fetch : FetchRequest → Option FetchResponse
  pub stringify : Value → String
  pub parse : String → Option Value
  pub encode : String → String
  pub decode_base64 : String → String
  pub accesscore_api_url : Option String
  pub miniledger_api_url : Option String
  pub production : Bool

-- A request to the dashboard. `json` is missing where its body is no JSON.
pub record Incoming : Type 0 where
  pub headers : Map String
  pub cookies : Map String
  pub json : Option Value

-- A cookie or header that is there and not empty.
abbrev pub given : String → Map String → Option String
given name values = truthy (lookup name values)
