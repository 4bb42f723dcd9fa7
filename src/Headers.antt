-- ===== src/Headers.antt =====
-- What the handlers use of the `http` and `axum` crates: a header map, the conversion of a status and
-- a body to a response, and the conversions between texts and header values. They are a parameter of
-- the handlers; the laws are those of a map.
use http_relay.Base.{ℕ, String, ◌≡◌, ◌≢◌, Option, some}
use http_relay.Types.{Bytes}

pub record Headers : Type 1 where
  pub Map : Type 0
  pub Value : Type 0
  -- `HeaderMap::get` and `HeaderMap::insert`, which replaces the values of the name.
  pub get : String → Map → Option Value
  pub insert : String → Value → Map → Map
  -- The headers of `(status, bytes).into_response()`.
  pub of_bytes : Map
  -- `HeaderValue::from_static`, `str::parse::<HeaderValue>` and `HeaderValue::to_str`.
  pub from_static : String → Value
  pub parse : String → Option Value
  pub to_str : Value → Option String
  pub get-insert_self : (k : String) (v : Value) (m : Map) → get k (insert k v m) ≡ some v
  pub get-insert_ne : {k j : String} (v : Value) (m : Map) → k ≢ j → get j (insert k v m) ≡ get j m

-- A `Response`. A `StatusCode` is its number.
pub record Response (h : Headers) : Type 0 where
  pub status : ℕ
  pub headers : h.Map
  pub body : Bytes
