-- ===== src/Requests.antt =====
-- What the handlers of src/http_relay/inbox_handler.rs and src/http_relay/link_handler.rs share.
--
-- A handler that awaits a receiver releases the lock before, so it is two functions: one up to the
-- `await`, which answers or waits for a channel at most for a time, and one from there, which takes
-- what `tokio::time::timeout(..).await` returned.
use http_relay.Base.{ℕ, String, Option, none, some, Result, ok, err}
use http_relay.Headers.{Headers, Response}
use http_relay.Response.{Simple, into_response}

-- `Ok(Ok(value))`, `Ok(Err(RecvError))` and `Err(Elapsed)`.
pub data Awaited {ℓ} (A : Type ℓ) : Type ℓ where
  received : A → Awaited A
  sender_dropped : Awaited A
  elapsed : Awaited A

-- An answer, a wait for the receiver of a channel with its timeout, or an `unreachable!()`.
pub data Progress {ℓ} (A : Type ℓ) : Type ℓ where
  answers : A → Progress A
  waits : ℕ → ℕ → Progress A
  panics : Progress A

-- `headers.get(CONTENT_TYPE).and_then(|v| v.to_str().ok())`
abbrev pub content_type_of : (h : Headers) → h.Map → Option String
content_type_of h headers = elim (h.get "content-type" headers) [
  | none ↦ none
  | some v ↦ h.to_str v
]

-- `Result<(StatusCode, Bytes), (StatusCode, Bytes)>::into_response()`
abbrev pub simple_response : (h : Headers) → Result Simple Simple → Response h
simple_response h (ok s) = into_response h s
simple_response h (err s) = into_response h s
