-- ===== src/Types.antt =====
-- src/http_relay/types.rs, the `Message` of src/http_relay/waiting_list.rs, and the numbers of the
-- standard library's clocks.
--
-- An i64 timestamp t in milliseconds is modelled by the number t + 2^63, so that the order of
-- timestamps is the order of ℕ and every i64 is below 2^64; the Unix epoch is 2^63. A Duration and
-- an Instant are numbers of nanoseconds.
use http_relay.Base.{ℕ, String, ◌+◌, ◌*◌, ◌/◌, ◌%◌, ◌^◌, Bool, List, Option}

abbrev pub Bytes : Type 0
Bytes = List ℕ

-- `Message`: the body and the optional content type of a POST.
pub record Message : Type 0 where
  pub body : Bytes
  pub content_type : Option String

pub record StoredEntry : Type 0 where
  pub message_body : Option Bytes
  pub content_type : Option String
  pub acked : Bool
  pub expires_at : ℕ

pub data InsertOutcome : Type 0 where
  stored store_full : InsertOutcome

-- `Duration::from_secs` and `Duration::as_millis`.
abbrev pub from_secs : ℕ → ℕ
from_secs s = s * 1000000000

abbrev pub as_millis : ℕ → ℕ
as_millis d = d / 1000000

-- `now + ttl.as_millis() as i64`: the cast keeps the low 64 bits, and the sum wraps around.
unfoldable pub expiry : ℕ → ℕ → ℕ
expiry now ttl = (now + as_millis ttl % 2 ^ 64) % 2 ^ 64
