-- ===== src/Inbox.antt =====
-- The handlers of src/http_relay/inbox_handler.rs.
pub mod Protocol
pub mod Acknowledged
use http_relay.Base.{
  ℕ, String, Bool, true, false, List, [], Option, none, some, Result, ok, err, AnyError, bytes,
}
use http_relay.Types.{Bytes, Message, InsertOutcome, stored, store_full}
use http_relay.Config.{Config}
use http_relay.Headers.{Headers, Response}
use http_relay.Response.{Simple, validate_id_length, into_response, message_response}
use http_relay.Status
use http_relay.Requests.{
  Awaited, received, sender_dropped, elapsed, Progress, answers, waits, panics, content_type_of,
}
use http_relay.Repository.{Repository}
use http_relay.WaitingList.State.{
  WaitingList, Readings, SubscribeError, GetOrSubscribeResult, message, waiting,
}
use http_relay.WaitingList.Methods.{store, ack, is_acked, subscribe_ack, get_or_subscribe}

abbrev pub inbox_id : String
inbox_id = "Inbox ID"

-- The answers of `post_handler` to the result of the store.
abbrev pub store_answer : Result InsertOutcome AnyError → Result Simple Simple
store_answer (ok stored) = ok (Status.ok, [])
store_answer (ok store_full) = err (Status.service_unavailable, bytes "Server at capacity")
store_answer (err e) = err (Status.internal_server_error, bytes "Failed to store message")

abbrev pub ack_answer : Option Bool → Result Simple Simple
ack_answer (some true) = ok (Status.ok, bytes "true")
ack_answer (some false) = ok (Status.ok, bytes "false")
ack_answer none = err (Status.not_found, bytes "Not found")

abbrev pub delete_answer : Bool → Result Simple Simple
delete_answer true = ok (Status.ok, [])
delete_answer false = ok (Status.not_found, bytes "Not found")

-- What `await_handler` makes of its subscription.
abbrev pub await_subscribed : Config → Result ℕ SubscribeError → Progress (Result Simple Simple)
await_subscribed config (ok rx) = waits rx config.inbox_timeout
await_subscribed config (err SubscribeError.not_found) =
    answers (ok (Status.not_found, bytes "Not found"))
await_subscribed config (err SubscribeError.waiter_limit_reached) =
    answers (ok (Status.service_unavailable, bytes "Too many concurrent requests"))

-- The `match` of `get_handler` on what `get_or_subscribe` returned.
abbrev pub get_answer :
    (h : Headers) → Config → Result GetOrSubscribeResult SubscribeError → Progress (Response h)
get_answer h config (ok (message msg)) = answers (message_response h msg)
get_answer h config (ok (waiting rx)) = waits rx config.inbox_timeout
get_answer h config (err SubscribeError.waiter_limit_reached) =
    answers (into_response h (Status.service_unavailable, bytes "Too many concurrent requests"))
get_answer h config (err SubscribeError.not_found) = panics

module _ (config : Config) {b : Repository} (h : Headers) where
  unfoldable pub post_handler :
      WaitingList b → Readings → String → h.Map → Bytes → WaitingList b × Result Simple Simple
  post_handler wl t id headers body = elim (validate_id_length id inbox_id) [
    | err rejection ↦ (wl, err rejection)
    | ok _ ↦
        let msg : Message = record { body = body; content_type = content_type_of h headers } in
        let (wl', result) = store wl t id msg config.inbox_cache_ttl in (wl', store_answer result)
  ]

  unfoldable pub get_handler :
      WaitingList b → Readings → String → ℕ → WaitingList b × Progress (Response h)
  get_handler wl t id tx = elim (validate_id_length id inbox_id) [
    | err rejection ↦ (wl, answers (into_response h rejection))
    | ok _ ↦ let (wl', result) = get_or_subscribe wl t id tx in (wl', get_answer h config result)
  ]

-- The end of `get_handler`, after the wait.
unfoldable pub get_handler_awaited : (h : Headers) → Awaited Message → Response h
get_handler_awaited h (received msg) = message_response h msg
get_handler_awaited h sender_dropped = into_response h (Status.not_found, bytes "Entry expired")
get_handler_awaited h elapsed = into_response h (Status.request_timeout, bytes "Request timed out")

-- The end of `await_handler`, after the wait.
unfoldable pub await_handler_awaited : Awaited (Unit {0}) → Result Simple Simple
await_handler_awaited (received _) = ok (Status.ok, [])
await_handler_awaited sender_dropped = ok (Status.not_found, bytes "Not found")
await_handler_awaited elapsed = ok (Status.request_timeout, bytes "Request timed out")

module _ {b : Repository} where
  unfoldable pub delete_handler :
      WaitingList b → Readings → String → WaitingList b × Result Simple Simple
  delete_handler wl t id = elim (validate_id_length id inbox_id) [
    | err rejection ↦ (wl, err rejection)
    | ok _ ↦ let (wl', acked) = ack wl t id in (wl', delete_answer acked)
  ]

  unfoldable pub ack_handler :
      WaitingList b → Readings → String → WaitingList b × Result Simple Simple
  ack_handler wl t id = elim (validate_id_length id inbox_id) [
    | err rejection ↦ (wl, err rejection)
    | ok _ ↦ let (wl', acked) = is_acked wl t id in (wl', ack_answer acked)
  ]

  -- The locked part of `await_handler`: the first readings are those of `is_acked`.
  abbrev pub await_unless_acked :
      Config
      → Readings
      → String
      → ℕ
      → WaitingList b × Option Bool
      → WaitingList b × Progress (Result Simple Simple)
  await_unless_acked config t' id tx (wl, some true) = (wl, answers (ok (Status.ok, [])))
  await_unless_acked config t' id tx (wl, acked) =
      let (wl', result) = subscribe_ack wl t' id tx in (wl', await_subscribed config result)

  unfoldable pub await_handler :
      Config
      → WaitingList b
      → Readings
      → Readings
      → String
      → ℕ
      → WaitingList b × Progress (Result Simple Simple)
  await_handler config wl t t' id tx = elim (validate_id_length id inbox_id) [
    | err rejection ↦ (wl, answers (err rejection))
    | ok _ ↦ await_unless_acked config t' id tx (is_acked wl t id)
  ]
