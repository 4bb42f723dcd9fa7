-- ===== src/Link.antt =====
-- The handlers of src/http_relay/link_handler.rs.
pub mod Handoff
use http_relay.Base.{ℕ, String, Bool, List, [], Option, Result, ok, err, bytes}
use http_relay.Types.{Bytes, Message}
use http_relay.Config.{Config}
use http_relay.Headers.{Headers, Response}
use http_relay.Response.{Simple, validate_id_length, into_response, message_response}
use http_relay.Status
use http_relay.Requests.{
  Awaited, received, sender_dropped, elapsed, Progress, answers, waits, panics, content_type_of,
}
use http_relay.Repository.{Repository}
use http_relay.WaitingList.State.{
  WaitingList, Readings, SubscribeError, StoreAndSubscribeError, storage, GetOrSubscribeResult,
  message, waiting,
}
use http_relay.WaitingList.Methods.{ack, get_or_subscribe, store_and_subscribe_ack}

abbrev pub channel_id : String
channel_id = "Channel ID"

-- `get_handler` goes on with a message, or it answers.
pub data Fetched (h : Headers) : Type 0 where
  fetched : Message → Fetched h
  refused : Response h → Fetched h

module _ (h : Headers) where
  -- `response.headers_mut().insert("Deprecation", "true")`; the names of headers are in lower case.
  abbrev pub deprecated : Response h → Response h
  deprecated r = record r { headers = h.insert "deprecation" (h.from_static "true") r.headers }

  -- The `match` of `get_handler` on what `get_or_subscribe` returned.
  abbrev pub get_fetched :
      Config → Result GetOrSubscribeResult SubscribeError → Progress (Fetched h)
  get_fetched config (ok (message msg)) = answers (fetched msg)
  get_fetched config (ok (waiting rx)) = waits rx config.link_timeout
  get_fetched config (err SubscribeError.waiter_limit_reached) =
      answers (
        refused
          (into_response h (Status.service_unavailable, bytes "Too many concurrent requests")))
  get_fetched config (err SubscribeError.not_found) = panics

  -- `get_handler` up to the wait.
  unfoldable pub get_handler :
      Config
      → {b : Repository} → WaitingList b
      → Readings
      → String
      → ℕ
      → WaitingList b × Progress (Fetched h)
  get_handler config wl t id tx = elim (validate_id_length id channel_id) [
    | err rejection ↦ (wl, answers (refused (into_response h rejection)))
    | ok _ ↦ let (wl', result) = get_or_subscribe wl t id tx in (wl', get_fetched config result)
  ]

  abbrev pub awaited_message : Awaited Message → Fetched h
  awaited_message (received msg) = fetched msg
  awaited_message sender_dropped =
      refused (into_response h (Status.not_found, bytes "Entry expired"))
  awaited_message elapsed =
      refused (into_response h (Status.request_timeout, bytes "Request timed out"))

  -- The end of `get_handler`: with a message it takes the lock again, acknowledges whatever the ID
  -- then holds, and ignores whether that succeeded.
  unfoldable pub get_handler_fetched :
      {b : Repository} → WaitingList b → Readings → String → Fetched h → WaitingList b × Response h
  get_handler_fetched wl t id (refused r) = (wl, r)
  get_handler_fetched wl t id (fetched msg) = ((ack wl t id).0, deprecated (message_response h msg))

  abbrev pub post_subscribed : Config → Result ℕ StoreAndSubscribeError → Progress (Response h)
  post_subscribed config (ok rx) = waits rx config.link_timeout
  post_subscribed config (err StoreAndSubscribeError.waiter_limit_reached) =
      answers (into_response h (Status.service_unavailable, bytes "Too many concurrent requests"))
  post_subscribed config (err StoreAndSubscribeError.store_full) =
      answers (into_response h (Status.service_unavailable, bytes "Server at capacity"))
  post_subscribed config (err StoreAndSubscribeError.not_found) =
      answers (into_response h (Status.not_found, bytes "Entry expired"))
  post_subscribed config (err (storage e)) =
      answers (into_response h (Status.internal_server_error, bytes "Failed to store message"))

  -- `post_handler` up to the wait.
  unfoldable pub post_handler :
      Config
      → {b : Repository} → WaitingList b
      → Readings
      → Readings
      → String
      → h.Map
      → Bytes
      → ℕ
      → WaitingList b × Progress (Response h)
  post_handler config wl t t' id headers body tx = elim (validate_id_length id channel_id) [
    | err rejection ↦ (wl, answers (into_response h rejection))
    | ok _ ↦
        let msg : Message = record { body = body; content_type = content_type_of h headers } in
        let (wl', result) = store_and_subscribe_ack wl t t' id msg config.link_timeout tx in
        (wl', post_subscribed config result)
  ]

  abbrev pub awaited_ack : Awaited (Unit {0}) → Simple
  awaited_ack (received _) = (Status.ok, [])
  awaited_ack sender_dropped = (Status.not_found, bytes "Entry expired")
  awaited_ack elapsed = (Status.request_timeout, bytes "Request timed out")

  -- The end of `post_handler`, after the wait.
  unfoldable pub post_handler_awaited : Awaited (Unit {0}) → Response h
  post_handler_awaited outcome = deprecated (into_response h (awaited_ack outcome))
