-- ===== src/Tests/Handlers.antt =====
-- The theorems on the handlers and their responses, at examples.
use http_relay.Base.{
  ◌≡◌, ◌<◌, ◌++◌, refl, [], ◌∷◌, some, ok, Result, arith, bytes, str_dec, Bool, retain,
}
use http_relay.Types.{Message, expiry}
use http_relay.HashMap.{get}
use http_relay.HashMap
use http_relay.Config.{default}
use http_relay.Status
use http_relay.Response.{message_response, Simple, validate_id_length, message_response_inert}
use http_relay.Requests.{Progress, answers, waits}
use http_relay.Repository.{mark_acked}
use http_relay.Waiters.{add_ack_waiter, acknowledged}
use http_relay.Memory
use http_relay.Memory.{make_room}
use http_relay.Memory.Contract.{memory_repository, memory_contract, memory_reliable}
use http_relay.WaitingList.State.{WaitingList}
use http_relay.WaitingList.State
use http_relay.WaitingList.Methods.{
  store, store_and_subscribe_ack, subscribe_stored, subscribe_ack, wait_for_ack,
  notify_message_waiters,
}
use http_relay.WaitingList.Capacity.{ensure_waiter_capacity, waiters_for}
use http_relay.Inbox
use http_relay.Inbox.Protocol.{exchange, sent}
use http_relay.Link
use http_relay.Link.{fetched, get_handler_fetched}
use http_relay.Link.Handoff.{handoff, late_acknowledgement, linked, e}
use http_relay.Tests.{at, hello, empty_list, text_headers}
use http_relay.Tests.Waits.{empty_list-Inv}

abbrev plain : text_headers.Map
plain = ("content-type", "text/plain") ∷ []

posted_ok :
    (Inbox.post_handler default text_headers empty_list (at 1000) "a" plain (bytes "hello")).1
    ≡ ok (Status.ok, [])
unfolding Inbox.post_handler validate_id_length store Memory.insert Memory.new make_room get
    HashMap.insert str_dec State.new
posted_ok = refl

early :
    (2000 < expiry 1000 default.inbox_cache_ttl)
    × (3000 < expiry 1000 default.inbox_cache_ttl)
    × (4000 < expiry 1000 default.inbox_cache_ttl)
unfolding expiry
early = (omega arith, omega arith, omega arith)

exchange_example :
    let posted =
      (Inbox.post_handler default text_headers empty_list (at 1000) "a" plain (bytes "hello")).0 in
    let fetched = Inbox.get_handler default text_headers posted (at 2000) "a" 7 in
    let deleted = Inbox.delete_handler fetched.0 (at 3000) "a" in
    (fetched.1
      ≡ answers (
          message_response text_headers (
            sent memory_contract 2 memory_reliable default text_headers empty_list
              (at 1000)
              "a"
              plain
              (bytes "hello"))))
    × (deleted.1 ≡ ok (Status.ok, []))
    × ((Inbox.ack_handler deleted.0 (at 4000) "a").1 ≡ ok (Status.ok, bytes "true"))
exchange_example =
    exchange memory_contract 2 memory_reliable default text_headers empty_list (at 1000) "a" plain
      (bytes "hello") (at 2000) (at 3000) (at 4000) 7 empty_list-Inv posted_ok early

abbrev waiting_five : WaitingList memory_repository × Progress (Result Simple Simple)
waiting_five =
    Inbox.await_handler default
      (Inbox.post_handler default text_headers empty_list (at 1000) "a" plain (bytes "hello")).0
      (at 2000) (at 2000) "a" 5

producer_waits :
    (linked memory_contract memory_reliable default text_headers empty_list
      (at 1000)
      (at 1000)
      "a"
      plain
      (bytes "hello")
      3
      default.link_timeout).1
    ≡ waits 3 default.link_timeout
unfolding Link.post_handler validate_id_length store store_and_subscribe_ack subscribe_stored
    subscribe_ack wait_for_ack ensure_waiter_capacity waiters_for add_ack_waiter retain
    notify_message_waiters Memory.insert Memory.get Memory.new make_room get HashMap.insert str_dec
    State.new expiry
producer_waits = refl

in_time : (2000 < expiry 1000 default.link_timeout) × (3000 < expiry 1000 default.link_timeout)
unfolding expiry
in_time = (omega arith, omega arith)

abbrev producer : WaitingList memory_repository
producer =
    (Link.post_handler text_headers default empty_list (at 1000) (at 1000) "a" plain (bytes "hello")
      3).0

handoff_example :
    let msg : Message = record { body = bytes "hello"; content_type = some "text/plain" } in
    let got = Link.get_handler text_headers default producer (at 2000) "a" 4 in
    let (after, response) = get_handler_fetched text_headers got.0 (at 3000) "a" (fetched msg) in
    (got.1 ≡ answers (fetched msg))
    × (after.signals ≡ producer.signals ++ (acknowledged 3 ∷ []))
    × (memory_contract.find after.repository "a"
        ≡ mark_acked (
            some (record {
              message_body = some (bytes "hello");
              content_type = some "text/plain";
              acked = Bool.false;
              expires_at = expiry 1000 default.link_timeout;
            })))
unfolding get State.new Memory.new str_dec
handoff_example =
    handoff memory_contract memory_reliable default text_headers empty_list (at 1000) (at 1000) "a"
      plain (bytes "hello") 3 default.link_timeout (at 2000) (at 3000) 4 empty_list-Inv.valid
      empty_list-Inv.within producer_waits in_time

late_acknowledgement_example :
    let (after, response) =
      get_handler_fetched text_headers producer (at 3000) "a" (fetched hello) in
    (after.signals ≡ producer.signals ++ (acknowledged 3 ∷ []))
    × (memory_contract.find after.repository "a"
        ≡ mark_acked (
            some (
              e memory_contract memory_reliable default text_headers empty_list
                (at 1000)
                (at 1000)
                "a"
                plain
                (bytes "hello")
                3
                default.link_timeout)))
    × (response.body ≡ hello.body)
unfolding State.new Memory.new
late_acknowledgement_example =
    late_acknowledgement memory_contract memory_reliable default text_headers empty_list (at 1000)
      (at 1000) "a" plain (bytes "hello") 3 default.link_timeout (at 3000) hello
      empty_list-Inv.valid empty_list-Inv.within producer_waits in_time.1

message_response_inert_example :
    ((message_response text_headers hello).status ≡ 200)
    × ((message_response text_headers hello).body ≡ bytes "hello")
    × (text_headers.get "content-security-policy" (message_response text_headers hello).headers
        ≡ some "sandbox")
    × (text_headers.get "x-content-type-options" (message_response text_headers hello).headers
        ≡ some "nosniff")
    × (text_headers.get "content-type" (message_response text_headers hello).headers
        ≡ some "text/plain")
message_response_inert_example = message_response_inert text_headers hello
