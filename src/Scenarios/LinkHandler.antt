-- ===== src/Scenarios/LinkHandler.antt =====
-- The unit tests of src/http_relay/link_handler.rs.
use http_relay.Base.{◌≡◌, refl, ℕ, Bool, true, not, ◌&&◌, [], ◌∷◌, none, some, retain, str_dec}
use http_relay.Types.{expiry}
use http_relay.Config.{Config, default}
use http_relay.HashMap.{insert, remove, remove_all, retain_mut, keys_where}
use http_relay.HashMap
use http_relay.Response.{validate_id_length, message_response}
use http_relay.Waiters.{add_ack_waiter, add_message_waiter, remove_closed_senders}
use http_relay.Waiters
use http_relay.Memory.{make_room}
use http_relay.Memory
use http_relay.WaitingList.State.{new, pruned_signals, removed_signals}
use http_relay.WaitingList.Methods.{
  store, is_acked, subscribe_ack, get_or_subscribe, notify_message_waiters, notify_ack_waiters,
  wait_for_ack, wait_for_message, store_and_subscribe_ack, subscribe_stored,
}
use http_relay.WaitingList.Methods
use http_relay.WaitingList.Capacity.{ensure_waiter_capacity, waiters_for, remove_closed_waiters}
use http_relay.WaitingList.History.{gets, step, run}
use http_relay.Inbox
use http_relay.Link
use http_relay.Scenarios.{from_millis, at, ten_times, all_pass, says}
use http_relay.Scenarios.Http.{
  create_test_server, post, get, got, link_get, link_got, link_post_as, link_posted, has_status,
  has_text, has_header, long_id, ok_id,
}

-- A default configuration with that `link_timeout`.
abbrev timing_out : ℕ → Config
timing_out timeout = record default { link_timeout = timeout }

abbrev for_one : ℕ → Config
for_one timeout = record default { max_entries = 1; link_timeout = timeout }

abbrev delayed_producer : Bool
delayed_producer =
    let (waiting, consumer) = link_get default (create_test_server default) 0 "123" 1 in
    let (posted, producer) = link_post_as [] default waiting 200 "123" "Hello, world!" 2 in
    let (list, response) = link_got posted 200 "123" consumer in
    has_status 200 response
    && has_text "Hello, world!" response
    && has_status 200 (link_posted list.signals producer)
    && says (Methods.is_acked list (at 200) "123").1 (some true)

abbrev delayed_consumer : Bool
delayed_consumer =
    let (posted, producer) =
      link_post_as [] default (create_test_server default) 0 "123" "Hello, world!" 1 in
    let (read, consumer) = link_get default posted 200 "123" 2 in
    let (list, response) = link_got read 200 "123" consumer in
    has_status 200 response
    && has_text "Hello, world!" response
    && has_status 200 (link_posted list.signals producer)
    && says (Methods.is_acked list (at 200) "123").1 (some true)

abbrev test_link_timeout : Bool
test_link_timeout =
    let config = timing_out (from_millis 50) in
    let (waiting, consumer) = link_get config (create_test_server default) 0 "timeout-test" 1 in
    let (list, response) = link_got waiting 50 "timeout-test" consumer in
    let (posted, producer) = link_post_as [] config list 50 "timeout-test2" "Hello, world!" 2 in
    has_status 408 response
    && has_text "Request timed out" response
    && has_status 408 (link_posted posted.signals producer)
    && has_text "Request timed out" (link_posted posted.signals producer)

abbrev content_type_forwarding : Bool
content_type_forwarding =
    let (waiting, consumer) = link_get default (create_test_server default) 0 "ct-test" 1 in
    let (posted, producer) =
      link_post_as (("content-type", "application/json") ∷ []) default waiting 50 "ct-test"
        "{\"key\":\"value\"}" 2 in
    let (list, response) = link_got posted 50 "ct-test" consumer in
    has_status 200 response
    && has_text "{\"key\":\"value\"}" response
    && has_header "content-type" "application/json" response

abbrev html_message_is_served_inert : Bool
html_message_is_served_inert =
    let (waiting, consumer) = link_get default (create_test_server default) 0 "html-test" 1 in
    let (posted, producer) =
      link_post_as (("content-type", "text/html") ∷ []) default waiting 50 "html-test"
        "<script>alert(1)</script>" 2 in
    let (list, response) = link_got posted 50 "html-test" consumer in
    has_status 200 response
    && has_header "content-type" "text/html" response
    && has_header "content-security-policy" "sandbox" response
    && has_header "x-content-type-options" "nosniff" response

abbrev channel_id_too_long : Bool
channel_id_too_long =
    let config = timing_out (from_millis 50) in
    let list = create_test_server default in
    let read = (link_got list 0 long_id (link_get config list 0 long_id 1).1).1 in
    let posted = link_posted [] (link_post_as [] config list 0 long_id "test" 2).1 in
    let at_limit = (link_got list 50 ok_id (link_get config list 0 ok_id 3).1).1 in
    has_status 400 read
    && has_text "Channel ID too long" read
    && has_status 400 posted
    && has_text "Channel ID too long" posted
    && not (has_status 400 at_limit)

abbrev get_waiter_limit : Bool
get_waiter_limit =
    let list = run (create_test_server default) (ten_times (gets (at 0) "get-limit")) in
    let (limited, progress) = link_get (timing_out (from_millis 100)) list 0 "get-limit" 11 in
    has_status 503 (link_got limited 0 "get-limit" progress).1

abbrev post_at_waiting_id_limit_does_not_store_message : Bool
post_at_waiting_id_limit_does_not_store_message =
    let config = for_one (from_millis 100) in
    let list = run (create_test_server config) (gets (at 0) "occupied" 1 ∷ []) in
    let (rejected, progress) = link_post_as [] config list 0 "new-channel" "rejected" 2 in
    has_status 503 (link_posted rejected.signals progress)
    && says (Methods.is_acked rejected (at 0) "new-channel").1 none

abbrev post_returns_503_when_store_is_full : Bool
post_returns_503_when_store_is_full =
    let config = for_one (from_millis 100) in
    let (posted, first) = post config (create_test_server config) 0 "occupied" "undelivered" in
    let (rejected, progress) = link_post_as [] config posted 0 "new-channel" "rejected" 1 in
    let (read, getting) = get config rejected 0 "occupied" 2 in
    has_status 200 first
    && has_status 503 (link_posted rejected.signals progress)
    && has_text "Server at capacity" (link_posted rejected.signals progress)
    && has_text "undelivered" (got read.signals getting)

abbrev deprecation_header : Bool
deprecation_header =
    let config = timing_out (from_millis 100) in
    let (waiting, consumer) = link_get config (create_test_server default) 0 "deprecation-test" 1 in
    let (posted, producer) = link_post_as [] config waiting 20 "deprecation-test" "test" 2 in
    let (list, response) = link_got posted 20 "deprecation-test" consumer in
    has_header "deprecation" "true" response
    && has_header "deprecation" "true" (link_posted list.signals producer)

-- Every test of this file passes.
passed :
    all_pass (
      delayed_producer ∷ delayed_consumer ∷ test_link_timeout ∷ content_type_forwarding
      ∷ html_message_is_served_inert ∷ channel_id_too_long ∷ get_waiter_limit
      ∷ post_at_waiting_id_limit_does_not_store_message ∷ post_returns_503_when_store_is_full
      ∷ deprecation_header ∷ [])
    ≡ true
unfolding store Memory.insert Memory.get Memory.new make_room HashMap.get insert remove remove_all
    retain_mut keys_where str_dec new get_or_subscribe wait_for_message waiters_for
    ensure_waiter_capacity add_message_waiter retain notify_message_waiters
    Waiters.notify_message_waiters expiry step run is_acked subscribe_ack wait_for_ack
    store_and_subscribe_ack subscribe_stored add_ack_waiter Methods.ack Memory.ack
    notify_ack_waiters Waiters.notify_ack_waiters remove_closed_waiters remove_closed_senders
    pruned_signals removed_signals Memory.delete_expired Memory.oldest_acked validate_id_length
    message_response Inbox.post_handler Inbox.get_handler Inbox.get_handler_awaited Link.get_handler
    Link.get_handler_fetched Link.post_handler Link.post_handler_awaited
passed = refl
