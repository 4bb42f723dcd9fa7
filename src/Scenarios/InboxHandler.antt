-- ===== src/Scenarios/InboxHandler.antt =====
-- The unit tests of src/http_relay/inbox_handler.rs.
use http_relay.Base.{◌≡◌, refl, ℕ, Bool, true, ◌&&◌, [], ◌∷◌, ◌==◌, retain, str_dec}
use http_relay.Types.{from_secs, expiry}
use http_relay.Config.{Config, default}
use http_relay.HashMap.{insert, remove, remove_all, retain_mut, keys_where}
use http_relay.HashMap
use http_relay.Response.{validate_id_length, message_response}
use http_relay.Waiters.{add_ack_waiter, add_message_waiter}
use http_relay.Waiters
use http_relay.Memory.{make_room}
use http_relay.Memory
use http_relay.WaitingList.State.{new, pruned_signals, removed_signals}
use http_relay.WaitingList.Methods.{
  store, is_acked, subscribe_ack, get_or_subscribe, notify_message_waiters, notify_ack_waiters,
  wait_for_ack, wait_for_message,
}
use http_relay.WaitingList.Methods
use http_relay.WaitingList.Capacity.{ensure_waiter_capacity, waiters_for}
use http_relay.WaitingList.History.{gets, subscribes, step, run}
use http_relay.Inbox.{
  post_handler, get_handler, get_handler_awaited, await_handler, await_handler_awaited,
  delete_handler, ack_handler,
}
use http_relay.Scenarios.{from_millis, at, entry_count, ten_times, all_pass}
use http_relay.Scenarios.Http.{
  create_test_server, post_as, post, delete, ack, get, got, wait, waited, has_status, has_text,
  has_header, long_id,
}

-- A default configuration with that `inbox_timeout`.
abbrev timing_out : ℕ → Config
timing_out timeout = record default { inbox_timeout = timeout }

abbrev holding : ℕ → Config
holding max = record default { max_entries = max }

abbrev post_and_get : Bool
post_and_get =
    let (posted, response) = post default (create_test_server default) 0 "test-123" "hello inbox" in
    let (read, progress) = get default posted 0 "test-123" 1 in
    has_status 200 response
    && has_status 200 (got read.signals progress)
    && has_text "hello inbox" (got read.signals progress)
    && entry_count read == 1

abbrev get_timeout_when_no_message : Bool
get_timeout_when_no_message =
    let (list, progress) =
      get (timing_out (from_millis 50)) (create_test_server default) 0 "nonexistent" 1 in
    has_status 408 (got list.signals progress)

abbrev get_long_poll_receives_message : Bool
get_long_poll_receives_message =
    let config = timing_out (from_secs 5) in
    let (waiting, progress) = get config (create_test_server default) 0 "long-poll-test" 1 in
    let (posted, response) = post config waiting 50 "long-poll-test" "delayed message" in
    has_status 200 (got posted.signals progress)
    && has_text "delayed message" (got posted.signals progress)
    && has_status 200 response

abbrev delete_acks_message : Bool
delete_acks_message =
    let config = timing_out (from_millis 50) in
    let (posted, _) = post config (create_test_server default) 0 "ack-test" "to be acked" in
    let (deleted, response) = delete posted 0 "ack-test" in
    let (asked, status) = ack deleted 0 "ack-test" in
    let (read, progress) = get config asked 0 "ack-test" 1 in
    has_status 200 response
    && has_text "true" status
    && has_status 408 (got read.signals progress)
    && entry_count read == 1

abbrev delete_not_found : Bool
delete_not_found =
    let (list, response) = delete (create_test_server default) 0 "nonexistent" in
    has_status 404 response

abbrev ack_status_false : Bool
ack_status_false =
    let (posted, _) = post default (create_test_server default) 0 "pending-ack" "pending" in
    let (asked, status) = ack posted 0 "pending-ack" in
    has_status 200 status && has_text "false" status

abbrev ack_status_nonexistent : Bool
ack_status_nonexistent =
    let (list, status) = ack (create_test_server default) 0 "nonexistent" in has_status 404 status

abbrev await_returns_when_acked : Bool
await_returns_when_acked =
    let (posted, _) = post default (create_test_server default) 0 "await-test" "await test" in
    let (waiting, progress) = wait default posted 0 "await-test" 1 in
    let (deleted, response) = delete waiting 50 "await-test" in
    has_status 200 (waited deleted.signals progress) && has_status 200 response

abbrev await_already_acked : Bool
await_already_acked =
    let (posted, _) = post default (create_test_server default) 0 "pre-acked" "pre-acked" in
    let (deleted, _) = delete posted 0 "pre-acked" in
    let (list, progress) = wait default deleted 0 "pre-acked" 1 in
    has_status 200 (waited list.signals progress)

abbrev await_timeout : Bool
await_timeout =
    let config = timing_out (from_millis 50) in
    let (posted, _) = post config (create_test_server default) 0 "timeout-test" "timeout test" in
    let (list, progress) = wait config posted 0 "timeout-test" 1 in
    has_status 408 (waited list.signals progress)

abbrev await_not_found : Bool
await_not_found =
    let (list, progress) = wait default (create_test_server default) 0 "nonexistent" 1 in
    has_status 404 (waited list.signals progress)

abbrev await_not_triggered_by_get : Bool
await_not_triggered_by_get =
    let config = timing_out (from_millis 300) in
    let (posted, response) =
      post config (create_test_server default) 0 "get-doesnt-ack" "test message" in
    let (waiting, awaiting) = wait config posted 0 "get-doesnt-ack" 1 in
    let (read, getting) = get config waiting 50 "get-doesnt-ack" 2 in
    let (deleted, acked) = delete read 100 "get-doesnt-ack" in
    has_status 200 response
    && has_status 200 (got read.signals getting)
    && has_text "test message" (got read.signals getting)
    && has_status 200 acked
    && has_status 200 (waited deleted.signals awaiting)

abbrev content_type_preserved : Bool
content_type_preserved =
    let (posted, _) =
      post_as (("content-type", "application/json") ∷ []) default (create_test_server default) 0
        "ct-test" "{\"key\":\"value\"}" in
    let (read, progress) = get default posted 0 "ct-test" 1 in
    has_status 200 (got read.signals progress)
    && has_header "content-type" "application/json" (got read.signals progress)

abbrev html_message_is_served_inert : Bool
html_message_is_served_inert =
    let (posted, _) =
      post_as (("content-type", "text/html") ∷ []) default (create_test_server default) 0
        "html-test" "<script>alert(1)</script>" in
    let (read, progress) = get default posted 0 "html-test" 1 in
    has_status 200 (got read.signals progress)
    && has_header "content-type" "text/html" (got read.signals progress)
    && has_header "content-security-policy" "sandbox" (got read.signals progress)
    && has_header "x-content-type-options" "nosniff" (got read.signals progress)

abbrev post_overwrites_previous : Bool
post_overwrites_previous =
    let (first, _) = post default (create_test_server default) 0 "overwrite" "first" in
    let (second, _) = post default first 0 "overwrite" "second" in
    let (read, progress) = get default second 0 "overwrite" 1 in
    has_text "second" (got read.signals progress)

abbrev post_returns_503_when_store_is_full : Bool
post_returns_503_when_store_is_full =
    let (posted, first) =
      post (holding 1) (create_test_server (holding 1)) 0 "first" "undelivered" in
    let (rejected, second) = post (holding 1) posted 0 "second" "rejected" in
    let (read, progress) = get (holding 1) rejected 0 "first" 1 in
    has_status 200 first
    && has_status 503 second
    && has_text "Server at capacity" second
    && has_status 200 (got read.signals progress)
    && has_text "undelivered" (got read.signals progress)

abbrev post_succeeds_when_full_store_has_acked_entry : Bool
post_succeeds_when_full_store_has_acked_entry =
    let (posted, _) = post (holding 1) (create_test_server (holding 1)) 0 "first" "delivered" in
    let (deleted, _) = delete posted 0 "first" in
    let (accepted, response) = post (holding 1) deleted 0 "second" "accepted" in
    let (read, progress) = get (holding 1) accepted 0 "second" 1 in
    has_status 200 response && has_text "accepted" (got read.signals progress)

abbrev inbox_id_too_long : Bool
inbox_id_too_long =
    let list = create_test_server default in
    let posted = (post default list 0 long_id "test").1 in
    has_status 400 posted
    && has_text "Inbox ID too long" posted
    && has_status 400 (got [] (get default list 0 long_id 1).1)
    && has_status 400 (delete list 0 long_id).1
    && has_status 400 (ack list 0 long_id).1
    && has_status 400 (waited [] (wait default list 0 long_id 1).1)

abbrev get_waiter_limit : Bool
get_waiter_limit =
    let list = run (create_test_server default) (ten_times (gets (at 0) "waiter-limit")) in
    let (limited, progress) = get (timing_out (from_millis 100)) list 0 "waiter-limit" 11 in
    has_status 503 (got limited.signals progress)

abbrev await_waiter_limit : Bool
await_waiter_limit =
    let config = timing_out (from_millis 100) in
    let (posted, _) = post config (create_test_server default) 0 "await-limit" "limit test" in
    let list = run posted (ten_times (subscribes (at 0) "await-limit")) in
    let (limited, progress) = wait config list 0 "await-limit" 11 in
    has_status 503 (waited limited.signals progress)

abbrev message_expires : Bool
message_expires =
    let config = record default {
      inbox_cache_ttl = from_millis 50;
      inbox_timeout = from_millis 50;
    } in
    let (posted, _) = post config (create_test_server default) 0 "expire-test" "ephemeral" in
    let (read, before) = get config posted 0 "expire-test" 1 in
    let (list, after) = get config read 60 "expire-test" 2 in
    has_status 200 (got read.signals before) && has_status 408 (got list.signals after)

-- Every test of this file passes.
passed :
    all_pass (
      post_and_get ∷ get_timeout_when_no_message ∷ get_long_poll_receives_message
      ∷ delete_acks_message ∷ delete_not_found ∷ ack_status_false ∷ ack_status_nonexistent
      ∷ await_returns_when_acked ∷ await_already_acked ∷ await_timeout ∷ await_not_found
      ∷ await_not_triggered_by_get ∷ content_type_preserved ∷ html_message_is_served_inert
      ∷ post_overwrites_previous ∷ post_returns_503_when_store_is_full
      ∷ post_succeeds_when_full_store_has_acked_entry ∷ inbox_id_too_long ∷ get_waiter_limit
      ∷ await_waiter_limit ∷ message_expires ∷ [])
    ≡ true
unfolding store Memory.insert Memory.get Memory.new make_room HashMap.get insert remove remove_all
    retain_mut keys_where str_dec new get_or_subscribe wait_for_message waiters_for
    ensure_waiter_capacity add_message_waiter retain notify_message_waiters
    Waiters.notify_message_waiters expiry step run is_acked subscribe_ack wait_for_ack
    add_ack_waiter Methods.ack Memory.ack notify_ack_waiters Waiters.notify_ack_waiters
    pruned_signals removed_signals Memory.delete_expired Memory.oldest_acked validate_id_length
    message_response post_handler get_handler get_handler_awaited await_handler
    await_handler_awaited delete_handler ack_handler
passed = refl
