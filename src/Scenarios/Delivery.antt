-- ===== src/Scenarios/Delivery.antt =====
-- Cleaning up, and messages that are replaced.
use http_relay.Base.{◌≡◌, refl, Bool, true, not, ◌&&◌, [], ◌∷◌, ◌==◌, retain, str_dec}
use http_relay.Types.{from_secs, expiry}
use http_relay.HashMap.{get, insert, remove, remove_all, retain_mut, keys_where}
use http_relay.Waiters.{
  add_ack_waiter, add_message_waiter, remove_closed_senders, closed_senders, drop_all,
}
use http_relay.Waiters
use http_relay.Memory.{make_room}
use http_relay.Memory
use http_relay.WaitingList.State.{pruned_signals, removed_signals, new, is_store_full}
use http_relay.WaitingList.Methods.{
  store, ack, is_acked, subscribe_ack, get_or_subscribe, cleanup_expired, notify_message_waiters,
  notify_ack_waiters, wait_for_ack, wait_for_message,
}
use http_relay.WaitingList.Capacity.{ensure_waiter_capacity, waiters_for, remove_closed_waiters}
use http_relay.WaitingList.History.{stores, subscribes, gets, cleans, step, run}
use http_relay.Scenarios.{
  create_test_list, new_in_memory, make_message, from_millis, at, without, entry_count, receives,
  is_dropped, waits_for, all_pass,
}

abbrev cleanup_expired_removes_expired_entries : Bool
cleanup_expired_removes_expired_entries =
    let list = run create_test_list (
      stores (at 0) "expires-soon" (make_message "a") (from_millis 10)
      ∷ stores (at 0) "stays-alive" (make_message "b") (from_secs 60)
      ∷ []) in
    let (list', removed) = cleanup_expired list (at 20) in
    entry_count list == 2 && removed == 1 && entry_count list' == 1

abbrev cleanup_expired_returns_zero_when_nothing_expired : Bool
cleanup_expired_returns_zero_when_nothing_expired =
    let list = run create_test_list (
      stores (at 0) "a" (make_message "a") (from_secs 60)
      ∷ stores (at 0) "b" (make_message "b") (from_secs 60)
      ∷ []) in
    let (list', removed) = cleanup_expired list (at 0) in removed == 0 && entry_count list' == 2

abbrev store_notifies_message_waiters_on_overwrite : Bool
store_notifies_message_waiters_on_overwrite =
    let list =
      run create_test_list (
        gets (at 0) "id1" 1 ∷ stores (at 0) "id1" (make_message "overwrite") (from_secs 60) ∷ []) in
    receives list.signals 1 "overwrite"

abbrev store_drops_ack_waiters_on_overwrite : Bool
store_drops_ack_waiters_on_overwrite =
    let list = run create_test_list (
      stores (at 0) "id1" (make_message "first") (from_secs 60)
      ∷ subscribes (at 0) "id1" 1
      ∷ stores (at 0) "id1" (make_message "second") (from_secs 60)
      ∷ []) in
    is_dropped list.signals 1

abbrev store_when_full_rejects_message_and_does_not_notify_waiters : Bool
store_when_full_rejects_message_and_does_not_notify_waiters =
    let list = run (new_in_memory 1) (
      stores (at 0) "undelivered" (make_message "first") (from_secs 60)
      ∷ gets (at 0) "waiting" 1
      ∷ []) in
    let (list', outcome) = store list (at 0) "waiting" (make_message "second") (from_secs 60) in
    is_store_full outcome && not (receives list'.signals 1 "second") && waits_for list' "waiting"

abbrev get_or_subscribe_receiver_gets_message_when_stored : Bool
get_or_subscribe_receiver_gets_message_when_stored =
    let list =
      run create_test_list
        (gets (at 0) "id1" 1 ∷ stores (at 0) "id1" (make_message "arrived") (from_secs 60) ∷ []) in
    receives list.signals 1 "arrived"

abbrev cleanup_does_not_remove_waiters_without_entry : Bool
cleanup_does_not_remove_waiters_without_entry =
    let list = run create_test_list (
      gets (at 0) "consumer-first" 1
      ∷ cleans (at 0)
      ∷ stores (at 0) "consumer-first" (make_message "delayed") (from_secs 60)
      ∷ []) in
    receives list.signals 1 "delayed"

abbrev cleanup_removes_waiters_for_expired_entries : Bool
cleanup_removes_waiters_for_expired_entries =
    let list = run create_test_list (
      stores (at 0) "will-expire" (make_message "test") (from_millis 10)
      ∷ subscribes (at 0) "will-expire" 1
      ∷ cleans (at 20)
      ∷ []) in
    is_dropped list.signals 1

abbrev cleanup_removes_closed_senders : Bool
cleanup_removes_closed_senders =
    let list = run create_test_list (gets (at 0) "dropped-receiver" 1 ∷ []) in
    let list' = run list (cleans (without (1 ∷ []) 0) ∷ []) in
    waits_for list "dropped-receiver" && not (waits_for list' "dropped-receiver")

-- Every test of this file passes.
passed :
    all_pass (
      cleanup_expired_removes_expired_entries ∷ cleanup_expired_returns_zero_when_nothing_expired
      ∷ store_notifies_message_waiters_on_overwrite ∷ store_drops_ack_waiters_on_overwrite
      ∷ store_when_full_rejects_message_and_does_not_notify_waiters
      ∷ get_or_subscribe_receiver_gets_message_when_stored
      ∷ cleanup_does_not_remove_waiters_without_entry ∷ cleanup_removes_waiters_for_expired_entries
      ∷ cleanup_removes_closed_senders ∷ [])
    ≡ true
unfolding store Memory.insert Memory.get Memory.new make_room get insert remove remove_all
    retain_mut keys_where str_dec new get_or_subscribe wait_for_message waiters_for
    ensure_waiter_capacity add_message_waiter retain notify_message_waiters
    Waiters.notify_message_waiters expiry step run is_acked subscribe_ack wait_for_ack
    add_ack_waiter ack Memory.ack notify_ack_waiters Waiters.notify_ack_waiters cleanup_expired
    Memory.cleanup_expired remove_closed_waiters remove_closed_senders closed_senders drop_all
    pruned_signals removed_signals Memory.delete_expired Memory.oldest_acked
passed = refl
