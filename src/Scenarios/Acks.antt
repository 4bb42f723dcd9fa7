-- ===== src/Scenarios/Acks.antt =====
-- Acknowledging, and what a consumer gets at once.
use http_relay.Base.{
  String, ◌≡◌, refl, Bool, true, false, not, Result, ◌&&◌, [], ◌∷◌, none, some, ok, err, retain,
  str_dec,
}
use http_relay.Types.{from_secs, expiry}
use http_relay.HashMap.{get, insert, remove, remove_all, retain_mut, keys_where}
use http_relay.Waiters.{
  add_ack_waiter, add_message_waiter, remove_closed_senders, closed_senders, drop_all,
}
use http_relay.Waiters
use http_relay.Memory.{make_room}
use http_relay.Memory
use http_relay.WaitingList.State.{
  GetOrSubscribeResult, message, waiting, pruned_signals, removed_signals, new, SubscribeError,
}
use http_relay.WaitingList.Methods.{
  store, ack, is_acked, subscribe_ack, get_or_subscribe, cleanup_expired, store_and_subscribe_ack,
  subscribe_stored, notify_message_waiters, notify_ack_waiters, wait_for_ack, wait_for_message,
}
use http_relay.WaitingList.Capacity.{ensure_waiter_capacity, waiters_for, remove_closed_waiters}
use http_relay.WaitingList.History.{stores, acks, subscribes, step, run}
use http_relay.Scenarios.{
  create_test_list, make_message, from_millis, at, hears_ack, waits_for, all_pass, says, has_body,
}

abbrev gives : String → Result GetOrSubscribeResult SubscribeError → Bool
gives text (ok (message msg)) = has_body text (some msg.body)
gives text (ok (waiting rx)) = false
gives text (err e) = false

abbrev is_waiting : Result GetOrSubscribeResult SubscribeError → Bool
is_waiting (ok (waiting rx)) = true
is_waiting (ok (message msg)) = false
is_waiting (err e) = false

abbrev is_acked_false_before_ack : Bool
is_acked_false_before_ack =
    let list =
      run create_test_list (stores (at 0) "id1" (make_message "test") (from_secs 60) ∷ []) in
    says (some false) (is_acked list (at 0) "id1").1

abbrev is_acked_true_after_ack : Bool
is_acked_true_after_ack =
    let list =
      run create_test_list (stores (at 0) "id1" (make_message "test") (from_secs 60) ∷ []) in
    let (list', acked) = ack list (at 0) "id1" in
    acked && says (some true) (is_acked list' (at 0) "id1").1

abbrev ack_notifies_waiters : Bool
ack_notifies_waiters =
    let list = run create_test_list (
      stores (at 0) "id1" (make_message "test") (from_secs 60)
      ∷ subscribes (at 0) "id1" 1
      ∷ acks (at 0) "id1"
      ∷ []) in
    hears_ack list.signals 1

abbrev ack_fails_for_expired_entry : Bool
ack_fails_for_expired_entry =
    let list =
      run create_test_list (stores (at 0) "id1" (make_message "test") (from_millis 10) ∷ []) in
    let (list', acked) = ack list (at 20) "id1" in
    not acked && says none (is_acked list' (at 20) "id1").1

abbrev ack_fails_for_nonexistent_entry : Bool
ack_fails_for_nonexistent_entry =
    let (list, acked) = ack create_test_list (at 0) "nonexistent" in
    not acked && says none (is_acked list (at 0) "nonexistent").1

abbrev get_or_subscribe_returns_existing_message : Bool
get_or_subscribe_returns_existing_message =
    let list =
      run create_test_list (stores (at 0) "id1" (make_message "existing") (from_secs 60) ∷ []) in
    gives "existing" (get_or_subscribe list (at 0) "id1" 1).1

abbrev get_or_subscribe_returns_receiver_when_no_entry : Bool
get_or_subscribe_returns_receiver_when_no_entry =
    let (list, result) = get_or_subscribe create_test_list (at 0) "id1" 1 in
    is_waiting result && waits_for list "id1"

abbrev get_or_subscribe_ignores_expired_message : Bool
get_or_subscribe_ignores_expired_message =
    let list =
      run create_test_list (stores (at 0) "id1" (make_message "expired") (from_millis 10) ∷ []) in
    is_waiting (get_or_subscribe list (at 20) "id1" 1).1

-- Every test of this file passes.
passed :
    all_pass (
      is_acked_false_before_ack ∷ is_acked_true_after_ack ∷ ack_notifies_waiters
      ∷ ack_fails_for_expired_entry ∷ ack_fails_for_nonexistent_entry
      ∷ get_or_subscribe_returns_existing_message ∷ get_or_subscribe_returns_receiver_when_no_entry
      ∷ get_or_subscribe_ignores_expired_message ∷ [])
    ≡ true
unfolding store Memory.insert Memory.get Memory.new make_room get insert remove remove_all
    retain_mut keys_where str_dec new get_or_subscribe wait_for_message waiters_for
    ensure_waiter_capacity add_message_waiter retain notify_message_waiters
    Waiters.notify_message_waiters expiry step run is_acked subscribe_ack store_and_subscribe_ack
    subscribe_stored wait_for_ack add_ack_waiter ack Memory.ack notify_ack_waiters
    Waiters.notify_ack_waiters cleanup_expired Memory.cleanup_expired remove_closed_waiters
    remove_closed_senders closed_senders drop_all pruned_signals removed_signals
    Memory.delete_expired Memory.oldest_acked
passed = refl
