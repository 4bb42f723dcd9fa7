-- ===== src/Scenarios/Limits.antt =====
-- The limits on waiters, and `store_and_subscribe_ack`.
use http_relay.Base.{
  ◌≡◌, refl, Bool, true, false, not, ◌&&◌, [], ◌∷◌, none, ok, err, ◌==◌, retain, str_dec,
}
use http_relay.Types.{from_secs, expiry}
use http_relay.HashMap
use http_relay.HashMap.{get, insert, remove, remove_all, retain_mut, keys_where}
use http_relay.Waiters.{
  add_ack_waiter, add_message_waiter, remove_closed_senders, closed_senders, drop_all,
}
use http_relay.Waiters
use http_relay.Memory.{make_room}
use http_relay.Memory
use http_relay.WaitingList.State.{pruned_signals, removed_signals, new, StoreAndSubscribeError}
use http_relay.WaitingList.Methods.{
  store, ack, is_acked, subscribe_ack, get_or_subscribe, cleanup_expired, store_and_subscribe_ack,
  subscribe_stored, notify_message_waiters, notify_ack_waiters, wait_for_ack, wait_for_message,
}
use http_relay.WaitingList.Capacity.{ensure_waiter_capacity, waiters_for, remove_closed_waiters}
use http_relay.WaitingList.History.{stores, subscribes, gets, step, run}
use http_relay.Scenarios.{
  create_test_list, new_in_memory, make_message, at, without, receives, waits_for, is_ok, all_pass,
  is_limited, ten_times, in_turn, first_ten, says,
}

abbrev subscribe_ack_returns_limit_error : Bool
subscribe_ack_returns_limit_error =
    let list = run create_test_list (
      stores (at 0) "id1" (make_message "test") (from_secs 60)
      ∷ ten_times (subscribes (at 0) "id1")) in
    is_limited (subscribe_ack list (at 0) "id1" 11).1

abbrev get_or_subscribe_returns_limit_error : Bool
get_or_subscribe_returns_limit_error =
    let list = run create_test_list (ten_times (gets (at 0) "id1")) in
    is_limited (get_or_subscribe list (at 0) "id1" 11).1

abbrev closed_message_waiters_do_not_count_toward_limit : Bool
closed_message_waiters_do_not_count_toward_limit =
    let list = run create_test_list (in_turn (λ t tx. gets t "id1" tx) [] first_ten) in
    is_ok (get_or_subscribe list (without first_ten 0) "id1" 11).1

abbrev closed_ack_waiters_do_not_count_toward_limit : Bool
closed_ack_waiters_do_not_count_toward_limit =
    let list = run create_test_list (
      stores (at 0) "id1" (make_message "test") (from_secs 60)
      ∷ in_turn (λ t tx. subscribes t "id1" tx) [] first_ten) in
    is_ok (subscribe_ack list (without first_ten 0) "id1" 11).1

abbrev new_id_beyond_waiting_id_limit_is_rejected : Bool
new_id_beyond_waiting_id_limit_is_rejected =
    let list = run (new_in_memory 2) (gets (at 0) "a" 1 ∷ gets (at 0) "b" 2 ∷ []) in
    let (list', result) = get_or_subscribe list (at 0) "c" 3 in
    is_limited result && not (waits_for list' "c")

abbrev existing_id_accepts_waiters_at_waiting_id_limit : Bool
existing_id_accepts_waiters_at_waiting_id_limit =
    let list = run (new_in_memory 2) (gets (at 0) "a" 1 ∷ gets (at 0) "b" 2 ∷ []) in
    is_ok (get_or_subscribe list (at 0) "a" 3).1

abbrev new_id_reuses_slot_of_disconnected_waiters : Bool
new_id_reuses_slot_of_disconnected_waiters =
    let list = run (new_in_memory 2) (gets (at 0) "a" 1 ∷ gets (at 0) "b" 2 ∷ []) in
    let (list', result) = get_or_subscribe list (without (2 ∷ []) 0) "c" 3 in
    is_ok result && not (waits_for list' "b")

abbrev full_map_is_pruned_at_most_once_per_interval : Bool
full_map_is_pruned_at_most_once_per_interval =
    let list =
      run (new_in_memory 2)
        (gets (at 0) "a" 1 ∷ gets (at 0) "b" 2 ∷ gets (without (2 ∷ []) 0) "c" 3 ∷ []) in
    let (list', result) = get_or_subscribe list (without (2 ∷ 3 ∷ []) 0) "d" 4 in
    is_limited result && waits_for list' "c"

abbrev ensure_waiter_capacity_does_not_add_id : Bool
ensure_waiter_capacity_does_not_add_id =
    let (list, result) = ensure_waiter_capacity (new_in_memory 1) (at 0) "a" in
    is_ok result && HashMap.len list.waiters == 0

abbrev store_and_subscribe_ack_at_waiting_id_limit_does_not_store : Bool
store_and_subscribe_ack_at_waiting_id_limit_does_not_store =
    let list = run (new_in_memory 1) (gets (at 0) "occupied" 1 ∷ []) in
    let (list', result) =
      store_and_subscribe_ack list (at 0) (at 0) "new" (make_message "rejected") (from_secs 60) 2 in
    says none (is_acked list' (at 0) "new").1 && (elim result [
      | ok rx ↦ false
      | err e ↦ elim e [ StoreAndSubscribeError.waiter_limit_reached ↦ true | _ ↦ false ]
    ])

abbrev store_and_subscribe_ack_when_store_full_does_not_subscribe : Bool
store_and_subscribe_ack_when_store_full_does_not_subscribe =
    let list =
      run (new_in_memory 1)
        (stores (at 0) "undelivered" (make_message "first") (from_secs 60) ∷ []) in
    let (list', result) =
      store_and_subscribe_ack list (at 0) (at 0) "new" (make_message "rejected") (from_secs 60) 1 in
    not (waits_for list' "new") && (elim result [
      | ok rx ↦ false
      | err e ↦ elim e [ StoreAndSubscribeError.store_full ↦ true | _ ↦ false ]
    ])

abbrev store_and_subscribe_ack_for_waiting_id_at_limit_succeeds : Bool
store_and_subscribe_ack_for_waiting_id_at_limit_succeeds =
    let list = run (new_in_memory 1) (gets (at 0) "id1" 1 ∷ []) in
    let (list', result) =
      store_and_subscribe_ack list (at 0) (at 0) "id1" (make_message "hello") (from_secs 60) 2 in
    is_ok result && receives list'.signals 1 "hello"

abbrev store_and_subscribe_ack_replaces_ack_waiters_at_per_id_limit : Bool
store_and_subscribe_ack_replaces_ack_waiters_at_per_id_limit =
    let list = run create_test_list (
      stores (at 0) "id1" (make_message "first") (from_secs 60)
      ∷ ten_times (subscribes (at 0) "id1")) in
    is_ok
      (store_and_subscribe_ack list (at 0) (at 0) "id1" (make_message "second") (from_secs 60) 11).1

-- Every test of this file passes.
passed :
    all_pass (
      subscribe_ack_returns_limit_error ∷ get_or_subscribe_returns_limit_error
      ∷ closed_message_waiters_do_not_count_toward_limit
      ∷ closed_ack_waiters_do_not_count_toward_limit ∷ new_id_beyond_waiting_id_limit_is_rejected
      ∷ existing_id_accepts_waiters_at_waiting_id_limit ∷ new_id_reuses_slot_of_disconnected_waiters
      ∷ full_map_is_pruned_at_most_once_per_interval ∷ ensure_waiter_capacity_does_not_add_id
      ∷ store_and_subscribe_ack_at_waiting_id_limit_does_not_store
      ∷ store_and_subscribe_ack_when_store_full_does_not_subscribe
      ∷ store_and_subscribe_ack_for_waiting_id_at_limit_succeeds
      ∷ store_and_subscribe_ack_replaces_ack_waiters_at_per_id_limit ∷ [])
    ≡ true
unfolding store Memory.insert Memory.get Memory.new make_room get insert remove remove_all
    retain_mut keys_where str_dec new get_or_subscribe wait_for_message waiters_for
    ensure_waiter_capacity add_message_waiter retain notify_message_waiters
    Waiters.notify_message_waiters expiry step run is_acked subscribe_ack store_and_subscribe_ack
    subscribe_stored wait_for_ack add_ack_waiter ack Memory.ack notify_ack_waiters
    Waiters.notify_ack_waiters cleanup_expired Memory.cleanup_expired remove_closed_waiters
    remove_closed_senders closed_senders drop_all pruned_signals removed_signals
    Memory.delete_expired Memory.oldest_acked
passed = refl
