-- ===== src/WaitingList/Methods.antt =====
-- The public methods of the `WaitingList` of src/http_relay/waiting_list.rs.
use http_relay.Base.{
  ℕ, String, Bool, true, false, List, [], ◌∷◌, ◌++◌, Option, none, some, Result, ok, err, AnyError,
  if◌then◌else◌, length,
}
use http_relay.Types.{Message, StoredEntry, InsertOutcome, stored, expiry}
use http_relay.HashMap.{HashMap}
use http_relay.HashMap
use http_relay.Waiters.{Waiters, Signal, acknowledged, dropped}
use http_relay.Waiters
use http_relay.Repository.{Repository}
use http_relay.WaitingList.State.{
  WaitingList, Readings, SubscribeError, StoreAndSubscribeError, storage, from,
  GetOrSubscribeResult, message, waiting, unexpired, available, is_store_full, put_back,
  removed_signals, or_none,
}
use http_relay.WaitingList.Capacity.{
  remove_closed_waiters, ensure_waiter_capacity, waiters_for, write_waiters,
}

module _ {b : Repository} where
  -- The waiters of the ID after a notification, written back or removed, and its signals.
  abbrev pub write_notified : WaitingList b → String → Waiters × List Signal → WaitingList b
  write_notified wl id (w, signals) = record wl {
    waiters = put_back id w wl.waiters;
    signals = wl.signals ++ signals;
  }

  unfoldable pub notify_message_waiters : WaitingList b → String → Message → WaitingList b
  notify_message_waiters wl id msg = elim (HashMap.get id wl.waiters) [
    | none ↦ wl
    | some w ↦ write_notified wl id (Waiters.notify_message_waiters msg w)
  ]

  unfoldable pub store :
      WaitingList b
      → Readings
      → String
      → Message
      → ℕ
      → WaitingList b × Result InsertOutcome AnyError
  store wl t id msg ttl =
      let (repository, result) =
        b.insert wl.repository t.created t.swept id msg.body msg.content_type
          (expiry t.called ttl) in
      let wl' = record wl { repository = repository } in
      (if is_store_full result then wl' else notify_message_waiters wl' id msg, result)

  unfoldable pub notify_ack_waiters : WaitingList b → String → WaitingList b
  notify_ack_waiters wl id = elim (HashMap.get id wl.waiters) [
    | none ↦ wl
    | some w ↦ write_notified wl id (Waiters.notify_ack_waiters w)
  ]

  -- The end of `ack`, where the waiters are told if the ACK was persisted.
  abbrev pub ack_persisted : String → WaitingList b → Result Bool AnyError → WaitingList b × Bool
  ack_persisted id wl (ok _) = (notify_ack_waiters wl id, true)
  ack_persisted id wl (err e) = (wl, false)

  -- `ack` once the entry is looked up.
  abbrev pub ack_found : String → WaitingList b → Option StoredEntry → WaitingList b × Bool
  ack_found id wl none = (wl, false)
  ack_found id wl (some entry) =
      if entry.acked
      then (wl, true)
      else (let (repository, result) = b.ack wl.repository id in
          ack_persisted id (record wl { repository = repository }) result)

  unfoldable pub ack : WaitingList b → Readings → String → WaitingList b × Bool
  ack wl t id =
      let (repository, got) = b.get wl.repository id in
      ack_found id (record wl { repository = repository }) (unexpired t.checked got)

  unfoldable pub is_acked : WaitingList b → Readings → String → WaitingList b × Option Bool
  is_acked wl t id =
      let (repository, got) = b.get wl.repository id in
      (
        record wl { repository = repository },
        elim (unexpired t.checked got) [ none ↦ none | some entry ↦ some entry.acked ],
      )

  -- `add_ack_waiter` on the waiters given out. A sender that finds no room is dropped.
  abbrev pub push_ack_waiter :
      Readings
      → String
      → ℕ
      → WaitingList b × Result Waiters SubscribeError
      → WaitingList b × Result ℕ SubscribeError
  push_ack_waiter t id tx (wl, err e) =
      (record wl { signals = wl.signals ++ (dropped tx ∷ []) }, err e)
  push_ack_waiter t id tx (wl, ok w) =
      let added = Waiters.add_ack_waiter t.closed_at_add tx w in
      (
        write_waiters wl id added,
        if added.2 then ok tx else err SubscribeError.waiter_limit_reached,
      )

  unfoldable pub wait_for_ack :
      WaitingList b → Readings → String → ℕ → WaitingList b × Result ℕ SubscribeError
  wait_for_ack wl t id tx = push_ack_waiter t id tx (waiters_for wl t id)

  -- `subscribe_ack` once the entry is looked up.
  abbrev pub subscribe_found :
      Readings
      → String
      → ℕ
      → WaitingList b
      → Option StoredEntry
      → WaitingList b × Result ℕ SubscribeError
  subscribe_found t id tx wl none = (wl, err SubscribeError.not_found)
  subscribe_found t id tx wl (some entry) =
      if entry.acked
      then (record wl { signals = wl.signals ++ (acknowledged tx ∷ []) }, ok tx)
      else wait_for_ack wl t id tx

  unfoldable pub subscribe_ack :
      WaitingList b → Readings → String → ℕ → WaitingList b × Result ℕ SubscribeError
  subscribe_ack wl t id tx =
      let (repository, got) = b.get wl.repository id in
      subscribe_found t id tx (record wl { repository = repository }) (unexpired t.checked got)

  -- The first readings are those of `ensure_waiter_capacity` and `store`, the others those of
  -- `subscribe_ack`. The channel is created after the store only.
  unfoldable pub subscribe_stored :
      WaitingList b × Result InsertOutcome AnyError
      → Readings
      → String
      → ℕ
      → WaitingList b × Result ℕ StoreAndSubscribeError
  subscribe_stored (wl, ok stored) t id tx =
      let (wl', result) = subscribe_ack wl t id tx in
      (wl', elim result [ ok rx ↦ ok rx | err e ↦ err (from e) ])
  subscribe_stored (wl, ok InsertOutcome.store_full) t id tx =
      (wl, err StoreAndSubscribeError.store_full)
  subscribe_stored (wl, err e) t id tx = (wl, err (storage e))

  -- The rest of `store_and_subscribe_ack` after the check for room.
  abbrev pub store_and_subscribe :
      Readings
      → Readings
      → String
      → Message
      → ℕ
      → ℕ
      → WaitingList b × Result (Unit {0}) SubscribeError
      → WaitingList b × Result ℕ StoreAndSubscribeError
  store_and_subscribe t t' id msg ttl tx (wl, err e) = (wl, err (from e))
  store_and_subscribe t t' id msg ttl tx (wl, ok _) =
      subscribe_stored (store wl t id msg ttl) t' id tx

  unfoldable pub store_and_subscribe_ack :
      WaitingList b
      → Readings
      → Readings
      → String
      → Message
      → ℕ
      → ℕ
      → WaitingList b × Result ℕ StoreAndSubscribeError
  store_and_subscribe_ack wl t t' id msg ttl tx =
      store_and_subscribe t t' id msg ttl tx (ensure_waiter_capacity wl t id)

  -- `add_message_waiter` on the waiters given out. A sender that finds no room is dropped.
  abbrev pub push_message_waiter :
      Readings
      → String
      → ℕ
      → WaitingList b × Result Waiters SubscribeError
      → WaitingList b × Result GetOrSubscribeResult SubscribeError
  push_message_waiter t id tx (wl, err e) =
      (record wl { signals = wl.signals ++ (dropped tx ∷ []) }, err e)
  push_message_waiter t id tx (wl, ok w) =
      let added = Waiters.add_message_waiter t.closed_at_add tx w in
      (
        write_waiters wl id added,
        if added.2 then ok (waiting tx) else err SubscribeError.waiter_limit_reached,
      )

  unfoldable pub wait_for_message :
      WaitingList b
      → Readings
      → String
      → ℕ
      → WaitingList b × Result GetOrSubscribeResult SubscribeError
  wait_for_message wl t id tx = push_message_waiter t id tx (waiters_for wl t id)

  -- `get_or_subscribe` once the message is looked up.
  abbrev pub hand_over :
      Readings
      → String
      → ℕ
      → WaitingList b
      → Option Message
      → WaitingList b × Result GetOrSubscribeResult SubscribeError
  hand_over t id tx wl (some msg) = (wl, ok (message msg))
  hand_over t id tx wl none = wait_for_message wl t id tx

  unfoldable pub get_or_subscribe :
      WaitingList b
      → Readings
      → String
      → ℕ
      → WaitingList b × Result GetOrSubscribeResult SubscribeError
  get_or_subscribe wl t id tx =
      let (repository, got) = b.get wl.repository id in
      hand_over t id tx (record wl { repository = repository }) (available t.checked got)

  unfoldable pub cleanup_expired : WaitingList b → Readings → WaitingList b × ℕ
  cleanup_expired wl t =
      let (repository, result) = b.cleanup_expired wl.repository t.swept in
      let expired_ids = or_none result in
      (
        remove_closed_waiters
            (record wl {
              repository = repository;
              waiters = HashMap.remove_all expired_ids wl.waiters;
              signals = wl.signals ++ removed_signals expired_ids wl.waiters;
            })
            t.closed_at_prune,
        length expired_ids,
      )
