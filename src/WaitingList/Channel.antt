-- ===== src/WaitingList/Channel.antt =====
-- A call that waits does so on the channel that it created.
use http_relay.Base.{
  ℕ, String, ◌≡◌, Option, none, some, Result, ok, err, AnyError, Bool-cases, inl, inr,
}
use http_relay.Types.{Message, StoredEntry, InsertOutcome, stored, store_full}
use http_relay.Waiters.{Waiters, add_ack_waiter, add_message_waiter}
use http_relay.Repository.{Repository}
use http_relay.WaitingList.State.{
  WaitingList, Readings, SubscribeError, StoreAndSubscribeError, from, waiting, unexpired,
  available,
}
use http_relay.WaitingList.Capacity.{waiters_for, ensure_waiter_capacity}
use http_relay.WaitingList.Methods.{
  get_or_subscribe, hand_over, wait_for_message, push_message_waiter, subscribe_ack,
  subscribe_found, wait_for_ack, push_ack_waiter, store_and_subscribe_ack, store_and_subscribe,
  subscribe_stored, store,
}

module _ {b : Repository} (t : Readings) (id : String) (tx rx : ℕ) where
  push_message_waiter-channel :
      (x : WaitingList b × Result Waiters SubscribeError)
      → (push_message_waiter t id tx x).1 ≡ ok (waiting rx)
      → tx ≡ rx
  push_message_waiter-channel (wl, err e) h = cc
  push_message_waiter-channel (wl, ok w) h =
      elim (Bool-cases (add_message_waiter t.closed_at_add tx w).2) [
        | inl y ↦ cc (rw y at h)
        | inr n ↦ cc (rw n at h)
      ]

  push_ack_waiter-channel :
      (x : WaitingList b × Result Waiters SubscribeError)
      → (push_ack_waiter t id tx x).1 ≡ ok rx
      → tx ≡ rx
  push_ack_waiter-channel (wl, err e) h = cc
  push_ack_waiter-channel (wl, ok w) h = elim (Bool-cases (add_ack_waiter t.closed_at_add tx w).2) [
    | inl y ↦ cc (rw y at h)
    | inr n ↦ cc (rw n at h)
  ]

  hand_over-channel :
      (wl : WaitingList b) (m : Option Message)
      → (hand_over t id tx wl m).1 ≡ ok (waiting rx)
      → tx ≡ rx
  unfolding wait_for_message
  hand_over-channel wl (some msg) h = cc
  hand_over-channel wl none h = push_message_waiter-channel (waiters_for wl t id) h

  pub get_or_subscribe-channel :
      (wl : WaitingList b) → (get_or_subscribe wl t id tx).1 ≡ ok (waiting rx) → tx ≡ rx
  unfolding get_or_subscribe
  get_or_subscribe-channel wl h = hand_over-channel _ (available t.checked _) h

  subscribe_found-channel :
      (wl : WaitingList b) (e : Option StoredEntry)
      → (subscribe_found t id tx wl e).1 ≡ ok rx
      → tx ≡ rx
  unfolding wait_for_ack
  subscribe_found-channel wl none h = cc
  subscribe_found-channel wl (some e) h = elim (Bool-cases e.acked) [
    | inl y ↦ cc (rw y at h)
    | inr n ↦ push_ack_waiter-channel (waiters_for wl t id) (rw n at h)
  ]

  pub subscribe_ack-channel : (wl : WaitingList b) → (subscribe_ack wl t id tx).1 ≡ ok rx → tx ≡ rx
  unfolding subscribe_ack
  subscribe_ack-channel wl h = subscribe_found-channel _ (unexpired t.checked _) h

  subscribe_stored-channel :
      (x : WaitingList b × Result InsertOutcome AnyError)
      → (subscribe_stored x t id tx).1 ≡ ok rx
      → tx ≡ rx
  unfolding subscribe_stored
  subscribe_stored-channel (wl, err e) h = cc
  subscribe_stored-channel (wl, ok store_full) h = cc
  subscribe_stored-channel (wl, ok stored) h =
      read (subscribe_ack wl t id tx).1 (subscribe_ack-channel wl) h
    where
      read :
          (r : Result ℕ SubscribeError)
          → (r ≡ ok rx → tx ≡ rx)
          → elim r as (λ _. Result ℕ StoreAndSubscribeError) [ ok x ↦ ok x | err e ↦ err (from e) ]
            ≡ ok rx
          → tx ≡ rx
      read (ok x) f q = f (cc)
      read (err e) f q = cc

  pub store_and_subscribe_ack-channel :
      (wl : WaitingList b) (t' : Readings) (msg : Message) (ttl : ℕ)
      → (store_and_subscribe_ack wl t' t id msg ttl tx).1 ≡ ok rx
      → tx ≡ rx
  unfolding store_and_subscribe_ack
  store_and_subscribe_ack-channel wl t' msg ttl h = after (ensure_waiter_capacity wl t' id) h
    where
      after :
          (x : WaitingList b × Result (Unit {0}) SubscribeError)
          → (store_and_subscribe t' t id msg ttl tx x).1 ≡ ok rx
          → tx ≡ rx
      after (wl', err e) q = cc
      after (wl', ok _) q = subscribe_stored-channel (store wl' t' id msg ttl) q
