-- ===== src/WaitingList/Senders/Waits.antt =====
-- A call that lets its caller wait leaves the sender of the channel with the waiters, or has used it
-- already.
use http_relay.Base.{
  ℕ, String, ◌≡◌, ◌≤◌, Option, none, some, Result, ok, err, AnyError, ◌==◌, arith, Bool-cases, inl,
  inr,
}
use http_relay.Types.{Message, StoredEntry, InsertOutcome, stored, store_full}
use http_relay.Waiters.{acknowledged}
use http_relay.Repository.{Repository}
use http_relay.WaitingList.State.{
  WaitingList, Readings, SubscribeError, StoreAndSubscribeError, from, waiting, unexpired,
  available,
}
use http_relay.WaitingList.Capacity.{ensure_waiter_capacity}
use http_relay.WaitingList.Methods.{
  get_or_subscribe, hand_over, subscribe_ack, subscribe_found, store_and_subscribe_ack,
  store_and_subscribe, subscribe_stored, store,
}
use http_relay.WaitingList.Senders.{one_if, sent}
use http_relay.WaitingList.Senders.Balance.{
  balance, signals-balance, wait_for_ack-balance, wait_for_message-balance,
}

one_if-same : (tx : ℕ) → one_if (tx == tx) ≡ 1
one_if-same tx = ground arith

module _ {b : Repository} (t : Readings) (id : String) (tx : ℕ) where
  hand_over-waits :
      (rx : ℕ) (wl : WaitingList b) (m : Option Message)
      → (hand_over t id tx wl m).1 ≡ ok (waiting rx)
      → 1 ≤ balance tx (hand_over t id tx wl m).0
  hand_over-waits rx wl (some msg) q = cc
  hand_over-waits rx wl none q =
      omega (arith, wait_for_message-balance tx wl t id tx, one_if-same tx)

  pub get_or_subscribe-waits :
      (rx : ℕ) (wl : WaitingList b)
      → (get_or_subscribe wl t id tx).1 ≡ ok (waiting rx)
      → 1 ≤ balance tx (get_or_subscribe wl t id tx).0
  unfolding get_or_subscribe
  get_or_subscribe-waits rx wl q = hand_over-waits rx _ (available t.checked _) q

  subscribe_found-waits :
      (rx : ℕ) (wl : WaitingList b) (e : Option StoredEntry)
      → (subscribe_found t id tx wl e).1 ≡ ok rx
      → 1 ≤ balance tx (subscribe_found t id tx wl e).0
  unfolding sent
  subscribe_found-waits rx wl none q = cc
  subscribe_found-waits rx wl (some e) q = elim (Bool-cases e.acked) [
    | inl a ↦ rw a (omega (arith, signals-balance tx wl (acknowledged tx), one_if-same tx))
    | inr a ↦ rw a (omega (arith, wait_for_ack-balance tx wl t id tx, one_if-same tx))
  ]

  pub subscribe_ack-waits :
      (rx : ℕ) (wl : WaitingList b)
      → (subscribe_ack wl t id tx).1 ≡ ok rx
      → 1 ≤ balance tx (subscribe_ack wl t id tx).0
  unfolding subscribe_ack
  subscribe_ack-waits rx wl q = subscribe_found-waits rx _ (unexpired t.checked _) q

  subscribe_stored-waits :
      (rx : ℕ) (x : WaitingList b × Result InsertOutcome AnyError)
      → (subscribe_stored x t id tx).1 ≡ ok rx
      → 1 ≤ balance tx (subscribe_stored x t id tx).0
  unfolding subscribe_stored
  subscribe_stored-waits rx (wl, err e) q = cc
  subscribe_stored-waits rx (wl, ok store_full) q = cc
  subscribe_stored-waits rx (wl, ok stored) q =
      read (subscribe_ack wl t id tx).1 (subscribe_ack-waits rx wl) q
    where
      read :
          (r : Result ℕ SubscribeError)
          → (r ≡ ok rx → 1 ≤ balance tx (subscribe_ack wl t id tx).0)
          → elim r as (λ _. Result ℕ StoreAndSubscribeError) [ ok x ↦ ok x | err e ↦ err (from e) ]
            ≡ ok rx
          → 1 ≤ balance tx (subscribe_ack wl t id tx).0
      read (ok x) f p = f (cc)
      read (err e) f p = cc

  pub store_and_subscribe_ack-waits :
      (rx : ℕ) (wl : WaitingList b) (t' : Readings) (msg : Message) (ttl : ℕ)
      → (store_and_subscribe_ack wl t' t id msg ttl tx).1 ≡ ok rx
      → 1 ≤ balance tx (store_and_subscribe_ack wl t' t id msg ttl tx).0
  unfolding store_and_subscribe_ack
  store_and_subscribe_ack-waits rx wl t' msg ttl q = after (ensure_waiter_capacity wl t' id) q
    where
      after :
          (x : WaitingList b × Result (Unit {0}) SubscribeError)
          → (store_and_subscribe t' t id msg ttl tx x).1 ≡ ok rx
          → 1 ≤ balance tx (store_and_subscribe t' t id msg ttl tx x).0
      after (wl', err e) p = cc
      after (wl', ok _) p = subscribe_stored-waits rx (store wl' t' id msg ttl) p
