-- ===== src/WaitingList/Subscribe.antt =====
-- What the subscriptions answer, and what a rejected producer leaves behind.
use http_relay.Base.{
  ℕ, String, ◌≡◌, ◌≢◌, ◌<◌, ◌≤◌, refl, Bool, true, false, inl, inr, Option, none, some, Result, ok,
  err, AnyError, Option-cases, Bool-cases, if◌then◌else◌, arith, lt→ltb, retain,
}
use http_relay.Types.{Message, StoredEntry, InsertOutcome, stored}
use http_relay.HashMap.{HashMap, get, len}
use http_relay.HashMap.Laws.{len-remove-lt, get-remove_self}
use http_relay.Waiters.{Waiters, Signal, add_ack_waiter}
use http_relay.Waiters
use http_relay.Repository.{Repository}
use http_relay.WaitingList.State.{
  WaitingList, Readings, SubscribeError, StoreAndSubscribeError, GetOrSubscribeResult, from,
  waiting, unexpired, available, or_new,
}
use http_relay.WaitingList.Capacity.{ensure_waiter_capacity, waiters_for}
use http_relay.WaitingList.Methods.{
  store, get_or_subscribe, hand_over, wait_for_message, push_message_waiter, subscribe_ack,
  subscribe_found, wait_for_ack, store_and_subscribe_ack, store_and_subscribe, subscribe_stored,
}
use http_relay.WaitingList.Store.{served, store-waiters}
use http_relay.WaitingList.Limits.{
  IsWithin, HasRoom, after_prune, after_prune-IsWithin, after_prune-repository, waiters_for_cases,
  ensure_cases,
}

module _ {b : Repository} (wl : WaitingList b) (t : Readings) (id : String) (tx : ℕ) where
  wait_for_message-ne-not_found : (wait_for_message wl t id tx).1 ≢ err SubscribeError.not_found
  unfolding wait_for_message
  wait_for_message-ne-not_found =
      waiters_for_cases wl t id
        (λ x. (push_message_waiter t id tx x).1 ≢ err SubscribeError.not_found)
        (λ x from room.
          limit_only (Waiters.add_message_waiter t.closed_at_add tx (or_new (get id x.waiters))).2)
        (λ n full e. cc)
    where
      limit_only :
          (added : Bool)
          → ◌≢◌ {A = Result GetOrSubscribeResult SubscribeError}
              (if added then ok (waiting tx) else err SubscribeError.waiter_limit_reached)
              (err SubscribeError.not_found)
      limit_only true e = cc
      limit_only false e = cc

  pub ensure_roomy :
      len wl.waiters < wl.max_waiting_ids → ensure_waiter_capacity wl t id ≡ (wl, ok tt)
  unfolding ensure_waiter_capacity
  ensure_roomy h = elim (Option-cases (get id wl.waiters)) [
    | inl n ↦ rw (n, lt→ltb _ _ h)
    | inr (w, s) ↦ rw s
  ]

  -- A new ID with a free slot gets its ACK waiter.
  wait_for_ack_roomy :
      len wl.waiters < wl.max_waiting_ids
      → get id wl.waiters ≡ none
      → (wait_for_ack wl t id tx).1 ≡ ok tx
  unfolding wait_for_ack waiters_for add_ack_waiter retain
  wait_for_ack_roomy h n = rw (ensure_roomy h, waiters_for, wait_for_ack) (rw n refl)

hand_over-ne-not_found :
    {b : Repository} (t : Readings) (id : String) (tx : ℕ) (x : WaitingList b) (m : Option Message)
    → (hand_over t id tx x m).1 ≢ err SubscribeError.not_found
hand_over-ne-not_found t id tx x (some msg) = λ e. cc
hand_over-ne-not_found t id tx x none = wait_for_message-ne-not_found x t id tx

-- `get_or_subscribe` never answers `NotFound`: the `unreachable!()` of the GET handlers is not
-- reached.
pub get_or_subscribe-ne-not_found :
    {b : Repository} (wl : WaitingList b) (t : Readings) (id : String) (tx : ℕ)
    → (get_or_subscribe wl t id tx).1 ≢ err SubscribeError.not_found
unfolding get_or_subscribe
get_or_subscribe-ne-not_found {b} wl t id tx =
    hand_over-ne-not_found t id tx _ (available t.checked (b.get wl.repository id).1)

pub served-lt :
    (max : ℕ) (id : String) (m : HashMap Waiters)
    → len m ≤ max
    → HasRoom max id m
    → len (served id m) < max
served-lt max id m h room = elim (Option-cases (get id m)) [
  | inl n ↦ rw (n, served) (elim room [ inl (w, s) ↦ cc | inr small ↦ small ])
  | inr (w, s) ↦ rw (s, served) (omega (arith, len-remove-lt id m s))
]

pub get-served : (id : String) (m : HashMap Waiters) → get id (served id m) ≡ none
get-served id m = elim (Option-cases (get id m)) [
  | inl n ↦ rw (n, served) n
  | inr (w, s) ↦ rw (s, served) (get-remove_self id m)
]

module _ {b : Repository} (t : Readings) (id : String) (tx : ℕ) where
  abbrev pub HasFreeSlot : WaitingList b → Type 0
  HasFreeSlot s = (len s.waiters < s.max_waiting_ids) × (get id s.waiters ≡ none)

  subscribe_found_roomy :
      (s : WaitingList b) (e : Option StoredEntry)
      → HasFreeSlot s
      → (subscribe_found t id tx s e).1 ≢ err SubscribeError.waiter_limit_reached
  subscribe_found_roomy s none h = λ q. cc
  subscribe_found_roomy s (some e) (small, new) = elim (Bool-cases e.acked) [
    | inl a ↦ rw a (λ q. cc)
    | inr a ↦ rw a (λ q. cc (wait_for_ack_roomy s t id tx small new))
  ]

  subscribe_stored_roomy :
      (y : WaitingList b × Result InsertOutcome AnyError)
      → (y.1 ≡ ok stored → HasFreeSlot y.0)
      → (subscribe_stored y t id tx).1 ≢ err StoreAndSubscribeError.waiter_limit_reached
  unfolding subscribe_stored subscribe_ack
  subscribe_stored_roomy (s, ok stored) h =
      from_limit _
        (subscribe_found_roomy _ (unexpired t.checked (b.get s.repository id).1) (h refl))
    where
      from_limit :
          (r : Result ℕ SubscribeError)
          → r ≢ err SubscribeError.waiter_limit_reached
          → ◌≢◌ {A = Result ℕ StoreAndSubscribeError}
              (elim r [ ok rx ↦ ok rx | err e ↦ err (from e) ])
              (err StoreAndSubscribeError.waiter_limit_reached)
      from_limit (ok rx) n q = cc
      from_limit (err SubscribeError.waiter_limit_reached) n q = n refl
      from_limit (err SubscribeError.not_found) n q = cc
  subscribe_stored_roomy (s, ok InsertOutcome.store_full) h = λ q. cc
  subscribe_stored_roomy (s, err e) h = λ q. cc

module _ {b : Repository} (t t' : Readings) (id : String) (msg : Message) (ttl tx : ℕ) where
  -- Once the check for room passed, the store leaves a free slot for the producer.
  pub store-leaves-room :
      (x : WaitingList b)
      → IsWithin x
      → HasRoom x.max_waiting_ids id x.waiters
      → (store x t id msg ttl).1 ≡ ok stored
      → (len (store x t id msg ttl).0.waiters < (store x t id msg ttl).0.max_waiting_ids)
        × (get id (store x t id msg ttl).0.waiters ≡ none)
  store-leaves-room x v room s =
      let (waiters, max) = store-waiters x t id msg ttl (rw s refl) in
      (
        rw (waiters, max) (served-lt x.max_waiting_ids id x.waiters v.limited room),
        rw waiters (get-served id x.waiters),
      )

  pub subscribe_stored-ne-limit :
      (x : WaitingList b)
      → IsWithin x
      → HasRoom x.max_waiting_ids id x.waiters
      → (subscribe_stored (store x t id msg ttl) t' id tx).1
        ≢ err StoreAndSubscribeError.waiter_limit_reached
  subscribe_stored-ne-limit x v room =
      subscribe_stored_roomy t' id tx (store x t id msg ttl) (store-leaves-room x v room)

  -- If the waiters are within their limits, a producer that is turned away with
  -- `WaiterLimitReached` has stored nothing: the repository is the one that it found, so the
  -- producer can send its message again.
  pub store_and_subscribe_ack_limit :
      (wl : WaitingList b)
      → IsWithin wl
      → (store_and_subscribe_ack wl t t' id msg ttl tx).1
        ≡ err StoreAndSubscribeError.waiter_limit_reached
      → (store_and_subscribe_ack wl t t' id msg ttl tx).0.repository ≡ wl.repository
  unfolding store_and_subscribe_ack
  store_and_subscribe_ack_limit wl v =
      ensure_cases wl t id
        (λ x.
          (store_and_subscribe t t' id msg ttl tx x).1
            ≡ err StoreAndSubscribeError.waiter_limit_reached
          → (store_and_subscribe t t' id msg ttl tx x).0.repository ≡ wl.repository)
        (λ room e. absurd (subscribe_stored-ne-limit wl v room e))
        (λ room e.
          absurd (
            subscribe_stored-ne-limit (after_prune wl t id) (after_prune-IsWithin wl t id v) room
              e))
        (λ n full e. after_prune-repository wl t id)
