-- ===== src/WaitingList/History.antt =====
-- Histories of calls on a waiting list, and what holds after each of them.
use http_relay.Base.{ℕ, String, ◌+◌, ◌*◌, ◌≤◌, refl, List, [], ◌∷◌, length, arith}
use http_relay.Types.{Message}
use http_relay.HashMap.{HashMap, len}
use http_relay.HashMap.Values.{Each}
use http_relay.Waiters.{Waiters, max_waiters_per_entry}
use http_relay.Waiters.Laws.{IsGood}
use http_relay.Repository.{Repository, Contract}
use http_relay.WaitingList.State.{WaitingList, Readings, new}
use http_relay.WaitingList.Methods.{
  store, ack, is_acked, subscribe_ack, store_and_subscribe_ack, get_or_subscribe, cleanup_expired,
}
use http_relay.WaitingList.Limits.{IsLimited}
use http_relay.WaitingList.Invariant.{
  Inv, store-Inv, ack-Inv, is_acked-Inv, subscribe_ack-Inv, store_and_subscribe_ack-Inv,
  get_or_subscribe-Inv, cleanup_expired-Inv,
}

-- A call with its arguments and readings; a number is the channel that the call creates.
pub data Call : Type 0 where
  stores : Readings → String → Message → ℕ → Call
  acks : Readings → String → Call
  asks : Readings → String → Call
  subscribes : Readings → String → ℕ → Call
  links : Readings → Readings → String → Message → ℕ → ℕ → Call
  gets : Readings → String → ℕ → Call
  cleans : Readings → Call

module _ {b : Repository} where
  unfoldable pub step : WaitingList b → Call → WaitingList b
  step wl (stores t id msg ttl) = (store wl t id msg ttl).0
  step wl (acks t id) = (ack wl t id).0
  step wl (asks t id) = (is_acked wl t id).0
  step wl (subscribes t id tx) = (subscribe_ack wl t id tx).0
  step wl (links t t' id msg ttl tx) = (store_and_subscribe_ack wl t t' id msg ttl tx).0
  step wl (gets t id tx) = (get_or_subscribe wl t id tx).0
  step wl (cleans t) = (cleanup_expired wl t).0

  unfoldable pub run : WaitingList b → List Call → WaitingList b
  run wl [] = wl
  run wl (call ∷ calls) = run (step wl call) calls

-- The number of senders that a map holds.
unfoldable pub senders : HashMap Waiters → ℕ
senders [] = 0
senders ((id, w) ∷ m) = length w.ack_waiters + length w.message_waiters + senders m

senders-le : (m : HashMap Waiters) → Each IsGood m → senders m ≤ 2 * max_waiters_per_entry * len m
unfolding senders
senders-le [] g = omega arith
senders-le ((id, w) ∷ m) g = omega (arith, senders-le m g.1)

module _ {b : Repository} (c : Contract b) (max : ℕ) where
  pub step-Inv : (wl : WaitingList b) (call : Call) → Inv c max wl → Inv c max (step wl call)
  unfolding step
  step-Inv wl (stores t id msg ttl) v = store-Inv c max wl t id msg ttl v
  step-Inv wl (acks t id) v = ack-Inv c max wl t id v
  step-Inv wl (asks t id) v = is_acked-Inv c max wl t id v
  step-Inv wl (subscribes t id tx) v = subscribe_ack-Inv c max wl t id v tx
  step-Inv wl (links t t' id msg ttl tx) v =
      store_and_subscribe_ack-Inv c max wl t t' id msg ttl tx v
  step-Inv wl (gets t id tx) v = get_or_subscribe-Inv c max wl t id v tx
  step-Inv wl (cleans t) v = cleanup_expired-Inv c max wl t v

  pub run-Inv : (wl : WaitingList b) (calls : List Call) → Inv c max wl → Inv c max (run wl calls)
  unfolding run
  run-Inv wl [] v = v
  run-Inv wl (call ∷ calls) v = run-Inv (step wl call) calls (step-Inv wl call v)

module _ {b : Repository} (c : Contract b) (r : b.State) (valid : c.IsValid r) where
  pub new-Inv : Inv c (b.max_entries r) (new b r)
  unfolding new
  new-Inv = record {
    valid = valid;
    within = record { distinct = tt; limited = omega arith; good = tt };
    limit = refl;
  }

  -- After any history of calls on a new waiting list over a valid repository, at most
  -- `max_entries` IDs have waiters, each at least one and at most ten of each kind, and at most
  -- twenty times `max_entries` senders are held in all.
  pub run_bounded :
      (calls : List Call)
      → IsLimited (b.max_entries r) (run (new b r) calls).waiters
        × (senders (run (new b r) calls).waiters ≤ 2 * max_waiters_per_entry * b.max_entries r)
  run_bounded calls =
      let v : Inv c (b.max_entries r) (run (new b r) calls) =
        run-Inv c (b.max_entries r) (new b r) calls new-Inv in
      (
        v.within,
        omega (arith, senders-le (run (new b r) calls).waiters v.within.good, v.within.limited),
      )
