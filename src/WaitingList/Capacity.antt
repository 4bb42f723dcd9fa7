-- ===== src/WaitingList/Capacity.antt =====
-- The limit on the number of waiting IDs: `remove_closed_waiters`, `ensure_waiter_capacity` and
-- `waiters_for` of src/http_relay/waiting_list.rs.
use http_relay.Base.{
  ℕ, String, ◌-◌, Bool, true, not, ◌||◌, List, ◌++◌, none, some, Result, ok, err, ltb, leb,
  if◌then◌else◌,
}
use http_relay.HashMap.{HashMap}
use http_relay.HashMap
use http_relay.Waiters.{Waiters, Signal}
use http_relay.Waiters
use http_relay.Repository.{Repository}
use http_relay.WaitingList.State.{
  WaitingList, Readings, SubscribeError, pruned_signals, full_map_prune_interval, or_new,
}

module _ {b : Repository} where
  unfoldable pub remove_closed_waiters : WaitingList b → (ℕ → Bool) → WaitingList b
  remove_closed_waiters wl closed = record wl {
    waiters =
        HashMap.retain_mut (Waiters.remove_closed_senders closed) (λ w. not (Waiters.is_empty w))
          wl.waiters;
    signals = wl.signals ++ pruned_signals closed wl.waiters;
  }

  -- `elapsed` is the time since the last prune, 0 if the clock is behind it.
  abbrev pub prune_due : WaitingList b → ℕ → Bool
  prune_due wl now = elim wl.last_full_map_prune [
    | none ↦ true
    | some last ↦ leb full_map_prune_interval (now - last)
  ]

  unfoldable pub ensure_waiter_capacity :
      WaitingList b → Readings → String → WaitingList b × Result (Unit {0}) SubscribeError
  ensure_waiter_capacity wl t id =
      if HashMap.contains_key id wl.waiters || ltb (HashMap.len wl.waiters) wl.max_waiting_ids
      then (wl, ok tt)
      else (let wl' =
            if prune_due wl t.asked
            then record (remove_closed_waiters wl t.closed_at_prune) {
              last_full_map_prune = some t.pruned;
            }
            else wl in
          (
            wl',
            if ltb (HashMap.len wl'.waiters) wl'.max_waiting_ids
                then ok tt
                else err SubscribeError.waiter_limit_reached,
          ))

  -- The waiters of the ID, which then stand in the map, once there is room for it.
  abbrev pub give_out :
      String
      → WaitingList b × Result (Unit {0}) SubscribeError
      → WaitingList b × Result Waiters SubscribeError
  give_out id (wl, err e) = (wl, err e)
  give_out id (wl, ok _) =
      let w = or_new (HashMap.get id wl.waiters) in
      (record wl { waiters = HashMap.insert id w wl.waiters }, ok w)

  unfoldable pub waiters_for :
      WaitingList b → Readings → String → WaitingList b × Result Waiters SubscribeError
  waiters_for wl t id = give_out id (ensure_waiter_capacity wl t id)

  -- The waiters of the ID after a method on the `&mut Waiters` that `waiters_for` gave out.
  abbrev pub write_waiters : WaitingList b → String → Waiters × List Signal × Bool → WaitingList b
  write_waiters wl id (w, signals, added) = record wl {
    waiters = HashMap.insert id w wl.waiters;
    signals = wl.signals ++ signals;
  }
