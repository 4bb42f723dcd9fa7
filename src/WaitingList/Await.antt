-- ===== src/WaitingList/Await.antt =====
-- What `ack` tells those who wait for it.
use mathlib.Core.List.{append_assoc, map-append}
use http_relay.Base.{
  ℕ, String, ◌≡◌, ◌<◌, refl, sym, ap, ◌∙◌, true, false, inl, inr, List, [], ◌∷◌, ◌++◌, map, Option,
  none, some, ok, Bool-cases, arith, leb, length,
}
use http_relay.Types.{StoredEntry}
use http_relay.HashMap.{get}
use http_relay.HashMap.Laws.{get-insert_self}
use http_relay.Waiters.{
  Waiters, Signal, acknowledged, add_ack_waiter, open_senders, max_waiters_per_entry,
}
use http_relay.Repository.{Repository, Contract, IsReliable}
use http_relay.WaitingList.State.{WaitingList, Readings, unexpired, or_new}
use http_relay.WaitingList.Capacity.{give_out}
use http_relay.WaitingList.Methods.{
  ack, subscribe_ack, subscribe_found, wait_for_ack, push_ack_waiter,
}
use http_relay.WaitingList.Limits.{waiters_for_cases}
use http_relay.WaitingList.Invariant.{Inv, subscribe_ack-Inv}
use http_relay.WaitingList.Ack.{unexpired-eq-some, ack_live, ack_true}
use http_relay.WaitingList.Reads.{subscribe_ack-repository}

-- The channel is the last of the ACK waiters.
abbrev IsLast : ℕ → Option Waiters → Type 0
IsLast tx w = (v : Waiters) × (w ≡ some v) × (xs : List ℕ) × (v.ack_waiters ≡ xs ++ (tx ∷ []))

module _ {b : Repository} (wl : WaitingList b) (t : Readings) (id : String) (tx rx : ℕ) where
  added-IsLast :
      (x : WaitingList b) (w : Waiters)
      → (push_ack_waiter t id tx (x, ok w)).1 ≡ ok rx
      → IsLast tx (get id (push_ack_waiter t id tx (x, ok w)).0.waiters)
  unfolding add_ack_waiter
  added-IsLast x w =
      elim (Bool-cases
        (leb max_waiters_per_entry (length (open_senders t.closed_at_add w.ack_waiters)))) [
          | inl full ↦ rw full (λ q. cc)
          | inr room ↦ rw room (λ q. (_, get-insert_self id _ x.waiters, _, refl))
        ]

  wait_for_ack-IsLast :
      (wait_for_ack wl t id tx).1 ≡ ok rx → IsLast tx (get id (wait_for_ack wl t id tx).0.waiters)
  unfolding wait_for_ack
  wait_for_ack-IsLast =
      waiters_for_cases wl t id
        (λ x.
          (push_ack_waiter t id tx x).1 ≡ ok rx
          → IsLast tx (get id (push_ack_waiter t id tx x).0.waiters))
        (λ x from room. added-IsLast (give_out id (x, ok tt)).0 (or_new (get id x.waiters)))
        (λ n full q. cc)

map-last :
    (xs : List ℕ) (tx : ℕ)
    → map acknowledged (xs ++ (tx ∷ [])) ≡ map acknowledged xs ++ (acknowledged tx ∷ [])
map-last xs tx = map-append acknowledged xs (tx ∷ [])

module _ {b : Repository} (c : Contract b) (max : ℕ) (wl : WaitingList b) (t t' : Readings)
    (id : String) (tx rx : ℕ) (e : StoredEntry) where
  abbrev waiting_state : WaitingList b
  waiting_state = (subscribe_ack wl t id tx).0

  subscribed-IsLast :
      Inv c max wl
      → c.find wl.repository id ≡ some e
      → e.acked ≡ false
      → (subscribe_ack wl t id tx).1 ≡ ok rx
      → IsLast tx (get id waiting_state.waiters)
  unfolding subscribe_ack
  subscribed-IsLast v held new = chosen (unexpired t.checked (b.get wl.repository id).1) refl
    where
      asked : WaitingList b
      asked = record wl { repository = (b.get wl.repository id).0 }

      chosen :
          (x : Option StoredEntry)
          → unexpired t.checked (b.get wl.repository id).1 ≡ x
          → (subscribe_found t id tx asked x).1 ≡ ok rx
          → IsLast tx (get id (subscribe_found t id tx asked x).0.waiters)
      chosen none found q = cc
      chosen (some x) found q =
          let same : c.find wl.repository id ≡ some x =
            sym (c.get-find wl.repository id v.valid (unexpired-eq-some t.checked _ x found).0) in
          let fresh : x.acked ≡ false = ground (arith, same, held, new) in
          rw fresh (wait_for_ack-IsLast asked t id tx rx (rw fresh at q))

  -- Who waits for the ACK of an unacknowledged entry in a valid state is told, last of all, by the
  -- next `ack` of the ID, which succeeds if it looks up the entry before it expires and the
  -- repository does not fail.
  pub subscribe_ack_told :
      IsReliable b
      → Inv c max wl
      → c.find wl.repository id ≡ some e
      → e.acked ≡ false
      → (subscribe_ack wl t id tx).1 ≡ ok rx
      → t'.checked < e.expires_at
      → ((ack waiting_state t' id).1 ≡ true)
        × (before : List Signal) × ((ack waiting_state t' id).0.signals
            ≡ before ++ (acknowledged tx ∷ []))
  subscribe_ack_told rel v held new q early =
      let (w, s, xs, last) = subscribed-IsLast v held new q in
      let (x, (found, _, _, told, _)) = ack_true c waiting_state t' id kept.valid done in
      let fresh : x.acked ≡ false = ground (arith, found, still, new) in
      (
        done,
        waiting_state.signals ++ map acknowledged xs,
        told
            ∙ rw (fresh, s, last)
                (ap (λ l. waiting_state.signals ++ l) (map-last xs tx)
                  ∙ sym (
                      append_assoc waiting_state.signals (map acknowledged xs)
                        (acknowledged tx ∷ []))),
      )
    where
      kept : Inv c max waiting_state
      kept = subscribe_ack-Inv c max wl t id v tx

      still : c.find waiting_state.repository id ≡ some e
      still =
          rw (waiting_state, subscribe_ack-repository t id tx wl)
            (c.find-get wl.repository id id v.valid ∙ held)

      done : (ack waiting_state t' id).1 ≡ true
      done = ack_live c waiting_state t' id kept.valid e rel still early
