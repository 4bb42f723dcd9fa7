-- ===== src/WaitingList/Traced/Subscribe.antt =====
-- The subscriptions keep the waiting list traced.
use http_relay.Base.{
  ℕ, String, ◌≡◌, ◌++◌, refl, sym, subst, Bool, not, inl, inr, ◌⊎◌, List, [], ◌∷◌, Option, none,
  some, All, All-append, All-retain, Bool-cases, leb, length, retain,
}
use http_relay.Types.{Message, StoredEntry}
use http_relay.HashMap.{get, insert}
use http_relay.HashMap.Keyed.{Keyed-insert}
use http_relay.Waiters.{
  Waiters, Signal, dropped, closed_drops, open_senders, add_ack_waiter, add_message_waiter,
  max_waiters_per_entry,
}
use http_relay.Repository.{Repository, Contract}
use http_relay.WaitingList.State.{WaitingList, Readings, unexpired, available, or_new}
use http_relay.WaitingList.Methods.{
  wait_for_ack, wait_for_message, push_ack_waiter, push_message_waiter, subscribe_found,
  subscribe_ack, hand_over, get_or_subscribe,
}
use http_relay.WaitingList.Limits.{after_prune, waiters_for_cases}
use http_relay.WaitingList.Ack.{unexpired-eq-some}
use http_relay.WaitingList.Traced.{
  Facts, IsExplained, IsNamed, IsGenuine, IsTraced, drops-IsExplained, or_new-IsNamed,
  signals-IsTraced, waiters-IsTraced, read-IsTraced, after_prune-IsTraced,
}

module _ (f : Facts) (closed : ℕ → Bool) (id : String) (tx : ℕ) (w : Waiters)
    (n : IsNamed f id w) where
  gone : (txs : List ℕ) → All (IsExplained f) (closed_drops closed txs)
  gone txs = drops-IsExplained f (retain closed txs)

  refused : (txs : List ℕ) → All (IsExplained f) (closed_drops closed txs ++ (dropped tx ∷ []))
  refused txs = All-append (IsExplained f) (closed_drops closed txs) _ (gone txs) (tt, tt)

  live_acks : All (f.Awaited id) (open_senders closed w.ack_waiters)
  live_acks = All-retain (f.Awaited id) (λ x. not (closed x)) w.ack_waiters n.0

  live_messages : All (f.Asked id) (open_senders closed w.message_waiters)
  live_messages = All-retain (f.Asked id) (λ x. not (closed x)) w.message_waiters n.1

  pub add_ack_waiter-IsNamed :
      f.Awaited id tx
      → IsNamed f id (add_ack_waiter closed tx w).0
        × All (IsExplained f) (add_ack_waiter closed tx w).1
  unfolding add_ack_waiter
  add_ack_waiter-IsNamed a =
      elim (Bool-cases (leb max_waiters_per_entry (length (open_senders closed w.ack_waiters)))) [
        | inl e ↦ rw e ((live_acks, n.1), refused w.ack_waiters)
        | inr e ↦ rw e (
          (All-append (f.Awaited id) (open_senders closed w.ack_waiters) _ live_acks (a, tt), n.1),
          gone w.ack_waiters,
        )
      ]

  pub add_message_waiter-IsNamed :
      f.Asked id tx
      → IsNamed f id (add_message_waiter closed tx w).0
        × All (IsExplained f) (add_message_waiter closed tx w).1
  unfolding add_message_waiter
  add_message_waiter-IsNamed a =
      elim (Bool-cases
        (leb max_waiters_per_entry (length (open_senders closed w.message_waiters)))) [
          | inl e ↦ rw e ((n.0, live_messages), refused w.message_waiters)
          | inr e ↦ rw e (
            (
              n.0,
              All-append (f.Asked id) (open_senders closed w.message_waiters) _ live_messages
                  (a, tt),
            ),
            gone w.message_waiters,
          )
        ]

module _ (f : Facts) {b : Repository} (c : Contract b) where
  one_of-IsTraced :
      (wl : WaitingList b) (t : Readings) (id : String) (x : WaitingList b)
      → IsTraced f c wl
      → (x ≡ wl) ⊎ (x ≡ after_prune wl t id)
      → IsTraced f c x
  one_of-IsTraced wl t id x v (inl e) = rw e v
  one_of-IsTraced wl t id x v (inr e) = rw e (after_prune-IsTraced f c wl v t id)

  -- The waiters of the ID are written twice: as given out, and with the new waiter.
  added-IsTraced :
      (x : WaitingList b) (id : String) (w : Waiters) (sigs : List Signal)
      → IsTraced f c x
      → IsNamed f id w × All (IsExplained f) sigs
      → IsTraced f c (record x {
        waiters = insert id w (insert id (or_new (get id x.waiters)) x.waiters);
        signals = x.signals ++ sigs;
      })
  added-IsTraced x id w sigs v (n, h) =
      waiters-IsTraced f c x v _ sigs
        (Keyed-insert (IsNamed f) id w _ n
          (Keyed-insert (IsNamed f) id _ x.waiters (or_new-IsNamed f id x.waiters v.named) v.named))
        h

  module _ (wl : WaitingList b) (t : Readings) (id : String) (tx : ℕ) (v : IsTraced f c wl) where
    wait_for_ack-IsTraced : f.Awaited id tx → IsTraced f c (wait_for_ack wl t id tx).0
    unfolding wait_for_ack
    wait_for_ack-IsTraced a =
        waiters_for_cases wl t id (λ x. IsTraced f c (push_ack_waiter t id tx x).0)
          (λ x from room.
            let xv : IsTraced f c x = one_of-IsTraced wl t id x v from in
            added-IsTraced x id _ _ xv (
              add_ack_waiter-IsNamed f t.closed_at_add id tx _
                (or_new-IsNamed f id x.waiters xv.named) a))
          (λ n full.
            signals-IsTraced f c (after_prune wl t id) (after_prune-IsTraced f c wl v t id) _
              (tt, tt))

    wait_for_message-IsTraced : f.Asked id tx → IsTraced f c (wait_for_message wl t id tx).0
    unfolding wait_for_message
    wait_for_message-IsTraced a =
        waiters_for_cases wl t id (λ x. IsTraced f c (push_message_waiter t id tx x).0)
          (λ x from room.
            let xv : IsTraced f c x = one_of-IsTraced wl t id x v from in
            added-IsTraced x id _ _ xv (
              add_message_waiter-IsNamed f t.closed_at_add id tx _
                (or_new-IsNamed f id x.waiters xv.named) a))
          (λ n full.
            signals-IsTraced f c (after_prune wl t id) (after_prune-IsTraced f c wl v t id) _
              (tt, tt))

  module _ (wl : WaitingList b) (t : Readings) (id : String) (v : IsTraced f c wl) where
    abbrev asked : WaitingList b
    asked = record wl { repository = (b.get wl.repository id).0 }

    -- What is read from the repository is what it holds.
    pub found-IsGenuine :
        (e : StoredEntry)
        → unexpired t.checked (b.get wl.repository id).1 ≡ some e
        → IsGenuine f id (some e)
    found-IsGenuine e s =
        subst (IsGenuine f id)
          (sym (c.get-find wl.repository id v.valid (unexpired-eq-some t.checked _ e s).0))
          (v.genuine id)

    pub subscribe_ack-IsTraced :
        (tx : ℕ) → f.Awaited id tx → IsTraced f c (subscribe_ack wl t id tx).0
    unfolding subscribe_ack
    subscribe_ack-IsTraced tx a = chosen (unexpired t.checked (b.get wl.repository id).1) refl
      where
        chosen :
            (x : Option StoredEntry)
            → unexpired t.checked (b.get wl.repository id).1 ≡ x
            → IsTraced f c (subscribe_found t id tx asked x).0
        chosen none found = read-IsTraced f c wl v id
        chosen (some e) found = elim (Bool-cases e.acked) [
          | inl y ↦ rw y (
              signals-IsTraced f c asked (read-IsTraced f c wl v id) _
                ((id, a, (found-IsGenuine e found).0 y), tt))
          | inr y ↦ rw y (wait_for_ack-IsTraced asked t id tx (read-IsTraced f c wl v id) a)
        ]

    pub get_or_subscribe-IsTraced :
        (tx : ℕ) → f.Asked id tx → IsTraced f c (get_or_subscribe wl t id tx).0
    unfolding get_or_subscribe
    get_or_subscribe-IsTraced tx a = chosen (available t.checked (b.get wl.repository id).1)
      where
        chosen : (x : Option Message) → IsTraced f c (hand_over t id tx asked x).0
        chosen (some msg) = read-IsTraced f c wl v id
        chosen none = wait_for_message-IsTraced asked t id tx (read-IsTraced f c wl v id) a
