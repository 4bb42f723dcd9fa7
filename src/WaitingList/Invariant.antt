-- ===== src/WaitingList/Invariant.antt =====
-- Every method of the waiting list keeps the waiters within their limits, and the repository valid.
use http_relay.Base.{
  ℕ, String, ◌≡◌, Bool, ◌⊎◌, inl, inr, List, Option, none, some, Result, ok, err, AnyError, subst,
  Option-cases, Bool-cases,
}
use http_relay.Types.{Message, StoredEntry, InsertOutcome, stored, expiry}
use http_relay.HashMap.{get, insert}
use http_relay.HashMap.Values.{Each-get}
use http_relay.Waiters.{Waiters, Signal, add_ack_waiter, add_message_waiter}
use http_relay.Waiters
use http_relay.Waiters.Laws.{
  IsBounded, IsGood, add_ack_waiter-IsGood, add_message_waiter-IsGood, notify_ack_waiters-IsBounded,
  notify_message_waiters-IsBounded,
}
use http_relay.Repository.{Repository, Contract}
use http_relay.WaitingList.State.{WaitingList, Readings, unexpired, available, is_store_full}
use http_relay.WaitingList.Capacity.{remove_closed_waiters, prune_due, ensure_waiter_capacity}
use http_relay.WaitingList.Methods.{
  notify_message_waiters, notify_ack_waiters, write_notified, store, ack, is_acked, wait_for_ack,
  wait_for_message, push_ack_waiter, push_message_waiter, ack_persisted, ack_found, subscribe_found,
  subscribe_ack, hand_over, get_or_subscribe, subscribe_stored, store_and_subscribe,
  store_and_subscribe_ack, cleanup_expired,
}
use http_relay.WaitingList.Limits.{
  IsLimited, HasRoom, after_prune, waiters_for_cases, ensure_cases, put_back-IsLimited,
  subscribed-IsLimited, get-IsBounded, prune-IsLimited, remove_all-IsLimited,
}

module _ {b : Repository} (c : Contract b) (max : ℕ) where
  -- The repository is valid, the waiters are within the limits, and the limit on IDs is `max`.
  pub record Inv (wl : WaitingList b) : Type 0 where
    pub valid : c.IsValid wl.repository
    pub within : IsLimited max wl.waiters
    pub limit : wl.max_waiting_ids ≡ max

  module _ (wl : WaitingList b) (v : Inv wl) where
    repository-Inv : (r : b.State) → c.IsValid r → Inv (record wl { repository = r })
    repository-Inv r valid = record { valid = valid; within = v.within; limit = v.limit }

    signals-Inv : (sigs : List Signal) → Inv (record wl { signals = sigs })
    signals-Inv sigs = record { valid = v.valid; within = v.within; limit = v.limit }

    write_notified-Inv :
        (id : String) (x : Waiters × List Signal) (w : Waiters)
        → get id wl.waiters ≡ some w
        → IsBounded x.0
        → Inv (write_notified wl id x)
    write_notified-Inv id (w', sigs) w s g = record {
      valid = v.valid;
      within = put_back-IsLimited max id wl.waiters v.within w' w s g;
      limit = v.limit;
    }

    notify_message-Inv : (id : String) (msg : Message) → Inv (notify_message_waiters wl id msg)
    unfolding notify_message_waiters
    notify_message-Inv id msg = elim (Option-cases (get id wl.waiters)) [
      | inl n ↦ rw (n, notify_message_waiters) v
      | inr (w, s) ↦
          rw (s, notify_message_waiters)
            (write_notified-Inv id (Waiters.notify_message_waiters msg w) w s
              (notify_message_waiters-IsBounded msg w))
    ]

    notify_ack-Inv : (id : String) → Inv (notify_ack_waiters wl id)
    unfolding notify_ack_waiters
    notify_ack-Inv id = elim (Option-cases (get id wl.waiters)) [
      | inl n ↦ rw (n, notify_ack_waiters) v
      | inr (w, s) ↦
          rw (s, notify_ack_waiters)
            (write_notified-Inv id (Waiters.notify_ack_waiters w) w s
              (notify_ack_waiters-IsBounded w (Each-get IsGood id wl.waiters v.within.good s).0))
    ]

    after_prune-Inv : (t : Readings) (id : String) → Inv (after_prune wl t id)
    unfolding remove_closed_waiters
    after_prune-Inv t id = elim (Bool-cases (prune_due wl t.asked)) [
      | inl e ↦ rw e (record {
        valid = v.valid;
        within = prune-IsLimited max wl.waiters v.within t.closed_at_prune;
        limit = v.limit;
      })
      | inr e ↦ rw e v
    ]

    one_of-Inv :
        (t : Readings) (id : String) (x : WaitingList b)
        → (x ≡ wl) ⊎ (x ≡ after_prune wl t id)
        → Inv x
    one_of-Inv t id x (inl e) = rw e v
    one_of-Inv t id x (inr e) = rw e (after_prune-Inv t id)

    ensure-Inv : (t : Readings) (id : String) → Inv (ensure_waiter_capacity wl t id).0
    ensure-Inv t id =
        ensure_cases wl t id (λ x. Inv x.0) (λ _. v) (λ _. after_prune-Inv t id)
          (λ _ _. after_prune-Inv t id)

  subscribed-Inv :
      (x : WaitingList b) (id : String) (sigs : List Signal) (w w' : Waiters)
      → Inv x
      → HasRoom x.max_waiting_ids id x.waiters
      → IsGood w'
      → Inv (record x { waiters = insert id w' (insert id w x.waiters); signals = sigs })
  subscribed-Inv x id sigs w w' v room g = record {
    valid = v.valid;
    within =
        subscribed-IsLimited max id x.waiters v.within w w'
          (subst (λ n. HasRoom n id x.waiters) v.limit room) g;
    limit = v.limit;
  }

  module _ (wl : WaitingList b) (v : Inv wl) (t : Readings) (id : String) (tx : ℕ) where
    wait_for_ack-Inv : Inv (wait_for_ack wl t id tx).0
    unfolding wait_for_ack
    wait_for_ack-Inv =
        waiters_for_cases wl t id (λ x. Inv (push_ack_waiter t id tx x).0)
          (λ x from room.
            let xv : Inv x = one_of-Inv wl v t id x from in
            subscribed-Inv x id _ _ _ xv room (
              add_ack_waiter-IsGood t.closed_at_add tx _
                (get-IsBounded max id x.waiters xv.within)))
          (λ n full. signals-Inv (after_prune wl t id) (after_prune-Inv wl v t id) _)

    wait_for_message-Inv : Inv (wait_for_message wl t id tx).0
    unfolding wait_for_message
    wait_for_message-Inv =
        waiters_for_cases wl t id (λ x. Inv (push_message_waiter t id tx x).0)
          (λ x from room.
            let xv : Inv x = one_of-Inv wl v t id x from in
            subscribed-Inv x id _ _ _ xv room (
              add_message_waiter-IsGood t.closed_at_add tx _
                (get-IsBounded max id x.waiters xv.within)))
          (λ n full. signals-Inv (after_prune wl t id) (after_prune-Inv wl v t id) _)

  pub store-Inv :
      (wl : WaitingList b) (t : Readings) (id : String) (msg : Message) (ttl : ℕ)
      → Inv wl
      → Inv (store wl t id msg ttl).0
  unfolding store
  store-Inv wl t id msg ttl v = elim (Bool-cases (is_store_full result)) [
    | inl e ↦ rw e stored_only
    | inr e ↦ rw e (notify_message-Inv _ stored_only id msg)
  ]
    where
      result : Result InsertOutcome AnyError
      result =
          (b.insert wl.repository t.created t.swept id msg.body msg.content_type
            (expiry t.called ttl)).1

      stored_only : Inv (record wl {
        repository =
            (b.insert wl.repository t.created t.swept id msg.body msg.content_type
              (expiry t.called ttl)).0;
      })
      stored_only = repository-Inv wl v _ (c.insert-IsValid _ _ _ _ _ _ _ v.valid)

  module _ (wl : WaitingList b) (t : Readings) (id : String) (v : Inv wl) where
    read-Inv : Inv (record wl { repository = (b.get wl.repository id).0 })
    read-Inv = repository-Inv wl v _ (c.get-IsValid wl.repository id v.valid)

    pub is_acked-Inv : Inv (is_acked wl t id).0
    unfolding is_acked
    is_acked-Inv = read-Inv

    ack_persisted-Inv :
        (x : WaitingList b) (r : Result Bool AnyError) → Inv x → Inv (ack_persisted id x r).0
    ack_persisted-Inv x (ok done) xv = notify_ack-Inv x xv id
    ack_persisted-Inv x (err e) xv = xv

    ack_found-Inv : (x : WaitingList b) (e : Option StoredEntry) → Inv x → Inv (ack_found id x e).0
    ack_found-Inv x none xv = xv
    ack_found-Inv x (some e) xv = elim (Bool-cases e.acked) [
      | inl a ↦ rw a xv
      | inr a ↦ rw a (
          ack_persisted-Inv _ (b.ack x.repository id).1
            (repository-Inv x xv _ (c.ack-IsValid x.repository id xv.valid)))
    ]

    pub ack-Inv : Inv (ack wl t id).0
    unfolding ack
    ack-Inv = ack_found-Inv _ (unexpired t.checked (b.get wl.repository id).1) read-Inv

    subscribe_found-Inv :
        (tx : ℕ) (x : WaitingList b) (e : Option StoredEntry)
        → Inv x
        → Inv (subscribe_found t id tx x e).0
    subscribe_found-Inv tx x none xv = xv
    subscribe_found-Inv tx x (some e) xv = elim (Bool-cases e.acked) [
      | inl a ↦ rw a (signals-Inv x xv _)
      | inr a ↦ rw a (wait_for_ack-Inv x xv t id tx)
    ]

    pub subscribe_ack-Inv : (tx : ℕ) → Inv (subscribe_ack wl t id tx).0
    unfolding subscribe_ack
    subscribe_ack-Inv tx =
        subscribe_found-Inv tx _ (unexpired t.checked (b.get wl.repository id).1) read-Inv

    hand_over-Inv :
        (tx : ℕ) (x : WaitingList b) (m : Option Message) → Inv x → Inv (hand_over t id tx x m).0
    hand_over-Inv tx x (some msg) xv = xv
    hand_over-Inv tx x none xv = wait_for_message-Inv x xv t id tx

    pub get_or_subscribe-Inv : (tx : ℕ) → Inv (get_or_subscribe wl t id tx).0
    unfolding get_or_subscribe
    get_or_subscribe-Inv tx =
        hand_over-Inv tx _ (available t.checked (b.get wl.repository id).1) read-Inv

  subscribe_stored-Inv :
      (x : WaitingList b × Result InsertOutcome AnyError) (t : Readings) (id : String) (tx : ℕ)
      → Inv x.0
      → Inv (subscribe_stored x t id tx).0
  unfolding subscribe_stored
  subscribe_stored-Inv (wl, ok stored) t id tx v = subscribe_ack-Inv wl t id v tx
  subscribe_stored-Inv (wl, ok InsertOutcome.store_full) t id tx v = v
  subscribe_stored-Inv (wl, err e) t id tx v = v

  pub store_and_subscribe_ack-Inv :
      (wl : WaitingList b) (t t' : Readings) (id : String) (msg : Message) (ttl tx : ℕ)
      → Inv wl
      → Inv (store_and_subscribe_ack wl t t' id msg ttl tx).0
  unfolding store_and_subscribe_ack
  store_and_subscribe_ack-Inv wl t t' id msg ttl tx v =
      ensure_cases wl t id (λ x. Inv (store_and_subscribe t t' id msg ttl tx x).0)
        (λ _. subscribe_stored-Inv _ t' id tx (store-Inv wl t id msg ttl v))
        (λ _.
          subscribe_stored-Inv _ t' id tx (store-Inv _ t id msg ttl (after_prune-Inv wl v t id)))
        (λ _ _. after_prune-Inv wl v t id)

  pub cleanup_expired-Inv :
      (wl : WaitingList b) (t : Readings) → Inv wl → Inv (cleanup_expired wl t).0
  unfolding cleanup_expired remove_closed_waiters
  cleanup_expired-Inv wl t v = record {
    valid = c.cleanup-IsValid wl.repository t.swept v.valid;
    within =
        prune-IsLimited max _ (remove_all-IsLimited max wl.waiters v.within _) t.closed_at_prune;
    limit = v.limit;
  }
