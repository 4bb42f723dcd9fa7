-- ===== src/WaitingList/Senders/Calls.antt =====
-- What each method does with senders: it takes at most the one that it is given, and loses none.
use http_relay.Base.{
  ℕ, String, ◌≡◌, refl, Bool, Option, none, some, Result, ok, err, AnyError, arith, Bool-cases, inl,
  inr,
}
use http_relay.Types.{Message, StoredEntry, InsertOutcome, stored, expiry}
use http_relay.HashMap.{IsDistinct}
use http_relay.Waiters.{acknowledged}
use http_relay.Repository.{Repository}
use http_relay.WaitingList.State.{
  WaitingList, Readings, or_none, unexpired, available, is_store_full, removed_signals,
}
use http_relay.WaitingList.Methods.{
  store, ack, ack_found, ack_persisted, is_acked, subscribe_found, subscribe_ack, subscribe_stored,
  store_and_subscribe, store_and_subscribe_ack, hand_over, get_or_subscribe, cleanup_expired,
}
use http_relay.WaitingList.Limits.{after_prune, ensure_cases}
use http_relay.WaitingList.Senders.{sent, sent-append}
use http_relay.WaitingList.Senders.Held.{held-remove_all}
use http_relay.WaitingList.Senders.Balance.{
  balance, Adds, signals-balance, notify_message-balance, notify_ack-balance, remove_closed-balance,
  after_prune-balance, wait_for_ack-balance, wait_for_message-balance,
}

module _ {b : Repository} (tx : ℕ) where
  module _ (wl : WaitingList b) (t : Readings) (id : String) (own : ℕ) where
    subscribe_found-Adds :
        (e : Option StoredEntry) → Adds tx own wl (subscribe_found t id own wl e).0
    unfolding sent
    subscribe_found-Adds none = (omega arith, omega arith)
    subscribe_found-Adds (some e) = elim (Bool-cases e.acked) [
      | inl a ↦ rw a (
        omega (arith, signals-balance tx wl (acknowledged own)),
        omega (arith, signals-balance tx wl (acknowledged own)),
      )
      | inr a ↦ rw a (
        omega (arith, wait_for_ack-balance tx wl t id own),
        omega (arith, wait_for_ack-balance tx wl t id own),
      )
    ]

    hand_over-Adds : (m : Option Message) → Adds tx own wl (hand_over t id own wl m).0
    hand_over-Adds (some msg) = (omega arith, omega arith)
    hand_over-Adds none = (
      omega (arith, wait_for_message-balance tx wl t id own),
      omega (arith, wait_for_message-balance tx wl t id own),
    )

  module _ (wl : WaitingList b) (t : Readings) (id : String) where
    pub subscribe_ack-Adds : (own : ℕ) → Adds tx own wl (subscribe_ack wl t id own).0
    unfolding subscribe_ack
    subscribe_ack-Adds own =
        subscribe_found-Adds (record wl { repository = (b.get wl.repository id).0 }) t id own
          (unexpired t.checked (b.get wl.repository id).1)

    pub get_or_subscribe-Adds : (own : ℕ) → Adds tx own wl (get_or_subscribe wl t id own).0
    unfolding get_or_subscribe
    get_or_subscribe-Adds own =
        hand_over-Adds (record wl { repository = (b.get wl.repository id).0 }) t id own
          (available t.checked (b.get wl.repository id).1)

    pub is_acked-balance : balance tx (is_acked wl t id).0 ≡ balance tx wl
    unfolding is_acked
    is_acked-balance = refl

    persisted-balance :
        (x : WaitingList b) (r : Result Bool AnyError)
        → IsDistinct x.waiters
        → balance tx (ack_persisted id x r).0 ≡ balance tx x
    persisted-balance x (ok done) d = notify_ack-balance tx x id d
    persisted-balance x (err e) d = refl

    ack_found-balance :
        (x : WaitingList b) (e : Option StoredEntry)
        → IsDistinct x.waiters
        → balance tx (ack_found id x e).0 ≡ balance tx x
    ack_found-balance x none d = refl
    ack_found-balance x (some e) d = elim (Bool-cases e.acked) [
      | inl a ↦ rw a refl
      | inr a ↦ rw a (
          persisted-balance (record x { repository = (b.ack x.repository id).0 })
            (b.ack x.repository id).1 d)
    ]

    pub ack-balance : IsDistinct wl.waiters → balance tx (ack wl t id).0 ≡ balance tx wl
    unfolding ack
    ack-balance d =
        ack_found-balance (record wl { repository = (b.get wl.repository id).0 })
          (unexpired t.checked (b.get wl.repository id).1) d

  pub store-balance :
      (wl : WaitingList b) (t : Readings) (id : String) (msg : Message) (ttl : ℕ)
      → IsDistinct wl.waiters
      → balance tx (store wl t id msg ttl).0 ≡ balance tx wl
  unfolding store
  store-balance wl t id msg ttl d = elim (Bool-cases (is_store_full inserted.1)) [
    | inl e ↦ rw e refl
    | inr e ↦ rw e (notify_message-balance tx (record wl { repository = inserted.0 }) id msg d)
  ]
    where
      inserted : b.State × Result InsertOutcome AnyError
      inserted =
          b.insert wl.repository t.created t.swept id msg.body msg.content_type
            (expiry t.called ttl)

  pub cleanup_expired-balance :
      (wl : WaitingList b) (t : Readings)
      → IsDistinct wl.waiters
      → balance tx (cleanup_expired wl t).0 ≡ balance tx wl
  unfolding cleanup_expired
  cleanup_expired-balance wl t d =
      let ids = or_none (b.cleanup_expired wl.repository t.swept).1 in
      omega (
        arith,
        remove_closed-balance tx _ t.closed_at_prune,
        held-remove_all tx ids wl.waiters d,
        sent-append tx wl.signals (removed_signals ids wl.waiters),
      )

  subscribe_stored-Adds :
      (y : WaitingList b × Result InsertOutcome AnyError) (t : Readings) (id : String) (own : ℕ)
      → Adds tx own y.0 (subscribe_stored y t id own).0
  unfolding subscribe_stored
  subscribe_stored-Adds (s, ok stored) t id own = subscribe_ack-Adds s t id own
  subscribe_stored-Adds (s, ok InsertOutcome.store_full) t id own = (omega arith, omega arith)
  subscribe_stored-Adds (s, err e) t id own = (omega arith, omega arith)

  pub store_and_subscribe_ack-Adds :
      (wl : WaitingList b) (t t' : Readings) (id : String) (msg : Message) (ttl own : ℕ)
      → IsDistinct wl.waiters
      → IsDistinct (after_prune wl t id).waiters
      → Adds tx own wl (store_and_subscribe_ack wl t t' id msg ttl own).0
  unfolding store_and_subscribe_ack
  store_and_subscribe_ack-Adds wl t t' id msg ttl own d d' =
      ensure_cases wl t id (λ x. Adds tx own wl (store_and_subscribe t t' id msg ttl own x).0)
        (λ room. sent_on wl d refl)
        (λ room. sent_on (after_prune wl t id) d' (after_prune-balance tx wl t id))
        (λ n full. (
          omega (arith, after_prune-balance tx wl t id),
          omega (arith, after_prune-balance tx wl t id),
        ))
    where
      sent_on :
          (x : WaitingList b)
          → IsDistinct x.waiters
          → balance tx x ≡ balance tx wl
          → Adds tx own wl (subscribe_stored (store x t id msg ttl) t' id own).0
      sent_on x dx same =
          let (low, high) = subscribe_stored-Adds (store x t id msg ttl) t' id own in
          (
            omega (arith, low, store-balance x t id msg ttl dx, same),
            omega (arith, high, store-balance x t id msg ttl dx, same),
          )
