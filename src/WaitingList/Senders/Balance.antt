-- ===== src/WaitingList/Senders/Balance.antt =====
-- What the methods are built of does with senders: each is held, used or dropped as often as before,
-- and a new one once.
use http_relay.Base.{
  ℕ, String, ◌≡◌, ◌≤◌, ◌+◌, refl, ap, ◌∙◌, Bool, List, [], ◌∷◌, ◌++◌, some, ◌==◌, arith,
  Option-cases, Bool-cases, ◌⊎◌, inl, inr,
}
use http_relay.Types.{Message}
use http_relay.HashMap.{IsDistinct, get, insert}
use http_relay.HashMap.Laws.{insert-insert}
use http_relay.Waiters.{Waiters, Signal, dropped}
use http_relay.Repository.{Repository}
use http_relay.WaitingList.State.{WaitingList, Readings, put_back, or_new}
use http_relay.WaitingList.Capacity.{remove_closed_waiters, prune_due}
use http_relay.WaitingList.Methods.{
  notify_message_waiters, notify_ack_waiters, wait_for_ack, wait_for_message, push_ack_waiter,
  push_message_waiter,
}
use http_relay.WaitingList.Limits.{after_prune, waiters_for_cases}
use http_relay.WaitingList.Senders.{
  one_if, within, held, sent, sent-append, add_ack_waiter-within, add_message_waiter-within,
  notify_message_waiters-within, notify_ack_waiters-within,
}
use http_relay.WaitingList.Senders.Held.{held-insert, held-put_back, held-prune}

module _ {b : Repository} (tx : ℕ) where
  -- How often the sender is held, or was used or dropped.
  abbrev pub balance : WaitingList b → ℕ
  balance wl = held tx wl.waiters + sent tx wl.signals

  -- At most the own sender is taken, and none is lost.
  abbrev pub Adds : ℕ → WaitingList b → WaitingList b → Type 0
  Adds own wl wl' = (balance wl ≤ balance wl') × (balance wl' ≤ balance wl + one_if (own == tx))

  pub signals-balance :
      (wl : WaitingList b) (s : Signal)
      → balance (record wl { signals = wl.signals ++ (s ∷ []) }) ≡ balance wl + sent tx (s ∷ [])
  signals-balance wl s = omega (arith, sent-append tx wl.signals (s ∷ []))

  notified-balance :
      (wl : WaitingList b) (id : String) (w w' : Waiters) (sigs : List Signal)
      → IsDistinct wl.waiters
      → get id wl.waiters ≡ some w
      → within tx w' + sent tx sigs ≡ within tx w
      → balance (record wl { waiters = put_back id w' wl.waiters; signals = wl.signals ++ sigs })
        ≡ balance wl
  notified-balance wl id w w' sigs d q same =
      omega
        (arith, rw q at (held-put_back tx id w' wl.waiters d), sent-append tx wl.signals sigs, same)

  pub notify_message-balance :
      (wl : WaitingList b) (id : String) (msg : Message)
      → IsDistinct wl.waiters
      → balance (notify_message_waiters wl id msg) ≡ balance wl
  unfolding notify_message_waiters
  notify_message-balance wl id msg d = elim (Option-cases (get id wl.waiters)) [
    | inl n ↦ rw (n, notify_message_waiters) refl
    | inr (w, q) ↦
        rw (q, notify_message_waiters)
          (notified-balance wl id w _ _ d q (notify_message_waiters-within tx msg w))
  ]

  pub notify_ack-balance :
      (wl : WaitingList b) (id : String)
      → IsDistinct wl.waiters
      → balance (notify_ack_waiters wl id) ≡ balance wl
  unfolding notify_ack_waiters
  notify_ack-balance wl id d = elim (Option-cases (get id wl.waiters)) [
    | inl n ↦ rw (n, notify_ack_waiters) refl
    | inr (w, q) ↦
        rw (q, notify_ack_waiters)
          (notified-balance wl id w _ _ d q (notify_ack_waiters-within tx w))
  ]

  pub remove_closed-balance :
      (wl : WaitingList b) (closed : ℕ → Bool)
      → balance (remove_closed_waiters wl closed) ≡ balance wl
  unfolding remove_closed_waiters
  remove_closed-balance wl closed =
      omega (arith, held-prune tx closed wl.waiters, sent-append tx wl.signals _)

  pub after_prune-balance :
      (wl : WaitingList b) (t : Readings) (id : String) → balance (after_prune wl t id) ≡ balance wl
  after_prune-balance wl t id = elim (Bool-cases (prune_due wl t.asked)) [
    | inl e ↦ rw e (remove_closed-balance wl t.closed_at_prune)
    | inr e ↦ rw e refl
  ]

  one_of-balance :
      (wl : WaitingList b) (t : Readings) (id : String) (x : WaitingList b)
      → (x ≡ wl) ⊎ (x ≡ after_prune wl t id)
      → balance x ≡ balance wl
  one_of-balance wl t id x (inl e) = ap balance e
  one_of-balance wl t id x (inr e) = ap balance e ∙ after_prune-balance wl t id

  -- The waiters of the ID with the own sender, kept or dropped.
  pushed-balance :
      (x : WaitingList b) (id : String) (own : ℕ) (w : Waiters) (sigs : List Signal)
      → within tx w + sent tx sigs ≡ within tx (or_new (get id x.waiters)) + one_if (own == tx)
      → balance (record x {
        waiters = insert id w (insert id (or_new (get id x.waiters)) x.waiters);
        signals = x.signals ++ sigs;
      })
        ≡ balance x + one_if (own == tx)
  pushed-balance x id own w sigs h =
      rw (insert-insert id w (or_new (get id x.waiters)) x.waiters)
        (omega (arith, held-insert tx id w x.waiters, sent-append tx x.signals sigs, h))

  module _ (wl : WaitingList b) (t : Readings) (id : String) (own : ℕ) where
    refused-balance :
        balance (record (after_prune wl t id) {
          signals = (after_prune wl t id).signals ++ (dropped own ∷ []);
        })
        ≡ balance wl + one_if (own == tx)
    unfolding sent
    refused-balance =
        omega
          (arith, signals-balance (after_prune wl t id) (dropped own), after_prune-balance wl t id)

    pub wait_for_ack-balance :
        balance (wait_for_ack wl t id own).0 ≡ balance wl + one_if (own == tx)
    unfolding wait_for_ack
    wait_for_ack-balance =
        waiters_for_cases wl t id
          (λ x. balance (push_ack_waiter t id own x).0 ≡ balance wl + one_if (own == tx))
          (λ x from room. omega (
            arith,
            pushed-balance x id own _ _
                (add_ack_waiter-within tx t.closed_at_add own (or_new (get id x.waiters))),
            one_of-balance wl t id x from,
          ))
          (λ n full. refused-balance)

    pub wait_for_message-balance :
        balance (wait_for_message wl t id own).0 ≡ balance wl + one_if (own == tx)
    unfolding wait_for_message
    wait_for_message-balance =
        waiters_for_cases wl t id
          (λ x. balance (push_message_waiter t id own x).0 ≡ balance wl + one_if (own == tx))
          (λ x from room. omega (
            arith,
            pushed-balance x id own _ _
                (add_message_waiter-within tx t.closed_at_add own (or_new (get id x.waiters))),
            one_of-balance wl t id x from,
          ))
          (λ n full. refused-balance)
