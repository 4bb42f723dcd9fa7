-- ===== src/WaitingList/Senders.antt =====
-- Where the sender of a channel is: how often the waiters hold it, and how often it was used or
-- dropped.
pub mod Balance
pub mod Calls
pub mod Held
pub mod Waits
pub mod History
use http_relay.Base.{
  ℕ, String, ◌≡◌, ◌≤◌, ◌+◌, refl, sym, Bool, true, false, not, List, [], ◌∷◌, ◌++◌, map, Option,
  none, some, retain, ◌==◌, arith, Option-cases, Bool-cases, inl, inr, str_dec, length, leb,
  if◌then◌else◌, ◌&&◌, if_pos, if_neg, ite,
}
use http_relay.Types.{Message}
use http_relay.HashMap.{HashMap, IsDistinct, get, insert, remove, remove_all, retain_mut}
use http_relay.HashMap.Laws.{get-remove_self, IsDistinct-remove}
use http_relay.Waiters.{
  Waiters, Signal, delivered, acknowledged, dropped, drops, open_senders, closed_drops,
  add_ack_waiter, add_message_waiter, remove_closed_senders, closed_senders, drop_all,
  notify_message_waiters, notify_ack_waiters, max_waiters_per_entry, is_empty, none_left,
}
use http_relay.Waiters
use http_relay.WaitingList.State.{put_back, or_new, pruned_signals, removed_signals}

abbrev pub one_if : Bool → ℕ
one_if true = 1
one_if false = 0

abbrev pub channel : Signal → ℕ
channel (delivered tx msg) = tx
channel (acknowledged tx) = tx
channel (dropped tx) = tx

module _ (tx : ℕ) where
  unfoldable pub occurs : List ℕ → ℕ
  occurs [] = 0
  occurs (x ∷ xs) = one_if (x == tx) + occurs xs

  -- How often the waiters hold the sender.
  abbrev pub within : Waiters → ℕ
  within w = occurs w.ack_waiters + occurs w.message_waiters

  unfoldable pub held : HashMap Waiters → ℕ
  held [] = 0
  held ((id, w) ∷ m) = within w + held m

  -- How often the sender was used or dropped.
  unfoldable pub sent : List Signal → ℕ
  sent [] = 0
  sent (s ∷ ss) = one_if (channel s == tx) + sent ss

  occurs-append : (xs ys : List ℕ) → occurs (xs ++ ys) ≡ occurs xs + occurs ys
  unfolding occurs
  occurs-append [] ys = omega arith
  occurs-append (x ∷ xs) ys = omega (arith, occurs-append xs ys)

  pub sent-append : (xs ys : List Signal) → sent (xs ++ ys) ≡ sent xs + sent ys
  unfolding sent
  sent-append [] ys = omega arith
  sent-append (x ∷ xs) ys = omega (arith, sent-append xs ys)

  sent-map :
      (f : ℕ → Signal) → ((x : ℕ) → channel (f x) ≡ x) → (xs : List ℕ) → sent (map f xs) ≡ occurs xs
  unfolding sent occurs
  sent-map f h [] = refl
  sent-map f h (x ∷ xs) = rw (h x) (omega (arith, sent-map f h xs))

  occurs-retain :
      (p : ℕ → Bool) (xs : List ℕ)
      → occurs (retain (λ x. not (p x)) xs) + occurs (retain p xs) ≡ occurs xs
  unfolding occurs retain
  occurs-retain p [] = omega arith
  occurs-retain p (x ∷ xs) = ground (arith, occurs-retain p xs)

  -- What stays open and what is dropped.
  pruned-occurs :
      (closed : ℕ → Bool) (xs : List ℕ)
      → occurs (open_senders closed xs) + sent (closed_drops closed xs) ≡ occurs xs
  pruned-occurs closed xs =
      omega (arith, sent-map dropped (λ x. refl) (retain closed xs), occurs-retain closed xs)

  pub add_ack_waiter-within :
      (closed : ℕ → Bool) (own : ℕ) (w : Waiters)
      → within (add_ack_waiter closed own w).0 + sent (add_ack_waiter closed own w).1
        ≡ within w + one_if (own == tx)
  unfolding add_ack_waiter sent occurs
  add_ack_waiter-within closed own w = ground (
    arith,
    pruned-occurs closed w.ack_waiters,
    occurs-append (open_senders closed w.ack_waiters) (own ∷ []),
    sent-append (closed_drops closed w.ack_waiters) (dropped own ∷ []),
  )

  pub add_message_waiter-within :
      (closed : ℕ → Bool) (own : ℕ) (w : Waiters)
      → within (add_message_waiter closed own w).0 + sent (add_message_waiter closed own w).1
        ≡ within w + one_if (own == tx)
  unfolding add_message_waiter sent occurs
  add_message_waiter-within closed own w = ground (
    arith,
    pruned-occurs closed w.message_waiters,
    occurs-append (open_senders closed w.message_waiters) (own ∷ []),
    sent-append (closed_drops closed w.message_waiters) (dropped own ∷ []),
  )

  pub remove_closed_senders-within :
      (closed : ℕ → Bool) (w : Waiters)
      → within (remove_closed_senders closed w) + sent (closed_senders closed w) ≡ within w
  unfolding remove_closed_senders closed_senders
  remove_closed_senders-within closed w = omega (
    arith,
    pruned-occurs closed w.ack_waiters,
    pruned-occurs closed w.message_waiters,
    sent-append (closed_drops closed w.ack_waiters) (closed_drops closed w.message_waiters),
  )

  pub drop_all-within : (w : Waiters) → sent (drop_all w) ≡ within w
  unfolding drop_all
  drop_all-within w = omega (
    arith,
    sent-append (drops w.ack_waiters) (drops w.message_waiters),
    sent-map dropped (λ x. refl) w.ack_waiters,
    sent-map dropped (λ x. refl) w.message_waiters,
  )

  pub notify_message_waiters-within :
      (msg : Message) (w : Waiters)
      → within (notify_message_waiters msg w).0 + sent (notify_message_waiters msg w).1 ≡ within w
  unfolding notify_message_waiters occurs
  notify_message_waiters-within msg w = omega (
    arith,
    sent-append (drops w.ack_waiters) (map (λ x. delivered x msg) w.message_waiters),
    sent-map dropped (λ x. refl) w.ack_waiters,
    sent-map (λ x. delivered x msg) (λ x. refl) w.message_waiters,
  )

  pub notify_ack_waiters-within :
      (w : Waiters) → within (notify_ack_waiters w).0 + sent (notify_ack_waiters w).1 ≡ within w
  unfolding notify_ack_waiters occurs
  notify_ack_waiters-within w = omega (arith, sent-map acknowledged (λ x. refl) w.ack_waiters)
