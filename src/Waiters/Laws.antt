-- ===== src/Waiters/Laws.antt =====
-- The limit on the waiters of one ID.
use http_relay.Base.{
  ℕ, ◌≡◌, ◌≤◌, refl, Bool, false, not, List, [], ◌∷◌, ◌++◌, length, length-append, length-retain-le,
  arith,
}
use http_relay.Types.{Message}
use http_relay.Waiters.{
  Waiters, max_waiters_per_entry, new, none_left, is_empty, open_senders, add_ack_waiter,
  add_message_waiter, remove_closed_senders, notify_message_waiters, notify_ack_waiters,
}

-- At most ten waiters of each kind, and at least one in all.
pub record IsBounded (w : Waiters) : Type 0 where
  pub acks : length w.ack_waiters ≤ max_waiters_per_entry
  pub messages : length w.message_waiters ≤ max_waiters_per_entry

abbrev pub IsGood : Waiters → Type 0
IsGood w = IsBounded w × (is_empty w ≡ false)

none_left-append : (xs : List ℕ) (x : ℕ) → none_left (xs ++ (x ∷ [])) ≡ false
none_left-append [] x = refl
none_left-append (y ∷ xs) x = refl

none_left-length : (xs : List ℕ) → 10 ≤ length xs → none_left xs ≡ false
none_left-length [] h = absurd (omega arith)
none_left-length (y ∷ xs) h = refl

pub new-IsBounded : IsBounded new
new-IsBounded = record { acks = omega arith; messages = omega arith }

pub add_ack_waiter-IsGood :
    (closed : ℕ → Bool) (tx : ℕ) (w : Waiters) → IsBounded w → IsGood (add_ack_waiter closed tx w).0
unfolding add_ack_waiter
add_ack_waiter-IsGood closed tx w v = ground (
  arith,
  length-append (open_senders closed w.ack_waiters) (tx ∷ []),
  length-retain-le (λ x. not (closed x)) w.ack_waiters,
  none_left-append (open_senders closed w.ack_waiters) tx,
  none_left-length (open_senders closed w.ack_waiters),
)

pub add_message_waiter-IsGood :
    (closed : ℕ → Bool) (tx : ℕ) (w : Waiters)
    → IsBounded w
    → IsGood (add_message_waiter closed tx w).0
unfolding add_message_waiter
add_message_waiter-IsGood closed tx w v = ground (
  arith,
  length-append (open_senders closed w.message_waiters) (tx ∷ []),
  length-retain-le (λ x. not (closed x)) w.message_waiters,
  none_left-append (open_senders closed w.message_waiters) tx,
  none_left-length (open_senders closed w.message_waiters),
)

pub remove_closed_senders-IsBounded :
    (closed : ℕ → Bool) (w : Waiters) → IsBounded w → IsBounded (remove_closed_senders closed w)
unfolding remove_closed_senders
remove_closed_senders-IsBounded closed w v = omega (
  arith,
  length-retain-le (λ x. not (closed x)) w.ack_waiters,
  length-retain-le (λ x. not (closed x)) w.message_waiters,
)

pub notify_ack_waiters-IsBounded : (w : Waiters) → IsBounded w → IsBounded (notify_ack_waiters w).0
unfolding notify_ack_waiters
notify_ack_waiters-IsBounded w v = omega arith

pub notify_message_waiters-IsBounded :
    (msg : Message) (w : Waiters) → IsBounded (notify_message_waiters msg w).0
unfolding notify_message_waiters
notify_message_waiters-IsBounded msg w = new-IsBounded
