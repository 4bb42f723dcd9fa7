-- ===== src/Waiters.antt =====
-- `Waiters` of src/http_relay/waiting_list.rs: the oneshot senders that wait for one ID.
--
-- A channel of `tokio::sync::oneshot` is named by a number, the same for its sender and its
-- receiver. What a sender does is a `Signal`; a method returns the signals that it gives off, in
-- order. Whether a receiver is gone (`Sender::is_closed`) is asked of the argument `closed`.
pub mod Laws
use http_relay.Base.{
  ℕ, ◌≤◌, Bool, true, false, not, ◌&&◌, List, [], ◌∷◌, ◌++◌, map, length, retain, leb,
  if◌then◌else◌,
}
use http_relay.Types.{Message}

pub data Signal : Type 0 where
  delivered : ℕ → Message → Signal
  acknowledged : ℕ → Signal
  dropped : ℕ → Signal

pub record Waiters : Type 0 where
  pub ack_waiters : List ℕ
  pub message_waiters : List ℕ

abbrev pub max_waiters_per_entry : ℕ
max_waiters_per_entry = 10

abbrev pub new : Waiters
new = record { ack_waiters = []; message_waiters = [] }

abbrev pub none_left : List ℕ → Bool
none_left [] = true
none_left (tx ∷ txs) = false

abbrev pub is_empty : Waiters → Bool
is_empty w = none_left w.ack_waiters && none_left w.message_waiters

-- `retain(|sender| !sender.is_closed())`: what stays, and the drop of each closed sender.
abbrev pub open_senders : (ℕ → Bool) → List ℕ → List ℕ
open_senders closed = retain (λ tx. not (closed tx))

abbrev pub drops : List ℕ → List Signal
drops = map dropped

abbrev pub closed_drops : (ℕ → Bool) → List ℕ → List Signal
closed_drops closed txs = drops (retain closed txs)

-- `add_ack_waiter`: a sender that is refused is dropped with the call.
unfoldable pub add_ack_waiter : (ℕ → Bool) → ℕ → Waiters → Waiters × List Signal × Bool
add_ack_waiter closed tx w =
    let live = open_senders closed w.ack_waiters in
    let gone = closed_drops closed w.ack_waiters in
    if leb max_waiters_per_entry (length live)
    then (record w { ack_waiters = live }, gone ++ (dropped tx ∷ []), false)
    else (record w { ack_waiters = live ++ (tx ∷ []) }, gone, true)

unfoldable pub add_message_waiter : (ℕ → Bool) → ℕ → Waiters → Waiters × List Signal × Bool
add_message_waiter closed tx w =
    let live = open_senders closed w.message_waiters in
    let gone = closed_drops closed w.message_waiters in
    if leb max_waiters_per_entry (length live)
    then (record w { message_waiters = live }, gone ++ (dropped tx ∷ []), false)
    else (record w { message_waiters = live ++ (tx ∷ []) }, gone, true)

unfoldable pub remove_closed_senders : (ℕ → Bool) → Waiters → Waiters
remove_closed_senders closed w = record {
  ack_waiters = open_senders closed w.ack_waiters;
  message_waiters = open_senders closed w.message_waiters;
}

unfoldable pub closed_senders : (ℕ → Bool) → Waiters → List Signal
closed_senders closed w = closed_drops closed w.ack_waiters ++ closed_drops closed w.message_waiters

-- The drop of a whole `Waiters`.
unfoldable pub drop_all : Waiters → List Signal
drop_all w = drops w.ack_waiters ++ drops w.message_waiters

-- `notify_message_waiters`: the stale ACK waiters are dropped, the others receive the message.
unfoldable pub notify_message_waiters : Message → Waiters → Waiters × List Signal
notify_message_waiters message w =
    (new, drops w.ack_waiters ++ map (λ tx. delivered tx message) w.message_waiters)

unfoldable pub notify_ack_waiters : Waiters → Waiters × List Signal
notify_ack_waiters w = (record w { ack_waiters = [] }, map acknowledged w.ack_waiters)
