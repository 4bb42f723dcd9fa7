-- ===== src/Scenarios.antt =====
-- The unit tests of waiting_list.rs, storage_memory.rs, persistence.rs, inbox_handler.rs,
-- link_handler.rs and client_ip.rs in src/http_relay, and of src/main.rs, run on the definitions. Storage is in memory,
-- except in the child Sqlite. A test is true where all its assertions hold.
--
-- A channel has the number that its call is given. Time stands still, except where a test sleeps.
mod Storage
mod Delivery
mod Limits
mod Acks
mod Http
mod InboxHandler
mod LinkHandler
mod ClientIps
mod Main
mod Rows
mod Sqlite
use http_relay.Base.{
  ℕ, String, ◌+◌, ◌*◌, Bool, true, false, not, ◌&&◌, ◌||◌, List, [], ◌∷◌, Option, none, some,
  Result, ok, err, ◌==◌, bytes, map, if◌then◌else◌,
}
use http_relay.Types.{Bytes, Message, StoredEntry}
use http_relay.HashMap
use http_relay.Waiters.{Signal, delivered, acknowledged, dropped}
use http_relay.Memory
use http_relay.Memory.Contract.{memory_repository}
use http_relay.WaitingList.State.{WaitingList, Readings, SubscribeError}
use http_relay.WaitingList.History.{Call}
use http_relay.WaitingList.State
use http_relay.Repository.{Repository}

-- `WaitingList::new_in_memory`
abbrev pub new_in_memory : ℕ → WaitingList memory_repository
new_in_memory max = State.new memory_repository (Memory.new none max)

abbrev pub create_test_list : WaitingList memory_repository
create_test_list = new_in_memory 100

abbrev pub make_message : String → Message
make_message body = record { body = bytes body; content_type = some "text/plain" }

-- `Duration::from_millis`
abbrev pub from_millis : ℕ → ℕ
from_millis ms = ms * 1000000

-- The receivers that are gone.
abbrev pub gone_in : List ℕ → ℕ → Bool
gone_in [] tx = false
gone_in (x ∷ xs) tx = x == tx || gone_in xs tx

-- All clocks stand at that number of milliseconds, and these receivers were dropped.
abbrev pub without : List ℕ → ℕ → Readings
without gone now = record {
  called = now;
  created = now;
  swept = now;
  checked = now;
  asked = from_millis now;
  pruned = from_millis now;
  closed_at_prune = gone_in gone;
  closed_at_add = gone_in gone;
}

abbrev pub at : ℕ → Readings
at = without []

-- `WaitingList::len`
abbrev pub entry_count : WaitingList memory_repository → ℕ
entry_count wl = HashMap.len wl.repository.entries

abbrev pub same_bytes : Bytes → Bytes → Bool
same_bytes [] [] = true
same_bytes [] (y ∷ ys) = false
same_bytes (x ∷ xs) [] = false
same_bytes (x ∷ xs) (y ∷ ys) = x == y && same_bytes xs ys

-- A table of the texts that a parser takes.
abbrev pub look_up : {A : Type 0} → List (String × A) → Bytes → Option A
look_up [] text = none
look_up ((name, a) ∷ rest) text =
    let found = look_up rest text in if same_bytes (bytes name) text then some a else found

abbrev pub has_body : String → Option Bytes → Bool
has_body text none = false
has_body text (some body) = same_bytes body (bytes text)

-- `rx.await` gives the message with that body.
abbrev pub receives : List Signal → ℕ → String → Bool
receives [] rx text = false
receives (delivered tx msg ∷ ss) rx text =
    (tx == rx && same_bytes msg.body (bytes text)) || receives ss rx text
receives (acknowledged tx ∷ ss) rx text = receives ss rx text
receives (dropped tx ∷ ss) rx text = receives ss rx text

-- `rx.await` gives the ACK.
abbrev pub hears_ack : List Signal → ℕ → Bool
hears_ack [] rx = false
hears_ack (acknowledged tx ∷ ss) rx = tx == rx || hears_ack ss rx
hears_ack (delivered tx msg ∷ ss) rx = hears_ack ss rx
hears_ack (dropped tx ∷ ss) rx = hears_ack ss rx

-- `rx.await.is_err()`: the sender was dropped.
abbrev pub is_dropped : List Signal → ℕ → Bool
is_dropped [] rx = false
is_dropped (dropped tx ∷ ss) rx = tx == rx || is_dropped ss rx
is_dropped (acknowledged tx ∷ ss) rx = is_dropped ss rx
is_dropped (delivered tx msg ∷ ss) rx = is_dropped ss rx

-- `list.waiters.contains_key(id)`
abbrev pub waits_for : WaitingList memory_repository → String → Bool
waits_for wl id = HashMap.contains_key id wl.waiters

abbrev pub is_ok : {A E : Type 0} → Result A E → Bool
is_ok (ok a) = true
is_ok (err e) = false

-- Whether all tests of a list hold.
abbrev pub all_pass : List Bool → Bool
all_pass [] = true
all_pass (t ∷ ts) = t && all_pass ts

abbrev pub is_limited : {A : Type 0} → Result A SubscribeError → Bool
is_limited (ok a) = false
is_limited (err SubscribeError.waiter_limit_reached) = true
is_limited (err SubscribeError.not_found) = false

abbrev pub first_ten : List ℕ
first_ten = 1 ∷ 2 ∷ 3 ∷ 4 ∷ 5 ∷ 6 ∷ 7 ∷ 8 ∷ 9 ∷ 10 ∷ []

-- `(0..MAX_WAITERS_PER_ENTRY)`, each with a channel of its own.
abbrev pub ten_times : (ℕ → Call) → List Call
ten_times f = map f first_ten

-- The same, where each receiver is dropped before the next call.
abbrev pub in_turn : (Readings → ℕ → Call) → List ℕ → List ℕ → List Call
in_turn f gone [] = []
in_turn f gone (x ∷ xs) = f (without gone 0) x ∷ in_turn f (x ∷ gone) xs

abbrev pub says : Option Bool → Option Bool → Bool
says none none = true
says none (some y) = false
says (some x) none = false
says (some true) (some y) = y
says (some false) (some y) = not y
