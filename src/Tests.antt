-- ===== src/Tests.antt =====
-- Example states and readings, on which the children run the code and apply the theorems.
mod Stores
mod Waits
mod Handlers
mod Clients
mod Database
mod Traces
mod Serving
mod Starting
mod Truths
mod RoundTrips
use http_relay.Base.{ℕ, String, Bool, true, false, List, [], ◌∷◌, Option, none, some, bytes}
use http_relay.Types.{Message, from_secs}
use http_relay.HashMap
use http_relay.HashMap.{HashMap}
use http_relay.HashMap.Laws.{get-insert_self, get-insert_ne}
use http_relay.Headers.{Headers}
use http_relay.Memory.{EntryRepository, Entry}
use http_relay.Memory
use http_relay.Memory.Contract.{memory_repository}
use http_relay.WaitingList.State.{WaitingList, Readings}
use http_relay.WaitingList.State

-- All clocks stand still during a call, and no client is gone.
abbrev pub at : ℕ → Readings
at now = record {
  called = now;
  created = now;
  swept = now;
  checked = now;
  asked = now;
  pruned = now;
  closed_at_prune = λ tx. false;
  closed_at_add = λ tx. false;
}

abbrev pub hello : Message
hello = record { body = bytes "hello"; content_type = some "text/plain" }

abbrev pub minute : ℕ
minute = from_secs 60

abbrev pub empty_store : EntryRepository
empty_store = Memory.new none 2

abbrev pub entry_until : ℕ → Bool → ℕ → Entry
entry_until expires_at acked created_at = record {
  message_body = some (bytes "hello");
  content_type = none;
  acked = acked;
  expires_at = expires_at;
  created_at = created_at;
}

-- Two entries in a store for two: the first acknowledged, the other not.
abbrev pub full_store : EntryRepository
full_store = record {
  entries = ("a", entry_until 900 true 1) ∷ ("b", entry_until 900 false 2) ∷ [];
  max_entries = 2;
}

-- The same with both messages undelivered.
abbrev pub unread_store : EntryRepository
unread_store = record {
  entries = ("a", entry_until 900 false 1) ∷ ("b", entry_until 900 false 2) ∷ [];
  max_entries = 2;
}

abbrev pub empty_list : WaitingList memory_repository
empty_list = State.new memory_repository empty_store

-- Header maps with texts for values.
abbrev pub text_headers : Headers
text_headers = record {
  Map = HashMap String;
  Value = String;
  get = HashMap.get;
  insert = HashMap.insert;
  of_bytes = ("content-type", "application/octet-stream") ∷ [];
  from_static = λ v. v;
  parse = λ v. some v;
  to_str = λ v. some v;
  get-insert_self = get-insert_self;
  get-insert_ne = λ {k} {j} v m ne. get-insert_ne v m ne;
}
