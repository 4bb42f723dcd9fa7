-- ===== src/WaitingList/State.antt =====
-- The state of the `WaitingList` of src/http_relay/waiting_list.rs, and the values of its methods.
--
-- The repository is any implementation of the operations in Repository.antt. The struct is used
-- under one lock, so a method is a function from the old state to the new one. `signals` stands for
-- the channels: all that senders did so far, oldest first. A fresh channel is an argument, and a
-- method that returns its receiver returns the number. Each reading of a clock, and each look at
-- which receivers are gone, is a field of `Readings`.
use http_relay.Base.{
  ℕ, String, Bool, true, false, List, [], ◌∷◌, ◌++◌, Option, none, some, Result, ok, err, AnyError,
  leb, if◌then◌else◌,
}
use http_relay.Types.{Message, StoredEntry, InsertOutcome, stored, from_secs}
use http_relay.HashMap.{HashMap}
use http_relay.HashMap
use http_relay.Waiters.{Waiters, Signal}
use http_relay.Waiters
use http_relay.Repository.{Repository}

-- `FULL_MAP_PRUNE_INTERVAL`
abbrev pub full_map_prune_interval : ℕ
full_map_prune_interval = from_secs 1

pub data SubscribeError : Type 0 where
  waiter_limit_reached not_found : SubscribeError

pub data StoreAndSubscribeError : Type 0 where
  waiter_limit_reached store_full not_found : StoreAndSubscribeError
  storage : AnyError → StoreAndSubscribeError

-- `impl From<SubscribeError> for StoreAndSubscribeError`
abbrev pub from : SubscribeError → StoreAndSubscribeError
from SubscribeError.waiter_limit_reached = StoreAndSubscribeError.waiter_limit_reached
from SubscribeError.not_found = StoreAndSubscribeError.not_found

pub data GetOrSubscribeResult : Type 0 where
  message : Message → GetOrSubscribeResult
  waiting : ℕ → GetOrSubscribeResult

-- What one call reads from outside: the wall clock where the call begins, in the repository's
-- `insert` and its deletion of expired entries, and in `is_expired`; the monotonic clock for
-- `elapsed` and after a prune; and the closed channels at a prune and where a waiter is added.
pub record Readings : Type 0 where
  pub called : ℕ
  pub created : ℕ
  pub swept : ℕ
  pub checked : ℕ
  pub asked : ℕ
  pub pruned : ℕ
  pub closed_at_prune : ℕ → Bool
  pub closed_at_add : ℕ → Bool

pub record WaitingList (b : Repository) : Type 0 where
  pub repository : b.State
  pub waiters : HashMap Waiters
  pub max_waiting_ids : ℕ
  pub last_full_map_prune : Option ℕ
  pub signals : List Signal

abbrev pub is_expired : ℕ → ℕ → Bool
is_expired now expires_at = leb expires_at now

-- `Ok(Some(entry)) if !Self::is_expired(entry.expires_at)`
abbrev pub unexpired : ℕ → Result (Option StoredEntry) AnyError → Option StoredEntry
unexpired now (err e) = none
unexpired now (ok none) = none
unexpired now (ok (some entry)) = if is_expired now entry.expires_at then none else some entry

abbrev pub is_store_full : Result InsertOutcome AnyError → Bool
is_store_full (ok stored) = false
is_store_full (ok InsertOutcome.store_full) = true
is_store_full (err e) = false

-- A `Waiters` written back, or its ID removed if it is empty.
abbrev pub put_back : String → Waiters → HashMap Waiters → HashMap Waiters
put_back id w m = if Waiters.is_empty w then HashMap.remove id m else HashMap.insert id w m

-- `entry(id).or_insert_with(Waiters::new)`
abbrev pub or_new : Option Waiters → Waiters
or_new none = Waiters.new
or_new (some w) = w

-- The message of the entry, if it is unexpired and still has its body.
abbrev pub available : ℕ → Result (Option StoredEntry) AnyError → Option Message
available now got = elim (unexpired now got) [
  | none ↦ none
  | some entry ↦ elim entry.message_body [
    | none ↦ none
    | some body ↦ some (record { body = body; content_type = entry.content_type })
  ]
]

-- The signals of the prune, in the order of the map.
unfoldable pub pruned_signals : (ℕ → Bool) → HashMap Waiters → List Signal
pruned_signals closed [] = []
pruned_signals closed ((id, w) ∷ m) = Waiters.closed_senders closed w ++ pruned_signals closed m

-- `for id in &expired_ids { self.waiters.remove(id); }` drops the senders of each ID removed.
unfoldable pub removed_signals : List String → HashMap Waiters → List Signal
removed_signals [] m = []
removed_signals (id ∷ ids) m =
    elim (HashMap.get id m) [ none ↦ [] | some w ↦ Waiters.drop_all w ]
    ++ removed_signals ids (HashMap.remove id m)

abbrev pub or_none : Result (List String) AnyError → List String
or_none (ok ids) = ids
or_none (err e) = []

-- `WaitingList::new`
unfoldable pub new : (b : Repository) → b.State → WaitingList b
new b repository = record {
  repository = repository;
  waiters = [];
  max_waiting_ids = b.max_entries repository;
  last_full_map_prune = none;
  signals = [];
}
