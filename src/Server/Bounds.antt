-- ===== src/Server/Bounds.antt =====
-- The memory of a relay that keeps its entries in memory.
use http_relay.Base.{ℕ, ◌≡◌, ◌≤◌, ◌*◌, subst, List, ok, arith}
use http_relay.HashMap.{len}
use http_relay.Config.{Config}
use http_relay.Waiters.{max_waiters_per_entry}
use http_relay.Memory
use http_relay.Memory.{EntryRepository}
use http_relay.Memory.Contract.{
  memory_repository, memory_contract, memory_contract-IsValid, IsValid-memory_contract,
}
use http_relay.WaitingList.State.{WaitingList}
use http_relay.WaitingList.State
use http_relay.WaitingList.Limits.{IsLimited}
use http_relay.WaitingList.History.{Call, run, senders, new-Inv, run-Inv, run_bounded}
use http_relay.Server.{AppState, new_state}

pub new-IsValid :
    (config : Config) → memory_contract.IsValid (Memory.new config.persist_db config.max_entries)
unfolding Memory.new
new-IsValid config = memory_contract-IsValid _ (record { distinct = tt; bounded = omega arith })

-- What a waiting list holds stays within the limit.
abbrev pub HasBounds : ℕ → WaitingList memory_repository → Type 0
HasBounds max wl =
    IsLimited max wl.waiters
    × (senders wl.waiters ≤ 2 * max_waiters_per_entry * max)
    × (len wl.repository.entries ≤ wl.repository.max_entries)

started :
    (config : Config) (calls : List Call)
    → HasBounds config.max_entries
        (run (State.new memory_repository (Memory.new config.persist_db config.max_entries)) calls)
unfolding Memory.new
started config calls =
    let r : EntryRepository = Memory.new config.persist_db config.max_entries in
    let (limited, few) = run_bounded memory_contract r (new-IsValid config) calls in
    let v =
      run-Inv memory_contract config.max_entries (State.new memory_repository r) calls
        (new-Inv memory_contract r (new-IsValid config)) in
    (limited, few, (IsValid-memory_contract _ v.valid).bounded)

-- A relay that is started with in-memory storage has, after any history of calls, at most
-- `max_entries` of its configuration waiting IDs and twenty times as many senders, and its
-- repository never has more entries than its own limit.
pub new_state_bounded :
    (config : Config) (state : AppState memory_repository) (calls : List Call)
    → new_state (λ path max. ok (Memory.new path max)) config ≡ ok state
    → HasBounds config.max_entries (run state.pending_list calls)
unfolding new_state
new_state_bounded config state calls h = subst Fits same (started config calls)
  where
    Fits : AppState memory_repository → Type 0
    Fits s = HasBounds config.max_entries (run s.pending_list calls)

    fresh : AppState memory_repository
    fresh = record {
      config = config;
      pending_list = State.new memory_repository (Memory.new config.persist_db config.max_entries);
    }

    same : fresh ≡ state
    same = cc h
