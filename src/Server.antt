-- ===== src/Server.antt =====
-- The parts of src/http_relay/server.rs and src/main.rs that decide something: the application's
-- state, the builder, and the options of the command line that are computed.
pub mod Bounds
pub mod Router
pub mod Serving
pub mod CommandLine
pub mod Start
use http_relay.Base.{
  ℕ, zero, suc, String, Bool, true, false, List, Option, none, some, Result, ok, err, AnyError,
}
use http_relay.Config.{Config}
use http_relay.Repository.{Repository}
use http_relay.WaitingList.State.{WaitingList}
use http_relay.WaitingList.State

-- `AppState`: the mutex around the waiting list is held by whoever uses it.
pub record AppState (b : Repository) : Type 0 where
  pub config : Config
  pub pending_list : WaitingList b

module _ {b : Repository} where
  -- `AppState::new`, with `EntryRepository::new` of the backend.
  unfoldable pub new_state :
      (Option String → ℕ → Result b.State AnyError) → Config → Result (AppState b) AnyError
  new_state open_repository config = elim (open_repository config.persist_db config.max_entries) [
    | err e ↦ err e
    | ok repository ↦ ok (record { config = config; pending_list = State.new b repository })
  ]

-- The setters of `HttpRelayBuilder`.
abbrev pub bind_address : String → Config → Config
bind_address addr c = record c { bind_address = addr }

abbrev pub http_port : ℕ → Config → Config
http_port port c = record c { http_port = port }

abbrev pub link_timeout : ℕ → Config → Config
link_timeout timeout c = record c { link_timeout = timeout }

abbrev pub inbox_timeout : ℕ → Config → Config
inbox_timeout timeout c = record c { inbox_timeout = timeout }

abbrev pub inbox_cache_ttl : ℕ → Config → Config
inbox_cache_ttl ttl c = record c { inbox_cache_ttl = ttl }

abbrev pub max_body_size : ℕ → Config → Config
max_body_size size c = record c { max_body_size = size }

abbrev pub max_entries : ℕ → Config → Config
max_entries max c = record c { max_entries = max }

abbrev pub persist_db : Option String → Config → Config
persist_db path c = record c { persist_db = path }

abbrev pub cors_allow_all : Bool → Config → Config
cors_allow_all allow c = record c { cors_allow_all = allow }

abbrev pub trusted_proxies : List String → Config → Config
trusted_proxies networks c = record c { trusted_proxies = networks }

-- `LevelFilter`
pub data LevelFilter : Type 0 where
  off warn info debug trace : LevelFilter

-- `log_level` of src/main.rs
abbrev pub log_level : ℕ → Bool → LevelFilter
log_level verbose true = off
log_level zero false = warn
log_level (suc zero) false = info
log_level (suc (suc zero)) false = debug
log_level (suc (suc (suc n))) false = trace
