-- ===== src/Repository.antt =====
-- What src/http_relay/waiting_list.rs asks of an `EntryRepository`: the operations that both
-- src/http_relay/storage_memory.rs and src/http_relay/persistence.rs declare, and the contract on
-- which the waiting list relies. An operation returns the new state also where it only reads, since
-- a database connection may change at any call.
pub mod Strengthen
pub mod RoundTrip
use http_relay.Base.{
  ℕ, String, ◌≡◌, ◌≢◌, ◌<◌, Bool, true, false, List, Option, none, some, Result, ok, err, AnyError,
  ◌⊎◌, if◌then◌else◌, ltb, ite, str_dec,
}
use http_relay.Types.{Bytes, StoredEntry, InsertOutcome, stored, store_full}
use http_relay.HashMap.Laws.{mem_key, passes}

pub record Repository : Type 1 where
  pub State : Type 0
  pub insert :
      State → ℕ → ℕ → String → Bytes → Option String → ℕ → State × Result InsertOutcome AnyError
  pub get : State → String → State × Result (Option StoredEntry) AnyError
  pub ack : State → String → State × Result Bool AnyError
  pub cleanup_expired : State → ℕ → State × Result (List String) AnyError
  pub max_entries : State → ℕ

-- A deletion to make room may take an entry that is past its time or acknowledged.
abbrev pub IsSpent : ℕ → StoredEntry → Type 0
IsSpent now e = (e.expires_at < now) ⊎ (e.acked ≡ true)

abbrev pub is_past : ℕ → StoredEntry → Bool
is_past now e = ltb e.expires_at now

-- What becomes of an entry that a deletion to make room met.
abbrev pub Outlives : ℕ → Option StoredEntry → Option StoredEntry → Type 0
Outlives now before after =
    (after ≡ before) ⊎ ((after ≡ none) × (e : StoredEntry) × (before ≡ some e) × IsSpent now e)

abbrev pub new_entry : Bytes → Option String → ℕ → StoredEntry
new_entry body content_type expires_at = record {
  message_body = some body;
  content_type = content_type;
  acked = false;
  expires_at = expires_at;
}

abbrev pub mark_acked : Option StoredEntry → Option StoredEntry
mark_acked none = none
mark_acked (some e) = some (record e { acked = true; message_body = none })

-- The contract, stated through `find`, the entry under an ID.
pub record Contract (b : Repository) : Type 1 where
  pub IsValid : b.State → Type 0
  pub find : b.State → String → Option StoredEntry
  pub get-IsValid : (r : b.State) (id : String) → IsValid r → IsValid (b.get r id).0
  pub find-get : (r : b.State) (id j : String) → IsValid r → find (b.get r id).0 j ≡ find r j
  pub get-find :
      (r : b.State) (id : String) {e : Option StoredEntry}
      → IsValid r
      → (b.get r id).1 ≡ ok e
      → e ≡ find r id
  pub insert-IsValid :
      (r : b.State) (created now : ℕ) (id : String) (body : Bytes) (ct : Option String) (exp : ℕ)
      → IsValid r
      → IsValid (b.insert r created now id body ct exp).0
  pub max_entries-insert :
      (r : b.State) (created now : ℕ) (id : String) (body : Bytes) (ct : Option String) (exp : ℕ)
      → IsValid r
      → b.max_entries (b.insert r created now id body ct exp).0 ≡ b.max_entries r
  pub insert_stored :
      (r : b.State) (created now : ℕ) (id : String) (body : Bytes) (ct : Option String) (exp : ℕ)
      → IsValid r
      → (b.insert r created now id body ct exp).1 ≡ ok stored
      → find (b.insert r created now id body ct exp).0 id ≡ some (new_entry body ct exp)
  pub insert_other :
      (r : b.State) (created now : ℕ) (id : String) (body : Bytes) (ct : Option String) (exp : ℕ)
      (j : String)
      → IsValid r
      → (id ≢ j) ⊎ ((b.insert r created now id body ct exp).1 ≢ ok stored)
      → Outlives now (find r j) (find (b.insert r created now id body ct exp).0 j)
  pub insert_full :
      (r : b.State) (created now : ℕ) (id : String) (body : Bytes) (ct : Option String) (exp : ℕ)
      (j : String) (e : StoredEntry)
      → IsValid r
      → (b.insert r created now id body ct exp).1 ≡ ok store_full
      → find (b.insert r created now id body ct exp).0 j ≡ some e
      → (find r id ≡ none) × (¬ IsSpent now e)
  pub ack-IsValid : (r : b.State) (id : String) → IsValid r → IsValid (b.ack r id).0
  pub find-ack :
      (r : b.State) (id j : String) {done : Bool}
      → IsValid r
      → (b.ack r id).1 ≡ ok done
      → find (b.ack r id).0 j ≡ ite (str_dec id j) (mark_acked (find r j)) (find r j)
  pub find-ack_failed :
      (r : b.State) (id j : String) {e : AnyError}
      → IsValid r
      → (b.ack r id).1 ≡ err e
      → find (b.ack r id).0 j ≡ find r j
  pub cleanup-IsValid : (r : b.State) (now : ℕ) → IsValid r → IsValid (b.cleanup_expired r now).0
  pub cleanup_ids :
      (r : b.State) (now : ℕ) (j : String) {ids : List String}
      → IsValid r
      → (b.cleanup_expired r now).1 ≡ ok ids
      → mem_key j ids ≡ passes (is_past now) (find r j)
  pub find-cleanup :
      (r : b.State) (now : ℕ) (j : String) {ids : List String}
      → IsValid r
      → (b.cleanup_expired r now).1 ≡ ok ids
      → find (b.cleanup_expired r now).0 j
        ≡ (if passes (is_past now) (find r j) then none else find r j)
  pub find-cleanup_failed :
      (r : b.State) (now : ℕ) (j : String) {e : AnyError}
      → IsValid r
      → (b.cleanup_expired r now).1 ≡ err e
      → Outlives now (find r j) (find (b.cleanup_expired r now).0 j)

-- A repository whose `get` and `ack` never fail.
pub record IsReliable (b : Repository) : Type 0 where
  pub reads : (r : b.State) (id : String) → (e : Option StoredEntry) × ((b.get r id).1 ≡ ok e)
  pub writes : (r : b.State) (id : String) → (done : Bool) × ((b.ack r id).1 ≡ ok done)
