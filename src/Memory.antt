-- ===== src/Memory.antt =====
-- src/http_relay/storage_memory.rs: the repository that is built without the `persist` feature.
-- The Mutex is held for a whole operation, so an operation is a function on the state. Each reading
-- of the wall clock is an argument: `created` where `insert` reads it, `now` where `delete_expired`
-- does. No operation of this backend fails.
pub mod Room
pub mod MakeRoom
pub mod Insert
pub mod Eviction
pub mod Contract
pub mod RoundTrip
use http_relay.Base.{
  ℕ, String, ◌≡◌, Bool, true, false, List, [], ◌∷◌, Option, none, some, ltb, leb, if◌then◌else◌,
  map, Result, ok, AnyError, not,
}
use http_relay.Types.{Bytes, StoredEntry, InsertOutcome, stored, store_full}
use http_relay.HashMap
use http_relay.HashMap.{HashMap}

pub record Entry : Type 0 where
  pub message_body : Option Bytes
  pub content_type : Option String
  pub acked : Bool
  pub expires_at : ℕ
  pub created_at : ℕ

pub record EntryRepository : Type 0 where
  pub entries : HashMap Entry
  pub max_entries : ℕ

-- `EntryRepository::new`; the path is ignored.
unfoldable pub new : Option String → ℕ → EntryRepository
new path max = record { entries = []; max_entries = max }

-- `delete_expired`: the deleted IDs, and the entries that stay.
abbrev pub has_expired : ℕ → Entry → Bool
has_expired now e = ltb e.expires_at now

unfoldable pub delete_expired : ℕ → HashMap Entry → HashMap Entry × List String
delete_expired now entries =
    let expired_ids = HashMap.keys_where (has_expired now) entries in
    (HashMap.remove_all expired_ids entries, expired_ids)

-- `min_by_key` over the acknowledged entries: the first of the least `created_at`.
unfoldable pub oldest_acked : HashMap Entry → Option (String × Entry)
oldest_acked [] = none
oldest_acked ((id, e) ∷ m) =
    let rest = oldest_acked m in
    if e.acked
    then elim rest [
      | none ↦ some (id, e)
      | some (j, f) ↦ if leb e.created_at f.created_at then some (id, e) else some (j, f)
    ]
    else rest

abbrev pub remove_oldest : Option (String × Entry) → HashMap Entry → HashMap Entry
remove_oldest none entries = entries
remove_oldest (some (id, e)) entries = HashMap.remove id entries

-- `make_room`: the entries after the deletions, and whether a slot is free.
unfoldable pub make_room : ℕ → ℕ → HashMap Entry → HashMap Entry × Bool
make_room now max entries =
    if ltb (HashMap.len entries) max
    then (entries, true)
    else (let unexpired = (delete_expired now entries).0 in
        if ltb (HashMap.len unexpired) max
        then (unexpired, true)
        else (let rest = remove_oldest (oldest_acked unexpired) unexpired in
            (rest, ltb (HashMap.len rest) max)))

abbrev pub fresh : Bytes → Option String → ℕ → ℕ → Entry
fresh body content_type expires_at created = record {
  message_body = some body;
  content_type = content_type;
  acked = false;
  expires_at = expires_at;
  created_at = created;
}

-- `insert`. `make_room` is called for a new ID only.
unfoldable pub insert :
    EntryRepository
    → ℕ
    → ℕ
    → String
    → Bytes
    → Option String
    → ℕ
    → EntryRepository × Result InsertOutcome AnyError
insert r created now id body content_type expires_at =
    let is_new_id = not (HashMap.contains_key id r.entries) in
    let (entries, room) =
      if is_new_id then make_room now r.max_entries r.entries else (r.entries, true) in
    if room
    then (
      record r { entries = HashMap.insert id (fresh body content_type expires_at created) entries },
      ok stored,
    )
    else (record r { entries = entries }, ok store_full)

abbrev pub stored_entry : Entry → StoredEntry
stored_entry e = record {
  message_body = e.message_body;
  content_type = e.content_type;
  acked = e.acked;
  expires_at = e.expires_at;
}

unfoldable pub get : EntryRepository → String → Result (Option StoredEntry) AnyError
get r id = ok (elim (HashMap.get id r.entries) [ none ↦ none | some e ↦ some (stored_entry e) ])

unfoldable pub ack : EntryRepository → String → EntryRepository × Result Bool AnyError
ack r id = elim (HashMap.get id r.entries) [
  | none ↦ (r, ok false)
  | some e ↦ (
    record r {
      entries = HashMap.insert id (record e { acked = true; message_body = none }) r.entries;
    },
    ok true,
  )
]

unfoldable pub delete : EntryRepository → String → EntryRepository × Result Bool AnyError
delete r id =
    (record r { entries = HashMap.remove id r.entries }, ok (HashMap.contains_key id r.entries))

unfoldable pub cleanup_expired :
    EntryRepository → ℕ → EntryRepository × Result (List String) AnyError
cleanup_expired r now =
    let (entries, expired_ids) = delete_expired now r.entries in
    (record r { entries = entries }, ok expired_ids)

unfoldable pub count : EntryRepository → Result ℕ AnyError
count r = ok (HashMap.len r.entries)
