-- ===== src/Memory/Contract.antt =====
-- The in-memory repository (src/http_relay/storage_memory.rs) as a `Repository`, with the contract on
-- which the waiting list relies.
use http_relay.Base.{
  ℕ, String, ◌≡◌, ◌≢◌, refl, ap, Bool, true, List, Option, none, some, ok, err, AnyError, arith,
  inl, inr, str_dec, ite, Option-cases, Result-cases, if◌then◌else◌,
}
use http_relay.Types.{Bytes, StoredEntry, store_full}
use http_relay.HashMap.{HashMap}
use http_relay.HashMap
use http_relay.HashMap.Laws.{
  get-insert, IsDistinct-insert, len-insert_old, IsDistinct-remove_all, len-remove_all-le, mem_key,
  mem_key-keys_where, passes,
}
use http_relay.Memory.{Entry, EntryRepository, stored_entry, has_expired, delete_expired}
use http_relay.Memory
use http_relay.Memory.Room.{get-delete_expired}
use http_relay.Memory.MakeRoom
use http_relay.Memory.Insert.{
  IsValid, insert-IsValid, max_entries-insert, insert_stored, insert_other, insert_full_iff,
  insert_full_same,
}
use http_relay.Repository.{Repository, Contract, IsReliable, Outlives, IsSpent, mark_acked, is_past}

-- `get` only reads.
abbrev pub memory_repository : Repository
memory_repository = record {
  State = EntryRepository;
  insert = Memory.insert;
  get = λ r id. (r, Memory.get r id);
  ack = Memory.ack;
  cleanup_expired = Memory.cleanup_expired;
  max_entries = λ r. r.max_entries;
}

abbrev pub view : Option Entry → Option StoredEntry
view none = none
view (some e) = some (stored_entry e)

abbrev pub find : EntryRepository → String → Option StoredEntry
find r id = view (HashMap.get id r.entries)

view-Outlives :
    (now : ℕ) (before after : Option Entry)
    → MakeRoom.Outlives now before after
    → Outlives now (view before) (view after)
view-Outlives now before after (inl e) = inl (ap view e)
view-Outlives now before after (inr (n, e, s, sp)) = inr (ap view n, stored_entry e, ap view s, sp)

ack-IsValid : (r : EntryRepository) (id : String) → IsValid r → IsValid (Memory.ack r id).0
unfolding Memory.ack
ack-IsValid r id v = elim (Option-cases (HashMap.get id r.entries)) [
  | inl n ↦ rw (n, Memory.ack) v
  | inr (e, s) ↦
      rw (s, Memory.ack)
        (record {
          distinct = IsDistinct-insert id _ r.entries v.distinct;
          bounded = omega (
            arith,
            len-insert_old id (record e { acked = true; message_body = none }) r.entries s,
            v.bounded,
          );
        })
]

find-ack :
    (r : EntryRepository) (id j : String)
    → find (Memory.ack r id).0 j ≡ ite (str_dec id j) (mark_acked (find r j)) (find r j)
unfolding Memory.ack
find-ack r id j = elim (Option-cases (HashMap.get id r.entries)) [
  | inl n ↦ ground (arith, n)
  | inr (e, s) ↦
      ground (arith, s, get-insert id j (record e { acked = true; message_body = none }) r.entries)
]

cleanup-IsValid :
    (r : EntryRepository) (now : ℕ) → IsValid r → IsValid (Memory.cleanup_expired r now).0
unfolding Memory.cleanup_expired delete_expired
cleanup-IsValid r now v = record {
  distinct =
      IsDistinct-remove_all (HashMap.keys_where (has_expired now) r.entries) r.entries v.distinct;
  bounded = omega (
    arith,
    len-remove_all-le (HashMap.keys_where (has_expired now) r.entries) r.entries,
    v.bounded,
  );
}

ack-ne-err : (r : EntryRepository) (id : String) (e : AnyError) → (Memory.ack r id).1 ≢ err e
unfolding Memory.ack
ack-ne-err r id e = elim (Option-cases (HashMap.get id r.entries)) [
  | inl n ↦ ground (arith, n)
  | inr (x, s) ↦ ground (arith, s)
]

cleanup_ids :
    (r : EntryRepository) (now : ℕ) (j : String) (ids : List String)
    → IsValid r
    → (Memory.cleanup_expired r now).1 ≡ ok ids
    → mem_key j ids ≡ passes (is_past now) (find r j)
unfolding Memory.cleanup_expired delete_expired
cleanup_ids r now j ids v e =
    ground (arith, mem_key-keys_where (has_expired now) j r.entries v.distinct)

find-cleanup :
    (r : EntryRepository) (now : ℕ) (j : String)
    → IsValid r
    → find (Memory.cleanup_expired r now).0 j
      ≡ (if passes (is_past now) (find r j) then none else find r j)
unfolding Memory.cleanup_expired
find-cleanup r now j v = ground (arith, get-delete_expired now j r.entries v.distinct)

cleanup-ne-err :
    (r : EntryRepository) (now : ℕ) (e : AnyError) → (Memory.cleanup_expired r now).1 ≢ err e
unfolding Memory.cleanup_expired
cleanup-ne-err r now e = ground arith

get-find :
    (r : EntryRepository) (id : String) (e : Option StoredEntry)
    → Memory.get r id ≡ ok e
    → e ≡ find r id
unfolding Memory.get
get-find r id e h = ground arith

full-spares :
    (r : EntryRepository) (created now : ℕ) (id : String) (body : Bytes) (ct : Option String)
    (exp : ℕ) (j : String) (e : StoredEntry)
    → IsValid r
    → (Memory.insert r created now id body ct exp).1 ≡ ok store_full
    → find (Memory.insert r created now id body ct exp).0 j ≡ some e
    → (find r id ≡ none) × (¬ IsSpent now e)
full-spares r created now id body ct exp j e v h g =
    let (n, _, live) = (insert_full_iff r created now id body ct exp v).0 h in
    let g' : find r j ≡ some e = rw (insert_full_same r created now id body ct exp v h) at g in
    (
      ap view n,
      elim (Option-cases (HashMap.get j r.entries)) [
        | inl m ↦ cc (rw m at g')
        | inr (x, s) ↦ λ sp. live j x s (ground arith)
      ],
    )

-- The in-memory repository keeps the contract: `get` finds what `insert` stored, a deletion to make
-- room or to clean up takes only entries past their time or acknowledged, an ACK clears the body,
-- and a refusal means that no entry could be given up.
pub memory_contract : Contract memory_repository
memory_contract = record {
  IsValid = IsValid;
  find = find;
  get-IsValid = λ r id v. v;
  find-get = λ r id j v. refl;
  get-find = λ r id {e} v h. get-find r id e h;
  insert-IsValid = insert-IsValid;
  max_entries-insert =
      λ r created now id body ct exp v. max_entries-insert r created now id body ct exp;
  insert_stored =
      λ r created now id body ct exp v h. ap view (insert_stored r created now id body ct exp h);
  insert_other = λ r created now id body ct exp j v h.
      view-Outlives now _ _ (insert_other r created now id body ct exp j v h);
  insert_full = full-spares;
  ack-IsValid = ack-IsValid;
  find-ack = λ r id j v h. find-ack r id j;
  find-ack_failed = λ r id j {e} v h. absurd (ack-ne-err r id e h);
  cleanup-IsValid = cleanup-IsValid;
  cleanup_ids = λ r now j {ids} v h. cleanup_ids r now j ids v h;
  find-cleanup = λ r now j v h. find-cleanup r now j v;
  find-cleanup_failed = λ r now j {e} v h. absurd (cleanup-ne-err r now e h);
}

writes : (r : EntryRepository) (id : String) → (done : Bool) × ((Memory.ack r id).1 ≡ ok done)
writes r id = elim (Result-cases (Memory.ack r id).1) [
  | inl x ↦ x
  | inr (e, q) ↦ absurd (ack-ne-err r id e q)
]

pub memory_reliable : IsReliable memory_repository
unfolding Memory.get
memory_reliable = record { reads = λ r id. (_, refl); writes = writes }

pub memory_contract-IsValid : (r : EntryRepository) → IsValid r → memory_contract.IsValid r
unfolding memory_contract
memory_contract-IsValid r v = v

pub IsValid-memory_contract : (r : EntryRepository) → memory_contract.IsValid r → IsValid r
unfolding memory_contract
IsValid-memory_contract r v = v

pub memory_contract-find :
    (r : EntryRepository) (id : String) → memory_contract.find r id ≡ find r id
unfolding memory_contract
memory_contract-find r id = refl
