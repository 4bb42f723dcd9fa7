-- ===== src/Tests/Stores.antt =====
-- The theorems on the in-memory store, at examples.
use http_relay.Base.{
  String, ◌≡◌, ◌≤◌, ◌↔◌, refl, true, false, inl, none, some, ok, arith, bytes, ne_of_test, str_dec,
}
use http_relay.Types.{stored, store_full}
use http_relay.HashMap.{HashMap, get, len}
use http_relay.HashMap
use http_relay.Memory.{insert, make_room, delete_expired, oldest_acked, fresh, Entry}
use http_relay.Memory.MakeRoom.{IsSpent, Outlives}
use http_relay.Memory.Insert.{
  IsValid, insert_other, insert_full_iff, insert_full_same, insert_replaces,
}
use http_relay.Memory.Eviction.{IsEvicted, IsOldestAcked, insert_evicts_oldest}
use http_relay.Tests.{full_store, unread_store, entry_until}

pub full_store-IsValid : IsValid full_store
unfolding get str_dec
full_store-IsValid = record { distinct = (refl, (refl, tt)); bounded = omega arith }

unread_store-IsValid : IsValid unread_store
unfolding get str_dec
unread_store-IsValid = record { distinct = (refl, (refl, tt)); bounded = omega arith }

-- A third message finds room where the first entry was.
accepted : (insert full_store 500 500 "c" (bytes "new") none 990).1 ≡ ok stored
unfolding insert make_room delete_expired oldest_acked get HashMap.insert HashMap.remove
    HashMap.remove_all HashMap.keys_where str_dec
accepted = refl

insert_other_example :
    Outlives 500
      (get "b" full_store.entries)
      (get "b" (insert full_store 500 500 "c" (bytes "new") none 990).0.entries)
insert_other_example =
    insert_other full_store 500 500 "c" (bytes "new") none 990 "b" full_store-IsValid
      (inl (ne_of_test "c" "b" refl))

-- The acknowledged entry makes room.
evicted :
    IsEvicted 500 "a"
      (entry_until 900 true 1)
      full_store.entries
      (insert full_store 500 500 "c" (bytes "new") none 990).0.entries
unfolding insert make_room delete_expired oldest_acked get HashMap.insert HashMap.remove
    HashMap.remove_all HashMap.keys_where str_dec
evicted = (refl, omega arith, refl)

insert_evicts_oldest_example : IsOldestAcked 500 (entry_until 900 true 1) full_store.entries
insert_evicts_oldest_example =
    insert_evicts_oldest full_store 500 500 "c" (bytes "new") none 990 "a" (entry_until 900 true 1)
      full_store-IsValid (ne_of_test "c" "a" refl) evicted

insert_full_iff_example :
    ((insert unread_store 500 500 "c" (bytes "new") none 990).1 ≡ ok store_full) ↔ (
      (get "c" unread_store.entries ≡ none)
      × (2 ≤ 2)
      × ((j : String) (e : Entry) → get j unread_store.entries ≡ some e → ¬ IsSpent 500 e))
insert_full_iff_example =
    insert_full_iff unread_store 500 500 "c" (bytes "new") none 990 unread_store-IsValid

-- The store is full of undelivered messages.
refused : (insert unread_store 500 500 "c" (bytes "new") none 990).1 ≡ ok store_full
unfolding insert make_room delete_expired oldest_acked get HashMap.insert HashMap.remove
    HashMap.remove_all HashMap.keys_where str_dec
refused = refl

insert_full_same_example : (insert unread_store 500 500 "c" (bytes "new") none 990).0 ≡ unread_store
insert_full_same_example =
    insert_full_same unread_store 500 500 "c" (bytes "new") none 990 unread_store-IsValid refused

present : get "a" unread_store.entries ≡ some (entry_until 900 false 1)
unfolding get str_dec
present = refl

insert_replaces_example :
    ((insert unread_store 500 500 "a" (bytes "new") none 990).1 ≡ ok stored)
    × (get "a" (insert unread_store 500 500 "a" (bytes "new") none 990).0.entries
        ≡ some (fresh (bytes "new") none 990 500))
    × (get "b" (insert unread_store 500 500 "a" (bytes "new") none 990).0.entries
        ≡ get "b" unread_store.entries)
    × (len (insert unread_store 500 500 "a" (bytes "new") none 990).0.entries
        ≡ len unread_store.entries)
insert_replaces_example =
    insert_replaces unread_store 500 500 "a" (bytes "new") none 990 (entry_until 900 false 1) "b"
      present (ne_of_test "a" "b" refl)
