-- ===== src/Tests/RoundTrips.antt =====
-- The round trips through both backends, at examples.
use http_relay.Base.{◌≡◌, refl, Bool, Option, none, some, ok, bytes, str_dec}
use http_relay.Types.{StoredEntry, stored}
use http_relay.HashMap.{get, retain_mut, keys_where}
use http_relay.HashMap
use http_relay.Repository.{new_entry, mark_acked}
use http_relay.Memory
use http_relay.Memory.RoundTrip.{memory_round_trip}
use http_relay.Persistence
use http_relay.Persistence.RoundTrip.{sqlite_round_trip}
use http_relay.Tests.{full_store}
use http_relay.Tests.Stores.{full_store-IsValid}
use http_relay.Tests.Database.{list_database, list_laws, full_database, full_database-IsValid}

-- An ID that is there already, in the table and in the store.
replaced :
    (Persistence.insert list_database full_database 500 500 "a" (bytes "new") none 990).1
    ≡ ok stored
unfolding Persistence.insert Persistence.insert_row Persistence.make_room get retain_mut keys_where
    str_dec
replaced = refl

sqlite_round_trip_example :
    ((e : Option StoredEntry)
      → (Persistence.get list_database
          (Persistence.insert list_database full_database 500 500 "a" (bytes "new") none 990).0
          "a").1
        ≡ ok e
      → e ≡ some (new_entry (bytes "new") none 990))
    × ((done : Bool) (e : Option StoredEntry)
        → (Persistence.ack list_database
            (Persistence.insert list_database full_database 500 500 "a" (bytes "new") none 990).0
            "a").1
          ≡ ok done
        → (Persistence.get list_database
            (Persistence.ack list_database
              (Persistence.insert list_database full_database 500 500 "a" (bytes "new") none 990).0
              "a").0
            "a").1
          ≡ ok e
        → e ≡ mark_acked (some (new_entry (bytes "new") none 990)))
sqlite_round_trip_example =
    sqlite_round_trip list_database list_laws full_database 500 500 "a" (bytes "new") none 990
      full_database-IsValid replaced

renewed : (Memory.insert full_store 500 500 "b" (bytes "new") none 990).1 ≡ ok stored
unfolding Memory.insert Memory.make_room get HashMap.insert str_dec
renewed = refl

memory_round_trip_example :
    (Memory.get (Memory.insert full_store 500 500 "b" (bytes "new") none 990).0 "b"
      ≡ ok (some (new_entry (bytes "new") none 990)))
    × (Memory.get
          (Memory.ack (Memory.insert full_store 500 500 "b" (bytes "new") none 990).0 "b").0
          "b"
        ≡ ok (mark_acked (some (new_entry (bytes "new") none 990))))
memory_round_trip_example =
    memory_round_trip full_store 500 500 "b" (bytes "new") none 990 full_store-IsValid renewed
