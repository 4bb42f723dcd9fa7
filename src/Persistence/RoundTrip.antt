-- ===== src/Persistence/RoundTrip.antt =====
-- The round trip through the columns of a table in SQLite.
use http_relay.Base.{ℕ, String, ◌≡◌, Bool, Option, some, ok}
use http_relay.Types.{Bytes, StoredEntry, stored}
use http_relay.Repository.{new_entry, mark_acked}
use http_relay.Repository.RoundTrip.{insert_get, insert_ack_get}
use http_relay.Persistence.{Database, SqliteRepository, sqlite_repository}
use http_relay.Persistence
use http_relay.Persistence.Laws.{Laws}
use http_relay.Persistence.Insert.{IsValid}
use http_relay.Persistence.Contract.{sqlite_contract, sqlite_contract-IsValid}

module _ (db : Database) (laws : Laws db) (r : SqliteRepository db) (created now : ℕ) (id : String)
    (body : Bytes) (ct : Option String) (exp : ℕ) where
  abbrev written : SqliteRepository db
  written = (Persistence.insert db r created now id body ct exp).0

  -- Where the table holds valid flags, a message that SQLite accepted is read back as it was
  -- written, with its content type and expiry and unacknowledged; once it is acknowledged, it is
  -- read back acknowledged and without its body, with the same content type and expiry. Either
  -- reading may also fail.
  pub sqlite_round_trip :
      IsValid db laws r
      → (Persistence.insert db r created now id body ct exp).1 ≡ ok stored
      → ((e : Option StoredEntry)
          → (Persistence.get db (Persistence.insert db r created now id body ct exp).0 id).1 ≡ ok e
          → e ≡ some (new_entry body ct exp))
        × ((done : Bool) (e : Option StoredEntry)
            → (Persistence.ack db (Persistence.insert db r created now id body ct exp).0 id).1
              ≡ ok done
            → (Persistence.get db
                (Persistence.ack db (Persistence.insert db r created now id body ct exp).0 id).0
                id).1
              ≡ ok e
            → e ≡ mark_acked (some (new_entry body ct exp)))
  sqlite_round_trip valid accepted =
      let v = sqlite_contract-IsValid db laws r valid in
      (
        λ e read. insert_get (sqlite_contract db laws) r created now id body ct exp v accepted read,
        λ done e acked read.
            insert_ack_get (sqlite_contract db laws) r created now id body ct exp v accepted acked
              read,
      )
