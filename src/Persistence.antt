-- ===== src/Persistence.antt =====
-- src/http_relay/persistence.rs: the repository that keeps its entries in SQLite.
--
-- The database is a parameter: an operation for each SQL statement that the code sends. Every
-- operation returns the new connection, and may fail. `Laws` says what SQLite documents of them.
pub mod Laws
pub mod Room
pub mod Insert
pub mod Contract
pub mod RoundTrip
use http_relay.Base.{
  ℕ, String, ◌+◌, ◌-◌, Bool, true, false, not, ◌==◌, List, Option, none, some, Result, ok, err,
  AnyError, length, ltb, if◌then◌else◌,
}
use http_relay.Types.{Bytes, StoredEntry, InsertOutcome, stored, store_full}
use http_relay.Repository.{Repository}

-- A row of the table `entries`, without its ID.
pub record Row : Type 0 where
  pub message_body : Option Bytes
  pub content_type : Option String
  pub acked : ℕ
  pub expires_at : ℕ
  pub created_at : ℕ

-- `rusqlite::Error`: no row, or any other error.
pub data QueryError : Type 0 where
  no_rows : QueryError
  failure : String → QueryError

pub record Database : Type 1 where
  pub Connection : Type 0
  pub open_file : String → Result Connection String
  pub open_in_memory : Result Connection String
  -- `PRAGMA secure_delete=ON`, `PRAGMA journal_mode=WAL`, and the schema
  pub secure_delete : Connection → Connection × Result (Unit {0}) String
  pub write_ahead_log : Connection → Connection × Result (Unit {0}) String
  pub schema : Connection → Connection × Result (Unit {0}) String
  -- `SELECT EXISTS(SELECT 1 FROM entries WHERE id = ?1)`
  pub exists_id : Connection → String → Connection × Result Bool String
  -- `SELECT COUNT(*) FROM entries`
  pub count_all : Connection → Connection × Result ℕ String
  -- `DELETE FROM entries WHERE expires_at < ?1 RETURNING id`, prepared and then run
  pub prepare_delete : Connection → Connection × Result (Unit {0}) String
  pub delete_before : Connection → ℕ → Connection × Result (List String) String
  -- `DELETE ... WHERE id IN (SELECT id ... WHERE acked = 1 ORDER BY created_at ASC LIMIT ?1)`
  pub delete_acked : Connection → ℕ → Connection × Result ℕ String
  -- `INSERT OR REPLACE INTO entries ...`
  pub replace : Connection → String → Row → Connection × Result (Unit {0}) String
  -- `SELECT message_body, content_type, acked, expires_at FROM entries WHERE id = ?1`
  pub select : Connection → String → Connection × Result Row QueryError
  -- `UPDATE entries SET acked = 1, message_body = NULL WHERE id = ?1`
  pub set_acked : Connection → String → Connection × Result ℕ String
  -- `DELETE FROM entries WHERE id = ?1`
  pub delete_id : Connection → String → Connection × Result ℕ String

-- `.context(text)`
abbrev pub context {ℓ κ} :
    {C : Type ℓ} {A : Type κ} → String → C × Result A String → C × Result A AnyError
context text (c, ok a) = (c, ok a)
context text (c, err e) = (c, err text)

-- The `?` operator, and what follows it.
abbrev pub try {ℓ κ μ} :
    {C : Type ℓ} {A : Type κ} {B : Type μ}
    → C × Result A AnyError
    → (C → A → C × Result B AnyError)
    → C × Result B AnyError
try (c, err e) next = (c, err e)
try (c, ok a) next = next c a

abbrev pub new_row : Bytes → Option String → ℕ → ℕ → Row
new_row body content_type expires_at created_at = record {
  message_body = some body;
  content_type = content_type;
  acked = 0;
  expires_at = expires_at;
  created_at = created_at;
}

abbrev pub row_entry : Row → StoredEntry
row_entry row = record {
  message_body = row.message_body;
  content_type = row.content_type;
  acked = not (row.acked == 0);
  expires_at = row.expires_at;
}

abbrev pub selected : Result Row QueryError → Result (Option StoredEntry) AnyError
selected (ok row) = ok (some (row_entry row))
selected (err no_rows) = ok none
selected (err (failure e)) = err "Failed to get entry"

module _ (db : Database) where
  pub record SqliteRepository : Type 0 where
    pub connection : db.Connection
    pub max_entries : ℕ

  -- The end of `EntryRepository::new`, with an open connection.
  abbrev pub set_up : Bool → db.Connection → db.Connection × Result (Unit {0}) AnyError
  set_up is_file connection =
      try (context "Failed to enable secure delete" (db.secure_delete connection)) (λ c _.
        try
          (if is_file
            then context "Failed to enable WAL mode" (db.write_ahead_log c)
            else (c, ok tt))
          (λ c' _. context "Failed to create database schema" (db.schema c')))

  abbrev pub opened :
      ℕ → db.Connection × Result (Unit {0}) AnyError → Result SqliteRepository AnyError
  opened max (c, ok _) = ok (record { connection = c; max_entries = max })
  opened max (c, err e) = err e

  unfoldable pub new : Option String → ℕ → Result SqliteRepository AnyError
  new none max = elim db.open_in_memory [
    | ok c ↦ opened max (set_up false c)
    | err e ↦ err "Failed to open in-memory SQLite database"
  ]
  new (some path) max = elim (db.open_file path) [
    | ok c ↦ opened max (set_up true c)
    | err e ↦ err "Failed to open SQLite database file"
  ]

  abbrev pub contains : db.Connection → String → db.Connection × Result Bool AnyError
  contains c id = context "Failed to check for existing entry" (db.exists_id c id)

  abbrev pub count_entries : db.Connection → db.Connection × Result ℕ AnyError
  count_entries c = context "Failed to count entries" (db.count_all c)

  abbrev pub delete_expired : ℕ → db.Connection → db.Connection × Result (List String) AnyError
  delete_expired now c =
      try (context "Failed to prepare deletion of expired entries" (db.prepare_delete c))
        (λ c' _. context "Failed to delete expired entries" (db.delete_before c' now))

  -- The last part of `make_room`, where acknowledged entries are given up.
  abbrev pub give_up_acked : ℕ → ℕ → db.Connection → db.Connection × Result Bool AnyError
  give_up_acked max count c =
      try (context "Failed to delete acknowledged entries" (db.delete_acked c (count + 1 - max)))
        (λ c' deleted. (c', ok (ltb (count - deleted) max)))

  unfoldable pub make_room : ℕ → ℕ → db.Connection → db.Connection × Result Bool AnyError
  make_room now max connection = try (count_entries connection) (λ c count.
      if ltb count max
      then (c, ok true)
      else (try (delete_expired now c) (λ c' expired_ids.
          let count' = count - length expired_ids in
          if ltb count' max then (c', ok true) else give_up_acked max count' c')))

  -- The end of `insert`, when it is known whether there is room.
  abbrev pub write_row :
      String → Row → db.Connection → Bool → db.Connection × Result InsertOutcome AnyError
  write_row id row c false = (c, ok store_full)
  write_row id row c true =
      try (context "Failed to insert entry" (db.replace c id row)) (λ c' _. (c', ok stored))

  unfoldable pub insert_row :
      ℕ → ℕ → String → Row → db.Connection → db.Connection × Result InsertOutcome AnyError
  insert_row now max id row connection =
      try (contains connection id)
        (λ c exists. try (if exists then (c, ok true) else make_room now max c) (write_row id row))

  -- The connection after an operation, in the repository again.
  abbrev pub back {ℓ} :
      {A : Type ℓ}
      → SqliteRepository
      → db.Connection × Result A AnyError
      → SqliteRepository × Result A AnyError
  back r (c, result) = (record r { connection = c }, result)

  unfoldable pub insert :
      SqliteRepository
      → ℕ
      → ℕ
      → String
      → Bytes
      → Option String
      → ℕ
      → SqliteRepository × Result InsertOutcome AnyError
  insert r created now id body content_type expires_at =
      back r (
        insert_row now r.max_entries id (new_row body content_type expires_at created) r.connection)

  unfoldable pub get :
      SqliteRepository → String → SqliteRepository × Result (Option StoredEntry) AnyError
  get r id = let (c, result) = db.select r.connection id in back r (c, selected result)

  -- `rows_affected > 0`
  abbrev pub affected : db.Connection × Result ℕ AnyError → db.Connection × Result Bool AnyError
  affected (c, ok n) = (c, ok (ltb 0 n))
  affected (c, err e) = (c, err e)

  unfoldable pub ack : SqliteRepository → String → SqliteRepository × Result Bool AnyError
  ack r id =
      back r (affected (context "Failed to acknowledge entry" (db.set_acked r.connection id)))

  unfoldable pub delete : SqliteRepository → String → SqliteRepository × Result Bool AnyError
  delete r id = back r (affected (context "Failed to delete entry" (db.delete_id r.connection id)))

  unfoldable pub cleanup_expired :
      SqliteRepository → ℕ → SqliteRepository × Result (List String) AnyError
  cleanup_expired r now = back r (delete_expired now r.connection)

  unfoldable pub count : SqliteRepository → SqliteRepository × Result ℕ AnyError
  count r = back r (count_entries r.connection)

  abbrev pub sqlite_repository : Repository
  sqlite_repository = record {
    State = SqliteRepository;
    insert = insert;
    get = get;
    ack = ack;
    cleanup_expired = cleanup_expired;
    max_entries = λ r. r.max_entries;
  }
