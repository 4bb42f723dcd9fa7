-- ===== src/Scenarios/Sqlite.antt =====
-- The unit tests of src/http_relay/persistence.rs, except for the one on `secure_delete`.
use http_relay.Base.{
  ℕ, String, ◌+◌, ◌-◌, ◌≡◌, refl, Bool, true, false, not, ◌&&◌, List, [], ◌∷◌, Option, none, some,
  Result, ok, err, AnyError, ◌==◌, bytes, str_dec, ite,
}
use http_relay.Types.{StoredEntry, InsertOutcome, stored, store_full}
use http_relay.HashMap.{remove, remove_all, retain_mut, keys_where}
use http_relay.HashMap
use http_relay.Persistence.{
  SqliteRepository, make_room, insert_row, insert, get, ack, delete, cleanup_expired, count, new,
}
use http_relay.WaitingList.State.{is_store_full}
use http_relay.Scenarios.Rows.{row_database}
use http_relay.Scenarios.{has_body, all_pass}

abbrev SqliteStore : Type 0
SqliteStore = SqliteRepository row_database

-- `EntryRepository::new(None, max).expect(..)`
abbrev repository_of : ℕ → SqliteStore
repository_of max = elim (new row_database none max) [
  | ok r ↦ r
  | err e ↦ record { connection = []; max_entries = 0 }
]

abbrev now : ℕ
now = 10000000

abbrev past : ℕ
past = now - 3600000

abbrev future : ℕ
future = now + 3600000

abbrev put :
    SqliteStore
    → ℕ
    → String
    → String
    → Option String
    → ℕ
    → SqliteStore × Result InsertOutcome AnyError
put r at id body content_type expires_at =
    insert row_database r at at id (bytes body) content_type expires_at

-- Whether there is an entry, and it passes a test.
abbrev passes : (StoredEntry → Bool) → Result (Option StoredEntry) AnyError → Bool
passes p (ok none) = false
passes p (ok (some e)) = p e
passes p (err e) = false

abbrev entry_passes : (StoredEntry → Bool) → SqliteStore → String → Bool
entry_passes p r id = passes p (get row_database r id).1

abbrev exists : SqliteStore → String → Bool
exists = entry_passes (λ e. true)

abbrev is_gone : SqliteStore → String → Bool
is_gone r id = elim (get row_database r id).1 [
  | ok none ↦ true
  | ok (some e) ↦ false
  | err e ↦ false
]

abbrev is_stored : Result InsertOutcome AnyError → Bool
is_stored (ok stored) = true
is_stored (ok store_full) = false
is_stored (err e) = false

-- The result of `ack` and `delete`, where it is not an error.
abbrev returns : Bool → Result Bool AnyError → Bool
returns expected (ok true) = expected
returns expected (ok false) = not expected
returns expected (err e) = false

abbrev counts : ℕ → SqliteStore → Bool
counts n r = elim (count row_database r).1 [ ok m ↦ m == n | err e ↦ false ]

abbrev text_is : String → Option String → Bool
text_is text none = false
text_is text (some other) = ite (str_dec other text) true false

abbrev only : String → Result (List String) AnyError → Bool
only id (ok (deleted ∷ [])) = ite (str_dec deleted id) true false
only id (ok []) = false
only id (ok (x ∷ y ∷ ids)) = false
only id (err e) = false

abbrev has_text : String → SqliteStore → String → Bool
has_text text r id = entry_passes (λ e. has_body text e.message_body) r id

-- One millisecond between them.
abbrev insert_each : SqliteStore → ℕ → List String → ℕ → SqliteStore
insert_each r at [] expires_at = r
insert_each r at (id ∷ ids) expires_at =
    insert_each (put r at id "body" none expires_at).0 (at + 1) ids expires_at

abbrev ack_each : SqliteStore → List String → SqliteStore
ack_each r [] = r
ack_each r (id ∷ ids) = ack_each (ack row_database r id).0 ids

abbrev test_insert_and_get : Bool
test_insert_and_get =
    let r = (put (repository_of 100) now "test-id" "test body" (some "text/plain") future).0 in
    has_text "test body" r "test-id"
    && entry_passes
        (λ e. text_is "text/plain" e.content_type && not e.acked && e.expires_at == future) r
        "test-id"

abbrev test_get_nonexistent : Bool
test_get_nonexistent = is_gone (repository_of 100) "nonexistent"

abbrev test_ack : Bool
test_ack =
    let r = (put (repository_of 100) now "test-id" "test body" (some "text/plain") future).0 in
    let (r', was_acked) = ack row_database r "test-id" in
    returns true was_acked
    && entry_passes (λ e. e.acked && not (elim e.message_body [ none ↦ false | some b ↦ true ])) r'
        "test-id"

abbrev test_ack_nonexistent : Bool
test_ack_nonexistent = returns false (ack row_database (repository_of 100) "nonexistent").1

abbrev test_delete : Bool
test_delete =
    let r = (put (repository_of 100) now "test-id" "test body" none future).0 in
    let (r', was_deleted) = delete row_database r "test-id" in
    returns true was_deleted && is_gone r' "test-id"

abbrev test_delete_nonexistent : Bool
test_delete_nonexistent = returns false (delete row_database (repository_of 100) "nonexistent").1

abbrev test_cleanup_expired : Bool
test_cleanup_expired =
    let r = (put (repository_of 100) now "expired" "old" none past).0 in
    let r' = (put r now "valid" "new" none future).0 in
    let (r'', deleted_ids) = cleanup_expired row_database r' now in
    only "expired" deleted_ids && is_gone r'' "expired" && exists r'' "valid"

abbrev test_count : Bool
test_count =
    let r = (put (repository_of 100) now "id1" "body1" none future).0 in
    let r' = (put r now "id2" "body2" none future).0 in
    counts 0 (repository_of 100) && counts 1 r && counts 2 r'

abbrev test_insert_or_replace : Bool
test_insert_or_replace =
    let r = (put (repository_of 100) now "test-id" "original" (some "text/plain") future).0 in
    let r' = (put r now "test-id" "replaced" (some "application/json") future).0 in
    has_text "replaced" r' "test-id"
    && entry_passes (λ e. text_is "application/json" e.content_type) r' "test-id"
    && counts 1 r'

abbrev test_insert_new_id_when_full_of_undelivered_messages_is_rejected : Bool
test_insert_new_id_when_full_of_undelivered_messages_is_rejected =
    let r = insert_each (repository_of 3) now ("id1" ∷ "id2" ∷ "id3" ∷ []) future in
    let (r', outcome) = put r (now + 3) "id4" "body4" none future in
    is_store_full outcome
    && counts 3 r'
    && is_gone r' "id4"
    && has_text "body" r' "id1"
    && has_text "body" r' "id2"
    && has_text "body" r' "id3"

abbrev test_insert_when_full_deletes_expired_entry : Bool
test_insert_when_full_deletes_expired_entry =
    let r = insert_each (repository_of 3) now ("id1" ∷ "id2" ∷ []) future in
    let r' = insert_each r (now + 2) ("expired" ∷ []) past in
    let (r'', outcome) = put r' (now + 3) "id4" "body4" none future in
    is_stored outcome
    && is_gone r'' "expired"
    && exists r'' "id1"
    && exists r'' "id2"
    && exists r'' "id4"

abbrev test_insert_when_full_deletes_oldest_acked_entry : Bool
test_insert_when_full_deletes_oldest_acked_entry =
    let r =
      insert_each (repository_of 3) now ("unacked" ∷ "older-acked" ∷ "newer-acked" ∷ []) future in
    let r' = ack_each r ("older-acked" ∷ "newer-acked" ∷ []) in
    let (r'', outcome) = put r' (now + 3) "id4" "body4" none future in
    is_stored outcome
    && is_gone r'' "older-acked"
    && exists r'' "unacked"
    && exists r'' "newer-acked"
    && exists r'' "id4"

abbrev test_insert_when_over_lowered_limit_deletes_enough_acked_entries : Bool
test_insert_when_over_lowered_limit_deletes_enough_acked_entries =
    let r =
      insert_each (repository_of 4) now ("unacked" ∷ "acked-1" ∷ "acked-2" ∷ "acked-3" ∷ [])
        future in
    let r' = ack_each r ("acked-1" ∷ "acked-2" ∷ "acked-3" ∷ []) in
    let lowered : SqliteStore = record r' { max_entries = 2 } in
    let (r'', outcome) = put lowered (now + 4) "new" "body" none future in
    is_stored outcome && counts 2 r'' && exists r'' "unacked" && exists r'' "new"

abbrev test_insert_existing_id_when_full_replaces_without_deleting_others : Bool
test_insert_existing_id_when_full_replaces_without_deleting_others =
    let r = insert_each (repository_of 3) now ("A" ∷ "B" ∷ "C" ∷ []) future in
    let (r', outcome) = put r (now + 3) "A" "updated-A" none future in
    is_stored outcome
    && counts 3 r'
    && has_text "updated-A" r' "A"
    && exists r' "B"
    && exists r' "C"

-- Every test of this file passes.
passed :
    all_pass (
      test_insert_and_get ∷ test_get_nonexistent ∷ test_ack ∷ test_ack_nonexistent ∷ test_delete
      ∷ test_delete_nonexistent ∷ test_cleanup_expired ∷ test_count ∷ test_insert_or_replace
      ∷ test_insert_new_id_when_full_of_undelivered_messages_is_rejected
      ∷ test_insert_when_full_deletes_expired_entry
      ∷ test_insert_when_full_deletes_oldest_acked_entry
      ∷ test_insert_when_over_lowered_limit_deletes_enough_acked_entries
      ∷ test_insert_existing_id_when_full_replaces_without_deleting_others ∷ [])
    ≡ true
unfolding new insert insert_row make_room get ack delete cleanup_expired count HashMap.get
    HashMap.insert remove remove_all retain_mut keys_where str_dec
passed = refl
