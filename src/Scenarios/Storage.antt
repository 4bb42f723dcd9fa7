-- ===== src/Scenarios/Storage.antt =====
-- The tests of src/http_relay/storage_memory.rs.
use http_relay.Base.{
  ℕ, String, ◌+◌, ◌-◌, ◌≡◌, refl, Bool, true, false, not, ◌&&◌, List, [], ◌∷◌, Option, none, some,
  Result, ok, err, AnyError, ◌==◌, bytes, str_dec, ite,
}
use http_relay.Types.{StoredEntry, InsertOutcome, stored, store_full}
use http_relay.HashMap.{get, insert, remove, remove_all, retain_mut, keys_where}
use http_relay.Memory.{EntryRepository, make_room}
use http_relay.Memory
use http_relay.WaitingList.State.{is_store_full}
use http_relay.Scenarios.{has_body, all_pass}

abbrev create_test_repository : EntryRepository
create_test_repository = Memory.new none 100

-- The clock, and an hour before and after.
abbrev now : ℕ
now = 10000000

abbrev past : ℕ
past = now - 3600000

abbrev future : ℕ
future = now + 3600000

-- The entry of an ID, which passes a test.
abbrev entry_passes : (StoredEntry → Bool) → EntryRepository → String → Bool
entry_passes p r id = elim (Memory.get r id) [ ok none ↦ false | ok (some e) ↦ p e | err e ↦ false ]

abbrev exists : EntryRepository → String → Bool
exists = entry_passes (λ e. true)

abbrev is_stored : Result InsertOutcome AnyError → Bool
is_stored (ok stored) = true
is_stored (ok store_full) = false
is_stored (err e) = false

abbrev counts : ℕ → EntryRepository → Bool
counts n r = elim (Memory.count r) [ ok m ↦ m == n | err e ↦ false ]

abbrev text_is : String → Option String → Bool
text_is text none = false
text_is text (some other) = ite (str_dec other text) true false

-- One millisecond between them.
abbrev insert_in_order : EntryRepository → ℕ → List String → ℕ → EntryRepository
insert_in_order r at [] expires_at = r
insert_in_order r at (id ∷ ids) expires_at =
    insert_in_order (Memory.insert r at at id (bytes "body") none expires_at).0 (at + 1) ids
      expires_at

abbrev test_insert_and_get : Bool
test_insert_and_get =
    let r =
      (Memory.insert create_test_repository now now "test-id" (bytes "test body")
        (some "text/plain") future).0 in
    entry_passes
      (λ e.
        has_body "test body" e.message_body
        && text_is "text/plain" e.content_type
        && not e.acked
        && e.expires_at == future)
      r "test-id"

abbrev test_get_nonexistent : Bool
test_get_nonexistent = not (exists create_test_repository "nonexistent")

abbrev test_ack : Bool
test_ack =
    let r =
      (Memory.insert create_test_repository now now "test-id" (bytes "test body")
        (some "text/plain") future).0 in
    let (r', was_acked) = Memory.ack r "test-id" in
    (elim was_acked [ ok b ↦ b | err e ↦ false ])
    && entry_passes (λ e. e.acked && (elim e.message_body [ none ↦ true | some body ↦ false ])) r'
        "test-id"

abbrev test_cleanup_expired : Bool
test_cleanup_expired =
    let r = (Memory.insert create_test_repository now now "expired" (bytes "old") none past).0 in
    let r' = (Memory.insert r now now "valid" (bytes "new") none future).0 in
    let (r'', deleted_ids) = Memory.cleanup_expired r' now in
    (elim deleted_ids [
      | ok ids ↦ elim ids [ (id ∷ []) ↦ text_is "expired" (some id) | _ ↦ false ]
      | err e ↦ false
    ])
    && not (exists r'' "expired")
    && exists r'' "valid"

abbrev test_insert_new_id_when_full_of_undelivered_messages_is_rejected : Bool
test_insert_new_id_when_full_of_undelivered_messages_is_rejected =
    let r = insert_in_order (Memory.new none 3) now ("id1" ∷ "id2" ∷ "id3" ∷ []) future in
    let (r', outcome) = Memory.insert r (now + 3) (now + 3) "id4" (bytes "body4") none future in
    is_store_full outcome
    && counts 3 r'
    && not (exists r' "id4")
    && entry_passes (λ e. has_body "body" e.message_body) r' "id1"
    && entry_passes (λ e. has_body "body" e.message_body) r' "id2"
    && entry_passes (λ e. has_body "body" e.message_body) r' "id3"

abbrev test_insert_when_full_deletes_expired_entry : Bool
test_insert_when_full_deletes_expired_entry =
    let r = insert_in_order (Memory.new none 3) now ("id1" ∷ "id2" ∷ []) future in
    let r' = insert_in_order r (now + 2) ("expired" ∷ []) past in
    let (r'', outcome) = Memory.insert r' (now + 3) (now + 3) "id4" (bytes "body4") none future in
    is_stored outcome
    && not (exists r'' "expired")
    && exists r'' "id1"
    && exists r'' "id2"
    && exists r'' "id4"

abbrev test_insert_when_full_deletes_oldest_acked_entry : Bool
test_insert_when_full_deletes_oldest_acked_entry =
    let r =
      insert_in_order (Memory.new none 3) now ("unacked" ∷ "older-acked" ∷ "newer-acked" ∷ [])
        future in
    let r' = (Memory.ack (Memory.ack r "older-acked").0 "newer-acked").0 in
    let (r'', outcome) = Memory.insert r' (now + 3) (now + 3) "id4" (bytes "body4") none future in
    is_stored outcome
    && not (exists r'' "older-acked")
    && exists r'' "unacked"
    && exists r'' "newer-acked"
    && exists r'' "id4"

abbrev test_insert_existing_id_when_full_replaces_without_deleting_others : Bool
test_insert_existing_id_when_full_replaces_without_deleting_others =
    let r = insert_in_order (Memory.new none 3) now ("A" ∷ "B" ∷ "C" ∷ []) future in
    let (r', outcome) = Memory.insert r (now + 3) (now + 3) "A" (bytes "updated-A") none future in
    is_stored outcome
    && counts 3 r'
    && entry_passes (λ e. has_body "updated-A" e.message_body) r' "A"
    && exists r' "B"
    && exists r' "C"

-- Every test of this file passes.
passed :
    all_pass (
      test_insert_and_get ∷ test_get_nonexistent ∷ test_ack ∷ test_cleanup_expired
      ∷ test_insert_new_id_when_full_of_undelivered_messages_is_rejected
      ∷ test_insert_when_full_deletes_expired_entry
      ∷ test_insert_when_full_deletes_oldest_acked_entry
      ∷ test_insert_existing_id_when_full_replaces_without_deleting_others ∷ [])
    ≡ true
unfolding Memory.new Memory.insert Memory.get Memory.ack Memory.count Memory.cleanup_expired
    make_room Memory.delete_expired Memory.oldest_acked get insert remove remove_all retain_mut
    keys_where str_dec
passed = refl
