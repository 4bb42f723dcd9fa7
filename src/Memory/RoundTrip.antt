-- ===== src/Memory/RoundTrip.antt =====
-- The round trip through the store in memory.
use http_relay.Base.{ℕ, String, ◌≡◌, ap, ◌∙◌, Option, some, ok}
use http_relay.Types.{Bytes, stored}
use http_relay.Repository.{new_entry, mark_acked}
use http_relay.Repository.RoundTrip.{insert_get, insert_ack_get}
use http_relay.Memory.{EntryRepository}
use http_relay.Memory
use http_relay.Memory.Insert.{IsValid}
use http_relay.Memory.Contract.{memory_contract, memory_contract-IsValid, memory_reliable}

-- In a valid store in memory, a message that was accepted is read back as it was written, with its
-- content type and expiry and unacknowledged; once it is acknowledged, it is read back acknowledged
-- and without its body, with the same content type and expiry.
pub memory_round_trip :
    (r : EntryRepository) (created now : ℕ) (id : String) (body : Bytes) (ct : Option String)
    (exp : ℕ)
    → IsValid r
    → (Memory.insert r created now id body ct exp).1 ≡ ok stored
    → (Memory.get (Memory.insert r created now id body ct exp).0 id
        ≡ ok (some (new_entry body ct exp)))
      × (Memory.get (Memory.ack (Memory.insert r created now id body ct exp).0 id).0 id
          ≡ ok (mark_acked (some (new_entry body ct exp))))
memory_round_trip r created now id body ct exp valid accepted =
    let v = memory_contract-IsValid r valid in
    let w = (Memory.insert r created now id body ct exp).0 in
    let (e, read) = memory_reliable.reads w id in
    let (done, acked) = memory_reliable.writes w id in
    let (e', read') = memory_reliable.reads (Memory.ack w id).0 id in
    (
      read ∙ ap ok (insert_get memory_contract r created now id body ct exp v accepted read),
      read'
          ∙ ap ok
              (insert_ack_get memory_contract r created now id body ct exp v accepted acked read'),
    )
