-- ===== src/Scenarios/Http.antt =====
-- Requests to the handlers, for the unit tests of src/http_relay/inbox_handler.rs and
-- src/http_relay/link_handler.rs, with header maps of texts.
--
-- Where a handler waits, its answer is made of what its receiver was given in the end, and it is that
-- of a timeout where that is nothing.
use http_relay.Base.{
  ℕ, String, Bool, false, List, [], ◌∷◌, Option, none, some, Result, ◌==◌, bytes, if◌then◌else◌,
}
use http_relay.Types.{Message}
use http_relay.Config.{Config}
use http_relay.Headers.{Response}
use http_relay.Response.{Simple}
use http_relay.Requests.{
  Awaited, received, sender_dropped, elapsed, Progress, answers, waits, panics, simple_response,
}
use http_relay.HashMap
use http_relay.Waiters.{Signal, delivered, acknowledged, dropped}
use http_relay.Memory.Contract.{memory_repository}
use http_relay.WaitingList.State.{WaitingList}
use http_relay.Inbox
use http_relay.Link
use http_relay.Link.{Fetched}
use http_relay.Tests.{text_headers}
use http_relay.Scenarios.{new_in_memory, at, has_body}

abbrev pub PendingList : Type 0
PendingList = WaitingList memory_repository

-- The `pending_list` of `HttpRelay::create_test_server`.
abbrev pub create_test_server : Config → PendingList
create_test_server config = new_in_memory config.max_entries

-- An answer, unless the handler panicked.
abbrev pub Answer : Type 0
Answer = Option (Response text_headers)

abbrev pub message_of : List Signal → ℕ → Awaited Message
message_of [] rx = elapsed
message_of (delivered tx msg ∷ ss) rx =
    let rest = message_of ss rx in if tx == rx then received msg else rest
message_of (dropped tx ∷ ss) rx =
    let rest = message_of ss rx in if tx == rx then sender_dropped else rest
message_of (acknowledged tx ∷ ss) rx = message_of ss rx

abbrev pub ack_of : List Signal → ℕ → Awaited (Unit {0})
ack_of [] rx = elapsed
ack_of (acknowledged tx ∷ ss) rx = let rest = ack_of ss rx in if tx == rx then received tt else rest
ack_of (dropped tx ∷ ss) rx = let rest = ack_of ss rx in if tx == rx then sender_dropped else rest
ack_of (delivered tx msg ∷ ss) rx = ack_of ss rx

-- A `POST` with a content type, or without.
abbrev pub post_as :
    List (String × String) → Config → PendingList → ℕ → String → String → PendingList × Answer
post_as headers config list now id body =
    let (list', result) =
      Inbox.post_handler config text_headers list (at now) id headers (bytes body) in
    (list', some (simple_response text_headers result))

abbrev pub post : Config → PendingList → ℕ → String → String → PendingList × Answer
post = post_as []

abbrev pub delete : PendingList → ℕ → String → PendingList × Answer
delete list now id =
    let (list', result) = Inbox.delete_handler list (at now) id in
    (list', some (simple_response text_headers result))

abbrev pub ack : PendingList → ℕ → String → PendingList × Answer
ack list now id =
    let (list', result) = Inbox.ack_handler list (at now) id in
    (list', some (simple_response text_headers result))

-- A `GET`, up to its wait for that receiver, and its answer with what was sent in the end.
abbrev pub get :
    Config → PendingList → ℕ → String → ℕ → PendingList × Progress (Response text_headers)
get config list now id rx = Inbox.get_handler config text_headers list (at now) id rx

abbrev pub got : List Signal → Progress (Response text_headers) → Answer
got signals (answers r) = some r
got signals (waits rx timeout) =
    some (Inbox.get_handler_awaited text_headers (message_of signals rx))
got signals panics = none

abbrev pub wait :
    Config → PendingList → ℕ → String → ℕ → PendingList × Progress (Result Simple Simple)
wait config list now id rx = Inbox.await_handler config list (at now) (at now) id rx

abbrev pub waited : List Signal → Progress (Result Simple Simple) → Answer
waited signals (answers r) = some (simple_response text_headers r)
waited signals (waits rx timeout) =
    some (simple_response text_headers (Inbox.await_handler_awaited (ack_of signals rx)))
waited signals panics = none

-- The same for a link.
abbrev pub link_get :
    Config → PendingList → ℕ → String → ℕ → PendingList × Progress (Fetched text_headers)
link_get config list now id rx = Link.get_handler text_headers config list (at now) id rx

abbrev pub link_got :
    PendingList → ℕ → String → Progress (Fetched text_headers) → PendingList × Answer
link_got list now id (answers f) =
    let (list', r) = Link.get_handler_fetched text_headers list (at now) id f in (list', some r)
link_got list now id (waits rx timeout) =
    let (list', r) =
      Link.get_handler_fetched text_headers list (at now) id
        (Link.awaited_message text_headers (message_of list.signals rx)) in
    (list', some r)
link_got list now id panics = (list, none)

abbrev pub link_post_as :
    List (String × String)
    → Config
    → PendingList
    → ℕ
    → String
    → String
    → ℕ
    → PendingList × Progress (Response text_headers)
link_post_as headers config list now id body rx =
    Link.post_handler text_headers config list (at now) (at now) id headers (bytes body) rx

abbrev pub link_posted : List Signal → Progress (Response text_headers) → Answer
link_posted signals (answers r) = some r
link_posted signals (waits rx timeout) =
    some (Link.post_handler_awaited text_headers (ack_of signals rx))
link_posted signals panics = none

-- `response.status_code()`, `response.text()` and `response.header(..)`
abbrev pub has_status : ℕ → Answer → Bool
has_status status none = false
has_status status (some r) = r.status == status

abbrev pub has_text : String → Answer → Bool
has_text text none = false
has_text text (some r) = has_body text (some r.body)

abbrev pub has_header : String → String → Answer → Bool
has_header name value none = false
has_header name value (some r) = elim (HashMap.get name r.headers) [
  | none ↦ false
  | some v ↦ has_body value (some (bytes v))
]

-- `"x".repeat(256)` and `"x".repeat(257)`
abbrev pub ok_id : String
ok_id =
    "xxxxxxxxxxxxxxxxxxxxxxxxxxxxxxxxxxxxxxxxxxxxxxxxxxxxxxxxxxxxxxxxxxxxxxxxxxxxxxxxxxxxxxxxxxxxxxxxxxxxxxxxxxxxxxxxxxxxxxxxxxxxxxxxxxxxxxxxxxxxxxxxxxxxxxxxxxxxxxxxxxxxxxxxxxxxxxxxxxxxxxxxxxxxxxxxxxxxxxxxxxxxxxxxxxxxxxxxxxxxxxxxxxxxxxxxxxxxxxxxxxxxxxxxxxxxxxxx"

abbrev pub long_id : String
long_id =
    "xxxxxxxxxxxxxxxxxxxxxxxxxxxxxxxxxxxxxxxxxxxxxxxxxxxxxxxxxxxxxxxxxxxxxxxxxxxxxxxxxxxxxxxxxxxxxxxxxxxxxxxxxxxxxxxxxxxxxxxxxxxxxxxxxxxxxxxxxxxxxxxxxxxxxxxxxxxxxxxxxxxxxxxxxxxxxxxxxxxxxxxxxxxxxxxxxxxxxxxxxxxxxxxxxxxxxxxxxxxxxxxxxxxxxxxxxxxxxxxxxxxxxxxxxxxxxxxxx"
