-- ===== src/Tests/Truths.antt =====
-- The theorems on all answers of the relay, at an example: a consumer waits, and somebody posts.
use http_relay.Base.{◌≡◌, refl, true, [], none, Any, here, there, bytes, str_dec, retain}
use http_relay.Types.{Message, expiry}
use http_relay.Headers.{Response}
use http_relay.Config.{default}
use http_relay.HashMap.{get, insert, remove}
use http_relay.ClientIp.{client_ip, identify_client, contains, any_contains}
use http_relay.Response.{validate_id_length, message_response}
use http_relay.Requests.{received}
use http_relay.Memory
use http_relay.Memory.{make_room}
use http_relay.Memory.Contract.{memory_repository, memory_contract}
use http_relay.Waiters
use http_relay.Waiters.{add_message_waiter, delivered}
use http_relay.WaitingList.State
use http_relay.WaitingList.Methods.{
  store, get_or_subscribe, wait_for_message, notify_message_waiters,
}
use http_relay.WaitingList.Capacity.{ensure_waiter_capacity, waiters_for}
use http_relay.Inbox.{get_handler, post_handler, get_handler_awaited}
use http_relay.Server.Router.{inbox_get, inbox_post, inbox_getting, admit, begin, admitted, replies}
use http_relay.Server.Serving.{Relay, Reaches, stays, goes, arrives, wakes_inbox_get, start, resume}
use http_relay.Server.Bounds.{new-IsValid}
use http_relay.Server.Serving.Genuine.{IsBacked}
use http_relay.Server.Serving.Log.{told, log_of}
use http_relay.Inbox
use http_relay.Link
use http_relay.Server.Serving.Listens.{WaitsFor, handlers_wait}
use http_relay.Server.Serving.Truth.{answers_true}
use http_relay.Tests.{at, text_headers}
use http_relay.Tests.Clients.{small_net}
use http_relay.Tests.Serving.{Posted, small_axum, post_hello, let_in, idle}

abbrev get_a : Posted
get_a = (inbox_get, "a", [])

get_let_in :
    admit text_headers small_net small_axum default [] true get_a ≡ admitted inbox_get "a" [] []
unfolding admit identify_client client_ip contains any_contains
get_let_in = refl

abbrev asked : Relay text_headers memory_repository
asked = start text_headers memory_repository idle (
    begin text_headers small_net small_axum default idle.pending_list (at 500) (at 500) 0 inbox_get
      "a" [] [])

abbrev sent : Relay text_headers memory_repository
sent = start text_headers memory_repository asked (
    begin text_headers small_net small_axum default asked.pending_list (at 1000) (at 1000) 1
      inbox_post "a" [] (bytes "hello"))

abbrev message_sent : Message
message_sent = record { body = bytes "hello"; content_type = none }

abbrev answer : Response text_headers
answer = get_handler_awaited text_headers (received message_sent)

abbrev woken : Relay text_headers memory_repository
woken = resume text_headers memory_repository sent 0 (sent.pending_list, replies answer)

parked : Any (λ p. p ≡ (0, inbox_getting 0)) sent.under_way
unfolding begin get_handler post_handler validate_id_length get_or_subscribe wait_for_message
    waiters_for ensure_waiter_capacity add_message_waiter store Memory.insert Memory.get Memory.new
    make_room notify_message_waiters Waiters.notify_message_waiters get insert remove str_dec retain
    expiry State.new
parked = here refl

heard : Any (λ s. s ≡ delivered 0 message_sent) sent.pending_list.signals
unfolding begin get_handler post_handler validate_id_length get_or_subscribe wait_for_message
    waiters_for ensure_waiter_capacity add_message_waiter store Memory.insert Memory.get Memory.new
    make_room notify_message_waiters Waiters.notify_message_waiters get insert remove str_dec retain
    expiry State.new
heard = here refl

works : Reaches text_headers memory_repository default small_net small_axum [] true idle woken
unfolding begin
works =
    goes
      (goes (goes stays (arrives get_a (at 500) (at 500) get_let_in))
        (arrives post_hello (at 1000) (at 1000) let_in))
      (wakes_inbox_get (received message_sent) parked heard)

two_hundred : answer.status ≡ 200
unfolding get_handler_awaited message_response
two_hundred = refl

answers_true_example :
    IsBacked text_headers
      (told text_headers
        (memory_contract.find idle.pending_list.repository)
        (log_of text_headers memory_repository default small_net small_axum [] true works))
      inbox_get
      "a"
      answer
unfolding State.new works begin
answers_true_example =
    answers_true text_headers memory_contract default small_net small_axum [] true
      (Memory.new default.persist_db default.max_entries) idle woken works 0 inbox_get "a" [] []
      answer (new-IsValid default) refl refl refl (there (here refl)) (here refl) two_hundred

handlers_wait_example :
    WaitsFor default.inbox_timeout 0
      (Inbox.get_handler default text_headers idle.pending_list (at 500) "a" 0).0
      (Inbox.get_handler default text_headers idle.pending_list (at 500) "a" 0).1
    × WaitsFor default.inbox_timeout 0
        (Inbox.await_handler default idle.pending_list (at 500) (at 500) "a" 0).0
        (Inbox.await_handler default idle.pending_list (at 500) (at 500) "a" 0).1
    × WaitsFor default.link_timeout 0
        (Link.get_handler text_headers default idle.pending_list (at 500) "a" 0).0
        (Link.get_handler text_headers default idle.pending_list (at 500) "a" 0).1
    × WaitsFor default.link_timeout 0
        (Link.post_handler text_headers default idle.pending_list
          (at 500)
          (at 500)
          "a"
          []
          (bytes "hello")
          0).0
        (Link.post_handler text_headers default idle.pending_list
          (at 500)
          (at 500)
          "a"
          []
          (bytes "hello")
          0).1
handlers_wait_example =
    handlers_wait text_headers default idle.pending_list (at 500) "a" 0 (at 500) [] (bytes "hello")
