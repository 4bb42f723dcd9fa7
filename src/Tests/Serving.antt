-- ===== src/Tests/Serving.antt =====
-- The theorems on the relay at work, at an example: somebody posts, and the relay cleans up.
use http_relay.Base.{
  ℕ, String, ◌≡◌, ◌≤◌, ◌*◌, refl, true, List, [], none, Result, ok, err, length, leb, if◌then◌else◌,
  arith, bytes,
}
use http_relay.Types.{Bytes}
use http_relay.Headers.{Response}
use http_relay.Config.{default}
use http_relay.ClientIp.{v4, client_ip, identify_client, contains, any_contains}
use http_relay.Response.{into_response}
use http_relay.Memory
use http_relay.Memory.Contract.{memory_repository}
use http_relay.WaitingList.State
use http_relay.Server.{AppState, new_state}
use http_relay.Server.Bounds.{HasBounds}
use http_relay.Server.Router.{
  Axum, Endpoint, inbox_post, Route, Routed, matched, admit, begin, admitted,
}
use http_relay.Server.Serving.{Relay, Reaches, stays, goes, arrives, cleans_up, start}
use http_relay.Server.Serving.Bounds.{relay_bounded, stored_bytes}
use http_relay.Server.Serving.Panics.{Reaches-panics}
use http_relay.WaitingList.Methods.{cleanup_expired}
use http_relay.Tests.{at, text_headers}
use http_relay.Tests.Clients.{small_net}

-- A request names its handler, its ID and its body.
abbrev pub Posted : Type 0
Posted = Endpoint × String × Bytes

abbrev pub text_of : ℕ × Bytes → Response text_headers
text_of s = into_response text_headers s

abbrev pub read_body : ℕ → Posted → Result Bytes (Response text_headers)
read_body limit (endpoint, id, text) =
    if leb (length text) limit then ok text else err (text_of (413, []))

pub read_body-limited :
    (limit : ℕ) (req : Posted) (text : Bytes) → read_body limit req ≡ ok text → length text ≤ limit
read_body-limited limit (endpoint, id, body) text q = ground (arith, q)

abbrev pub find_route : List Route → Posted → Routed text_headers
find_route table (endpoint, id, text) = matched endpoint id

abbrev pub small_axum : Axum text_headers small_net
small_axum = record {
  Request = Posted;
  peer = λ req. v4 5;
  forwarded = λ req. [];
  headers = λ req. [];
  route = find_route;
  body = read_body;
  preflight = λ req. none;
  text_response = text_of;
  body_limited = read_body-limited;
}

abbrev pub post_hello : Posted
post_hello = (inbox_post, "a", bytes "hello")

pub let_in :
    admit text_headers small_net small_axum default [] true post_hello
    ≡ admitted inbox_post "a" [] (bytes "hello")
unfolding admit identify_client client_ip contains any_contains
let_in = refl

abbrev pub state : AppState memory_repository
state = record {
  config = default;
  pending_list = State.new memory_repository (Memory.new default.persist_db default.max_entries);
}

abbrev pub idle : Relay text_headers memory_repository
idle = record {
  pending_list = state.pending_list;
  under_way = [];
  answers = [];
  panics = [];
  next = 0;
}

abbrev pub posted : Relay text_headers memory_repository
posted = start text_headers memory_repository idle (
    begin text_headers small_net small_axum default idle.pending_list (at 1000) (at 1000) 0
      inbox_post "a" [] (bytes "hello"))

abbrev cleaned : Relay text_headers memory_repository
cleaned = record posted { pending_list = (cleanup_expired posted.pending_list (at 2000)).0 }

works : Reaches text_headers memory_repository default small_net small_axum [] true idle cleaned
works = goes (goes stays (arrives post_hello (at 1000) (at 1000) let_in)) (cleans_up (at 2000))

relay_bounded_example :
    HasBounds default.max_entries cleaned.pending_list
    × (stored_bytes cleaned.pending_list.repository.entries
        ≤ default.max_entries * default.max_body_size)
unfolding new_state
relay_bounded_example =
    relay_bounded text_headers small_net small_axum default [] true state idle cleaned refl refl
      works

Reaches-panics_example : cleaned.panics ≡ idle.panics
Reaches-panics_example =
    Reaches-panics text_headers memory_repository default small_net small_axum [] true idle cleaned
      works
