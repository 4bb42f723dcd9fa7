-- ===== src/Server/Serving/Genuine.antt =====
-- What is true of the requests under way and of the answers, by the log of all requests.
use http_relay.Base.{ℕ, String, ◌≡◌, ◌⊎◌, All, bytes}
use http_relay.Types.{Bytes, Message}
use http_relay.Headers.{Headers, Response}
use http_relay.Response.{message_response}
use http_relay.Link.{deprecated}
use http_relay.Repository.{Repository, Contract}
use http_relay.WaitingList.Traced.{Facts, IsTraced}
use http_relay.Server.Router.{
  Endpoint, root, inbox_ack, inbox_await, inbox_get, inbox_post, inbox_delete, link_get, link_post,
  admitted, answered, Parked, inbox_getting, inbox_awaiting, link_posting, link_getting,
  link_fetched, Progressed, replies, parks, panicked,
}
use http_relay.Server.Serving.{Relay}
use http_relay.Server.Serving.Log.{Log, Logs}

-- The answer claims something: a `GET` is answered with 200, the wait for an ACK is over with 200, or
-- the ACK state is "true".
abbrev pub Claims : (h : Headers) → Endpoint → Response h → Type 0
Claims h root r = ⊥
Claims h inbox_ack r = r.body ≡ bytes "true"
Claims h inbox_await r = r.status ≡ 200
Claims h inbox_get r = r.status ≡ 200
Claims h inbox_post r = ⊥
Claims h inbox_delete r = ⊥
Claims h link_get r = r.status ≡ 200
Claims h link_post r = r.status ≡ 200

-- What it claims: the message of the answer was posted to that ID, or the ID was acknowledged.
abbrev pub IsBacked : (h : Headers) → Facts → Endpoint → String → Response h → Type 0
IsBacked h f root id r = Unit
IsBacked h f inbox_ack id r = f.Acked id
IsBacked h f inbox_await id r = f.Acked id
IsBacked h f inbox_get id r = (msg : Message) × f.Posted id msg × (r ≡ message_response h msg)
IsBacked h f inbox_post id r = Unit
IsBacked h f inbox_delete id r = Unit
IsBacked h f link_get id r =
    (msg : Message) × f.Posted id msg × (r ≡ deprecated h (message_response h msg))
IsBacked h f link_post id r = f.Acked id

-- The answer is true.
abbrev pub Serves : (h : Headers) → Facts → Endpoint → String → Response h → Type 0
Serves h f endpoint id r = Claims h endpoint r → IsBacked h f endpoint id r

module _ (h : Headers) (f : Facts) (log : Log h) where
  -- The request was let in to that handler, with that ID.
  abbrev pub Came : ℕ → Endpoint → String → Type 0
  Came n endpoint id =
      (headers : h.Map) × (text : Bytes) × Logs h log n (admitted endpoint id headers text)

  -- A parked request waits for the channel that it created, for its ID.
  abbrev pub IsParked : ℕ × Parked → Type 0
  IsParked (n, inbox_getting rx) = (id : String) × Came n inbox_get id × f.Asked id rx
  IsParked (n, inbox_awaiting rx) = (id : String) × Came n inbox_await id × f.Awaited id rx
  IsParked (n, link_posting rx) = (id : String) × Came n link_post id × f.Awaited id rx
  IsParked (n, link_getting id rx) = Came n link_get id × f.Asked id rx
  IsParked (n, link_fetched id msg) = Came n link_get id × f.Posted id msg

  abbrev pub IsServed : ℕ × Response h → Type 0
  IsServed (n, r) =
      ((x : Response h) × Logs h log n (answered x))
      ⊎ ((endpoint : Endpoint) × (id : String) × Came n endpoint id × Serves h f endpoint id r)

  abbrev pub IsSettled : ℕ → Progressed h → Type 0
  IsSettled n (replies r) = IsServed (n, r)
  IsSettled n (parks p) = IsParked (n, p)
  IsSettled n panicked = Unit

  module _ {b : Repository} (c : Contract b) where
    pub record IsGenuine (s : Relay h b) : Type 0 where
      pub traced : IsTraced f c s.pending_list
      pub parked : All IsParked s.under_way
      pub served : All IsServed s.answers
