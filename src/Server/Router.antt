-- ===== src/Server/Router.antt =====
-- `HttpRelay::build_router` of src/http_relay/server.rs: the routes, the layers around them, and what
-- each route does with a request.
--
-- Of axum and tower-http, a parameter chooses the route of a request and reads its body. The spans of
-- `TraceLayer` and the headers that `CorsLayer` adds to answers are left out.
use http_relay.Base.{
  ℕ, String, ◌≤◌, ◌≡◌, Bool, true, false, List, [], ◌∷◌, ◌++◌, Option, none, some, Result, ok, err,
  bytes, length, if◌then◌else◌,
}
use http_relay.Types.{Bytes, Message}
use http_relay.Status
use http_relay.Headers.{Headers, Response}
use http_relay.Response.{Simple}
use http_relay.Config.{Config}
use http_relay.ClientIp.{Net, IpAddr, identify_client}
use http_relay.Requests.{Progress, answers, waits, panics, simple_response}
use http_relay.Repository.{Repository}
use http_relay.WaitingList.State.{WaitingList, Readings}
use http_relay.Inbox
use http_relay.Link
use http_relay.Link.{Fetched, fetched, refused}

pub data Method : Type 0 where
  get post delete : Method

-- The handlers.
pub data Endpoint : Type 0 where
  root inbox_ack inbox_await inbox_get inbox_post inbox_delete link_get link_post : Endpoint

pub record Route : Type 0 where
  pub path : String
  pub handlers : List (Method × Endpoint)

abbrev pub inbox_routes : List Route
inbox_routes =
    record { path = "/"; handlers = (get, root) ∷ [] }
    ∷ record { path = "/inbox/{id}/ack"; handlers = (get, inbox_ack) ∷ [] }
    ∷ record { path = "/inbox/{id}/await"; handlers = (get, inbox_await) ∷ [] }
    ∷ record {
      path = "/inbox/{id}";
      handlers = (get, inbox_get) ∷ (post, inbox_post) ∷ (delete, inbox_delete) ∷ [];
    }
    ∷ []

abbrev pub link_routes : List Route
link_routes =
    record { path = "/link/{id}"; handlers = (get, link_get) ∷ (post, link_post) ∷ [] } ∷ []

-- The routes, with the feature `link-compat` or without.
abbrev pub routes : Bool → List Route
routes link_compat = inbox_routes ++ (if link_compat then link_routes else [])

-- What axum finds for a request: a handler with the `{id}` of the path, or an answer of its own.
pub data Routed (h : Headers) : Type 0 where
  matched : Endpoint → String → Routed h
  unmatched : Response h → Routed h

-- What the router uses of axum and tower-http. `body` reads the body under a `DefaultBodyLimit`, and
-- `preflight` is the answer that `CorsLayer` gives in place of the router.
pub record Axum (h : Headers) (net : Net) : Type 1 where
  pub Request : Type 0
  pub peer : Request → IpAddr
  pub forwarded : Request → net.Headers
  pub headers : Request → h.Map
  pub route : List Route → Request → Routed h
  pub body : ℕ → Request → Result Bytes (Response h)
  pub preflight : Request → Option (Response h)
  -- `(StatusCode, &str).into_response()`
  pub text_response : Simple → Response h
  pub body_limited :
      (limit : ℕ) (req : Request) (text : Bytes) → body limit req ≡ ok text → length text ≤ limit

-- Whether the handler takes the body of the request.
abbrev pub takes_body : Endpoint → Bool
takes_body inbox_post = true
takes_body link_post = true
takes_body root = false
takes_body inbox_ack = false
takes_body inbox_await = false
takes_body inbox_get = false
takes_body inbox_delete = false
takes_body link_get = false

-- A request reaches a handler, with the ID, the headers and the body that it takes, or it is answered
-- before.
pub data Admission (h : Headers) : Type 0 where
  admitted : Endpoint → String → h.Map → Bytes → Admission h
  answered : Response h → Admission h

-- What a request is still doing after its handler's first use of the waiting list: it waits for a
-- receiver, or, on a link, it has a message and is about to acknowledge it.
pub data Parked : Type 0 where
  inbox_getting inbox_awaiting link_posting : ℕ → Parked
  link_getting : String → ℕ → Parked
  link_fetched : String → Message → Parked

pub data Progressed (h : Headers) : Type 0 where
  replies : Response h → Progressed h
  parks : Parked → Progressed h
  panicked : Progressed h

abbrev pub progressed :
    (h : Headers) {A : Type 0} → (A → Progressed h) → (ℕ → Parked) → Progress A → Progressed h
progressed h done park (answers a) = done a
progressed h done park (waits rx timeout) = parks (park rx)
progressed h done park panics = panicked

module _ (h : Headers) (net : Net) (axum : Axum h net) where
  -- The extractors of the handler.
  abbrev pub extract : Config → axum.Request → Routed h → Admission h
  extract config req (unmatched r) = answered r
  extract config req (matched endpoint id) =
      if takes_body endpoint
      then (elim (axum.body config.max_body_size req) [
        | ok text ↦ admitted endpoint id (axum.headers req) text
        | err r ↦ answered r
      ])
      else admitted endpoint id (axum.headers req) []

  -- `identify_client` stands before the routes.
  abbrev pub identified : Config → List net.Network → Bool → axum.Request → Admission h
  identified config networks link_compat req =
      identify_client net networks (λ s. answered (axum.text_response s))
        (λ ip. extract config req (axum.route (routes link_compat) req)) (axum.peer req)
        (axum.forwarded req)

  -- The layers and the routes. The CORS layer stands outside of the others, if there is one.
  unfoldable pub admit : Config → List net.Network → Bool → axum.Request → Admission h
  admit config networks link_compat req =
      if config.cors_allow_all
      then (elim (axum.preflight req) [
        | some r ↦ answered r
        | none ↦ identified config networks link_compat req
      ])
      else identified config networks link_compat req

  -- The first part of the handler, on a fresh channel.
  unfoldable pub begin :
      Config
      → {b : Repository} → WaitingList b
      → Readings
      → Readings
      → ℕ
      → Endpoint
      → String
      → h.Map
      → Bytes
      → WaitingList b × Progressed h
  begin config wl t t' tx root id headers text =
      (wl, replies (axum.text_response (Status.ok, bytes "Http Relay")))
  begin config wl t t' tx inbox_ack id headers text =
      let (wl', result) = Inbox.ack_handler wl t id in (wl', replies (simple_response h result))
  begin config wl t t' tx inbox_await id headers text =
      let (wl', progress) = Inbox.await_handler config wl t t' id tx in
      (wl', progressed h (λ r. replies (simple_response h r)) inbox_awaiting progress)
  begin config wl t t' tx inbox_get id headers text =
      let (wl', progress) = Inbox.get_handler config h wl t id tx in
      (wl', progressed h replies inbox_getting progress)
  begin config wl t t' tx inbox_post id headers text =
      let (wl', result) = Inbox.post_handler config h wl t id headers text in
      (wl', replies (simple_response h result))
  begin config wl t t' tx inbox_delete id headers text =
      let (wl', result) = Inbox.delete_handler wl t id in (wl', replies (simple_response h result))
  begin config wl t t' tx link_get id headers text =
      let (wl', progress) = Link.get_handler h config wl t id tx in
      (
        wl',
        progressed h
            (λ f. elim f [ refused r ↦ replies r | fetched msg ↦ parks (link_fetched id msg) ])
            (link_getting id) progress,
      )
  begin config wl t t' tx link_post id headers text =
      let (wl', progress) = Link.post_handler h config wl t t' id headers text tx in
      (wl', progressed h replies link_posting progress)
