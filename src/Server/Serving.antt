-- ===== src/Server/Serving.antt =====
-- The relay at work, of src/http_relay/server.rs: requests that are served concurrently, and the task
-- that cleans up. A step takes the lock on the waiting list once.
--
-- A request is named by the number of the channel that its handler may create. The clocks are free,
-- so the task may clean up at any time, and a wait may end by its timeout at any time:
-- this relation has more runs than the program. The time that a handler waits is in its first part
-- (Listens).
pub mod Calls
pub mod Reach
pub mod Log
pub mod Genuine
pub mod Begins
pub mod Wakes
pub mod Numbers
pub mod Truth
pub mod Listens
pub mod Heard
pub mod Panics
pub mod Bounds
use http_relay.Base.{ℕ, suc, String, ◌≡◌, Bool, List, [], ◌∷◌, Any, not, retain, ◌==◌}
use http_relay.Types.{Bytes, Message}
use http_relay.Headers.{Headers, Response}
use http_relay.Config.{Config}
use http_relay.ClientIp.{Net}
use http_relay.Requests.{Awaited, received, sender_dropped, elapsed, simple_response}
use http_relay.Repository.{Repository}
use http_relay.Waiters.{Signal, delivered, acknowledged, dropped}
use http_relay.WaitingList.State.{WaitingList, Readings}
use http_relay.WaitingList.Methods.{cleanup_expired}
use http_relay.Inbox.{get_handler_awaited, await_handler_awaited}
use http_relay.Link.{
  Fetched, fetched, refused, awaited_message, get_handler_fetched, post_handler_awaited,
}
use http_relay.Server.Router.{
  Axum, Endpoint, Admission, admitted, answered, admit, begin, Parked, inbox_getting,
  inbox_awaiting, link_posting, link_getting, link_fetched, Progressed, replies, parks, panicked,
}

-- What the channel lets the receiver see: its sender sent, or is dropped, or the time is over.
abbrev pub HearsMessage : List Signal → ℕ → Awaited Message → Type 0
HearsMessage signals rx (received msg) = Any (λ s. s ≡ delivered rx msg) signals
HearsMessage signals rx sender_dropped = Any (λ s. s ≡ dropped rx) signals
HearsMessage signals rx elapsed = Unit

abbrev pub HearsAck : List Signal → ℕ → Awaited (Unit {0}) → Type 0
HearsAck signals rx (received _) = Any (λ s. s ≡ acknowledged rx) signals
HearsAck signals rx sender_dropped = Any (λ s. s ≡ dropped rx) signals
HearsAck signals rx elapsed = Unit

abbrev pub is_other : ℕ → ℕ × Parked → Bool
is_other n p = not (p.0 == n)

module _ (h : Headers) where
  abbrev pub fetched_progress : String → Fetched h → Progressed h
  fetched_progress id (fetched msg) = parks (link_fetched id msg)
  fetched_progress id (refused r) = replies r

module _ (h : Headers) (b : Repository) where
  -- The waiting list, the requests under way, the answers given, the requests whose handler
  -- panicked, and the next request.
  pub record Relay : Type 0 where
    pub pending_list : WaitingList b
    pub under_way : List (ℕ × Parked)
    pub answers : List (ℕ × Response h)
    pub panics : List ℕ
    pub next : ℕ

  abbrev pub settle : Relay → ℕ → Progressed h → Relay
  settle s n (replies r) = record s { answers = (n, r) ∷ s.answers }
  settle s n (parks p) = record s { under_way = (n, p) ∷ s.under_way }
  settle s n panicked = record s { panics = n ∷ s.panics }

  -- The request goes on from where it was parked.
  abbrev pub resume : Relay → ℕ → WaitingList b × Progressed h → Relay
  resume s n (wl, progress) =
      settle (record s { pending_list = wl; under_way = retain (is_other n) s.under_way }) n
        progress

  -- A new request was let in.
  abbrev pub start : Relay → WaitingList b × Progressed h → Relay
  start s (wl, progress) =
      settle (record s { pending_list = wl; next = suc s.next }) s.next progress

  module _ (config : Config) (net : Net) (axum : Axum h net) (networks : List net.Network)
      (link_compat : Bool) where
    pub data Step (s : Relay) : Relay → Type 0 where
      arrives :
          (req : axum.Request) {endpoint : Endpoint} {id : String} {headers : h.Map} {text : Bytes}
          → (t t' : Readings)
          → admit h net axum config networks link_compat req ≡ admitted endpoint id headers text
          → Step s (
              start s (begin h net axum config s.pending_list t t' s.next endpoint id headers text))
      is_refused :
          (req : axum.Request) {r : Response h}
          → admit h net axum config networks link_compat req ≡ answered r
          → Step s (start s (s.pending_list, replies r))
      wakes_inbox_get :
          {n rx : ℕ} (outcome : Awaited Message)
          → Any (λ p. p ≡ (n, inbox_getting rx)) s.under_way
          → HearsMessage s.pending_list.signals rx outcome
          → Step s (resume s n (s.pending_list, replies (get_handler_awaited h outcome)))
      wakes_inbox_await :
          {n rx : ℕ} (outcome : Awaited (Unit {0}))
          → Any (λ p. p ≡ (n, inbox_awaiting rx)) s.under_way
          → HearsAck s.pending_list.signals rx outcome
          → Step s (
              resume s n
                (s.pending_list, replies (simple_response h (await_handler_awaited outcome))))
      wakes_link_get :
          {n rx : ℕ} {id : String} (outcome : Awaited Message)
          → Any (λ p. p ≡ (n, link_getting id rx)) s.under_way
          → HearsMessage s.pending_list.signals rx outcome
          → Step s (resume s n (s.pending_list, fetched_progress h id (awaited_message h outcome)))
      acknowledges :
          {n : ℕ} {id : String} {msg : Message}
          → (t : Readings) → Any (λ p. p ≡ (n, link_fetched id msg)) s.under_way
          → Step s (
              resume s n (
                (get_handler_fetched h s.pending_list t id (fetched msg)).0,
                replies (get_handler_fetched h s.pending_list t id (fetched msg)).1,
              ))
      wakes_link_post :
          {n rx : ℕ} (outcome : Awaited (Unit {0}))
          → Any (λ p. p ≡ (n, link_posting rx)) s.under_way
          → HearsAck s.pending_list.signals rx outcome
          → Step s (resume s n (s.pending_list, replies (post_handler_awaited h outcome)))
      cleans_up :
          (t : Readings) → Step s (record s { pending_list = (cleanup_expired s.pending_list t).0 })
      hangs_up : (n : ℕ) → Step s (record s { under_way = retain (is_other n) s.under_way })

    pub data Reaches (s : Relay) : Relay → Type 0 where
      stays : Reaches s s
      goes : {x y : Relay} → Reaches s x → Step x y → Reaches s y
