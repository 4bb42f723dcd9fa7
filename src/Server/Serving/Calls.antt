-- ===== src/Server/Serving/Calls.antt =====
-- What each part of a handler is, as a history of calls on the waiting list.
use http_relay.Base.{
  ℕ, String, ◌≡◌, ◌≤◌, refl, sym, ap, ◌∙◌, Bool, true, false, List, [], ◌∷◌, ◌++◌, All, All-append,
  Option, none, some, Result-cases, inl, inr, length,
}
use http_relay.Types.{Bytes, Message}
use http_relay.Headers.{Headers}
use http_relay.Response.{validate_id_length}
use http_relay.Config.{Config}
use http_relay.ClientIp.{Net}
use http_relay.Repository.{Repository}
use http_relay.WaitingList.State.{WaitingList, Readings}
use http_relay.WaitingList.Methods.{is_acked, cleanup_expired}
use http_relay.WaitingList.History.{
  Call, stores, acks, asks, subscribes, links, gets, cleans, step, run,
}
use http_relay.WaitingList.Traced.{Facts}
use http_relay.WaitingList.Traced.History.{Known}
use http_relay.Requests.{content_type_of}
use http_relay.Inbox
use http_relay.Inbox.{inbox_id, await_unless_acked}
use http_relay.Link
use http_relay.Link.{channel_id}
use http_relay.Server.Router.{
  Axum, Endpoint, root, inbox_ack, inbox_await, inbox_get, inbox_post, inbox_delete, link_get,
  link_post, begin,
}

-- What a call stores has at most that many bytes.
abbrev pub limits : ℕ → Facts
limits n = record {
  Asked = λ id tx. Unit;
  Awaited = λ id tx. Unit;
  Posted = λ id msg. length msg.body ≤ n;
  Acked = λ id. Unit;
}

-- The message of a `POST`.
abbrev pub message_of : (h : Headers) → h.Map → Bytes → Message
message_of h headers text = record { body = text; content_type = content_type_of h headers }

-- What the facts have to say of a request, so that they say it of the calls of its handler. The
-- acknowledgement of a link's message comes later.
abbrev pub Allows : Facts → (h : Headers) → ℕ → Endpoint → String → h.Map → Bytes → Type 0
Allows f h tx root id headers text = Unit
Allows f h tx inbox_ack id headers text = Unit
Allows f h tx inbox_await id headers text = f.Awaited id tx
Allows f h tx inbox_get id headers text = f.Asked id tx
Allows f h tx inbox_post id headers text = f.Posted id (message_of h headers text)
Allows f h tx inbox_delete id headers text = f.Acked id
Allows f h tx link_get id headers text = f.Asked id tx
Allows f h tx link_post id headers text = f.Posted id (message_of h headers text) × f.Awaited id tx

module _ {b : Repository} (f : Facts) where
  -- The second waiting list comes of the first by calls that the facts know.
  abbrev pub Follows : WaitingList b → WaitingList b → Type 0
  Follows wl wl' = (calls : List Call) × (wl' ≡ run wl calls) × All (Known f) calls

  pub run-append : (wl : WaitingList b) (xs ys : List Call) → run wl (xs ++ ys) ≡ run (run wl xs) ys
  unfolding run
  run-append wl [] ys = refl
  run-append wl (x ∷ xs) ys = run-append (step wl x) xs ys

  pub Follows-refl : (wl : WaitingList b) → Follows wl wl
  unfolding run
  Follows-refl wl = ([], refl, tt)

  pub Follows-trans : (x y z : WaitingList b) → Follows x y → Follows y z → Follows x z
  Follows-trans x y z (xs, p, fx) (ys, q, fy) = (
    xs ++ ys,
    q ∙ ap (λ w. run w ys) p ∙ sym (run-append x xs ys),
    All-append (Known f) xs ys fx fy,
  )

  pub step-Follows : (wl : WaitingList b) (call : Call) → Known f call → Follows wl (step wl call)
  unfolding run
  step-Follows wl call k = (call ∷ [], refl, (k, tt))

  module _ (wl : WaitingList b) (t : Readings) (id : String) where
    ack_handler-Follows : Follows wl (Inbox.ack_handler wl t id).0
    unfolding Inbox.ack_handler step
    ack_handler-Follows = elim (Result-cases (validate_id_length id inbox_id)) [
      | inl (u, q) ↦ rw (q, Inbox.ack_handler) (step-Follows wl (asks t id) tt)
      | inr (e, q) ↦ rw (q, Inbox.ack_handler) (Follows-refl wl)
    ]

    delete_handler-Follows : f.Acked id → Follows wl (Inbox.delete_handler wl t id).0
    unfolding Inbox.delete_handler step
    delete_handler-Follows k = elim (Result-cases (validate_id_length id inbox_id)) [
      | inl (u, q) ↦ rw (q, Inbox.delete_handler) (step-Follows wl (acks t id) k)
      | inr (e, q) ↦ rw (q, Inbox.delete_handler) (Follows-refl wl)
    ]

    module _ (config : Config) (h : Headers) where
      inbox_get-Follows :
          (tx : ℕ) → f.Asked id tx → Follows wl (Inbox.get_handler config h wl t id tx).0
      unfolding Inbox.get_handler step
      inbox_get-Follows tx k = elim (Result-cases (validate_id_length id inbox_id)) [
        | inl (u, q) ↦ rw (q, Inbox.get_handler) (step-Follows wl (gets t id tx) k)
        | inr (e, q) ↦ rw (q, Inbox.get_handler) (Follows-refl wl)
      ]

      inbox_post-Follows :
          (headers : h.Map) (text : Bytes)
          → f.Posted id (message_of h headers text)
          → Follows wl (Inbox.post_handler config h wl t id headers text).0
      unfolding Inbox.post_handler step
      inbox_post-Follows headers text k = elim (Result-cases (validate_id_length id inbox_id)) [
        | inl (u, q) ↦
            rw (q, Inbox.post_handler) (step-Follows wl (stores t id _ config.inbox_cache_ttl) k)
        | inr (e, q) ↦ rw (q, Inbox.post_handler) (Follows-refl wl)
      ]

      link_get-Follows :
          (tx : ℕ) → f.Asked id tx → Follows wl (Link.get_handler h config wl t id tx).0
      unfolding Link.get_handler step
      link_get-Follows tx k = elim (Result-cases (validate_id_length id channel_id)) [
        | inl (u, q) ↦ rw (q, Link.get_handler) (step-Follows wl (gets t id tx) k)
        | inr (e, q) ↦ rw (q, Link.get_handler) (Follows-refl wl)
      ]

      link_post-Follows :
          (t' : Readings) (headers : h.Map) (text : Bytes) (tx : ℕ)
          → f.Posted id (message_of h headers text)
          → f.Awaited id tx
          → Follows wl (Link.post_handler h config wl t t' id headers text tx).0
      unfolding Link.post_handler step
      link_post-Follows t' headers text tx k a =
          elim (Result-cases (validate_id_length id channel_id)) [
            | inl (u, q) ↦
                rw (q, Link.post_handler)
                  (step-Follows wl (links t t' id _ config.link_timeout tx) (k, a))
            | inr (e, q) ↦ rw (q, Link.post_handler) (Follows-refl wl)
          ]

  -- The subscription of `await_handler`, if there is one.
  unless_acked-Follows :
      (config : Config) (t : Readings) (id : String) (tx : ℕ) (x : WaitingList b × Option Bool)
      → f.Awaited id tx
      → Follows x.0 (await_unless_acked config t id tx x).0
  unfolding step
  unless_acked-Follows config t id tx (wl, some true) k = Follows-refl wl
  unless_acked-Follows config t id tx (wl, some false) k = step-Follows wl (subscribes t id tx) k
  unless_acked-Follows config t id tx (wl, none) k = step-Follows wl (subscribes t id tx) k

  await_handler-Follows :
      (wl : WaitingList b) (t t' : Readings) (id : String) (config : Config) (tx : ℕ)
      → f.Awaited id tx
      → Follows wl (Inbox.await_handler config wl t t' id tx).0
  unfolding Inbox.await_handler step
  await_handler-Follows wl t t' id config tx k =
      elim (Result-cases (validate_id_length id inbox_id)) [
        | inl (u, q) ↦
            rw (q, Inbox.await_handler)
              (Follows-trans wl (is_acked wl t id).0 _ (step-Follows wl (asks t id) tt)
                (unless_acked-Follows config t' id tx (is_acked wl t id) k))
        | inr (e, q) ↦ rw (q, Inbox.await_handler) (Follows-refl wl)
      ]

  pub cleanup-Follows : (wl : WaitingList b) (t : Readings) → Follows wl (cleanup_expired wl t).0
  unfolding step
  cleanup-Follows wl t = step-Follows wl (cleans t) tt

  pub fetched-Follows :
      (h : Headers) (wl : WaitingList b) (t : Readings) (id : String) (msg : Message)
      → f.Acked id
      → Follows wl (Link.get_handler_fetched h wl t id (Link.fetched msg)).0
  unfolding Link.get_handler_fetched step
  fetched-Follows h wl t id msg k = step-Follows wl (acks t id) k

  pub begin-Follows :
      (h : Headers) (net : Net) (axum : Axum h net) (config : Config) (wl : WaitingList b)
      (t t' : Readings) (tx : ℕ) (endpoint : Endpoint) (id : String) (headers : h.Map)
      (text : Bytes)
      → Allows f h tx endpoint id headers text
      → Follows wl (begin h net axum config wl t t' tx endpoint id headers text).0
  unfolding begin
  begin-Follows h net axum config wl t t' tx root id headers text k = Follows-refl wl
  begin-Follows h net axum config wl t t' tx inbox_ack id headers text k =
      ack_handler-Follows wl t id
  begin-Follows h net axum config wl t t' tx inbox_await id headers text k =
      await_handler-Follows wl t t' id config tx k
  begin-Follows h net axum config wl t t' tx inbox_get id headers text k =
      inbox_get-Follows wl t id config h tx k
  begin-Follows h net axum config wl t t' tx inbox_post id headers text k =
      inbox_post-Follows wl t id config h headers text k
  begin-Follows h net axum config wl t t' tx inbox_delete id headers text k =
      delete_handler-Follows wl t id k
  begin-Follows h net axum config wl t t' tx link_get id headers text k =
      link_get-Follows wl t id config h tx k
  begin-Follows h net axum config wl t t' tx link_post id headers text k =
      link_post-Follows wl t id config h t' headers text tx k.0 k.1
