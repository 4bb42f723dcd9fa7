-- ===== src/Server/Serving/Panics.antt =====
-- No handler reaches an `unreachable!()`, in any state of the relay.
use http_relay.Base.{
  ℕ, String, ◌≡◌, ◌≢◌, refl, ◌∙◌, Bool, true, false, List, Option, none, some, Result, ok, err,
  Result-cases, inl, inr,
}
use http_relay.Types.{Bytes}
use http_relay.Headers.{Headers}
use http_relay.Response.{validate_id_length}
use http_relay.Config.{Config}
use http_relay.ClientIp.{Net}
use http_relay.Requests.{Progress, answers, waits, panics}
use http_relay.Repository.{Repository}
use http_relay.WaitingList.State.{
  WaitingList, Readings, SubscribeError, StoreAndSubscribeError, storage,
}
use http_relay.WaitingList.Methods.{is_acked, subscribe_ack}
use http_relay.Inbox
use http_relay.Inbox.{inbox_id, await_subscribed, await_unless_acked}
use http_relay.Inbox.Protocol.{get_handler-ne-panics}
use http_relay.Link
use http_relay.Link.{channel_id, post_subscribed, Fetched, fetched, refused, awaited_message}
use http_relay.Link.Handoff.{get_handler-ne-unreachable}
use http_relay.Server.Router.{
  Axum, Endpoint, root, inbox_ack, inbox_await, inbox_get, inbox_post, inbox_delete, link_get,
  link_post, begin, Parked, inbox_getting, inbox_awaiting, link_getting, link_posting, Progressed,
  replies, parks, panicked, progressed,
}
use http_relay.Server.Serving.{
  Relay, Step, arrives, is_refused, wakes_inbox_get, wakes_inbox_await, wakes_link_get,
  acknowledges, wakes_link_post, cleans_up, hangs_up, Reaches, stays, goes, settle,
  fetched_progress,
}

progressed-ne-panicked :
    (h : Headers) {A : Type 0} (done : A → Progressed h) (park : ℕ → Parked) (p : Progress A)
    → ((a : A) → done a ≢ panicked)
    → p ≢ panics
    → progressed h done park p ≢ panicked
progressed-ne-panicked h done park (answers a) d n = d a
progressed-ne-panicked h done park (waits rx timeout) d n = λ q. cc
progressed-ne-panicked h done park panics d n = λ q. n refl

await_subscribed-ne-panics :
    (config : Config) (r : Result ℕ SubscribeError) → await_subscribed config r ≢ panics
await_subscribed-ne-panics config (ok rx) = λ q. cc
await_subscribed-ne-panics config (err SubscribeError.not_found) = λ q. cc
await_subscribed-ne-panics config (err SubscribeError.waiter_limit_reached) = λ q. cc

unless_acked-ne-panics :
    {b : Repository} (config : Config) (t : Readings) (id : String) (tx : ℕ)
    (x : WaitingList b × Option Bool)
    → (await_unless_acked config t id tx x).1 ≢ panics
unless_acked-ne-panics config t id tx (wl, some true) = λ q. cc
unless_acked-ne-panics config t id tx (wl, some false) =
    await_subscribed-ne-panics config (subscribe_ack wl t id tx).1
unless_acked-ne-panics config t id tx (wl, none) =
    await_subscribed-ne-panics config (subscribe_ack wl t id tx).1

await_handler-ne-panics :
    {b : Repository} (config : Config) (wl : WaitingList b) (t t' : Readings) (id : String) (tx : ℕ)
    → (Inbox.await_handler config wl t t' id tx).1 ≢ panics
unfolding Inbox.await_handler
await_handler-ne-panics config wl t t' id tx =
    elim (Result-cases (validate_id_length id inbox_id)) [
      | inl (u, q) ↦
          rw (q, Inbox.await_handler) (unless_acked-ne-panics config t' id tx (is_acked wl t id))
      | inr (e, q) ↦ rw (q, Inbox.await_handler) (λ p. cc)
    ]

post_subscribed-ne-panics :
    (h : Headers) (config : Config) (r : Result ℕ StoreAndSubscribeError)
    → post_subscribed h config r ≢ panics
post_subscribed-ne-panics h config (ok rx) = λ q. cc
post_subscribed-ne-panics h config (err StoreAndSubscribeError.waiter_limit_reached) = λ q. cc
post_subscribed-ne-panics h config (err StoreAndSubscribeError.store_full) = λ q. cc
post_subscribed-ne-panics h config (err StoreAndSubscribeError.not_found) = λ q. cc
post_subscribed-ne-panics h config (err (storage e)) = λ q. cc

post_handler-ne-panics :
    {b : Repository} (h : Headers) (config : Config) (wl : WaitingList b) (t t' : Readings)
    (id : String) (headers : h.Map) (text : Bytes) (tx : ℕ)
    → (Link.post_handler h config wl t t' id headers text tx).1 ≢ panics
unfolding Link.post_handler
post_handler-ne-panics h config wl t t' id headers text tx =
    elim (Result-cases (validate_id_length id channel_id)) [
      | inl (u, q) ↦ rw (q, Link.post_handler) (post_subscribed-ne-panics h config _)
      | inr (e, q) ↦ rw (q, Link.post_handler) (λ p. cc)
    ]

fetched-ne-panicked :
    (h : Headers) (id : String) (f : Fetched h) → fetched_progress h id f ≢ panicked
fetched-ne-panicked h id (fetched msg) = λ q. cc
fetched-ne-panicked h id (refused r) = λ q. cc

begin-ne-panicked :
    (h : Headers) (net : Net) (axum : Axum h net) (config : Config) {b : Repository}
    (wl : WaitingList b) (t t' : Readings) (tx : ℕ) (endpoint : Endpoint) (id : String)
    (headers : h.Map) (text : Bytes)
    → (begin h net axum config wl t t' tx endpoint id headers text).1 ≢ panicked
unfolding begin
begin-ne-panicked h net axum config wl t t' tx root id headers text = λ q. cc
begin-ne-panicked h net axum config wl t t' tx inbox_ack id headers text = λ q. cc
begin-ne-panicked h net axum config wl t t' tx inbox_await id headers text =
    progressed-ne-panicked h _ inbox_awaiting _ (λ a q. cc)
      (await_handler-ne-panics config wl t t' id tx)
begin-ne-panicked h net axum config wl t t' tx inbox_get id headers text =
    progressed-ne-panicked h _ inbox_getting _ (λ a q. cc)
      (get_handler-ne-panics config h wl t id tx)
begin-ne-panicked h net axum config wl t t' tx inbox_post id headers text = λ q. cc
begin-ne-panicked h net axum config wl t t' tx inbox_delete id headers text = λ q. cc
begin-ne-panicked h net axum config wl t t' tx link_get id headers text =
    progressed-ne-panicked h _ (link_getting id) _ (fetched-ne-panicked h id)
      (get_handler-ne-unreachable config h wl t id tx)
begin-ne-panicked h net axum config wl t t' tx link_post id headers text =
    progressed-ne-panicked h _ link_posting _ (λ a q. cc)
      (post_handler-ne-panics h config wl t t' id headers text tx)

module _ (h : Headers) (b : Repository) where
  settle-panics :
      (s : Relay h b) (n : ℕ) (p : Progressed h)
      → p ≢ panicked
      → (settle h b s n p).panics ≡ s.panics
  settle-panics s n (replies r) d = refl
  settle-panics s n (parks p) d = refl
  settle-panics s n panicked d = absurd (d refl)

  module _ (config : Config) (net : Net) (axum : Axum h net) (networks : List net.Network)
      (link_compat : Bool) where
    Step-panics :
        (s s' : Relay h b)
        → Step h b config net axum networks link_compat s s'
        → s'.panics ≡ s.panics
    Step-panics s s' (arrives req t t' q) =
        settle-panics _ _ _ (begin-ne-panicked h net axum config s.pending_list t t' s.next _ _ _ _)
    Step-panics s s' (is_refused req q) = refl
    Step-panics s s' (wakes_inbox_get outcome p q) = refl
    Step-panics s s' (wakes_inbox_await outcome p q) = refl
    Step-panics s s' (wakes_link_get {id = id} outcome p q) =
        settle-panics _ _ _ (fetched-ne-panicked h id (awaited_message h outcome))
    Step-panics s s' (acknowledges t p) = refl
    Step-panics s s' (wakes_link_post outcome p q) = refl
    Step-panics s s' (cleans_up t) = refl
    Step-panics s s' (hangs_up n) = refl

    -- Whatever requests arrive and however their handlers interleave with each other and with the
    -- cleanup, no handler reaches its `unreachable!()`: the relay reaches only states with the
    -- panics that it had before.
    pub Reaches-panics :
        (s s' : Relay h b)
        → Reaches h b config net axum networks link_compat s s'
        → s'.panics ≡ s.panics
    Reaches-panics s s' stays = refl
    Reaches-panics s s' (goes {x} rest last) = Step-panics x s' last ∙ Reaches-panics s x rest
