-- ===== src/Server/Serving/Listens.antt =====
-- What a handler that waits waits for: its own channel, for the configured time, and not in vain.
use http_relay.Base.{
  ℕ, String, ◌≡◌, ◌≤◌, ◌+◌, refl, sym, Bool, true, false, inl, inr, Option, none, some, Result, ok,
  err, Result-cases,
}
use http_relay.Types.{Bytes, Message}
use http_relay.Headers.{Headers}
use http_relay.Response.{validate_id_length}
use http_relay.Config.{Config}
use http_relay.Requests.{Progress, answers, waits, panics}
use http_relay.Repository.{Repository}
use http_relay.WaitingList.State.{
  WaitingList, Readings, SubscribeError, StoreAndSubscribeError, storage, GetOrSubscribeResult,
  message, waiting,
}
use http_relay.WaitingList.Methods.{
  get_or_subscribe, is_acked, subscribe_ack, store_and_subscribe_ack,
}
use http_relay.WaitingList.Channel.{
  get_or_subscribe-channel, subscribe_ack-channel, store_and_subscribe_ack-channel,
}
use http_relay.WaitingList.Subscribe.{get_or_subscribe-ne-not_found}
use http_relay.WaitingList.Senders.{held, sent}
use http_relay.WaitingList.Senders.Waits.{
  get_or_subscribe-waits, subscribe_ack-waits, store_and_subscribe_ack-waits,
}
use http_relay.Inbox
use http_relay.Inbox.{inbox_id, get_answer, await_subscribed, await_unless_acked}
use http_relay.Link
use http_relay.Link.{channel_id, get_fetched, post_subscribed}

-- The sender of the channel is with the waiters, or it was used or dropped.
abbrev pub IsHeard : {b : Repository} → WaitingList b → ℕ → Type 0
IsHeard wl tx = 1 ≤ held tx wl.waiters + sent tx wl.signals

-- The handler answers, or waits on its own channel `tx` for that time.
abbrev pub WaitsFor {ℓ} :
    {b : Repository} {A : Type ℓ} → ℕ → ℕ → WaitingList b → Progress A → Type 0
WaitsFor limit tx wl (answers a) = Unit
WaitsFor limit tx wl (waits rx timeout) = (rx ≡ tx) × (timeout ≡ limit) × IsHeard wl tx
WaitsFor limit tx wl panics = ⊥

module _ (h : Headers) {b : Repository} (config : Config) (wl : WaitingList b) (t : Readings)
    (id : String) (tx : ℕ) where
  abbrev subscribed : WaitingList b
  subscribed = (get_or_subscribe wl t id tx).0

  pub inbox_get-WaitsFor :
      WaitsFor config.inbox_timeout tx
        (Inbox.get_handler config h wl t id tx).0
        (Inbox.get_handler config h wl t id tx).1
  unfolding Inbox.get_handler
  inbox_get-WaitsFor = elim (Result-cases (validate_id_length id inbox_id)) [
    | inr (e, q) ↦ rw (q, Inbox.get_handler) tt
    | inl (u, q) ↦ rw (q, Inbox.get_handler) (got (get_or_subscribe wl t id tx).1 refl)
  ]
    where
      got :
          (x : Result GetOrSubscribeResult SubscribeError)
          → (get_or_subscribe wl t id tx).1 ≡ x
          → WaitsFor config.inbox_timeout tx subscribed (get_answer h config x)
      got (ok (message msg)) q = tt
      got (ok (waiting rx)) q = (
        sym (get_or_subscribe-channel t id tx rx wl q),
        refl,
        get_or_subscribe-waits t id tx rx wl q,
      )
      got (err SubscribeError.waiter_limit_reached) q = tt
      got (err SubscribeError.not_found) q = get_or_subscribe-ne-not_found wl t id tx q

  pub link_get-WaitsFor :
      WaitsFor config.link_timeout tx
        (Link.get_handler h config wl t id tx).0
        (Link.get_handler h config wl t id tx).1
  unfolding Link.get_handler
  link_get-WaitsFor = elim (Result-cases (validate_id_length id channel_id)) [
    | inr (e, q) ↦ rw (q, Link.get_handler) tt
    | inl (u, q) ↦ rw (q, Link.get_handler) (got (get_or_subscribe wl t id tx).1 refl)
  ]
    where
      got :
          (x : Result GetOrSubscribeResult SubscribeError)
          → (get_or_subscribe wl t id tx).1 ≡ x
          → WaitsFor config.link_timeout tx subscribed (get_fetched h config x)
      got (ok (message msg)) q = tt
      got (ok (waiting rx)) q = (
        sym (get_or_subscribe-channel t id tx rx wl q),
        refl,
        get_or_subscribe-waits t id tx rx wl q,
      )
      got (err SubscribeError.waiter_limit_reached) q = tt
      got (err SubscribeError.not_found) q = get_or_subscribe-ne-not_found wl t id tx q

  pub link_post-WaitsFor :
      (t' : Readings) (headers : h.Map) (text : Bytes)
      → WaitsFor config.link_timeout tx
          (Link.post_handler h config wl t t' id headers text tx).0
          (Link.post_handler h config wl t t' id headers text tx).1
  unfolding Link.post_handler
  link_post-WaitsFor t' headers text = elim (Result-cases (validate_id_length id channel_id)) [
    | inr (e, q) ↦ rw (q, Link.post_handler) tt
    | inl (u, q) ↦
        rw (q, Link.post_handler)
          (got _ (store_and_subscribe_ack wl t t' id _ config.link_timeout tx).1 refl)
  ]
    where
      got :
          (msg : Message) (x : Result ℕ StoreAndSubscribeError)
          → (store_and_subscribe_ack wl t t' id msg config.link_timeout tx).1 ≡ x
          → WaitsFor config.link_timeout tx
              (store_and_subscribe_ack wl t t' id msg config.link_timeout tx).0
              (post_subscribed h config x)
      got msg (ok rx) q = (
        sym (store_and_subscribe_ack-channel t' id tx rx wl t msg config.link_timeout q),
        refl,
        store_and_subscribe_ack-waits t' id tx rx wl t msg config.link_timeout q,
      )
      got msg (err StoreAndSubscribeError.waiter_limit_reached) q = tt
      got msg (err StoreAndSubscribeError.store_full) q = tt
      got msg (err StoreAndSubscribeError.not_found) q = tt
      got msg (err (storage e)) q = tt

  pub inbox_await-WaitsFor :
      (t' : Readings)
      → WaitsFor config.inbox_timeout tx
          (Inbox.await_handler config wl t t' id tx).0
          (Inbox.await_handler config wl t t' id tx).1
  unfolding Inbox.await_handler
  inbox_await-WaitsFor t' = elim (Result-cases (validate_id_length id inbox_id)) [
    | inr (e, q) ↦ rw (q, Inbox.await_handler) tt
    | inl (u, q) ↦ rw (q, Inbox.await_handler) (asked (is_acked wl t id))
  ]
    where
      got :
          (wl' : WaitingList b) (x : Result ℕ SubscribeError)
          → (subscribe_ack wl' t' id tx).1 ≡ x
          → WaitsFor config.inbox_timeout tx
              (subscribe_ack wl' t' id tx).0
              (await_subscribed config x)
      got wl' (ok rx) q = (
        sym (subscribe_ack-channel t' id tx rx wl' q),
        refl,
        subscribe_ack-waits t' id tx rx wl' q,
      )
      got wl' (err SubscribeError.not_found) q = tt
      got wl' (err SubscribeError.waiter_limit_reached) q = tt

      asked :
          (x : WaitingList b × Option Bool)
          → WaitsFor config.inbox_timeout tx
              (await_unless_acked config t' id tx x).0
              (await_unless_acked config t' id tx x).1
      asked (wl', some true) = tt
      asked (wl', some false) = got wl' _ refl
      asked (wl', none) = got wl' _ refl

  -- Each of the four handlers that may wait either answers or waits on its own channel, those of the
  -- inbox for `inbox_timeout` and those of links for `link_timeout` at most. None waits in vain: the
  -- sender of the channel is then held by the waiting list, or it was used or dropped. None reaches
  -- its `unreachable!()`.
  pub handlers_wait :
      (t' : Readings) (headers : h.Map) (text : Bytes)
      → WaitsFor config.inbox_timeout tx
          (Inbox.get_handler config h wl t id tx).0
          (Inbox.get_handler config h wl t id tx).1
        × WaitsFor config.inbox_timeout tx
            (Inbox.await_handler config wl t t' id tx).0
            (Inbox.await_handler config wl t t' id tx).1
        × WaitsFor config.link_timeout tx
            (Link.get_handler h config wl t id tx).0
            (Link.get_handler h config wl t id tx).1
        × WaitsFor config.link_timeout tx
            (Link.post_handler h config wl t t' id headers text tx).0
            (Link.post_handler h config wl t t' id headers text tx).1
  handlers_wait t' headers text = (
    inbox_get-WaitsFor,
    inbox_await-WaitsFor t',
    link_get-WaitsFor,
    link_post-WaitsFor t' headers text,
  )
