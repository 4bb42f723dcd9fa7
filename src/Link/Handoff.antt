-- ===== src/Link/Handoff.antt =====
-- The handoff of a message through the link handlers, from the producer that waits to the consumer.
use http_relay.Base.{
  String, ◌≡◌, ◌≢◌, ◌<◌, refl, ap, ◌∙◌, true, false, inl, inr, [], ◌∷◌, ◌++◌, some, Result, ok, err,
  Result-cases, ℕ, arith,
}
use http_relay.Types.{Bytes, Message, StoredEntry, expiry}
use http_relay.Waiters.{acknowledged}
use http_relay.Config.{Config}
use http_relay.Headers.{Headers, Response}
use http_relay.Response.{validate_id_length, message_response}
use http_relay.Requests.{Progress, answers, waits, panics, content_type_of}
use http_relay.Repository.{Repository, Contract, IsReliable, new_entry, mark_acked}
use http_relay.WaitingList.State.{
  WaitingList, Readings, SubscribeError, StoreAndSubscribeError, storage, GetOrSubscribeResult,
  message, waiting,
}
use http_relay.WaitingList.Methods.{ack, get_or_subscribe}
use http_relay.WaitingList.Limits.{IsWithin}
use http_relay.WaitingList.Linked.{IsLinked, store_and_subscribe_ack-IsLinked}
use http_relay.WaitingList.Store.{available_found}
use http_relay.WaitingList.Ack.{ack_live, ack_true}
use http_relay.WaitingList.Subscribe.{get_or_subscribe-ne-not_found}
use http_relay.Link.{
  channel_id, fetched, get_fetched, get_handler, get_handler_fetched, post_subscribed, post_handler,
}

get_fetched-ne-panics :
    (h : Headers) (config : Config) (r : Result GetOrSubscribeResult SubscribeError)
    → r ≢ err SubscribeError.not_found
    → get_fetched h config r ≢ panics
get_fetched-ne-panics h config (ok (message msg)) n = λ e. cc
get_fetched-ne-panics h config (ok (waiting rx)) n = λ e. cc
get_fetched-ne-panics h config (err SubscribeError.waiter_limit_reached) n = λ e. cc
get_fetched-ne-panics h config (err SubscribeError.not_found) n = λ e. n refl

-- The GET handler of a link never reaches its `unreachable!()`.
pub get_handler-ne-unreachable :
    {b : Repository} (config : Config) (h : Headers) (wl : WaitingList b) (t : Readings)
    (id : String) (tx : ℕ)
    → (get_handler h config wl t id tx).1 ≢ panics
unfolding get_handler
get_handler-ne-unreachable config h wl t id tx =
    elim (Result-cases (validate_id_length id channel_id)) [
      | inl (x, q) ↦
          rw (q, get_handler)
            (get_fetched-ne-panics h config _ (get_or_subscribe-ne-not_found wl t id tx))
      | inr (e, q) ↦ rw (q, get_handler) (λ p. cc)
    ]

post_subscribed-waits :
    (h : Headers) (config : Config) (r : Result ℕ StoreAndSubscribeError) (tx max : ℕ)
    → post_subscribed h config r ≡ waits tx max
    → r ≡ ok tx
post_subscribed-waits h config (ok rx) tx max q = cc
post_subscribed-waits h config (err StoreAndSubscribeError.waiter_limit_reached) tx max q = cc
post_subscribed-waits h config (err StoreAndSubscribeError.store_full) tx max q = cc
post_subscribed-waits h config (err StoreAndSubscribeError.not_found) tx max q = cc
post_subscribed-waits h config (err (storage e)) tx max q = cc

module _ {b : Repository} (c : Contract b) (rel : IsReliable b) (h : Headers) (id : String)
    (e : StoredEntry) (tx : ℕ) where
  -- A consumer with any message that takes the lock again tells the producer that waits then.
  fetched-acknowledges :
      (s : WaitingList b) (t : Readings) (msg : Message)
      → IsLinked c id e tx s
      → e.acked ≡ false
      → t.checked < e.expires_at
      → ((get_handler_fetched h s t id (fetched msg)).0.signals
          ≡ s.signals ++ (acknowledged tx ∷ []))
        × (c.find (get_handler_fetched h s t id (fetched msg)).0.repository id
            ≡ mark_acked (some e))
  unfolding get_handler_fetched
  fetched-acknowledges s t msg linked new early =
      let done : (ack s t id).1 ≡ true = ack_live c s t id linked.valid e rel linked.held early in
      let (e', (found, _, marked, told, _)) = ack_true c s t id linked.valid done in
      let fresh : e'.acked ≡ false = ground (arith, found, linked.held, new) in
      (told ∙ rw (fresh, linked.waits) refl, ground (arith, marked, found, linked.held, new))

  get-IsLinked :
      (config : Config) (s : WaitingList b) (t : Readings) (tx' : ℕ) (body : Bytes)
      → validate_id_length id channel_id ≡ ok tt
      → IsLinked c id e tx s
      → e.message_body ≡ some body
      → t.checked < e.expires_at
      → ((get_handler h config s t id tx').1
          ≡ answers (fetched (record { body = body; content_type = e.content_type })))
        × IsLinked c id e tx (get_handler h config s t id tx').0
        × ((get_handler h config s t id tx').0.signals ≡ s.signals)
  unfolding get_handler get_or_subscribe
  get-IsLinked config s t tx' body short linked unread early =
      let (x, q) = rel.reads s.repository id in
      let reads : (b.get s.repository id).1 ≡ ok (some e) =
        q ∙ ap ok (c.get-find s.repository id linked.valid q ∙ linked.held) in
      rw (short, get_handler)
        (rw (available_found t.checked _ e body reads unread early) (
          refl,
          record {
            valid = c.get-IsValid s.repository id linked.valid;
            held = c.find-get s.repository id id linked.valid ∙ linked.held;
            waits = linked.waits;
          },
          refl,
        ))

module _ {b : Repository} (c : Contract b) (rel : IsReliable b) (config : Config) (h : Headers)
    (wl : WaitingList b) (t t' : Readings) (id : String) (headers : h.Map) (body : Bytes)
    (tx max : ℕ) where
  abbrev pub linked_message : Message
  linked_message = record { body = body; content_type = content_type_of h headers }

  abbrev pub link_deadline : ℕ
  link_deadline = expiry t.called config.link_timeout

  abbrev pub linked : WaitingList b × Progress (Response h)
  linked = post_handler h config wl t t' id headers body tx

  abbrev pub e : StoredEntry
  e = new_entry body (content_type_of h headers) link_deadline

  post_handler-IsLinked :
      c.IsValid wl.repository
      → IsWithin wl
      → linked.1 ≡ waits tx max
      → (validate_id_length id channel_id ≡ ok tt) × IsLinked c id e tx linked.0
  unfolding post_handler
  post_handler-IsLinked v within q = elim (Result-cases (validate_id_length id channel_id)) [
    | inl (x, short) ↦ (
      short,
      rw (short, linked, post_handler)
          (store_and_subscribe_ack-IsLinked c wl t t' id linked_message config.link_timeout tx tx v
            within
            (post_subscribed-waits h config _ tx max (rw (short, linked, post_handler) at q))),
    )
    | inr (x, long) ↦ absurd (answers-ne-waits _ (rw (long, linked, post_handler) at q))
  ]
    where
      answers-ne-waits : (r : Response h) → answers r ≢ waits tx max
      answers-ne-waits r p = cc

  -- If a POST to a link in a valid state waits on the channel `tx`, a GET of the same ID gets its
  -- message at once, and when the GET handler has taken the lock again, that channel is told that
  -- the message was received, no other channel is told anything, and the body is deleted, as long
  -- as both look up the entry before it expires and the repository does not fail.
  pub handoff :
      (t1 t2 : Readings) (tx' : ℕ)
      → c.IsValid wl.repository
      → IsWithin wl
      → linked.1 ≡ waits tx max
      → (t1.checked < link_deadline) × (t2.checked < link_deadline)
      → let got = get_handler h config linked.0 t1 id tx' in
        let (after, response) = get_handler_fetched h got.0 t2 id (fetched linked_message) in
        (got.1 ≡ answers (fetched linked_message))
        × (after.signals ≡ linked.0.signals ++ (acknowledged tx ∷ []))
        × (c.find after.repository id ≡ mark_acked (some e))
  handoff t1 t2 tx' v within q (early1, early2) =
      let (short, held) = post_handler-IsLinked v within q in
      let (answered, kept, same) =
        get-IsLinked c rel h id e tx config linked.0 t1 tx' body short held refl early1 in
      let (told, marked) =
        fetched-acknowledges c rel h id e tx _ t2 linked_message kept refl early2 in
      (answered, told ∙ ap (λ s. s ++ (acknowledged tx ∷ [])) same, marked)

  -- A consumer that holds any message `old`, say of a producer before, and takes the lock again
  -- while a POST to the ID waits on `tx`, tells `tx` that its message was received and deletes the
  -- body of that message, and no channel is given the message; the consumer itself answers with
  -- `old`. This is from a valid state, before the message expires, and with a repository that does
  -- not fail.
  pub late_acknowledgement :
      (t2 : Readings) (old : Message)
      → c.IsValid wl.repository
      → IsWithin wl
      → linked.1 ≡ waits tx max
      → t2.checked < link_deadline
      → let (after, response) = get_handler_fetched h linked.0 t2 id (fetched old) in
        (after.signals ≡ linked.0.signals ++ (acknowledged tx ∷ []))
        × (c.find after.repository id ≡ mark_acked (some e))
        × (response.body ≡ old.body)
  unfolding get_handler_fetched message_response
  late_acknowledgement t2 old v within q early =
      let (told, marked) =
        fetched-acknowledges c rel h id e tx linked.0 t2 old (post_handler-IsLinked v within q).1
          refl early in
      (told, marked, refl)
