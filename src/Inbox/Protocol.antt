-- ===== src/Inbox/Protocol.antt =====
-- The protocol of the inbox: what the handlers answer one after the other for one message.
use http_relay.Base.{
  String, ◌≡◌, ◌≢◌, ◌<◌, refl, sym, ap, subst, ◌∙◌, true, false, inl, inr, [], none, some, Result,
  ok, err, AnyError, Result-cases, bytes, ℕ, arith,
}
use http_relay.Types.{Bytes, Message, StoredEntry, InsertOutcome, stored, store_full, expiry}
use http_relay.Config.{Config}
use http_relay.Headers.{Headers}
use http_relay.Response.{Simple, validate_id_length, message_response}
use http_relay.Status
use http_relay.Requests.{answers, panics, content_type_of}
use http_relay.Repository.{Repository, Contract, IsReliable, new_entry}
use http_relay.WaitingList.State.{
  WaitingList, Readings, SubscribeError, GetOrSubscribeResult, message, waiting,
}
use http_relay.WaitingList.Invariant.{Inv, store-Inv, ack-Inv, get_or_subscribe-Inv}
use http_relay.WaitingList.Methods.{store, ack, is_acked, get_or_subscribe}
use http_relay.WaitingList.Store.{store-find, available_found}
use http_relay.WaitingList.Ack.{ack_live, ack_true, is_acked_live}
use http_relay.WaitingList.Reads.{get_or_subscribe-repository}
use http_relay.WaitingList.Subscribe.{get_or_subscribe-ne-not_found}
use http_relay.Inbox.{
  inbox_id, store_answer, delete_answer, ack_answer, get_answer, post_handler, get_handler,
  delete_handler, ack_handler,
}

get_answer-ne-panics :
    (h : Headers) (config : Config) (r : Result GetOrSubscribeResult SubscribeError)
    → r ≢ err SubscribeError.not_found
    → get_answer h config r ≢ panics
get_answer-ne-panics h config (ok (message msg)) n = λ e. cc
get_answer-ne-panics h config (ok (waiting rx)) n = λ e. cc
get_answer-ne-panics h config (err SubscribeError.waiter_limit_reached) n = λ e. cc
get_answer-ne-panics h config (err SubscribeError.not_found) n = λ e. n refl

-- The GET handler of the inbox never reaches its `unreachable!()`.
pub get_handler-ne-panics :
    {b : Repository} (config : Config) (h : Headers) (wl : WaitingList b) (t : Readings)
    (id : String) (tx : ℕ)
    → (get_handler config h wl t id tx).1 ≢ panics
unfolding get_handler
get_handler-ne-panics config h wl t id tx = elim (Result-cases (validate_id_length id inbox_id)) [
  | inl (x, q) ↦
      rw (q, get_handler)
        (get_answer-ne-panics h config _ (get_or_subscribe-ne-not_found wl t id tx))
  | inr (e, q) ↦ rw (q, get_handler) (λ p. cc)
]

store_answer-ok :
    (r : Result InsertOutcome AnyError) → store_answer r ≡ ok (Status.ok, []) → r ≡ ok stored
store_answer-ok (ok stored) h = refl
store_answer-ok (ok store_full) h = cc
store_answer-ok (err e) h = cc

-- What each handler does with an ID that is not too long.
module _ {b : Repository} (wl : WaitingList b) (t : Readings) (id : String)
    (short : validate_id_length id inbox_id ≡ ok tt) where
  post_handler-short :
      (config : Config) (h : Headers) (headers : h.Map) (body : Bytes)
      → let msg : Message = record { body = body; content_type = content_type_of h headers } in
        let kept = store wl t id msg config.inbox_cache_ttl in
        post_handler config h wl t id headers body ≡ (kept.0, store_answer kept.1)
  unfolding post_handler
  post_handler-short config h headers body = rw (short, post_handler) refl

  get_handler-short :
      (config : Config) (h : Headers) (tx : ℕ)
      → let got = get_or_subscribe wl t id tx in
        get_handler config h wl t id tx ≡ (got.0, get_answer h config got.1)
  unfolding get_handler
  get_handler-short config h tx = rw (short, get_handler) refl

  pub delete_handler-short :
      delete_handler wl t id ≡ ((ack wl t id).0, delete_answer (ack wl t id).1)
  unfolding delete_handler
  delete_handler-short = rw (short, delete_handler) refl

  ack_handler-short : ack_handler wl t id ≡ ((is_acked wl t id).0, ack_answer (is_acked wl t id).1)
  unfolding ack_handler
  ack_handler-short = rw (short, ack_handler) refl

-- A handler that answers a request with `ok` found its ID short enough.
accepted-short :
    {b : Repository} (config : Config) (h : Headers) (wl : WaitingList b) (t : Readings)
    (id : String) (headers : h.Map) (body : Bytes)
    → (post_handler config h wl t id headers body).1 ≡ ok (Status.ok, [])
    → validate_id_length id inbox_id ≡ ok tt
unfolding post_handler
accepted-short config h wl t id headers body a =
    elim (Result-cases (validate_id_length id inbox_id)) [
      | inl (x, q) ↦ q
      | inr (e, q) ↦ absurd (rejected q)
    ]
  where
    rejected : {e : Simple} → validate_id_length id inbox_id ≢ err e
    rejected q = cc (a, ap (λ x. x.1) (rejection q))
      where
        rejection :
            {e : Simple}
            → validate_id_length id inbox_id ≡ err e
            → post_handler config h wl t id headers body ≡ (wl, err e)
        rejection q = rw (q, post_handler) refl

-- The steps of the protocol, each from a state that holds an entry `e` for the ID.
module _ {b : Repository} (c : Contract b) (max : ℕ) (rel : IsReliable b) (id : String)
    (short : validate_id_length id inbox_id ≡ ok tt) where
  abbrev Has : StoredEntry → WaitingList b → Type 0
  Has e s = Inv c max s × (c.find s.repository id ≡ some e)

  get-Has :
      (config : Config) (h : Headers) (s : WaitingList b) (t : Readings) (tx : ℕ) (e : StoredEntry)
      (body : Bytes)
      → Has e s
      → e.message_body ≡ some body
      → t.checked < e.expires_at
      → ((get_handler config h s t id tx).1
          ≡ answers (message_response h (record { body = body; content_type = e.content_type })))
        × Has e (get_handler config h s t id tx).0
  unfolding get_or_subscribe
  get-Has config h s t tx e body (v, held) unread early =
      let (x, q) = rel.reads s.repository id in
      let reads : (b.get s.repository id).1 ≡ ok (some e) =
        q ∙ ap ok (c.get-find s.repository id v.valid q ∙ held) in
      rw (get_handler-short s t id short config h tx) (
        rw (available_found t.checked _ e body reads unread early) refl,
        (
          get_or_subscribe-Inv c max s t id v tx,
          rw (get_or_subscribe-repository t id tx s) (c.find-get s.repository id id v.valid ∙ held),
        ),
      )

  delete-Has :
      (s : WaitingList b) (t : Readings) (e : StoredEntry)
      → Has e s
      → e.acked ≡ false
      → t.checked < e.expires_at
      → ((delete_handler s t id).1 ≡ ok (Status.ok, []))
        × Has (record e { acked = true; message_body = none }) (delete_handler s t id).0
  delete-Has s t e (v, held) new early =
      let done : (ack s t id).1 ≡ true = ack_live c s t id v.valid e rel held early in
      let (e', (found, _, marked, _, _)) = ack_true c s t id v.valid done in
      rw (delete_handler-short s t id short)
        (rw done refl, (ack-Inv c max s t id v, ground (arith, marked, found, held, new)))

  ack-Has :
      (s : WaitingList b) (t : Readings) (e : StoredEntry)
      → Has e s
      → e.acked ≡ true
      → t.checked < e.expires_at
      → (ack_handler s t id).1 ≡ ok (Status.ok, bytes "true")
  ack-Has s t e (v, held) acked early =
      rw (ack_handler-short s t id short, is_acked_live c s t id v.valid e rel held early, acked)
        refl

-- One message from its producer to its consumer, and back.
module _ {b : Repository} (c : Contract b) (max : ℕ) (rel : IsReliable b) (config : Config)
    (h : Headers) (wl : WaitingList b) (t : Readings) (id : String) (headers : h.Map)
    (body : Bytes) where
  abbrev pub sent : Message
  sent = record { body = body; content_type = content_type_of h headers }

  abbrev pub deadline : ℕ
  deadline = expiry t.called config.inbox_cache_ttl

  abbrev pub posted : WaitingList b
  posted = (post_handler config h wl t id headers body).0

  abbrev pub sent_entry : StoredEntry
  sent_entry = new_entry body (content_type_of h headers) deadline

  module _ (accepted : (post_handler config h wl t id headers body).1 ≡ ok (Status.ok, [])) where
    pub posted_short : validate_id_length id inbox_id ≡ ok tt
    posted_short = accepted-short config h wl t id headers body accepted

    handled :
        let kept = store wl t id sent config.inbox_cache_ttl in
        post_handler config h wl t id headers body ≡ (kept.0, store_answer kept.1)
    handled = post_handler-short wl t id posted_short config h headers body

    -- What a successful `POST` leaves behind.
    pub posted-Has :
        Inv c max wl → Inv c max posted × (c.find posted.repository id ≡ some sent_entry)
    posted-Has v =
        subst (λ s. Inv c max s × (c.find s.repository id ≡ some sent_entry))
          (sym (ap (λ x. x.0) handled))
          (
            store-Inv c max wl t id sent config.inbox_cache_ttl v,
            store-find wl t id sent config.inbox_cache_ttl c v.valid
                (store_answer-ok _ (sym (ap (λ x. x.1) handled) ∙ accepted)),
          )

  -- If a POST to the inbox in a valid state is answered with 200, a GET of the same ID is answered
  -- at once with the message, a DELETE after it with 200, and a request for the ACK state after
  -- that with "true", as long as each looks up the entry before it expires and the repository does
  -- not fail.
  pub exchange :
      (t1 t2 t3 : Readings) (tx : ℕ)
      → Inv c max wl
      → (post_handler config h wl t id headers body).1 ≡ ok (Status.ok, [])
      → (t1.checked < deadline) × (t2.checked < deadline) × (t3.checked < deadline)
      → let fetched = get_handler config h posted t1 id tx in
        let deleted = delete_handler fetched.0 t2 id in
        (fetched.1 ≡ answers (message_response h sent))
        × (deleted.1 ≡ ok (Status.ok, []))
        × ((ack_handler deleted.0 t3 id).1 ≡ ok (Status.ok, bytes "true"))
  exchange t1 t2 t3 tx v accepted (early1, early2, early3) =
      let short = posted_short accepted in
      let (answered, has1) =
        get-Has c max rel id short config h posted t1 tx sent_entry body (posted-Has accepted v)
          refl early1 in
      let fetched = (get_handler config h posted t1 id tx).0 in
      let (done, has2) = delete-Has c max rel id short fetched t2 sent_entry has1 refl early2 in
      (answered, done, ack-Has c max rel id short _ t3 _ has2 refl early3)
