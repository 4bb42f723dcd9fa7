-- ===== src/Server/Serving/Begins.antt =====
-- What the first part of each handler answers, or waits for, on a waiting list in which all has its
-- cause.
use http_relay.Base.{
  ℕ, String, ◌≡◌, refl, subst, Bool, true, false, inl, inr, ◌++◌, Option, none, some, Result, ok,
  err, Result-cases, Bool-cases, bytes, arith, ltb,
}
use Prim.Native.String.{len}
use http_relay.Types.{Bytes, Message}
use http_relay.Headers.{Headers}
use http_relay.Status
use http_relay.Response.{Simple, validate_id_length, max_id_length}
use http_relay.Config.{Config}
use http_relay.Requests.{Progress, answers, waits, panics, simple_response}
use http_relay.Repository.{Repository, Contract}
use http_relay.WaitingList.State.{
  WaitingList, Readings, SubscribeError, StoreAndSubscribeError, storage, GetOrSubscribeResult,
  message, waiting,
}
use http_relay.WaitingList.Methods.{
  get_or_subscribe, is_acked, subscribe_ack, store_and_subscribe_ack,
}
use http_relay.WaitingList.Channel.{
  get_or_subscribe-channel, subscribe_ack-channel, store_and_subscribe_ack-channel,
}
use http_relay.WaitingList.Traced.{Facts, IsTraced}
use http_relay.WaitingList.Traced.Answers.{get-Posted, is_acked-Acked}
use http_relay.Inbox
use http_relay.Inbox.{inbox_id, get_answer, await_subscribed, await_unless_acked, ack_answer}
use http_relay.Link
use http_relay.Link.{channel_id, Fetched, fetched, refused, get_fetched, post_subscribed}
use http_relay.Server.Router.{
  inbox_ack, inbox_await, inbox_get, link_post, Parked, Progressed, progressed,
}
use http_relay.Server.Serving.Genuine.{Serves, IsParked, IsSettled}
use http_relay.Server.Serving.Log.{Log}

-- An ID is rejected with 400.
rejection :
    (id name : String) (e : Simple)
    → validate_id_length id name ≡ err e
    → e ≡ (Status.bad_request, bytes name ++ bytes " too long")
unfolding validate_id_length
rejection id name e q = elim (Bool-cases (ltb max_id_length (len id))) [
  | inl y ↦ cc (rw y at q)
  | inr n ↦ cc (rw n at q)
]

-- What holds of an answer, or of the channel that is waited for.
abbrev pub Tells {ℓ} : {A : Type ℓ} → (A → Type 0) → (ℕ → Type 0) → Progress A → Type 0
Tells Done Waits (answers a) = Done a
Tells Done Waits (waits rx timeout) = Waits rx
Tells Done Waits panics = Unit

pub progressed-IsSettled :
    (h : Headers) (f : Facts) (log : Log h) (n : ℕ) {A : Type 0} (Done : A → Type 0)
    (Waits : ℕ → Type 0) (done : A → Progressed h) (park : ℕ → Parked)
    → ((a : A) → Done a → IsSettled h f log n (done a))
    → ((rx : ℕ) → Waits rx → IsParked h f log (n, park rx))
    → (p : Progress A) → Tells Done Waits p
    → IsSettled h f log n (progressed h done park p)
progressed-IsSettled h f log n Done Waits done park d w (answers a) k = d a k
progressed-IsSettled h f log n Done Waits done park d w (waits rx timeout) k = w rx k
progressed-IsSettled h f log n Done Waits done park d w panics k = tt

-- The message of a link, or an answer that is not 200.
abbrev pub Fetches : (h : Headers) → Facts → String → Fetched h → Type 0
Fetches h f id (fetched msg) = f.Posted id msg
Fetches h f id (refused r) = ¬ (r.status ≡ 200)

module _ (h : Headers) (f : Facts) {b : Repository} (c : Contract b) (config : Config)
    (wl : WaitingList b) (t : Readings) (id : String) where
  pub ack-Serves :
      IsTraced f c wl → Serves h f inbox_ack id (simple_response h (Inbox.ack_handler wl t id).1)
  unfolding Inbox.ack_handler
  ack-Serves v = elim (Result-cases (validate_id_length id inbox_id)) [
    | inr (e, q) ↦ rw (q, Inbox.ack_handler) (rw (rejection id inbox_id e q) (λ s. cc))
    | inl (u, q) ↦ rw (q, Inbox.ack_handler) (asked (is_acked wl t id).1 refl)
  ]
    where
      asked :
          (x : Option Bool)
          → (is_acked wl t id).1 ≡ x
          → Serves h f inbox_ack id (simple_response h (ack_answer x))
      asked (some true) q = λ s. is_acked-Acked f c wl t id v q
      asked (some false) q = λ s. cc
      asked none q = λ s. cc

  pub get-Tells :
      (tx : ℕ)
      → IsTraced f c wl
      → f.Asked id tx
      → Tells (Serves h f inbox_get id) (f.Asked id) (Inbox.get_handler config h wl t id tx).1
  unfolding Inbox.get_handler
  get-Tells tx v k = elim (Result-cases (validate_id_length id inbox_id)) [
    | inr (e, q) ↦
        rw (q, Inbox.get_handler) (rw (rejection id inbox_id e q) (λ s. absurd (omega arith)))
    | inl (u, q) ↦ rw (q, Inbox.get_handler) (got (get_or_subscribe wl t id tx).1 refl)
  ]
    where
      got :
          (x : Result GetOrSubscribeResult SubscribeError)
          → (get_or_subscribe wl t id tx).1 ≡ x
          → Tells (Serves h f inbox_get id) (f.Asked id) (get_answer h config x)
      got (ok (message msg)) q = λ s. (msg, get-Posted f c wl t id v tx msg q, refl)
      got (ok (waiting rx)) q = subst (f.Asked id) (get_or_subscribe-channel t id tx rx wl q) k
      got (err SubscribeError.waiter_limit_reached) q = λ s. absurd (omega arith)
      got (err SubscribeError.not_found) q = tt

  pub link_get-Tells :
      (tx : ℕ)
      → IsTraced f c wl
      → f.Asked id tx
      → Tells (Fetches h f id) (f.Asked id) (Link.get_handler h config wl t id tx).1
  unfolding Link.get_handler
  link_get-Tells tx v k = elim (Result-cases (validate_id_length id channel_id)) [
    | inr (e, q) ↦ rw (q, Link.get_handler) (rw (rejection id channel_id e q) (λ s. omega arith))
    | inl (u, q) ↦ rw (q, Link.get_handler) (got (get_or_subscribe wl t id tx).1 refl)
  ]
    where
      got :
          (x : Result GetOrSubscribeResult SubscribeError)
          → (get_or_subscribe wl t id tx).1 ≡ x
          → Tells (Fetches h f id) (f.Asked id) (get_fetched h config x)
      got (ok (message msg)) q = get-Posted f c wl t id v tx msg q
      got (ok (waiting rx)) q = subst (f.Asked id) (get_or_subscribe-channel t id tx rx wl q) k
      got (err SubscribeError.waiter_limit_reached) q = λ s. omega arith
      got (err SubscribeError.not_found) q = tt

  pub link_post-Tells :
      (t' : Readings) (headers : h.Map) (text : Bytes) (tx : ℕ)
      → f.Awaited id tx
      → Tells
          (Serves h f link_post id)
          (f.Awaited id)
          (Link.post_handler h config wl t t' id headers text tx).1
  unfolding Link.post_handler
  link_post-Tells t' headers text tx k = elim (Result-cases (validate_id_length id channel_id)) [
    | inr (e, q) ↦
        rw (q, Link.post_handler) (rw (rejection id channel_id e q) (λ s. absurd (omega arith)))
    | inl (u, q) ↦
        rw (q, Link.post_handler)
          (got _ (store_and_subscribe_ack wl t t' id _ config.link_timeout tx).1 refl)
  ]
    where
      got :
          (msg : Message) (x : Result ℕ StoreAndSubscribeError)
          → (store_and_subscribe_ack wl t t' id msg config.link_timeout tx).1 ≡ x
          → Tells (Serves h f link_post id) (f.Awaited id) (post_subscribed h config x)
      got msg (ok rx) q =
          subst (f.Awaited id)
            (store_and_subscribe_ack-channel t' id tx rx wl t msg config.link_timeout q) k
      got msg (err StoreAndSubscribeError.waiter_limit_reached) q = λ s. absurd (omega arith)
      got msg (err StoreAndSubscribeError.store_full) q = λ s. absurd (omega arith)
      got msg (err StoreAndSubscribeError.not_found) q = λ s. absurd (omega arith)
      got msg (err (storage e)) q = λ s. absurd (omega arith)

  pub await-Tells :
      (t' : Readings) (tx : ℕ)
      → IsTraced f c wl
      → f.Awaited id tx
      → Tells
          (λ r. Serves h f inbox_await id (simple_response h r))
          (f.Awaited id)
          (Inbox.await_handler config wl t t' id tx).1
  unfolding Inbox.await_handler
  await-Tells t' tx v k = elim (Result-cases (validate_id_length id inbox_id)) [
    | inr (e, q) ↦
        rw (q, Inbox.await_handler) (rw (rejection id inbox_id e q) (λ s. absurd (omega arith)))
    | inl (u, q) ↦
        rw (q, Inbox.await_handler) (asked (is_acked wl t id) (λ y. is_acked-Acked f c wl t id v y))
  ]
    where
      subscribed :
          (wl' : WaitingList b) (x : Result ℕ SubscribeError)
          → (subscribe_ack wl' t' id tx).1 ≡ x
          → Tells
              (λ r. Serves h f inbox_await id (simple_response h r))
              (f.Awaited id)
              (await_subscribed config x)
      subscribed wl' (ok rx) q = subst (f.Awaited id) (subscribe_ack-channel t' id tx rx wl' q) k
      subscribed wl' (err SubscribeError.not_found) q = λ s. absurd (omega arith)
      subscribed wl' (err SubscribeError.waiter_limit_reached) q = λ s. absurd (omega arith)

      asked :
          (x : WaitingList b × Option Bool)
          → (x.1 ≡ some true → f.Acked id)
          → Tells
              (λ r. Serves h f inbox_await id (simple_response h r))
              (f.Awaited id)
              (await_unless_acked config t' id tx x).1
      asked (wl', some true) a = λ s. a refl
      asked (wl', some false) a = subscribed wl' _ refl
      asked (wl', none) a = subscribed wl' _ refl
