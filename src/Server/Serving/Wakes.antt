-- ===== src/Server/Serving/Wakes.antt =====
-- What a handler answers at once, and when it wakes up, if all that is known so far is true.
use http_relay.Base.{ℕ, String, ◌≡◌, refl, sym, subst, inr, All-Any, All-retain, retain, Any, arith}
use http_relay.Types.{Bytes, Message}
use http_relay.Headers.{Headers, Response}
use http_relay.Config.{Config}
use http_relay.ClientIp.{Net}
use http_relay.Requests.{Awaited, received, sender_dropped, elapsed, simple_response}
use http_relay.Waiters.{delivered, acknowledged}
use http_relay.Repository.{Repository, Contract}
use http_relay.WaitingList.State.{WaitingList, Readings}
use http_relay.WaitingList.Traced.{Facts, IsTraced, IsExplained}
use http_relay.WaitingList.Traced.History.{run-IsTraced}
use http_relay.Inbox.{get_handler_awaited, await_handler_awaited}
use http_relay.Link.{Fetched, fetched, refused, awaited_message, post_handler_awaited}
use http_relay.Server.Router.{
  Axum, Endpoint, root, inbox_ack, inbox_await, inbox_get, inbox_post, inbox_delete, link_get,
  link_post, begin, Parked, inbox_getting, inbox_awaiting, link_posting, link_getting, Progressed,
  replies, parks, panicked, admitted,
}
use http_relay.Server.Serving.{
  Relay, settle, resume, is_other, HearsMessage, HearsAck, fetched_progress,
}
use http_relay.Server.Serving.Calls.{Allows, Follows}
use http_relay.Server.Serving.Log.{Log, Logs}
use http_relay.Server.Serving.Genuine.{Serves, Came, IsParked, IsServed, IsSettled, IsGenuine}
use http_relay.Server.Serving.Begins.{
  progressed-IsSettled, Fetches, ack-Serves, get-Tells, link_get-Tells, link_post-Tells,
  await-Tells,
}

module _ (h : Headers) (f : Facts) (log : Log h) where
  -- An answer of the handler that the request came to.
  pub gives :
      {n : ℕ} {endpoint : Endpoint} {id : String} (r : Response h)
      → Came h f log n endpoint id
      → Serves h f endpoint id r
      → IsServed h f log (n, r)
  gives {endpoint = endpoint} {id = id} r came k = inr (endpoint, id, came, k)

  pub link_answer :
      {n : ℕ} {id : String} (x : Fetched h)
      → Came h f log n link_get id
      → Fetches h f id x
      → IsSettled h f log n (fetched_progress h id x)
  link_answer (fetched msg) came k = (came, k)
  link_answer (refused r) came k = gives r came (λ s. absurd (k s))

  module _ {b : Repository} (c : Contract b) (config : Config) where
    pub begin-IsSettled :
        (net : Net) (axum : Axum h net) (wl : WaitingList b) (t t' : Readings) (n : ℕ)
        (endpoint : Endpoint) (id : String) (headers : h.Map) (text : Bytes)
        → IsTraced f c wl
        → Logs h log n (admitted endpoint id headers text)
        → Allows f h n endpoint id headers text
        → IsSettled h f log n (begin h net axum config wl t t' n endpoint id headers text).1
    unfolding begin
    begin-IsSettled net axum wl t t' n root id headers text v a k =
        gives _ (headers, text, a) (λ q. tt)
    begin-IsSettled net axum wl t t' n inbox_ack id headers text v a k =
        gives _ (headers, text, a) (ack-Serves h f c config wl t id v)
    begin-IsSettled net axum wl t t' n inbox_await id headers text v a k =
        progressed-IsSettled h f log n _ (f.Awaited id) _ inbox_awaiting
          (λ r. gives _ (headers, text, a)) (λ rx w. (id, (headers, text, a), w)) _
          (await-Tells h f c config wl t id t' n v k)
    begin-IsSettled net axum wl t t' n inbox_get id headers text v a k =
        progressed-IsSettled h f log n _ (f.Asked id) _ inbox_getting
          (λ r. gives r (headers, text, a)) (λ rx w. (id, (headers, text, a), w)) _
          (get-Tells h f c config wl t id n v k)
    begin-IsSettled net axum wl t t' n inbox_post id headers text v a k =
        gives _ (headers, text, a) (λ q. tt)
    begin-IsSettled net axum wl t t' n inbox_delete id headers text v a k =
        gives _ (headers, text, a) (λ q. tt)
    begin-IsSettled net axum wl t t' n link_get id headers text v a k =
        progressed-IsSettled h f log n (Fetches h f id) (f.Asked id) _ (link_getting id)
          (λ x. link_answer x (headers, text, a)) (λ rx w. ((headers, text, a), w)) _
          (link_get-Tells h f c config wl t id n v k)
    begin-IsSettled net axum wl t t' n link_post id headers text v a k =
        progressed-IsSettled h f log n _ (f.Awaited id) _ link_posting
          (λ r. gives r (headers, text, a)) (λ rx w. (id, (headers, text, a), w)) _
          (link_post-Tells h f c config wl t id t' headers text n k.1)

    pub Follows-IsTraced :
        (wl wl' : WaitingList b) → Follows f wl wl' → IsTraced f c wl → IsTraced f c wl'
    Follows-IsTraced wl wl' (calls, q, k) v =
        subst (IsTraced f c) (sym q) (run-IsTraced f c wl calls v k)

  module _ {b : Repository} (c : Contract b) where
    pub settle-IsGenuine :
        (s : Relay h b) (n : ℕ) (p : Progressed h)
        → IsGenuine h f log c s
        → IsSettled h f log n p
        → IsGenuine h f log c (settle h b s n p)
    settle-IsGenuine s n (replies r) g k = record {
      traced = g.traced;
      parked = g.parked;
      served = (k, g.served);
    }
    settle-IsGenuine s n (parks p) g k = record {
      traced = g.traced;
      parked = (k, g.parked);
      served = g.served;
    }
    settle-IsGenuine s n panicked g k = record {
      traced = g.traced;
      parked = g.parked;
      served = g.served;
    }

    -- The request leaves, and the waiting list is another.
    pub without-IsGenuine :
        (s : Relay h b) (n : ℕ) (wl : WaitingList b)
        → IsGenuine h f log c s
        → IsTraced f c wl
        → IsGenuine h f log c
            (record s { pending_list = wl; under_way = retain (is_other n) s.under_way })
    without-IsGenuine s n wl g v = record {
      traced = v;
      parked = All-retain (IsParked h f log) (is_other n) s.under_way g.parked;
      served = g.served;
    }

    -- What is known of a request under way.
    pub known :
        (s : Relay h b) (n : ℕ) (p : Parked)
        → IsGenuine h f log c s
        → Any (λ q. q ≡ (n, p)) s.under_way
        → IsParked h f log (n, p)
    known s n p g a = let (x, k, q) = All-Any s.under_way g.parked a in subst (IsParked h f log) q k

    pub resume-IsGenuine :
        (s : Relay h b) (n : ℕ) (p : Progressed h)
        → IsGenuine h f log c s
        → IsSettled h f log n p
        → IsGenuine h f log c (resume h b s n (s.pending_list, p))
    resume-IsGenuine s n p g k =
        settle-IsGenuine _ n p (without-IsGenuine s n s.pending_list g g.traced) k

    -- The request is answered.
    pub reply-IsGenuine :
        (s : Relay h b) (n : ℕ) (endpoint : Endpoint) (id : String) (r : Response h)
        → IsGenuine h f log c s
        → Came h f log n endpoint id
        → Serves h f endpoint id r
        → IsGenuine h f log c (resume h b s n (s.pending_list, replies r))
    reply-IsGenuine s n endpoint id r g came k = resume-IsGenuine s n (replies r) g (gives r came k)

  -- Two requests with one channel have one ID.
  abbrev pub One : (String → ℕ → Type 0) → Type 0
  One Names = (i j : String) (tx : ℕ) → Names i tx → Names j tx → i ≡ j

  module _ {b : Repository} (c : Contract b) (one : One f.Asked) (one' : One f.Awaited) where
    heard :
        (wl : WaitingList b) (id : String) (rx : ℕ) (msg : Message)
        → IsTraced f c wl
        → f.Asked id rx
        → Any (λ s. s ≡ delivered rx msg) wl.signals
        → f.Posted id msg
    heard wl id rx msg v k a =
        let (s, why, q) = All-Any wl.signals v.explained a in
        let (j, mine, posted) = subst (IsExplained f) q why in
        subst (λ i. f.Posted i msg) (one j id rx mine k) posted

    heard_ack :
        (wl : WaitingList b) (id : String) (rx : ℕ)
        → IsTraced f c wl
        → f.Awaited id rx
        → Any (λ s. s ≡ acknowledged rx) wl.signals
        → f.Acked id
    heard_ack wl id rx v k a =
        let (s, why, q) = All-Any wl.signals v.explained a in
        let (j, mine, acked) = subst (IsExplained f) q why in
        subst f.Acked (one' j id rx mine k) acked

    pub awaited-Posted :
        (s : Relay h b) (id : String) (rx : ℕ) (outcome : Awaited Message)
        → IsGenuine h f log c s
        → f.Asked id rx
        → HearsMessage s.pending_list.signals rx outcome
        → Serves h f inbox_get id (get_handler_awaited h outcome)
    unfolding get_handler_awaited
    awaited-Posted s id rx (received msg) g k a =
        λ q. (msg, heard s.pending_list id rx msg g.traced k a, refl)
    awaited-Posted s id rx sender_dropped g k a = λ q. absurd (omega arith)
    awaited-Posted s id rx elapsed g k a = λ q. absurd (omega arith)

    pub awaited-Fetches :
        (s : Relay h b) (id : String) (rx : ℕ) (outcome : Awaited Message)
        → IsGenuine h f log c s
        → f.Asked id rx
        → HearsMessage s.pending_list.signals rx outcome
        → Fetches h f id (awaited_message h outcome)
    awaited-Fetches s id rx (received msg) g k a = heard s.pending_list id rx msg g.traced k a
    awaited-Fetches s id rx sender_dropped g k a = λ q. omega arith
    awaited-Fetches s id rx elapsed g k a = λ q. omega arith

    pub awaited-Acked :
        (s : Relay h b) (id : String) (rx : ℕ) (outcome : Awaited (Unit {0}))
        → IsGenuine h f log c s
        → f.Awaited id rx
        → HearsAck s.pending_list.signals rx outcome
        → Serves h f inbox_await id (simple_response h (await_handler_awaited outcome))
          × Serves h f link_post id (post_handler_awaited h outcome)
    unfolding await_handler_awaited post_handler_awaited
    awaited-Acked s id rx (received _) g k a =
        let acked = heard_ack s.pending_list id rx g.traced k a in (λ q. acked, λ q. acked)
    awaited-Acked s id rx sender_dropped g k a =
        (λ q. absurd (omega arith), λ q. absurd (omega arith))
    awaited-Acked s id rx elapsed g k a = (λ q. absurd (omega arith), λ q. absurd (omega arith))
