-- ===== src/Server/Serving/Truth.antt =====
-- The answers of the relay are true, whatever requests arrive and however their handlers interleave.
use http_relay.Base.{
  ℕ, String, ◌≡◌, refl, sym, subst, ap, Bool, inl, inr, List, [], Option, some, Option-cases, All,
  All-Any, Any, here,
}
use http_relay.Types.{Bytes, Message, StoredEntry}
use http_relay.Headers.{Headers, Response}
use http_relay.Config.{Config}
use http_relay.ClientIp.{Net}
use http_relay.Repository.{Repository, Contract}
use http_relay.WaitingList.State.{WaitingList, Readings, new}
use http_relay.WaitingList.Traced.{Facts, IsTraced}
use http_relay.Requests.{simple_response}
use http_relay.Inbox.{get_handler_awaited, await_handler_awaited}
use http_relay.Link.{fetched, awaited_message, get_handler_fetched, post_handler_awaited}
use http_relay.Server.Router.{
  Axum, Endpoint, inbox_await, inbox_get, link_get, link_post, inbox_getting, inbox_awaiting,
  link_posting, link_getting, link_fetched, replies, admitted, answered, Admission,
}
use http_relay.Server.Serving.{
  Relay, Step, arrives, is_refused, wakes_inbox_get, wakes_inbox_await, wakes_link_get,
  acknowledges, wakes_link_post, cleans_up, hangs_up, Reaches, stays, goes,
}
use http_relay.Server.Serving.Calls.{begin-Follows, fetched-Follows, cleanup-Follows}
use http_relay.Server.Serving.Log.{
  Log, Logs, Logs-Any, told, acknowledged, log_step, log_of, Logs-Allows, log_step-there,
}
use http_relay.Server.Serving.Numbers.{
  IsNumbered, same_request, wanted_one, awaited_one, log_of-IsNumbered,
}
use http_relay.Server.Serving.Genuine.{
  Claims, IsBacked, Serves, Came, IsParked, IsServed, IsGenuine,
}
use http_relay.Server.Serving.Wakes.{
  gives, link_answer, begin-IsSettled, Follows-IsTraced, One, settle-IsGenuine, without-IsGenuine,
  known, resume-IsGenuine, reply-IsGenuine, awaited-Posted, awaited-Fetches, awaited-Acked,
}

module _ (h : Headers) {b : Repository} (c : Contract b) (config : Config) (net : Net)
    (axum : Axum h net) (networks : List net.Network) (link_compat : Bool)
    (find : String → Option StoredEntry) (log : Log h) where
  -- All that is in the first log is in the log.
  abbrev IsIn : Log h → Type 0
  IsIn xs = (a : ℕ × Admission h) → Any (λ x. x ≡ a) xs → Any (λ x. x ≡ a) log

  abbrev f : Facts
  f = told h find log

  abbrev Good : Relay h b → Type 0
  Good = IsGenuine h f log c

  -- A request of the link came, so its ID is acknowledged.
  link_Acked : (n : ℕ) (id : String) → Came h f log n link_get id → f.Acked id
  link_Acked n id (headers, text, a) = inl (Logs-Any h (λ x. acknowledged h x ≡ some id) log a refl)

  fetched-Serves :
      (wl : WaitingList b) (t : Readings) (id : String) (msg : Message)
      → f.Posted id msg
      → Serves h f link_get id (get_handler_fetched h wl t id (fetched msg)).1
  unfolding get_handler_fetched
  fetched-Serves wl t id msg k = λ q. (msg, k, refl)

  module _ (one : One h f log f.Asked) (one' : One h f log f.Awaited) where
    Step-Good :
        (s s' : Relay h b) (last : Step h b config net axum networks link_compat s s') (xs : Log h)
        → IsIn (log_step h b config net axum networks link_compat last xs)
        → Good s
        → Good s'
    Step-Good s s' (arrives req {endpoint = e} {id = id} {headers = hs} {text = text} t t' q) xs sub
          g =
        let a : Logs h log s.next (admitted e id hs text) =
          sub (s.next, admitted e id hs text) (here refl) in
        let k = Logs-Allows h find log s.next e id hs text a in
        settle-IsGenuine h f log c _ s.next _
          (record {
            traced =
                Follows-IsTraced h f log c config _ _
                  (begin-Follows f h net axum config s.pending_list t t' s.next e id hs text k)
                  g.traced;
            parked = g.parked;
            served = g.served;
          })
          (begin-IsSettled h f log c config net axum s.pending_list t t' s.next e id hs text
            g.traced a k)
    Step-Good s s' (is_refused req {r = r} q) xs sub g = record {
      traced = g.traced;
      parked = g.parked;
      served = (inl (r, sub (s.next, answered r) (here refl)), g.served);
    }
    Step-Good s s' (wakes_inbox_get {n = n} {rx = rx} outcome p q) xs sub g =
        let (id, came, k) = known h f log c s n (inbox_getting rx) g p in
        reply-IsGenuine h f log c s n inbox_get id (get_handler_awaited h outcome) g came
          (awaited-Posted h f log c one one' s id rx outcome g k q)
    Step-Good s s' (wakes_inbox_await {n = n} {rx = rx} outcome p q) xs sub g =
        let (id, came, k) = known h f log c s n (inbox_awaiting rx) g p in
        reply-IsGenuine h f log c s n inbox_await id
          (simple_response h (await_handler_awaited outcome)) g came
          (awaited-Acked h f log c one one' s id rx outcome g k q).0
    Step-Good s s' (wakes_link_get {n = n} {rx = rx} {id = id} outcome p q) xs sub g =
        let (came, k) = known h f log c s n (link_getting id rx) g p in
        resume-IsGenuine h f log c s n _ g (
          link_answer h f log (awaited_message h outcome) came
            (awaited-Fetches h f log c one one' s id rx outcome g k q))
    Step-Good s s' (acknowledges {n = n} {id = id} {msg = msg} t p) xs sub g =
        let (came, k) = known h f log c s n (link_fetched id msg) g p in
        settle-IsGenuine h f log c _ n
          (replies (get_handler_fetched h s.pending_list t id (fetched msg)).1)
          (without-IsGenuine h f log c s n _ g (
            Follows-IsTraced h f log c config _ _
              (fetched-Follows f h s.pending_list t id msg (link_Acked n id came)) g.traced))
          (gives h f log _ came (fetched-Serves s.pending_list t id msg k))
    Step-Good s s' (wakes_link_post {n = n} {rx = rx} outcome p q) xs sub g =
        let (id, came, k) = known h f log c s n (link_posting rx) g p in
        reply-IsGenuine h f log c s n link_post id (post_handler_awaited h outcome) g came
          (awaited-Acked h f log c one one' s id rx outcome g k q).1
    Step-Good s s' (cleans_up t) xs sub g = record {
      traced = Follows-IsTraced h f log c config _ _ (cleanup-Follows f s.pending_list t) g.traced;
      parked = g.parked;
      served = g.served;
    }
    Step-Good s s' (hangs_up n) xs sub g = without-IsGenuine h f log c s n s.pending_list g g.traced

    Reaches-Good :
        (s s' : Relay h b) (run : Reaches h b config net axum networks link_compat s s')
        → IsIn (log_of h b config net axum networks link_compat run)
        → Good s
        → Good s'
    Reaches-Good s s' stays sub g = g
    Reaches-Good s s' (goes {x} rest last) sub g =
        Step-Good x s' last (log_of h b config net axum networks link_compat rest) sub (
          Reaches-Good s x rest
            (λ a p. sub a (
              log_step-there h b config net axum networks link_compat (λ y. y ≡ a) last
                (log_of h b config net axum networks link_compat rest) p))
            g)

-- The answer belongs to the only request of its number.
served-Serves :
    (h : Headers) (f : Facts) (log : Log h) (next n : ℕ) (endpoint : Endpoint) (id : String)
    (headers : h.Map) (text : Bytes) (r : Response h)
    → IsNumbered h next log
    → Logs h log n (admitted endpoint id headers text)
    → IsServed h f log (n, r)
    → Serves h f endpoint id r
served-Serves h f log next n endpoint id headers text r v a (inl (x, p)) =
    let (y, q, q') =
      same_request h _ _ n next log (λ z e. ap (λ w. w.0) e) (λ z e. ap (λ w. w.0) e) v a p in
    cc
served-Serves h f log next n endpoint id headers text r v a (inr (e, i, (hs, t, p), k)) =
    let (y, q, q') =
      same_request h _ _ n next log (λ z e. ap (λ w. w.0) e) (λ z e. ap (λ w. w.0) e) v a p in
    let same : e ≡ endpoint = cc in
    let same_id : i ≡ id = cc in
    subst (λ x. Serves h f x id r) same (subst (λ x. Serves h f e x r) same_id k)

module _ (h : Headers) {b : Repository} (c : Contract b) (config : Config) (net : Net)
    (axum : Axum h net) (networks : List net.Network) (link_compat : Bool) where
  new-IsTraced :
      (r : b.State) (log : Log h) → c.IsValid r → IsTraced (told h (c.find r) log) c (new b r)
  unfolding new
  new-IsTraced r log valid = record {
    valid = valid;
    named = tt;
    genuine = λ id. elim (Option-cases (c.find r id)) [
      | inl n ↦ rw n tt
      | inr (e, s) ↦ rw s ((λ q. inr (e, s, q)), λ body q. inr (e, s, (q, refl)))
    ];
    explained = tt;
  }

  -- Let a relay start with a new waiting list over a valid repository and no requests. Whatever
  -- requests arrive then, and however their handlers interleave with each other and with the
  -- cleanup, the answer to a request that was let in is backed by the run. A GET of an ID that is
  -- answered with 200 has the body and the content type of a message that some POST of that run
  -- brought to the same ID, or that the repository held under it at the start. A GET that awaits an
  -- ACK, or a POST to a link, that is answered with 200 is about an ID for which that run let in a
  -- DELETE or a GET of the link, or whose entry was acknowledged at the start, and so is a request
  -- for the ACK state that is answered with "true".
  pub answers_true :
      (r : b.State) (s s' : Relay h b) (run : Reaches h b config net axum networks link_compat s s')
      (n : ℕ) (endpoint : Endpoint) (id : String) (headers : h.Map) (text : Bytes)
      (answer : Response h)
      → c.IsValid r
      → s.pending_list ≡ new b r
      → s.under_way ≡ []
      → s.answers ≡ []
      → Logs h
          (log_of h b config net axum networks link_compat run)
          n
          (admitted endpoint id headers text)
      → Any (λ a. a ≡ (n, answer)) s'.answers
      → Claims h endpoint answer
      → IsBacked h
          (told h (c.find r) (log_of h b config net axum networks link_compat run))
          endpoint
          id
          answer
  answers_true r s s' run n endpoint id headers text answer valid fresh none_parked none_answered a
        p claim =
      let log = log_of h b config net axum networks link_compat run in
      let f = told h (c.find r) log in
      let v = log_of-IsNumbered h b config net axum networks link_compat s s' run in
      let start : IsGenuine h f log c s = record {
        traced = subst (IsTraced f c) (sym fresh) (new-IsTraced r log valid);
        parked = subst (All (IsParked h f log)) (sym none_parked) tt;
        served = subst (All (IsServed h f log)) (sym none_answered) tt;
      } in
      let g =
        Reaches-Good h c config net axum networks link_compat (c.find r) log
          (wanted_one h (c.find r) s'.next log v) (awaited_one h (c.find r) s'.next log v) s s' run
          (λ x q. q) start in
      let (x, k, q) = All-Any s'.answers g.served p in
      served-Serves h f log s'.next n endpoint id headers text answer v a
        (subst (IsServed h f log) q k) claim
