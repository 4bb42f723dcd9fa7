-- ===== src/Server/Serving/Log.antt =====
-- The requests that a run of the relay let in or refused, and what they tell.
use http_relay.Base.{
  ℕ, String, Bool, true, ◌≡◌, ◌⊎◌, inl, refl, sym, subst, List, [], ◌∷◌, Option, none, some, Any,
  here, there,
}
use http_relay.Types.{Bytes, Message, StoredEntry}
use http_relay.Headers.{Headers}
use http_relay.Config.{Config}
use http_relay.ClientIp.{Net}
use http_relay.Repository.{Repository}
use http_relay.WaitingList.Traced.{Facts}
use http_relay.WaitingList.Traced.History.{Keeps}
use http_relay.Server.Router.{
  Axum, Endpoint, root, inbox_ack, inbox_await, inbox_get, inbox_post, inbox_delete, link_get,
  link_post, Admission, admitted, answered,
}
use http_relay.Server.Serving.{
  Relay, Step, arrives, is_refused, wakes_inbox_get, wakes_inbox_await, wakes_link_get,
  acknowledges, wakes_link_post, cleans_up, hangs_up, Reaches, stays, goes,
}
use http_relay.Server.Serving.Calls.{message_of, Allows}

-- The requests by their numbers, the last one first.
abbrev pub Log : Headers → Type 0
Log h = List (ℕ × Admission h)

module _ (h : Headers) where
  -- The ID whose message the request wants, with the channel of its handler.
  abbrev pub wanted : ℕ × Admission h → Option (String × ℕ)
  wanted (n, admitted inbox_get id headers text) = some (id, n)
  wanted (n, admitted link_get id headers text) = some (id, n)
  wanted (n, admitted root id headers text) = none
  wanted (n, admitted inbox_ack id headers text) = none
  wanted (n, admitted inbox_await id headers text) = none
  wanted (n, admitted inbox_post id headers text) = none
  wanted (n, admitted inbox_delete id headers text) = none
  wanted (n, admitted link_post id headers text) = none
  wanted (n, answered r) = none

  -- The ID whose ACK the request awaits, with the channel of its handler.
  abbrev pub awaited : ℕ × Admission h → Option (String × ℕ)
  awaited (n, admitted inbox_await id headers text) = some (id, n)
  awaited (n, admitted link_post id headers text) = some (id, n)
  awaited (n, admitted root id headers text) = none
  awaited (n, admitted inbox_ack id headers text) = none
  awaited (n, admitted inbox_get id headers text) = none
  awaited (n, admitted inbox_post id headers text) = none
  awaited (n, admitted inbox_delete id headers text) = none
  awaited (n, admitted link_get id headers text) = none
  awaited (n, answered r) = none

  -- What the request posts.
  abbrev pub posted : ℕ × Admission h → Option (String × Message)
  posted (n, admitted inbox_post id headers text) = some (id, message_of h headers text)
  posted (n, admitted link_post id headers text) = some (id, message_of h headers text)
  posted (n, admitted root id headers text) = none
  posted (n, admitted inbox_ack id headers text) = none
  posted (n, admitted inbox_await id headers text) = none
  posted (n, admitted inbox_get id headers text) = none
  posted (n, admitted inbox_delete id headers text) = none
  posted (n, admitted link_get id headers text) = none
  posted (n, answered r) = none

  -- The ID whose message the request acknowledges, as a `GET` of a link does too.
  abbrev pub acknowledged : ℕ × Admission h → Option String
  acknowledged (n, admitted inbox_delete id headers text) = some id
  acknowledged (n, admitted link_get id headers text) = some id
  acknowledged (n, admitted root id headers text) = none
  acknowledged (n, admitted inbox_ack id headers text) = none
  acknowledged (n, admitted inbox_await id headers text) = none
  acknowledged (n, admitted inbox_get id headers text) = none
  acknowledged (n, admitted inbox_post id headers text) = none
  acknowledged (n, admitted link_post id headers text) = none
  acknowledged (n, answered r) = none

  -- What the requests tell, on a repository that held the entries before.
  abbrev pub told : (String → Option StoredEntry) → Log h → Facts
  told find log = record {
    Asked = λ id tx. Any (λ a. wanted a ≡ some (id, tx)) log;
    Awaited = λ id tx. Any (λ a. awaited a ≡ some (id, tx)) log;
    Posted = λ id msg.
        Any (λ a. posted a ≡ some (id, msg)) log
        ⊎ ((e : StoredEntry) × (find id ≡ some e) × Keeps msg e);
    Acked = λ id.
        Any (λ a. acknowledged a ≡ some id) log
        ⊎ ((e : StoredEntry) × (find id ≡ some e) × (e.acked ≡ true));
  }

  -- That request is in the log.
  abbrev pub Logs : Log h → ℕ → Admission h → Type 0
  Logs log n x = Any (λ a. a ≡ (n, x)) log

  pub Logs-Any :
      (P : ℕ × Admission h → Type 0) (log : Log h) {n : ℕ} {x : Admission h}
      → Logs log n x
      → P (n, x)
      → Any P log
  Logs-Any P [] a p = elim a [ ]
  Logs-Any P (y ∷ log) (here q) p = here (subst P (sym q) p)
  Logs-Any P (y ∷ log) (there a) p = there (Logs-Any P log a p)

  pub Logs-Allows :
      (find : String → Option StoredEntry) (log : Log h) (n : ℕ) (endpoint : Endpoint) (id : String)
      (headers : h.Map) (text : Bytes)
      → Logs log n (admitted endpoint id headers text)
      → Allows (told find log) h n endpoint id headers text
  Logs-Allows find log n root id headers text a = tt
  Logs-Allows find log n inbox_ack id headers text a = tt
  Logs-Allows find log n inbox_await id headers text a =
      Logs-Any (λ x. awaited x ≡ some (id, n)) log a refl
  Logs-Allows find log n inbox_get id headers text a =
      Logs-Any (λ x. wanted x ≡ some (id, n)) log a refl
  Logs-Allows find log n inbox_post id headers text a =
      inl (Logs-Any (λ x. posted x ≡ some (id, message_of h headers text)) log a refl)
  Logs-Allows find log n inbox_delete id headers text a =
      inl (Logs-Any (λ x. acknowledged x ≡ some id) log a refl)
  Logs-Allows find log n link_get id headers text a =
      Logs-Any (λ x. wanted x ≡ some (id, n)) log a refl
  Logs-Allows find log n link_post id headers text a = (
    inl (Logs-Any (λ x. posted x ≡ some (id, message_of h headers text)) log a refl),
    Logs-Any (λ x. awaited x ≡ some (id, n)) log a refl,
  )

  module _ (b : Repository) (config : Config) (net : Net) (axum : Axum h net)
      (networks : List net.Network) (link_compat : Bool) where
    abbrev pub log_step :
        {s s' : Relay h b} → Step h b config net axum networks link_compat s s' → Log h → Log h
    log_step {s} (arrives req {endpoint = e} {id = id} {headers = hs} {text = text} t t' q) log =
        (s.next, admitted e id hs text) ∷ log
    log_step {s} (is_refused req {r = r} q) log = (s.next, answered r) ∷ log
    log_step (wakes_inbox_get outcome p q) log = log
    log_step (wakes_inbox_await outcome p q) log = log
    log_step (wakes_link_get outcome p q) log = log
    log_step (acknowledges t p) log = log
    log_step (wakes_link_post outcome p q) log = log
    log_step (cleans_up t) log = log
    log_step (hangs_up n) log = log

    abbrev pub log_of :
        {s s' : Relay h b} → Reaches h b config net axum networks link_compat s s' → Log h
    log_of stays = []
    log_of (goes rest last) = log_step last (log_of rest)

    pub log_step-there :
        (P : ℕ × Admission h → Type 0) {s s' : Relay h b}
        (last : Step h b config net axum networks link_compat s s') (log : Log h)
        → Any P log
        → Any P (log_step last log)
    log_step-there P (arrives req t t' q) log a = there a
    log_step-there P (is_refused req q) log a = there a
    log_step-there P (wakes_inbox_get outcome p q) log a = a
    log_step-there P (wakes_inbox_await outcome p q) log a = a
    log_step-there P (wakes_link_get outcome p q) log a = a
    log_step-there P (acknowledges t p) log a = a
    log_step-there P (wakes_link_post outcome p q) log a = a
    log_step-there P (cleans_up t) log a = a
    log_step-there P (hangs_up n) log a = a
