-- ===== src/Server/Serving/Reach.antt =====
-- What holds in every state that the relay reaches, whatever requests arrive and however their
-- handlers interleave with each other and with the cleanup.
use http_relay.Base.{
  ℕ, String, ◌≡◌, ◌≤◌, refl, sym, subst, Bool, true, false, List, Option, none, some, Result-cases,
  Bool-cases, inl, inr, length, arith, if◌then◌else◌,
}
use http_relay.Types.{Bytes}
use http_relay.Headers.{Headers, Response}
use http_relay.Config.{Config}
use http_relay.ClientIp.{Net, client_ip, identify_client}
use http_relay.Repository.{Repository}
use http_relay.WaitingList.State.{WaitingList}
use http_relay.Server.Router.{
  Axum, Admission, admitted, answered, Routed, matched, unmatched, admit, identified, extract,
  takes_body, Progressed, Endpoint, root, inbox_ack, inbox_await, inbox_get, inbox_post,
  inbox_delete, link_get, link_post, replies, parks, panicked,
}
use http_relay.Server.Serving.{
  Relay, Step, arrives, is_refused, wakes_inbox_get, wakes_inbox_await, wakes_link_get,
  acknowledges, wakes_link_post, cleans_up, hangs_up, Reaches, stays, goes, settle,
}
use http_relay.Server.Serving.Calls.{
  limits, Allows, Follows, Follows-refl, Follows-trans, cleanup-Follows, begin-Follows,
  fetched-Follows,
}

-- What reaches a handler has a body of at most that many bytes.
abbrev pub Limited : ℕ → {h : Headers} → Admission h → Type 0
Limited n (admitted endpoint id headers text) = length text ≤ n
Limited n (answered r) = Unit

Allows-limits :
    (n : ℕ) (h : Headers) (tx : ℕ) (endpoint : Endpoint) (id : String) (headers : h.Map)
    (text : Bytes)
    → length text ≤ n
    → Allows (limits n) h tx endpoint id headers text
Allows-limits n h tx root id headers text k = tt
Allows-limits n h tx inbox_ack id headers text k = tt
Allows-limits n h tx inbox_await id headers text k = tt
Allows-limits n h tx inbox_get id headers text k = tt
Allows-limits n h tx inbox_post id headers text k = k
Allows-limits n h tx inbox_delete id headers text k = tt
Allows-limits n h tx link_get id headers text k = tt
Allows-limits n h tx link_post id headers text k = (k, tt)

module _ (h : Headers) (net : Net) (axum : Axum h net) (config : Config)
    (networks : List net.Network) (link_compat : Bool) where
  module _ (req : axum.Request) where
    extract-Limited :
        (r : Routed h) → Limited config.max_body_size (extract h net axum config req r)
    extract-Limited (unmatched r) = tt
    extract-Limited (matched e i) = elim (Bool-cases (takes_body e)) [
      | inr n ↦ rw n (omega arith)
      | inl y ↦ rw y (elim (Result-cases (axum.body config.max_body_size req)) [
        | inl (x, s) ↦ rw s (axum.body_limited config.max_body_size req x s)
        | inr (x, s) ↦ rw s tt
      ])
    ]

    identified-Limited :
        Limited config.max_body_size (identified h net axum config networks link_compat req)
    unfolding identify_client
    identified-Limited =
        elim (Result-cases (client_ip net networks (axum.peer req) (axum.forwarded req))) [
          | inl (ip, s) ↦ rw (s, Limited) (extract-Limited (axum.route _ req))
          | inr (e, s) ↦ rw (s, Limited) tt
        ]

    -- A handler takes no body beyond the limit.
    admit-Limited : Limited config.max_body_size (admit h net axum config networks link_compat req)
    unfolding admit
    admit-Limited = layered config.cors_allow_all (axum.preflight req)
      where
        layered :
            (cors : Bool) (preflight : Option (Response h))
            → Limited config.max_body_size (
                if cors
                then (elim preflight [
                  | some r ↦ answered r
                  | none ↦ identified h net axum config networks link_compat req
                ])
                else identified h net axum config networks link_compat req)
        layered false preflight = identified-Limited
        layered true none = identified-Limited
        layered true (some r) = tt

  module _ (b : Repository) where
    pub settle-pending :
        (s : Relay h b) (n : ℕ) (p : Progressed h)
        → (settle h b s n p).pending_list ≡ s.pending_list
    settle-pending s n (replies r) = refl
    settle-pending s n (parks p) = refl
    settle-pending s n panicked = refl

    -- The waiting list after a request was settled.
    settled :
        (s : Relay h b) (n : ℕ) (p : Progressed h) (wl : WaitingList b)
        → Follows (limits config.max_body_size) wl s.pending_list
        → Follows (limits config.max_body_size) wl (settle h b s n p).pending_list
    settled s n p wl f =
        subst (Follows (limits config.max_body_size) wl) (sym (settle-pending s n p)) f

    pub Step-Follows :
        (s s' : Relay h b)
        → Step h b config net axum networks link_compat s s'
        → Follows (limits config.max_body_size) s.pending_list s'.pending_list
    Step-Follows s s' (arrives req t t' q) = settled _ _ _ s.pending_list (
        begin-Follows (limits config.max_body_size) h net axum config s.pending_list t t' s.next _ _
          _ _
          (Allows-limits config.max_body_size h s.next _ _ _ _
            (subst (Limited config.max_body_size) q (admit-Limited req))))
    Step-Follows s s' (is_refused req q) = Follows-refl (limits config.max_body_size) s.pending_list
    Step-Follows s s' (wakes_inbox_get outcome p q) =
        Follows-refl (limits config.max_body_size) s.pending_list
    Step-Follows s s' (wakes_inbox_await outcome p q) =
        Follows-refl (limits config.max_body_size) s.pending_list
    Step-Follows s s' (wakes_link_get outcome p q) =
        settled _ _ _ s.pending_list (Follows-refl (limits config.max_body_size) s.pending_list)
    Step-Follows s s' (acknowledges t p) =
        fetched-Follows (limits config.max_body_size) h s.pending_list t _ _ tt
    Step-Follows s s' (wakes_link_post outcome p q) =
        Follows-refl (limits config.max_body_size) s.pending_list
    Step-Follows s s' (cleans_up t) = cleanup-Follows (limits config.max_body_size) s.pending_list t
    Step-Follows s s' (hangs_up n) = Follows-refl (limits config.max_body_size) s.pending_list

    -- What the relay does to its waiting list is a history of calls.
    pub Reaches-Follows :
        (s s' : Relay h b)
        → Reaches h b config net axum networks link_compat s s'
        → Follows (limits config.max_body_size) s.pending_list s'.pending_list
    Reaches-Follows s s' stays = Follows-refl (limits config.max_body_size) s.pending_list
    Reaches-Follows s s' (goes {x} rest last) =
        Follows-trans (limits config.max_body_size) s.pending_list x.pending_list s'.pending_list
          (Reaches-Follows s x rest) (Step-Follows x s' last)
