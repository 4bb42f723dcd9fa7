-- ===== src/Server/Serving/Numbers.antt =====
-- Every request has its own number.
use http_relay.Base.{
  ℕ, suc, String, ◌≡◌, ◌<◌, refl, sym, subst, ◌∙◌, Bool, List, [], ◌∷◌, Option, some, Any, here,
  there, arith,
}
use http_relay.Types.{StoredEntry}
use http_relay.Headers.{Headers}
use http_relay.Config.{Config}
use http_relay.ClientIp.{Net}
use http_relay.Repository.{Repository}
use http_relay.Server.Router.{
  Axum, root, inbox_ack, inbox_await, inbox_get, inbox_post, inbox_delete, link_get, link_post,
  Admission, admitted, answered, Progressed, replies, parks, panicked,
}
use http_relay.Server.Serving.{
  Relay, Step, arrives, is_refused, wakes_inbox_get, wakes_inbox_await, wakes_link_get,
  acknowledges, wakes_link_post, cleans_up, hangs_up, Reaches, stays, goes, settle,
}
use http_relay.Server.Serving.Log.{Log, wanted, awaited, told, log_step, log_of}
use http_relay.Server.Serving.Wakes.{One}

module _ (h : Headers) where
  -- The numbers fall from below a bound, so each is given once.
  abbrev pub IsNumbered : ℕ → Log h → Type 0
  IsNumbered next [] = Unit
  IsNumbered next (a ∷ log) = (a.0 < next) × IsNumbered a.0 log

  module _ (P : ℕ × Admission h → Type 0) (n : ℕ)
      (names : (a : ℕ × Admission h) → P a → a.0 ≡ n) where
    number-lt : (next : ℕ) (log : Log h) → IsNumbered next log → Any P log → n < next
    number-lt next [] v p = elim p [ ]
    number-lt next (a ∷ log) v (here p) = omega (arith, names a p, v)
    number-lt next (a ∷ log) v (there p) = omega (arith, number-lt a.0 log v.1 p, v)

  -- Two predicates that tell the number hold of one request.
  pub same_request :
      (P Q : ℕ × Admission h → Type 0) (n next : ℕ) (log : Log h)
      → ((a : ℕ × Admission h) → P a → a.0 ≡ n)
      → ((a : ℕ × Admission h) → Q a → a.0 ≡ n)
      → IsNumbered next log
      → Any P log
      → Any Q log
      → (a : ℕ × Admission h) × P a × Q a
  same_request P Q n next [] f g v p q = elim p [ ]
  same_request P Q n next (a ∷ log) f g v (here p) (here q) = (a, p, q)
  same_request P Q n next (a ∷ log) f g v (there p) (there q) =
      same_request P Q n a.0 log f g v.1 p q
  same_request P Q n next (a ∷ log) f g v (here p) (there q) =
      absurd (omega (arith, f a p, number-lt Q n g a.0 log v.1 q))
  same_request P Q n next (a ∷ log) f g v (there p) (here q) =
      absurd (omega (arith, g a q, number-lt P n f a.0 log v.1 p))

  wanted-number : (i : String) (tx : ℕ) (a : ℕ × Admission h) → wanted h a ≡ some (i, tx) → a.0 ≡ tx
  wanted-number i tx (n, admitted root id hs text) q = cc
  wanted-number i tx (n, admitted inbox_ack id hs text) q = cc
  wanted-number i tx (n, admitted inbox_await id hs text) q = cc
  wanted-number i tx (n, admitted inbox_get id hs text) q = cc
  wanted-number i tx (n, admitted inbox_post id hs text) q = cc
  wanted-number i tx (n, admitted inbox_delete id hs text) q = cc
  wanted-number i tx (n, admitted link_get id hs text) q = cc
  wanted-number i tx (n, admitted link_post id hs text) q = cc
  wanted-number i tx (n, answered r) q = cc

  awaited-number :
      (i : String) (tx : ℕ) (a : ℕ × Admission h) → awaited h a ≡ some (i, tx) → a.0 ≡ tx
  awaited-number i tx (n, admitted root id hs text) q = cc
  awaited-number i tx (n, admitted inbox_ack id hs text) q = cc
  awaited-number i tx (n, admitted inbox_await id hs text) q = cc
  awaited-number i tx (n, admitted inbox_get id hs text) q = cc
  awaited-number i tx (n, admitted inbox_post id hs text) q = cc
  awaited-number i tx (n, admitted inbox_delete id hs text) q = cc
  awaited-number i tx (n, admitted link_get id hs text) q = cc
  awaited-number i tx (n, admitted link_post id hs text) q = cc
  awaited-number i tx (n, answered r) q = cc

  -- A channel belongs to one request, so to one ID.
  module _ (find : String → Option StoredEntry) (next : ℕ) (log : Log h)
      (v : IsNumbered next log) where
    pub wanted_one : One h (told h find log) log (told h find log).Asked
    wanted_one i j tx p q =
        let (a, x, y) =
          same_request _ _ tx next log (wanted-number i tx) (wanted-number j tx) v p q in
        cc

    pub awaited_one : One h (told h find log) log (told h find log).Awaited
    awaited_one i j tx p q =
        let (a, x, y) =
          same_request _ _ tx next log (awaited-number i tx) (awaited-number j tx) v p q in
        cc

  module _ (b : Repository) (config : Config) (net : Net) (axum : Axum h net)
      (networks : List net.Network) (link_compat : Bool) where
    settle-next : (s : Relay h b) (n : ℕ) (p : Progressed h) → (settle h b s n p).next ≡ s.next
    settle-next s n (replies r) = refl
    settle-next s n (parks p) = refl
    settle-next s n panicked = refl

    settled :
        (log : Log h) (next : ℕ) (s : Relay h b) (n : ℕ) (p : Progressed h)
        → s.next ≡ next
        → IsNumbered next log
        → IsNumbered (settle h b s n p).next log
    settled log next s n p q v = subst (λ m. IsNumbered m log) (sym (settle-next s n p ∙ q)) v

    begun :
        (log : Log h) (s : Relay h b) (next : ℕ) (n : ℕ) (x : Admission h) (p : Progressed h)
        → s.next ≡ suc next
        → IsNumbered next log
        → IsNumbered (settle h b s n p).next ((next, x) ∷ log)
    begun log s next n x p q v = (omega (arith, settle-next s n p, q), v)

    log_step-IsNumbered :
        (s s' : Relay h b) (last : Step h b config net axum networks link_compat s s') (log : Log h)
        → IsNumbered s.next log
        → IsNumbered s'.next (log_step h b config net axum networks link_compat last log)
    log_step-IsNumbered s s'
          (arrives req {endpoint = e} {id = id} {headers = hs} {text = text} t t' q) log v =
        begun log _ s.next s.next (admitted e id hs text) _ refl v
    log_step-IsNumbered s s' (is_refused req q) log v = (omega arith, v)
    log_step-IsNumbered s s' (wakes_inbox_get outcome p q) log v = v
    log_step-IsNumbered s s' (wakes_inbox_await outcome p q) log v = v
    log_step-IsNumbered s s' (wakes_link_get {n = n} outcome p q) log v =
        settled log s.next _ n _ refl v
    log_step-IsNumbered s s' (acknowledges t p) log v = v
    log_step-IsNumbered s s' (wakes_link_post outcome p q) log v = v
    log_step-IsNumbered s s' (cleans_up t) log v = v
    log_step-IsNumbered s s' (hangs_up n) log v = v

    pub log_of-IsNumbered :
        (s s' : Relay h b) (r : Reaches h b config net axum networks link_compat s s')
        → IsNumbered s'.next (log_of h b config net axum networks link_compat r)
    log_of-IsNumbered s s' stays = tt
    log_of-IsNumbered s s' (goes {x} rest last) =
        log_step-IsNumbered x s' last (log_of h b config net axum networks link_compat rest)
          (log_of-IsNumbered s x rest)
