-- ===== src/WaitingList/Traced/Channels.antt =====
-- What a client hears on its own channel, in a history in which no two calls open the same channel,
-- as each call of the program creates its own.
use http_relay.Base.{
  ℕ, String, ◌≡◌, ◌≢◌, subst, List, [], ◌∷◌, Option, none, some, All, Any, here, there, All-Any,
}
use http_relay.Types.{Message}
use http_relay.Waiters.{Signal, delivered, acknowledged}
use http_relay.Repository.{Repository, Contract}
use http_relay.WaitingList.State.{new}
use http_relay.WaitingList.History.{Call, stores, acks, asks, subscribes, links, gets, cleans, run}
use http_relay.WaitingList.Traced.{IsExplained}
use http_relay.WaitingList.Traced.History.{asked, awaited, history, run-IsExplained}

-- The channel that a call creates.
abbrev pub opened : Call → Option ℕ
opened (stores t id msg ttl) = none
opened (acks t id) = none
opened (asks t id) = none
opened (subscribes t id tx) = some tx
opened (links t t' id msg ttl tx) = some tx
opened (gets t id tx) = some tx
opened (cleans t) = none

-- No two calls create the same channel.
abbrev pub IsFresh : List Call → Type 0
IsFresh [] = Unit
IsFresh (call ∷ calls) =
    All (λ x. (tx : ℕ) → opened call ≡ some tx → opened x ≢ some tx) calls × IsFresh calls

-- A part of the calls that tells the ID and the channel: two calls that open the same channel are
-- one, so the ID is the same.
module _ (part : Call → Option (String × ℕ))
    (opens : (id : String) (tx : ℕ) (call : Call)
      → part call ≡ some (id, tx)
      → opened call ≡ some tx)
    (tx : ℕ) where
  same_id :
      (i j : String) (calls : List Call)
      → IsFresh calls
      → Any (λ x. part x ≡ some (i, tx)) calls
      → Any (λ x. part x ≡ some (j, tx)) calls
      → i ≡ j
  same_id i j [] fresh p q = elim p [ ]
  same_id i j (call ∷ calls) (apart, fresh) (here p) (here q) = cc
  same_id i j (call ∷ calls) (apart, fresh) (there p) (there q) = same_id i j calls fresh p q
  same_id i j (call ∷ calls) (apart, fresh) (here p) (there q) =
      let (x, a, y) = All-Any calls apart q in absurd (a tx (opens i tx call p) (opens j tx x y))
  same_id i j (call ∷ calls) (apart, fresh) (there p) (here q) =
      let (x, a, y) = All-Any calls apart p in absurd (a tx (opens j tx call q) (opens i tx x y))

asked-opened :
    (id : String) (tx : ℕ) (call : Call) → asked call ≡ some (id, tx) → opened call ≡ some tx
asked-opened id tx (gets t j x) q = cc
asked-opened id tx (stores t j msg ttl) q = cc
asked-opened id tx (acks t j) q = cc
asked-opened id tx (asks t j) q = cc
asked-opened id tx (subscribes t j x) q = cc
asked-opened id tx (links t t' j msg ttl x) q = cc
asked-opened id tx (cleans t) q = cc

awaited-opened :
    (id : String) (tx : ℕ) (call : Call) → awaited call ≡ some (id, tx) → opened call ≡ some tx
awaited-opened id tx (gets t j x) q = cc
awaited-opened id tx (stores t j msg ttl) q = cc
awaited-opened id tx (acks t j) q = cc
awaited-opened id tx (asks t j) q = cc
awaited-opened id tx (subscribes t j x) q = cc
awaited-opened id tx (links t t' j msg ttl x) q = cc
awaited-opened id tx (cleans t) q = cc

module _ {b : Repository} (c : Contract b) (r : b.State) (valid : c.IsValid r) (calls : List Call)
    (fresh : IsFresh calls) (id : String) (tx : ℕ) where
  abbrev signals : List Signal
  signals = (run (new b r) calls).signals

  -- In a history of calls on a new waiting list over a valid repository, in which no two calls open
  -- the same channel, the message that is delivered on the channel that `get_or_subscribe` opened
  -- for an ID was posted to that very ID in that history, or the repository held it under that ID
  -- at the start.
  pub delivered_own :
      (msg : Message)
      → Any (λ call. asked call ≡ some (id, tx)) calls
      → Any (λ s. s ≡ delivered tx msg) (run (new b r) calls).signals
      → (history (c.find r) calls).Posted id msg
  delivered_own msg wanted heard =
      let (s, why, q) = All-Any signals (run-IsExplained c r valid calls) heard in
      let (j, mine, posted) = subst (IsExplained (history (c.find r) calls)) q why in
      subst (λ i. (history (c.find r) calls).Posted i msg)
        (same_id asked asked-opened tx j id calls fresh mine wanted) posted

  -- In a history of calls on a new waiting list over a valid repository, in which no two calls open
  -- the same channel, a producer or another client that is told of an ACK on the channel that it
  -- opened for an ID is told of the ACK of that very ID: it was acknowledged in that history, or
  -- its entry was acknowledged at the start.
  pub acknowledged_own :
      Any (λ call. awaited call ≡ some (id, tx)) calls
      → Any (λ s. s ≡ acknowledged tx) (run (new b r) calls).signals
      → (history (c.find r) calls).Acked id
  acknowledged_own wanted heard =
      let (s, why, q) = All-Any signals (run-IsExplained c r valid calls) heard in
      let (j, mine, acked) = subst (IsExplained (history (c.find r) calls)) q why in
      subst (λ i. (history (c.find r) calls).Acked i)
        (same_id awaited awaited-opened tx j id calls fresh mine wanted) acked
