-- ===== src/WaitingList/Senders/History.antt =====
-- The senders over a history of calls.
use http_relay.Base.{
  ℕ, String, ◌≡◌, ◌≢◌, ◌≤◌, ◌+◌, refl, List, [], ◌∷◌, All, Option, none, some, ◌==◌, arith,
  Option-cases, Bool-cases, inl, inr,
}
use http_relay.HashMap.{IsDistinct}
use http_relay.Repository.{Repository, Contract}
use http_relay.WaitingList.State.{WaitingList, Readings, new}
use http_relay.WaitingList.Methods.{store, ack, is_acked, cleanup_expired}
use http_relay.WaitingList.Limits.{after_prune, after_prune-IsWithin}
use http_relay.WaitingList.Invariant.{Inv}
use http_relay.WaitingList.History.{
  Call, stores, acks, asks, subscribes, links, gets, cleans, step, run, step-Inv, new-Inv,
}
use http_relay.WaitingList.Traced.Channels.{opened, IsFresh}
use http_relay.WaitingList.Senders.{one_if, held, sent}
use http_relay.WaitingList.Senders.Balance.{balance}
use http_relay.WaitingList.Senders.Calls.{
  subscribe_ack-Adds, get_or_subscribe-Adds, is_acked-balance, ack-balance, store-balance,
  cleanup_expired-balance, store_and_subscribe_ack-Adds,
}

-- How often the calls open the channel.
abbrev pub opens : ℕ → Option ℕ → ℕ
opens tx none = 0
opens tx (some own) = one_if (own == tx)

unfoldable pub openings : ℕ → List Call → ℕ
openings tx [] = 0
openings tx (call ∷ calls) = opens tx (opened call) + openings tx calls

fresh-openings :
    (tx : ℕ) (call : Call) (calls : List Call)
    → All (λ x. (own : ℕ) → opened call ≡ some own → opened x ≢ some own) calls
    → opened call ≡ some tx
    → openings tx calls ≡ 0
unfolding openings
fresh-openings tx call [] a q = refl
fresh-openings tx call (x ∷ calls) (a, rest) q = elim (Option-cases (opened x)) [
  | inl n ↦ rw n (omega (arith, fresh-openings tx call calls rest q))
  | inr (own, s) ↦ elim (Bool-cases (own == tx)) [
    | inl e ↦ absurd (a tx q (ground (arith, s, e)))
    | inr e ↦ rw s (rw e (omega (arith, fresh-openings tx call calls rest q)))
  ]
]

-- Where no two calls open the same channel, each is opened at most once.
openings-le : (tx : ℕ) (calls : List Call) → IsFresh calls → openings tx calls ≤ 1
unfolding openings
openings-le tx [] f = omega arith
openings-le tx (call ∷ calls) (a, f) = elim (Option-cases (opened call)) [
  | inl n ↦ rw n (omega (arith, openings-le tx calls f))
  | inr (own, s) ↦ elim (Bool-cases (own == tx)) [
    | inl e ↦ rw s (rw e (omega (arith, fresh-openings tx call calls a (ground (arith, s, e)))))
    | inr e ↦ rw s (rw e (omega (arith, openings-le tx calls f)))
  ]
]

module _ {b : Repository} (c : Contract b) (max tx : ℕ) where
  -- A call takes at most the senders that it opens, and loses none.
  abbrev Moves : ℕ → WaitingList b → WaitingList b → Type 0
  Moves n wl wl' = (balance tx wl ≤ balance tx wl') × (balance tx wl' ≤ balance tx wl + n)

  same-Moves : (wl wl' : WaitingList b) → balance tx wl' ≡ balance tx wl → Moves 0 wl wl'
  same-Moves wl wl' e = (omega (arith, e), omega (arith, e))

  pruned-IsDistinct :
      (wl : WaitingList b) (t : Readings) (id : String)
      → Inv c max wl
      → IsDistinct (after_prune wl t id).waiters
  pruned-IsDistinct wl t id v = (after_prune-IsWithin wl t id (rw v.limit v.within)).distinct

  step-Moves :
      (wl : WaitingList b) (call : Call)
      → Inv c max wl
      → Moves (opens tx (opened call)) wl (step wl call)
  unfolding step
  step-Moves wl (stores t id msg ttl) v =
      same-Moves wl (store wl t id msg ttl).0 (store-balance tx wl t id msg ttl v.within.distinct)
  step-Moves wl (acks t id) v =
      same-Moves wl (ack wl t id).0 (ack-balance tx wl t id v.within.distinct)
  step-Moves wl (asks t id) v = same-Moves wl (is_acked wl t id).0 (is_acked-balance tx wl t id)
  step-Moves wl (subscribes t id own) v = subscribe_ack-Adds tx wl t id own
  step-Moves wl (links t t' id msg ttl own) v =
      store_and_subscribe_ack-Adds tx wl t t' id msg ttl own v.within.distinct
        (pruned-IsDistinct wl t id v)
  step-Moves wl (gets t id own) v = get_or_subscribe-Adds tx wl t id own
  step-Moves wl (cleans t) v =
      same-Moves wl (cleanup_expired wl t).0 (cleanup_expired-balance tx wl t v.within.distinct)

  pub run-Moves :
      (wl : WaitingList b) (calls : List Call)
      → Inv c max wl
      → Moves (openings tx calls) wl (run wl calls)
  unfolding run openings
  run-Moves wl [] v = (omega arith, omega arith)
  run-Moves wl (call ∷ calls) v =
      let (low, high) = step-Moves wl call v in
      let (low', high') = run-Moves (step wl call) calls (step-Inv c max wl call v) in
      (omega (arith, low, low'), omega (arith, high, high'))

  -- From a valid state, no sender is lost over any history of calls: as often as it was held, or
  -- used or dropped, before, it is held, or was used or dropped, afterwards.
  pub run_loses_none :
      (wl : WaitingList b) (calls : List Call)
      → Inv c max wl
      → held tx wl.waiters + sent tx wl.signals
        ≤ held tx (run wl calls).waiters + sent tx (run wl calls).signals
  run_loses_none wl calls v = (run-Moves wl calls v).0

-- After any history of calls on a new waiting list over a valid repository, in which no two calls
-- open the same channel, each sender is held at most once, or was used or dropped at most once,
-- and not both.
pub run_uses_once :
    {b : Repository} (c : Contract b) (r : b.State) (calls : List Call) (tx : ℕ)
    → c.IsValid r
    → IsFresh calls
    → held tx (run (new b r) calls).waiters + sent tx (run (new b r) calls).signals ≤ 1
unfolding new held sent
run_uses_once {b} c r calls tx valid fresh = omega (
  arith,
  run-Moves c (b.max_entries r) tx (new b r) calls (new-Inv c r valid),
  openings-le tx calls fresh,
)
