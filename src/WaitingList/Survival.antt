-- ===== src/WaitingList/Survival.antt =====
-- How long a message is kept.
use http_relay.Base.{
  ℕ, String, ◌≡◌, ◌≢◌, ◌≤◌, ◌<◌, refl, ap, ◌∙◌, false, inl, inr, List, [], ◌∷◌, Option, some,
  Result, ok, err, AnyError, All, Result-cases, arith,
}
use http_relay.Types.{Message, StoredEntry, InsertOutcome, stored, expiry}
use http_relay.Repository.{Repository, Contract, Outlives}
use http_relay.WaitingList.State.{WaitingList, Readings, message}
use http_relay.WaitingList.Methods.{
  store, is_acked, store_and_subscribe_ack, store_and_subscribe, subscribe_stored, get_or_subscribe,
  cleanup_expired,
}
use http_relay.WaitingList.Capacity.{remove_closed_waiters}
use http_relay.WaitingList.Limits.{after_prune, after_prune-repository, ensure_cases}
use http_relay.WaitingList.Invariant.{Inv, store-Inv}
use http_relay.WaitingList.History.{
  Call, stores, acks, asks, subscribes, links, gets, cleans, step, run, step-Inv, run-Inv,
}
use http_relay.WaitingList.Store.{store-repository, store-find, entry, available_found}
use http_relay.WaitingList.Ack.{ack-find_ne}
use http_relay.WaitingList.Reads.{subscribe_ack-repository, get_or_subscribe-repository}

-- The call neither replaces nor acknowledges the message of the ID, and no expired entry is
-- deleted later than its time.
abbrev pub Spares : String → ℕ → Call → Type 0
Spares id exp (stores t j msg ttl) = (j ≢ id) × (t.swept ≤ exp)
Spares id exp (acks t j) = j ≢ id
Spares id exp (asks t j) = Unit
Spares id exp (subscribes t j tx) = Unit
Spares id exp (links t t' j msg ttl tx) = (j ≢ id) × (t.swept ≤ exp)
Spares id exp (gets t j tx) = Unit
Spares id exp (cleans t) = t.swept ≤ exp

module _ {b : Repository} (c : Contract b) (id : String) (e : StoredEntry)
    (fresh : e.acked ≡ false) where
  abbrev Holds : b.State → Type 0
  Holds r = c.find r id ≡ some e

  Outlives-live :
      (now : ℕ) (after : Option StoredEntry)
      → now ≤ e.expires_at
      → Outlives now (some e) after
      → after ≡ some e
  Outlives-live now after h (inl q) = q
  Outlives-live now after h (inr (n, x, s, inl past)) = ground arith
  Outlives-live now after h (inr (n, x, s, inr acked)) = ground arith

  store-Holds :
      (wl : WaitingList b) (t : Readings) (j : String) (msg : Message) (ttl : ℕ)
      → c.IsValid wl.repository
      → j ≢ id
      → t.swept ≤ e.expires_at
      → Holds wl.repository
      → Holds (store wl t j msg ttl).0.repository
  store-Holds wl t j msg ttl v ne h held = rw (store-repository wl t j msg ttl) (
      Outlives-live t.swept _ h (
        rw held at (
          c.insert_other wl.repository t.created t.swept j msg.body msg.content_type
            (expiry t.called ttl) id v (inl ne))))

  get-Holds : (r : b.State) (j : String) → c.IsValid r → Holds r → Holds (b.get r j).0
  get-Holds r j v held = c.find-get r j id v ∙ held

  stored-Holds :
      (y : WaitingList b × Result InsertOutcome AnyError) (t : Readings) (j : String) (tx : ℕ)
      → c.IsValid y.0.repository
      → Holds y.0.repository
      → Holds (subscribe_stored y t j tx).0.repository
  unfolding subscribe_stored
  stored-Holds (s, ok stored) t j tx v held =
      rw (subscribe_ack-repository t j tx s) (get-Holds s.repository j v held)
  stored-Holds (s, ok InsertOutcome.store_full) t j tx v held = held
  stored-Holds (s, err x) t j tx v held = held

  store-IsValid :
      (wl : WaitingList b) (t : Readings) (j : String) (msg : Message) (ttl : ℕ)
      → c.IsValid wl.repository
      → c.IsValid (store wl t j msg ttl).0.repository
  store-IsValid wl t j msg ttl v =
      rw (store-repository wl t j msg ttl) (c.insert-IsValid _ _ _ _ _ _ _ v)

  link-Holds :
      (wl : WaitingList b) (t t' : Readings) (j : String) (msg : Message) (ttl tx : ℕ)
      → c.IsValid wl.repository
      → j ≢ id
      → t.swept ≤ e.expires_at
      → Holds wl.repository
      → Holds (store_and_subscribe_ack wl t t' j msg ttl tx).0.repository
  unfolding store_and_subscribe_ack
  link-Holds wl t t' j msg ttl tx v ne h held =
      ensure_cases wl t j (λ x. Holds (store_and_subscribe t t' j msg ttl tx x).0.repository)
        (λ room. sent wl v held) (λ room. sent (after_prune wl t j) (rw pruned v) (rw pruned held))
        (λ n full. rw pruned held)
    where
      pruned : (after_prune wl t j).repository ≡ wl.repository
      pruned = after_prune-repository wl t j

      sent :
          (x : WaitingList b)
          → c.IsValid x.repository
          → Holds x.repository
          → Holds (subscribe_stored (store x t j msg ttl) t' j tx).0.repository
      sent x xv xh =
          stored-Holds (store x t j msg ttl) t' j tx (store-IsValid x t j msg ttl xv)
            (store-Holds x t j msg ttl xv ne h xh)

  cleanup-Holds :
      (wl : WaitingList b) (t : Readings)
      → c.IsValid wl.repository
      → t.swept ≤ e.expires_at
      → Holds wl.repository
      → Holds (cleanup_expired wl t).0.repository
  unfolding cleanup_expired remove_closed_waiters
  cleanup-Holds wl t v h held = elim (Result-cases (b.cleanup_expired wl.repository t.swept).1) [
    | inl (ids, q) ↦ ground (arith, c.find-cleanup wl.repository t.swept id v q, held)
    | inr (x, q) ↦
        Outlives-live t.swept _ h (rw held at (c.find-cleanup_failed wl.repository t.swept id v q))
  ]

  module _ (max : ℕ) where
    step-Holds :
        (wl : WaitingList b) (call : Call)
        → Inv c max wl
        → Spares id e.expires_at call
        → Holds wl.repository
        → Holds (step wl call).repository
    unfolding step is_acked
    step-Holds wl (stores t j msg ttl) v (ne, h) held = store-Holds wl t j msg ttl v.valid ne h held
    step-Holds wl (acks t j) v ne held = ack-find_ne c wl t j v.valid id ne ∙ held
    step-Holds wl (asks t j) v h held = get-Holds wl.repository j v.valid held
    step-Holds wl (subscribes t j tx) v h held =
        rw (subscribe_ack-repository t j tx wl) (get-Holds wl.repository j v.valid held)
    step-Holds wl (links t t' j msg ttl tx) v (ne, h) held =
        link-Holds wl t t' j msg ttl tx v.valid ne h held
    step-Holds wl (gets t j tx) v h held =
        rw (get_or_subscribe-repository t j tx wl) (get-Holds wl.repository j v.valid held)
    step-Holds wl (cleans t) v h held = cleanup-Holds wl t v.valid h held

    -- An unacknowledged entry outlasts every history of calls that neither replace nor acknowledge
    -- it, as long as no deletion runs later than its time.
    pub run_keeps :
        (wl : WaitingList b) (calls : List Call)
        → Inv c max wl
        → All (Spares id e.expires_at) calls
        → c.find wl.repository id ≡ some e
        → c.find (run wl calls).repository id ≡ some e
    unfolding run
    run_keeps wl [] v h held = held
    run_keeps wl (call ∷ calls) v h held =
        run_keeps (step wl call) calls (step-Inv c max wl call v) h.1
          (step-Holds wl call v h.0 held)

module _ {b : Repository} (c : Contract b) (max : ℕ) (wl : WaitingList b) (t : Readings)
    (id : String) (msg : Message) (ttl : ℕ) where
  -- At-least-once delivery: from a valid state, a stored message is what a consumer of its ID
  -- gets, with its content type, after any history of calls that neither replace nor acknowledge
  -- it, if the consumer asks before it expires, no expired entry is deleted later than that time,
  -- and the repository can be read.
  pub delivered_after :
      (calls : List Call) (t' : Readings) (tx : ℕ) (got : Option StoredEntry)
      → Inv c max wl
      → (store wl t id msg ttl).1 ≡ ok stored
      → All (Spares id (expiry t.called ttl)) calls
      → t'.checked < expiry t.called ttl
      → (b.get (run (store wl t id msg ttl).0 calls).repository id).1 ≡ ok got
      → (get_or_subscribe (run (store wl t id msg ttl).0 calls) t' id tx).1 ≡ ok (message msg)
  unfolding get_or_subscribe
  delivered_after calls t' tx got v accepted spared early read = rw (
      available_found t'.checked _ (entry wl t id msg ttl c v.valid accepted) msg.body reads refl
        early)
    where
      v' : Inv c max (store wl t id msg ttl).0
      v' = store-Inv c max wl t id msg ttl v

      held :
          c.find (run (store wl t id msg ttl).0 calls).repository id
          ≡ some (entry wl t id msg ttl c v.valid accepted)
      held =
          run_keeps c id (entry wl t id msg ttl c v.valid accepted) refl max
            (store wl t id msg ttl).0 calls v' spared
            (store-find wl t id msg ttl c v.valid accepted)

      reads :
          (b.get (run (store wl t id msg ttl).0 calls).repository id).1
          ≡ ok (some (entry wl t id msg ttl c v.valid accepted))
      reads =
          read
          ∙ ap ok
              (c.get-find _ id (run-Inv c max (store wl t id msg ttl).0 calls v').valid read ∙ held)
