-- ===== src/WaitingList/Mailbox/Refines.antt =====
-- A waiting list does what the abstract mailbox allows, over every history of calls.
use http_relay.Base.{
  ℕ, String, ◌≡◌, ◌≢◌, ◌≤◌, refl, sym, ap, subst, ◌∙◌, inl, inr, ◌⊎◌, List, [], ◌∷◌, Option, none,
  some, Result, ok, err, AnyError, Result-cases, arith,
}
use http_relay.Types.{Message, StoredEntry, InsertOutcome, stored, store_full}
use http_relay.Repository.{Repository, Contract, Outlives}
use http_relay.WaitingList.State.{WaitingList, Readings, StoreAndSubscribeError, unexpired, new}
use http_relay.WaitingList.Methods.{
  store, subscribe_ack, subscribe_stored, store_and_subscribe, store_and_subscribe_ack,
  cleanup_expired,
}
use http_relay.WaitingList.Capacity.{remove_closed_waiters}
use http_relay.WaitingList.Limits.{
  IsLimited, HasRoom, IsWithin, after_prune, after_prune-repository, after_prune-IsWithin,
  ensure_cases,
}
use http_relay.WaitingList.Store.{store-repository}
use http_relay.WaitingList.Subscribe.{subscribe_stored-ne-limit}
use http_relay.WaitingList.Invariant.{Inv}
use http_relay.WaitingList.History.{
  Call, stores, acks, asks, subscribes, links, gets, cleans, step, run, step-Inv, new-Inv,
}
use http_relay.WaitingList.Mailbox.{
  View, Same, Sheds, Puts, Overflows, Sees, Allows, put_and_joined, put_and_lost, link_crowded,
  link_no_room, link_failed, swept, sweep_failed, linked, removed, answer, answers, Behaves, ends,
  follows,
}
use http_relay.WaitingList.Mailbox.Store.{
  FailsOnly, view, store-result, store-Puts, store-Sheds, store-Overflows, store_allowed,
}
use http_relay.WaitingList.Mailbox.Calls.{
  get-Sees, is_acked_allowed, get_or_subscribe_allowed, subscribe_ack-Same, subscribe_ack_result,
  subscribe_ack_allowed, ack_allowed,
}

-- A stored entry that is looked up and not found is past its time, unless the look-up failed.
lost-expired :
    (F : Type 0) (now : ℕ) (v : View) (id : String) (e : StoredEntry)
    (x : Result (Option StoredEntry) AnyError)
    → v id ≡ some e
    → Sees F v id x
    → unexpired now x ≡ none
    → F ⊎ (e.expires_at ≤ now)
lost-expired F now v id e x held (inr (f, e', q)) n = inl f
lost-expired F now v id e x held (inl q) n = inr (ground (arith, q, held))

module _ (F : Type 0) {b : Repository} (c : Contract b) (faults : FailsOnly F b) where
  module _ (wl : WaitingList b) (t t' : Readings) (id : String) (msg : Message) (ttl tx : ℕ) where
    abbrev Linked : View → WaitingList b × Result ℕ StoreAndSubscribeError → Type 0
    Linked v x = Allows F v (view c x.0) (links t t' id msg ttl tx) (linked x.1)

    Puts-Same : (v v' v'' : View) → Puts t id msg ttl v v' → Same v' v'' → Puts t id msg ttl v v''
    Puts-Same v v' v'' (new, others) same =
        (same id ∙ new, λ j n. subst (Outlives t.swept (v j)) (sym (same j)) (others j n))

    -- The subscription after a store.
    stored-Linked :
        (v : View) (y : WaitingList b × Result InsertOutcome AnyError)
        → c.IsValid y.0.repository
        → (y.1 ≡ ok stored → Puts t id msg ttl v (view c y.0))
        → (y.1 ≡ ok store_full → Overflows t id v (view c y.0))
        → ((e : AnyError) → y.1 ≡ err e → F × Sheds t.swept v (view c y.0))
        → (subscribe_stored y t' id tx).1 ≢ err StoreAndSubscribeError.waiter_limit_reached
        → Linked v (subscribe_stored y t' id tx)
    unfolding subscribe_stored
    stored-Linked v (s, ok InsertOutcome.store_full) valid puts full fails room =
        link_no_room (full refl)
    stored-Linked v (s, err e) valid puts full fails room =
        link_failed (fails e refl).0 (fails e refl).1
    stored-Linked v (s, ok stored) valid puts full fails room =
        elim (subscribe_ack_result F c faults s t' id valid tx) [
          | inl (n, q) ↦
              rw (q, subscribe_stored)
                (put_and_lost put_now (
                  lost-expired F t'.checked (view c s) id _ _ (puts refl).0
                    (get-Sees F c faults s t' id valid) n))
          | inr (e, found, inl q) ↦ rw (q, subscribe_stored) (put_and_joined put_now)
          | inr (e, found, inr (a, q)) ↦ absurd (room (rw (q, subscribe_stored) refl))
        ]
      where
        put_now : Puts t id msg ttl v (view c (subscribe_ack s t' id tx).0)
        put_now =
            Puts-Same v (view c s) _ (puts refl) (subscribe_ack-Same F c faults s t' id valid tx)

    sent-Linked :
        (x : WaitingList b)
        → c.IsValid x.repository
        → IsWithin x
        → HasRoom x.max_waiting_ids id x.waiters
        → Linked (view c x) (subscribe_stored (store x t id msg ttl) t' id tx)
    sent-Linked x valid within room =
        stored-Linked (view c x) (store x t id msg ttl)
          (rw (store-repository x t id msg ttl) (c.insert-IsValid _ _ _ _ _ _ _ valid))
          (store-Puts c x t id msg ttl valid) (store-Overflows c x t id msg ttl valid)
          (λ e q. (
            faults.insert_fails _ _ _ _ _ _ _ e (sym (store-result c x t id msg ttl valid) ∙ q),
            store-Sheds c x t id msg ttl valid (λ s. cc),
          ))
          (subscribe_stored-ne-limit t t' id msg ttl tx x within room)

    link_allowed :
        c.IsValid wl.repository
        → IsWithin wl
        → Linked (view c wl) (store_and_subscribe_ack wl t t' id msg ttl tx)
    unfolding store_and_subscribe_ack
    link_allowed valid within =
        ensure_cases wl t id (λ x. Linked (view c wl) (store_and_subscribe t t' id msg ttl tx x))
          (λ room. sent-Linked wl valid within room)
          (λ room.
            subst
              (λ r.
                Linked (λ j. c.find r j)
                  (subscribe_stored (store (after_prune wl t id) t id msg ttl) t' id tx))
              pruned
              (sent-Linked (after_prune wl t id) (subst c.IsValid (sym pruned) valid)
                (after_prune-IsWithin wl t id within) room))
          (λ n full. link_crowded (λ j. ap (λ r. c.find r j) pruned))
      where
        pruned : (after_prune wl t id).repository ≡ wl.repository
        pruned = after_prune-repository wl t id

  cleanup_allowed :
      (wl : WaitingList b) (t : Readings)
      → c.IsValid wl.repository
      → Allows F
          (view c wl)
          (view c (cleanup_expired wl t).0)
          (cleans t)
          (removed (cleanup_expired wl t).1)
  unfolding cleanup_expired remove_closed_waiters
  cleanup_allowed wl t valid = elim (Result-cases (b.cleanup_expired wl.repository t.swept).1) [
    | inl (ids, q) ↦ swept (λ j. c.find-cleanup wl.repository t.swept j valid q)
    | inr (e, q) ↦ rw q (
        sweep_failed (faults.cleanup_fails wl.repository t.swept e q)
          (λ j. c.find-cleanup_failed wl.repository t.swept j valid q))
  ]

  module _ (max : ℕ) where
    step_allowed :
        (wl : WaitingList b) (call : Call)
        → Inv c max wl
        → Allows F (view c wl) (view c (step wl call)) call (answer wl call)
    unfolding step answer
    step_allowed wl (stores t id msg ttl) v = store_allowed c wl t id msg ttl v.valid F faults
    step_allowed wl (acks t id) v = ack_allowed F c faults wl t id v.valid
    step_allowed wl (asks t id) v = is_acked_allowed F c faults wl t id v.valid
    step_allowed wl (subscribes t id tx) v = subscribe_ack_allowed F c faults wl t id v.valid tx
    step_allowed wl (links t t' id msg ttl tx) v =
        link_allowed wl t t' id msg ttl tx v.valid
          (subst (λ n. IsLimited n wl.waiters) (sym v.limit) v.within)
    step_allowed wl (gets t id tx) v = get_or_subscribe_allowed F c faults wl t id v.valid tx
    step_allowed wl (cleans t) v = cleanup_allowed wl t v.valid

    run-Behaves_from :
        (wl : WaitingList b) (calls : List Call)
        → Inv c max wl
        → Behaves F (view c wl) (answers wl calls) (view c (run wl calls))
    unfolding run answers
    run-Behaves_from wl [] v = ends (λ j. refl)
    run-Behaves_from wl (call ∷ calls) v =
        follows (step_allowed wl call v)
          (run-Behaves_from (step wl call) calls (step-Inv c max wl call v))

  -- A new waiting list over a valid repository refines the abstract mailbox: after every history of
  -- calls, the answers that it gave and the entries that it then holds are those of a run of the
  -- mailbox with the same calls, which starts from the entries of the repository. `F` holds where
  -- an operation of the repository fails, and the mailbox fails only where `F` holds.
  pub run_refines :
      (r : b.State) (calls : List Call)
      → c.IsValid r
      → Behaves F (c.find r) (answers (new b r) calls) (c.find (run (new b r) calls).repository)
  unfolding new
  run_refines r calls valid = run-Behaves_from (b.max_entries r) (new b r) calls (new-Inv c r valid)
