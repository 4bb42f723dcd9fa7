-- ===== src/WaitingList/Traced/Store.antt =====
-- The calls that write the repository keep the waiting list traced.
use http_relay.Base.{
  ℕ, String, ◌≡◌, ◌≢◌, ◌++◌, refl, subst, Bool, inl, inr, ◌⊎◌, List, Option, none, some, All,
  All-append, All-map, Option-cases, Bool-cases, Result-cases, Result, ok, err, AnyError, str_dec,
  if_pos, if_neg, arith, ◌∙◌,
}
use http_relay.Types.{Message, StoredEntry, InsertOutcome, stored, expiry}
use http_relay.HashMap.{get, remove_all}
use http_relay.HashMap.Laws.{passes}
use http_relay.HashMap.Keyed.{Keyed-get, Keyed-remove_all}
use http_relay.Waiters.{Waiters, Signal, delivered, acknowledged, drops}
use http_relay.Waiters
use http_relay.Repository.{Repository, Contract, mark_acked, is_past}
use http_relay.WaitingList.State.{
  WaitingList, Readings, is_store_full, unexpired, or_none, removed_signals,
}
use http_relay.WaitingList.Methods.{
  store, ack, ack_found, ack_persisted, is_acked, notify_message_waiters, notify_ack_waiters,
  write_notified, subscribe_stored, store_and_subscribe, store_and_subscribe_ack, cleanup_expired,
}
use http_relay.WaitingList.Limits.{after_prune, ensure_cases}
use http_relay.WaitingList.Traced.{
  Facts, IsExplained, IsNamed, IsGenuine, IsTraced, Outlives-IsGenuine, drops-IsExplained,
  put_back-IsNamed, waiters-IsTraced, repository-IsTraced, read-IsTraced, remove_closed-IsTraced,
  removed-IsExplained, after_prune-IsTraced,
}
use http_relay.WaitingList.Traced.Subscribe.{subscribe_ack-IsTraced}

module _ (f : Facts) {b : Repository} (c : Contract b) where
  -- The waiters of the ID after a notification.
  written-IsTraced :
      (wl : WaitingList b) (id : String) (w : Waiters) (sigs : List Signal)
      → IsTraced f c wl
      → IsNamed f id w
      → All (IsExplained f) sigs
      → IsTraced f c (write_notified wl id (w, sigs))
  written-IsTraced wl id w sigs v n h =
      waiters-IsTraced f c wl v _ sigs (put_back-IsNamed f id w wl.waiters n v.named) h

  notify_message-IsTraced :
      (wl : WaitingList b) (id : String) (msg : Message)
      → IsTraced f c wl
      → f.Posted id msg
      → IsTraced f c (notify_message_waiters wl id msg)
  unfolding notify_message_waiters Waiters.notify_message_waiters
  notify_message-IsTraced wl id msg v p = elim (Option-cases (get id wl.waiters)) [
    | inl n ↦ rw (n, notify_message_waiters) v
    | inr (w, s) ↦
        rw (s, notify_message_waiters)
          (written-IsTraced wl id Waiters.new _ v (tt, tt)
            (All-append (IsExplained f) (drops w.ack_waiters) _ (drops-IsExplained f w.ack_waiters)
              (All-map (IsExplained f) (f.Asked id) (λ tx. delivered tx msg) w.message_waiters
                (λ tx asked. (id, asked, p)) (Keyed-get (IsNamed f) id wl.waiters v.named s).1)))
  ]

  notify_ack-IsTraced :
      (wl : WaitingList b) (id : String)
      → IsTraced f c wl
      → f.Acked id
      → IsTraced f c (notify_ack_waiters wl id)
  unfolding notify_ack_waiters Waiters.notify_ack_waiters
  notify_ack-IsTraced wl id v a = elim (Option-cases (get id wl.waiters)) [
    | inl n ↦ rw (n, notify_ack_waiters) v
    | inr (w, s) ↦
        rw (s, notify_ack_waiters)
          (written-IsTraced wl id (Waiters.notify_ack_waiters w).0 _ v
            (tt, (Keyed-get (IsNamed f) id wl.waiters v.named s).1)
            (All-map (IsExplained f) (f.Awaited id) acknowledged w.ack_waiters
              (λ tx awaited. (id, awaited, a)) (Keyed-get (IsNamed f) id wl.waiters v.named s).0))
  ]

  module _ (wl : WaitingList b) (t : Readings) (id : String) (msg : Message) (ttl : ℕ)
      (v : IsTraced f c wl) where
    abbrev inserted : b.State × Result InsertOutcome AnyError
    inserted =
        b.insert wl.repository t.created t.swept id msg.body msg.content_type (expiry t.called ttl)

    other-IsGenuine :
        (j : String) → (id ≢ j) ⊎ (inserted.1 ≢ ok stored) → IsGenuine f j (c.find inserted.0 j)
    other-IsGenuine j h =
        Outlives-IsGenuine f t.swept j _ _
          (c.insert_other wl.repository t.created t.swept id msg.body msg.content_type
            (expiry t.called ttl) j v.valid h)
          (v.genuine j)

    stored-IsGenuine :
        f.Posted id msg → inserted.1 ≡ ok stored → IsGenuine f id (c.find inserted.0 id)
    stored-IsGenuine p e =
        rw
          (c.insert_stored wl.repository t.created t.swept id msg.body msg.content_type
            (expiry t.called ttl) v.valid e)
          (
            (λ h. cc),
            λ body q.
                subst (λ x. f.Posted id (record { body = x; content_type = msg.content_type }))
                  (ground arith) p,
          )

    inserted-IsGenuine : f.Posted id msg → (j : String) → IsGenuine f j (c.find inserted.0 j)
    inserted-IsGenuine p j = elim (str_dec id j) [
      | no n ↦ other-IsGenuine j (inl n)
      | yes e ↦ subst (λ i. IsGenuine f i (c.find inserted.0 i)) e (own inserted.1 refl)
    ]
      where
        own :
            (r : Result InsertOutcome AnyError)
            → inserted.1 ≡ r
            → IsGenuine f id (c.find inserted.0 id)
        own (ok stored) q = stored-IsGenuine p q
        own (ok InsertOutcome.store_full) q = other-IsGenuine id (inr (λ h. cc))
        own (err x) q = other-IsGenuine id (inr (λ h. cc))

    pub store-IsTraced : f.Posted id msg → IsTraced f c (store wl t id msg ttl).0
    unfolding store
    store-IsTraced p = elim (Bool-cases (is_store_full inserted.1)) [
      | inl e ↦ rw e stored_only
      | inr e ↦ rw e (notify_message-IsTraced _ id msg stored_only p)
    ]
      where
        stored_only : IsTraced f c (record wl { repository = inserted.0 })
        stored_only =
            repository-IsTraced f c wl v _ (c.insert-IsValid _ _ _ _ _ _ _ v.valid)
              (inserted-IsGenuine p)

  module _ (wl : WaitingList b) (t : Readings) (id : String) (v : IsTraced f c wl) where
    pub is_acked-IsTraced : IsTraced f c (is_acked wl t id).0
    unfolding is_acked
    is_acked-IsTraced = read-IsTraced f c wl v id

    marked-IsGenuine : f.Acked id → (e : Option StoredEntry) → IsGenuine f id (mark_acked e)
    marked-IsGenuine a none = tt
    marked-IsGenuine a (some e) = ((λ h. a), λ body q. cc)

    acked-IsGenuine :
        {done : Bool}
        → f.Acked id
        → (b.ack wl.repository id).1 ≡ ok done
        → (j : String) → IsGenuine f j (c.find (b.ack wl.repository id).0 j)
    acked-IsGenuine a q j = elim (str_dec id j) [
      | yes e ↦ rw (c.find-ack wl.repository id j v.valid q ∙ if_pos (str_dec id j) e _ _) (
          subst (λ i. IsGenuine f i (mark_acked (c.find wl.repository i))) e (marked-IsGenuine a _))
      | no n ↦
          rw (c.find-ack wl.repository id j v.valid q ∙ if_neg (str_dec id j) n _ _) (v.genuine j)
    ]

    persisted-IsTraced :
        (r : Result Bool AnyError)
        → (b.ack wl.repository id).1 ≡ r
        → f.Acked id
        → IsTraced f c
            (ack_persisted id (record wl { repository = (b.ack wl.repository id).0 }) r).0
    persisted-IsTraced (ok done) q a =
        notify_ack-IsTraced _ id
          (repository-IsTraced f c wl v _ (c.ack-IsValid wl.repository id v.valid)
            (acked-IsGenuine a q))
          a
    persisted-IsTraced (err x) q a =
        repository-IsTraced f c wl v _ (c.ack-IsValid wl.repository id v.valid)
          (λ j. rw (c.find-ack_failed wl.repository id j v.valid q) (v.genuine j))

    ack_found-IsTraced : (e : Option StoredEntry) → f.Acked id → IsTraced f c (ack_found id wl e).0
    ack_found-IsTraced none a = v
    ack_found-IsTraced (some e) a = elim (Bool-cases e.acked) [
      | inl y ↦ rw y v
      | inr y ↦ rw y (persisted-IsTraced (b.ack wl.repository id).1 refl a)
    ]

  pub ack-IsTraced :
      (wl : WaitingList b) (t : Readings) (id : String)
      → IsTraced f c wl
      → f.Acked id
      → IsTraced f c (ack wl t id).0
  unfolding ack
  ack-IsTraced wl t id v =
      ack_found-IsTraced _ t id (read-IsTraced f c wl v id)
        (unexpired t.checked (b.get wl.repository id).1)

  stored-IsTraced :
      (x : WaitingList b × Result InsertOutcome AnyError) (t : Readings) (id : String) (tx : ℕ)
      → IsTraced f c x.0
      → f.Awaited id tx
      → IsTraced f c (subscribe_stored x t id tx).0
  unfolding subscribe_stored
  stored-IsTraced (wl, ok stored) t id tx v a = subscribe_ack-IsTraced f c wl t id v tx a
  stored-IsTraced (wl, ok InsertOutcome.store_full) t id tx v a = v
  stored-IsTraced (wl, err e) t id tx v a = v

  pub store_and_subscribe_ack-IsTraced :
      (wl : WaitingList b) (t t' : Readings) (id : String) (msg : Message) (ttl tx : ℕ)
      → IsTraced f c wl
      → f.Posted id msg
      → f.Awaited id tx
      → IsTraced f c (store_and_subscribe_ack wl t t' id msg ttl tx).0
  unfolding store_and_subscribe_ack
  store_and_subscribe_ack-IsTraced wl t t' id msg ttl tx v p a =
      ensure_cases wl t id (λ x. IsTraced f c (store_and_subscribe t t' id msg ttl tx x).0)
        (λ _. stored-IsTraced _ t' id tx (store-IsTraced wl t id msg ttl v p) a)
        (λ _. stored-IsTraced _ t' id tx (store-IsTraced _ t id msg ttl pruned p) a) (λ _ _. pruned)
    where
      pruned : IsTraced f c (after_prune wl t id)
      pruned = after_prune-IsTraced f c wl v t id

  pub cleanup_expired-IsTraced :
      (wl : WaitingList b) (t : Readings) → IsTraced f c wl → IsTraced f c (cleanup_expired wl t).0
  unfolding cleanup_expired
  cleanup_expired-IsTraced wl t v = remove_closed-IsTraced f c _ swept t.closed_at_prune
    where
      left : (j : String) → IsGenuine f j (c.find (b.cleanup_expired wl.repository t.swept).0 j)
      left j = elim (Result-cases (b.cleanup_expired wl.repository t.swept).1) [
        | inl (ids, q) ↦
            rw (c.find-cleanup wl.repository t.swept j v.valid q)
              (elim (Bool-cases (passes (is_past t.swept) (c.find wl.repository j))) [
                | inl y ↦ rw y tt
                | inr y ↦ rw y (v.genuine j)
              ])
        | inr (x, q) ↦
            Outlives-IsGenuine f t.swept j _ _
              (c.find-cleanup_failed wl.repository t.swept j v.valid q) (v.genuine j)
      ]

      removed :
          IsTraced f c (record wl { repository = (b.cleanup_expired wl.repository t.swept).0 })
      removed =
          repository-IsTraced f c wl v _ (c.cleanup-IsValid wl.repository t.swept v.valid) left

      swept :
          let ids = or_none (b.cleanup_expired wl.repository t.swept).1 in
          IsTraced f c (record wl {
            repository = (b.cleanup_expired wl.repository t.swept).0;
            waiters = remove_all ids wl.waiters;
            signals = wl.signals ++ removed_signals ids wl.waiters;
          })
      swept =
          waiters-IsTraced f c _ removed _ _ (Keyed-remove_all (IsNamed f) _ wl.waiters v.named)
            (removed-IsExplained f _ wl.waiters)
