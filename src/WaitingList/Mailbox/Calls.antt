-- ===== src/WaitingList/Mailbox/Calls.antt =====
-- Each call, as the abstract mailbox sees it.
use http_relay.Base.{
  ℕ, String, ◌≡◌, refl, ap, ◌∙◌, Bool, false, inl, inr, ◌⊎◌, Option, none, some, Result, ok, err,
  AnyError, Option-cases, Bool-cases, Result-cases, str_dec, if_pos, if_neg,
}
use http_relay.Types.{Message, StoredEntry}
use http_relay.HashMap.{get}
use http_relay.Waiters.{add_ack_waiter, add_message_waiter}
use http_relay.Repository.{Repository, Contract, mark_acked}
use http_relay.WaitingList.State.{
  WaitingList, Readings, SubscribeError, message, waiting, unexpired, available, or_new,
}
use http_relay.WaitingList.Methods.{
  ack, ack_persisted, is_acked, wait_for_ack, push_ack_waiter, wait_for_message,
  push_message_waiter, subscribe_ack, get_or_subscribe,
}
use http_relay.WaitingList.Limits.{waiters_for_cases}
use http_relay.WaitingList.Ack.{ack_cases, notify_ack-repository}
use http_relay.WaitingList.Reads.{subscribe_ack-repository, get_or_subscribe-repository}
use http_relay.WaitingList.History.{acks, asks, subscribes, gets}
use http_relay.WaitingList.Mailbox.{
  Same, Marks, Sees, Allows, unfound, again, marked, mark_failed, tells, joins, crowded, unknown,
  gives, waits, turned_away, flag, told, channel, got,
}
use http_relay.WaitingList.Mailbox.Store.{FailsOnly, view}

-- A subscription is let in, or there are too many waiters.
module _ {b : Repository} (wl : WaitingList b) (t : Readings) (id : String) (tx : ℕ) where
  pub wait_for_ack_result :
      ((wait_for_ack wl t id tx).1 ≡ ok tx)
      ⊎ ((wait_for_ack wl t id tx).1 ≡ err SubscribeError.waiter_limit_reached)
  unfolding wait_for_ack
  wait_for_ack_result =
      waiters_for_cases wl t id
        (λ y.
          let r = (push_ack_waiter t id tx y).1 in
          (r ≡ ok tx) ⊎ (r ≡ err SubscribeError.waiter_limit_reached))
        (λ y from room.
          elim (Bool-cases (add_ack_waiter t.closed_at_add tx (or_new (get id y.waiters))).2) [
            | inl e ↦ inl (rw e refl)
            | inr e ↦ inr (rw e refl)
          ])
        (λ n full. inr refl)

  pub wait_for_message_result :
      ((wait_for_message wl t id tx).1 ≡ ok (waiting tx))
      ⊎ ((wait_for_message wl t id tx).1 ≡ err SubscribeError.waiter_limit_reached)
  unfolding wait_for_message
  wait_for_message_result =
      waiters_for_cases wl t id
        (λ y.
          let r = (push_message_waiter t id tx y).1 in
          (r ≡ ok (waiting tx)) ⊎ (r ≡ err SubscribeError.waiter_limit_reached))
        (λ y from room.
          elim (Bool-cases (add_message_waiter t.closed_at_add tx (or_new (get id y.waiters))).2) [
            | inl e ↦ inl (rw e refl)
            | inr e ↦ inr (rw e refl)
          ])
        (λ n full. inr refl)

module _ (F : Type 0) {b : Repository} (c : Contract b) (faults : FailsOnly F b) where
  module _ (wl : WaitingList b) (t : Readings) (id : String) (valid : c.IsValid wl.repository) where
    abbrev looked : Result (Option StoredEntry) AnyError
    looked = (b.get wl.repository id).1

    pub get-Sees : Sees F (view c wl) id looked
    get-Sees = elim (Result-cases looked) [
      | inl (e, q) ↦ inl (q ∙ ap ok (c.get-find wl.repository id valid q))
      | inr (e, q) ↦ inr (faults.get_fails wl.repository id e q, e, q)
    ]

    read-Same : (j : String) → c.find (b.get wl.repository id).0 j ≡ view c wl j
    read-Same j = c.find-get wl.repository id j valid

    pub is_acked_allowed :
        Allows F (view c wl) (view c (is_acked wl t id).0) (asks t id) (told (is_acked wl t id).1)
    unfolding is_acked
    is_acked_allowed = tells get-Sees read-Same

    abbrev asked : WaitingList b
    asked = record wl { repository = (b.get wl.repository id).0 }

    given :
        (tx : ℕ) {msg : Message}
        → available t.checked looked ≡ some msg
        → (get_or_subscribe wl t id tx).1 ≡ ok (message msg)
    unfolding get_or_subscribe
    given tx s = rw s refl

    waited :
        (tx : ℕ)
        → available t.checked looked ≡ none
        → (get_or_subscribe wl t id tx).1 ≡ (wait_for_message asked t id tx).1
    unfolding get_or_subscribe
    waited tx n = rw n refl

    get_or_subscribe-Same : (tx : ℕ) → Same (view c wl) (view c (get_or_subscribe wl t id tx).0)
    get_or_subscribe-Same tx j =
        ap (λ r. c.find r j) (get_or_subscribe-repository t id tx wl) ∙ read-Same j

    pub get_or_subscribe_allowed :
        (tx : ℕ)
        → Allows F
            (view c wl)
            (view c (get_or_subscribe wl t id tx).0)
            (gets t id tx)
            (got (get_or_subscribe wl t id tx).1)
    get_or_subscribe_allowed tx = elim (Option-cases (available t.checked looked)) [
      | inr (msg, s) ↦ rw (given tx s) (gives get-Sees s (get_or_subscribe-Same tx))
      | inl n ↦ elim (wait_for_message_result asked t id tx) [
        | inl q ↦ rw (waited tx n ∙ q) (waits get-Sees n (get_or_subscribe-Same tx))
        | inr q ↦ rw (waited tx n ∙ q) (turned_away get-Sees n (get_or_subscribe-Same tx))
      ]
    ]

    pub subscribe_ack-Same : (tx : ℕ) → Same (view c wl) (view c (subscribe_ack wl t id tx).0)
    subscribe_ack-Same tx j =
        ap (λ r. c.find r j) (subscribe_ack-repository t id tx wl) ∙ read-Same j

    -- The answers of `subscribe_ack`.
    pub subscribe_ack_result :
        (tx : ℕ)
        → ((unexpired t.checked looked ≡ none)
            × ((subscribe_ack wl t id tx).1 ≡ err SubscribeError.not_found))
          ⊎ ((e : StoredEntry) × (unexpired t.checked looked ≡ some e)
              × (((subscribe_ack wl t id tx).1 ≡ ok tx)
                  ⊎ ((e.acked ≡ false)
                      × ((subscribe_ack wl t id tx).1 ≡ err SubscribeError.waiter_limit_reached))))
    unfolding subscribe_ack
    subscribe_ack_result tx = elim (Option-cases (unexpired t.checked looked)) [
      | inl n ↦ inl (n, rw n refl)
      | inr (e, s) ↦ elim (Bool-cases e.acked) [
        | inl a ↦ inr (e, s, inl (rw s (rw a refl)))
        | inr a ↦ elim (wait_for_ack_result asked t id tx) [
          | inl q ↦ inr (e, s, inl (rw s (rw a q)))
          | inr q ↦ inr (e, s, inr (a, rw s (rw a q)))
        ]
      ]
    ]

    pub subscribe_ack_allowed :
        (tx : ℕ)
        → Allows F
            (view c wl)
            (view c (subscribe_ack wl t id tx).0)
            (subscribes t id tx)
            (channel (subscribe_ack wl t id tx).1)
    subscribe_ack_allowed tx = elim (subscribe_ack_result tx) [
      | inl (n, q) ↦ rw q (unknown get-Sees n (subscribe_ack-Same tx))
      | inr (e, s, inl q) ↦ rw q (joins get-Sees s (subscribe_ack-Same tx))
      | inr (e, s, inr (a, q)) ↦ rw q (crowded get-Sees s a (subscribe_ack-Same tx))
    ]

    marked-Marks :
        {done : Bool}
        → (b.ack asked.repository id).1 ≡ ok done
        → Marks id (view c wl) (λ j. c.find (b.ack asked.repository id).0 j)
    marked-Marks q =
        let v : c.IsValid asked.repository = c.get-IsValid wl.repository id valid in
        (
          c.find-ack asked.repository id id v q
              ∙ if_pos (str_dec id id) refl _ _
              ∙ ap mark_acked (read-Same id),
          λ j n. c.find-ack asked.repository id j v q ∙ if_neg (str_dec id j) n _ _ ∙ read-Same j,
        )

    persisted_allowed :
        (e : StoredEntry)
        → unexpired t.checked looked ≡ some e
        → e.acked ≡ false
        → (r : Result Bool AnyError) → (b.ack asked.repository id).1 ≡ r
        → let x =
            ack_persisted id (record asked { repository = (b.ack asked.repository id).0 }) r in
          Allows F (view c wl) (view c x.0) (acks t id) (flag x.1)
    persisted_allowed e s a (ok done) q = marked get-Sees s a (
      rw (notify_ack-repository (record asked { repository = (b.ack asked.repository id).0 }) id)
          (marked-Marks q).0,
      λ j n.
          rw
            (notify_ack-repository (record asked { repository = (b.ack asked.repository id).0 }) id)
            ((marked-Marks q).1 j n),
    )
    persisted_allowed e s a (err x) q = mark_failed (faults.ack_fails asked.repository id x q) (λ j.
        c.find-ack_failed asked.repository id j (c.get-IsValid wl.repository id valid) q
        ∙ read-Same j)

    pub ack_allowed :
        Allows F (view c wl) (view c (ack wl t id).0) (acks t id) (flag (ack wl t id).1)
    ack_allowed =
        ack_cases c wl t id valid (λ x. Allows F (view c wl) (view c x.0) (acks t id) (flag x.1))
          (λ n. unfound get-Sees n read-Same) (λ e s a. again get-Sees s a read-Same)
          (λ e s a. persisted_allowed e s a (b.ack asked.repository id).1 refl)
