-- ===== src/WaitingList/Traced/Answers.antt =====
-- What the answers of a waiting list tell, if all that it holds has its cause.
use http_relay.Base.{
  ℕ, String, ◌≡◌, ◌≢◌, refl, Bool, true, false, inl, inr, Option, none, some, Option-cases, ok,
  arith, subst, ap,
}
use http_relay.Types.{Bytes, Message, StoredEntry}
use http_relay.HashMap.{get}
use http_relay.Waiters.{add_message_waiter}
use http_relay.WaitingList.Limits.{waiters_for_cases}
use http_relay.WaitingList.Capacity.{give_out}
use http_relay.Repository.{Repository, Contract}
use http_relay.WaitingList.State.{WaitingList, Readings, message, or_new, unexpired, available}
use http_relay.WaitingList.Methods.{
  get_or_subscribe, hand_over, is_acked, wait_for_message, push_message_waiter,
}
use http_relay.WaitingList.Traced.{Facts, IsTraced}
use http_relay.WaitingList.Traced.Subscribe.{found-IsGenuine}

body_of :
    (got : Option Bytes) (ct : Option String) (msg : Message)
    → elim got [ none ↦ none | some body ↦ some (record { body = body; content_type = ct }) ]
      ≡ some msg
    → (got ≡ some msg.body) × (ct ≡ msg.content_type)
body_of none ct msg h = cc
body_of (some body) ct msg h = (
  ap (λ m. elim m [ none ↦ some msg.body | some x ↦ some x.body ]) h,
  ap (λ m. elim m [ none ↦ ct | some x ↦ x.content_type ]) h,
)

module _ {b : Repository} (t : Readings) (id : String) where
  waits_only :
      (x : WaitingList b) (tx : ℕ) (msg : Message)
      → (wait_for_message x t id tx).1 ≢ ok (message msg)
  unfolding wait_for_message
  waits_only x tx msg =
      waiters_for_cases x t id (λ y. (push_message_waiter t id tx y).1 ≢ ok (message msg))
        (λ y from room.
          added y (add_message_waiter t.closed_at_add tx (or_new (get id y.waiters))).2 refl)
        (λ n full h. cc)
    where
      added :
          (y : WaitingList b) (b : Bool)
          → (add_message_waiter t.closed_at_add tx (or_new (get id y.waiters))).2 ≡ b
          → (push_message_waiter t id tx (give_out id (y, ok tt))).1 ≢ ok (message msg)
      added y true q h = cc (rw q at h)
      added y false q h = cc (rw q at h)

  handed :
      (x : WaitingList b) (tx : ℕ) (m : Option Message) (msg : Message)
      → (hand_over t id tx x m).1 ≡ ok (message msg)
      → m ≡ some msg
  handed x tx (some m) msg h = cc
  handed x tx none msg h = absurd (waits_only x tx msg h)

module _ (f : Facts) {b : Repository} (c : Contract b) (wl : WaitingList b) (t : Readings)
    (id : String) (v : IsTraced f c wl) where
  pub get-Posted :
      (tx : ℕ) (msg : Message)
      → (get_or_subscribe wl t id tx).1 ≡ ok (message msg)
      → f.Posted id msg
  unfolding get_or_subscribe
  get-Posted tx msg h =
      read (unexpired t.checked (b.get wl.repository id).1) refl (handed t id _ tx _ msg h)
    where
      read :
          (x : Option StoredEntry)
          → unexpired t.checked (b.get wl.repository id).1 ≡ x
          → available t.checked (b.get wl.repository id).1 ≡ some msg
          → f.Posted id msg
      read none q h = cc
      read (some e) q h =
          let (body, ct) = body_of e.message_body e.content_type msg (rw (q, available) at h) in
          subst (λ x. f.Posted id (record { body = msg.body; content_type = x })) ct
            ((found-IsGenuine f c wl t id v e q).1 msg.body body)

  pub is_acked-Acked : (is_acked wl t id).1 ≡ some true → f.Acked id
  unfolding is_acked
  is_acked-Acked h = elim (Option-cases (unexpired t.checked (b.get wl.repository id).1)) [
    | inl n ↦ cc
    | inr (e, s) ↦ (found-IsGenuine f c wl t id v e s).0 (ground (arith, s))
  ]
