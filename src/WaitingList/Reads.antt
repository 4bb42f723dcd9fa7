-- ===== src/WaitingList/Reads.antt =====
-- Which methods leave the repository alone, but for the reading of an entry.
use http_relay.Base.{ℕ, String, ◌≡◌, refl, ◌⊎◌, inl, inr, Option, none, some, Bool-cases}
use http_relay.Types.{Message, StoredEntry}
use http_relay.Repository.{Repository}
use http_relay.WaitingList.State.{WaitingList, Readings, unexpired, available}
use http_relay.WaitingList.Methods.{
  wait_for_ack, wait_for_message, push_ack_waiter, push_message_waiter, subscribe_found,
  subscribe_ack, hand_over, get_or_subscribe,
}
use http_relay.WaitingList.Limits.{after_prune, after_prune-repository, waiters_for_cases}

module _ {b : Repository} (wl : WaitingList b) (t : Readings) (id : String) where
  one_of-repository :
      (x : WaitingList b) → (x ≡ wl) ⊎ (x ≡ after_prune wl t id) → x.repository ≡ wl.repository
  one_of-repository x (inl e) = rw e
  one_of-repository x (inr e) = rw e (after_prune-repository wl t id)

  wait_for_ack-repository : (tx : ℕ) → (wait_for_ack wl t id tx).0.repository ≡ wl.repository
  unfolding wait_for_ack
  wait_for_ack-repository tx =
      waiters_for_cases wl t id (λ x. (push_ack_waiter t id tx x).0.repository ≡ wl.repository)
        (λ x from room. one_of-repository x from) (λ n full. after_prune-repository wl t id)

  wait_for_message-repository :
      (tx : ℕ) → (wait_for_message wl t id tx).0.repository ≡ wl.repository
  unfolding wait_for_message
  wait_for_message-repository tx =
      waiters_for_cases wl t id (λ x. (push_message_waiter t id tx x).0.repository ≡ wl.repository)
        (λ x from room. one_of-repository x from) (λ n full. after_prune-repository wl t id)

module _ {b : Repository} (t : Readings) (id : String) (tx : ℕ) where
  subscribe_found-repository :
      (x : WaitingList b) (e : Option StoredEntry)
      → (subscribe_found t id tx x e).0.repository ≡ x.repository
  subscribe_found-repository x none = refl
  subscribe_found-repository x (some e) = elim (Bool-cases e.acked) [
    | inl a ↦ rw a
    | inr a ↦ rw a (wait_for_ack-repository x t id tx)
  ]

  pub subscribe_ack-repository :
      (wl : WaitingList b) → (subscribe_ack wl t id tx).0.repository ≡ (b.get wl.repository id).0
  unfolding subscribe_ack
  subscribe_ack-repository wl =
      subscribe_found-repository _ (unexpired t.checked (b.get wl.repository id).1)

  hand_over-repository :
      (x : WaitingList b) (m : Option Message) → (hand_over t id tx x m).0.repository ≡ x.repository
  hand_over-repository x (some msg) = refl
  hand_over-repository x none = wait_for_message-repository x t id tx

  pub get_or_subscribe-repository :
      (wl : WaitingList b) → (get_or_subscribe wl t id tx).0.repository ≡ (b.get wl.repository id).0
  unfolding get_or_subscribe
  get_or_subscribe-repository wl =
      hand_over-repository _ (available t.checked (b.get wl.repository id).1)
