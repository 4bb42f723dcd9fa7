-- ===== src/WaitingList/Linked.antt =====
-- What `store_and_subscribe_ack` leaves behind for a producer that waits.
use http_relay.Base.{
  ℕ, String, ◌≡◌, ◌≢◌, ◌<◌, refl, sym, ◌∙◌, false, inl, inr, [], ◌∷◌, none, some, Result, ok, err,
  AnyError, Option-cases, arith, retain,
}
use http_relay.Types.{Message, StoredEntry, InsertOutcome, stored, expiry}
use http_relay.HashMap.{get, len}
use http_relay.HashMap.Laws.{get-insert_self}
use http_relay.Waiters.{Waiters, add_ack_waiter}
use http_relay.Repository.{Repository, Contract, new_entry}
use http_relay.WaitingList.State.{
  WaitingList, Readings, SubscribeError, StoreAndSubscribeError, unexpired, from,
}
use http_relay.WaitingList.Capacity.{waiters_for}
use http_relay.WaitingList.Methods.{
  store, subscribe_ack, wait_for_ack, store_and_subscribe_ack, store_and_subscribe,
  subscribe_stored,
}
use http_relay.WaitingList.Limits.{
  IsWithin, HasRoom, after_prune, after_prune-IsWithin, after_prune-repository, ensure_cases,
}
use http_relay.WaitingList.Store.{store-find, store-repository}
use http_relay.WaitingList.Ack.{unexpired-eq-some}
use http_relay.WaitingList.Reads.{subscribe_ack-repository}
use http_relay.WaitingList.Subscribe.{ensure_roomy, HasFreeSlot, store-leaves-room}

-- The waiters of an ID where only this ACK channel is held.
abbrev pub only : ℕ → Waiters
only tx = record { ack_waiters = tx ∷ []; message_waiters = [] }

module _ {b : Repository} (wl : WaitingList b) (t : Readings) (id : String) (tx : ℕ) where
  wait_for_ack-get :
      len wl.waiters < wl.max_waiting_ids
      → get id wl.waiters ≡ none
      → ((wait_for_ack wl t id tx).1 ≡ ok tx)
        × (get id (wait_for_ack wl t id tx).0.waiters ≡ some (only tx))
  unfolding wait_for_ack waiters_for add_ack_waiter retain
  wait_for_ack-get h n =
      rw (ensure_roomy wl t id tx h, waiters_for, wait_for_ack)
        (rw n (refl, get-insert_self id (only tx) _))

module _ {b : Repository} (c : Contract b) (id : String) where
  -- The state that a producer on the channel `tx` waits in: its entry `e` is held and not
  -- acknowledged, and it alone waits for the ID.
  pub record IsLinked (e : StoredEntry) (tx : ℕ) (s : WaitingList b) : Type 0 where
    pub valid : c.IsValid s.repository
    pub held : c.find s.repository id ≡ some e
    pub waits : get id s.waiters ≡ some (only tx)

  module _ (t : Readings) (tx rx : ℕ) where
    subscribe-IsLinked :
        (s : WaitingList b) (e : StoredEntry)
        → c.IsValid s.repository
        → c.find s.repository id ≡ some e
        → e.acked ≡ false
        → HasFreeSlot t id tx s
        → (subscribe_ack s t id tx).1 ≡ ok rx
        → IsLinked e tx (subscribe_ack s t id tx).0
    unfolding subscribe_ack
    subscribe-IsLinked s e v held new (small, free) q =
        elim (Option-cases (unexpired t.checked (b.get s.repository id).1)) [
          | inl n ↦ absurd (missing n)
          | inr (x, found) ↦
              let same : c.find s.repository id ≡ some x =
                sym (c.get-find s.repository id v (unexpired-eq-some t.checked _ x found).0) in
              let fresh : x.acked ≡ false = ground (arith, same, held, new) in
              record {
                valid = rw (subscribe_ack-repository t id tx s) (c.get-IsValid s.repository id v);
                held =
                    rw (subscribe_ack-repository t id tx s)
                      (c.find-get s.repository id id v ∙ held);
                waits =
                    rw (found, subscribe_ack) (rw fresh (wait_for_ack-get _ t id tx small free).1);
              }
        ]
      where
        missing : unexpired t.checked (b.get s.repository id).1 ≢ none
        missing n = cc (n, q)

    stored-IsLinked :
        (y : WaitingList b × Result InsertOutcome AnyError) (e : StoredEntry)
        → c.IsValid y.0.repository
        → (y.1 ≡ ok stored → (c.find y.0.repository id ≡ some e) × HasFreeSlot t id tx y.0)
        → e.acked ≡ false
        → (subscribe_stored y t id tx).1 ≡ ok rx
        → IsLinked e tx (subscribe_stored y t id tx).0
    unfolding subscribe_stored
    stored-IsLinked (s, ok stored) e v h new q =
        subscribe-IsLinked s e v (h refl).0 new (h refl).1 (answered (subscribe_ack s t id tx).1 q)
      where
        answered :
            (r : Result ℕ SubscribeError)
            → ◌≡◌ {A = Result ℕ StoreAndSubscribeError}
                (elim r [ ok x ↦ ok x | err x ↦ err (from x) ])
                (ok rx)
            → r ≡ ok rx
        answered (ok x) q = cc
        answered (err x) q = cc
    stored-IsLinked (s, ok InsertOutcome.store_full) e v h new q = cc
    stored-IsLinked (s, err x) e v h new q = cc

module _ {b : Repository} (c : Contract b) (wl : WaitingList b) (t t' : Readings) (id : String)
    (msg : Message) (ttl tx rx : ℕ) where
  -- A producer that was let in is the one that waits, for the message that it just stored.
  pub store_and_subscribe_ack-IsLinked :
      c.IsValid wl.repository
      → IsWithin wl
      → (store_and_subscribe_ack wl t t' id msg ttl tx).1 ≡ ok rx
      → IsLinked c id
          (new_entry msg.body msg.content_type (expiry t.called ttl))
          tx
          (store_and_subscribe_ack wl t t' id msg ttl tx).0
  unfolding store_and_subscribe_ack
  store_and_subscribe_ack-IsLinked v within =
      ensure_cases wl t id
        (λ x.
          (store_and_subscribe t t' id msg ttl tx x).1 ≡ ok rx
          → IsLinked c id e tx (store_and_subscribe t t' id msg ttl tx x).0)
        (λ room. sent wl v within room)
        (λ room.
          sent (after_prune wl t id) (rw (after_prune-repository wl t id) v)
            (after_prune-IsWithin wl t id within) room)
        (λ n full q. cc)
    where
      e : StoredEntry
      e = new_entry msg.body msg.content_type (expiry t.called ttl)

      sent :
          (x : WaitingList b)
          → c.IsValid x.repository
          → IsWithin x
          → HasRoom x.max_waiting_ids id x.waiters
          → (subscribe_stored (store x t id msg ttl) t' id tx).1 ≡ ok rx
          → IsLinked c id e tx (subscribe_stored (store x t id msg ttl) t' id tx).0
      sent x xv xw room =
          stored-IsLinked c id t' tx rx (store x t id msg ttl) e
            (rw (store-repository x t id msg ttl) (c.insert-IsValid _ _ _ _ _ _ _ xv))
            (λ s.
              (store-find x t id msg ttl c xv s, store-leaves-room t t' id msg ttl tx x xw room s))
            refl
