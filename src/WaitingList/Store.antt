-- ===== src/WaitingList/Store.antt =====
-- What `store` does to the waiters, and what a later call finds.
use mathlib.Core.List.{append-nil}
use http_relay.Base.{
  ℕ, String, ◌≡◌, ◌<◌, refl, false, inl, inr, List, [], ◌++◌, map, Option, none, some, Result, ok,
  AnyError, Option-cases, Bool-cases, if◌then◌else◌, arith, sym, ap, ◌∙◌, ite, str_dec,
}
use http_relay.Types.{Bytes, Message, StoredEntry, InsertOutcome, stored, expiry}
use http_relay.HashMap.{HashMap, get, remove}
use http_relay.HashMap.Laws.{get-remove}
use http_relay.Waiters.{Waiters, Signal, delivered, drops}
use http_relay.Waiters
use http_relay.Repository.{Repository, Contract, new_entry}
use http_relay.WaitingList.State.{WaitingList, Readings, message, is_store_full, available, or_new}
use http_relay.WaitingList.Methods.{store, notify_message_waiters, get_or_subscribe}

-- The signals of a delivery: the ACK waiters of the ID are dropped, its message waiters are served.
abbrev pub delivery : Message → Waiters → List Signal
delivery msg w = drops w.ack_waiters ++ map (λ tx. delivered tx msg) w.message_waiters

module _ {b : Repository} (wl : WaitingList b) (id : String) (msg : Message) where
  notify_message-signals :
      (notify_message_waiters wl id msg).signals
      ≡ wl.signals ++ delivery msg (or_new (get id wl.waiters))
  unfolding notify_message_waiters Waiters.notify_message_waiters
  notify_message-signals = elim (Option-cases (get id wl.waiters)) [
    | inl n ↦ rw (n, notify_message_waiters) (sym (append-nil wl.signals))
    | inr (w, s) ↦ rw (s, notify_message_waiters) refl
  ]

  notify_message-get :
      (j : String)
      → get j (notify_message_waiters wl id msg).waiters
        ≡ ite (str_dec id j) none (get j wl.waiters)
  unfolding notify_message_waiters Waiters.notify_message_waiters
  notify_message-get j = elim (Option-cases (get id wl.waiters)) [
    | inl n ↦ rw (n, notify_message_waiters) (ground (arith, n))
    | inr (w, s) ↦ rw (s, notify_message_waiters) (get-remove id j wl.waiters)
  ]

-- An entry that is read before its time gives its message.
pub available_found :
    (now : ℕ) (got : Result (Option StoredEntry) AnyError) (e : StoredEntry) (body : Bytes)
    → got ≡ ok (some e)
    → e.message_body ≡ some body
    → now < e.expires_at
    → available now got ≡ some (record { body = body; content_type = e.content_type })
available_found now got e body q s h = ground (arith, q, s)

-- The map after a delivery to the ID.
abbrev pub served : String → HashMap Waiters → HashMap Waiters
served id m = elim (get id m) [ none ↦ m | some w ↦ remove id m ]

module _ {b : Repository} (wl : WaitingList b) (t : Readings) (id : String) (msg : Message)
    (ttl : ℕ) where
  abbrev pub result : Result InsertOutcome AnyError
  result = (store wl t id msg ttl).1

  -- Unless the store is full, `store` gives the message to all message waiters of the ID, in
  -- order, drops its ACK waiters first, and leaves nobody waiting for the ID, also if the message
  -- was not persisted; the waiters of the other IDs stay. If the store is full, no waiter is
  -- touched.
  pub store_notifies :
      ((store wl t id msg ttl).0.signals
        ≡ wl.signals
          ++ (if is_store_full result then [] else delivery msg (or_new (get id wl.waiters))))
      × ((j : String)
          → get j (store wl t id msg ttl).0.waiters ≡ (
              if is_store_full result
              then get j wl.waiters
              else ite (str_dec id j) none (get j wl.waiters)))
  unfolding store
  store_notifies = elim (Bool-cases (is_store_full inserted.1)) [
    | inl e ↦ rw e (sym (append-nil wl.signals), λ j. refl)
    | inr e ↦ rw e (notify_message-signals _ id msg, notify_message-get _ id msg)
  ]
    where
      inserted : b.State × Result InsertOutcome AnyError
      inserted =
          b.insert wl.repository t.created t.swept id msg.body msg.content_type
            (expiry t.called ttl)

  notify_message-waiters :
      (x : WaitingList b)
      → ((notify_message_waiters x id msg).waiters ≡ served id x.waiters)
        × ((notify_message_waiters x id msg).max_waiting_ids ≡ x.max_waiting_ids)
  unfolding notify_message_waiters Waiters.notify_message_waiters
  notify_message-waiters x = elim (Option-cases (get id x.waiters)) [
    | inl n ↦ rw (n, notify_message_waiters, served) (refl, refl)
    | inr (w, s) ↦ rw (s, notify_message_waiters, served) (refl, refl)
  ]

  pub store-waiters :
      is_store_full result ≡ false
      → ((store wl t id msg ttl).0.waiters ≡ served id wl.waiters)
        × ((store wl t id msg ttl).0.max_waiting_ids ≡ wl.max_waiting_ids)
  unfolding store
  store-waiters e = rw e (notify_message-waiters _)

  notify_message-repository :
      (x : WaitingList b) → (notify_message_waiters x id msg).repository ≡ x.repository
  unfolding notify_message_waiters
  notify_message-repository x = elim (Option-cases (get id x.waiters)) [
    | inl n ↦ rw (n, notify_message_waiters)
    | inr (w, s) ↦ rw (s, notify_message_waiters)
  ]

  -- `store` changes the repository as `insert` does.
  pub store-repository :
      (store wl t id msg ttl).0.repository
      ≡ (b.insert wl.repository t.created t.swept id msg.body msg.content_type
          (expiry t.called ttl)).0
  unfolding store
  store-repository =
      elim (Bool-cases (
        is_store_full
          (b.insert wl.repository t.created t.swept id msg.body msg.content_type
            (expiry t.called ttl)).1)) [ inl e ↦ rw e | inr e ↦ rw e (notify_message-repository _) ]

  module _ (c : Contract b) (valid : c.IsValid wl.repository) (accepted : result ≡ ok stored) where
    abbrev pub entry : StoredEntry
    entry = new_entry msg.body msg.content_type (expiry t.called ttl)

    pub store-find : c.find (store wl t id msg ttl).0.repository id ≡ some entry
    unfolding store
    store-find = rw store-repository (
        c.insert_stored wl.repository t.created t.swept id msg.body msg.content_type
          (expiry t.called ttl) valid accepted)

    -- A stored message is what the next consumer of the ID gets, at once and with its content type,
    -- as long as it has not expired and the repository can be read.
    pub store_get :
        (t' : Readings) (tx : ℕ) (e : Option StoredEntry)
        → t'.checked < expiry t.called ttl
        → (b.get (store wl t id msg ttl).0.repository id).1 ≡ ok e
        → ((get_or_subscribe (store wl t id msg ttl).0 t' id tx).1 ≡ ok (message msg))
          × ((get_or_subscribe (store wl t id msg ttl).0 t' id tx).0.signals
              ≡ (store wl t id msg ttl).0.signals)
    unfolding get_or_subscribe
    store_get t' tx e early read =
        rw (available_found t'.checked _ entry msg.body reads refl early) (refl, refl)
      where
        kept : c.IsValid (store wl t id msg ttl).0.repository
        kept = rw store-repository (c.insert-IsValid _ _ _ _ _ _ _ valid)

        reads : (b.get (store wl t id msg ttl).0.repository id).1 ≡ ok (some entry)
        reads = read ∙ ap ok (c.get-find _ id kept read ∙ store-find)
