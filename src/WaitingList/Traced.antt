-- ===== src/WaitingList/Traced.antt =====
-- Where the contents of a waiting list come from: for each ID, who asked for its message, who asked
-- for its ACK, what was posted to it, and whether it was acknowledged.
pub mod Subscribe
pub mod Store
pub mod Answers
pub mod History
pub mod Channels
use http_relay.Base.{
  ℕ, String, ◌≡◌, ◌++◌, refl, sym, subst, Bool, true, false, not, inl, inr, List, [], ◌∷◌, Option,
  none, some, All, All-append, All-retain, All-map, Option-cases, Bool-cases, retain, map,
  if◌then◌else◌,
}
use http_relay.Types.{Bytes, Message, StoredEntry}
use http_relay.HashMap.{HashMap, get, insert, remove, remove_all}
use http_relay.HashMap.Keyed.{
  Keyed, Keyed-get, Keyed-insert, Keyed-remove, Keyed-remove_all, Keyed-retain_mut,
}
use http_relay.Waiters.{
  Waiters, Signal, delivered, acknowledged, dropped, remove_closed_senders, closed_senders,
  drop_all, drops, closed_drops, open_senders, is_empty, add_ack_waiter, add_message_waiter,
}
use http_relay.Waiters
use http_relay.Repository.{Repository, Contract, Outlives}
use http_relay.WaitingList.State.{
  WaitingList, Readings, put_back, or_new, pruned_signals, removed_signals,
}
use http_relay.WaitingList.Capacity.{remove_closed_waiters, prune_due}
use http_relay.WaitingList.Limits.{after_prune}

-- What is known to have happened: a channel was opened for the message or for the ACK of an ID, a
-- message was posted to it, and it was acknowledged.
pub record Facts : Type 1 where
  pub Asked : String → ℕ → Type 0
  pub Awaited : String → ℕ → Type 0
  pub Posted : String → Message → Type 0
  pub Acked : String → Type 0

module _ (f : Facts) where
  -- A signal has its cause.
  abbrev pub IsExplained : Signal → Type 0
  IsExplained (delivered tx msg) = (id : String) × f.Asked id tx × f.Posted id msg
  IsExplained (acknowledged tx) = (id : String) × f.Awaited id tx × f.Acked id
  IsExplained (dropped tx) = Unit

  abbrev pub IsNamed : String → Waiters → Type 0
  IsNamed id w = All (f.Awaited id) w.ack_waiters × All (f.Asked id) w.message_waiters

  abbrev pub IsGenuine : String → Option StoredEntry → Type 0
  IsGenuine id none = Unit
  IsGenuine id (some e) =
      (e.acked ≡ true → f.Acked id)
      × ((body : Bytes)
          → e.message_body ≡ some body
          → f.Posted id (record { body = body; content_type = e.content_type }))

  pub Outlives-IsGenuine :
      (now : ℕ) (id : String) (a z : Option StoredEntry)
      → Outlives now a z
      → IsGenuine id a
      → IsGenuine id z
  Outlives-IsGenuine now id a z (inl e) h = rw e h
  Outlives-IsGenuine now id a z (inr (n, x, s, spent)) h = rw n tt

  -- A dropped sender needs no cause.
  pub drops-IsExplained : (txs : List ℕ) → All IsExplained (drops txs)
  drops-IsExplained [] = tt
  drops-IsExplained (x ∷ txs) = (tt, drops-IsExplained txs)

  pub drop_all-IsExplained : (w : Waiters) → All IsExplained (drop_all w)
  unfolding drop_all
  drop_all-IsExplained w =
      All-append IsExplained (drops w.ack_waiters) _ (drops-IsExplained w.ack_waiters)
        (drops-IsExplained w.message_waiters)

  pruned-IsExplained :
      (closed : ℕ → Bool) (m : HashMap Waiters) → All IsExplained (pruned_signals closed m)
  unfolding pruned_signals closed_senders
  pruned-IsExplained closed [] = tt
  pruned-IsExplained closed ((id, w) ∷ m) =
      All-append IsExplained (closed_senders closed w) _
        (All-append IsExplained (closed_drops closed w.ack_waiters) _
          (drops-IsExplained (retain closed w.ack_waiters))
          (drops-IsExplained (retain closed w.message_waiters)))
        (pruned-IsExplained closed m)

  pub removed-IsExplained :
      (ids : List String) (m : HashMap Waiters) → All IsExplained (removed_signals ids m)
  unfolding removed_signals
  removed-IsExplained [] m = tt
  removed-IsExplained (id ∷ ids) m = elim (Option-cases (get id m)) [
    | inl n ↦ rw n (removed-IsExplained ids (remove id m))
    | inr (w, s) ↦ rw s (
        All-append IsExplained (drop_all w) _ (drop_all-IsExplained w)
          (removed-IsExplained ids (remove id m)))
  ]

  remove_closed-IsNamed :
      (closed : ℕ → Bool) (id : String) (w : Waiters)
      → IsNamed id w
      → IsNamed id (remove_closed_senders closed w)
  unfolding remove_closed_senders
  remove_closed-IsNamed closed id w (a, m) = (
    All-retain (f.Awaited id) (λ tx. not (closed tx)) w.ack_waiters a,
    All-retain (f.Asked id) (λ tx. not (closed tx)) w.message_waiters m,
  )

  pub or_new-IsNamed :
      (id : String) (m : HashMap Waiters) → Keyed IsNamed m → IsNamed id (or_new (get id m))
  or_new-IsNamed id m h = elim (Option-cases (get id m)) [
    | inl n ↦ rw n (tt, tt)
    | inr (w, s) ↦ rw s (Keyed-get IsNamed id m h s)
  ]

  pub put_back-IsNamed :
      (id : String) (w : Waiters) (m : HashMap Waiters)
      → IsNamed id w
      → Keyed IsNamed m
      → Keyed IsNamed (put_back id w m)
  put_back-IsNamed id w m n h = elim (Bool-cases (is_empty w)) [
    | inl e ↦ rw e (Keyed-remove IsNamed id m h)
    | inr e ↦ rw e (Keyed-insert IsNamed id w m n h)
  ]

  module _ {b : Repository} (c : Contract b) where
    -- Everything that the waiting list holds or did has its cause.
    pub record IsTraced (wl : WaitingList b) : Type 0 where
      pub valid : c.IsValid wl.repository
      pub named : Keyed IsNamed wl.waiters
      pub genuine : (id : String) → IsGenuine id (c.find wl.repository id)
      pub explained : All IsExplained wl.signals

    module _ (wl : WaitingList b) (v : IsTraced wl) where
      pub signals-IsTraced :
          (sigs : List Signal)
          → All IsExplained sigs
          → IsTraced (record wl { signals = wl.signals ++ sigs })
      signals-IsTraced sigs h = record {
        valid = v.valid;
        named = v.named;
        genuine = v.genuine;
        explained = All-append IsExplained wl.signals sigs v.explained h;
      }

      pub waiters-IsTraced :
          (m : HashMap Waiters) (sigs : List Signal)
          → Keyed IsNamed m
          → All IsExplained sigs
          → IsTraced (record wl { waiters = m; signals = wl.signals ++ sigs })
      waiters-IsTraced m sigs n h = record {
        valid = v.valid;
        named = n;
        genuine = v.genuine;
        explained = All-append IsExplained wl.signals sigs v.explained h;
      }

      pub repository-IsTraced :
          (r : b.State)
          → c.IsValid r
          → ((id : String) → IsGenuine id (c.find r id))
          → IsTraced (record wl { repository = r })
      repository-IsTraced r valid genuine = record {
        valid = valid;
        named = v.named;
        genuine = genuine;
        explained = v.explained;
      }

      pub read-IsTraced :
          (id : String) → IsTraced (record wl { repository = (b.get wl.repository id).0 })
      read-IsTraced id =
          repository-IsTraced _ (c.get-IsValid wl.repository id v.valid)
            (λ j. subst (IsGenuine j) (sym (c.find-get wl.repository id j v.valid)) (v.genuine j))

      pub remove_closed-IsTraced : (closed : ℕ → Bool) → IsTraced (remove_closed_waiters wl closed)
      unfolding remove_closed_waiters
      remove_closed-IsTraced closed =
          waiters-IsTraced _ _
            (Keyed-retain_mut IsNamed (remove_closed_senders closed) (λ w. not (is_empty w))
              wl.waiters (λ id w. remove_closed-IsNamed closed id w) v.named)
            (pruned-IsExplained closed wl.waiters)

      pub after_prune-IsTraced : (t : Readings) (id : String) → IsTraced (after_prune wl t id)
      after_prune-IsTraced t id = elim (Bool-cases (prune_due wl t.asked)) [
        | inl e ↦ rw e (record {
          valid = (remove_closed-IsTraced t.closed_at_prune).valid;
          named = (remove_closed-IsTraced t.closed_at_prune).named;
          genuine = (remove_closed-IsTraced t.closed_at_prune).genuine;
          explained = (remove_closed-IsTraced t.closed_at_prune).explained;
        })
        | inr e ↦ rw e v
      ]
