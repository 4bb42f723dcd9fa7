-- ===== src/WaitingList/Ack.antt =====
-- What `ack` does, and what `is_acked` tells afterwards.
use mathlib.Core.List.{append-nil}
use http_relay.Base.{
  ℕ, String, ◌≡◌, ◌<◌, refl, sym, ap, ◌∙◌, Bool, true, false, inl, inr, ◌++◌, map, Option, none,
  some, Result, ok, err, AnyError, Option-cases, Bool-cases, if◌then◌else◌, arith, str_dec, if_pos,
  if_neg, ◌≢◌, ◌⊎◌,
}
use http_relay.Types.{StoredEntry}
use http_relay.HashMap.{HashMap, get}
use http_relay.HashMap.Laws.{get-remove, get-insert_ne}
use http_relay.Waiters.{Waiters, Signal, acknowledged}
use http_relay.Waiters
use http_relay.Repository.{Repository, Contract, IsReliable, mark_acked}
use http_relay.WaitingList.State.{WaitingList, Readings, unexpired, or_new, put_back}
use http_relay.WaitingList.Methods.{ack, ack_persisted, is_acked, notify_ack_waiters}

put_back-get_ne :
    (id j : String) (w : Waiters) (m : HashMap Waiters) → id ≢ j → get j (put_back id w m) ≡ get j m
put_back-get_ne id j w m ne = elim (Bool-cases (Waiters.is_empty w)) [
  | inl e ↦ rw e (get-remove id j m ∙ if_neg (str_dec id j) ne _ _)
  | inr e ↦ rw e (get-insert_ne w m ne)
]

module _ {b : Repository} (wl : WaitingList b) (id : String) where
  notify_ack-signals :
      (notify_ack_waiters wl id).signals
      ≡ wl.signals ++ map acknowledged (or_new (get id wl.waiters)).ack_waiters
  unfolding notify_ack_waiters Waiters.notify_ack_waiters
  notify_ack-signals = elim (Option-cases (get id wl.waiters)) [
    | inl n ↦ rw (n, notify_ack_waiters) (sym (append-nil wl.signals))
    | inr (w, s) ↦ rw (s, notify_ack_waiters) refl
  ]

  pub notify_ack-repository : (notify_ack_waiters wl id).repository ≡ wl.repository
  unfolding notify_ack_waiters
  notify_ack-repository = elim (Option-cases (get id wl.waiters)) [
    | inl n ↦ rw (n, notify_ack_waiters)
    | inr (w, s) ↦ rw (s, notify_ack_waiters)
  ]

  notify_ack-get_ne :
      (j : String) → id ≢ j → get j (notify_ack_waiters wl id).waiters ≡ get j wl.waiters
  unfolding notify_ack_waiters
  notify_ack-get_ne j ne = elim (Option-cases (get id wl.waiters)) [
    | inl n ↦ rw (n, notify_ack_waiters)
    | inr (w, s) ↦ rw (s, notify_ack_waiters) (put_back-get_ne id j _ wl.waiters ne)
  ]

-- What is read and within its time is in the repository.
pub unexpired-eq-some :
    (now : ℕ) (got : Result (Option StoredEntry) AnyError) (e : StoredEntry)
    → unexpired now got ≡ some e
    → (got ≡ ok (some e)) × (now < e.expires_at)
unexpired-eq-some now (err x) e h = cc
unexpired-eq-some now (ok none) e h = cc
unexpired-eq-some now (ok (some x)) e h = ground arith

module _ {b : Repository} (c : Contract b) (wl : WaitingList b) (t : Readings) (id : String)
    (valid : c.IsValid wl.repository) where
  abbrev read : WaitingList b
  read = record wl { repository = (b.get wl.repository id).0 }

  abbrev found : Option StoredEntry
  found = unexpired t.checked (b.get wl.repository id).1

  read-IsValid : c.IsValid read.repository
  read-IsValid = c.get-IsValid wl.repository id valid

  -- The three ways through `ack`.
  pub ack_cases {ℓ} :
      (P : WaitingList b × Bool → Type ℓ)
      → (found ≡ none → P (read, false))
      → ((e : StoredEntry) → found ≡ some e → e.acked ≡ true → P (read, true))
      → ((e : StoredEntry)
          → found ≡ some e
          → e.acked ≡ false
          → P (
              ack_persisted id
                (record read { repository = (b.ack read.repository id).0 })
                (b.ack read.repository id).1))
      → P (ack wl t id)
  unfolding ack
  ack_cases P missing old new = elim (Option-cases found) [
    | inl n ↦ rw n (missing n)
    | inr (e, s) ↦
        rw s (elim (Bool-cases e.acked) [ inl a ↦ rw a (old e s a) | inr a ↦ rw a (new e s a) ])
  ]

  acked_view : (e : StoredEntry) → found ≡ some e → c.find wl.repository id ≡ some e
  acked_view e s = sym (c.get-find wl.repository id valid (unexpired-eq-some t.checked _ e s).0)

  -- An entry that was acknowledged before leaves all as it was, but for the reading. Another leaves
  -- the other IDs as they were.
  abbrev pub Leaves : StoredEntry → WaitingList b → Type 0
  Leaves e s =
      ((e.acked ≡ true)
        × (s ≡ record wl { repository = (b.get wl.repository id).0 })
        × ((j : String) → c.find s.repository j ≡ c.find wl.repository j))
      ⊎ ((e.acked ≡ false)
          × ((j : String)
              → (id ≡ j)
                ⊎ ((c.find s.repository j ≡ c.find wl.repository j)
                    × (get j s.waiters ≡ get j wl.waiters))))

  -- What a successful `ack` that found the entry `e` leaves behind.
  abbrev pub Acknowledges : StoredEntry → WaitingList b × Bool → Type 0
  Acknowledges e x =
      (c.find wl.repository id ≡ some e)
      × (t.checked < e.expires_at)
      × (c.find x.0.repository id ≡ (if e.acked then some e else mark_acked (some e)))
      × (x.0.signals ≡ (
          if e.acked
          then wl.signals
          else wl.signals ++ map acknowledged (or_new (get id wl.waiters)).ack_waiters))
      × Leaves e x.0

  persisted_true :
      (e : StoredEntry)
      → found ≡ some e
      → e.acked ≡ false
      → (r : Result Bool AnyError) → (b.ack read.repository id).1 ≡ r
      → (ack_persisted id (record read { repository = (b.ack read.repository id).0 }) r).1 ≡ true
      → (e' : StoredEntry) × Acknowledges e'
          (ack_persisted id (record read { repository = (b.ack read.repository id).0 }) r)
  persisted_true e s a (err x) q h = cc
  persisted_true e s a (ok done) q h =
      let marked : c.find (b.ack read.repository id).0 id ≡ mark_acked (some e) =
        c.find-ack read.repository id id read-IsValid q
        ∙ if_pos (str_dec id id) refl _ _
        ∙ ap mark_acked (c.find-get wl.repository id id valid ∙ acked_view e s) in
      let after : WaitingList b = record read { repository = (b.ack read.repository id).0 } in
      let others : (j : String)
          → (id ≡ j)
            ⊎ ((c.find (notify_ack_waiters after id).repository j ≡ c.find wl.repository j)
                × (get j (notify_ack_waiters after id).waiters ≡ get j wl.waiters)) =
        λ j. elim (str_dec id j) [
          | yes e ↦ inl e
          | no n ↦ inr (
            rw (notify_ack-repository after id) (
                c.find-ack read.repository id j read-IsValid q
                ∙ if_neg (str_dec id j) n _ _
                ∙ c.find-get wl.repository id j valid),
            notify_ack-get_ne after id j n,
          )
        ] in
      (
        e,
        (
          acked_view e s,
          (unexpired-eq-some t.checked _ e s).1,
          rw (notify_ack-repository after id) (marked ∙ ground (arith, a)),
          notify_ack-signals after id ∙ ground (arith, a),
          inr (a, others),
        ),
      )

  -- Where `ack` answers false on a valid repository, no waiter is told and every entry is as
  -- before.
  pub ack_false :
      (ack wl t id).1 ≡ false
      → ((ack wl t id).0.signals ≡ wl.signals)
        × ((j : String) → c.find (ack wl t id).0.repository j ≡ c.find wl.repository j)
  ack_false =
      ack_cases
        (λ x.
          x.1 ≡ false
          → (x.0.signals ≡ wl.signals)
            × ((j : String) → c.find x.0.repository j ≡ c.find wl.repository j))
        (λ n _. (refl, λ j. c.find-get wl.repository id j valid)) (λ e s a h. cc)
        (λ e s a. persisted_false (b.ack read.repository id).1 refl)
    where
      persisted_false :
          (r : Result Bool AnyError)
          → (b.ack read.repository id).1 ≡ r
          → let x =
              ack_persisted id (record read { repository = (b.ack read.repository id).0 }) r in
            x.1 ≡ false
            → (x.0.signals ≡ wl.signals)
              × ((j : String) → c.find x.0.repository j ≡ c.find wl.repository j)
      persisted_false (ok done) q h = cc
      persisted_false (err x) q h = (
        refl,
        λ j.
            c.find-ack_failed read.repository id j read-IsValid q
            ∙ c.find-get wl.repository id j valid,
      )

  -- Where `ack` answers true on a valid repository, there was an entry within its time. If it was
  -- acknowledged before, the repository was read, every entry is as before, and nothing else
  -- changes. Otherwise it is now acknowledged and without its body, those who wait for its ACK are
  -- told, and nobody else, and the entries and the waiters of the other IDs are as before.
  pub ack_true : (ack wl t id).1 ≡ true → (e : StoredEntry) × Acknowledges e (ack wl t id)
  ack_true =
      ack_cases (λ x. x.1 ≡ true → (e : StoredEntry) × Acknowledges e x) (λ n h. cc)
        (λ e s a _. (
          e,
          (
            acked_view e s,
            (unexpired-eq-some t.checked _ e s).1,
            ground (arith, a, c.find-get wl.repository id id valid, acked_view e s),
            ground (arith, a),
            inl (a, refl, λ j. c.find-get wl.repository id j valid),
          ),
        ))
        (λ e s a. persisted_true e s a (b.ack read.repository id).1 refl)

  live_found :
      (e : StoredEntry)
      → IsReliable b
      → c.find wl.repository id ≡ some e
      → t.checked < e.expires_at
      → found ≡ some e
  live_found e rel held early =
      let (x, q) = rel.reads wl.repository id in
      ground (arith, q, c.get-find wl.repository id valid q, held)

  -- `ack` touches the entry of its own ID only.
  pub ack-find_ne :
      (k : String) → id ≢ k → c.find (ack wl t id).0.repository k ≡ c.find wl.repository k
  ack-find_ne k ne =
      ack_cases (λ x. c.find x.0.repository k ≡ c.find wl.repository k) (λ n. kept) (λ e s a. kept)
        (λ e s a. persisted (b.ack read.repository id).1 refl)
    where
      kept : c.find read.repository k ≡ c.find wl.repository k
      kept = c.find-get wl.repository id k valid

      persisted :
          (r : Result Bool AnyError)
          → (b.ack read.repository id).1 ≡ r
          → c.find
              (ack_persisted id
                (record read { repository = (b.ack read.repository id).0 })
                r).0.repository
              k
            ≡ c.find wl.repository k
      persisted (ok done) q =
          rw (notify_ack-repository (record read { repository = (b.ack read.repository id).0 }) id)
            (c.find-ack read.repository id k read-IsValid q ∙ if_neg (str_dec id k) ne _ _ ∙ kept)
      persisted (err x) q = c.find-ack_failed read.repository id k read-IsValid q ∙ kept

  -- With a repository that never fails, `ack` succeeds on every entry within its time.
  pub ack_live :
      (e : StoredEntry)
      → IsReliable b
      → c.find wl.repository id ≡ some e
      → t.checked < e.expires_at
      → (ack wl t id).1 ≡ true
  ack_live e rel held early =
      ack_cases (λ x. x.1 ≡ true) (λ n. cc (live_found e rel held early)) (λ _ _ _. refl)
        (λ _ _ _. succeeded (b.ack read.repository id).1 (rel.writes read.repository id))
    where
      succeeded :
          (r : Result Bool AnyError)
          → (done : Bool) × (r ≡ ok done)
          → (ack_persisted id (record read { repository = (b.ack read.repository id).0 }) r).1
            ≡ true
      succeeded (ok x) q = refl
      succeeded (err x) (done, q) = cc

  -- With a repository that never fails, `is_acked` tells of every entry within its time.
  pub is_acked_live :
      (e : StoredEntry)
      → IsReliable b
      → c.find wl.repository id ≡ some e
      → t.checked < e.expires_at
      → (is_acked wl t id).1 ≡ some e.acked
  unfolding is_acked
  is_acked_live e rel held early = rw (live_found e rel held early, is_acked) refl
