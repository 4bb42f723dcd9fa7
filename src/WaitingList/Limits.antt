-- ===== src/WaitingList/Limits.antt =====
-- The limits on the waiter map, and the ways through `ensure_waiter_capacity` and `waiters_for`.
use http_relay.Base.{
  ℕ, String, ◌≡◌, ◌≤◌, ◌<◌, refl, Bool, not, ◌⊎◌, inl, inr, List, none, some, Result, ok, err,
  arith, Option-cases, Bool-cases, ltb, if◌then◌else◌,
}
use http_relay.HashMap.{HashMap, IsDistinct, get, insert, remove, remove_all, retain_mut, len}
use http_relay.HashMap.Laws.{
  IsDistinct-insert, IsDistinct-remove, IsDistinct-remove_all, IsDistinct-retain_mut,
  len-insert_new, insert-insert, len-insert_old, len-remove-le, len-remove_all-le,
  len-retain_mut-le,
}
use http_relay.HashMap.Values.{
  Each, Each-get, Each-insert, Each-remove, Each-remove_all, Each-retain_mut,
}
use http_relay.Waiters.{Waiters, is_empty, remove_closed_senders}
use http_relay.Waiters.Laws.{IsBounded, IsGood, new-IsBounded, remove_closed_senders-IsBounded}
use http_relay.Repository.{Repository}
use http_relay.WaitingList.State.{WaitingList, Readings, SubscribeError, put_back, or_new}
use http_relay.WaitingList.Capacity.{
  remove_closed_waiters, prune_due, ensure_waiter_capacity, give_out, waiters_for,
}

-- At most `max` IDs wait, none twice, each with at least one waiter and at most ten of each kind.
pub record IsLimited (max : ℕ) (m : HashMap Waiters) : Type 0 where
  pub distinct : IsDistinct m
  pub limited : len m ≤ max
  pub good : Each IsGood m

-- There is room for the ID: it waits already, or one more ID may wait.
abbrev pub HasRoom : ℕ → String → HashMap Waiters → Type 0
HasRoom max id m = ((w : Waiters) × (get id m ≡ some w)) ⊎ (len m < max)

module _ (max : ℕ) (id : String) (m : HashMap Waiters) (v : IsLimited max m) where
  pub remove-IsLimited : IsLimited max (remove id m)
  remove-IsLimited = record {
    distinct = IsDistinct-remove id m v.distinct;
    limited = omega (arith, len-remove-le id m, v.limited);
    good = Each-remove IsGood id m v.good;
  }

  insert-IsLimited : (w : Waiters) → HasRoom max id m → IsGood w → IsLimited max (insert id w m)
  insert-IsLimited w room g = record {
    distinct = IsDistinct-insert id w m v.distinct;
    limited = elim room [
      | inl (old, s) ↦ omega (arith, len-insert_old id w m s, v.limited)
      | inr small ↦ elim (Option-cases (get id m)) [
        | inl n ↦ omega (arith, len-insert_new id w m n)
        | inr (old, s) ↦ omega (arith, len-insert_old id w m s)
      ]
    ];
    good = Each-insert IsGood id w m g v.good;
  }

  -- A waiting ID whose waiters changed stays, or goes if none is left.
  pub put_back-IsLimited :
      (w old : Waiters) → get id m ≡ some old → IsBounded w → IsLimited max (put_back id w m)
  put_back-IsLimited w old s bounded = elim (Bool-cases (is_empty w)) [
    | inl e ↦ rw e remove-IsLimited
    | inr e ↦ rw e (insert-IsLimited w (inl (old, s)) (bounded, e))
  ]

  pub get-IsBounded : IsBounded (or_new (get id m))
  get-IsBounded = elim (Option-cases (get id m)) [
    | inl n ↦ rw n new-IsBounded
    | inr (w, s) ↦ rw s (Each-get IsGood id m v.good s).0
  ]

  -- The two writes of a subscription: the waiters given out, and the waiters with one more sender.
  pub subscribed-IsLimited :
      (w w' : Waiters) → HasRoom max id m → IsGood w' → IsLimited max (insert id w' (insert id w m))
  subscribed-IsLimited w w' room g = rw (insert-insert id w' w m) (insert-IsLimited w' room g)

module _ (max : ℕ) (m : HashMap Waiters) (v : IsLimited max m) where
  pub remove_all-IsLimited : (ids : List String) → IsLimited max (remove_all ids m)
  remove_all-IsLimited ids = record {
    distinct = IsDistinct-remove_all ids m v.distinct;
    limited = omega (arith, len-remove_all-le ids m, v.limited);
    good = Each-remove_all IsGood ids m v.good;
  }

  pub prune-IsLimited :
      (closed : ℕ → Bool)
      → IsLimited max (retain_mut (remove_closed_senders closed) (λ w. not (is_empty w)) m)
  prune-IsLimited closed = record {
    distinct =
        IsDistinct-retain_mut (remove_closed_senders closed) (λ w. not (is_empty w)) m v.distinct;
    limited = omega (
      arith,
      len-retain_mut-le (remove_closed_senders closed) (λ w. not (is_empty w)) m,
      v.limited,
    );
    good =
        Each-retain_mut IsGood (remove_closed_senders closed) (λ w. not (is_empty w)) m
          (λ w g kept. (remove_closed_senders-IsBounded closed w g.0, ground arith)) v.good;
  }

-- The waiters of the list are within its limit on waiting IDs.
abbrev pub IsWithin : {b : Repository} → WaitingList b → Type 0
IsWithin wl = IsLimited wl.max_waiting_ids wl.waiters

module _ {b : Repository} (wl : WaitingList b) (t : Readings) (id : String) where
  -- The list after the prune that `ensure_waiter_capacity` makes of a full map, if one is due.
  abbrev pub after_prune : WaitingList b
  after_prune =
      if prune_due wl t.asked
      then record (remove_closed_waiters wl t.closed_at_prune) {
        last_full_map_prune = some t.pruned;
      }
      else wl

  pub after_prune-IsWithin : IsWithin wl → IsWithin after_prune
  unfolding remove_closed_waiters
  after_prune-IsWithin v = elim (Bool-cases (prune_due wl t.asked)) [
    | inl e ↦ rw e (prune-IsLimited wl.max_waiting_ids wl.waiters v t.closed_at_prune)
    | inr e ↦ rw e v
  ]

  -- A prune does not touch the repository.
  pub after_prune-repository : after_prune.repository ≡ wl.repository
  unfolding remove_closed_waiters
  after_prune-repository = elim (Bool-cases (prune_due wl t.asked)) [ inl e ↦ rw e | inr e ↦ rw e ]

  -- The three ways through `ensure_waiter_capacity`.
  pub ensure_cases {ℓ} :
      (P : WaitingList b × Result (Unit {0}) SubscribeError → Type ℓ)
      → (HasRoom wl.max_waiting_ids id wl.waiters → P (wl, ok tt))
      → (HasRoom after_prune.max_waiting_ids id after_prune.waiters → P (after_prune, ok tt))
      → (get id wl.waiters ≡ none
          → after_prune.max_waiting_ids ≤ len after_prune.waiters
          → P (after_prune, err SubscribeError.waiter_limit_reached))
      → P (ensure_waiter_capacity wl t id)
  unfolding ensure_waiter_capacity
  ensure_cases P room pruned full = elim (Option-cases (get id wl.waiters)) [
    | inr (w, s) ↦ rw s (room (inl (w, s)))
    | inl n ↦ rw n (elim (Bool-cases (ltb (len wl.waiters) wl.max_waiting_ids)) [
      | inl e ↦ rw e (room (inr (ground arith)))
      | inr e ↦
          rw e (elim (Bool-cases (ltb (len after_prune.waiters) after_prune.max_waiting_ids)) [
            | inl f ↦ rw f (pruned (inr (ground arith)))
            | inr f ↦ rw f (full n (ground arith))
          ])
    ])
  ]

  -- The two ways through `waiters_for`, after an `ensure_waiter_capacity` that succeeds or fails.
  pub waiters_for_cases {ℓ} :
      (P : WaitingList b × Result Waiters SubscribeError → Type ℓ)
      → ((x : WaitingList b)
          → (x ≡ wl) ⊎ (x ≡ after_prune)
          → HasRoom x.max_waiting_ids id x.waiters
          → P (give_out id (x, ok tt)))
      → (get id wl.waiters ≡ none
          → after_prune.max_waiting_ids ≤ len after_prune.waiters
          → P (after_prune, err SubscribeError.waiter_limit_reached))
      → P (waiters_for wl t id)
  unfolding waiters_for
  waiters_for_cases P given full =
      ensure_cases (λ x. P (give_out id x)) (given wl (inl refl)) (given after_prune (inr refl))
        full
