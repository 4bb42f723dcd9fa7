-- ===== src/Persistence/Room.antt =====
-- Which rows `make_room` and `insert` delete, and what it means that there is no room.
use http_relay.Base.{
  ℕ, String, ◌+◌, ◌-◌, ◌≡◌, ◌<◌, ◌≤◌, refl, sym, ap, ◌∙◌, Bool, true, false, List, Option, none,
  some, Result, ok, AnyError, inl, inr, arith, length, ltb, if◌then◌else◌, Bool-cases, Option-cases,
}
use http_relay.HashMap.{get, len}
use http_relay.HashMap.Laws.{passes, mem_key}
use http_relay.Persistence.{Row, Database, try, delete_expired, give_up_acked, make_room}
use http_relay.Persistence.Laws.{
  Laws, IsGivenUp, Loses, is_before, context_cases, try_cases, result_cases,
}

Loses-map :
    (P Q : Row → Type 0) (before after : Option Row)
    → ((x : Row) → P x → Q x)
    → Loses P before after
    → Loses Q before after
Loses-map P Q before after f (inl e) = inl e
Loses-map P Q before after f (inr (n, x, s, p)) = inr (n, x, s, f x p)

Loses-trans : (P : Row → Type 0) (a b c : Option Row) → Loses P a b → Loses P b c → Loses P a c
Loses-trans P a b c h (inl e) = rw e h
Loses-trans P a b c (inl e) (inr (n, x, s, p)) = inr (n, x, sym e ∙ s, p)
Loses-trans P a b c (inr h) (inr (n, x, s, p)) = cc

module _ (db : Database) (laws : Laws db) (now : ℕ) where
  abbrev pub row : db.Connection → String → Option Row
  row c j = get j (laws.rows c)

  -- The rows that one connection has and the other lost were past their time or acknowledged.
  abbrev pub Spared : db.Connection → db.Connection → Type 0
  Spared c c' = (j : String) → Loses (IsGivenUp now) (row c j) (row c' j)

  pub same-Spared : (c c' : db.Connection) → laws.rows c' ≡ laws.rows c → Spared c c'
  same-Spared c c' e j = inl (ap (get j) e)

  pub Spared-trans : (a b c : db.Connection) → Spared a b → Spared b c → Spared a c
  Spared-trans a b c h k j = Loses-trans (IsGivenUp now) _ _ _ (h j) (k j)

  delete_before-Spared : (c : db.Connection) → Spared c (db.delete_before c now).0
  delete_before-Spared c j =
      Loses-map (λ x. x.expires_at < now) (IsGivenUp now) _ _ (λ x h. inl h)
        (laws.delete_before-Loses c now j)

  delete_acked-Spared : (c : db.Connection) (limit : ℕ) → Spared c (db.delete_acked c limit).0
  delete_acked-Spared c limit j =
      Loses-map (λ x. x.acked ≡ 1) (IsGivenUp now) _ _ (λ x h. inr h)
        (laws.delete_acked-Loses c limit j)

  pub delete_expired-Spared : (c : db.Connection) → Spared c (delete_expired db now c).0
  delete_expired-Spared c =
      try_cases (λ z. Spared c z.0) _ (db.prepare_delete c) _ (λ e q. prepared)
        (λ _ q.
          context_cases (λ z. Spared c z.0) _ (db.delete_before (db.prepare_delete c).0 now)
            (λ _ _. deleted) (λ _ _. deleted))
    where
      prepared : Spared c (db.prepare_delete c).0
      prepared = same-Spared c _ (laws.prepare-rows c)

      deleted : Spared c (db.delete_before (db.prepare_delete c).0 now).0
      deleted = Spared-trans _ _ _ prepared (delete_before-Spared (db.prepare_delete c).0)

  -- Nothing is left that may be deleted.
  abbrev pub IsCleared : db.Connection → Type 0
  IsCleared c = (j : String) (x : Row) → row c j ≡ some x → ¬ IsGivenUp now x

  -- What `make_room` does from a connection.
  abbrev pub Rooms : db.Connection → db.Connection × Result Bool AnyError → Type 0
  Rooms c z = Spared c z.0 × (z.1 ≡ ok false → IsCleared z.0)

  module _ (max : ℕ) where
    -- The end of `make_room`, when no row is past its time.
    give_up_acked-Rooms :
        (c : db.Connection) (count : ℕ)
        → count ≡ len (laws.rows c)
        → max ≤ count
        → ((j : String) (x : Row) → row c j ≡ some x → ¬ (x.expires_at < now))
        → Rooms c (give_up_acked db max count c)
    give_up_acked-Rooms c count q full unexpired =
        try_cases (Rooms c) _ (db.delete_acked c (count + 1 - max)) _
          (λ e _. (delete_acked-Spared c _, λ h. cc))
          (λ n done. (delete_acked-Spared c _, λ h j x s. elim-given n done (few n done h) j x s))
      where
        few :
            (n : ℕ)
            → (db.delete_acked c (count + 1 - max)).1 ≡ ok n
            → ◌≡◌ {A = Result Bool AnyError} (ok (ltb (count - n) max)) (ok false)
            → n < count + 1 - max
        few n done h = ground (arith, laws.delete_acked-len c (count + 1 - max) done)

        kept_before :
            (j : String) (x : Row)
            → row (db.delete_acked c (count + 1 - max)).0 j ≡ some x
            → row c j ≡ some x
        kept_before j x s = elim (laws.delete_acked-Loses c (count + 1 - max) j) [
          | inl e ↦ sym e ∙ s
          | inr (gone, y, t, p) ↦ cc
        ]

        elim-given :
            (n : ℕ)
            → (db.delete_acked c (count + 1 - max)).1 ≡ ok n
            → n < count + 1 - max
            → IsCleared (db.delete_acked c (count + 1 - max)).0
        elim-given n done less j x s (inl past) = unexpired j x (kept_before j x s) past
        elim-given n done less j x s (inr acked) =
            laws.delete_acked-all c (count + 1 - max) j x done less s acked

  -- The rows that `delete_expired` leaves, their number, and the deleted IDs.
  abbrev pub Expires : db.Connection → db.Connection → List String → Type 0
  Expires c c' ids =
      ((j : String) → row c' j ≡ (if passes (is_before now) (row c j) then none else row c j))
      × ((j : String) → mem_key j ids ≡ passes (is_before now) (row c j))
      × (length ids + len (laws.rows c') ≡ len (laws.rows c))

  pub delete_expired-ok :
      (c : db.Connection) (ids : List String)
      → (delete_expired db now c).1 ≡ ok ids
      → Expires c (delete_expired db now c).0 ids
  delete_expired-ok c ids =
      try_cases (λ z. z.1 ≡ ok ids → Expires c z.0 ids) _ (db.prepare_delete c) _ (λ e q h. cc)
        (λ _ q.
          context_cases (λ z. z.1 ≡ ok ids → Expires c z.0 ids) _
            (db.delete_before (db.prepare_delete c).0 now) (λ _ _ h. cc)
            (λ found done h. deleted (done ∙ cc h)))
    where
      deleted :
          (db.delete_before (db.prepare_delete c).0 now).1 ≡ ok ids
          → Expires c (db.delete_before (db.prepare_delete c).0 now).0 ids
      deleted done = (
        λ j.
            laws.delete_before-get _ now j done
            ∙ ap (λ m. if passes (is_before now) (get j m) then none else get j m)
                (laws.prepare-rows c),
        λ j.
            laws.delete_before-ids _ now j done
            ∙ ap (λ m. passes (is_before now) (get j m)) (laws.prepare-rows c),
        laws.delete_before-len _ now done ∙ ap len (laws.prepare-rows c),
      )

  module _ (max : ℕ) where
    abbrev after_count : db.Connection → ℕ → db.Connection × Result Bool AnyError
    after_count c count =
        if ltb count max
        then (c, ok true)
        else (try (delete_expired db now c) (λ c' expired_ids.
            let count' = count - length expired_ids in
            if ltb count' max then (c', ok true) else give_up_acked db max count' c'))

    unexpired :
        (c c' : db.Connection) (ids : List String)
        → Expires c c' ids
        → (j : String) (x : Row) → row c' j ≡ some x
        → ¬ (x.expires_at < now)
    unexpired c c' ids (gone, _, _) j x s past = elim (Option-cases (row c j)) [
      | inl n ↦ ground (arith, gone j, n)
      | inr (y, t) ↦ ground (arith, gone j, t)
    ]

    Rooms-after :
        (a c : db.Connection) (z : db.Connection × Result Bool AnyError)
        → Spared a c
        → Rooms c z
        → Rooms a z
    Rooms-after a c z h (k, cleared) = (Spared-trans a c z.0 h k, cleared)

    after_count-Rooms :
        (c : db.Connection) (count : ℕ) → count ≡ len (laws.rows c) → Rooms c (after_count c count)
    after_count-Rooms c count q = elim (Bool-cases (ltb count max)) [
      | inl e ↦ rw e (same-Spared c c refl, λ h. cc)
      | inr e ↦ rw e (
          result_cases (Rooms c) (delete_expired db now c) _
            (λ x _. (delete_expired-Spared c, λ h. cc))
            (λ ids done.
              Rooms-after c _ _ (delete_expired-Spared c)
                (left ids (delete_expired-ok c ids done))))
    ]
      where
        left :
            (ids : List String)
            → Expires c (delete_expired db now c).0 ids
            → Rooms (delete_expired db now c).0 (
                if ltb (count - length ids) max
                then ((delete_expired db now c).0, ok true)
                else give_up_acked db max (count - length ids) (delete_expired db now c).0)
        left ids x = elim (Bool-cases (ltb (count - length ids) max)) [
          | inl e ↦ rw e (same-Spared _ _ refl, λ h. cc)
          | inr e ↦ rw e (
              give_up_acked-Rooms max _ (count - length ids) (omega (arith, x.2, q)) (ground arith)
                (unexpired c _ ids x))
        ]

    -- `make_room` deletes only what it may, and refuses only when nothing more may be deleted.
    pub make_room-Rooms : (c : db.Connection) → Rooms c (make_room db now max c)
    unfolding make_room
    make_room-Rooms c =
        try_cases (Rooms c) _ (db.count_all c) _ (λ e _. (counted, λ h. cc))
          (λ count q.
            Rooms-after c _ _ counted
              (after_count-Rooms _ count (laws.count-ok c q ∙ ap len (sym (laws.count-rows c)))))
      where
        counted : Spared c (db.count_all c).0
        counted = same-Spared c _ (laws.count-rows c)
