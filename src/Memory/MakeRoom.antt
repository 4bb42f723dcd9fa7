-- ===== src/Memory/MakeRoom.antt =====
-- `make_room`: which entries it deletes, and when it finds no slot.
use http_relay.Base.{
  ℕ, String, ◌≡◌, ◌≤◌, ◌<◌, refl, Bool, true, false, List, [], ◌∷◌, Option, none, some, ltb, ltb→lt,
  ◌∙◌, arith, ◌⊎◌, inl, inr, str_dec, Option-cases, Bool-cases,
}
use http_relay.HashMap.{HashMap, IsDistinct, keys_where, remove_all, get, len}
use http_relay.HashMap.Laws.{
  get-remove, IsDistinct-remove_all, IsDistinct-remove, len-remove-lt, len-remove_all-lt, mem_key,
  mem_key-keys_where,
}
use http_relay.Memory.{Entry, delete_expired, oldest_acked, remove_oldest, make_room, has_expired}
use http_relay.Memory.Room.{get-delete_expired, oldest_acked-get, oldest_acked-none}

-- Whether a deletion to make room may take the entry.
abbrev pub IsSpent : ℕ → Entry → Type 0
IsSpent now e = (e.expires_at < now) ⊎ (e.acked ≡ true)

abbrev pub Outlives : ℕ → Option Entry → Option Entry → Type 0
Outlives now before after =
    (after ≡ before) ⊎ ((after ≡ none) × (e : Entry) × (before ≡ some e) × IsSpent now e)

pub delete_expired-IsDistinct :
    (now : ℕ) (m : HashMap Entry) → IsDistinct m → IsDistinct (delete_expired now m).0
unfolding delete_expired
delete_expired-IsDistinct now m d = IsDistinct-remove_all (keys_where (has_expired now) m) m d

delete_expired-Outlives :
    (now : ℕ) (j : String) (m : HashMap Entry)
    → IsDistinct m
    → Outlives now (get j m) (get j (delete_expired now m).0)
delete_expired-Outlives now j m d = elim (Option-cases (get j m)) [
  | inl n ↦ inl (ground (arith, get-delete_expired now j m d))
  | inr (e, s) ↦ elim (Bool-cases (ltb e.expires_at now)) [
    | inl past ↦ inr (ground (arith, get-delete_expired now j m d), e, s, inl (ground arith))
    | inr live ↦ inl (ground (arith, get-delete_expired now j m d))
  ]
]

remove_oldest-IsDistinct :
    (o : Option (String × Entry)) (m : HashMap Entry)
    → IsDistinct m
    → IsDistinct (remove_oldest o m)
remove_oldest-IsDistinct none m d = d
remove_oldest-IsDistinct (some (id, e)) m d = IsDistinct-remove id m d

remove_oldest-Outlives :
    (now : ℕ) (j : String) (m : HashMap Entry)
    → IsDistinct m
    → Outlives now (get j m) (get j (remove_oldest (oldest_acked m) m))
remove_oldest-Outlives now j m d = elim (Option-cases (oldest_acked m)) [
  | inl n ↦ rw n (inl refl)
  | inr ((id, e), s) ↦ rw s (elim (str_dec id j) [
    | yes p ↦ inr (
      ground (arith, get-remove id j m),
      e,
      ground (arith, oldest_acked-get m id e d s),
      inr (oldest_acked-get m id e d s).1,
    )
    | no p ↦ inl (ground (arith, get-remove id j m))
  ])
]

Outlives-trans :
    (now : ℕ) (x y z : Option Entry) → Outlives now x y → Outlives now y z → Outlives now x z
Outlives-trans now x y z (inl e) o = rw (← e) o
Outlives-trans now x y z (inr (n, e, s, sp)) (inl f) = inr (f ∙ n, e, s, sp)
Outlives-trans now x y z (inr (n, e, s, sp)) (inr (n', e', s', sp')) = inr (n', e, s, sp)

-- The three ways through `make_room`, for a property that each of its deletions keeps.
pub make_room_cases {ℓ} :
    (P : HashMap Entry × Bool → Type ℓ) (now max : ℕ) (m : HashMap Entry)
    → (len m < max → P (m, true))
    → (max ≤ len m → len (delete_expired now m).0 < max → P ((delete_expired now m).0, true))
    → (max ≤ len m
        → max ≤ len (delete_expired now m).0
        → let rest =
            remove_oldest (oldest_acked (delete_expired now m).0) (delete_expired now m).0 in
          P (rest, ltb (len rest) max))
    → P (make_room now max m)
unfolding make_room
make_room_cases P now max m roomy swept evicted = elim (Bool-cases (ltb (len m) max)) [
  | inl e ↦ rw e (roomy (ground arith))
  | inr e ↦ rw e (elim (Bool-cases (ltb (len (delete_expired now m).0) max)) [
    | inl f ↦ rw f (swept (ground arith) (ground arith))
    | inr f ↦ rw f (evicted (ground arith) (ground arith))
  ])
]

pub make_room-IsDistinct :
    (now max : ℕ) (m : HashMap Entry) → IsDistinct m → IsDistinct (make_room now max m).0
make_room-IsDistinct now max m d =
    make_room_cases (λ r. IsDistinct r.0) now max m (λ _. d)
      (λ _ _. delete_expired-IsDistinct now m d)
      (λ _ _. remove_oldest-IsDistinct _ _ (delete_expired-IsDistinct now m d))

-- Only entries past their time and acknowledged ones are deleted.
pub make_room-Outlives :
    (now max : ℕ) (j : String) (m : HashMap Entry)
    → IsDistinct m
    → Outlives now (get j m) (get j (make_room now max m).0)
make_room-Outlives now max j m d =
    make_room_cases (λ r. Outlives now (get j m) (get j r.0)) now max m (λ _. inl refl)
      (λ _ _. delete_expired-Outlives now j m d)
      λ _ _.
        Outlives-trans now _ _ _ (delete_expired-Outlives now j m d) (
          remove_oldest-Outlives now j (delete_expired now m).0 (delete_expired-IsDistinct now m d))

-- The slot that is reported is there.
pub make_room_free :
    (now max : ℕ) (m : HashMap Entry)
    → (make_room now max m).1 ≡ true
    → len (make_room now max m).0 < max
make_room_free now max m =
    make_room_cases (λ r. r.1 ≡ true → len r.0 < max) now max m (λ h _. h) (λ _ h _. h)
      (λ _ _ e. ltb→lt _ _ e)

-- A deletion that leaves the map as large as it was found nothing to delete.
delete_expired_none :
    (now : ℕ) (m : HashMap Entry) (ks : List String)
    → IsDistinct m
    → keys_where (has_expired now) m ≡ ks
    → len m ≤ len (remove_all ks m)
    → ks ≡ []
unfolding mem_key
delete_expired_none now m [] d e h = refl
delete_expired_none now m (k ∷ ks) d e h = elim (Option-cases (get k m)) [
  | inl n ↦ ground (arith, mem_key-keys_where (has_expired now) k m d)
  | inr (v, s) ↦ absurd (omega (arith, len-remove_all-lt k ks m s))
]

swept_nothing :
    (now : ℕ) (m : HashMap Entry)
    → IsDistinct m
    → len m ≤ len (delete_expired now m).0
    → ((delete_expired now m).0 ≡ m)
      × ((j : String) (e : Entry) → get j m ≡ some e → ¬ (e.expires_at < now))
unfolding delete_expired remove_all mem_key
swept_nothing now m d h =
    let e : keys_where (has_expired now) m ≡ [] = delete_expired_none now m _ d refl h in
    (rw e, λ j f g past. ground (arith, e, mem_key-keys_where (has_expired now) j m d))

-- A full map that is refused a slot is left as it was, and holds only entries that may not be deleted.
pub make_room_full :
    (now max : ℕ) (m : HashMap Entry)
    → IsDistinct m
    → len m ≤ max
    → (make_room now max m).1 ≡ false
    → ((make_room now max m).0 ≡ m)
      × ((j : String) (e : Entry) → get j m ≡ some e → ¬ IsSpent now e)
make_room_full now max m d b =
    make_room_cases
      (λ r.
        r.1 ≡ false → (r.0 ≡ m) × ((j : String) (e : Entry) → get j m ≡ some e → ¬ IsSpent now e))
      now max m (λ _ e. cc) (λ _ _ e. cc) (λ f g e. refused (oldest_acked m) refl f g e)
  where
    refused :
        (o : Option (String × Entry))
        → oldest_acked m ≡ o
        → max ≤ len m
        → max ≤ len (delete_expired now m).0
        → ltb
            (len (remove_oldest (oldest_acked (delete_expired now m).0) (delete_expired now m).0))
            max
          ≡ false
        → (remove_oldest (oldest_acked (delete_expired now m).0) (delete_expired now m).0 ≡ m)
          × ((j : String) (e : Entry) → get j m ≡ some e → ¬ IsSpent now e)
    refused none n f g e =
        let (same, live) = swept_nothing now m d (omega arith) in
        (
          rw (same, n),
          λ j x s. λ sp. elim sp [
            | inl past ↦ live j x s past
            | inr a ↦ cc (oldest_acked-none m j x n s)
          ],
        )
    refused (some (id, x)) n f g e =
        let (same, live) = swept_nothing now m d (omega arith) in
        let small = len-remove-lt id m (oldest_acked-get m id x d n).0 in
        ground (arith, rw (same, n) at e, small)

pub make_room_roomy :
    (now max : ℕ) (m : HashMap Entry) → len m < max → (make_room now max m).1 ≡ true
unfolding make_room
make_room_roomy now max m h = ground arith

keys_where_none :
    (now : ℕ) (m : HashMap Entry) (ks : List String)
    → IsDistinct m
    → keys_where (has_expired now) m ≡ ks
    → ((j : String) (e : Entry) → get j m ≡ some e → ¬ IsSpent now e)
    → ks ≡ []
unfolding mem_key
keys_where_none now m [] d e live = refl
keys_where_none now m (k ∷ ks) d e live = elim (Option-cases (get k m)) [
  | inl n ↦ ground (arith, mem_key-keys_where (has_expired now) k m d)
  | inr (v, s) ↦
      absurd (live k v s (inl (ground (arith, mem_key-keys_where (has_expired now) k m d))))
]

-- A full map with nothing to delete has no slot.
pub make_room_refuses :
    (now max : ℕ) (m : HashMap Entry)
    → IsDistinct m
    → max ≤ len m
    → ((j : String) (e : Entry) → get j m ≡ some e → ¬ IsSpent now e)
    → (make_room now max m).1 ≡ false
unfolding make_room delete_expired remove_all
make_room_refuses now max m d full live =
    let e : keys_where (has_expired now) m ≡ [] = keys_where_none now m _ d refl live in
    elim (Option-cases (oldest_acked m)) [
      | inl n ↦ ground (arith, e, n)
      | inr ((id, x), s) ↦
          absurd (live id x (oldest_acked-get m id x d s).0 (inr (oldest_acked-get m id x d s).1))
    ]
