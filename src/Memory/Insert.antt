-- ===== src/Memory/Insert.antt =====
-- `insert`: the capacity, what it stores, what it deletes, and when it refuses.
use http_relay.Base.{
  ℕ, String, ◌≡◌, ◌≢◌, ◌≤◌, refl, true, false, Option, none, some, arith, ◌⊎◌, inl, inr,
  Option-cases, Bool-cases, ok, ◌↔◌, dec_lt, ◌∙◌, Result, AnyError,
}
use http_relay.Types.{Bytes, InsertOutcome, stored, store_full}
use http_relay.HashMap.{HashMap, IsDistinct, get, len}
use http_relay.HashMap
use http_relay.HashMap.Laws.{
  get-insert_self, get-insert_ne, IsDistinct-insert, len-insert_new, len-insert_old,
}
use http_relay.Memory.{Entry, EntryRepository, make_room, insert, fresh}
use http_relay.Memory.MakeRoom.{
  IsSpent, Outlives, make_room-IsDistinct, make_room-Outlives, make_room_free, make_room_full,
  make_room_roomy, make_room_refuses,
}

-- No ID occurs twice, and there are at most `max_entries` entries.
pub record IsValid (r : EntryRepository) : Type 0 where
  pub distinct : IsDistinct r.entries
  pub bounded : len r.entries ≤ r.max_entries

module _ (r : EntryRepository) (created now : ℕ) (id : String) (body : Bytes) (ct : Option String)
    (exp : ℕ) where
  abbrev pub written : HashMap Entry → EntryRepository
  written m = record r { entries = HashMap.insert id (fresh body ct exp created) m }

  -- The three ways through `insert`.
  pub insert_cases {ℓ} :
      (P : EntryRepository × Result InsertOutcome AnyError → Type ℓ)
      → ((e : Entry) → get id r.entries ≡ some e → P (written r.entries, ok stored))
      → (get id r.entries ≡ none
          → (make_room now r.max_entries r.entries).1 ≡ true
          → P (written (make_room now r.max_entries r.entries).0, ok stored))
      → (get id r.entries ≡ none
          → (make_room now r.max_entries r.entries).1 ≡ false
          → P (record r { entries = (make_room now r.max_entries r.entries).0 }, ok store_full))
      → P (insert r created now id body ct exp)
  unfolding insert
  insert_cases P old roomy full = elim (Option-cases (get id r.entries)) [
    | inr (e, s) ↦ rw s (old e s)
    | inl n ↦ rw n (elim (Bool-cases (make_room now r.max_entries r.entries).1) [
      | inl t ↦ rw t (roomy n t)
      | inr f ↦ rw f (full n f)
    ])
  ]

  pub insert-IsValid : IsValid r → IsValid (insert r created now id body ct exp).0
  insert-IsValid v =
      insert_cases (λ x. IsValid x.0)
        (λ e s. record {
          distinct = IsDistinct-insert id _ r.entries v.distinct;
          bounded =
              omega (arith, len-insert_old id (fresh body ct exp created) r.entries s, v.bounded);
        })
        (λ n t. record {
          distinct = IsDistinct-insert id _ _ (make_room-IsDistinct now _ _ v.distinct);
          bounded = room_left n t;
        })
        (λ n f. rw (make_room_full now r.max_entries r.entries v.distinct v.bounded f).0 v)
    where
      absent : get id r.entries ≡ none → get id (make_room now r.max_entries r.entries).0 ≡ none
      absent n = elim (make_room-Outlives now r.max_entries id r.entries v.distinct) [
        | inl e ↦ e ∙ n
        | inr (m, e, s, sp) ↦ m
      ]

      room_left :
          get id r.entries ≡ none
          → (make_room now r.max_entries r.entries).1 ≡ true
          → len (
              HashMap.insert id
                (fresh body ct exp created)
                (make_room now r.max_entries r.entries).0)
            ≤ r.max_entries
      room_left n t = omega (
        arith,
        len-insert_new id (fresh body ct exp created) (make_room now r.max_entries r.entries).0
            (absent n),
        make_room_free now r.max_entries r.entries t,
      )

  pub max_entries-insert : (insert r created now id body ct exp).0.max_entries ≡ r.max_entries
  max_entries-insert =
      insert_cases (λ x. x.0.max_entries ≡ r.max_entries) (λ _ _. refl) (λ _ _. refl) (λ _ _. refl)

  -- A message that is accepted is found under its ID, unacknowledged.
  pub insert_stored :
      (insert r created now id body ct exp).1 ≡ ok stored
      → get id (insert r created now id body ct exp).0.entries ≡ some (fresh body ct exp created)
  insert_stored =
      insert_cases (λ x. x.1 ≡ ok stored → get id x.0.entries ≡ some (fresh body ct exp created))
        (λ _ _ _. get-insert_self id _ _) (λ _ _ _. get-insert_self id _ _) (λ _ _ e. cc)

  -- In a valid store, an insert leaves every other entry as it was, unless that was past its time
  -- or acknowledged; the entry of its own ID too if the message was not stored.
  pub insert_other :
      (j : String)
      → IsValid r
      → (id ≢ j) ⊎ ((insert r created now id body ct exp).1 ≢ ok stored)
      → Outlives now (get j r.entries) (get j (insert r created now id body ct exp).0.entries)
  insert_other j v =
      insert_cases
        (λ x. (id ≢ j) ⊎ (x.1 ≢ ok stored) → Outlives now (get j r.entries) (get j x.0.entries))
        (λ e s h. inl (get-insert_ne _ r.entries (other h)))
        (λ n t h.
          rw
            (get-insert_ne (fresh body ct exp created) (make_room now r.max_entries r.entries).0
              (other h))
            (make_room-Outlives now r.max_entries j r.entries v.distinct))
        (λ n f h. make_room-Outlives now r.max_entries j r.entries v.distinct)
    where
      other : (id ≢ j) ⊎ (◌≢◌ {A = Result InsertOutcome AnyError} (ok stored) (ok stored)) → id ≢ j
      other (inl h) = h
      other (inr h) = absurd (h refl)

  refused :
      IsValid r
      → (insert r created now id body ct exp).1 ≡ ok store_full
      → (get id r.entries ≡ none)
        × (r.max_entries ≤ len r.entries)
        × ((j : String) (e : Entry) → get j r.entries ≡ some e → ¬ IsSpent now e)
  refused v =
      insert_cases
        (λ x.
          x.1 ≡ ok store_full
          → (get id r.entries ≡ none)
            × (r.max_entries ≤ len r.entries)
            × ((j : String) (e : Entry) → get j r.entries ≡ some e → ¬ IsSpent now e))
        (λ _ _ e. cc) (λ _ _ e. cc)
        λ n f _. (
          n,
          elim (dec_lt (len r.entries) r.max_entries) [
            | yes h ↦ cc (make_room_roomy now r.max_entries r.entries h)
            | no h ↦ omega arith
          ],
          (make_room_full now r.max_entries r.entries v.distinct v.bounded f).1,
        )

  refusal :
      IsValid r
      → (get id r.entries ≡ none)
        × (r.max_entries ≤ len r.entries)
        × ((j : String) (e : Entry) → get j r.entries ≡ some e → ¬ IsSpent now e)
      → (insert r created now id body ct exp).1 ≡ ok store_full
  refusal v (n, full, live) =
      insert_cases (λ x. x.1 ≡ ok store_full) (λ e s. cc)
        (λ _ t. cc (make_room_refuses now r.max_entries r.entries v.distinct full live))
        (λ _ _. refl)

  -- A message that a valid store refuses leaves the store as it was.
  pub insert_full_same :
      IsValid r
      → (insert r created now id body ct exp).1 ≡ ok store_full
      → (insert r created now id body ct exp).0 ≡ r
  insert_full_same v =
      insert_cases (λ x. x.1 ≡ ok store_full → x.0 ≡ r) (λ _ _ e. cc) (λ _ _ e. cc)
        λ n f _. rw (make_room_full now r.max_entries r.entries v.distinct v.bounded f).0

  -- A message for an ID that has an entry is always stored: it is then the entry of its ID,
  -- unacknowledged. No other entry is touched, and no entry is added or deleted, also if the store
  -- holds more than it may.
  pub insert_replaces :
      (old : Entry) (j : String)
      → get id r.entries ≡ some old
      → id ≢ j
      → ((insert r created now id body ct exp).1 ≡ ok stored)
        × (get id (insert r created now id body ct exp).0.entries
            ≡ some (fresh body ct exp created))
        × (get j (insert r created now id body ct exp).0.entries ≡ get j r.entries)
        × (len (insert r created now id body ct exp).0.entries ≡ len r.entries)
  insert_replaces old j s ne =
      insert_cases
        (λ x.
          (x.1 ≡ ok stored)
          × (get id x.0.entries ≡ some (fresh body ct exp created))
          × (get j x.0.entries ≡ get j r.entries)
          × (len x.0.entries ≡ len r.entries))
        (λ _ q. (
          refl,
          get-insert_self id _ r.entries,
          get-insert_ne _ r.entries ne,
          len-insert_old id (fresh body ct exp created) r.entries q,
        ))
        (λ n _. cc) (λ n _. cc)

  -- A valid store refuses a message exactly when its ID is new, the store is full, and no entry is
  -- past its time or acknowledged.
  pub insert_full_iff :
      IsValid r
      → ((insert r created now id body ct exp).1 ≡ ok store_full) ↔ (
          (get id r.entries ≡ none)
          × (r.max_entries ≤ len r.entries)
          × ((j : String) (e : Entry) → get j r.entries ≡ some e → ¬ IsSpent now e))
  insert_full_iff v = (refused v, refusal v)
