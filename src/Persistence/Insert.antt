-- ===== src/Persistence/Insert.antt =====
-- What `insert` does to the entries of a repository in SQLite.
use http_relay.Base.{
  ℕ, String, ◌≡◌, ◌≢◌, ◌≤◌, refl, ap, ◌∙◌, Bool, true, false, Option, none, some, Result, ok, err,
  AnyError, ◌⊎◌, inl, inr, arith, if◌then◌else◌, Result-cases, str_dec, if_pos, if_neg,
}
use http_relay.Types.{Bytes, StoredEntry, InsertOutcome, stored, store_full}
use http_relay.HashMap.{HashMap, get, is_some}
use http_relay.Repository.{Outlives, IsSpent}
use http_relay.Persistence.{
  Row, QueryError, no_rows, failure, Database, SqliteRepository, context, try, contains, make_room,
  write_row, insert_row, new_row, row_entry, selected, affected, back, delete_expired,
  sqlite_repository,
}
use http_relay.Persistence
use http_relay.Persistence.Laws.{Laws, IsGivenUp, Loses, try_cases, result_cases}
use http_relay.Persistence.Room.{row, Spared, IsCleared, make_room-Rooms, same-Spared, Spared-trans}

abbrev pub view : Option Row → Option StoredEntry
view none = none
view (some x) = some (row_entry x)

-- The column `acked` holds 0 or 1.
abbrev pub IsFlag : Option Row → Type 0
IsFlag none = Unit
IsFlag (some x) = x.acked ≤ 1

pub Loses-IsFlag : (P : Row → Type 0) (a b : Option Row) → Loses P a b → IsFlag a → IsFlag b
Loses-IsFlag P a b (inl e) h = rw e h
Loses-IsFlag P a b (inr (n, x, s, p)) h = rw n tt

pub Loses-Outlives :
    (now : ℕ) (a b : Option Row) → Loses (IsGivenUp now) a b → Outlives now (view a) (view b)
Loses-Outlives now a b (inl e) = inl (ap view e)
Loses-Outlives now a b (inr (n, x, s, inl past)) = inr (ap view n, row_entry x, ap view s, inl past)
Loses-Outlives now a b (inr (n, x, s, inr acked)) =
    inr (ap view n, row_entry x, ap view s, inr (ground (arith, acked)))

pub cleared-view :
    (now : ℕ) (a : Option Row) (e : StoredEntry)
    → IsFlag a
    → ((x : Row) → a ≡ some x → ¬ IsGivenUp now x)
    → view a ≡ some e
    → ¬ IsSpent now e
cleared-view now none e h clear q spent = cc
cleared-view now (some x) e h clear q (inl past) = clear x refl (inl (ground (arith, q, past)))
cleared-view now (some x) e h clear q (inr acked) = clear x refl (inr (ground (arith, q, acked, h)))

module _ (db : Database) (laws : Laws db) where
  module _ (now max : ℕ) (id : String) (x : Row) where
    -- What `insert` does to the rows, on each of its ways.
    abbrev pub Written : db.Connection → db.Connection × Result InsertOutcome AnyError → Type 0
    Written c z =
        ((j : String)
          → (id ≢ j) ⊎ (z.1 ≢ ok stored)
          → Loses (IsGivenUp now) (row db laws now c j) (row db laws now z.0 j))
        × (z.1 ≡ ok stored → row db laws now z.0 id ≡ some x)
        × (z.1 ≡ ok store_full → (row db laws now c id ≡ none) × IsCleared db laws now z.0)

    failed-Written :
        (c c' : db.Connection) (e : AnyError) → Spared db laws now c c' → Written c (c', err e)
    failed-Written c c' e h = (λ j _. h j, λ q. cc, λ q. cc)

    write_row-Written :
        (c c' : db.Connection) (room : Bool)
        → Spared db laws now c c'
        → (room ≡ false → (row db laws now c id ≡ none) × IsCleared db laws now c')
        → Written c (write_row db id x c' room)
    write_row-Written c c' false h full = (λ j _. h j, λ q. cc, λ q. full refl)
    write_row-Written c c' true h full =
        try_cases (Written c) _ (db.replace c' id x) _
          (λ e q. failed-Written c _ _ (
            Spared-trans db laws now c c' _ h
              (same-Spared db laws now c' _ (laws.replace-err c' id x q))))
          (λ _ q. (
            λ j other. replaced q j (apart other),
            λ _. laws.replace-get c' id id x q ∙ if_pos (str_dec id id) refl _ _,
            λ e. cc,
          ))
      where
        apart :
            {j : String}
            → (id ≢ j) ⊎ (◌≢◌ {A = Result InsertOutcome AnyError} (ok stored) (ok stored))
            → id ≢ j
        apart (inl n) = n
        apart (inr n) = absurd (n refl)

        replaced :
            (db.replace c' id x).1 ≡ ok tt
            → (j : String) → id ≢ j
            → Loses (IsGivenUp now) (row db laws now c j) (row db laws now (db.replace c' id x).0 j)
        replaced q j ne = rw (laws.replace-get c' id j x q ∙ if_neg (str_dec id j) ne _ _) (h j)

    insert_row-Written : (c : db.Connection) → Written c (insert_row db now max id x c)
    unfolding insert_row
    insert_row-Written c =
        try_cases (Written c) _ (db.exists_id c id) _ (λ e _. failed-Written c _ _ asked)
          (λ exists q. room exists (laws.exists-ok c id q))
      where
        asked : Spared db laws now c (db.exists_id c id).0
        asked = same-Spared db laws now c _ (laws.exists-rows c id)

        room :
            (exists : Bool)
            → exists ≡ is_some (get id (laws.rows c))
            → Written c (
                try
                  (if exists
                    then ((db.exists_id c id).0, ok true)
                    else make_room db now max (db.exists_id c id).0)
                  (write_row db id x))
        room true q = write_row-Written c _ true asked (λ e. cc)
        room false q =
            let (spared, cleared) = make_room-Rooms db laws now max (db.exists_id c id).0 in
            let kept = Spared-trans db laws now c _ _ asked spared in
            result_cases (Written c) (make_room db now max (db.exists_id c id).0) _
              (λ e _. failed-Written c _ _ kept)
              (λ free found.
                write_row-Written c _ free kept
                  (λ e. (ground (arith, q), cleared (found ∙ ap ok e))))

  abbrev pub table : SqliteRepository db → HashMap Row
  table r = laws.rows r.connection

  abbrev pub find : SqliteRepository db → String → Option StoredEntry
  find r j = view (get j (table r))

  abbrev pub IsValid : SqliteRepository db → Type 0
  IsValid r = (j : String) → IsFlag (get j (table r))

  pub insert-Written :
      (r : SqliteRepository db) (created now : ℕ) (id : String) (body : Bytes) (ct : Option String)
      (exp : ℕ)
      → let z = Persistence.insert db r created now id body ct exp in
        Written now r.max_entries id
          (new_row body ct exp created)
          r.connection
          (z.0.connection, z.1)
  unfolding Persistence.insert
  insert-Written r created now id body ct exp =
      insert_row-Written now r.max_entries id (new_row body ct exp created) r.connection

  pub insert-IsValid :
      (r : SqliteRepository db) (created now : ℕ) (id : String) (body : Bytes) (ct : Option String)
      (exp : ℕ)
      → IsValid r
      → IsValid (Persistence.insert db r created now id body ct exp).0
  insert-IsValid r created now id body ct exp v j =
      let (others, own, _) = insert-Written r created now id body ct exp in
      elim (Result-cases (Persistence.insert db r created now id body ct exp).1) [
        | inr (e, q) ↦ Loses-IsFlag (IsGivenUp now) _ _ (others j (inr (λ p. cc))) (v j)
        | inl (store_full, q) ↦ Loses-IsFlag (IsGivenUp now) _ _ (others j (inr (λ p. cc))) (v j)
        | inl (stored, q) ↦ elim (str_dec id j) [
          | no ne ↦ Loses-IsFlag (IsGivenUp now) _ _ (others j (inl ne)) (v j)
          | yes p ↦ rw (← p, own q) (omega arith)
        ]
      ]

  -- Where the table holds valid flags, the repository in SQLite refuses a message only when its ID
  -- is new and, after all deletions, every entry still holds an undelivered message within its
  -- time.
  pub sqlite_insert_full :
      (r : SqliteRepository db) (created now : ℕ) (id : String) (body : Bytes) (ct : Option String)
      (exp : ℕ)
      → IsValid r
      → (Persistence.insert db r created now id body ct exp).1 ≡ ok store_full
      → (find r id ≡ none)
        × ((j : String) (e : StoredEntry)
            → find (Persistence.insert db r created now id body ct exp).0 j ≡ some e
            → ¬ IsSpent now e)
  sqlite_insert_full r created now id body ct exp v h =
      let (gone, cleared) = (insert-Written r created now id body ct exp).2 h in
      (
        ap view gone,
        λ j e q.
            cleared-view now _ e (insert-IsValid r created now id body ct exp v j) (cleared j) q,
      )

  -- An insert into SQLite, also one that fails halfway, leaves every other entry as it was, unless
  -- that was past its time or acknowledged; the entry of its own ID too if nothing was stored.
  pub sqlite_insert_other :
      (r : SqliteRepository db) (created now : ℕ) (id : String) (body : Bytes) (ct : Option String)
      (exp : ℕ) (j : String)
      → (id ≢ j) ⊎ ((Persistence.insert db r created now id body ct exp).1 ≢ ok stored)
      → Outlives now (find r j) (find (Persistence.insert db r created now id body ct exp).0 j)
  sqlite_insert_other r created now id body ct exp j h =
      Loses-Outlives now _ _ ((insert-Written r created now id body ct exp).0 j h)
