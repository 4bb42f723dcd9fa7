-- ===== src/Memory/Eviction.antt =====
-- Which acknowledged entry `insert` gives up to make room.
use http_relay.Base.{
  ℕ, String, ◌≡◌, ◌≢◌, ◌≤◌, refl, sym, ◌∙◌, true, Option, none, some, arith, inl, inr, str_dec,
  Option-cases,
}
use http_relay.Types.{Bytes}
use http_relay.HashMap.{HashMap, IsDistinct, get}
use http_relay.HashMap.Laws.{get-remove, get-insert_ne}
use http_relay.Memory.{
  Entry, EntryRepository, make_room, insert, delete_expired, oldest_acked, remove_oldest, fresh,
}
use http_relay.Memory.Room.{get-delete_expired, oldest_acked-get, oldest_acked-least}
use http_relay.Memory.MakeRoom.{make_room_cases, delete_expired-IsDistinct}
use http_relay.Memory.Insert.{IsValid, insert_cases}

-- The entry was lost although its time had not passed.
abbrev pub IsEvicted : ℕ → String → Entry → HashMap Entry → HashMap Entry → Type 0
IsEvicted now j e before after =
    (get j before ≡ some e) × (now ≤ e.expires_at) × (get j after ≡ none)

-- It is acknowledged, and no acknowledged entry within its time is older.
abbrev pub IsOldestAcked : ℕ → Entry → HashMap Entry → Type 0
IsOldestAcked now e before =
    (e.acked ≡ true)
    × ((i : String) (f : Entry)
        → get i before ≡ some f
        → f.acked ≡ true
        → now ≤ f.expires_at
        → e.created_at ≤ f.created_at)

kept_in_time :
    (now : ℕ) (j : String) (e : Entry) (m : HashMap Entry)
    → IsDistinct m
    → get j m ≡ some e
    → now ≤ e.expires_at
    → get j (delete_expired now m).0 ≡ some e
kept_in_time now j e m d s h = ground (arith, get-delete_expired now j m d)

remove_oldest-IsOldestAcked :
    (now : ℕ) (j : String) (e : Entry) (m rest : HashMap Entry)
    → rest ≡ (delete_expired now m).0
    → IsDistinct m
    → IsDistinct rest
    → IsEvicted now j e m (remove_oldest (oldest_acked rest) rest)
    → IsOldestAcked now e m
remove_oldest-IsOldestAcked now j e m rest q d d' (s, h, gone) =
    let here : get j rest ≡ some e = rw q (kept_in_time now j e m d s h) in
    elim (Option-cases (oldest_acked rest)) [
      | inl n ↦ cc (rw n at gone)
      | inr ((k, x), o) ↦ elim (str_dec k j) [
        | yes p ↦
            let same : x ≡ e = ground (arith, oldest_acked-get rest k x d' o) in
            (
              cc ((oldest_acked-get rest k x d' o).1, same),
              λ i f t a l.
                  rw (← same)
                    (oldest_acked-least rest k x i f o (rw q (kept_in_time now i f m d t l)) a),
            )
        | no p ↦ ground (arith, rw o at gone, get-remove k j rest)
      ]
    ]

make_room-IsOldestAcked :
    (now max : ℕ) (j : String) (e : Entry) (m : HashMap Entry)
    → IsDistinct m
    → IsEvicted now j e m (make_room now max m).0
    → IsOldestAcked now e m
make_room-IsOldestAcked now max j e m d =
    make_room_cases (λ x. IsEvicted now j e m x.0 → IsOldestAcked now e m) now max m
      (λ _ (s, _, gone). cc) (λ _ _ (s, h, gone). cc (kept_in_time now j e m d s h))
      λ _ _.
        remove_oldest-IsOldestAcked now j e m (delete_expired now m).0 refl d
          (delete_expired-IsDistinct now m d)

-- In a valid store, an entry of another ID that an insert deletes within its time was
-- acknowledged, and no acknowledged entry within its time was created before it.
pub insert_evicts_oldest :
    (r : EntryRepository) (created now : ℕ) (id : String) (body : Bytes) (ct : Option String)
    (exp : ℕ) (j : String) (e : Entry)
    → IsValid r
    → id ≢ j
    → IsEvicted now j e r.entries (insert r created now id body ct exp).0.entries
    → IsOldestAcked now e r.entries
insert_evicts_oldest r created now id body ct exp j e v ne =
    insert_cases r created now id body ct exp
      (λ x. IsEvicted now j e r.entries x.0.entries → IsOldestAcked now e r.entries)
      (λ _ _ (s, _, gone). cc (get-insert_ne (fresh body ct exp created) r.entries ne))
      (λ _ _ (s, h, gone).
        make_room-IsOldestAcked now r.max_entries j e r.entries v.distinct
          (s, h, sym (get-insert_ne (fresh body ct exp created) _ ne) ∙ gone))
      (λ _ _ lost. make_room-IsOldestAcked now r.max_entries j e r.entries v.distinct lost)
