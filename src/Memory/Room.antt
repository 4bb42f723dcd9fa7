-- ===== src/Memory/Room.antt =====
-- `make_room` and its parts.
use http_relay.Base.{
  ℕ, String, ◌≡◌, ◌≤◌, true, false, [], ◌∷◌, none, some, if◌then◌else◌, arith, inl, inr,
  Option-cases,
}
use http_relay.HashMap.{HashMap, IsDistinct, keys_where, get}
use http_relay.HashMap.Laws.{get-remove_all, mem_key-keys_where, passes}
use http_relay.Memory.{Entry, delete_expired, oldest_acked, has_expired}

-- After the deletion exactly the entries that have not expired are left.
pub get-delete_expired :
    (now : ℕ) (j : String) (m : HashMap Entry)
    → IsDistinct m
    → get j (delete_expired now m).0
      ≡ (if passes (has_expired now) (get j m) then none else get j m)
unfolding delete_expired
get-delete_expired now j m d = ground (
  arith,
  get-remove_all j (keys_where (has_expired now) m) m,
  mem_key-keys_where (has_expired now) j m d,
)

-- None is picked when no entry is acknowledged.
pub oldest_acked-none :
    (m : HashMap Entry) (j : String) (f : Entry)
    → oldest_acked m ≡ none
    → get j m ≡ some f
    → f.acked ≡ false
unfolding oldest_acked get
oldest_acked-none [] j f h g = cc
oldest_acked-none ((i, w) ∷ m) j f h g = ground (arith, oldest_acked-none m j f)

-- The entry picked is an acknowledged entry of the map.
pub oldest_acked-get :
    (m : HashMap Entry) (id : String) (e : Entry)
    → IsDistinct m
    → oldest_acked m ≡ some (id, e)
    → (get id m ≡ some e) × (e.acked ≡ true)
unfolding oldest_acked get
oldest_acked-get [] id e d h = cc
oldest_acked-get ((i, w) ∷ m) id e d h = ground (arith, oldest_acked-get m id e d.1)

-- No acknowledged entry is older than the one picked.
pub oldest_acked-least :
    (m : HashMap Entry) (id : String) (e : Entry) (j : String) (f : Entry)
    → oldest_acked m ≡ some (id, e)
    → get j m ≡ some f
    → f.acked ≡ true
    → e.created_at ≤ f.created_at
unfolding oldest_acked get
oldest_acked-least [] id e j f h g a = cc
oldest_acked-least ((i, w) ∷ m) id e j f h g a = elim (Option-cases (oldest_acked m)) [
  | inl n ↦ ground (arith, oldest_acked-none m j f n)
  | inr ((k, o), s) ↦ ground (arith, oldest_acked-least m k o j f s)
]
