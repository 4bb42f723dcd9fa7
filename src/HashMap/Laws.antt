-- ===== src/HashMap/Laws.antt =====
-- What a lookup finds after each operation of a map, and how the size changes.
use http_relay.Base.{
  String, ◌+◌, ◌≤◌, ◌<◌, ◌≡◌, ◌≢◌, refl, Bool, true, false, List, [], ◌∷◌, Option, none, some, ite,
  if_pos, if_neg, str_dec, if◌then◌else◌, arith,
}
use http_relay.HashMap.{
  HashMap, get, insert, remove, remove_all, keys_where, retain_mut, len, IsDistinct,
}

module _ {ℓ} {V : Type ℓ} where
  pub get-insert :
      (k j : String) (v : V) (m : HashMap V)
      → get j (insert k v m) ≡ ite (str_dec k j) (some v) (get j m)
  unfolding get insert
  get-insert k j v [] = refl
  get-insert k j v ((i, w) ∷ m) = ground (arith, get-insert k j v m)

  pub get-insert_self : (k : String) (v : V) (m : HashMap V) → get k (insert k v m) ≡ some v
  get-insert_self k v m = rw get-insert (if_pos (str_dec k k) refl _ _)

  pub get-insert_ne :
      {k j : String} (v : V) (m : HashMap V) → k ≢ j → get j (insert k v m) ≡ get j m
  get-insert_ne {k} {j} v m h = rw get-insert (if_neg (str_dec k j) h _ _)

  pub get-remove :
      (k j : String) (m : HashMap V) → get j (remove k m) ≡ ite (str_dec k j) none (get j m)
  unfolding get remove
  get-remove k j [] = ground arith
  get-remove k j ((i, w) ∷ m) = ground (arith, get-remove k j m)

  pub get-remove_self : (k : String) (m : HashMap V) → get k (remove k m) ≡ none
  get-remove_self k m = rw get-remove (if_pos (str_dec k k) refl _ _)

  pub len-insert_new :
      (k : String) (v : V) (m : HashMap V) → get k m ≡ none → len (insert k v m) ≡ len m + 1
  unfolding get insert
  len-insert_new k v [] h = omega arith
  len-insert_new k v ((i, w) ∷ m) h = ground (arith, len-insert_new k v m)

  pub len-insert_old :
      (k : String) (v : V) (m : HashMap V) {w : V} → get k m ≡ some w → len (insert k v m) ≡ len m
  unfolding get insert
  len-insert_old k v [] h = cc
  len-insert_old k v ((i, u) ∷ m) {w} h = ground (arith, len-insert_old k v m {w = w})

  pub len-remove-le : (k : String) (m : HashMap V) → len (remove k m) ≤ len m
  unfolding remove
  len-remove-le k [] = omega arith
  len-remove-le k ((i, w) ∷ m) = ground (arith, len-remove-le k m)

  pub len-remove-lt :
      (k : String) (m : HashMap V) {v : V} → get k m ≡ some v → len (remove k m) < len m
  unfolding get remove
  len-remove-lt k [] h = cc
  len-remove-lt k ((i, w) ∷ m) {v} h = ground (arith, len-remove-le k m, len-remove-lt k m {v = v})

  -- A second write to a key replaces the first.
  pub insert-insert :
      (k : String) (v w : V) (m : HashMap V) → insert k v (insert k w m) ≡ insert k v m
  unfolding insert
  insert-insert k v w [] = ground arith
  insert-insert k v w ((i, u) ∷ m) = ground (arith, insert-insert k v w m)

  pub IsDistinct-insert :
      (k : String) (v : V) (m : HashMap V) → IsDistinct m → IsDistinct (insert k v m)
  unfolding get insert
  IsDistinct-insert k v [] d = ground arith
  IsDistinct-insert k v ((i, w) ∷ m) d =
      ground (arith, IsDistinct-insert k v m d.1, get-insert k i v m)

  pub IsDistinct-remove : (k : String) (m : HashMap V) → IsDistinct m → IsDistinct (remove k m)
  unfolding remove
  IsDistinct-remove k [] d = d
  IsDistinct-remove k ((i, w) ∷ m) d = ground (arith, IsDistinct-remove k m d.1, get-remove k i m)

  pub IsDistinct-remove_all :
      (ks : List String) (m : HashMap V) → IsDistinct m → IsDistinct (remove_all ks m)
  unfolding remove_all
  IsDistinct-remove_all [] m d = d
  IsDistinct-remove_all (k ∷ ks) m d =
      IsDistinct-remove_all ks (remove k m) (IsDistinct-remove k m d)

  pub len-remove_all-le : (ks : List String) (m : HashMap V) → len (remove_all ks m) ≤ len m
  unfolding remove_all
  len-remove_all-le [] m = omega arith
  len-remove_all-le (k ∷ ks) m = omega (arith, len-remove_all-le ks (remove k m), len-remove-le k m)

  -- A deletion of keys that starts with a key of the map makes it smaller.
  pub len-remove_all-lt :
      (k : String) (ks : List String) (m : HashMap V) {v : V}
      → get k m ≡ some v
      → len (remove_all (k ∷ ks) m) < len m
  unfolding remove_all
  len-remove_all-lt k ks m {v} h =
      omega (arith, len-remove_all-le ks (remove k m), len-remove-lt k m {v = v} h)

-- Whether a key is in a list of keys.
unfoldable pub mem_key : String → List String → Bool
mem_key j [] = false
mem_key j (k ∷ ks) = let rest = mem_key j ks in ite (str_dec k j) true rest

abbrev pub passes {ℓ} : {V : Type ℓ} → (V → Bool) → Option V → Bool
passes p none = false
passes p (some v) = p v

module _ {ℓ} {V : Type ℓ} where
  pub get-remove_all :
      (j : String) (ks : List String) (m : HashMap V)
      → get j (remove_all ks m) ≡ (if mem_key j ks then none else get j m)
  unfolding remove_all mem_key
  get-remove_all j [] m = refl
  get-remove_all j (k ∷ ks) m = ground (arith, get-remove_all j ks (remove k m), get-remove k j m)

  mem_key-absent :
      (p : V → Bool) (j : String) (m : HashMap V)
      → get j m ≡ none
      → mem_key j (keys_where p m) ≡ false
  unfolding get mem_key keys_where
  mem_key-absent p j [] h = refl
  mem_key-absent p j ((i, w) ∷ m) h = ground (arith, mem_key-absent p j m)

  -- The keys collected are those whose value passes the test.
  pub mem_key-keys_where :
      (p : V → Bool) (j : String) (m : HashMap V)
      → IsDistinct m
      → mem_key j (keys_where p m) ≡ passes p (get j m)
  unfolding get mem_key keys_where
  mem_key-keys_where p j [] d = refl
  mem_key-keys_where p j ((i, w) ∷ m) d =
      ground (arith, mem_key-keys_where p j m d.1, mem_key-absent p j m)

  pub get-retain_mut :
      (change : V → V) (keep : V → Bool) (j : String) (m : HashMap V)
      → IsDistinct m
      → get j (retain_mut change keep m) ≡ elim (get j m) [
        | none ↦ none
        | some v ↦ if keep (change v) then some (change v) else none
      ]
  unfolding get retain_mut
  get-retain_mut change keep j [] d = refl
  get-retain_mut change keep j ((i, w) ∷ m) d = ground (arith, get-retain_mut change keep j m d.1)

  pub len-retain_mut-le :
      (change : V → V) (keep : V → Bool) (m : HashMap V) → len (retain_mut change keep m) ≤ len m
  unfolding retain_mut
  len-retain_mut-le change keep [] = omega arith
  len-retain_mut-le change keep ((i, w) ∷ m) = ground (arith, len-retain_mut-le change keep m)

  pub IsDistinct-retain_mut :
      (change : V → V) (keep : V → Bool) (m : HashMap V)
      → IsDistinct m
      → IsDistinct (retain_mut change keep m)
  unfolding retain_mut
  IsDistinct-retain_mut change keep [] d = d
  IsDistinct-retain_mut change keep ((i, w) ∷ m) d =
      ground (arith, IsDistinct-retain_mut change keep m d.1, get-retain_mut change keep i m d.1)
