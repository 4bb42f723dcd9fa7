-- ===== src/HashMap.antt =====
-- `std::collections::HashMap<String, V>`, as the source uses it: an association list whose order
-- stands for the unspecified iteration order.
pub mod Laws
pub mod Values
pub mod Keyed
use http_relay.Base.{
  ℕ, String, Bool, true, false, List, [], ◌∷◌, Option, none, some, ite, map, length, str_dec, ◌≡◌,
  if◌then◌else◌,
}

abbrev pub HashMap {ℓ} : Type ℓ → Type ℓ
HashMap V = List (String × V)

module _ {ℓ} {V : Type ℓ} where
  unfoldable pub get : String → HashMap V → Option V
  get k [] = none
  get k ((j, v) ∷ m) = ite (str_dec j k) (some v) (get k m)

  unfoldable pub insert : String → V → HashMap V → HashMap V
  insert k v [] = (k, v) ∷ []
  insert k v ((j, w) ∷ m) =
      let rest = insert k v m in ite (str_dec j k) ((j, v) ∷ m) ((j, w) ∷ rest)

  unfoldable pub remove : String → HashMap V → HashMap V
  remove k [] = []
  remove k ((j, v) ∷ m) = let rest = remove k m in ite (str_dec j k) rest ((j, v) ∷ rest)

  -- `for id in ids { map.remove(id); }`
  unfoldable pub remove_all : List String → HashMap V → HashMap V
  remove_all [] m = m
  remove_all (k ∷ ks) m = remove_all ks (remove k m)

  -- `map.iter().filter(|(_, v)| p(v)).map(|(k, _)| k.clone()).collect()`
  unfoldable pub keys_where : (V → Bool) → HashMap V → List String
  keys_where p [] = []
  keys_where p ((k, v) ∷ m) = let rest = keys_where p m in if p v then k ∷ rest else rest

  -- `map.retain(|_, v| { change(v); keep(v) })`
  unfoldable pub retain_mut : (V → V) → (V → Bool) → HashMap V → HashMap V
  retain_mut change keep [] = []
  retain_mut change keep ((k, v) ∷ m) =
      let rest = retain_mut change keep m in if keep (change v) then (k, change v) ∷ rest else rest

  abbrev pub is_some : Option V → Bool
  is_some none = false
  is_some (some v) = true

  abbrev pub contains_key : String → HashMap V → Bool
  contains_key k m = is_some (get k m)

  abbrev pub len : HashMap V → ℕ
  len = length

  -- No key occurs twice.
  abbrev pub IsDistinct : HashMap V → Type ℓ
  IsDistinct [] = Unit
  IsDistinct ((k, v) ∷ m) = (get k m ≡ none) × IsDistinct m
