-- ===== src/HashMap/Values.antt =====
-- Predicates on the values of a map: what each operation keeps.
use http_relay.Base.{String, ◌≡◌, Bool, true, List, [], ◌∷◌, some, All, arith, str_dec, subst}
use http_relay.HashMap.{HashMap, get, insert, remove, remove_all, retain_mut}

module _ {ℓ κ} {V : Type ℓ} (P : V → Type κ) where
  -- Every value of the map satisfies the predicate.
  abbrev pub Each : HashMap V → Type κ
  Each = All (λ e. P e.1)

  pub Each-get : (k : String) {v : V} (m : HashMap V) → Each m → get k m ≡ some v → P v
  unfolding get
  Each-get k [] a h = cc
  Each-get k {v} ((j, w) ∷ m) a h = elim (str_dec j k) [
    | yes e ↦ subst P (ground arith) a.0
    | no n ↦ Each-get k m a.1 (ground arith)
  ]

  pub Each-insert : (k : String) (v : V) (m : HashMap V) → P v → Each m → Each (insert k v m)
  unfolding insert
  Each-insert k v [] p a = ground arith
  Each-insert k v ((j, w) ∷ m) p a = ground (arith, Each-insert k v m p a.1)

  pub Each-remove : (k : String) (m : HashMap V) → Each m → Each (remove k m)
  unfolding remove
  Each-remove k [] a = a
  Each-remove k ((j, w) ∷ m) a = ground (arith, Each-remove k m a.1)

  pub Each-remove_all : (ks : List String) (m : HashMap V) → Each m → Each (remove_all ks m)
  unfolding remove_all
  Each-remove_all [] m a = a
  Each-remove_all (k ∷ ks) m a = Each-remove_all ks (remove k m) (Each-remove k m a)

  pub Each-retain_mut :
      (change : V → V) (keep : V → Bool) (m : HashMap V)
      → ((v : V) → P v → keep (change v) ≡ true → P (change v))
      → Each m
      → Each (retain_mut change keep m)
  unfolding retain_mut
  Each-retain_mut change keep [] h a = a
  Each-retain_mut change keep ((j, w) ∷ m) h a =
      ground (arith, h w a.0, Each-retain_mut change keep m h a.1)
