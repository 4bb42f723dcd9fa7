-- ===== src/HashMap/Keyed.antt =====
-- Predicates on the keys and values of a map: what each operation keeps.
use http_relay.Base.{
  String, ◌≡◌, Bool, List, [], ◌∷◌, some, All, arith, str_dec, subst, Bool-cases, inl, inr, if_pos,
  if_neg,
}
use http_relay.HashMap.{HashMap, get, insert, remove, remove_all, retain_mut}

module _ {ℓ κ} {V : Type ℓ} (P : String → V → Type κ) where
  -- Every key satisfies the predicate with its value.
  abbrev pub Keyed : HashMap V → Type κ
  Keyed = All (λ e. P e.0 e.1)

  pub Keyed-get : (k : String) {v : V} (m : HashMap V) → Keyed m → get k m ≡ some v → P k v
  unfolding get
  Keyed-get k [] a h = cc
  Keyed-get k {v} ((j, w) ∷ m) a h = elim (str_dec j k) [
    | yes e ↦ subst (λ i. P i v) e (subst (P j) (ground arith) a.0)
    | no n ↦ Keyed-get k m a.1 (ground arith)
  ]

  pub Keyed-insert : (k : String) (v : V) (m : HashMap V) → P k v → Keyed m → Keyed (insert k v m)
  unfolding insert
  Keyed-insert k v [] p a = (p, tt)
  Keyed-insert k v ((j, w) ∷ m) p a = elim (str_dec j k) [
    | yes e ↦ rw (if_pos (str_dec j k) e _ _) (rw e p, a.1)
    | no n ↦ rw (if_neg (str_dec j k) n _ _) (a.0, Keyed-insert k v m p a.1)
  ]

  pub Keyed-remove : (k : String) (m : HashMap V) → Keyed m → Keyed (remove k m)
  unfolding remove
  Keyed-remove k [] a = a
  Keyed-remove k ((j, w) ∷ m) a = elim (str_dec j k) [
    | yes e ↦ rw (if_pos (str_dec j k) e _ _) (Keyed-remove k m a.1)
    | no n ↦ rw (if_neg (str_dec j k) n _ _) (a.0, Keyed-remove k m a.1)
  ]

  pub Keyed-remove_all : (ks : List String) (m : HashMap V) → Keyed m → Keyed (remove_all ks m)
  unfolding remove_all
  Keyed-remove_all [] m a = a
  Keyed-remove_all (k ∷ ks) m a = Keyed-remove_all ks (remove k m) (Keyed-remove k m a)

  pub Keyed-retain_mut :
      (change : V → V) (keep : V → Bool) (m : HashMap V)
      → ((k : String) (v : V) → P k v → P k (change v))
      → Keyed m
      → Keyed (retain_mut change keep m)
  unfolding retain_mut
  Keyed-retain_mut change keep [] h a = a
  Keyed-retain_mut change keep ((j, w) ∷ m) h a = elim (Bool-cases (keep (change w))) [
    | inl e ↦ rw e (h j w a.0, Keyed-retain_mut change keep m h a.1)
    | inr e ↦ rw e (Keyed-retain_mut change keep m h a.1)
  ]
