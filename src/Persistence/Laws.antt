-- ===== src/Persistence/Laws.antt =====
-- What SQLite documents of the statements, and the ways through a chain of them.
use http_relay.Base.{
  ℕ, String, ◌+◌, ◌≡◌, ◌<◌, refl, Bool, List, Option, none, some, Result, ok, err, AnyError, ◌⊎◌,
  ite, str_dec, length, if◌then◌else◌, ltb,
}
use http_relay.HashMap.{HashMap, get, len, is_some}
use http_relay.HashMap.Laws.{mem_key, passes}
use http_relay.Persistence.{Row, no_rows, Database, context, try}

-- A row that a statement deletes to make room.
abbrev pub IsGivenUp : ℕ → Row → Type 0
IsGivenUp now row = (row.expires_at < now) ⊎ (row.acked ≡ 1)

-- A row stays as it is, or it is deleted and had the property.
abbrev pub Loses : (Row → Type 0) → Option Row → Option Row → Type 0
Loses P before after = (after ≡ before) ⊎ ((after ≡ none) × (x : Row) × (before ≡ some x) × P x)

abbrev pub is_before : ℕ → Row → Bool
is_before now row = ltb row.expires_at now

abbrev pub acked_row : Option Row → Option Row
acked_row none = none
acked_row (some x) = some (record x { acked = 1; message_body = none })

-- `rows` is the table under its primary key. A statement that only reads keeps it; one that fails
-- keeps it too, but a deletion may have happened before an error with its returned rows.
pub record Laws (db : Database) : Type 0 where
  pub rows : db.Connection → HashMap Row
  pub exists-rows : (c : db.Connection) (id : String) → rows (db.exists_id c id).0 ≡ rows c
  pub exists-ok :
      (c : db.Connection) (id : String) {b : Bool}
      → (db.exists_id c id).1 ≡ ok b
      → b ≡ is_some (get id (rows c))
  pub count-rows : (c : db.Connection) → rows (db.count_all c).0 ≡ rows c
  pub count-ok : (c : db.Connection) {n : ℕ} → (db.count_all c).1 ≡ ok n → n ≡ len (rows c)
  pub prepare-rows : (c : db.Connection) → rows (db.prepare_delete c).0 ≡ rows c
  pub delete_before-Loses :
      (c : db.Connection) (now : ℕ) (j : String)
      → Loses (λ x. x.expires_at < now) (get j (rows c)) (get j (rows (db.delete_before c now).0))
  pub delete_before-get :
      (c : db.Connection) (now : ℕ) (j : String) {ids : List String}
      → (db.delete_before c now).1 ≡ ok ids
      → get j (rows (db.delete_before c now).0)
        ≡ (if passes (is_before now) (get j (rows c)) then none else get j (rows c))
  pub delete_before-ids :
      (c : db.Connection) (now : ℕ) (j : String) {ids : List String}
      → (db.delete_before c now).1 ≡ ok ids
      → mem_key j ids ≡ passes (is_before now) (get j (rows c))
  pub delete_before-len :
      (c : db.Connection) (now : ℕ) {ids : List String}
      → (db.delete_before c now).1 ≡ ok ids
      → length ids + len (rows (db.delete_before c now).0) ≡ len (rows c)
  pub delete_acked-Loses :
      (c : db.Connection) (limit : ℕ) (j : String)
      → Loses (λ x. x.acked ≡ 1) (get j (rows c)) (get j (rows (db.delete_acked c limit).0))
  pub delete_acked-len :
      (c : db.Connection) (limit : ℕ) {n : ℕ}
      → (db.delete_acked c limit).1 ≡ ok n
      → n + len (rows (db.delete_acked c limit).0) ≡ len (rows c)
  -- Fewer are deleted than the limit only where no other is left.
  pub delete_acked-all :
      (c : db.Connection) (limit : ℕ) {n : ℕ} (j : String) (x : Row)
      → (db.delete_acked c limit).1 ≡ ok n
      → n < limit
      → get j (rows (db.delete_acked c limit).0) ≡ some x
      → ¬ (x.acked ≡ 1)
  pub replace-get :
      (c : db.Connection) (id j : String) (x : Row)
      → (db.replace c id x).1 ≡ ok tt
      → get j (rows (db.replace c id x).0) ≡ ite (str_dec id j) (some x) (get j (rows c))
  pub replace-err :
      (c : db.Connection) (id : String) (x : Row) {e : String}
      → (db.replace c id x).1 ≡ err e
      → rows (db.replace c id x).0 ≡ rows c
  pub select-rows : (c : db.Connection) (id : String) → rows (db.select c id).0 ≡ rows c
  pub select-ok :
      (c : db.Connection) (id : String) {x : Row}
      → (db.select c id).1 ≡ ok x
      → get id (rows c) ≡ some x
  pub select-none :
      (c : db.Connection) (id : String) → (db.select c id).1 ≡ err no_rows → get id (rows c) ≡ none
  pub set_acked-get :
      (c : db.Connection) (id j : String) {n : ℕ}
      → (db.set_acked c id).1 ≡ ok n
      → get j (rows (db.set_acked c id).0)
        ≡ ite (str_dec id j) (acked_row (get j (rows c))) (get j (rows c))
  pub set_acked-err :
      (c : db.Connection) (id : String) {e : String}
      → (db.set_acked c id).1 ≡ err e
      → rows (db.set_acked c id).0 ≡ rows c

-- The two ways through a statement, and through one with what follows it.
pub context_cases {ℓ κ μ} :
    {C : Type ℓ} {A : Type κ} (P : C × Result A AnyError → Type μ) (text : String)
    (y : C × Result A String)
    → ((e : String) → y.1 ≡ err e → P (y.0, err text))
    → ((a : A) → y.1 ≡ ok a → P (y.0, ok a))
    → P (context text y)
context_cases P text (c, err e) failed done = failed e refl
context_cases P text (c, ok a) failed done = done a refl

pub try_cases {ℓ κ μ ν} :
    {C : Type ℓ} {A : Type κ} {B : Type μ} (P : C × Result B AnyError → Type ν) (text : String)
    (y : C × Result A String) (next : C → A → C × Result B AnyError)
    → ((e : String) → y.1 ≡ err e → P (y.0, err text))
    → ((a : A) → y.1 ≡ ok a → P (next y.0 a))
    → P (try (context text y) next)
try_cases P text (c, err e) next failed done = failed e refl
try_cases P text (c, ok a) next failed done = done a refl

pub result_cases {ℓ κ μ ν} :
    {C : Type ℓ} {A : Type κ} {B : Type μ} (P : C × Result B AnyError → Type ν)
    (y : C × Result A AnyError) (next : C → A → C × Result B AnyError)
    → ((e : AnyError) → y.1 ≡ err e → P (y.0, err e))
    → ((a : A) → y.1 ≡ ok a → P (next y.0 a))
    → P (try y next)
result_cases P (c, err e) next failed done = failed e refl
result_cases P (c, ok a) next failed done = done a refl
