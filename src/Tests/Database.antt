-- ===== src/Tests/Database.antt =====
-- A database kept as a list of rows, which meets the laws that SQLite documents, and the theorems on
-- the SQLite repository at examples.
use http_relay.Base.{
  ℕ, String, ◌+◌, ◌≡◌, ◌≢◌, ◌<◌, refl, Bool, true, not, [], ◌∷◌, Option, none, some, Result, ok,
  err, inl, inr, ◌==◌, ◌&&◌, ltb, length, arith, if◌then◌else◌, ite, str_dec, bytes, ne_of_test,
  Option-cases, Bool-cases,
}
use http_relay.Types.{StoredEntry, store_full}
use http_relay.HashMap
use http_relay.HashMap.{HashMap, IsDistinct, get, len, is_some, keys_where, retain_mut}
use http_relay.HashMap.Laws.{
  get-insert, get-retain_mut, IsDistinct-retain_mut, IsDistinct-insert, IsDistinct-remove,
  mem_key-keys_where, passes,
}
use http_relay.Repository.{Outlives, IsSpent}
use http_relay.Persistence.{
  Row, QueryError, no_rows, Database, SqliteRepository, insert, make_room, insert_row,
}
use http_relay.Persistence.Laws.{Laws, Loses, is_before, acked_row}
use http_relay.Persistence.Insert.{IsValid, find, sqlite_insert_full, sqlite_insert_other}

abbrev Table : Type 0
Table = (m : HashMap Row) × IsDistinct m

-- The rows that do not pass the test, and how many did.
abbrev keep_others : (Row → Bool) → HashMap Row → HashMap Row
keep_others p m = retain_mut (λ x. x) (λ x. not (p x)) m

get-keep_others :
    (p : Row → Bool) (j : String) (m : HashMap Row)
    → IsDistinct m
    → get j (keep_others p m) ≡ (if passes p (get j m) then none else get j m)
get-keep_others p j m d = ground (arith, get-retain_mut (λ x. x) (λ x. not (p x)) j m d)

len-keep_others :
    (p : Row → Bool) (m : HashMap Row) → length (keys_where p m) + len (keep_others p m) ≡ len m
unfolding retain_mut keys_where
len-keep_others p [] = refl
len-keep_others p ((i, x) ∷ m) = ground (arith, len-keep_others p m)

keep_others-Loses :
    (p : Row → Bool) (P : Row → Type 0) (j : String) (m : HashMap Row)
    → ((x : Row) → p x ≡ true → P x)
    → IsDistinct m
    → Loses P (get j m) (get j (keep_others p m))
keep_others-Loses p P j m f d = elim (Option-cases (get j m)) [
  | inl n ↦ inl (ground (arith, get-keep_others p j m d, n))
  | inr (x, s) ↦ elim (Bool-cases (p x)) [
    | inl e ↦ inr (ground (arith, get-keep_others p j m d, s, e), x, s, f x e)
    | inr e ↦ inl (ground (arith, get-keep_others p j m d, s, e))
  ]
]

-- The acknowledged rows are deleted all at once or, with the limit 0, not at all.
abbrev given_up : ℕ → Row → Bool
given_up limit x = x.acked == 1 && ltb 0 limit

abbrev insert_table : String → Row → Table → Table
insert_table id x (m, d) = (HashMap.insert id x m, IsDistinct-insert id x m d)

abbrev selected_row : Option Row → Result Row QueryError
selected_row none = err no_rows
selected_row (some x) = ok x

abbrev acked_table : String → Option Row → Table → Table × Result ℕ String
acked_table id none t = (t, ok 0)
acked_table id (some x) t = (insert_table id (record x { acked = 1; message_body = none }) t, ok 1)

abbrev pub list_database : Database
list_database = record {
  Connection = Table;
  open_file = λ path. ok ([], tt);
  open_in_memory = ok ([], tt);
  secure_delete = λ t. (t, ok tt);
  write_ahead_log = λ t. (t, ok tt);
  schema = λ t. (t, ok tt);
  exists_id = λ t id. (t, ok (is_some (get id t.0)));
  count_all = λ t. (t, ok (len t.0));
  prepare_delete = λ t. (t, ok tt);
  delete_before = λ t now. (
    (keep_others (is_before now) t.0, IsDistinct-retain_mut _ _ t.0 t.1),
    ok (keys_where (is_before now) t.0),
  );
  delete_acked = λ t limit. (
    (keep_others (given_up limit) t.0, IsDistinct-retain_mut _ _ t.0 t.1),
    ok (length (keys_where (given_up limit) t.0)),
  );
  replace = λ t id x. (insert_table id x t, ok tt);
  select = λ t id. (t, selected_row (get id t.0));
  set_acked = λ t id. acked_table id (get id t.0) t;
  delete_id = λ t id. (
    (HashMap.remove id t.0, IsDistinct-remove id t.0 t.1),
    ok (if is_some (get id t.0) then 1 else 0),
  );
}

set_acked-table :
    (t : Table) (id j : String)
    → get j (acked_table id (get id t.0) t).0.0
      ≡ ite (str_dec id j) (acked_row (get j t.0)) (get j t.0)
set_acked-table (m, d) id j = elim (Option-cases (get id m)) [
  | inl n ↦ ground (arith, n)
  | inr (x, s) ↦ ground (arith, s, get-insert id j (record x { acked = 1; message_body = none }) m)
]

select-table :
    (t : Table) (id : String) (x : Row) → selected_row (get id t.0) ≡ ok x → get id t.0 ≡ some x
select-table t id x h = elim (Option-cases (get id t.0)) [
  | inl n ↦ cc (rw n at h)
  | inr (y, s) ↦ ground (arith, s, h)
]

select_none-table :
    (t : Table) (id : String) → selected_row (get id t.0) ≡ err no_rows → get id t.0 ≡ none
select_none-table t id h = elim (Option-cases (get id t.0)) [
  | inl n ↦ n
  | inr (y, s) ↦ cc (rw s at h)
]

set_acked-ne-err :
    (t : Table) (id : String) (e : String) → (acked_table id (get id t.0) t).1 ≢ err e
set_acked-ne-err t id e h = elim (Option-cases (get id t.0)) [
  | inl n ↦ cc (rw n at h)
  | inr (y, s) ↦ cc (rw s at h)
]

delete_acked-rest :
    (t : Table) (limit : ℕ) (j : String) (x : Row)
    → length (keys_where (given_up limit) t.0) < limit
    → get j (keep_others (given_up limit) t.0) ≡ some x
    → ¬ (x.acked ≡ 1)
delete_acked-rest (m, d) limit j x less s acked = elim (Option-cases (get j m)) [
  | inl n ↦ ground (arith, get-keep_others (given_up limit) j m d, n)
  | inr (y, q) ↦ ground (arith, get-keep_others (given_up limit) j m d, q)
]

pub list_laws : Laws list_database
list_laws = record {
  rows = λ t. t.0;
  exists-rows = λ t id. refl;
  exists-ok = λ t id {b} h. cc h;
  count-rows = λ t. refl;
  count-ok = λ t {n} h. cc h;
  prepare-rows = λ t. refl;
  delete_before-Loses = λ t now j.
      keep_others-Loses (is_before now) (λ x. x.expires_at < now) j t.0 (λ x h. ground arith) t.1;
  delete_before-get = λ t now j {ids} h. get-keep_others (is_before now) j t.0 t.1;
  delete_before-ids = λ t now j {ids} h. cc (mem_key-keys_where (is_before now) j t.0 t.1, h);
  delete_before-len = λ t now {ids} h. cc (len-keep_others (is_before now) t.0, h);
  delete_acked-Loses = λ t limit j.
      keep_others-Loses (given_up limit) (λ x. x.acked ≡ 1) j t.0 (λ x h. ground arith) t.1;
  delete_acked-len = λ t limit {n} h. cc (len-keep_others (given_up limit) t.0, h);
  delete_acked-all =
      λ t limit {n} j x h less s. delete_acked-rest t limit j x (ground (arith, h, less)) s;
  replace-get = λ t id j x h. get-insert id j x t.0;
  replace-err = λ t id x {e} h. absurd (cc h);
  select-rows = λ t id. refl;
  select-ok = λ t id {x} h. select-table t id x h;
  select-none = λ t id h. select_none-table t id h;
  set_acked-get = λ t id j {n} h. set_acked-table t id j;
  set_acked-err = λ t id {e} h. absurd (set_acked-ne-err t id e h);
}

abbrev unread : Row
unread = record {
  message_body = some (bytes "hello");
  content_type = none;
  acked = 0;
  expires_at = 900;
  created_at = 1;
}

pub one_row-IsDistinct : IsDistinct (("a", unread) ∷ [])
unfolding get
one_row-IsDistinct = (refl, tt)

-- Room for one entry, which is not delivered yet.
abbrev pub full_database : SqliteRepository list_database
full_database = record { connection = (("a", unread) ∷ [], one_row-IsDistinct); max_entries = 1 }

pub full_database-IsValid : IsValid list_database list_laws full_database
unfolding list_laws get
full_database-IsValid j = elim (str_dec "a" j) [
  | yes p ↦ ground (arith, p)
  | no n ↦ ground (arith, n)
]

refused : (insert list_database full_database 500 500 "b" (bytes "new") none 990).1 ≡ ok store_full
unfolding insert insert_row make_room get retain_mut keys_where str_dec
refused = refl

sqlite_insert_full_example :
    (find list_database list_laws full_database "b" ≡ none)
    × ((j : String) (e : StoredEntry)
        → find list_database list_laws
            (insert list_database full_database 500 500 "b" (bytes "new") none 990).0
            j
          ≡ some e
        → ¬ IsSpent 500 e)
sqlite_insert_full_example =
    sqlite_insert_full list_database list_laws full_database 500 500 "b" (bytes "new") none 990
      full_database-IsValid refused

sqlite_insert_other_example : Outlives 500 (find list_database list_laws full_database "a") (
    find list_database list_laws
      (insert list_database full_database 500 500 "b" (bytes "new") none 990).0
      "a")
sqlite_insert_other_example =
    sqlite_insert_other list_database list_laws full_database 500 500 "b" (bytes "new") none 990 "a"
      (inl (ne_of_test "b" "a" refl))
