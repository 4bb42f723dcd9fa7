-- ===== src/Scenarios/Rows.antt =====
-- A database kept as a list of rows, for the unit tests of src/http_relay/persistence.rs: the oldest
-- acknowledged rows are deleted first, as the statements in the source ask for.
use http_relay.Base.{
  ℕ, zero, suc, String, ◌+◌, Bool, true, false, List, [], ◌∷◌, Option, none, some, Result, ok, err,
  ◌==◌, ltb, if◌then◌else◌,
}
use http_relay.HashMap.{HashMap, remove, remove_all, keys_where, is_some, len}
use http_relay.HashMap
use http_relay.Persistence.{Row, QueryError, no_rows, Database}

-- The acknowledged row that was created first, of a row and the first of the others.
abbrev earlier : Bool → String → ℕ → Option (String × ℕ) → Option (String × ℕ)
earlier false id at first = first
earlier true id at none = some (id, at)
earlier true id at (some (other, before)) =
    if ltb before at then some (other, before) else some (id, at)

abbrev oldest_acked_row : HashMap Row → Option (String × ℕ)
oldest_acked_row [] = none
oldest_acked_row ((id, x) ∷ m) = earlier (x.acked == 1) id x.created_at (oldest_acked_row m)

abbrev delete_oldest : ℕ → HashMap Row → HashMap Row × ℕ
delete_oldest zero m = (m, 0)
delete_oldest (suc limit) m = elim (oldest_acked_row m) [
  | none ↦ (m, 0)
  | some (id, at) ↦ let (m', deleted) = delete_oldest limit (remove id m) in (m', deleted + 1)
]

abbrev selected_row : Option Row → Result Row QueryError
selected_row none = err no_rows
selected_row (some x) = ok x

abbrev acked_rows : String → HashMap Row → Option Row → HashMap Row × Result ℕ String
acked_rows id m none = (m, ok 0)
acked_rows id m (some x) = (HashMap.insert id (record x { acked = 1; message_body = none }) m, ok 1)

abbrev expired_rows : ℕ → HashMap Row → List String
expired_rows now m = keys_where (λ x. ltb x.expires_at now) m

abbrev pub row_database : Database
row_database = record {
  Connection = HashMap Row;
  open_file = λ path. ok [];
  open_in_memory = ok [];
  secure_delete = λ m. (m, ok tt);
  write_ahead_log = λ m. (m, ok tt);
  schema = λ m. (m, ok tt);
  exists_id = λ m id. (m, ok (is_some (HashMap.get id m)));
  count_all = λ m. (m, ok (len m));
  prepare_delete = λ m. (m, ok tt);
  delete_before = λ m now. (remove_all (expired_rows now m) m, ok (expired_rows now m));
  delete_acked = λ m limit. ((delete_oldest limit m).0, ok (delete_oldest limit m).1);
  replace = λ m id x. (HashMap.insert id x m, ok tt);
  select = λ m id. (m, selected_row (HashMap.get id m));
  set_acked = λ m id. acked_rows id m (HashMap.get id m);
  delete_id = λ m id. (remove id m, ok (if is_some (HashMap.get id m) then 1 else 0));
}
