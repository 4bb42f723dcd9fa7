-- ===== src/Persistence/Contract.antt =====
-- The contract of src/http_relay/waiting_list.rs with its repository, for the one in SQLite
-- (src/http_relay/persistence.rs).
use http_relay.Base.{
  ℕ, String, ◌≡◌, refl, sym, ap, subst, ◌∙◌, Bool, List, Option, none, some, Result, ok, err,
  AnyError, inl, inr, arith, if◌then◌else◌, Result-cases, ite, str_dec, if_pos, if_neg,
}
use http_relay.Types.{Bytes, StoredEntry}
use http_relay.HashMap.{get}
use http_relay.HashMap.Laws.{passes, mem_key}
use http_relay.Repository.{Contract, mark_acked, is_past}
use http_relay.Persistence.{
  Row, QueryError, no_rows, failure, Database, SqliteRepository, context, try, contains, make_room,
  write_row, insert_row, new_row, row_entry, selected, affected, back, delete_expired,
  sqlite_repository,
}
use http_relay.Persistence
use http_relay.Persistence.Laws.{Laws, IsGivenUp, is_before, acked_row}
use http_relay.Persistence.Room.{Spared, delete_expired-Spared, delete_expired-ok}
use http_relay.Persistence.Insert.{
  view, IsFlag, Loses-IsFlag, Loses-Outlives, cleared-view, insert-Written, insert-IsValid, table,
  find, IsValid,
}

module _ (db : Database) (laws : Laws db) where
  get-rows :
      (r : SqliteRepository db) (id j : String)
      → find db laws (Persistence.get db r id).0 j ≡ find db laws r j
  unfolding Persistence.get
  get-rows r id j = ap (λ m. view (get j m)) (laws.select-rows r.connection id)

  get-IsFlag :
      (r : SqliteRepository db) (id j : String)
      → IsFlag (get j (table db laws r))
      → IsFlag (get j (table db laws (Persistence.get db r id).0))
  unfolding Persistence.get
  get-IsFlag r id j = subst (λ m. IsFlag (get j m)) (sym (laws.select-rows r.connection id))

  get-find :
      (r : SqliteRepository db) (id : String) (e : Option StoredEntry)
      → (Persistence.get db r id).1 ≡ ok e
      → e ≡ find db laws r id
  unfolding Persistence.get
  get-find r id e = chosen (db.select r.connection id).1 refl
    where
      chosen :
          (y : Result Row QueryError)
          → (db.select r.connection id).1 ≡ y
          → selected y ≡ ok e
          → e ≡ find db laws r id
      chosen (ok x) q h = ground (arith, h, laws.select-ok r.connection id q)
      chosen (err no_rows) q h = ground (arith, h, laws.select-none r.connection id q)
      chosen (err (failure m)) q h = cc

  ack-rows :
      (r : SqliteRepository db) (id j : String)
      → get j (table db laws (Persistence.ack db r id).0) ≡ (elim (Persistence.ack db r id).1 [
        | ok done ↦
            ite (str_dec id j) (acked_row (get j (table db laws r))) (get j (table db laws r))
        | err e ↦ get j (table db laws r)
      ])
  unfolding Persistence.ack
  ack-rows r id j = elim (Result-cases (db.set_acked r.connection id).1) [
    | inl (n, q) ↦ rw q (laws.set_acked-get r.connection id j q)
    | inr (e, q) ↦ rw q (ap (get j) (laws.set_acked-err r.connection id q))
  ]

  cleanup-Spared :
      (r : SqliteRepository db) (now : ℕ)
      → Spared db laws now r.connection (Persistence.cleanup_expired db r now).0.connection
  unfolding Persistence.cleanup_expired
  cleanup-Spared r now = delete_expired-Spared db laws now r.connection

  view-acked : (a : Option Row) → view (acked_row a) ≡ mark_acked (view a)
  view-acked none = refl
  view-acked (some x) = refl

  ack-IsValid :
      (r : SqliteRepository db) (id : String)
      → IsValid db laws r
      → IsValid db laws (Persistence.ack db r id).0
  ack-IsValid r id v j = elim (Result-cases (Persistence.ack db r id).1) [
    | inl (done, q) ↦
        subst IsFlag (sym (rw q at (ack-rows r id j))) (flagged (get j (table db laws r)) (v j))
    | inr (e, q) ↦ subst IsFlag (sym (rw q at (ack-rows r id j))) (v j)
  ]
    where
      flagged : (a : Option Row) → IsFlag a → IsFlag (ite (str_dec id j) (acked_row a) a)
      flagged none h = elim (str_dec id j) [
        | yes p ↦ rw (if_pos (str_dec id j) p (acked_row none) none) tt
        | no p ↦ rw (if_neg (str_dec id j) p (acked_row none) none) tt
      ]
      flagged (some x) h = elim (str_dec id j) [
        | yes p ↦ rw (if_pos (str_dec id j) p (acked_row (some x)) (some x)) (omega arith)
        | no p ↦ rw (if_neg (str_dec id j) p (acked_row (some x)) (some x)) h
      ]

  find-ack :
      (r : SqliteRepository db) (id j : String) (done : Bool)
      → (Persistence.ack db r id).1 ≡ ok done
      → find db laws (Persistence.ack db r id).0 j
        ≡ ite (str_dec id j) (mark_acked (find db laws r j)) (find db laws r j)
  find-ack r id j done q =
      ap view (rw q at (ack-rows r id j)) ∙ ground (arith, view-acked (get j (table db laws r)))

  find-ack_failed :
      (r : SqliteRepository db) (id j : String) (e : AnyError)
      → (Persistence.ack db r id).1 ≡ err e
      → find db laws (Persistence.ack db r id).0 j ≡ find db laws r j
  find-ack_failed r id j e q = ap view (rw q at (ack-rows r id j))

  passes-view :
      (now : ℕ) (a : Option Row) → passes (is_before now) a ≡ passes (is_past now) (view a)
  passes-view now none = refl
  passes-view now (some x) = refl

  module _ (r : SqliteRepository db) (now : ℕ) (j : String) (ids : List String) where
    cleanup_ids :
        (Persistence.cleanup_expired db r now).1 ≡ ok ids
        → mem_key j ids ≡ passes (is_past now) (find db laws r j)
    unfolding Persistence.cleanup_expired
    cleanup_ids q =
        (delete_expired-ok db laws now r.connection ids q).1 j
        ∙ passes-view now (get j (table db laws r))

    find-cleanup :
        (Persistence.cleanup_expired db r now).1 ≡ ok ids
        → find db laws (Persistence.cleanup_expired db r now).0 j
          ≡ (if passes (is_past now) (find db laws r j) then none else find db laws r j)
    unfolding Persistence.cleanup_expired
    find-cleanup q =
        ap view ((delete_expired-ok db laws now r.connection ids q).0 j)
        ∙ ground (arith, passes-view now (get j (table db laws r)))

  max_entries-insert :
      (r : SqliteRepository db) (created now : ℕ) (id : String) (body : Bytes) (ct : Option String)
      (exp : ℕ)
      → (Persistence.insert db r created now id body ct exp).0.max_entries ≡ r.max_entries
  unfolding Persistence.insert
  max_entries-insert r created now id body ct exp = refl

  -- The contract, so that the theorems on the waiting list hold for this backend too.
  pub sqlite_contract : Contract (sqlite_repository db)
  unfolding Persistence.cleanup_expired
  sqlite_contract = record {
    IsValid = IsValid db laws;
    find = find db laws;
    get-IsValid = λ r id v j. get-IsFlag r id j (v j);
    find-get = λ r id j v. get-rows r id j;
    get-find = λ r id {e} v h. get-find r id e h;
    insert-IsValid = insert-IsValid db laws;
    max_entries-insert =
        λ r created now id body ct exp v. max_entries-insert r created now id body ct exp;
    insert_stored = λ r created now id body ct exp v h.
        ap view ((insert-Written db laws r created now id body ct exp).1 h);
    insert_other = λ r created now id body ct exp j v h.
        Loses-Outlives now _ _ ((insert-Written db laws r created now id body ct exp).0 j h);
    insert_full = λ r created now id body ct exp j e v h q.
        let (gone, cleared) = (insert-Written db laws r created now id body ct exp).2 h in
        (
          ap view gone,
          cleared-view now _ e (insert-IsValid db laws r created now id body ct exp v j) (cleared j)
              q,
        );
    ack-IsValid = ack-IsValid;
    find-ack = λ r id j {done} v h. find-ack r id j done h;
    find-ack_failed = λ r id j {e} v h. find-ack_failed r id j e h;
    cleanup-IsValid = λ r now v j. Loses-IsFlag (IsGivenUp now) _ _ (cleanup-Spared r now j) (v j);
    cleanup_ids = λ r now j {ids} v h. cleanup_ids r now j ids h;
    find-cleanup = λ r now j {ids} v h. find-cleanup r now j ids h;
    find-cleanup_failed = λ r now j {e} v h. Loses-Outlives now _ _ (cleanup-Spared r now j);
  }

  pub sqlite_contract-IsValid :
      (r : SqliteRepository db) → IsValid db laws r → sqlite_contract.IsValid r
  unfolding sqlite_contract
  sqlite_contract-IsValid r v = v
