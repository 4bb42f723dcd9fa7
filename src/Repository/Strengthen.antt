-- ===== src/Repository/Strengthen.antt =====
-- A contract whose valid states have one more property, which every operation keeps.
use http_relay.Base.{ℕ, String, Option}
use http_relay.Types.{Bytes}
use http_relay.Repository.{Repository, Contract}

-- The property is kept by every operation.
pub record IsKept (b : Repository) (c : Contract b) (Q : b.State → Type 0) : Type 0 where
  pub by_get : (r : b.State) (id : String) → c.IsValid r → Q r → Q (b.get r id).0
  pub by_insert :
      (r : b.State) (created now : ℕ) (id : String) (body : Bytes) (ct : Option String) (exp : ℕ)
      → c.IsValid r
      → Q r
      → Q (b.insert r created now id body ct exp).0
  pub by_ack : (r : b.State) (id : String) → c.IsValid r → Q r → Q (b.ack r id).0
  pub by_cleanup : (r : b.State) (now : ℕ) → c.IsValid r → Q r → Q (b.cleanup_expired r now).0

unfoldable pub strengthened :
    {b : Repository} (c : Contract b) (Q : b.State → Type 0) → IsKept b c Q → Contract b
strengthened c Q k = record {
  IsValid = λ r. c.IsValid r × Q r;
  find = c.find;
  get-IsValid = λ r id v. (c.get-IsValid r id v.0, k.by_get r id v.0 v.1);
  find-get = λ r id j v. c.find-get r id j v.0;
  get-find = λ r id {e} v h. c.get-find r id v.0 h;
  insert-IsValid = λ r created now id body ct exp v. (
    c.insert-IsValid r created now id body ct exp v.0,
    k.by_insert r created now id body ct exp v.0 v.1,
  );
  max_entries-insert =
      λ r created now id body ct exp v. c.max_entries-insert r created now id body ct exp v.0;
  insert_stored =
      λ r created now id body ct exp v h. c.insert_stored r created now id body ct exp v.0 h;
  insert_other =
      λ r created now id body ct exp j v h. c.insert_other r created now id body ct exp j v.0 h;
  insert_full = λ r created now id body ct exp j e v h g.
      c.insert_full r created now id body ct exp j e v.0 h g;
  ack-IsValid = λ r id v. (c.ack-IsValid r id v.0, k.by_ack r id v.0 v.1);
  find-ack = λ r id j {done} v h. c.find-ack r id j v.0 h;
  find-ack_failed = λ r id j {e} v h. c.find-ack_failed r id j v.0 h;
  cleanup-IsValid = λ r now v. (c.cleanup-IsValid r now v.0, k.by_cleanup r now v.0 v.1);
  cleanup_ids = λ r now j {ids} v h. c.cleanup_ids r now j v.0 h;
  find-cleanup = λ r now j {ids} v h. c.find-cleanup r now j v.0 h;
  find-cleanup_failed = λ r now j {e} v h. c.find-cleanup_failed r now j v.0 h;
}
