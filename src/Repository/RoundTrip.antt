-- ===== src/Repository/RoundTrip.antt =====
-- What is read back of an entry that was written, and of one that was then acknowledged.
use http_relay.Base.{ℕ, String, ◌≡◌, refl, ap, ◌∙◌, Bool, Option, some, ok, str_dec, if_pos}
use http_relay.Types.{Bytes, StoredEntry, stored}
use http_relay.Repository.{Repository, Contract, new_entry, mark_acked}

module _ {b : Repository} (c : Contract b) (r : b.State) (created now : ℕ) (id : String)
    (body : Bytes) (ct : Option String) (exp : ℕ) (valid : c.IsValid r)
    (written : (b.insert r created now id body ct exp).1 ≡ ok stored) where
  abbrev after : b.State
  after = (b.insert r created now id body ct exp).0

  after-IsValid : c.IsValid after
  after-IsValid = c.insert-IsValid r created now id body ct exp valid

  pub insert_get :
      {e : Option StoredEntry} → (b.get after id).1 ≡ ok e → e ≡ some (new_entry body ct exp)
  insert_get read =
      c.get-find after id after-IsValid read
      ∙ c.insert_stored r created now id body ct exp valid written

  pub insert_ack_get :
      {done : Bool} {e : Option StoredEntry}
      → (b.ack after id).1 ≡ ok done
      → (b.get (b.ack after id).0 id).1 ≡ ok e
      → e ≡ mark_acked (some (new_entry body ct exp))
  insert_ack_get acked read =
      c.get-find (b.ack after id).0 id (c.ack-IsValid after id after-IsValid) read
      ∙ c.find-ack after id id after-IsValid acked
      ∙ if_pos (str_dec id id) refl _ _
      ∙ ap mark_acked (c.insert_stored r created now id body ct exp valid written)
