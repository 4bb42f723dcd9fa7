-- ===== src/WaitingList/Mailbox.antt =====
-- An abstract mailbox: what the calls of a waiting list may do to the entries that it holds, and
-- what they may answer, without the waiters, the repository's data or its order.
pub mod Store
pub mod Calls
pub mod Refines
use http_relay.Base.{
  ℕ, String, ◌≡◌, ◌≢◌, ◌≤◌, Bool, true, false, ◌⊎◌, List, [], ◌∷◌, Option, none, some, Result, ok,
  err, AnyError, if◌then◌else◌,
}
use http_relay.Types.{Message, StoredEntry, InsertOutcome, stored, store_full, expiry}
use http_relay.HashMap.Laws.{passes}
use http_relay.Repository.{Repository, Outlives, IsSpent, is_past, new_entry, mark_acked}
use http_relay.WaitingList.State.{
  WaitingList, Readings, SubscribeError, StoreAndSubscribeError, GetOrSubscribeResult, message,
  waiting, storage, unexpired, available,
}
use http_relay.WaitingList.Methods.{
  store, ack, is_acked, subscribe_ack, store_and_subscribe_ack, get_or_subscribe, cleanup_expired,
}
use http_relay.WaitingList.History.{Call, stores, acks, asks, subscribes, links, gets, cleans, step}

-- What a call returns.
pub data Answer : Type 0 where
  outcome : Result InsertOutcome AnyError → Answer
  flag : Bool → Answer
  told : Option Bool → Answer
  channel : Result ℕ SubscribeError → Answer
  linked : Result ℕ StoreAndSubscribeError → Answer
  got : Result GetOrSubscribeResult SubscribeError → Answer
  removed : ℕ → Answer

module _ {b : Repository} where
  unfoldable pub answer : WaitingList b → Call → Answer
  answer wl (stores t id msg ttl) = outcome (store wl t id msg ttl).1
  answer wl (acks t id) = flag (ack wl t id).1
  answer wl (asks t id) = told (is_acked wl t id).1
  answer wl (subscribes t id tx) = channel (subscribe_ack wl t id tx).1
  answer wl (links t t' id msg ttl tx) = linked (store_and_subscribe_ack wl t t' id msg ttl tx).1
  answer wl (gets t id tx) = got (get_or_subscribe wl t id tx).1
  answer wl (cleans t) = removed (cleanup_expired wl t).1

  -- The answers of a history of calls, in order.
  unfoldable pub answers : WaitingList b → List Call → List (Call × Answer)
  answers wl [] = []
  answers wl (call ∷ calls) = (call, answer wl call) ∷ answers (step wl call) calls

-- The entry under each ID.
abbrev pub View : Type 0
View = String → Option StoredEntry

abbrev pub Same : View → View → Type 0
Same v v' = (j : String) → v' j ≡ v j

-- A deletion of spent entries, of which some may stay.
abbrev pub Sheds : ℕ → View → View → Type 0
Sheds now v v' = (j : String) → Outlives now (v j) (v' j)

-- The message is put under the ID, and some spent entries may go.
abbrev pub Puts : Readings → String → Message → ℕ → View → View → Type 0
Puts t id msg ttl v v' =
    (v' id ≡ some (new_entry msg.body msg.content_type (expiry t.called ttl)))
    × ((j : String) → id ≢ j → Outlives t.swept (v j) (v' j))

-- No room for a new ID: some spent entries may have gone, and what is left is not spent.
abbrev pub Overflows : Readings → String → View → View → Type 0
Overflows t id v v' =
    Sheds t.swept v v'
    × ((j : String) (e : StoredEntry) → v' j ≡ some e → (v id ≡ none) × (¬ IsSpent t.swept e))

-- The entry of the ID is marked as acknowledged.
abbrev pub Marks : String → View → View → Type 0
Marks id v v' = (v' id ≡ mark_acked (v id)) × ((j : String) → id ≢ j → v' j ≡ v j)

-- The entries past their time go.
abbrev pub Sweeps : ℕ → View → View → Type 0
Sweeps now v v' = (j : String) → v' j ≡ (if passes (is_past now) (v j) then none else v j)

-- `F` says that the storage may fail; with `F` empty it never does.
module _ (F : Type 0) (v : View) where
  -- What a look at the ID gives.
  abbrev pub Sees : String → Result (Option StoredEntry) AnyError → Type 0
  Sees id x = (x ≡ ok (v id)) ⊎ (F × (e : AnyError) × (x ≡ err e))

  -- What a call may do to the entries, and answer.
  pub data Allows (v' : View) : Call → Answer → Type 0 where
    put :
        {t : Readings} {id : String} {msg : Message} {ttl : ℕ}
        → Puts t id msg ttl v v'
        → Allows v' (stores t id msg ttl) (outcome (ok stored))
    no_room :
        {t : Readings} {id : String} {msg : Message} {ttl : ℕ}
        → Overflows t id v v'
        → Allows v' (stores t id msg ttl) (outcome (ok store_full))
    put_failed :
        {t : Readings} {id : String} {msg : Message} {ttl : ℕ} {e : AnyError}
        → F
        → Sheds t.swept v v'
        → Allows v' (stores t id msg ttl) (outcome (err e))
    unfound :
        {t : Readings} {id : String} {x : Result (Option StoredEntry) AnyError}
        → Sees id x
        → unexpired t.checked x ≡ none
        → Same v v'
        → Allows v' (acks t id) (flag false)
    again :
        {t : Readings} {id : String} {x : Result (Option StoredEntry) AnyError} {e : StoredEntry}
        → Sees id x
        → unexpired t.checked x ≡ some e
        → e.acked ≡ true
        → Same v v'
        → Allows v' (acks t id) (flag true)
    marked :
        {t : Readings} {id : String} {x : Result (Option StoredEntry) AnyError} {e : StoredEntry}
        → Sees id x
        → unexpired t.checked x ≡ some e
        → e.acked ≡ false
        → Marks id v v'
        → Allows v' (acks t id) (flag true)
    mark_failed : {t : Readings} {id : String} → F → Same v v' → Allows v' (acks t id) (flag false)
    tells :
        {t : Readings} {id : String} {x : Result (Option StoredEntry) AnyError}
        → Sees id x
        → Same v v'
        → Allows v'
            (asks t id)
            (told (elim (unexpired t.checked x) [ none ↦ none | some e ↦ some e.acked ]))
    joins :
        {t : Readings} {id : String} {tx : ℕ} {x : Result (Option StoredEntry) AnyError}
        {e : StoredEntry}
        → Sees id x
        → unexpired t.checked x ≡ some e
        → Same v v'
        → Allows v' (subscribes t id tx) (channel (ok tx))
    crowded :
        {t : Readings} {id : String} {tx : ℕ} {x : Result (Option StoredEntry) AnyError}
        {e : StoredEntry}
        → Sees id x
        → unexpired t.checked x ≡ some e
        → e.acked ≡ false
        → Same v v'
        → Allows v' (subscribes t id tx) (channel (err SubscribeError.waiter_limit_reached))
    unknown :
        {t : Readings} {id : String} {tx : ℕ} {x : Result (Option StoredEntry) AnyError}
        → Sees id x
        → unexpired t.checked x ≡ none
        → Same v v'
        → Allows v' (subscribes t id tx) (channel (err SubscribeError.not_found))
    gives :
        {t : Readings} {id : String} {tx : ℕ} {x : Result (Option StoredEntry) AnyError}
        {msg : Message}
        → Sees id x
        → available t.checked x ≡ some msg
        → Same v v'
        → Allows v' (gets t id tx) (got (ok (message msg)))
    waits :
        {t : Readings} {id : String} {tx : ℕ} {x : Result (Option StoredEntry) AnyError}
        → Sees id x
        → available t.checked x ≡ none
        → Same v v'
        → Allows v' (gets t id tx) (got (ok (waiting tx)))
    turned_away :
        {t : Readings} {id : String} {tx : ℕ} {x : Result (Option StoredEntry) AnyError}
        → Sees id x
        → available t.checked x ≡ none
        → Same v v'
        → Allows v' (gets t id tx) (got (err SubscribeError.waiter_limit_reached))
    put_and_joined :
        {t t' : Readings} {id : String} {msg : Message} {ttl tx : ℕ}
        → Puts t id msg ttl v v'
        → Allows v' (links t t' id msg ttl tx) (linked (ok tx))
    put_and_lost :
        {t t' : Readings} {id : String} {msg : Message} {ttl tx : ℕ}
        → Puts t id msg ttl v v'
        → F ⊎ (expiry t.called ttl ≤ t'.checked)
        → Allows v' (links t t' id msg ttl tx) (linked (err StoreAndSubscribeError.not_found))
    link_crowded :
        {t t' : Readings} {id : String} {msg : Message} {ttl tx : ℕ}
        → Same v v'
        → Allows v'
            (links t t' id msg ttl tx)
            (linked (err StoreAndSubscribeError.waiter_limit_reached))
    link_no_room :
        {t t' : Readings} {id : String} {msg : Message} {ttl tx : ℕ}
        → Overflows t id v v'
        → Allows v' (links t t' id msg ttl tx) (linked (err StoreAndSubscribeError.store_full))
    link_failed :
        {t t' : Readings} {id : String} {msg : Message} {ttl tx : ℕ} {e : AnyError}
        → F
        → Sheds t.swept v v'
        → Allows v' (links t t' id msg ttl tx) (linked (err (storage e)))
    swept : {t : Readings} {n : ℕ} → Sweeps t.swept v v' → Allows v' (cleans t) (removed n)
    sweep_failed : {t : Readings} → F → Sheds t.swept v v' → Allows v' (cleans t) (removed 0)

-- The histories of calls and answers that lead from one view to another.
pub data Behaves (F : Type 0) : View → List (Call × Answer) → View → Type 0 where
  ends : {v v' : View} → Same v v' → Behaves F v [] v'
  follows :
      {v v' v'' : View} {call : Call} {a : Answer} {rest : List (Call × Answer)}
      → Allows F v v' call a
      → Behaves F v' rest v''
      → Behaves F v ((call, a) ∷ rest) v''
