-- ===== src/WaitingList/Mailbox/Store.antt =====
-- A `store`, as the abstract mailbox sees it.
use http_relay.Base.{
  ℕ, String, ◌≡◌, ◌≢◌, refl, sym, ap, subst, ◌∙◌, inl, inr, Option, Result, ok, err, AnyError,
  Result-cases,
}
use http_relay.Types.{Bytes, Message, InsertOutcome, stored, store_full, expiry}
use http_relay.Repository.{Repository, Contract, Outlives}
use http_relay.WaitingList.State.{WaitingList, Readings}
use http_relay.WaitingList.Methods.{store}
use http_relay.WaitingList.Store.{store-repository}
use http_relay.WaitingList.History.{stores}
use http_relay.WaitingList.Mailbox.{
  View, Sheds, Puts, Overflows, Allows, put, no_room, put_failed, outcome,
}

-- `F` holds where an operation of the repository fails.
pub record FailsOnly (F : Type 0) (b : Repository) : Type 0 where
  pub insert_fails :
      (r : b.State) (created now : ℕ) (id : String) (body : Bytes) (ct : Option String) (exp : ℕ)
      (e : AnyError)
      → (b.insert r created now id body ct exp).1 ≡ err e
      → F
  pub get_fails : (r : b.State) (id : String) (e : AnyError) → (b.get r id).1 ≡ err e → F
  pub ack_fails : (r : b.State) (id : String) (e : AnyError) → (b.ack r id).1 ≡ err e → F
  pub cleanup_fails :
      (r : b.State) (now : ℕ) (e : AnyError) → (b.cleanup_expired r now).1 ≡ err e → F

-- The entries that a waiting list holds.
abbrev pub view : {b : Repository} → Contract b → WaitingList b → View
view c wl j = c.find wl.repository j

module _ {b : Repository} (c : Contract b) (wl : WaitingList b) (t : Readings) (id : String)
    (msg : Message) (ttl : ℕ) (valid : c.IsValid wl.repository) where
  abbrev inserted : b.State × Result InsertOutcome AnyError
  inserted =
      b.insert wl.repository t.created t.swept id msg.body msg.content_type (expiry t.called ttl)

  store-view : (j : String) → view c (store wl t id msg ttl).0 j ≡ c.find inserted.0 j
  store-view j = ap (λ r. c.find r j) (store-repository wl t id msg ttl)

  pub store-result : (store wl t id msg ttl).1 ≡ inserted.1
  unfolding store
  store-result = refl

  pub store-Puts :
      (store wl t id msg ttl).1 ≡ ok stored
      → Puts t id msg ttl (view c wl) (view c (store wl t id msg ttl).0)
  store-Puts q = (
    store-view id
        ∙ c.insert_stored wl.repository t.created t.swept id msg.body msg.content_type
            (expiry t.called ttl) valid (sym store-result ∙ q),
    λ j n. subst (Outlives t.swept (view c wl j)) (sym (store-view j)) (
        c.insert_other wl.repository t.created t.swept id msg.body msg.content_type
          (expiry t.called ttl) j valid (inl n)),
  )

  pub store-Sheds :
      (store wl t id msg ttl).1 ≢ ok stored
      → Sheds t.swept (view c wl) (view c (store wl t id msg ttl).0)
  store-Sheds n j = subst (Outlives t.swept (view c wl j)) (sym (store-view j)) (
      c.insert_other wl.repository t.created t.swept id msg.body msg.content_type
        (expiry t.called ttl) j valid (inr (λ q. n (store-result ∙ q))))

  pub store-Overflows :
      (store wl t id msg ttl).1 ≡ ok store_full
      → Overflows t id (view c wl) (view c (store wl t id msg ttl).0)
  store-Overflows q = (
    store-Sheds (λ s. cc),
    λ j e held.
        c.insert_full wl.repository t.created t.swept id msg.body msg.content_type
          (expiry t.called ttl) j e valid (sym store-result ∙ q) (sym (store-view j) ∙ held),
  )

  pub store_allowed :
      (F : Type 0)
      → FailsOnly F b
      → Allows F
          (view c wl)
          (view c (store wl t id msg ttl).0)
          (stores t id msg ttl)
          (outcome (store wl t id msg ttl).1)
  store_allowed F faults = elim (Result-cases (store wl t id msg ttl).1) [
    | inl (stored, q) ↦ rw q (put (store-Puts q))
    | inl (InsertOutcome.store_full, q) ↦ rw q (no_room (store-Overflows q))
    | inr (e, q) ↦ rw q (
        put_failed (faults.insert_fails _ _ _ _ _ _ _ e (sym store-result ∙ q))
          (store-Sheds (λ s. cc)))
  ]
