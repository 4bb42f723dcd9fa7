-- ===== src/WaitingList/Traced/History.antt =====
-- Where signals and answers come from in a history of calls on a new waiting list, whose repository
-- may hold entries from an earlier run of the program.
use http_relay.Base.{
  ℕ, String, ◌≡◌, refl, true, inl, inr, ◌⊎◌, List, [], ◌∷◌, Option, none, some, All, Any, here,
  there, Option-cases, ok,
}
use http_relay.Types.{Message, StoredEntry}
use http_relay.Repository.{Repository, Contract}
use http_relay.WaitingList.State.{WaitingList, Readings, message, new}
use http_relay.WaitingList.Methods.{get_or_subscribe, is_acked}
use http_relay.WaitingList.History.{
  Call, stores, acks, asks, subscribes, links, gets, cleans, step, run,
}
use http_relay.WaitingList.Traced.{Facts, IsExplained, IsTraced, IsGenuine}
use http_relay.WaitingList.Traced.Subscribe.{subscribe_ack-IsTraced, get_or_subscribe-IsTraced}
use http_relay.WaitingList.Traced.Answers.{get-Posted, is_acked-Acked}
use http_relay.WaitingList.Traced.Store.{
  store-IsTraced, ack-IsTraced, is_acked-IsTraced, store_and_subscribe_ack-IsTraced,
  cleanup_expired-IsTraced,
}

-- The ID whose message the call wants, and the channel that it opens for it.
abbrev pub asked : Call → Option (String × ℕ)
asked (stores t id msg ttl) = none
asked (acks t id) = none
asked (asks t id) = none
asked (subscribes t id tx) = none
asked (links t t' id msg ttl tx) = none
asked (gets t id tx) = some (id, tx)
asked (cleans t) = none

-- The ID whose ACK the call awaits, and the channel that it opens for it.
abbrev pub awaited : Call → Option (String × ℕ)
awaited (stores t id msg ttl) = none
awaited (acks t id) = none
awaited (asks t id) = none
awaited (subscribes t id tx) = some (id, tx)
awaited (links t t' id msg ttl tx) = some (id, tx)
awaited (gets t id tx) = none
awaited (cleans t) = none

-- The ID to which the call posts, and the message.
abbrev pub posted : Call → Option (String × Message)
posted (stores t id msg ttl) = some (id, msg)
posted (acks t id) = none
posted (asks t id) = none
posted (subscribes t id tx) = none
posted (links t t' id msg ttl tx) = some (id, msg)
posted (gets t id tx) = none
posted (cleans t) = none

-- The ID that the call acknowledges.
abbrev pub acknowledged : Call → Option String
acknowledged (stores t id msg ttl) = none
acknowledged (acks t id) = some id
acknowledged (asks t id) = none
acknowledged (subscribes t id tx) = none
acknowledged (links t t' id msg ttl tx) = none
acknowledged (gets t id tx) = none
acknowledged (cleans t) = none

-- The entry holds the message.
abbrev pub Keeps : Message → StoredEntry → Type 0
Keeps msg e = (e.message_body ≡ some msg.body) × (e.content_type ≡ msg.content_type)

-- What the facts say of a call.
abbrev pub Known : Facts → Call → Type 0
Known f (stores t id msg ttl) = f.Posted id msg
Known f (acks t id) = f.Acked id
Known f (asks t id) = Unit
Known f (subscribes t id tx) = f.Awaited id tx
Known f (links t t' id msg ttl tx) = f.Posted id msg × f.Awaited id tx
Known f (gets t id tx) = f.Asked id tx
Known f (cleans t) = Unit

module _ (f : Facts) {b : Repository} (c : Contract b) where
  step-IsTraced :
      (wl : WaitingList b) (call : Call)
      → IsTraced f c wl
      → Known f call
      → IsTraced f c (step wl call)
  unfolding step
  step-IsTraced wl (stores t id msg ttl) v k = store-IsTraced f c wl t id msg ttl v k
  step-IsTraced wl (acks t id) v k = ack-IsTraced f c wl t id v k
  step-IsTraced wl (asks t id) v k = is_acked-IsTraced f c wl t id v
  step-IsTraced wl (subscribes t id tx) v k = subscribe_ack-IsTraced f c wl t id v tx k
  step-IsTraced wl (links t t' id msg ttl tx) v k =
      store_and_subscribe_ack-IsTraced f c wl t t' id msg ttl tx v k.0 k.1
  step-IsTraced wl (gets t id tx) v k = get_or_subscribe-IsTraced f c wl t id v tx k
  step-IsTraced wl (cleans t) v k = cleanup_expired-IsTraced f c wl t v

  pub run-IsTraced :
      (wl : WaitingList b) (calls : List Call)
      → IsTraced f c wl
      → All (Known f) calls
      → IsTraced f c (run wl calls)
  unfolding run
  run-IsTraced wl [] v k = v
  run-IsTraced wl (call ∷ calls) v k =
      run-IsTraced (step wl call) calls (step-IsTraced wl call v k.0) k.1

module _ (find : String → Option StoredEntry) where
  -- What a history of calls tells, on a repository that held the entries before.
  abbrev pub history : List Call → Facts
  history calls = record {
    Asked = λ id tx. Any (λ call. asked call ≡ some (id, tx)) calls;
    Awaited = λ id tx. Any (λ call. awaited call ≡ some (id, tx)) calls;
    Posted = λ id msg.
        Any (λ call. posted call ≡ some (id, msg)) calls
        ⊎ ((e : StoredEntry) × (find id ≡ some e) × Keeps msg e);
    Acked = λ id.
        Any (λ call. acknowledged call ≡ some id) calls
        ⊎ ((e : StoredEntry) × (find id ≡ some e) × (e.acked ≡ true));
  }

  later :
      {A : Type 0} (P : Call → Type 0) (call : Call) (calls : List Call)
      → Any P calls ⊎ A
      → Any P (call ∷ calls) ⊎ A
  later P call calls (inl a) = inl (there a)
  later P call calls (inr a) = inr a

  Known-later :
      (call : Call) (calls : List Call) (x : Call)
      → Known (history calls) x
      → Known (history (call ∷ calls)) x
  Known-later call calls (stores t id msg ttl) k =
      later (λ x. posted x ≡ some (id, msg)) call calls k
  Known-later call calls (acks t id) k = later (λ x. acknowledged x ≡ some id) call calls k
  Known-later call calls (asks t id) k = tt
  Known-later call calls (subscribes t id tx) k = there k
  Known-later call calls (links t t' id msg ttl tx) k =
      (later (λ x. posted x ≡ some (id, msg)) call calls k.0, there k.1)
  Known-later call calls (gets t id tx) k = there k
  Known-later call calls (cleans t) k = tt

  Known-first : (x : Call) (calls : List Call) → Known (history (x ∷ calls)) x
  Known-first (stores t id msg ttl) calls = inl (here refl)
  Known-first (acks t id) calls = inl (here refl)
  Known-first (asks t id) calls = tt
  Known-first (subscribes t id tx) calls = here refl
  Known-first (links t t' id msg ttl tx) calls = (inl (here refl), here refl)
  Known-first (gets t id tx) calls = here refl
  Known-first (cleans t) calls = tt

  All-Known-later :
      (call : Call) (calls xs : List Call)
      → All (Known (history calls)) xs
      → All (Known (history (call ∷ calls))) xs
  All-Known-later call calls [] a = tt
  All-Known-later call calls (x ∷ xs) a =
      (Known-later call calls x a.0, All-Known-later call calls xs a.1)

  history-Known : (calls : List Call) → All (Known (history calls)) calls
  history-Known [] = tt
  history-Known (call ∷ calls) =
      (Known-first call calls, All-Known-later call calls calls (history-Known calls))

  entry-IsGenuine : (calls : List Call) (id : String) → IsGenuine (history calls) id (find id)
  entry-IsGenuine calls id = elim (Option-cases (find id)) [
    | inl n ↦ rw n tt
    | inr (e, s) ↦ rw s ((λ h. inr (e, s, h)), λ body q. inr (e, s, (q, refl)))
  ]

module _ {b : Repository} (c : Contract b) (r : b.State) (valid : c.IsValid r)
    (calls : List Call) where
  traced : IsTraced (history (c.find r) calls) c (run (new b r) calls)
  unfolding new
  traced =
      run-IsTraced (history (c.find r) calls) c (new b r) calls
        (record {
          valid = valid;
          named = tt;
          genuine = entry-IsGenuine (c.find r) calls;
          explained = tt;
        })
        (history-Known (c.find r) calls)

  -- After any history of calls on a new waiting list over a valid repository, every signal has its
  -- cause in that history. A message was delivered only on a channel that a `get_or_subscribe`
  -- opened for some ID to which that very message was posted, or under which the repository held
  -- it at the start. A channel was told of an ACK only if it was opened to await the ACK of some ID
  -- that was acknowledged, or whose entry was acknowledged at the start.
  pub run-IsExplained : All (IsExplained (history (c.find r) calls)) (run (new b r) calls).signals
  run-IsExplained = traced.explained

  module _ (t : Readings) (id : String) where
    -- After any history of calls on a new waiting list over a valid repository, the message that
    -- `get_or_subscribe` returns at once was posted to that ID in that history, with that content
    -- type, or the repository held it under that ID at the start.
    pub get_genuine :
        (tx : ℕ) (msg : Message)
        → (get_or_subscribe (run (new b r) calls) t id tx).1 ≡ ok (message msg)
        → (history (c.find r) calls).Posted id msg
    get_genuine = get-Posted (history (c.find r) calls) c (run (new b r) calls) t id traced

    -- After any history of calls on a new waiting list over a valid repository, an ID of which
    -- `is_acked` says that it is acknowledged was so by an `ack` of that history, or its entry was
    -- acknowledged at the start.
    pub is_acked_genuine :
        (is_acked (run (new b r) calls) t id).1 ≡ some true → (history (c.find r) calls).Acked id
    is_acked_genuine = is_acked-Acked (history (c.find r) calls) c (run (new b r) calls) t id traced
