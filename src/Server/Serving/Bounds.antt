-- ===== src/Server/Serving/Bounds.antt =====
-- The memory that the relay holds for messages, in every state that it reaches.
use native.Mathlib.Nat.{mul-le-mul_right}
use http_relay.Base.{
  ℕ, String, ◌≡◌, ◌≤◌, ◌+◌, ◌*◌, refl, sym, ap, subst, Bool, ◌∙◌, List, [], ◌∷◌, Option, none, some,
  ok, inl, inr, length, arith, str_dec, if_pos, if_neg, Option-cases,
}
use http_relay.Types.{Bytes}
use http_relay.Headers.{Headers}
use http_relay.Config.{Config}
use http_relay.ClientIp.{Net}
use http_relay.HashMap.{HashMap, IsDistinct, len, get}
use http_relay.Memory.{EntryRepository, Entry, stored_entry}
use http_relay.Memory
use http_relay.Memory.Insert.{max_entries-insert}
use http_relay.Memory.Contract.{
  memory_contract-find, view, memory_repository, memory_contract, IsValid-memory_contract,
  memory_contract-IsValid,
}
use http_relay.Repository.Strengthen.{IsKept, strengthened}
use http_relay.Repository.{Contract}
use http_relay.WaitingList.State.{WaitingList}
use http_relay.WaitingList.State
use http_relay.WaitingList.History.{run}
use http_relay.WaitingList.Traced.{IsTraced, IsGenuine}
use http_relay.WaitingList.Traced.History.{run-IsTraced}
use http_relay.Server.{AppState, new_state}
use http_relay.Server.Bounds.{HasBounds, new_state_bounded}
use http_relay.Server.Router.{Axum}
use http_relay.Server.Serving.{Relay, Reaches}
use http_relay.Server.Serving.Calls.{limits}
use http_relay.Server.Serving.Reach.{Reaches-Follows}

-- The bytes of the bodies that are kept.
abbrev pub body_bytes : Option Bytes → ℕ
body_bytes none = 0
body_bytes (some body) = length body

unfoldable pub stored_bytes : HashMap Entry → ℕ
stored_bytes [] = 0
stored_bytes ((id, e) ∷ m) = body_bytes e.message_body + stored_bytes m

-- The bytes of distinct entries whose bodies are each limited.
stored_bytes-le :
    (n : ℕ) (m : HashMap Entry)
    → IsDistinct m
    → ((id : String) (e : Entry) → get id m ≡ some e → body_bytes e.message_body ≤ n)
    → stored_bytes m ≤ len m * n
unfolding stored_bytes get
stored_bytes-le n [] d h = omega arith
stored_bytes-le n ((k, e) ∷ m) (new, d) h =
    omega (arith, h k e (if_pos (str_dec k k) refl _ _), stored_bytes-le n m d rest)
  where
    rest : (id : String) (x : Entry) → get id m ≡ some x → body_bytes x.message_body ≤ n
    rest id x q = h id x (if_neg (str_dec k id) (λ same. cc (same, q, new)) _ _ ∙ q)

max_entries-ack :
    (r : EntryRepository) (id : String) → (Memory.ack r id).0.max_entries ≡ r.max_entries
unfolding Memory.ack
max_entries-ack r id = elim (Option-cases (get id r.entries)) [
  | inl n ↦ rw (n, Memory.ack) refl
  | inr (e, q) ↦ rw (q, Memory.ack) refl
]

-- The number of entries that the repository takes does not change.
limit-IsKept : (max : ℕ) → IsKept memory_repository memory_contract (λ r. r.max_entries ≡ max)
unfolding Memory.insert Memory.get Memory.ack Memory.cleanup_expired
limit-IsKept max = record {
  by_get = λ r id v q. q;
  by_insert =
      λ r created now id body ct exp v q. max_entries-insert r created now id body ct exp ∙ q;
  by_ack = λ r id v q. max_entries-ack r id ∙ q;
  by_cleanup = λ r now v q. q;
}

module _ (config : Config) where
  abbrev max : ℕ
  max = config.max_entries

  abbrev limited : Contract memory_repository
  limited = strengthened memory_contract (λ r. r.max_entries ≡ max) (limit-IsKept max)

  -- What holds of a waiting list after calls whose messages fit.
  abbrev Bodied : WaitingList memory_repository → Type 0
  Bodied = IsTraced (limits config.max_body_size) limited

  abbrev created : WaitingList memory_repository
  created = State.new memory_repository (Memory.new config.persist_db config.max_entries)

  created-Bodied : Bodied created
  unfolding State.new Memory.new strengthened get
  created-Bodied = record {
    valid = (memory_contract-IsValid _ (record { distinct = tt; bounded = omega arith }), refl);
    named = tt;
    genuine =
        λ id. rw (memory_contract-find (Memory.new config.persist_db config.max_entries) id) tt;
    explained = tt;
  }

  body-le :
      (wl : WaitingList memory_repository) (id : String) (e : Entry)
      → Bodied wl
      → get id wl.repository.entries ≡ some e
      → body_bytes e.message_body ≤ config.max_body_size
  unfolding strengthened
  body-le wl id e v q =
      let g : IsGenuine (limits config.max_body_size) id (some (stored_entry e)) =
        subst (IsGenuine (limits config.max_body_size) id)
          (memory_contract-find wl.repository id ∙ ap view q) (v.genuine id) in
      elim (Option-cases e.message_body) [
        | inl n ↦ rw n (omega arith)
        | inr (body, s) ↦ rw s (g.1 body s)
      ]

  Bodied-stored :
      (wl : WaitingList memory_repository)
      → Bodied wl
      → stored_bytes wl.repository.entries ≤ max * config.max_body_size
  unfolding strengthened
  Bodied-stored wl v =
      let valid = IsValid-memory_contract wl.repository v.valid.0 in
      let few : len wl.repository.entries ≤ max =
        subst (λ n. len wl.repository.entries ≤ n) v.valid.1 valid.bounded in
      omega (
        arith,
        stored_bytes-le config.max_body_size wl.repository.entries valid.distinct
            (λ id e. body-le wl id e v),
        mul-le-mul_right config.max_body_size few,
      )

new_state-pending :
    (config : Config) (state : AppState memory_repository)
    → new_state (λ path limit. ok (Memory.new path limit)) config ≡ ok state
    → created config ≡ state.pending_list
unfolding new_state
new_state-pending config state q = ap (λ s. s.pending_list) same
  where
    fresh : AppState memory_repository
    fresh = record { config = config; pending_list = created config }

    same : fresh ≡ state
    same = cc q

module _ (h : Headers) (net : Net) (axum : Axum h net) (config : Config)
    (networks : List net.Network) (link_compat : Bool) where
  -- From a relay that starts with in-memory storage, whatever requests arrive and however their
  -- handlers interleave with each other and with the cleanup, the relay reaches only states in which
  -- at most `max_entries` IDs have waiters, at most twenty times as many senders are held, the
  -- repository is within its limit, and the bodies that it keeps have together at most
  -- `max_entries` times `max_body_size` bytes, if axum honours the limit on bodies.
  pub relay_bounded :
      (state : AppState memory_repository) (s s' : Relay h memory_repository)
      → new_state (λ path limit. ok (Memory.new path limit)) config ≡ ok state
      → s.pending_list ≡ state.pending_list
      → Reaches h memory_repository config net axum networks link_compat s s'
      → HasBounds config.max_entries s'.pending_list
        × (stored_bytes s'.pending_list.repository.entries
            ≤ config.max_entries * config.max_body_size)
  relay_bounded state s s' started same reached =
      let (calls, q, fits) =
        Reaches-Follows h net axum config networks link_compat memory_repository s s' reached in
      let q' : s'.pending_list ≡ run state.pending_list calls = q ∙ ap (λ w. run w calls) same in
      let stored : Bodied config (run state.pending_list calls) =
        run-IsTraced (limits config.max_body_size) (limited config) state.pending_list calls
          (subst (Bodied config) (new_state-pending config state started) (created-Bodied config))
          fits in
      (
        subst (HasBounds config.max_entries) (sym q')
            (new_state_bounded config state calls started),
        Bodied-stored config s'.pending_list (subst (Bodied config) (sym q') stored),
      )
