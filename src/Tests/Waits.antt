-- ===== src/Tests/Waits.antt =====
-- The theorems on the waiting list, at examples.
use http_relay.Base.{
  String, ◌≡◌, ◌≤◌, ◌<◌, ◌*◌, ◌++◌, refl, true, false, List, [], ◌∷◌, none, ok, err, arith,
  ne_of_test, str_dec, ite, if◌then◌else◌, All, retain,
}
use http_relay.Types.{stored, expiry, StoredEntry}
use http_relay.HashMap.{HashMap, get}
use http_relay.HashMap
use http_relay.Waiters.{
  max_waiters_per_entry, add_ack_waiter, add_message_waiter, remove_closed_senders, delivered,
}
use http_relay.Waiters
use http_relay.Memory.{make_room}
use http_relay.Memory
use http_relay.Memory.Contract.{memory_repository, memory_contract, memory_contract-IsValid}
use http_relay.WaitingList.State.{
  WaitingList, SubscribeError, StoreAndSubscribeError, is_store_full, or_new, message,
}
use http_relay.WaitingList.State
use http_relay.WaitingList.Methods.{
  store, ack, get_or_subscribe, store_and_subscribe_ack, notify_message_waiters, wait_for_message,
}
use http_relay.WaitingList.Capacity.{ensure_waiter_capacity, remove_closed_waiters, waiters_for}
use http_relay.WaitingList.Limits.{IsLimited, IsWithin}
use http_relay.WaitingList.Invariant.{Inv, store-Inv, get_or_subscribe-Inv}
use http_relay.WaitingList.History.{Call, stores, asks, cleans, run, senders, new-Inv, run_bounded}
use http_relay.WaitingList.Store.{delivery, store_notifies, result}
use http_relay.WaitingList.Ack.{Acknowledges, ack_true, ack_false}
use http_relay.WaitingList.Survival.{Spares, delivered_after}
use http_relay.WaitingList.Subscribe.{store_and_subscribe_ack_limit}
use http_relay.Config.{default}
use http_relay.Server.{AppState, new_state}
use http_relay.Server.Bounds.{HasBounds, new_state_bounded}
use http_relay.Base.{some}
use http_relay.Repository.{new_entry}
use http_relay.WaitingList.Store.{store-find}
use http_relay.WaitingList.Await.{subscribe_ack_told}
use http_relay.WaitingList.Methods.{subscribe_ack, wait_for_ack}
use http_relay.WaitingList.Capacity.{waiters_for}
use http_relay.Waiters.{Signal, acknowledged, add_ack_waiter}
use http_relay.Memory.Contract.{memory_reliable}
use http_relay.Types.{StoredEntry, expiry}
use http_relay.Tests.{at, hello, minute, empty_store, empty_list}

pub empty_store-IsValid : memory_contract.IsValid empty_store
unfolding Memory.new
empty_store-IsValid =
    memory_contract-IsValid empty_store (record { distinct = tt; bounded = omega arith })

pub empty_list-Inv : Inv memory_contract 2 empty_list
unfolding Memory.new
empty_list-Inv = new-Inv memory_contract empty_store empty_store-IsValid

accepted : (store empty_list (at 1000) "a" hello minute).1 ≡ ok stored
unfolding store Memory.insert Memory.new make_room get HashMap.insert str_dec State.new
accepted = refl

-- Somebody else's message, a request for the ACK, and a cleanup.
abbrev between : List Call
between = stores (at 2000) "b" hello minute ∷ asks (at 3000) "a" ∷ cleans (at 4000) ∷ []

spared : All (Spares "a" (expiry 1000 minute)) between
unfolding expiry
spared = ((ne_of_test "b" "a" refl, omega arith), (tt, (omega arith, tt)))

early : 50000 < expiry 1000 minute
unfolding expiry
early = omega arith

delivered_after_example :
    (get_or_subscribe
      (run (store empty_list (at 1000) "a" hello minute).0 between)
      (at 50000)
      "a"
      7).1
    ≡ ok (message hello)
unfolding Memory.get
delivered_after_example =
    delivered_after memory_contract 2 empty_list (at 1000) "a" hello minute between (at 50000) 7 _
      empty_list-Inv accepted spared early refl

run_bounded_example :
    IsLimited 2 (run empty_list between).waiters
    × (senders (run empty_list between).waiters ≤ 2 * max_waiters_per_entry * 2)
unfolding Memory.new
run_bounded_example = run_bounded memory_contract empty_store empty_store-IsValid between

-- A consumer waits on channel 1, and the store then serves it.
abbrev waiting_list : WaitingList memory_repository
waiting_list = (get_or_subscribe empty_list (at 1000) "a" 1).0

store_notifies_example :
    ((store waiting_list (at 2000) "a" hello minute).0.signals
      ≡ waiting_list.signals
        ++ (if is_store_full (result waiting_list (at 2000) "a" hello minute)
            then []
            else delivery hello (or_new (get "a" waiting_list.waiters))))
    × ((j : String)
        → get j (store waiting_list (at 2000) "a" hello minute).0.waiters ≡ (
            if is_store_full (result waiting_list (at 2000) "a" hello minute)
            then get j waiting_list.waiters
            else ite (str_dec "a" j) none (get j waiting_list.waiters)))
store_notifies_example = store_notifies waiting_list (at 2000) "a" hello minute

-- The same run: the message is delivered on the channel.
served_first : (store waiting_list (at 2000) "a" hello minute).0.signals ≡ delivered 1 hello ∷ []
unfolding store Memory.insert Memory.get Memory.new make_room get HashMap.insert HashMap.remove
    str_dec State.new get_or_subscribe wait_for_message waiters_for ensure_waiter_capacity
    add_message_waiter retain notify_message_waiters Waiters.notify_message_waiters
served_first = refl

-- A message that is stored, and then acknowledged.
abbrev holding : WaitingList memory_repository
holding = (store empty_list (at 1000) "a" hello minute).0

holding-Inv : Inv memory_contract 2 holding
holding-Inv = store-Inv memory_contract 2 empty_list (at 1000) "a" hello minute empty_list-Inv

found : (ack holding (at 2000) "a").1 ≡ true
unfolding store ack Memory.ack Memory.insert Memory.get Memory.new make_room get HashMap.insert
    str_dec State.new notify_message_waiters expiry
found = refl

ack_true_example :
    (e : StoredEntry) × Acknowledges memory_contract holding
      (at 2000)
      "a"
      holding-Inv.valid
      e
      (ack holding (at 2000) "a")
ack_true_example = ack_true memory_contract holding (at 2000) "a" holding-Inv.valid found

missing : (ack holding (at 2000) "b").1 ≡ false
unfolding store ack Memory.ack Memory.insert Memory.get Memory.new make_room get HashMap.insert
    str_dec State.new notify_message_waiters expiry
missing = refl

ack_false_example :
    ((ack holding (at 2000) "b").0.signals ≡ holding.signals)
    × ((j : String)
        → memory_contract.find (ack holding (at 2000) "b").0.repository j
          ≡ memory_contract.find holding.repository j)
ack_false_example = ack_false memory_contract holding (at 2000) "b" holding-Inv.valid missing

-- Two consumers wait for other IDs, so a producer finds no room.
abbrev crowded : WaitingList memory_repository
crowded = (get_or_subscribe (get_or_subscribe empty_list (at 1000) "a" 1).0 (at 1000) "b" 2).0

crowded-Inv : Inv memory_contract 2 crowded
crowded-Inv =
    get_or_subscribe-Inv memory_contract 2 _ (at 1000) "b"
      (get_or_subscribe-Inv memory_contract 2 empty_list (at 1000) "a" empty_list-Inv 1) 2

crowded-IsWithin : IsWithin crowded
unfolding get_or_subscribe Memory.get Memory.new get HashMap.insert str_dec State.new
    wait_for_message waiters_for ensure_waiter_capacity add_message_waiter retain
crowded-IsWithin = crowded-Inv.within

turned_away :
    (store_and_subscribe_ack crowded (at 2000) (at 2000) "c" hello minute 3).1
    ≡ err StoreAndSubscribeError.waiter_limit_reached
unfolding store_and_subscribe_ack get_or_subscribe Memory.get Memory.new get HashMap.insert
    HashMap.retain_mut str_dec State.new wait_for_message waiters_for ensure_waiter_capacity
    remove_closed_waiters remove_closed_senders add_message_waiter retain
turned_away = refl

store_and_subscribe_ack_limit_example :
    (store_and_subscribe_ack crowded (at 2000) (at 2000) "c" hello minute 3).0.repository
    ≡ crowded.repository
store_and_subscribe_ack_limit_example =
    store_and_subscribe_ack_limit (at 2000) (at 2000) "c" hello minute 3 crowded crowded-IsWithin
      turned_away

abbrev relay : AppState memory_repository
relay = record {
  config = default;
  pending_list = State.new memory_repository (Memory.new default.persist_db default.max_entries);
}

new_state_bounded_example : HasBounds default.max_entries (run relay.pending_list between)
unfolding new_state
new_state_bounded_example = new_state_bounded default relay between refl

abbrev held_entry : StoredEntry
held_entry = new_entry hello.body hello.content_type (expiry 1000 minute)

held : memory_contract.find holding.repository "a" ≡ some held_entry
held =
    store-find empty_list (at 1000) "a" hello minute memory_contract empty_list-Inv.valid accepted

subscribed : (subscribe_ack holding (at 2000) "a" 5).1 ≡ ok 5
unfolding subscribe_ack wait_for_ack waiters_for ensure_waiter_capacity add_ack_waiter retain store
    Memory.insert Memory.get Memory.new make_room get HashMap.insert str_dec State.new
    notify_message_waiters expiry
subscribed = refl

soon : 3000 < expiry 1000 minute
unfolding expiry
soon = omega arith

subscribe_ack_told_example :
    ((ack (subscribe_ack holding (at 2000) "a" 5).0 (at 3000) "a").1 ≡ true)
    × (before : List Signal) × ((ack
          (subscribe_ack holding (at 2000) "a" 5).0
          (at 3000)
          "a").0.signals
        ≡ before ++ (acknowledged 5 ∷ []))
subscribe_ack_told_example =
    subscribe_ack_told memory_contract 2 holding (at 2000) (at 3000) "a" 5 5 held_entry
      memory_reliable holding-Inv held refl subscribed soon
