-- ===== src/Tests/Traces.antt =====
-- The theorems on histories of calls, at an example.
use http_relay.Base.{
  ◌+◌, ◌≤◌, ◌≡◌, refl, true, List, [], ◌∷◌, ok, some, All, Any, here, there, retain, str_dec, arith,
}
use http_relay.Types.{expiry}
use http_relay.HashMap.{get}
use http_relay.HashMap
use http_relay.Waiters.{delivered, acknowledged, add_ack_waiter, add_message_waiter}
use http_relay.Waiters
use http_relay.Memory.{make_room}
use http_relay.Memory
use http_relay.Memory.Contract.{memory_repository, memory_contract, memory_reliable}
use http_relay.WaitingList.State.{message, new}
use http_relay.WaitingList.Methods.{
  store, ack, is_acked, subscribe_ack, get_or_subscribe, notify_message_waiters, notify_ack_waiters,
  wait_for_ack, wait_for_message,
}
use http_relay.WaitingList.Capacity.{ensure_waiter_capacity, waiters_for}
use http_relay.WaitingList.History.{Call, stores, acks, subscribes, gets, step, run}
use http_relay.WaitingList.Mailbox.{Behaves, answers}
use http_relay.WaitingList.Mailbox.Store.{FailsOnly}
use http_relay.WaitingList.Mailbox.Refines.{run_refines}
use http_relay.WaitingList.Traced.{IsExplained}
use http_relay.WaitingList.Traced.History.{history, run-IsExplained, get_genuine, is_acked_genuine}
use http_relay.WaitingList.Traced.Channels.{IsFresh, delivered_own, acknowledged_own}
use http_relay.WaitingList.Senders.{held, sent}
use http_relay.WaitingList.Senders.History.{run_uses_once, run_loses_none}
use http_relay.Tests.{at, hello, minute, empty_store, empty_list}
use http_relay.Tests.Waits.{empty_store-IsValid, empty_list-Inv}

-- A consumer waits, a producer posts and awaits the ACK, and the consumer acknowledges.
abbrev exchange : List Call
exchange =
    gets (at 1000) "a" 1
    ∷ stores (at 2000) "a" hello minute
    ∷ subscribes (at 3000) "a" 2
    ∷ acks (at 4000) "a"
    ∷ []

run-IsExplained_example :
    All
      (IsExplained (history (memory_contract.find empty_store) exchange))
      (run (new memory_repository empty_store) exchange).signals
run-IsExplained_example = run-IsExplained memory_contract empty_store empty_store-IsValid exchange

abbrev posted : List Call
posted = gets (at 1000) "b" 1 ∷ stores (at 2000) "a" hello minute ∷ []

handed :
    (get_or_subscribe (run (new memory_repository empty_store) posted) (at 3000) "a" 2).1
    ≡ ok (message hello)
unfolding store Memory.insert Memory.get Memory.new make_room get HashMap.insert HashMap.remove
    str_dec new get_or_subscribe wait_for_message waiters_for ensure_waiter_capacity
    add_message_waiter retain notify_message_waiters Waiters.notify_message_waiters expiry step run
handed = refl

get_genuine_example : (history (memory_contract.find empty_store) posted).Posted "a" hello
get_genuine_example =
    get_genuine memory_contract empty_store empty_store-IsValid posted (at 3000) "a" 2 hello handed

told_so : (is_acked (run (new memory_repository empty_store) exchange) (at 5000) "a").1 ≡ some true
unfolding store Memory.insert Memory.get Memory.new make_room get HashMap.insert HashMap.remove
    str_dec new get_or_subscribe wait_for_message waiters_for ensure_waiter_capacity
    add_message_waiter retain notify_message_waiters Waiters.notify_message_waiters expiry step run
    is_acked subscribe_ack wait_for_ack add_ack_waiter ack Memory.ack notify_ack_waiters
    Waiters.notify_ack_waiters
told_so = refl

is_acked_genuine_example : (history (memory_contract.find empty_store) exchange).Acked "a"
is_acked_genuine_example =
    is_acked_genuine memory_contract empty_store empty_store-IsValid exchange (at 5000) "a" told_so

exchange-IsFresh : IsFresh exchange
exchange-IsFresh = (
  ((λ tx p q. cc), ((λ tx p q. cc), ((λ tx p q. cc), tt))),
  (((λ tx p q. cc), ((λ tx p q. cc), tt)), (((λ tx p q. cc), tt), (tt, tt))),
)

heard_message :
    Any (λ s. s ≡ delivered 1 hello) (run (new memory_repository empty_store) exchange).signals
unfolding store Memory.insert Memory.get Memory.new make_room get HashMap.insert HashMap.remove
    str_dec new get_or_subscribe wait_for_message waiters_for ensure_waiter_capacity
    add_message_waiter retain notify_message_waiters Waiters.notify_message_waiters expiry step run
    is_acked subscribe_ack wait_for_ack add_ack_waiter ack Memory.ack notify_ack_waiters
    Waiters.notify_ack_waiters
heard_message = here refl

delivered_own_example : (history (memory_contract.find empty_store) exchange).Posted "a" hello
delivered_own_example =
    delivered_own memory_contract empty_store empty_store-IsValid exchange exchange-IsFresh "a" 1
      hello (here refl) heard_message

heard_ack : Any (λ s. s ≡ acknowledged 2) (run (new memory_repository empty_store) exchange).signals
unfolding store Memory.insert Memory.get Memory.new make_room get HashMap.insert HashMap.remove
    str_dec new get_or_subscribe wait_for_message waiters_for ensure_waiter_capacity
    add_message_waiter retain notify_message_waiters Waiters.notify_message_waiters expiry step run
    is_acked subscribe_ack wait_for_ack add_ack_waiter ack Memory.ack notify_ack_waiters
    Waiters.notify_ack_waiters
heard_ack = there (here refl)

acknowledged_own_example : (history (memory_contract.find empty_store) exchange).Acked "a"
acknowledged_own_example =
    acknowledged_own memory_contract empty_store empty_store-IsValid exchange exchange-IsFresh "a" 2
      (there (there (here refl))) heard_ack

-- Storage in memory never fails.
memory-FailsOnly : FailsOnly ⊥ memory_repository
unfolding Memory.insert Memory.get Memory.ack Memory.cleanup_expired
memory-FailsOnly = record {
  insert_fails = λ r created now id body ct exp e q. ground (arith, q);
  get_fails = λ r id e q. cc;
  ack_fails = λ r id e q. cc (memory_reliable.writes r id).1;
  cleanup_fails = λ r now e q. cc;
}

run_refines_example :
    Behaves ⊥
      (memory_contract.find empty_store)
      (answers (new memory_repository empty_store) exchange)
      (memory_contract.find (run (new memory_repository empty_store) exchange).repository)
run_refines_example =
    run_refines ⊥ memory_contract memory-FailsOnly empty_store exchange empty_store-IsValid

run_uses_once_example :
    held 1 (run (new memory_repository empty_store) exchange).waiters
      + sent 1 (run (new memory_repository empty_store) exchange).signals
    ≤ 1
run_uses_once_example =
    run_uses_once memory_contract empty_store exchange 1 empty_store-IsValid exchange-IsFresh

run_loses_none_example :
    held 2 empty_list.waiters + sent 2 empty_list.signals
    ≤ held 2 (run empty_list exchange).waiters + sent 2 (run empty_list exchange).signals
run_loses_none_example = run_loses_none memory_contract 2 2 empty_list exchange empty_list-Inv
