-- ===== src/Tests/Starting.antt =====
-- The start of a relay, at an example: a system on which everything succeeds, whose world is the
-- list of the tasks that were spawned.
use http_relay.Base.{ℕ, String, List, [], ◌∷◌, refl, ok, bytes, ◌++◌}
use http_relay.Types.{Bytes}
use http_relay.Config.{default}
use http_relay.Memory
use http_relay.Memory.Contract.{memory_repository}
use http_relay.Server.Start.{System, Task, start, Outcome, start_cases}

abbrev friendly : System memory_repository
friendly = record {
  World = List (Task ℕ ℕ memory_repository);
  Listener = ℕ;
  Address = String;
  Server = ℕ;
  Handle = ℕ;
  Url = Bytes;
  bind = λ w address port. (w, ok port);
  set_nonblocking = λ w listener. (w, ok tt);
  local_addr = λ w listener. (w, ok "8080");
  from_tcp = λ w listener. (w, ok listener);
  handle = λ w. (w, 0);
  graceful_shutdown = λ w handle grace. w;
  stop = λ w handle. [];
  spawn = λ w task. task ∷ w;
  port = λ address. address;
  parse_url = λ text. text;
  push_segment = λ url segment. url ++ bytes "/" ++ bytes segment;
  tasks = λ w. w;
  tasks-bind = λ w a p. refl;
  tasks-set_nonblocking = λ w l. refl;
  tasks-local_addr = λ w l. refl;
  tasks-from_tcp = λ w l. refl;
  tasks-handle = λ w. refl;
  tasks-spawn = λ w task. refl;
}

start_cases_example :
    Outcome friendly
      (λ path limit. ok (Memory.new path limit))
      default
      []
      (start friendly (λ path limit. ok (Memory.new path limit)) default [])
start_cases_example = start_cases friendly (λ path limit. ok (Memory.new path limit)) default []
