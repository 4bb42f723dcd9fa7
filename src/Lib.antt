-- ===== src/Lib.antt =====
-- The HTTP relay: a server through which a producer leaves a message under an ID, and a consumer
-- fetches and acknowledges it, each of them waiting for the other if need be.
--
-- A request passes `identify_client` (src/http_relay/client_ip.rs) and reaches a handler of the
-- inbox (src/http_relay/inbox_handler.rs) or of the deprecated links
-- (src/http_relay/link_handler.rs). A handler locks the one `WaitingList`
-- (src/http_relay/waiting_list.rs), which keeps the messages in a repository
-- (src/http_relay/storage_memory.rs, or SQLite in src/http_relay/persistence.rs) and the channels of
-- the requests that wait in a bounded map.
--
-- Which file models what:
--   Types, Config    the shared records, the clocks and the configuration with its defaults
--   HashMap          `std::collections::HashMap` as an association list, with its laws
--   Repository       the operations of a repository, and the contract that the waiting list needs
--   Memory           src/http_relay/storage_memory.rs, with its contract
--   Persistence      src/http_relay/persistence.rs over a database parameter, likewise
--   Waiters          the `Waiters` of one ID
--   WaitingList      the `WaitingList`: State and its parts, Capacity (room for waiters), Methods;
--                    History (calls in sequence), Traced (what causes signals and entries) and
--                    Mailbox (an abstract mailbox, without waiters and storage)
--   Status, Headers, Response, Requests     responses, and what the handlers share
--   Inbox, Link      the handlers, each cut at its `await`; Protocol, Acknowledged and Handoff
--                    (a producer and a consumer that take turns)
--   Server           `AppState`, the setters of `HttpRelayBuilder`, `log_level` of src/main.rs;
--                    Router (the routes and layers), Serving (requests that interleave, and the
--                    cleanup task, as a step relation; its children Log, Numbers, Genuine, Begins,
--                    Wakes and Truth on what answers say, Listens and Heard on what waits),
--                    Start (the start of a relay, its URLs and its shutdown), CommandLine (the
--                    options of src/main.rs)
--   ClientIp         `TrustedProxies::client_ip` and the middleware
--   Tests            examples, on which the definitions run
--   Scenarios        the unit tests of the waiting list, of both stores, of the handlers, of the
--                    clients' addresses and of src/main.rs, on the definitions
--
-- State and operations. A struct is a record, and a method is a function from the old state to the
-- new one and the result, since each is used under one lock. A reading of a clock is an argument, a
-- field of `Readings`, and so is the answer to which receivers of channels are gone. Channels are
-- numbers, and the record of what senders did (`signals`) stands for the messages in them. A history
-- of calls (WaitingList/History) is any sequence of calls of the methods with any arguments and
-- readings. In Server/Serving a step takes the lock once: a request arrives, a parked handler goes
-- on, the cleanup runs, or a client hangs up, in any order.
--
-- Numbers. An i64 timestamp t is t + 2^63 in ℕ. The expiry of a message wraps around at 64 bits as
-- in the source. Durations are nanoseconds without bound, and lengths of collections are unbounded.
-- No function needs fuel: all loops run over lists.
--
-- Not modelled: the parsing of the command line by clap, the headers of CORS, logging and tracing;
-- the demo page. How axum matches a path and reads a body, sockets, axum-server and the spawning of
-- tasks, SQLite's statements, the `http` header map, the `ipnet` networks, the `url` crate and the
-- parser of IP addresses are parameters. Which acknowledged rows SQLite picks for deletion, the time
-- that passes between two steps (a wait may end, and a cleanup run, at any time), a poisoned Mutex
-- and the order in which tokio runs tasks are outside the model.
pub mod Base
pub mod HashMap
pub mod Types
pub mod Repository
pub mod Memory
pub mod Waiters
pub mod WaitingList
pub mod Status
pub mod Headers
pub mod Response
pub mod Config
pub mod Requests
pub mod Inbox
pub mod Link
pub mod ClientIp
pub mod Persistence
pub mod Server
mod Tests
mod Scenarios
