-- ===== src/Server/Start.antt =====
-- `HttpRelay` of src/http_relay/server.rs: the start of a relay, its URLs, and its shutdown.
--
-- The sockets, axum-server, the runtime of tokio and the `url` crate are a parameter. The log lines
-- are left out.
use http_relay.Base.{
  ℕ, String, ◌≡◌, ◌⊎◌, inl, inr, refl, ◌∙◌, ap, List, ◌∷◌, ◌++◌, Option, Result, ok, err, AnyError,
  bytes, Result-cases,
}
use http_relay.Types.{Bytes, from_secs}
use http_relay.Config.{Config}
use http_relay.Repository.{Repository}
use http_relay.Persistence.{try}
use http_relay.Server.{AppState, new_state}

-- What `tokio::spawn` is given: the server with its handle and the application's state, and the cleanup with its
-- interval and the same state. What the bodies of the two tasks do is the step relation of
-- Server/Serving, the body of the cleanup's loop its `cleans_up`.
pub data Task (Server Handle : Type 0) (b : Repository) : Type 0 where
  serves : Server → Handle → AppState b → Task Server Handle b
  cleans : ℕ → AppState b → Task Server Handle b

pub record System (b : Repository) : Type 1 where
  pub World : Type 0
  pub Listener : Type 0
  pub Address : Type 0
  pub Server : Type 0
  pub Handle : Type 0
  pub Url : Type 0
  -- `TcpListener::bind(SocketAddr::new(..))`, and the methods of the listener
  pub bind : World → String → ℕ → World × Result Listener AnyError
  pub set_nonblocking : World → Listener → World × Result (Unit {0}) AnyError
  pub local_addr : World → Listener → World × Result Address AnyError
  -- `axum_server::from_tcp`, and its handle
  pub from_tcp : World → Listener → World × Result Server AnyError
  pub handle : World → World × Handle
  pub graceful_shutdown : World → Handle → ℕ → World
  pub stop : World → Handle → World
  pub spawn : World → Task Server Handle b → World
  -- The text of the port of an address, and URLs
  pub port : Address → String
  pub parse_url : Bytes → Url
  pub push_segment : Url → String → Url
  -- The tasks that were spawned. Only `spawn` spawns one.
  pub tasks : World → List (Task Server Handle b)
  pub tasks-bind : (w : World) (a : String) (p : ℕ) → tasks (bind w a p).0 ≡ tasks w
  pub tasks-set_nonblocking : (w : World) (l : Listener) → tasks (set_nonblocking w l).0 ≡ tasks w
  pub tasks-local_addr : (w : World) (l : Listener) → tasks (local_addr w l).0 ≡ tasks w
  pub tasks-from_tcp : (w : World) (l : Listener) → tasks (from_tcp w l).0 ≡ tasks w
  pub tasks-handle : (w : World) → tasks (handle w).0 ≡ tasks w
  pub tasks-spawn : (w : World) (t : Task Server Handle b) → tasks (spawn w t) ≡ t ∷ tasks w

abbrev pub cleanup_interval : ℕ
cleanup_interval = from_secs 15

module _ {b : Repository} (sys : System b) where
  pub record HttpRelay : Type 0 where
    pub http_handle : sys.Handle
    pub http_address : sys.Address

  -- The end of `HttpRelay::start`.
  abbrev pub launch :
      AppState b
      → sys.Handle
      → sys.Address
      → sys.World
      → sys.Server
      → sys.World × Result HttpRelay AnyError
  launch state handle address w server = (
    sys.spawn (sys.spawn w (serves server handle state)) (cleans cleanup_interval state),
    ok (record { http_handle = handle; http_address = address }),
  )

  abbrev pub listen :
      AppState b → sys.Handle → sys.World → sys.Listener → sys.World × Result HttpRelay AnyError
  listen state handle w listener = try (sys.set_nonblocking w listener) (λ w' _.
      try (sys.local_addr w' listener)
        (λ w'' address. try (sys.from_tcp w'' listener) (launch state handle address)))

  -- `HttpRelay::start`
  unfoldable pub start :
      (Option String → ℕ → Result b.State AnyError)
      → Config
      → sys.World
      → sys.World × Result HttpRelay AnyError
  start open_repository config w = elim (new_state open_repository config) [
    | err e ↦ (w, err e)
    | ok state ↦
        let (w', handle) = sys.handle w in
        try (sys.bind w' config.bind_address config.http_port) (listen state handle)
  ]

  abbrev pub local_url : HttpRelay → sys.Url
  local_url relay = sys.parse_url (bytes "http://localhost:" ++ bytes (sys.port relay.http_address))

  abbrev pub local_link_url : HttpRelay → sys.Url
  local_link_url relay = sys.push_segment (local_url relay) "link"

  abbrev pub drop : sys.World → HttpRelay → sys.World
  drop w relay = sys.stop w relay.http_handle

  -- `HttpRelay::shutdown` takes the relay, and drops it when it returns.
  abbrev pub shutdown : sys.World → HttpRelay → sys.World
  shutdown w relay = drop (sys.graceful_shutdown w relay.http_handle (from_secs 1)) relay

try-cases :
    {C A B : Type 0} (P : C × Result B AnyError → Type 0) (x : C × Result A AnyError)
    (next : C → A → C × Result B AnyError)
    → ((e : AnyError) → P (x.0, err e))
    → ((a : A) → x.1 ≡ ok a → P (next x.0 a))
    → P (try x next)
try-cases P (c, ok a) next f g = g a refl
try-cases P (c, err e) next f g = f e

module _ {b : Repository} (sys : System b)
    (open_repository : Option String → ℕ → Result b.State AnyError) (config : Config)
    (w : sys.World) where
  -- Nothing runs that did not run before.
  abbrev pub Fails : sys.World × Result (HttpRelay sys) AnyError → Type 0
  Fails (w', ok relay) = ⊥
  Fails (w', err e) = sys.tasks w' ≡ sys.tasks w

  -- The server and the cleanup run, on the state of the configuration, behind the address of the
  -- socket that is bound.
  abbrev pub Runs : sys.World × Result (HttpRelay sys) AnyError → Type 0
  Runs (w', err e) = ⊥
  Runs (w', ok relay) =
      (state : AppState b) × (server : sys.Server) × (listener : sys.Listener) × (v : sys.World)
      × (new_state open_repository config ≡ ok state)
      × ((sys.bind (sys.handle w).0 config.bind_address config.http_port).1 ≡ ok listener)
      × ((sys.local_addr v listener).1 ≡ ok relay.http_address)
      × ((sys.from_tcp (sys.local_addr v listener).0 listener).1 ≡ ok server)
      × (sys.tasks w'
          ≡ cleans (from_secs 15) state ∷ serves server relay.http_handle state ∷ sys.tasks w)

  abbrev pub Outcome : sys.World × Result (HttpRelay sys) AnyError → Type 0
  Outcome x = Fails x ⊎ Runs x

  module _ (state : AppState b) (created : new_state open_repository config ≡ ok state) where
    listened :
        (u : sys.World) (listener : sys.Listener)
        → sys.tasks u ≡ sys.tasks w
        → (sys.bind (sys.handle w).0 config.bind_address config.http_port).1 ≡ ok listener
        → Outcome (listen sys state (sys.handle w).1 u listener)
    listened u listener same bound =
        try-cases Outcome (sys.set_nonblocking u listener) _ (λ e. inl set)
          λ _ _.
            try-cases Outcome (sys.local_addr u' listener) _ (λ e. inl located)
              λ address known.
                try-cases Outcome (sys.from_tcp u'' listener) _ (λ e. inl served)
                  λ server made. inr (
                    state,
                    server,
                    listener,
                    u',
                    created,
                    bound,
                    known,
                    made,
                    sys.tasks-spawn _ _
                        ∙ ap (λ l. cleans cleanup_interval state ∷ l)
                            (sys.tasks-spawn _ _
                              ∙ ap (λ l. serves server (sys.handle w).1 state ∷ l) served),
                  )
      where
        u' : sys.World
        u' = (sys.set_nonblocking u listener).0

        u'' : sys.World
        u'' = (sys.local_addr u' listener).0

        set : sys.tasks u' ≡ sys.tasks w
        set = sys.tasks-set_nonblocking u listener ∙ same

        located : sys.tasks u'' ≡ sys.tasks w
        located = sys.tasks-local_addr u' listener ∙ set

        served : sys.tasks (sys.from_tcp u'' listener).0 ≡ sys.tasks w
        served = sys.tasks-from_tcp u'' listener ∙ located

  -- To start a relay either fails, and spawns no task, or it spawns two: one that serves the state
  -- made of the configuration by a server on the socket that is bound to the address and the port
  -- of the configuration, and one that is to clean up the same state at an interval of 15 seconds.
  -- The relay then has the address of that socket and the handle of that server.
  pub start_cases : Outcome (start sys open_repository config w)
  unfolding start
  start_cases = elim (Result-cases (new_state {b = b} open_repository config)) [
    | inr (e, q) ↦ rw (q, start) (inl refl)
    | inl (state, q) ↦
        rw (q, start)
          (try-cases Outcome (sys.bind (sys.handle w).0 config.bind_address config.http_port) _
            (λ e. inl bound) (λ listener. listened state q _ listener bound))
  ]
    where
      bound :
          sys.tasks (sys.bind (sys.handle w).0 config.bind_address config.http_port).0 ≡ sys.tasks w
      bound = sys.tasks-bind _ _ _ ∙ sys.tasks-handle w
