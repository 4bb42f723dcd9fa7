-- ===== src/Config.antt =====
-- The `Config` of src/http_relay/server.rs with its defaults.
-- An IP address or network of the configuration is kept as a text, a port as a number.
use http_relay.Base.{ℕ, String, ◌*◌, Bool, false, List, [], Option, none}
use http_relay.Types.{from_secs}

pub record Config : Type 0 where
  pub bind_address : String
  pub http_port : ℕ
  pub link_timeout : ℕ
  pub inbox_timeout : ℕ
  pub inbox_cache_ttl : ℕ
  pub max_body_size : ℕ
  pub max_entries : ℕ
  pub persist_db : Option String
  pub cors_allow_all : Bool
  pub trusted_proxies : List String

abbrev pub default_link_timeout : ℕ
default_link_timeout = from_secs (10 * 60)

abbrev pub default_inbox_timeout : ℕ
default_inbox_timeout = from_secs 25

abbrev pub default_inbox_cache_ttl : ℕ
default_inbox_cache_ttl = from_secs (5 * 60)

abbrev pub default_max_body_size : ℕ
default_max_body_size = 2 * 1024

abbrev pub default_max_entries : ℕ
default_max_entries = 10000

abbrev pub default : Config
default = record {
  bind_address = "127.0.0.1";
  http_port = 0;
  link_timeout = default_link_timeout;
  inbox_timeout = default_inbox_timeout;
  inbox_cache_ttl = default_inbox_cache_ttl;
  max_body_size = default_max_body_size;
  max_entries = default_max_entries;
  persist_db = none;
  cors_allow_all = false;
  trusted_proxies = [];
}
