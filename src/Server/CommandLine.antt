-- ===== src/Server/CommandLine.antt =====
-- The command line of src/main.rs: its options, and the configuration that `main` builds from them.
-- The parsers of addresses and networks are parameters, and a parsed network is kept as its text.
use http_relay.Base.{
  ℕ, String, ◌*◌, Bool, false, List, [], ◌++◌, Option, none, some, Result, ok, err, bytes,
}
use http_relay.Types.{Bytes, from_secs}
use http_relay.Config.{Config, default}
use http_relay.Server.{
  bind_address, http_port, link_timeout, inbox_timeout, inbox_cache_ttl, max_body_size, max_entries,
  persist_db, cors_allow_all, trusted_proxies,
}

abbrev pub default_max_entries : ℕ
default_max_entries = 10000

pub record Args : Type 0 where
  pub bind : String
  pub port : ℕ
  pub link_timeout : ℕ
  pub inbox_timeout : ℕ
  pub inbox_cache_ttl : ℕ
  pub max_body_size : ℕ
  pub max_entries : ℕ
  pub persist_db : Option String
  pub verbose : ℕ
  pub cors_allow_all : Bool
  pub trusted_proxy : List String
  pub quiet : Bool

-- The options that are not given.
abbrev pub default_args : Args
default_args = record {
  bind = "127.0.0.1";
  port = 8080;
  link_timeout = 600;
  inbox_timeout = 25;
  inbox_cache_ttl = 300;
  max_body_size = 2 * 1024;
  max_entries = default_max_entries;
  persist_db = none;
  verbose = 0;
  cors_allow_all = false;
  trusted_proxy = [];
  quiet = false;
}

-- The builder of `main`, up to `run`.
abbrev pub configured : Args → Config
configured args = trusted_proxies args.trusted_proxy (
    cors_allow_all args.cors_allow_all (
      persist_db args.persist_db (
        max_entries args.max_entries (
          max_body_size args.max_body_size (
            inbox_cache_ttl (from_secs args.inbox_cache_ttl) (
              inbox_timeout (from_secs args.inbox_timeout) (
                link_timeout (from_secs args.link_timeout)
                  (http_port args.port (bind_address args.bind default)))))))))

module _ {Network Address : Type 0} (parse_net : String → Option Network)
    (parse_ip : String → Option Address) (of_address : Address → Network) where
  -- A bare address is the network of that address only.
  abbrev of_ip : String → Option Address → Result Network Bytes
  of_ip value (some ip) = ok (of_address ip)
  of_ip value none =
      err (bytes "`" ++ bytes value ++ bytes "` is not an IP address or CIDR network")

  unfoldable pub parse_network : String → Result Network Bytes
  parse_network value = elim (parse_net value) [
    | some network ↦ ok network
    | none ↦ of_ip value (parse_ip value)
  ]
