-- ===== src/Scenarios/Main.antt =====
-- The unit tests of src/main.rs. The parsers are tables of the texts that the tests use. A network is
-- the text of its address, with the number of its leading bits that count.
use http_relay.Base.{
  ℕ, String, ◌≡◌, refl, Bool, true, false, ◌&&◌, [], ◌∷◌, Option, none, some, Result, ok, err, ◌==◌,
  bytes,
}
use http_relay.Types.{Bytes}
use http_relay.Server.{LevelFilter, log_level}
use http_relay.Server.CommandLine.{parse_network}
use http_relay.Scenarios.{same_bytes, look_up, all_pass}

abbrev parse_net : String → Option (String × ℕ)
parse_net value =
    look_up
      (("10.0.0.0/8", ("10.0.0.0", 8))
        ∷ ("127.0.0.1/32", ("127.0.0.1", 32))
        ∷ ("::1/128", ("::1", 128))
        ∷ [])
      (bytes value)

-- An address, with the number of its bits.
abbrev parse_ip : String → Option (String × ℕ)
parse_ip value =
    look_up (("127.0.0.1", ("127.0.0.1", 32)) ∷ ("::1", ("::1", 128)) ∷ []) (bytes value)

abbrev as_network : String → Result (String × ℕ) Bytes
as_network = parse_network parse_net parse_ip (λ address. address)

-- `value` is read as the network that `text` parses to.
abbrev reads_as : String → String → Bool
reads_as value text = elim (as_network value) [
  | err e ↦ false
  | ok (address, bits) ↦ elim (parse_net text) [
    | none ↦ false
    | some (a, n) ↦ same_bytes (bytes address) (bytes a) && (bits == n)
  ]
]

abbrev is_refused : String → Bool
is_refused value = elim (as_network value) [ err e ↦ true | ok network ↦ false ]

abbrev parse_network_accepts_cidr_and_bare_ip : Bool
parse_network_accepts_cidr_and_bare_ip =
    reads_as "10.0.0.0/8" "10.0.0.0/8"
    && reads_as "127.0.0.1" "127.0.0.1/32"
    && reads_as "::1" "::1/128"
    && is_refused "localhost"

abbrev number_of : LevelFilter → ℕ
number_of LevelFilter.off = 0
number_of LevelFilter.warn = 2
number_of LevelFilter.info = 3
number_of LevelFilter.debug = 4
number_of LevelFilter.trace = 5

abbrev quiet_overrides_verbose : Bool
quiet_overrides_verbose = number_of (log_level 3 true) == number_of LevelFilter.off

abbrev default_is_warn : Bool
default_is_warn = number_of (log_level 0 false) == number_of LevelFilter.warn

abbrev verbose_info : Bool
verbose_info = number_of (log_level 1 false) == number_of LevelFilter.info

abbrev verbose_debug : Bool
verbose_debug = number_of (log_level 2 false) == number_of LevelFilter.debug

abbrev verbose_trace : Bool
verbose_trace = number_of (log_level 3 false) == number_of LevelFilter.trace

-- Every test of this file passes.
passed :
    all_pass (
      parse_network_accepts_cidr_and_bare_ip ∷ quiet_overrides_verbose ∷ default_is_warn
      ∷ verbose_info ∷ verbose_debug ∷ verbose_trace ∷ [])
    ≡ true
unfolding parse_network
passed = refl
