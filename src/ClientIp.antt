-- ===== src/ClientIp.antt =====
-- The `TrustedProxies` of src/http_relay/client_ip.rs, and its middleware `identify_client`.
--
-- A text is the list of its bytes, all ASCII where a header value is readable at all. The parser of
-- IP addresses, the `ipnet` crate and the header map of the `http` crate are parameters.
pub mod Loops
pub mod Forged
pub mod Origin
pub mod Lines
use mathlib.Core.List.{reverse}
use http_relay.Base.{
  ℕ, ◌+◌, ◌*◌, ◌/◌, ◌%◌, ◌^◌, Bool, true, false, not, ◌||◌, List, [], ◌∷◌, Option, none, some,
  Result, ok, err, map, retain, ◌==◌, if◌then◌else◌, bytes,
}
use http_relay.Types.{Bytes}
use http_relay.Response.{Simple}
use http_relay.Status

-- `std::net::IpAddr`, by the numbers of 32 and of 128 bits.
pub data IpAddr : Type 0 where
  v4 v6 : ℕ → IpAddr

-- `IpAddr::to_canonical`: the addresses `::ffff:a.b.c.d` become IPv4.
unfoldable pub to_canonical : IpAddr → IpAddr
to_canonical (v4 n) = v4 n
to_canonical (v6 n) = if n / 2 ^ 32 == 65535 then v4 (n % 2 ^ 32) else v6 n

-- What the code uses of `std::net`'s parser, `ipnet` and `http`.
pub record Net : Type 1 where
  pub parse : Bytes → Option IpAddr
  pub Network : Type 0
  pub network_contains : Network → IpAddr → Bool
  pub Headers : Type 0
  pub Value : Type 0
  -- `headers.get_all(X_FORWARDED_FOR)`, from the first line to the last
  pub forwarded_for : Headers → List Value
  pub to_str : Value → Option Bytes
  pub escape_ascii : Value → Bytes

pub data ForwardedForError : Type 0 where
  missing : ForwardedForError
  not_an_ip_address : Bytes → ForwardedForError

-- The first piece of `split(sep)` and the other ones.
unfoldable pub split : ℕ → Bytes → Bytes × List Bytes
split sep [] = ([], [])
split sep (c ∷ text) =
    let (piece, pieces) = split sep text in
    if c == sep then ([], piece ∷ pieces) else (c ∷ piece, pieces)

abbrev pub pieces : ℕ → Bytes → List Bytes
pieces sep text = (split sep text).0 ∷ (split sep text).1

-- `str::rsplit`
abbrev pub rsplit : ℕ → Bytes → List Bytes
rsplit sep text = reverse (pieces sep text)

-- White space of ASCII: tab, line feed, vertical tab, form feed, carriage return and space.
abbrev pub is_whitespace : ℕ → Bool
is_whitespace c = c == 9 || c == 10 || c == 11 || c == 12 || c == 13 || c == 32

unfoldable pub trim_start : Bytes → Bytes
trim_start [] = []
trim_start (c ∷ text) = let rest = trim_start text in if is_whitespace c then rest else c ∷ text

-- `str::trim`
abbrev pub trim : Bytes → Bytes
trim text = reverse (trim_start (reverse (trim_start text)))

abbrev pub is_filled : Bytes → Bool
is_filled [] = false
is_filled (c ∷ text) = true

abbrev pub comma : ℕ
comma = 44

-- `value.rsplit(',').map(str::trim).filter(|entry| !entry.is_empty())`
unfoldable pub entries_of : Bytes → List Bytes
entries_of value = retain is_filled (map trim (rsplit comma value))

-- A loop returns a result, or goes on with `leftmost_proxy_ip`.
pub data Scan : Type 0 where
  stops : Result IpAddr ForwardedForError → Scan
  goes_on : Option IpAddr → Scan

abbrev pub and_then : Scan → (Option IpAddr → Scan) → Scan
and_then (stops r) f = stops r
and_then (goes_on leftmost) f = f leftmost

unfoldable pub any_contains : (net : Net) → List net.Network → IpAddr → Bool
any_contains net [] ip = false
any_contains net (network ∷ rest) ip = net.network_contains network ip || any_contains net rest ip

module _ (net : Net) (networks : List net.Network) where
  -- `TrustedProxies::contains`
  unfoldable pub contains : IpAddr → Bool
  contains ip = any_contains net networks (to_canonical ip)

  -- The body of the inner loop, on what the entry parses to.
  abbrev pub check_entry : Bytes → Option IpAddr → Scan
  check_entry entry none = stops (err (not_an_ip_address entry))
  check_entry entry (some entry_ip) =
      if contains entry_ip
      then goes_on (some (to_canonical entry_ip))
      else stops (ok (to_canonical entry_ip))

  unfoldable pub scan_entries : List Bytes → Option IpAddr → Scan
  scan_entries [] leftmost = goes_on leftmost
  scan_entries (entry ∷ rest) leftmost =
      and_then (check_entry entry (net.parse entry)) (scan_entries rest)

  -- The body of the outer loop.
  unfoldable pub scan_value : net.Value → Option IpAddr → Scan
  scan_value value leftmost = elim (net.to_str value) [
    | none ↦ stops (err (not_an_ip_address (net.escape_ascii value)))
    | some text ↦ scan_entries (entries_of text) leftmost
  ]

  unfoldable pub scan_values : List net.Value → Option IpAddr → Scan
  scan_values [] leftmost = goes_on leftmost
  scan_values (value ∷ rest) leftmost = and_then (scan_value value leftmost) (scan_values rest)

  -- What follows the loops.
  abbrev pub conclude : Scan → Result IpAddr ForwardedForError
  conclude (stops r) = r
  conclude (goes_on none) = err missing
  conclude (goes_on (some ip)) = ok ip

  -- `TrustedProxies::client_ip`
  unfoldable pub client_ip : IpAddr → net.Headers → Result IpAddr ForwardedForError
  client_ip peer_ip headers =
      if contains peer_ip
      then conclude (scan_values (reverse (net.forwarded_for headers)) none)
      else ok (to_canonical peer_ip)

  -- `identify_client`: the request with the client's address goes to `next`, or it is refused.
  unfoldable pub identify_client :
      {R : Type 0} → (Simple → R) → (IpAddr → R) → IpAddr → net.Headers → R
  identify_client respond next peer headers = elim (client_ip peer headers) [
    | ok ip ↦ next ip
    | err error ↦ respond (Status.bad_request, bytes "Invalid X-Forwarded-For header")
  ]
