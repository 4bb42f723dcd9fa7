-- ===== src/Scenarios/ClientIps.antt =====
-- The unit tests of src/http_relay/client_ip.rs.
--
-- The parser of addresses is a table of the texts that the tests use; a network is an address and the
-- number of its leading bits that count.
use http_relay.Base.{
  ℕ, String, ◌≡◌, refl, ◌+◌, ◌*◌, ◌-◌, ◌/◌, ◌%◌, ◌^◌, Bool, true, false, ◌&&◌, List, [], ◌∷◌, ◌++◌,
  none, some, Result, ok, err, ltb, ◌==◌, bytes, map, retain, if◌then◌else◌,
}
use http_relay.Types.{Bytes}
use http_relay.Response.{Simple}
use http_relay.ClientIp.{
  IpAddr, v4, v6, to_canonical, Net, split, trim_start, entries_of, contains, any_contains,
  scan_entries, scan_value, scan_values, client_ip, identify_client, ForwardedForError, missing,
  not_an_ip_address,
}
use http_relay.Scenarios.{same_bytes, look_up, all_pass}

abbrev quad : ℕ → ℕ → ℕ → ℕ → IpAddr
quad a b c d = v4 (a * 2 ^ 24 + b * 2 ^ 16 + c * 2 ^ 8 + d)

-- `::ffff:a.b.c.d`
abbrev mapped : ℕ → ℕ → ℕ → ℕ → IpAddr
mapped a b c d = v6 (65535 * 2 ^ 32 + a * 2 ^ 24 + b * 2 ^ 16 + c * 2 ^ 8 + d)

-- `2001:db8::8`
abbrev documentation : IpAddr
documentation = v6 (8193 * 2 ^ 112 + 3512 * 2 ^ 96 + 8)

-- `NGINX_IP` and `CLIENT_IP`
abbrev nginx_ip : IpAddr
nginx_ip = quad 127 0 0 1

abbrev of_client : IpAddr
of_client = quad 198 51 100 8

abbrev addresses : List (String × IpAddr)
addresses =
    ("198.51.100.8", of_client)
    ∷ ("6.6.6.6", quad 6 6 6 6)
    ∷ ("10.0.0.5", quad 10 0 0 5)
    ∷ ("10.0.0.7", quad 10 0 0 7)
    ∷ ("2001:db8::8", documentation)
    ∷ []

abbrev same_prefix : ℕ → ℕ → ℕ → Bool
same_prefix rest n m = n / 2 ^ rest == m / 2 ^ rest

abbrev covers : IpAddr × ℕ → IpAddr → Bool
covers (v4 n, prefix) (v4 m) = same_prefix (32 - prefix) n m
covers (v6 n, prefix) (v6 m) = same_prefix (128 - prefix) n m
covers (v4 n, prefix) (v6 m) = false
covers (v6 n, prefix) (v4 m) = false

abbrev is_visible : Bytes → Bool
is_visible [] = true
is_visible (c ∷ text) = ltb c 127 && is_visible text

abbrev hex_digit : ℕ → ℕ
hex_digit d = if ltb d 10 then 48 + d else 87 + d

-- `escape_ascii`, on bytes that are printable or not ASCII.
abbrev escaped : Bytes → Bytes
escaped [] = []
escaped (c ∷ text) =
    let rest = escaped text in
    if ltb c 127 then c ∷ rest else 92 ∷ 120 ∷ hex_digit (c / 16) ∷ hex_digit (c % 16) ∷ rest

abbrev test_net : Net
test_net = record {
  parse = look_up addresses;
  Network = IpAddr × ℕ;
  network_contains = covers;
  Headers = List Bytes;
  Value = Bytes;
  forwarded_for = λ lines. lines;
  to_str = λ line. if is_visible line then some line else none;
  escape_ascii = escaped;
}

abbrev forwarded_for : List String → List Bytes
forwarded_for = map bytes

-- `trusted(&[NGINX_IP])` and `trusted(&[NGINX_IP, "10.0.0.0/8"])`
abbrev nginx : List (IpAddr × ℕ)
nginx = (nginx_ip, 32) ∷ []

abbrev chain : List (IpAddr × ℕ)
chain = (nginx_ip, 32) ∷ (quad 10 0 0 0, 8) ∷ []

abbrev client : List (IpAddr × ℕ) → IpAddr → List Bytes → Result IpAddr ForwardedForError
client = client_ip test_net

abbrev same_ip : IpAddr → IpAddr → Bool
same_ip (v4 n) (v4 m) = n == m
same_ip (v6 n) (v6 m) = n == m
same_ip (v4 n) (v6 m) = false
same_ip (v6 n) (v4 m) = false

abbrev is_ip : {E : Type 0} → IpAddr → Result IpAddr E → Bool
is_ip ip (ok found) = same_ip found ip
is_ip ip (err e) = false

abbrev is_missing : Result IpAddr ForwardedForError → Bool
is_missing (ok ip) = false
is_missing (err missing) = true
is_missing (err (not_an_ip_address entry)) = false

abbrev is_not_an_address : String → Result IpAddr ForwardedForError → Bool
is_not_an_address text (ok ip) = false
is_not_an_address text (err missing) = false
is_not_an_address text (err (not_an_ip_address entry)) = same_bytes entry (bytes text)

abbrev without_trusted_proxies_the_peer_is_the_client : Bool
without_trusted_proxies_the_peer_is_the_client =
    is_ip nginx_ip (client [] nginx_ip (forwarded_for ("198.51.100.8" ∷ [])))

abbrev untrusted_peer_is_the_client_and_its_header_is_ignored : Bool
untrusted_peer_is_the_client_and_its_header_is_ignored =
    is_ip (quad 203 0 113 9)
      (client ((quad 192 0 2 0, 24) ∷ []) (quad 203 0 113 9) (forwarded_for ("198.51.100.8" ∷ [])))

abbrev trusted_proxy_entry_is_the_client : Bool
trusted_proxy_entry_is_the_client =
    is_ip of_client (client nginx nginx_ip (forwarded_for ("198.51.100.8" ∷ [])))

abbrev rightmost_entry_wins_over_entries_forged_by_the_client : Bool
rightmost_entry_wins_over_entries_forged_by_the_client =
    is_ip of_client (client nginx nginx_ip (forwarded_for ("6.6.6.6, 198.51.100.8" ∷ [])))

abbrev entries_left_of_the_client_are_not_parsed : Bool
entries_left_of_the_client_are_not_parsed =
    is_ip of_client (client nginx nginx_ip (forwarded_for ("unknown, 198.51.100.8" ∷ [])))

abbrev trusted_proxies_in_a_chain_are_skipped : Bool
trusted_proxies_in_a_chain_are_skipped =
    is_ip of_client (client chain nginx_ip (forwarded_for ("6.6.6.6, 198.51.100.8, 10.0.0.5" ∷ [])))

abbrev several_header_lines_form_one_list_in_order : Bool
several_header_lines_form_one_list_in_order =
    is_ip of_client
      (client chain nginx_ip (forwarded_for ("6.6.6.6" ∷ "198.51.100.8" ∷ "10.0.0.5" ∷ [])))

abbrev leftmost_entry_is_the_client_when_all_entries_are_trusted : Bool
leftmost_entry_is_the_client_when_all_entries_are_trusted =
    is_ip (quad 10 0 0 7) (client chain nginx_ip (forwarded_for ("10.0.0.7, 10.0.0.5" ∷ [])))

abbrev ipv6_entries_and_peers_work : Bool
ipv6_entries_and_peers_work =
    is_ip documentation (client ((v6 1, 128) ∷ []) (v6 1) (forwarded_for ("2001:db8::8" ∷ [])))

abbrev ipv4_mapped_peer_matches_ipv4_network : Bool
ipv4_mapped_peer_matches_ipv4_network =
    is_ip of_client (client nginx (mapped 127 0 0 1) (forwarded_for ("198.51.100.8" ∷ [])))

abbrev ipv4_mapped_untrusted_peer_is_returned_as_ipv4 : Bool
ipv4_mapped_untrusted_peer_is_returned_as_ipv4 =
    is_ip of_client (client nginx (mapped 198 51 100 8) [])

abbrev trusted_proxy_without_entries_is_an_error : Bool
trusted_proxy_without_entries_is_an_error =
    is_missing (client nginx nginx_ip []) && is_missing (client nginx nginx_ip ([] ∷ []))

abbrev entry_that_is_not_an_ip_address_is_an_error : Bool
entry_that_is_not_an_ip_address_is_an_error =
    is_not_an_address "198.51.100.8:4242"
      (client nginx nginx_ip (forwarded_for ("198.51.100.8:4242" ∷ [])))

abbrev entry_with_non_ascii_bytes_is_an_error_with_the_bytes_escaped : Bool
entry_with_non_ascii_bytes_is_an_error_with_the_bytes_escaped =
    is_not_an_address "198.51.100.8\\xe9"
      (client nginx nginx_ip ((bytes "198.51.100.8" ++ (233 ∷ [])) ∷ []))

-- `serve_client_ip`: the client that the middleware found, or its answer.
abbrev serve_client_ip : List (IpAddr × ℕ) → List Bytes → Result IpAddr Simple
serve_client_ip networks headers =
    identify_client test_net networks (λ response. err response) (λ ip. ok ip) nginx_ip headers

abbrev middleware_adds_client_ip_from_trusted_proxy : Bool
middleware_adds_client_ip_from_trusted_proxy =
    is_ip of_client (serve_client_ip nginx (forwarded_for ("198.51.100.8" ∷ [])))

abbrev is_refused : Result IpAddr Simple → Bool
is_refused (ok ip) = false
is_refused (err (status, body)) = status == 400

abbrev middleware_rejects_trusted_proxy_without_header : Bool
middleware_rejects_trusted_proxy_without_header = is_refused (serve_client_ip nginx [])

-- Every test of this file passes.
passed :
    all_pass (
      without_trusted_proxies_the_peer_is_the_client
      ∷ untrusted_peer_is_the_client_and_its_header_is_ignored ∷ trusted_proxy_entry_is_the_client
      ∷ rightmost_entry_wins_over_entries_forged_by_the_client
      ∷ entries_left_of_the_client_are_not_parsed ∷ trusted_proxies_in_a_chain_are_skipped
      ∷ several_header_lines_form_one_list_in_order
      ∷ leftmost_entry_is_the_client_when_all_entries_are_trusted ∷ ipv6_entries_and_peers_work
      ∷ ipv4_mapped_peer_matches_ipv4_network ∷ ipv4_mapped_untrusted_peer_is_returned_as_ipv4
      ∷ trusted_proxy_without_entries_is_an_error ∷ entry_that_is_not_an_ip_address_is_an_error
      ∷ entry_with_non_ascii_bytes_is_an_error_with_the_bytes_escaped
      ∷ middleware_adds_client_ip_from_trusted_proxy
      ∷ middleware_rejects_trusted_proxy_without_header ∷ [])
    ≡ true
unfolding client_ip contains any_contains to_canonical scan_values scan_value scan_entries
    entries_of trim_start split retain identify_client
passed = refl
