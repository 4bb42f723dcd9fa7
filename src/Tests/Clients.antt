-- ===== src/Tests/Clients.antt =====
-- The theorems on the clients' addresses, at examples.
use http_relay.Base.{
  Any, ℕ, ◌≡◌, refl, Bool, true, false, List, [], ◌∷◌, Option, none, some, ok, bytes, ◌==◌, ◌⊎◌,
  retain, ◌-◌,
}
use http_relay.Types.{Bytes}
use http_relay.ClientIp.{
  IpAddr, v4, v6, to_canonical, Net, contains, any_contains, client_ip, scan_values, scan_value,
  scan_entries, entries_of, trim_start, split,
}
use http_relay.ClientIp.Forged.{client_ip-forged}
use http_relay.ClientIp.Origin.{Lists, client_ip-origin}
use http_relay.ClientIp.Lines.{client_of_lines, client_ip-lines}

-- Addresses of one digit, networks of one address, and header lines of ASCII.
abbrev digit : Bytes → Option IpAddr
digit [] = none
digit (c ∷ []) = some (v4 (c - 48))
digit (c ∷ x ∷ rest) = none

abbrev is_address : ℕ → IpAddr → Bool
is_address n (v4 m) = n == m
is_address n (v6 m) = false

abbrev pub small_net : Net
small_net = record {
  parse = digit;
  Network = ℕ;
  network_contains = is_address;
  Headers = List Bytes;
  Value = Bytes;
  forwarded_for = λ lines. lines;
  to_str = λ line. some line;
  escape_ascii = λ line. line;
}

-- The proxies are 1 and 2, and the line says that 2 was reached from 7.
from_seven : client_ip small_net (1 ∷ 2 ∷ []) (v4 1) (bytes "7, 2" ∷ []) ≡ ok (v4 7)
unfolding client_ip contains any_contains to_canonical scan_values scan_value scan_entries
    entries_of trim_start split retain
from_seven = refl

seven : contains small_net (1 ∷ 2 ∷ []) (v4 7) ≡ false
unfolding contains any_contains to_canonical
seven = refl

client_ip-forged_example :
    client_ip small_net (1 ∷ 2 ∷ []) (v4 1) (bytes "8" ∷ bytes "1, x,7, 2" ∷ []) ≡ ok (v4 7)
client_ip-forged_example =
    client_ip-forged small_net (1 ∷ 2 ∷ []) (v4 1) (v4 7) (bytes "7, 2" ∷ [])
      (bytes "8" ∷ bytes "1, x,7, 2" ∷ []) (bytes "7, 2") (bytes "1, x,7, 2") [] (bytes "8" ∷ [])
      (bytes "7, 2") (bytes "1, x") refl refl refl refl from_seven seven

client_ip-origin_example :
    ((contains small_net (1 ∷ 2 ∷ []) (v4 1) ≡ false) × (v4 7 ≡ to_canonical (v4 1)))
    ⊎ ((contains small_net (1 ∷ 2 ∷ []) (v4 1) ≡ true)
        × Any (Lists small_net (1 ∷ 2 ∷ []) (v4 7)) (bytes "7, 2" ∷ []))
client_ip-origin_example =
    client_ip-origin small_net (1 ∷ 2 ∷ []) (v4 1) (v4 7) (bytes "7, 2" ∷ []) from_seven

client_ip-lines_example :
    client_ip small_net (1 ∷ 2 ∷ []) (v4 1) (bytes "8,1" ∷ bytes " 7" ∷ bytes "2, 1" ∷ [])
    ≡ client_of_lines small_net (1 ∷ 2 ∷ []) (v4 1) (bytes "8,1" ∷ bytes " 7" ∷ bytes "2, 1" ∷ [])
client_ip-lines_example =
    client_ip-lines small_net (1 ∷ 2 ∷ []) (v4 1) (bytes "8,1" ∷ bytes " 7" ∷ bytes "2, 1" ∷ [])
      (bytes "8,1" ∷ bytes " 7" ∷ bytes "2, 1" ∷ []) (refl, (refl, (refl, tt)))
