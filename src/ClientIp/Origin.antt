-- ===== src/ClientIp/Origin.antt =====
-- Where the address of a client comes from: from the connection or from a header entry.
use mathlib.Core.List.{reverse, reverse-append}
use http_relay.Base.{
  Any, here, there, ◌≡◌, refl, subst, true, false, ◌⊎◌, inl, inr, List, [], ◌∷◌, ◌++◌, Option, none,
  some, ok, err, Bool-cases, Option-cases,
}
use http_relay.Types.{Bytes}
use http_relay.ClientIp.{
  IpAddr, to_canonical, Net, entries_of, Scan, stops, goes_on, and_then, contains, check_entry,
  scan_entries, scan_value, scan_values, conclude, client_ip,
}

module _ {ℓ κ} {A : Type ℓ} (P : A → Type κ) where
  Any-append : (xs ys : List A) → Any P (xs ++ ys) → Any P xs ⊎ Any P ys
  Any-append [] ys h = inr h
  Any-append (x ∷ xs) ys (here p) = inl (here p)
  Any-append (x ∷ xs) ys (there h) = elim (Any-append xs ys h) [
    | inl i ↦ inl (there i)
    | inr i ↦ inr i
  ]

  Any-reverse : (xs : List A) → Any P (reverse xs) → Any P xs
  Any-reverse [] h = h
  Any-reverse (x ∷ xs) h =
      elim (Any-append (reverse xs) (x ∷ []) (subst (Any P) (reverse-append (x ∷ []) xs) h)) [
        | inl i ↦ there (Any-reverse xs i)
        | inr i ↦ here (only i)
      ]
    where
      only : Any P (x ∷ []) → P x
      only (here p) = p
      only (there i) = elim i [ ]

module _ (net : Net) (networks : List net.Network) where
  -- The entry is an address, whose canonical form is this one.
  abbrev pub Names : IpAddr → Bytes → Type 0
  Names ip entry = (parsed : IpAddr) × (net.parse entry ≡ some parsed) × (ip ≡ to_canonical parsed)

  -- One of the entries of the header line is this address.
  abbrev pub Lists : IpAddr → net.Value → Type 0
  Lists ip value =
      (text : Bytes) × (net.to_str value ≡ some text) × Any (Names ip) (entries_of text)

  -- Every address that a loop returns, or goes on with, has the property.
  abbrev Yields : (IpAddr → Type 0) → Scan → Type 0
  Yields P (stops (ok ip)) = P ip
  Yields P (stops (err e)) = Unit
  Yields P (goes_on none) = Unit
  Yields P (goes_on (some ip)) = P ip

  module _ (P : IpAddr → Type 0) where
    and_then-Yields :
        (s : Scan) (f : Option IpAddr → Scan)
        → Yields P s
        → ((leftmost : Option IpAddr) → Yields P (goes_on leftmost) → Yields P (f leftmost))
        → Yields P (and_then s f)
    and_then-Yields (stops r) f h next = h
    and_then-Yields (goes_on leftmost) f h next = next leftmost h

    check_entry-Yields :
        (entry : Bytes) (parsed : Option IpAddr)
        → ((ip : IpAddr) → parsed ≡ some ip → P (to_canonical ip))
        → Yields P (check_entry net networks entry parsed)
    check_entry-Yields entry none h = tt
    check_entry-Yields entry (some ip) h = elim (Bool-cases (contains net networks ip)) [
      | inl e ↦ rw e (h ip refl)
      | inr e ↦ rw e (h ip refl)
    ]

    scan_entries-Yields :
        (entries : List Bytes) (leftmost : Option IpAddr)
        → ((ip : IpAddr) → Any (Names ip) entries → P ip)
        → Yields P (goes_on leftmost)
        → Yields P (scan_entries net networks entries leftmost)
    unfolding scan_entries
    scan_entries-Yields [] leftmost h start = start
    scan_entries-Yields (x ∷ xs) leftmost h start =
        and_then-Yields (check_entry net networks x (net.parse x)) _
          (check_entry-Yields x (net.parse x) (λ ip q. h (to_canonical ip) (here (ip, q, refl))))
          (λ l held. scan_entries-Yields xs l (λ ip i. h ip (there i)) held)

    scan_value-Yields :
        (value : net.Value) (leftmost : Option IpAddr)
        → ((ip : IpAddr) → Lists ip value → P ip)
        → Yields P (goes_on leftmost)
        → Yields P (scan_value net networks value leftmost)
    unfolding scan_value
    scan_value-Yields value leftmost h start = elim (Option-cases (net.to_str value)) [
      | inl n ↦ rw (n, scan_value) tt
      | inr (text, s) ↦
          rw (s, scan_value)
            (scan_entries-Yields (entries_of text) leftmost (λ ip i. h ip (text, s, i)) start)
    ]

    scan_values-Yields :
        (values : List net.Value) (leftmost : Option IpAddr)
        → ((ip : IpAddr) → Any (Lists ip) values → P ip)
        → Yields P (goes_on leftmost)
        → Yields P (scan_values net networks values leftmost)
    unfolding scan_values
    scan_values-Yields [] leftmost h start = start
    scan_values-Yields (x ∷ xs) leftmost h start =
        and_then-Yields (scan_value net networks x leftmost) _
          (scan_value-Yields x leftmost (λ ip l. h ip (here l)) start)
          (λ l held. scan_values-Yields xs l (λ ip i. h ip (there i)) held)

    conclude-Yields : (s : Scan) (ip : IpAddr) → Yields P s → conclude net networks s ≡ ok ip → P ip
    conclude-Yields (stops (ok x)) ip h e = subst P (cc e) h
    conclude-Yields (stops (err x)) ip h e = cc
    conclude-Yields (goes_on none) ip h e = cc
    conclude-Yields (goes_on (some x)) ip h e = subst P (cc e) h

  -- The client of a request that does not come from a trusted proxy is the peer. The client of one
  -- that does is an entry of its `X-Forwarded-For` lines, and never the proxy for want of an entry.
  pub client_ip-origin :
      (peer ip : IpAddr) (headers : net.Headers)
      → client_ip net networks peer headers ≡ ok ip
      → ((contains net networks peer ≡ false) × (ip ≡ to_canonical peer))
        ⊎ ((contains net networks peer ≡ true) × Any (Lists ip) (net.forwarded_for headers))
  unfolding client_ip
  client_ip-origin peer ip headers e = elim (Bool-cases (contains net networks peer)) [
    | inr untrusted ↦ inl (untrusted, cc (rw (untrusted, client_ip) at e))
    | inl trusted ↦ inr (
      trusted,
      Any-reverse (Lists ip) (net.forwarded_for headers) (
          conclude-Yields (λ x. Any (Lists x) lines) _ ip
            (scan_values-Yields (λ x. Any (Lists x) lines) lines none (λ _ i. i) tt)
            (rw (trusted, client_ip) at e)),
    )
  ]
    where
      lines : List net.Value
      lines = reverse (net.forwarded_for headers)
