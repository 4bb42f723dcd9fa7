-- ===== src/ClientIp/Forged.antt =====
-- What a client may write into `X-Forwarded-For` in front of the proxies' entries.
use mathlib.Core.List.{reverse, reverse-append, append_assoc}
use http_relay.Base.{
  ◌≡◌, sym, ap, ◌∙◌, false, inl, inr, List, [], ◌∷◌, ◌++◌, Option, none, some, Result, ok,
  Bool-cases,
}
use http_relay.Types.{Bytes}
use http_relay.ClientIp.{
  IpAddr, Net, comma, entries_of, Scan, stops, goes_on, and_then, contains, scan_entries,
  scan_value, scan_values, conclude, client_ip, ForwardedForError,
}
use http_relay.ClientIp.Loops.{
  entries_of-append, scan_entries-append, scan_values-append, KeepsProxy, scan_values-KeepsProxy,
}

and_then-stops :
    {s : Scan} {r : Result IpAddr ForwardedForError} (f : Option IpAddr → Scan)
    → s ≡ stops r
    → and_then s f ≡ stops r
and_then-stops f e = ap (λ x. and_then x f) e

module _ (net : Net) (networks : List net.Network) (ip : IpAddr)
    (client : contains net networks ip ≡ false) where
  -- A result that is no proxy was returned from inside the loops.
  conclude-stops :
      (s : Scan) → KeepsProxy net networks s → conclude net networks s ≡ ok ip → s ≡ stops (ok ip)
  conclude-stops (stops r) h e = ap stops e
  conclude-stops (goes_on none) h e = cc
  conclude-stops (goes_on (some other)) h e = cc

  -- Text to the left of a comma does not change where the line stops.
  scan_value-stops :
      (value value' : net.Value) (text junk : Bytes) (leftmost : Option IpAddr)
      → net.to_str value ≡ some text
      → net.to_str value' ≡ some (junk ++ (comma ∷ text))
      → scan_value net networks value leftmost ≡ stops (ok ip)
      → scan_value net networks value' leftmost ≡ stops (ok ip)
  unfolding scan_value
  scan_value-stops value value' text junk leftmost q q' e =
      rw (q', scan_value)
        (ap (λ es. scan_entries net networks es leftmost) (entries_of-append junk text)
          ∙ scan_entries-append net networks (entries_of text) (entries_of junk) leftmost
          ∙ and_then-stops _ (rw (q, scan_value) at e))

  module _ (value value' : net.Value) (text junk : Bytes) (q : net.to_str value ≡ some text)
      (q' : net.to_str value' ≡ some (junk ++ (comma ∷ text))) (forged : List net.Value) where
    extend :
        (s : Scan)
        → and_then s (scan_values net networks (value ∷ [])) ≡ stops (ok ip)
        → and_then s (scan_values net networks (value' ∷ reverse forged)) ≡ stops (ok ip)
    unfolding scan_values
    extend (stops r) e = e
    extend (goes_on leftmost) e = and_then-stops _ (
        scan_value-stops value value' text junk leftmost q q'
          (last_line (scan_value net networks value leftmost) e))
      where
        last_line : (s : Scan) → and_then s goes_on ≡ stops (ok ip) → s ≡ stops (ok ip)
        last_line (stops r) e = e
        last_line (goes_on l) e = e

    scan_values-forged :
        (values : List net.Value)
        → conclude net networks (scan_values net networks (reverse (value ∷ values)) none) ≡ ok ip
        → scan_values net networks (reverse (forged ++ (value' ∷ values))) none ≡ stops (ok ip)
    scan_values-forged values e =
        ap (λ vs. scan_values net networks vs none) (split_reverse forged value' values)
        ∙ scan_values-append net networks (reverse values) _ none
        ∙ extend (scan_values net networks (reverse values) none) stopped
      where
        split_reverse :
            (xs : List net.Value) (x : net.Value) (ys : List net.Value)
            → reverse (xs ++ (x ∷ ys)) ≡ reverse ys ++ (x ∷ reverse xs)
        split_reverse xs x ys =
            reverse-append xs (x ∷ ys)
            ∙ ap (λ l. l ++ reverse xs) (reverse-append (x ∷ []) ys)
            ∙ append_assoc (reverse ys) (x ∷ []) (reverse xs)

        stopped :
            and_then
              (scan_values net networks (reverse values) none)
              (scan_values net networks (value ∷ []))
            ≡ stops (ok ip)
        stopped =
            sym (scan_values-append net networks (reverse values) (value ∷ []) none)
            ∙ ap (λ vs. scan_values net networks vs none) (sym (split_reverse [] value values))
            ∙ conclude-stops _
                (scan_values-KeepsProxy net networks (reverse (value ∷ values)) none tt) e

-- If a request is found to come from a client that is no trusted proxy, then it is found to come from
-- the same client when further header lines stand before the first line, and further text and a
-- comma stand before the text of that line: what a client sends on its own changes nothing.
pub client_ip-forged :
    (net : Net) (networks : List net.Network) (peer ip : IpAddr) (headers headers' : net.Headers)
    (value value' : net.Value) (values forged : List net.Value) (text junk : Bytes)
    → net.forwarded_for headers ≡ value ∷ values
    → net.forwarded_for headers' ≡ forged ++ (value' ∷ values)
    → net.to_str value ≡ some text
    → net.to_str value' ≡ some (junk ++ (comma ∷ text))
    → client_ip net networks peer headers ≡ ok ip
    → contains net networks ip ≡ false
    → client_ip net networks peer headers' ≡ ok ip
unfolding client_ip
client_ip-forged net networks peer ip headers headers' value value' values forged text junk h h' q
      q' e client =
    elim (Bool-cases (contains net networks peer)) [
      | inr untrusted ↦ rw (untrusted, client_ip) (rw (untrusted, client_ip) at e)
      | inl trusted ↦
          rw (trusted, h', client_ip)
            (ap (conclude net networks) (
              scan_values-forged net networks ip client value value' text junk q q' forged values
                (rw (trusted, h, client_ip) at e)))
    ]
