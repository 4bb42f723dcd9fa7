-- ===== src/ClientIp/Loops.antt =====
-- The loops of `client_ip` over the concatenation of header lines and of entries.
use mathlib.Core.List.{reverse, reverse-append, map-append}
use http_relay.Base.{
  ℕ, ◌≡◌, refl, ap, ◌∙◌, Bool, true, inl, inr, List, [], ◌∷◌, ◌++◌, Option, none, some, map, retain,
  arith, Bool-cases, Option-cases, ◌==◌, ◌/◌, ◌^◌,
}
use http_relay.Types.{Bytes}
use http_relay.ClientIp.{
  IpAddr, v4, v6, to_canonical, Net, split, pieces, rsplit, comma, is_filled, entries_of, trim,
  Scan, stops, goes_on, and_then, any_contains, contains, check_entry, scan_entries, scan_value,
  scan_values,
}

pub to_canonical-to_canonical : (ip : IpAddr) → to_canonical (to_canonical ip) ≡ to_canonical ip
unfolding to_canonical
to_canonical-to_canonical (v4 n) = refl
to_canonical-to_canonical (v6 n) = elim (Bool-cases (n / 2 ^ 32 == 65535)) [
  | inl e ↦ ground (arith, e)
  | inr e ↦ ground (arith, e)
]

retain-append {ℓ} :
    {A : Type ℓ} (p : A → Bool) (xs ys : List A) → retain p (xs ++ ys) ≡ retain p xs ++ retain p ys
unfolding retain
retain-append p [] ys = refl
retain-append p (x ∷ xs) ys = ground (arith, retain-append p xs ys)

pieces-append :
    (sep : ℕ) (xs ys : Bytes) → pieces sep (xs ++ (sep ∷ ys)) ≡ pieces sep xs ++ pieces sep ys
unfolding split
pieces-append sep [] ys = ground arith
pieces-append sep (x ∷ xs) ys = ground (arith, pieces-append sep xs ys)

-- What follows a comma comes before what it follows.
pub entries_of-append :
    (junk text : Bytes) → entries_of (junk ++ (comma ∷ text)) ≡ entries_of text ++ entries_of junk
unfolding entries_of
entries_of-append junk text =
    ap (λ x. retain is_filled (map trim (reverse x))) (pieces-append comma junk text)
    ∙ ap (λ x. retain is_filled (map trim x))
        (reverse-append (pieces comma junk) (pieces comma text))
    ∙ ap (retain is_filled) (map-append trim (rsplit comma text) (rsplit comma junk))
    ∙ retain-append is_filled (map trim (rsplit comma text)) (map trim (rsplit comma junk))

and_then-and_then :
    (s : Scan) (f g h : Option IpAddr → Scan)
    → ((leftmost : Option IpAddr) → f leftmost ≡ and_then (g leftmost) h)
    → and_then s f ≡ and_then (and_then s g) h
and_then-and_then (stops r) f g h e = refl
and_then-and_then (goes_on leftmost) f g h e = e leftmost

module _ (net : Net) (networks : List net.Network) where
  pub scan_entries-append :
      (xs ys : List Bytes) (leftmost : Option IpAddr)
      → scan_entries net networks (xs ++ ys) leftmost
        ≡ and_then (scan_entries net networks xs leftmost) (scan_entries net networks ys)
  unfolding scan_entries
  scan_entries-append [] ys leftmost = refl
  scan_entries-append (x ∷ xs) ys leftmost =
      and_then-and_then (check_entry net networks x (net.parse x)) _ _ _ (scan_entries-append xs ys)

  pub scan_values-append :
      (xs ys : List net.Value) (leftmost : Option IpAddr)
      → scan_values net networks (xs ++ ys) leftmost
        ≡ and_then (scan_values net networks xs leftmost) (scan_values net networks ys)
  unfolding scan_values
  scan_values-append [] ys leftmost = refl
  scan_values-append (x ∷ xs) ys leftmost =
      and_then-and_then (scan_value net networks x leftmost) _ _ _ (scan_values-append xs ys)

  -- An address that was met as a trusted proxy's.
  abbrev pub IsProxy : Option IpAddr → Type 0
  IsProxy none = Unit
  IsProxy (some ip) = contains net networks ip ≡ true

  -- A loop goes on with a proxy only.
  abbrev pub KeepsProxy : Scan → Type 0
  KeepsProxy (stops r) = Unit
  KeepsProxy (goes_on leftmost) = IsProxy leftmost

  contains-to_canonical :
      (ip : IpAddr) → contains net networks (to_canonical ip) ≡ contains net networks ip
  unfolding contains
  contains-to_canonical ip = ap (any_contains net networks) (to_canonical-to_canonical ip)

  check_entry-KeepsProxy :
      (entry : Bytes) (parsed : Option IpAddr) → KeepsProxy (check_entry net networks entry parsed)
  check_entry-KeepsProxy entry none = tt
  check_entry-KeepsProxy entry (some ip) = elim (Bool-cases (contains net networks ip)) [
    | inl e ↦ rw e (contains-to_canonical ip ∙ e)
    | inr e ↦ rw e tt
  ]

  and_then-KeepsProxy :
      (s : Scan) (f : Option IpAddr → Scan)
      → KeepsProxy s
      → ((leftmost : Option IpAddr) → IsProxy leftmost → KeepsProxy (f leftmost))
      → KeepsProxy (and_then s f)
  and_then-KeepsProxy (stops r) f h next = tt
  and_then-KeepsProxy (goes_on leftmost) f h next = next leftmost h

  scan_entries-KeepsProxy :
      (entries : List Bytes) (leftmost : Option IpAddr)
      → IsProxy leftmost
      → KeepsProxy (scan_entries net networks entries leftmost)
  unfolding scan_entries
  scan_entries-KeepsProxy [] leftmost h = h
  scan_entries-KeepsProxy (x ∷ xs) leftmost h =
      and_then-KeepsProxy (check_entry net networks x (net.parse x)) _
        (check_entry-KeepsProxy x (net.parse x)) (scan_entries-KeepsProxy xs)

  scan_value-KeepsProxy :
      (value : net.Value) (leftmost : Option IpAddr)
      → IsProxy leftmost
      → KeepsProxy (scan_value net networks value leftmost)
  unfolding scan_value
  scan_value-KeepsProxy value leftmost h = elim (Option-cases (net.to_str value)) [
    | inl n ↦ rw (n, scan_value) tt
    | inr (text, s) ↦ rw (s, scan_value) (scan_entries-KeepsProxy (entries_of text) leftmost h)
  ]

  pub scan_values-KeepsProxy :
      (values : List net.Value) (leftmost : Option IpAddr)
      → IsProxy leftmost
      → KeepsProxy (scan_values net networks values leftmost)
  unfolding scan_values
  scan_values-KeepsProxy [] leftmost h = h
  scan_values-KeepsProxy (x ∷ xs) leftmost h =
      and_then-KeepsProxy (scan_value net networks x leftmost) _
        (scan_value-KeepsProxy x leftmost h) (scan_values-KeepsProxy xs)
