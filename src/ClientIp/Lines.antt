-- ===== src/ClientIp/Lines.antt =====
-- Several `X-Forwarded-For` lines against one line with all their entries, as HTTP reads them.
use mathlib.Core.List.{reverse, reverse-append}
use http_relay.Base.{
  ◌≡◌, refl, sym, ap, ◌∙◌, List, [], ◌∷◌, ◌++◌, Option, none, some, Result, ok, retain,
  if◌then◌else◌,
}
use http_relay.Types.{Bytes}
use http_relay.ClientIp.{
  IpAddr, to_canonical, Net, comma, split, trim_start, entries_of, Scan, stops, goes_on, and_then,
  contains, conclude, scan_entries, scan_value, scan_values, client_ip, ForwardedForError,
}
use http_relay.ClientIp.Loops.{entries_of-append, scan_entries-append, scan_values-append}

-- The lines in one, with commas between them.
abbrev pub joined : List Bytes → Bytes
joined [] = []
joined (text ∷ []) = text
joined (text ∷ next ∷ texts) = text ++ (comma ∷ joined (next ∷ texts))

and_then-goes_on : (s : Scan) → and_then s goes_on ≡ s
and_then-goes_on (stops r) = refl
and_then-goes_on (goes_on leftmost) = refl

and_then-cong :
    {f g : Option IpAddr → Scan} (s : Scan)
    → ((l : Option IpAddr) → f l ≡ g l)
    → and_then s f ≡ and_then s g
and_then-cong (stops r) h = refl
and_then-cong (goes_on leftmost) h = h leftmost

module _ (net : Net) (networks : List net.Network) where
  -- The header values read as the texts.
  abbrev pub Reads : List net.Value → List Bytes → Type 0
  Reads [] [] = Unit
  Reads [] (t ∷ ts) = ⊥
  Reads (x ∷ xs) [] = ⊥
  Reads (x ∷ xs) (t ∷ ts) = (net.to_str x ≡ some t) × Reads xs ts

  -- The client when all entries are in one line, which the loop on entries walks alone.
  abbrev pub client_of_lines : IpAddr → List Bytes → Result IpAddr ForwardedForError
  client_of_lines peer texts =
      if contains net networks peer
      then conclude net networks (scan_entries net networks (entries_of (joined texts)) none)
      else ok (to_canonical peer)

  one-value :
      (x : net.Value) (t : Bytes) (leftmost : Option IpAddr)
      → net.to_str x ≡ some t
      → scan_values net networks (x ∷ []) leftmost
        ≡ scan_entries net networks (entries_of t) leftmost
  unfolding scan_values scan_value
  one-value x t leftmost q =
      and_then-goes_on (scan_value net networks x leftmost) ∙ rw (q, scan_value) refl

  no_lines :
      (leftmost : Option IpAddr)
      → scan_values net networks [] leftmost ≡ scan_entries net networks (entries_of []) leftmost
  unfolding scan_values scan_entries entries_of split trim_start retain
  no_lines leftmost = refl

  last_line :
      (x : net.Value) (xs : List net.Value) (t u : Bytes) (leftmost : Option IpAddr)
      → net.to_str x ≡ some t
      → ((l : Option IpAddr)
          → scan_values net networks (reverse xs) l ≡ scan_entries net networks (entries_of u) l)
      → scan_values net networks (reverse xs ++ (x ∷ [])) leftmost
        ≡ scan_entries net networks (entries_of (t ++ (comma ∷ u))) leftmost
  last_line x xs t u leftmost q h =
      scan_values-append net networks (reverse xs) (x ∷ []) leftmost
      ∙ ap (λ s. and_then s (scan_values net networks (x ∷ []))) (h leftmost)
      ∙ and_then-cong (scan_entries net networks (entries_of u) leftmost) (λ l. one-value x t l q)
      ∙ sym (scan_entries-append net networks (entries_of u) (entries_of t) leftmost)
      ∙ ap (λ l. scan_entries net networks l leftmost) (sym (entries_of-append t u))

  values-joined :
      (xs : List net.Value) (ts : List Bytes) (leftmost : Option IpAddr)
      → Reads xs ts
      → scan_values net networks (reverse xs) leftmost
        ≡ scan_entries net networks (entries_of (joined ts)) leftmost
  values-joined [] [] leftmost r = no_lines leftmost
  values-joined [] (t ∷ ts) leftmost r = elim r [ ]
  values-joined (x ∷ xs) [] leftmost r = elim r [ ]
  values-joined (x ∷ []) (t ∷ []) leftmost (q, r) = one-value x t leftmost q
  values-joined (x ∷ []) (t ∷ u ∷ us) leftmost (q, r) = elim r [ ]
  values-joined (x ∷ y ∷ ys) (t ∷ []) leftmost (q, r) = elim r [ ]
  values-joined (x ∷ y ∷ ys) (t ∷ u ∷ us) leftmost (q, r) =
      ap (λ l. scan_values net networks l leftmost) (reverse-append (x ∷ []) (y ∷ ys))
      ∙ last_line x (y ∷ ys) t (joined (u ∷ us)) leftmost q
          (λ l. values-joined (y ∷ ys) (u ∷ us) l r)

  -- A request whose `X-Forwarded-For` lines are all readable has the client that the loop on
  -- entries finds in one line, the lines joined with commas: how the entries are spread over lines,
  -- which the code walks from the last to the first, does not matter.
  pub client_ip-lines :
      (peer : IpAddr) (headers : net.Headers) (texts : List Bytes)
      → Reads (net.forwarded_for headers) texts
      → client_ip net networks peer headers ≡ client_of_lines peer texts
  unfolding client_ip
  client_ip-lines peer headers texts r =
      ap
        (λ s.
          if contains net networks peer then conclude net networks s else ok (to_canonical peer))
        (values-joined (net.forwarded_for headers) texts none r)
