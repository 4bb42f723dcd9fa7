-- ===== src/WaitingList/Senders/Held.antt =====
-- How often the waiters hold a sender, as the map of the waiting IDs changes.
use http_relay.Base.{
  ℕ, String, ◌≡◌, ◌+◌, refl, Bool, true, not, List, [], ◌∷◌, none, arith, Option-cases, Bool-cases,
  inl, inr, str_dec, if_pos, if_neg,
}
use http_relay.HashMap.{HashMap, IsDistinct, get, insert, remove, remove_all, retain_mut}
use http_relay.HashMap.Laws.{IsDistinct-remove}
use http_relay.Waiters.{
  Waiters, Signal, delivered, acknowledged, dropped, drops, open_senders, closed_drops,
  add_ack_waiter, add_message_waiter, remove_closed_senders, closed_senders, drop_all,
  notify_message_waiters, notify_ack_waiters, max_waiters_per_entry, is_empty, none_left,
}
use http_relay.Waiters
use http_relay.WaitingList.State.{put_back, or_new, pruned_signals, removed_signals}
use http_relay.WaitingList.Senders.{
  occurs, within, held, sent, sent-append, remove_closed_senders-within, drop_all-within,
}

module _ (tx : ℕ) where
  sent-none : sent tx [] ≡ 0
  unfolding sent
  sent-none = refl

  none_left-occurs : (xs : List ℕ) → none_left xs ≡ true → occurs tx xs ≡ 0
  unfolding occurs
  none_left-occurs [] e = refl
  none_left-occurs (x ∷ xs) e = cc

  empty-within : (w : Waiters) → is_empty w ≡ true → within tx w ≡ 0
  empty-within w e =
      ground (arith, none_left-occurs w.ack_waiters, none_left-occurs w.message_waiters, e)

  new-within : within tx Waiters.new ≡ 0
  unfolding occurs
  new-within = refl

  pub held-insert :
      (id : String) (w : Waiters) (m : HashMap Waiters)
      → held tx (insert id w m) + within tx (or_new (get id m)) ≡ held tx m + within tx w
  unfolding held insert get
  held-insert id w [] = omega (arith, new-within)
  held-insert id w ((j, x) ∷ m) = elim (str_dec j id) [
    | yes e ↦ rw (if_pos (str_dec j id) e _ _) (rw (if_pos (str_dec j id) e _ _) (omega arith))
    | no n ↦
        rw (if_neg (str_dec j id) n _ _)
          (rw (if_neg (str_dec j id) n _ _) (omega (arith, held-insert id w m)))
  ]

  remove-absent :
      (id : String) (m : HashMap Waiters) → get id m ≡ none → held tx (remove id m) ≡ held tx m
  unfolding held remove get
  remove-absent id [] n = refl
  remove-absent id ((j, x) ∷ m) n = elim (str_dec j id) [
    | yes e ↦ cc (rw (if_pos (str_dec j id) e _ _) at n)
    | no d ↦
        rw (if_neg (str_dec j id) d _ _)
          (omega (arith, remove-absent id m (rw (if_neg (str_dec j id) d _ _) at n)))
  ]

  pub held-remove :
      (id : String) (m : HashMap Waiters)
      → IsDistinct m
      → held tx (remove id m) + within tx (or_new (get id m)) ≡ held tx m
  unfolding held remove get
  held-remove id [] d = omega (arith, new-within)
  held-remove id ((j, x) ∷ m) (new, d) = elim (str_dec j id) [
    | yes e ↦
        rw (if_pos (str_dec j id) e _ _)
          (rw (if_pos (str_dec j id) e _ _) (omega (arith, remove-absent id m (rw e at new))))
    | no n ↦
        rw (if_neg (str_dec j id) n _ _)
          (rw (if_neg (str_dec j id) n _ _) (omega (arith, held-remove id m d)))
  ]

  pub held-put_back :
      (id : String) (w : Waiters) (m : HashMap Waiters)
      → IsDistinct m
      → held tx (put_back id w m) + within tx (or_new (get id m)) ≡ held tx m + within tx w
  held-put_back id w m d = elim (Bool-cases (is_empty w)) [
    | inl e ↦ rw e (omega (arith, held-remove id m d, empty-within w e))
    | inr e ↦ rw e (held-insert id w m)
  ]

  pub held-prune :
      (closed : ℕ → Bool) (m : HashMap Waiters)
      → held tx (retain_mut (remove_closed_senders closed) (λ w. not (is_empty w)) m)
          + sent tx (pruned_signals closed m)
        ≡ held tx m
  unfolding held retain_mut pruned_signals
  held-prune closed [] = omega (arith, sent-none)
  held-prune closed ((j, w) ∷ m) = elim (Bool-cases (is_empty (remove_closed_senders closed w))) [
    | inl e ↦ rw e (
        omega (
          arith,
          held-prune closed m,
          empty-within (remove_closed_senders closed w) e,
          remove_closed_senders-within tx closed w,
          sent-append tx (closed_senders closed w) (pruned_signals closed m),
        ))
    | inr e ↦ rw e (
        omega (
          arith,
          held-prune closed m,
          remove_closed_senders-within tx closed w,
          sent-append tx (closed_senders closed w) (pruned_signals closed m),
        ))
  ]

  pub held-remove_all :
      (ids : List String) (m : HashMap Waiters)
      → IsDistinct m
      → held tx (remove_all ids m) + sent tx (removed_signals ids m) ≡ held tx m
  unfolding remove_all removed_signals sent
  held-remove_all [] m d = omega arith
  held-remove_all (id ∷ ids) m d = elim (Option-cases (get id m)) [
    | inl n ↦ rw n (
        omega (
          arith,
          held-remove_all ids (remove id m) (IsDistinct-remove id m d),
          remove-absent id m n,
        ))
    | inr (w, q) ↦ rw q (
        omega (
          arith,
          held-remove_all ids (remove id m) (IsDistinct-remove id m d),
          (rw q at (held-remove id m d)),
          drop_all-within tx w,
          sent-append tx (drop_all w) (removed_signals ids (remove id m)),
        ))
  ]
