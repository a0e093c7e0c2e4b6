-- ===== src/Engine/Cancel.antt =====
-- A cancel through `processOrder`, told on all resting orders, whether its id rests or not.
use order_matching_machine.Prelude.{
  ℕ, ◌≡◌, ◌≢◌, refl, ◌∙◌, sym, true, false, List, [], ◌∷◌, none, some, arith, Option-cases, ◌⊎◌,
  inl, inr,
}
use order_matching_machine.Orders.{Side, bid, ask, cancel, Order}
use order_matching_machine.Book.{OrderBook, is_crossed}
use order_matching_machine.Book.Flat.{side_orders, all_orders, find_loc, find_loc-append}
use order_matching_machine.Book.Valid.{IsValid}
use order_matching_machine.Book.Erase.{
  remove, remove-append_left, remove-append_found, first_of-cases, find_loc-side,
}
use order_matching_machine.Engine.{MatchingEngine, ApplyResult, process_order}
use order_matching_machine.Engine.Reasons.{accepted_none, unknown_order}
use order_matching_machine.Engine.CrossStep.{own, opp}
use order_matching_machine.Engine.Others.{process_order-CancelDone, process_order-cancel_unknown}

-- The outcome of a cancel command.
pub record CancelAnswer (e : MatchingEngine) (o : Order) (after : MatchingEngine) (r : ApplyResult)
    : Type 0 where
  pub returned : process_order e o ≡ some (after, r)
  pub valid : IsValid after.book
  pub uncrossed : is_crossed after.book ≡ false
  pub left : all_orders after.book ≡ remove o.id (all_orders e.book)
  pub log_kept : after.trade_log ≡ e.trade_log
  pub nothing_filled : (r.filled_qty ≡ 0) × (r.fully_filled ≡ false)
  pub told :
      ((find_loc o.id (all_orders e.book) ≢ none)
        × (r.accepted ≡ true)
        × (r.reason ≡ accepted_none))
      ⊎ ((find_loc o.id (all_orders e.book) ≡ none)
          × (r.accepted ≡ false)
          × (r.reason ≡ unknown_order))

remove-absent : (id : ℕ) (xs : List Order) → find_loc id xs ≡ none → remove id xs ≡ xs
unfolding remove find_loc
remove-absent id [] h = refl
remove-absent id (x ∷ xs) h = ground (arith, remove-absent id xs)

-- The map of a valid book is the search through all its orders.
order_loc-find_loc :
    (b : OrderBook) (id : ℕ) → IsValid b → b.order_loc id ≡ find_loc id (all_orders b)
unfolding all_orders
order_loc-find_loc b id v =
    v.indexed.located id ∙ sym (find_loc-append id (side_orders b.bids) (side_orders b.asks))

-- To take an order out of its side is to take it out of the book.
left_of_side :
    (s : Side) (b after : OrderBook) (id : ℕ) (p : _)
    → IsValid b
    → b.order_loc id ≡ some (s, p)
    → own s after ≡ remove id (own s b)
    → opp s after ≡ opp s b
    → all_orders after ≡ remove id (all_orders b)
unfolding all_orders
left_of_side bid b after id p v h e f =
    elim (first_of-cases (find_loc id (side_orders b.bids)) (find_loc id (side_orders b.asks))
      (sym (v.indexed.located id) ∙ h)) [
        | inl k ↦ rw (e, f) (sym (remove-append_found id _ _ (λ n. cc)))
        | inr (n, k) ↦ absurd (cc (find_loc-side ask bid p id b.asks v.ask_side k))
      ]
left_of_side ask b after id p v h e f =
    elim (first_of-cases (find_loc id (side_orders b.bids)) (find_loc id (side_orders b.asks))
      (sym (v.indexed.located id) ∙ h)) [
        | inl k ↦ absurd (cc (find_loc-side bid ask p id b.bids v.bid_side k))
        | inr (n, k) ↦ rw (e, f) (sym (remove-append_left id _ _ n))
      ]

module _ (e : MatchingEngine) (o : Order) (t : o.order_type ≡ cancel) (v : IsValid e.book)
    (c : is_crossed e.book ≡ false) where
  abbrev Answers : Type 0
  Answers = (after : MatchingEngine) × (r : ApplyResult) × CancelAnswer e o after r

  answers_resting : (s : Side) (p : _) → e.book.order_loc o.id ≡ some (s, p) → Answers
  answers_resting s p h =
      let (after, r, w) = process_order-CancelDone e o s p t h v c in
      let rests : find_loc o.id (all_orders e.book) ≢ none =
        let same = order_loc-find_loc e.book o.id v in λ n. cc in
      (
        after,
        r,
        record {
          returned = w.returned;
          valid = w.valid;
          uncrossed = w.uncrossed;
          left = left_of_side s e.book after.book o.id p v h w.own_left w.opp_left;
          log_kept = w.log_kept;
          nothing_filled = w.nothing_filled;
          told = inl (rests, w.accepted.0, w.accepted.1);
        },
      )

  answers_unknown : e.book.order_loc o.id ≡ none → Answers
  answers_unknown h =
      let absent = sym (order_loc-find_loc e.book o.id v) ∙ h in
      (
        e,
        _,
        record {
          returned = process_order-cancel_unknown e o t h;
          valid = v;
          uncrossed = c;
          left = sym (remove-absent o.id (all_orders e.book) absent);
          log_kept = refl;
          nothing_filled = (refl, refl);
          told = inr (absent, refl, refl);
        },
      )

  -- A cancel on a valid book that is not crossed: `processOrder` returns, all resting orders are as
  -- before without the one of that id, and nothing is traded. If an order of that id rests the answer
  -- is that it is accepted, and if none does, that it is refused with `UNKNOWN_ORDER`; the book is
  -- valid and not crossed again.
  pub process_order-CancelAnswer :
      (after : MatchingEngine) × (r : ApplyResult) × CancelAnswer e o after r
  process_order-CancelAnswer = elim (Option-cases (e.book.order_loc o.id)) [
    | inl h ↦ answers_unknown h
    | inr (l, h) ↦ answers_resting l.0 l.1 h
  ]
