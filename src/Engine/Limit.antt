-- ===== src/Engine/Limit.antt =====
-- A limit order through `processOrder`: it trades with the best of the other side as far as its limit
-- accepts, and what is left of it rests in price-time priority; the book never ends crossed.
use order_matching_machine.Prelude.{
  ℕ, ◌+◌, ◌≤◌, ◌<◌, ◌^◌, ◌≡◌, refl, ap, ◌∙◌, sym, Bool, true, false, List, [], ◌∷◌, ◌++◌, none,
  some, append-nil, arith, Bool-cases, inl, inr, length, length-append, ◌==◌, if◌then◌else◌,
}
use order_matching_machine.Prelude.Words.{sub32}
use order_matching_machine.Orders.{Side, bid, ask, limit, Order}
use order_matching_machine.Book.{OrderBook, better, add_order, is_crossed}
use order_matching_machine.Book.Flat.{side_orders, all_orders, place}
use order_matching_machine.Engine.Apart.{uncrossed-NoMeet, misses_behind}
use order_matching_machine.Book.Valid.{IsValid}
use order_matching_machine.Book.Add.{Added, add_order-Added}
use order_matching_machine.Book.Market.Sweep.{
  sweep_rest, sweep_left, sweep_fills, sweep_fills-add-left, halts, sweep_halts,
}
use order_matching_machine.Engine.{
  MatchingEngine, ApplyResult, CrossState, cross_loop, cross_rounds, process_limit, process_order,
}
use order_matching_machine.Engine.Reasons.{accepted_none}
use order_matching_machine.Engine.CrossStep.{own, opp, crosses, heads_cross, is_crossed-heads}
use order_matching_machine.Engine.CrossLoop.{NoMeet, Swept, Ready, cross_prints, resting}
use order_matching_machine.Engine.CrossRun.{loop-apart, cross_loop_sweeps}

-- What a limit order of quantity `q` leaves, told by the priority lists of the book before.
abbrev pub limit_left : Side → Order → OrderBook → ℕ
limit_left s o b = sweep_left (crosses s o) o.quantity (opp s b)

-- The own side after it: nothing of the order, or what is left of it at its place.
abbrev pub rested : Side → Order → ℕ → List Order → List Order
rested s o n os = if n == 0 then os else place s (record o { quantity = n }) os

pub record LimitDone (e : MatchingEngine) (o : Order) (after : MatchingEngine) (r : ApplyResult)
    : Type 0 where
  pub returned : process_order e o ≡ some (after, r)
  pub valid : IsValid after.book
  pub uncrossed : is_crossed after.book ≡ false
  pub opp_left :
      opp o.side after.book ≡ sweep_rest (crosses o.side o) o.quantity (opp o.side e.book)
  pub own_left :
      own o.side after.book ≡ rested o.side o (limit_left o.side o e.book) (own o.side e.book)
  pub printed :
      after.trade_log
      ≡ e.trade_log
        ++ cross_prints o.side o (sweep_fills (crosses o.side o) o.quantity (opp o.side e.book))
  pub accepted : (r.accepted ≡ true) × (r.reason ≡ accepted_none)
  pub filled : r.filled_qty + limit_left o.side o e.book ≡ o.quantity
  pub fully : r.fully_filled ≡ (limit_left o.side o e.book == 0)

-- The state in which the loop starts.
abbrev start : MatchingEngine → Order → CrossState
start e o = record { book = add_order e.book o; trade_log = e.trade_log; remaining = o.quantity }

pub process_order-limit :
    (e : MatchingEngine) (o : Order) → o.order_type ≡ limit → process_order e o ≡ process_limit e o
unfolding process_order
process_order-limit e o t = ground arith

sweep_left-le : (ok : Order → Bool) (q : ℕ) (os : List Order) → sweep_left ok q os ≤ q
sweep_left-le ok q os = omega (arith, sweep_fills-add-left ok q os)

-- Whatever the loop ended in, if it swept: the result is what the record says.
finish :
    (e : MatchingEngine) (o : Order) (out : CrossState) (rest xs : List Order)
    → cross_loop (cross_rounds (add_order e.book o)) o.id (start e o) ≡ some out
    → xs ≡ opp o.side e.book
    → o.order_type ≡ limit
    → o.quantity < 2 ^ 32
    → Swept o.side o rest xs (start e o) out
    → resting o (limit_left o.side o e.book) rest
      ≡ rested o.side o (limit_left o.side o e.book) (own o.side e.book)
    → (after : MatchingEngine) × (r : ApplyResult) × LimitDone e o after r
finish e o out rest xs ran x t q w own_same =
    let left : out.remaining ≡ limit_left o.side o e.book = w.left ∙ rw x refl in
    let bound = sweep_left-le (crosses o.side o) o.quantity (opp o.side e.book) in
    (
      record { book = out.book; trade_log = out.trade_log },
      record {
        accepted = true;
        reason = accepted_none;
        filled_qty = sub32 o.quantity out.remaining;
        fully_filled = out.remaining == 0;
      },
      record {
        returned = process_order-limit e o t ∙ (unfold process_limit in rw ran refl);
        valid = w.valid;
        uncrossed = w.uncrossed;
        opp_left = rw (← x) w.opp_left;
        own_left = w.own_left ∙ rw x own_same;
        printed = rw (← x) w.printed;
        accepted = (refl, refl);
        filled = omega (arith, left, bound);
        fully = rw left refl;
      },
    )

enough_rounds : (s : Side) (b : OrderBook) → length (opp s b) < cross_rounds b
enough_rounds bid b =
    unfold all_orders in omega (arith, length-append (side_orders b.bids) (side_orders b.asks))
enough_rounds ask b =
    unfold all_orders in omega (arith, length-append (side_orders b.bids) (side_orders b.asks))

module _ (e : MatchingEngine) (o : Order) (v : IsValid e.book) (c : is_crossed e.book ≡ false)
    (t : o.order_type ≡ limit) (pos : 0 < o.quantity) (word : o.quantity < 2 ^ 32)
    (fresh : e.book.order_loc o.id ≡ none) where
  added : Added e.book o
  added = add_order-Added e.book o t (omega arith) fresh v

  not_zero : (o.quantity == 0) ≡ false
  not_zero = ground arith

  same_opp : opp o.side (add_order e.book o) ≡ opp o.side e.book
  same_opp = ap side_orders added.untouched

  -- The order goes to the front of its side: the loop sweeps.
  at_front :
      place o.side o (own o.side e.book) ≡ o ∷ own o.side e.book
      → ((n : ℕ)
          → place o.side (record o { quantity = n }) (own o.side e.book)
            ≡ record o { quantity = n } ∷ own o.side e.book)
      → (after : MatchingEngine) × (r : ApplyResult) × LimitDone e o after r
  at_front front front' =
      let ready : Ready o.side o (own o.side e.book) (opp o.side e.book) (start e o) = record {
        valid = added.valid;
        own_now = added.placed ∙ front;
        opp_now = same_opp;
        word = word;
        apart = uncrossed-NoMeet o.side e.book v c;
      } in
      let enough = enough_rounds o.side (add_order e.book o) in
      let (out, ran, w) =
        cross_loop_sweeps o.side o (own o.side e.book) (cross_rounds (add_order e.book o))
          (opp o.side e.book) (start e o) (rw same_opp at enough) ready not_zero in
      finish e o out (own o.side e.book) (opp o.side e.book) ran refl t word w
        (rw (front' (limit_left o.side o e.book)) refl)

  -- The order goes behind the front of its side, which meets nothing: the order rests whole.
  at_back :
      (y : Order) (ys : List Order)
      → own o.side e.book ≡ y ∷ ys
      → better o.side o.price_ticks y.price_ticks ≡ false
      → (after : MatchingEngine) × (r : ApplyResult) × LimitDone e o after r
  unfolding place
  at_back y ys f h =
      let misses : NoMeet o.side (y ∷ ys) (opp o.side e.book) =
        rw f at (uncrossed-NoMeet o.side e.book v c) in
      let stay : is_crossed (add_order e.book o) ≡ false =
        is_crossed-heads o.side (add_order e.book o) added.valid
        ∙ rw (added.placed, f, same_opp, place, h)
            (heads y (place o.side o ys) (opp o.side e.book) misses) in
      let z =
        sweep_halts (crosses o.side o) o.quantity (opp o.side e.book)
          (halted y ys (opp o.side e.book) h misses) in
      (
        record { book = add_order e.book o; trade_log = e.trade_log },
        record {
          accepted = true;
          reason = accepted_none;
          filled_qty = sub32 o.quantity o.quantity;
          fully_filled = o.quantity == 0;
        },
        record {
          returned =
              process_order-limit e o t
              ∙ (unfold process_limit in rw (loop-apart _ o.id (start e o) not_zero stay) refl);
          valid = added.valid;
          uncrossed = stay;
          opp_left = same_opp ∙ sym z.0;
          own_left = rw (z.1, not_zero) added.placed;
          printed = rw (z.2) (sym (append-nil e.trade_log));
          accepted = (refl, refl);
          filled = omega (arith, z.1);
          fully = rw (z.1) refl;
        },
      )
    where
      heads :
          (u : Order) (us xs : List Order)
          → NoMeet o.side (u ∷ us) xs
          → heads_cross o.side (u ∷ us) xs ≡ false
      heads u us [] m = refl
      heads u us (x ∷ xs) m = m.0

      halted :
          (u : Order) (us xs : List Order)
          → better o.side o.price_ticks u.price_ticks ≡ false
          → NoMeet o.side (u ∷ us) xs
          → halts (crosses o.side o) o.quantity xs ≡ true
      halted u us [] b m = refl
      halted u us (x ∷ xs) b m = rw (misses_behind o.side o u x b m.0, not_zero) refl

  -- A limit order of a 32-bit quantity above 0, under an id that does not rest, on a valid book
  -- that is not crossed: `processOrder` returns, and accepts it; its trades and what is left of the
  -- other side are the sweep of that side's priority list as far as the prices meet the limit; what
  -- is left of the order rests at its place in price-time priority; the filled and the remaining
  -- quantity make up the order's; and the book is valid and not crossed again.
  pub process_order-LimitDone : (after : MatchingEngine) × (r : ApplyResult) × LimitDone e o after r
  process_order-LimitDone = at_own (own o.side e.book) refl
    where
      at_own :
          (os : List Order)
          → own o.side e.book ≡ os
          → (after : MatchingEngine) × (r : ApplyResult) × LimitDone e o after r
      at_own [] f = at_front (rw f (unfold place in refl)) (λ n. rw f (unfold place in refl))
      at_own (y ∷ ys) f = elim (Bool-cases (better o.side o.price_ticks y.price_ticks)) [
        | inl b ↦
            at_front (rw f (unfold place in rw b refl)) (λ n. rw f (unfold place in rw b refl))
        | inr b ↦ at_back y ys f b
      ]
