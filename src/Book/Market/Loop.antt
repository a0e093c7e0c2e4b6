-- ===== src/Book/Market/Loop.antt =====
-- The loop of `match_market` sweeps the opposite side's priority list, and ends.
use order_matching_machine.Prelude.{
  ℕ, zero, suc, ◌-◌, ◌≤◌, ◌<◌, ◌≡◌, ◌⊎◌, ◌≢◌, refl, ap, ◌∙◌, sym, min, max, true, false, List, [],
  ◌∷◌, ◌++◌, some, arith, append-nil, append_assoc, Bool-cases, inl, inr, length, is_empty, ◌==◌,
  ==_iff,
}
use order_matching_machine.Orders.{Side, bid, ask, Order, Trade}
use order_matching_machine.Book.{PriceLevel, fill_front}
use order_matching_machine.Book.Levels.{IsSide}
use order_matching_machine.Book.Flat.{side_orders, Indexed}
use order_matching_machine.Book.Fill.{
  remainder, side_orders-fill_front, fill_front-IsSide, Indexed-remainder,
}
use order_matching_machine.Book.Market.{
  MarketState, opposite, market_trade, market_step, market_loop,
}
use order_matching_machine.Book.Market.Sweep.{
  any, sweep_rest, sweep_left, sweep_fills, sweep_zero, sweep_step,
}

-- The prints of the fills of an order `id`: each at the resting order's price.
abbrev pub prints : Side → ℕ → ℕ → List (Order × ℕ) → List Trade
prints s id ts [] = []
prints bid id ts ((o, n) ∷ fs) =
    record {
      buyer_id = id;
      seller_id = o.id;
      price_ticks = o.price_ticks;
      quantity = n;
      timestamp = max ts o.timestamp;
    }
    ∷ prints bid id ts fs
prints ask id ts ((o, n) ∷ fs) =
    record {
      buyer_id = o.id;
      seller_id = id;
      price_ticks = o.price_ticks;
      quantity = n;
      timestamp = max ts o.timestamp;
    }
    ∷ prints ask id ts fs

prints-fill :
    (s : Side) (id ts : ℕ) (o : Order) (n : ℕ) (fs : List (Order × ℕ))
    → market_trade s id ts o n ∷ prints s id ts fs ≡ prints s id ts ((o, n) ∷ fs)
prints-fill bid id ts o n fs = refl
prints-fill ask id ts o n fs = refl

-- The loop's outcome, told by the priority list that it started from.
pub record Swept (s : Side) (id ts : ℕ) (others : List Order) (st out : MarketState) : Type 0 where
  pub kept : IsSide (opposite s) out.side_levels
  pub rest :
      side_orders out.side_levels ≡ sweep_rest any st.quantity_io (side_orders st.side_levels)
  pub left : out.quantity_io ≡ sweep_left any st.quantity_io (side_orders st.side_levels)
  pub printed :
      out.trades_out
      ≡ st.trades_out
        ++ prints s id ts (sweep_fills any st.quantity_io (side_orders st.side_levels))
  pub indexed : Indexed out.order_loc (side_orders out.side_levels) others

-- Where the quantity is used up the loop stops as it stands.
Swept-done :
    (s : Side) (id ts : ℕ) (others : List Order) (st : MarketState)
    → st.quantity_io ≡ 0
    → IsSide (opposite s) st.side_levels
    → Indexed st.order_loc (side_orders st.side_levels) others
    → Swept s id ts others st st
Swept-done s id ts others st e v x =
    let z = sweep_zero any (side_orders st.side_levels) in
    record {
      kept = v;
      rest = rw e (sym z.0);
      left = rw e (sym z.1);
      printed = rw (e, z.2) (sym (append-nil st.trades_out));
      indexed = x;
    }

Swept-empty :
    (s : Side) (id ts : ℕ) (others : List Order) (st : MarketState)
    → st.side_levels ≡ []
    → Indexed st.order_loc (side_orders st.side_levels) others
    → Swept s id ts others st st
unfolding side_orders sweep_rest sweep_left sweep_fills
Swept-empty s id ts others st e x = record {
  kept = rw e tt;
  rest = rw e refl;
  left = rw e refl;
  printed = rw e (sym (append-nil st.trades_out));
  indexed = x;
}

-- A step and the sweep of what it leaves are the sweep.
Swept-step :
    (s : Side) (id ts : ℕ) (others : List Order) (st out : MarketState) (l : PriceLevel)
    (ls : List PriceLevel) (o : Order) (os : List Order)
    → (st.quantity_io == 0) ≡ false
    → st.side_levels ≡ l ∷ ls
    → l.orders ≡ o ∷ os
    → Swept s id ts others (market_step s id ts st l o os ls) out
    → Swept s id ts others st out
unfolding market_step
Swept-step s id ts others st out l ls o os more e f w =
    let step = sweep_step any st.quantity_io o tail_orders (rw more refl) in
    record {
      kept = w.kept;
      rest = w.rest ∙ ap (sweep_rest any q) filled ∙ step.0 ∙ ap (sweep_rest any _) (sym whole);
      left = w.left ∙ ap (sweep_left any q) filled ∙ step.1 ∙ ap (sweep_left any _) (sym whole);
      printed =
          w.printed
          ∙ append_assoc st.trades_out (_ ∷ []) _
          ∙ ap (λ ts'. st.trades_out ++ ts') (prints-fill s id ts o _ _)
          ∙ ap (λ fs. st.trades_out ++ prints s id ts fs)
              (ap (λ xs. (o, min st.quantity_io o.quantity) ∷ sweep_fills any q xs) filled
                ∙ step.2
                ∙ ap (sweep_fills any _) (sym whole));
      indexed = w.indexed;
    }
  where
    q : ℕ
    q = st.quantity_io - min st.quantity_io o.quantity

    tail_orders : List Order
    tail_orders = os ++ side_orders ls

    filled :
        side_orders (fill_front (min st.quantity_io o.quantity) l o os ls)
        ≡ remainder (min st.quantity_io o.quantity) o tail_orders
    filled = side_orders-fill_front (min st.quantity_io o.quantity) l o os ls

    whole : side_orders st.side_levels ≡ o ∷ tail_orders
    whole = rw e (unfold side_orders in rw f refl)

front_orders :
    (l : PriceLevel) (ls : List PriceLevel) (o : Order) (os : List Order)
    → l.orders ≡ o ∷ os
    → side_orders (l ∷ ls) ≡ o ∷ os ++ side_orders ls
unfolding side_orders
front_orders l ls o os f = rw f

length-remainder :
    (take : ℕ) (o : Order) (os : List Order) → length (remainder take o os) ≤ suc (length os)
length-remainder take o os = ground arith

-- A round that leaves some quantity to match has popped an order.
rounds_step :
    (s : Side) (id ts : ℕ) (st : MarketState) (l : PriceLevel) (ls : List PriceLevel) (o : Order)
    (os : List Order)
    → st.side_levels ≡ l ∷ ls
    → l.orders ≡ o ∷ os
    → ((market_step s id ts st l o os ls).quantity_io ≡ 0)
      ⊎ (suc (length (side_orders (market_step s id ts st l o os ls).side_levels))
          ≡ length (side_orders st.side_levels))
unfolding market_step
rounds_step s id ts st l ls o os e f =
    let filled = side_orders-fill_front (min st.quantity_io o.quantity) l o os ls in
    rw (filled, e) (unfold side_orders in rw f (ground arith))

abbrev pub Ends : ℕ → Side → ℕ → ℕ → List Order → MarketState → Type 0
Ends fuel s id ts others st =
    (out : MarketState) × (market_loop fuel s id ts st ≡ some out) × Swept s id ts others st out

-- Fuel is enough beyond the number of orders, or for the last test once the quantity is used up.
abbrev pub IsEnough : ℕ → MarketState → Type 0
IsEnough fuel st =
    ((st.quantity_io ≡ 0) × (0 < fuel)) ⊎ (length (side_orders st.side_levels) < fuel)

IsEnough-step :
    (fuel : ℕ) (s : Side) (id ts : ℕ) (st : MarketState) (l : PriceLevel) (ls : List PriceLevel)
    (o : Order) (os : List Order)
    → st.side_levels ≡ l ∷ ls
    → l.orders ≡ o ∷ os
    → (st.quantity_io == 0) ≡ false
    → IsEnough (suc fuel) st
    → IsEnough fuel (market_step s id ts st l o os ls)
IsEnough-step fuel s id ts st l ls o os e f more h =
    let pos : st.quantity_io ≢ 0 = ground arith in
    let some_order : 0 < length (side_orders st.side_levels) =
      rw e (unfold side_orders in rw f (omega arith)) in
    ground (arith, rounds_step s id ts st l ls o os e f)

-- The loop's three ways on.
market_loop-done :
    (fuel : ℕ) (s : Side) (id ts : ℕ) (st : MarketState)
    → (st.quantity_io == 0) ≡ true
    → market_loop (suc fuel) s id ts st ≡ some st
unfolding market_loop
market_loop-done fuel s id ts st h = rw (h, market_loop)

market_loop-empty :
    (fuel : ℕ) (s : Side) (id ts : ℕ) (st : MarketState)
    → (st.quantity_io == 0) ≡ false
    → st.side_levels ≡ []
    → market_loop (suc fuel) s id ts st ≡ some st
unfolding market_loop
market_loop-empty fuel s id ts st h e = ground arith

market_loop-round :
    (fuel : ℕ) (s : Side) (id ts : ℕ) (st : MarketState) (l : PriceLevel) (ls : List PriceLevel)
    (o : Order) (os : List Order)
    → (st.quantity_io == 0) ≡ false
    → st.side_levels ≡ l ∷ ls
    → l.orders ≡ o ∷ os
    → market_loop (suc fuel) s id ts st
      ≡ market_loop fuel s id ts (market_step s id ts st l o os ls)
unfolding market_loop
market_loop-round fuel s id ts st l ls o os h e f = ground arith

module _ (s : Side) (id ts : ℕ) (others : List Order) where
  -- One round, with the induction hypothesis for the state that it leaves.
  round_sweeps :
      (fuel : ℕ) (st : MarketState) (l : PriceLevel) (ls : List PriceLevel) (os : List Order)
      → st.side_levels ≡ l ∷ ls
      → l.orders ≡ os
      → (st.quantity_io == 0) ≡ false
      → IsEnough (suc fuel) st
      → IsSide (opposite s) st.side_levels
      → Indexed st.order_loc (side_orders st.side_levels) others
      → ((next : MarketState)
          → IsEnough fuel next
          → IsSide (opposite s) next.side_levels
          → Indexed next.order_loc (side_orders next.side_levels) others
          → Ends fuel s id ts others next)
      → Ends (suc fuel) s id ts others st
  round_sweeps fuel st l ls [] e f more h v x ih =
      let v' : IsSide (opposite s) (l ∷ ls) = rw e at v in
      let n : is_empty l.orders ≡ false = v'.0.nonempty in cc
  round_sweeps fuel st l ls (o ∷ os) e f more h v x ih =
      let (out, ran, swept) =
        ih (market_step s id ts st l o os ls) (IsEnough-step fuel s id ts st l ls o os e f more h)
          (unfold market_step in
            fill_front-IsSide (opposite s) (min st.quantity_io o.quantity) l o os ls (omega arith) f
              (rw e at v))
          (unfold market_step in
            rw (side_orders-fill_front (min st.quantity_io o.quantity) l o os ls) (
              Indexed-remainder st.order_loc (min st.quantity_io o.quantity) o _ others
                (rw (front_orders l ls o os f) at (rw e at x)))) in
      (
        out,
        market_loop-round fuel s id ts st l ls o os more e f ∙ ran,
        Swept-step s id ts others st out l ls o os more e f swept,
      )

  -- Given enough rounds the loop ends, and it has swept the side.
  pub market_loop_sweeps :
      (fuel : ℕ) (st : MarketState)
      → IsEnough fuel st
      → IsSide (opposite s) st.side_levels
      → Indexed st.order_loc (side_orders st.side_levels) others
      → Ends fuel s id ts others st
  market_loop_sweeps zero st h v x = absurd (omega arith)
  market_loop_sweeps (suc fuel) st h v x = elim (Bool-cases (st.quantity_io == 0)) [
    | inl e ↦ (
      st,
      market_loop-done fuel s id ts st e,
      Swept-done s id ts others st ((==_iff st.quantity_io 0).0 e) v x,
    )
    | inr more ↦ at_levels st.side_levels refl more (market_loop_sweeps fuel)
  ]
    where
      at_levels :
          (ls : List PriceLevel)
          → st.side_levels ≡ ls
          → (st.quantity_io == 0) ≡ false
          → ((next : MarketState)
              → IsEnough fuel next
              → IsSide (opposite s) next.side_levels
              → Indexed next.order_loc (side_orders next.side_levels) others
              → Ends fuel s id ts others next)
          → Ends (suc fuel) s id ts others st
      at_levels [] e more ih =
          (st, market_loop-empty fuel s id ts st more e, Swept-empty s id ts others st e x)
      at_levels (l ∷ ls) e more ih = round_sweeps fuel st l ls l.orders e refl more h v x ih
