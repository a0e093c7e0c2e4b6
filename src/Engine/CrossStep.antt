-- ===== src/Engine/CrossStep.antt =====
-- One round of the crossing loop, told by the priority lists of the incoming order's own side and
-- of the side opposite to it.
use order_matching_machine.Prelude.{
  min, max, ◌≡◌, refl, ◌∙◌, sym, Bool, true, false, List, [], ◌∷◌, some, arith,
}
use order_matching_machine.Prelude.Int.{leb_ℤ}
use order_matching_machine.Orders.{Side, bid, ask, Order, Trade}
use order_matching_machine.Book.{
  PriceLevel, OrderBook, levels, crossed_levels, is_crossed, execute_top_cross,
}
use order_matching_machine.Book.Levels.{IsSide}
use order_matching_machine.Book.Flat.{side_orders}
use order_matching_machine.Book.Fill.{remainder}
use order_matching_machine.Book.Valid.{IsValid}
use order_matching_machine.Book.Market.{opposite}
use order_matching_machine.Book.Cross.{
  side_orders-Front, front_price, execute_top_cross-Crossed, crossed-fronts,
}

abbrev pub own : Side → OrderBook → List Order
own s b = side_orders (levels b s)

abbrev pub opp : Side → OrderBook → List Order
opp s b = side_orders (levels b (opposite s))

-- An order of side `s` meets one of the other side: the bid's price is at least the ask's.
abbrev pub crosses : Side → Order → Order → Bool
crosses bid u x = leb_ℤ x.price_ticks u.price_ticks
crosses ask u x = leb_ℤ u.price_ticks x.price_ticks

-- The print of a match, the own order first: at the ask's price, under the later timestamp.
abbrev pub cross_trade : Side → Order → Order → Trade
cross_trade bid u x = record {
  buyer_id = u.id;
  seller_id = x.id;
  price_ticks = x.price_ticks;
  quantity = min u.quantity x.quantity;
  timestamp = max u.timestamp x.timestamp;
}
cross_trade ask u x = record {
  buyer_id = x.id;
  seller_id = u.id;
  price_ticks = u.price_ticks;
  quantity = min x.quantity u.quantity;
  timestamp = max x.timestamp u.timestamp;
}

abbrev pub heads_cross : Side → List Order → List Order → Bool
heads_cross s (u ∷ us) (x ∷ xs) = crosses s u x
heads_cross s _ _ = false

levels_cross :
    (ls ms : List PriceLevel)
    → IsSide bid ls
    → IsSide ask ms
    → (crossed_levels ls ms ≡ heads_cross bid (side_orders ls) (side_orders ms))
      × (crossed_levels ls ms ≡ heads_cross ask (side_orders ms) (side_orders ls))
levels_cross [] [] v w = unfold side_orders in (refl, refl)
levels_cross [] (m ∷ ms) v w =
    let (x, xs, e, p) = front_price ask m ms w in rw e (unfold side_orders in (refl, refl))
levels_cross (l ∷ ls) [] v w =
    let (x, xs, e, p) = front_price bid l ls v in rw e (unfold side_orders in (refl, refl))
levels_cross (l ∷ ls) (m ∷ ms) v w =
    let (u, us, e, p) = front_price bid l ls v in
    let (x, xs, f, q) = front_price ask m ms w in rw (e, f, p, q) (refl, refl)

-- The book is crossed where the front orders meet.
pub is_crossed-heads :
    (s : Side) (b : OrderBook) → IsValid b → is_crossed b ≡ heads_cross s (own s b) (opp s b)
unfolding is_crossed
is_crossed-heads bid b v = (levels_cross b.bids b.asks v.bid_side v.ask_side).0
is_crossed-heads ask b v = (levels_cross b.bids b.asks v.bid_side v.ask_side).1

-- What a match leaves, seen from side `s` with the front orders `u` and `x`.
pub record Round (s : Side) (b after : OrderBook) (u x : Order) (us xs : List Order) : Type 0 where
  pub returned : execute_top_cross b ≡ some (cross_trade s u x, after)
  pub valid : IsValid after
  pub own_left : own s after ≡ remainder (min u.quantity x.quantity) u us
  pub opp_left : opp s after ≡ remainder (min u.quantity x.quantity) x xs

head-eq : (a b : Order) (as' bs : List Order) → a ∷ as' ≡ b ∷ bs → (a ≡ b) × (as' ≡ bs)
head-eq a b as' bs h = (cc, cc)

-- A crossed valid book is matched at its two front orders.
pub crossed-Round :
    (s : Side) (b : OrderBook) (u x : Order) (us xs : List Order)
    → IsValid b
    → is_crossed b ≡ true
    → own s b ≡ u ∷ us
    → opp s b ≡ x ∷ xs
    → (after : OrderBook) × Round s b after u x us xs
crossed-Round bid b u x us xs v h e e' =
    let (f, g) = crossed-fronts b h v in
    let (p, q) = head-eq _ _ _ _ (sym (side_orders-Front b.bids f) ∙ e) in
    let (p', q') = head-eq _ _ _ _ (sym (side_orders-Front b.asks g) ∙ e') in
    let c = execute_top_cross-Crossed b f g h v in
    (
      _,
      record {
        returned = rw (← p, ← p') c.returned;
        valid = c.valid;
        own_left = rw (← p, ← p', ← q) c.bids_left;
        opp_left = rw (← p, ← p', ← q') c.asks_left;
      },
    )
crossed-Round ask b u x us xs v h e e' =
    let (f, g) = crossed-fronts b h v in
    let (p, q) = head-eq _ _ _ _ (sym (side_orders-Front b.asks g) ∙ e) in
    let (p', q') = head-eq _ _ _ _ (sym (side_orders-Front b.bids f) ∙ e') in
    let c = execute_top_cross-Crossed b f g h v in
    let same : min u.quantity x.quantity ≡ min x.quantity u.quantity = omega arith in
    (
      _,
      record {
        returned = rw (← p, ← p') c.returned;
        valid = c.valid;
        own_left = rw (same, ← p, ← p', ← q) c.asks_left;
        opp_left = rw (same, ← p, ← p', ← q') c.bids_left;
      },
    )
