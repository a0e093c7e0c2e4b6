-- ===== src/Book/Cross.antt =====
-- `is_crossed` and `execute_top_cross`: one match of the two best orders.
use order_matching_machine.Prelude.{
  ℕ, min, max, false, ◌≡◌, refl, true, false, List, [], ◌∷◌, ◌++◌, some, arith, is_empty,
}
use order_matching_machine.Orders.{Side, bid, ask, Order}
use order_matching_machine.Book.{
  PriceLevel, OrderBook, crossed_levels, is_crossed, top_trade, execute_top_cross, fill_front,
  forget_filled,
}
use order_matching_machine.Book.Levels.{Belongs, IsSide}
use order_matching_machine.Book.Flat.{side_orders, Indexed, Indexed-swap}
use order_matching_machine.Book.Fill.{
  remainder, side_orders-fill_front, fill_front-IsSide, Indexed-remainder,
}
use order_matching_machine.Book.Valid.{IsValid}

-- A side that holds a level, with the order at its front.
pub record Front (ls : List PriceLevel) : Type 0 where
  pub level : PriceLevel
  pub others : List PriceLevel
  pub order : Order
  pub queue : List Order
  pub is_cons : ls ≡ level ∷ others
  pub is_queue : level.orders ≡ order ∷ queue

-- The priority list behind the front order.
abbrev pub behind : {ls : List PriceLevel} → Front ls → List Order
behind f = f.queue ++ side_orders f.others

pub side_orders-Front : (ls : List PriceLevel) (f : Front ls) → side_orders ls ≡ f.order ∷ behind f
side_orders-Front ls f = rw (f.is_cons) (unfold side_orders in rw (f.is_queue))

Front-of_queue :
    (l : PriceLevel) (ls : List PriceLevel) (os : List Order)
    → l.orders ≡ os
    → is_empty l.orders ≡ false
    → Front (l ∷ ls)
Front-of_queue l ls [] e n = absurd (cc)
Front-of_queue l ls (o ∷ os) e n = record {
  level = l;
  others = ls;
  order = o;
  queue = os;
  is_cons = refl;
  is_queue = e;
}

-- A side with a level has a front order, since no level is empty.
pub Front-of_side :
    (s : Side) (l : PriceLevel) (ls : List PriceLevel) → IsSide s (l ∷ ls) → Front (l ∷ ls)
Front-of_side s l ls v = Front-of_queue l ls l.orders refl v.0.nonempty

-- The price of a side's front order is its front level's.
pub front_price :
    (s : Side) (l : PriceLevel) (ls : List PriceLevel)
    → IsSide s (l ∷ ls)
    → (o : Order) × (os : List Order) × (side_orders (l ∷ ls) ≡ o ∷ os)
      × (o.price_ticks ≡ l.price_ticks)
front_price s l ls v = at_queue l.orders refl
  where
    at_queue :
        (q : List Order)
        → l.orders ≡ q
        → (o : Order) × (os : List Order) × (side_orders (l ∷ ls) ≡ o ∷ os)
          × (o.price_ticks ≡ l.price_ticks)
    at_queue [] e = absurd (let n : is_empty l.orders ≡ false = v.0.nonempty in cc)
    at_queue (o ∷ os) e = (
      o,
      os ++ side_orders ls,
      unfold side_orders in rw e refl,
      let b : Belongs s l.price_ticks o = (rw e at v.0.belong).0 in b.0,
    )

-- The quantity that the two best orders trade.
abbrev pub match_size : {ls ms : List PriceLevel} → Front ls → Front ms → ℕ
match_size f g = min f.order.quantity g.order.quantity

abbrev cross_after : (b : OrderBook) → Front b.bids → Front b.asks → OrderBook
cross_after b f g = record {
  bids = fill_front (match_size f g) f.level f.order f.queue f.others;
  asks = fill_front (match_size f g) g.level g.order g.queue g.others;
  order_loc =
      forget_filled (match_size f g) g.order (forget_filled (match_size f g) f.order b.order_loc);
}

execute_top_cross-fronts :
    (b : OrderBook) (f : Front b.bids) (g : Front b.asks)
    → is_crossed b ≡ true
    → execute_top_cross b ≡ some (top_trade f.order g.order, cross_after b f g)
unfolding execute_top_cross
execute_top_cross-fronts b f g h = ground (arith, f.is_cons, f.is_queue, g.is_cons, g.is_queue)

-- One match: the front bid and the front ask trade what both can, at the ask's price and under the
-- later of their timestamps, the bid as the buyer, and each keeps what is left of it; an order that is
-- used up leaves the book.
pub record Crossed (b after : OrderBook) (f : Front b.bids) (g : Front b.asks) : Type 0 where
  pub returned :
      execute_top_cross b
      ≡ some (
        record {
          buyer_id = f.order.id;
          seller_id = g.order.id;
          price_ticks = g.order.price_ticks;
          quantity = match_size f g;
          timestamp = max f.order.timestamp g.order.timestamp;
        },
        after,
      )
  pub valid : IsValid after
  pub bids_left : side_orders after.bids ≡ remainder (match_size f g) f.order (behind f)
  pub asks_left : side_orders after.asks ≡ remainder (match_size f g) g.order (behind g)

IsSide-front :
    (s : Side) (ls : List PriceLevel) (f : Front ls) → IsSide s ls → IsSide s (f.level ∷ f.others)
IsSide-front s ls f v = rw (f.is_cons) at v

Indexed-cross :
    (b : OrderBook) (f : Front b.bids) (g : Front b.asks) (n : ℕ)
    → Indexed b.order_loc (side_orders b.bids) (side_orders b.asks)
    → Indexed
        (forget_filled n g.order (forget_filled n f.order b.order_loc))
        (remainder n f.order (behind f))
        (remainder n g.order (behind g))
Indexed-cross b f g n x =
    let whole : Indexed b.order_loc (f.order ∷ behind f) (g.order ∷ behind g) =
      rw (side_orders-Front b.bids f, side_orders-Front b.asks g) at x in
    let left = Indexed-remainder b.order_loc n f.order (behind f) _ whole in
    Indexed-swap _ _ _ (Indexed-remainder _ n g.order (behind g) _ (Indexed-swap _ _ _ left))

-- `execute_top_cross` on a valid book that is crossed, with the front orders `f` and `g` of its
-- sides: it trades the smaller of their quantities, at the ask's price, under both ids; each of the
-- two keeps what is left of it and leaves the book if that is nothing; all other orders stay, and
-- the book stays valid.
pub execute_top_cross-Crossed :
    (b : OrderBook) (f : Front b.bids) (g : Front b.asks)
    → is_crossed b ≡ true
    → IsValid b
    → Crossed b (cross_after b f g) f g
execute_top_cross-Crossed b f g h v =
    let bids_left = side_orders-fill_front (match_size f g) f.level f.order f.queue f.others in
    let asks_left = side_orders-fill_front (match_size f g) g.level g.order g.queue g.others in
    record {
      returned = execute_top_cross-fronts b f g h;
      valid = record {
        bid_side =
            fill_front-IsSide bid (match_size f g) f.level f.order f.queue f.others (omega arith)
              f.is_queue (IsSide-front bid b.bids f v.bid_side);
        ask_side =
            fill_front-IsSide ask (match_size f g) g.level g.order g.queue g.others (omega arith)
              g.is_queue (IsSide-front ask b.asks g v.ask_side);
        indexed = rw (bids_left, asks_left) (Indexed-cross b f g (match_size f g) v.indexed);
      };
      bids_left = bids_left;
      asks_left = asks_left;
    }

-- A crossed valid book has a best order on either side.
pub crossed-fronts : (b : OrderBook) → is_crossed b ≡ true → IsValid b → Front b.bids × Front b.asks
unfolding is_crossed
crossed-fronts b h v = both b.bids b.asks h v.bid_side v.ask_side
  where
    both :
        (ls ms : List PriceLevel)
        → crossed_levels ls ms ≡ true
        → IsSide bid ls
        → IsSide ask ms
        → Front ls × Front ms
    both [] ms e v w = absurd (cc)
    both (l ∷ ls) [] e v w = absurd (cc)
    both (l ∷ ls) (m ∷ ms) e v w = (Front-of_side bid l ls v, Front-of_side ask m ms w)
