-- ===== src/Book.antt =====
-- include/order_book/order_book.hpp and src/order_book.cpp: the limit order book.
--
-- A side is its vector of price levels, best first. The hash map `order_loc_` is a function. The
-- source writes each search once for bids and once for asks, with `>` or `<` in the comparator;
-- here the side is an argument. Children prove what the operations do.
use order_matching_machine.Prelude.{
  ℕ, zero, suc, ◌+◌, ◌-◌, min, max, Bool, true, false, List, [], ◌∷◌, ◌++◌, Option, none, some,
  length, is_empty, ◌==◌, ltb, leb, if◌then◌else◌,
}
use order_matching_machine.Prelude.Int.{ℤ, ltb_ℤ, leb_ℤ, eqb_ℤ}
use order_matching_machine.Prelude.Words.{add64, sub64}
use order_matching_machine.Orders.{Side, bid, ask, OrderType, limit, Order, Trade}
pub mod Levels
pub mod Flat
pub mod Insert
pub mod Fill
pub mod Valid
pub mod Add
pub mod Erase
pub mod Cancel
pub mod Cross
pub mod Market
pub mod Queries
pub mod Replay

pub record PriceLevel : Type 0 where
  pub price_ticks : ℤ
  pub total_qty : ℕ
  pub orders : List Order

abbrev pub Locations : Type 0
Locations = ℕ → Option (Side × ℤ)

pub record OrderBook : Type 0 where
  pub bids : List PriceLevel
  pub asks : List PriceLevel
  pub order_loc : Locations

unfoldable pub empty_book : OrderBook
empty_book = record { bids = []; asks = []; order_loc = λ k. none }

abbrev pub put_loc : Locations → ℕ → Side × ℤ → Locations
put_loc m id v = λ k. if k == id then some v else m k

abbrev pub erase_loc : Locations → ℕ → Locations
erase_loc m id = λ k. if k == id then none else m k

abbrev pub levels : OrderBook → Side → List PriceLevel
levels b bid = b.bids
levels b ask = b.asks

abbrev pub set_levels : OrderBook → Side → List PriceLevel → OrderBook
set_levels b bid ls = record b { bids = ls }
set_levels b ask ls = record b { asks = ls }

-- The comparator of a side: `pl.price_ticks > p` for bids, `pl.price_ticks < p` for asks.
abbrev pub better : Side → ℤ → ℤ → Bool
better bid a p = ltb_ℤ p a
better ask a p = ltb_ℤ a p

-- `std::lower_bound`: the levels before the iterator, and those from it on.
unfoldable pub lower_bound : Side → ℤ → List PriceLevel → List PriceLevel × List PriceLevel
lower_bound s p [] = ([], [])
lower_bound s p (l ∷ ls) =
    let (pre, post) = lower_bound s p ls in
    if better s l.price_ticks p then (l ∷ pre, post) else ([], l ∷ ls)

abbrev pub new_level : Order → PriceLevel
new_level o = record { price_ticks = o.price_ticks; total_qty = o.quantity; orders = o ∷ [] }

-- At the iterator: the level of that price takes the order at its back, or a new level is inserted.
unfoldable pub insert_at : Order → List PriceLevel → List PriceLevel
insert_at o [] = new_level o ∷ []
insert_at o (l ∷ ls) =
    if eqb_ℤ l.price_ticks o.price_ticks
    then record l { total_qty = add64 l.total_qty o.quantity; orders = l.orders ++ o ∷ [] } ∷ ls
    else new_level o ∷ l ∷ ls

unfoldable pub insert_order : Side → Order → List PriceLevel → List PriceLevel
insert_order s o ls = let (pre, post) = lower_bound s o.price_ticks ls in pre ++ insert_at o post

-- `addOrder`: only a limit order rests.
unfoldable pub add_order : OrderBook → Order → OrderBook
add_order b o = elim o.order_type [
  | limit ↦ record (set_levels b o.side (insert_order o.side o (levels b o.side))) {
    order_loc = put_loc b.order_loc o.id (o.side, o.price_ticks);
  }
  | _ ↦ b
]

-- The scan of a level's queue for an id: the order found, and the queue without it.
unfoldable pub take_order : ℕ → List Order → Option (Order × List Order)
take_order id [] = none
take_order id (o ∷ os) =
    let rest = take_order id os in
    if o.id == id then some (o, os) else elim rest [ none ↦ none | some (x, xs) ↦ some (x, o ∷ xs) ]

-- A level whose queue has run empty is erased.
abbrev pub keep_level : PriceLevel → List PriceLevel → List PriceLevel
keep_level l ls = if is_empty l.orders then ls else l ∷ ls

-- The lambda `erase_from` of `cancelOrder`; `none` is its `false`.
unfoldable pub erase_at : ℤ → ℕ → List PriceLevel → Option (List PriceLevel)
erase_at p id [] = none
erase_at p id (l ∷ ls) =
    if eqb_ℤ l.price_ticks p
    then elim (take_order id l.orders) [
      | none ↦ none
      | some (o, os) ↦
          some (keep_level (record l { total_qty = sub64 l.total_qty o.quantity; orders = os }) ls)
    ]
    else none

-- `[begin, it)` is kept, `[it, end)` is what the search works on.
abbrev pub rejoin : List PriceLevel → Option (List PriceLevel) → Option (List PriceLevel)
rejoin pre none = none
rejoin pre (some post) = some (pre ++ post)

unfoldable pub erase_from : Side → ℤ → ℕ → List PriceLevel → Option (List PriceLevel)
erase_from s p id ls = rejoin (lower_bound s p ls).0 (erase_at p id (lower_bound s p ls).1)

unfoldable pub cancel_order : OrderBook → ℕ → OrderBook × Bool
cancel_order b id = elim (b.order_loc id) [
  | none ↦ (b, false)
  | some (s, p) ↦ elim (erase_from s p id (levels b s)) [
    | none ↦ (b, false)
    | some ls ↦ (record (set_levels b s ls) { order_loc = erase_loc b.order_loc id }, true)
  ]
]

-- `bids_.front().price_ticks >= asks_.front().price_ticks`, false where a side is empty.
abbrev pub crossed_levels : List PriceLevel → List PriceLevel → Bool
crossed_levels (l ∷ ls) (m ∷ ms) = leb_ℤ m.price_ticks l.price_ticks
crossed_levels _ _ = false

unfoldable pub is_crossed : OrderBook → Bool
is_crossed b = crossed_levels b.bids b.asks

-- The front order `o` of the front level `l` loses `take`: quantity and cached total go down, an
-- exhausted order is popped, an empty level erased. `take` is a minimum with `o.quantity`, so that
-- subtraction does not wrap.
unfoldable pub fill_front : ℕ → PriceLevel → Order → List Order → List PriceLevel → List PriceLevel
fill_front take l o os ls =
    if (o.quantity - take) == 0
    then keep_level (record l { total_qty = sub64 l.total_qty take; orders = os }) ls
    else record l {
      total_qty = sub64 l.total_qty take;
      orders = record o { quantity = o.quantity - take } ∷ os;
    }
      ∷ ls

-- `order_loc_.erase` for an order that `take` exhausts.
abbrev pub forget_filled : ℕ → Order → Locations → Locations
forget_filled take o m = if (o.quantity - take) == 0 then erase_loc m o.id else m

abbrev pub top_trade : Order → Order → Trade
top_trade b a = record {
  buyer_id = b.id;
  seller_id = a.id;
  price_ticks = a.price_ticks;
  quantity = min b.quantity a.quantity;
  timestamp = max b.timestamp a.timestamp;
}

-- `front()` of an empty queue is undefined in C++; no valid book has one, and here it is `none`.
abbrev pub cross_queues :
    OrderBook
    → PriceLevel
    → List Order
    → List PriceLevel
    → PriceLevel
    → List Order
    → List PriceLevel
    → Option (Trade × OrderBook)
cross_queues b bl (o ∷ os) ls al (a ∷ as') ms =
    let qty = min o.quantity a.quantity in
    some (
      top_trade o a,
      record {
        bids = fill_front qty bl o os ls;
        asks = fill_front qty al a as' ms;
        order_loc = forget_filled qty a (forget_filled qty o b.order_loc);
      },
    )
cross_queues _ _ _ _ _ _ _ = none

abbrev pub cross_fronts : OrderBook → List PriceLevel → List PriceLevel → Option (Trade × OrderBook)
cross_fronts b (l ∷ ls) (m ∷ ms) = cross_queues b l l.orders ls m m.orders ms
cross_fronts b _ _ = none

-- `none` is the `false` of the source: nothing crosses, and the book stays.
unfoldable pub execute_top_cross : OrderBook → Option (Trade × OrderBook)
execute_top_cross b = if is_crossed b then cross_fronts b b.bids b.asks else none
