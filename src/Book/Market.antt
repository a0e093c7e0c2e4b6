-- ===== src/Book/Market.antt =====
-- `match_market` of src/order_book.cpp: an aggressive quantity walks the opposite side.
--
-- The source has the loop twice, over asks for a bid and over bids for an ask; here the aggressor's
-- side is an argument. The loop takes fuel: `none` is fuel run out, or `front()` of an empty queue.
use order_matching_machine.Prelude.{
  ℕ, zero, suc, ◌+◌, ◌-◌, min, max, Bool, true, false, List, [], ◌∷◌, ◌++◌, Option, none, some,
  length, ◌==◌, if◌then◌else◌,
}
use order_matching_machine.Orders.{Side, bid, ask, Order, Trade}
use order_matching_machine.Book.{
  PriceLevel, OrderBook, Locations, levels, set_levels, fill_front, forget_filled,
}
use order_matching_machine.Book.Flat.{side_orders}
pub mod Sweep
pub mod Loop
pub mod Refine

-- The loop's variables: the opposite side, the map, `quantity_io` and `trades_out`.
pub record MarketState : Type 0 where
  pub side_levels : List PriceLevel
  pub order_loc : Locations
  pub quantity_io : ℕ
  pub trades_out : List Trade

abbrev pub opposite : Side → Side
opposite bid = ask
opposite ask = bid

-- The print of the market order against a resting one.
abbrev pub market_trade : Side → ℕ → ℕ → Order → ℕ → Trade
market_trade bid id ts o take = record {
  buyer_id = id;
  seller_id = o.id;
  price_ticks = o.price_ticks;
  quantity = take;
  timestamp = max ts o.timestamp;
}
market_trade ask id ts o take = record {
  buyer_id = o.id;
  seller_id = id;
  price_ticks = o.price_ticks;
  quantity = take;
  timestamp = max ts o.timestamp;
}

-- The body of the loop, at the front order `o` of the front level `l`.
unfoldable pub market_step :
    Side → ℕ → ℕ → MarketState → PriceLevel → Order → List Order → List PriceLevel → MarketState
market_step s id ts st l o os ls =
    let take = min st.quantity_io o.quantity in
    record {
      side_levels = fill_front take l o os ls;
      order_loc = forget_filled take o st.order_loc;
      quantity_io = st.quantity_io - take;
      trades_out = st.trades_out ++ market_trade s id ts o take ∷ [];
    }

unfoldable pub market_loop : ℕ → Side → ℕ → ℕ → MarketState → Option MarketState
market_loop zero s id ts st = none
market_loop (suc fuel) s id ts st = elim (st.quantity_io == 0) [
  | true ↦ some st
  | false ↦ elim st.side_levels [
    | [] ↦ some st
    | l ∷ ls ↦ elim l.orders [
      | [] ↦ none
      | o ∷ os ↦ market_loop fuel s id ts (market_step s id ts st l o os ls)
    ]
  ]
]

-- Every round pops an order or uses the quantity up, so one more round than orders is enough.
abbrev pub rounds : List PriceLevel → ℕ
rounds ls = suc (length (side_orders ls))

abbrev pub market_result :
    OrderBook → Side → Option MarketState → Option (OrderBook × ℕ × List Trade)
market_result b s none = none
market_result b s (some st) = some (
  record (set_levels b s st.side_levels) { order_loc = st.order_loc },
  st.quantity_io,
  st.trades_out,
)

-- The new book, the remaining quantity and the trades.
unfoldable pub match_market :
    OrderBook → ℕ → Side → ℕ → ℕ → List Trade → Option (OrderBook × ℕ × List Trade)
match_market b id s quantity ts trades =
    let other = opposite s in
    market_result b other (
      market_loop (rounds (levels b other)) s id ts (record {
        side_levels = levels b other;
        order_loc = b.order_loc;
        quantity_io = quantity;
        trades_out = trades;
      }))
