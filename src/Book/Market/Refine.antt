-- ===== src/Book/Market/Refine.antt =====
-- `match_market` is the sweep of the opposite side's priority list, and keeps a valid book valid.
use order_matching_machine.Prelude.{ℕ, ◌-◌, ◌≡◌, refl, List, ◌++◌, some, arith, inr}
use order_matching_machine.Orders.{Side, bid, ask, Trade}
use order_matching_machine.Book.{PriceLevel, OrderBook, levels, set_levels}
use order_matching_machine.Book.Levels.{quantity_of}
use order_matching_machine.Book.Flat.{side_orders, Indexed-swap}
use order_matching_machine.Book.Valid.{IsValid}
use order_matching_machine.Book.Market.{MarketState, opposite, market_loop, rounds, match_market}
use order_matching_machine.Book.Market.Loop.{prints, market_loop_sweeps}
use order_matching_machine.Book.Market.Sweep.{
  any, sweep_rest, sweep_left, sweep_fills, sweep_left-any,
}

other_levels :
    (b : OrderBook) (s : Side) (ls : List PriceLevel)
    → levels (set_levels b (opposite s) ls) s ≡ levels b s
other_levels b bid ls = refl
other_levels b ask ls = refl

-- What `match_market` returns, and the book that it leaves.
pub record Matched (b : OrderBook) (id : ℕ) (s : Side) (quantity ts : ℕ) (trades : List Trade)
    (after : OrderBook) : Type 0 where
  pub returned :
      match_market b id s quantity ts trades
      ≡ some (
        after,
        quantity - quantity_of (side_orders (levels b (opposite s))),
        trades ++ prints s id ts (sweep_fills any quantity (side_orders (levels b (opposite s)))),
      )
  pub valid : IsValid after
  pub swept :
      side_orders (levels after (opposite s))
      ≡ sweep_rest any quantity (side_orders (levels b (opposite s)))
  pub untouched : levels after s ≡ levels b s

module _ (b : OrderBook) (id quantity ts : ℕ) (trades : List Trade) (v : IsValid b) where
  returns :
      (s : Side) (out : MarketState)
      → market_loop (rounds (levels b (opposite s))) s id ts (record {
        side_levels = levels b (opposite s);
        order_loc = b.order_loc;
        quantity_io = quantity;
        trades_out = trades;
      })
        ≡ some out
      → out.quantity_io ≡ sweep_left any quantity (side_orders (levels b (opposite s)))
      → out.trades_out
        ≡ trades ++ prints s id ts (sweep_fills any quantity (side_orders (levels b (opposite s))))
      → match_market b id s quantity ts trades
        ≡ some (
          record (set_levels b (opposite s) out.side_levels) { order_loc = out.order_loc },
          quantity - quantity_of (side_orders (levels b (opposite s))),
          trades ++ prints s id ts (sweep_fills any quantity (side_orders (levels b (opposite s)))),
        )
  unfolding match_market
  returns s out ran left printed =
      ground
        (arith, ran, left, printed, sweep_left-any quantity (side_orders (levels b (opposite s))))

  -- `match_market` on a valid book returns: its trades, appended to those it was given, and what it
  -- leaves of the opposite side are the sweep of that side's priority list, the remaining quantity is
  -- what that list could not fill, the own side stays, and the book stays valid.
  pub match_market-Matched :
      (s : Side) → (after : OrderBook) × Matched b id s quantity ts trades after
  match_market-Matched bid =
      let (out, ran, w) =
        market_loop_sweeps bid id ts (side_orders b.bids) (rounds b.asks) _ (inr (omega arith))
          v.ask_side (Indexed-swap _ _ _ v.indexed) in
      (
        record b { asks = out.side_levels; order_loc = out.order_loc },
        record {
          returned = returns bid out ran w.left w.printed;
          valid = record {
            bid_side = v.bid_side;
            ask_side = w.kept;
            indexed = Indexed-swap _ _ _ w.indexed;
          };
          swept = w.rest;
          untouched = refl;
        },
      )
  match_market-Matched ask =
      let (out, ran, w) =
        market_loop_sweeps ask id ts (side_orders b.asks) (rounds b.bids) _ (inr (omega arith))
          v.bid_side v.indexed in
      (
        record b { bids = out.side_levels; order_loc = out.order_loc },
        record {
          returned = returns ask out ran w.left w.printed;
          valid = record { bid_side = w.kept; ask_side = v.ask_side; indexed = w.indexed };
          swept = w.rest;
          untouched = refl;
        },
      )
