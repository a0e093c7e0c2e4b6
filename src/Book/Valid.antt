-- ===== src/Book/Valid.antt =====
-- The invariant of the book.
use order_matching_machine.Orders.{bid, ask}
use order_matching_machine.Book.{OrderBook}
use order_matching_machine.Book.Levels.{IsSide}
use order_matching_machine.Book.Flat.{side_orders, Indexed}

-- Both sides keep their structure, ids are unique, and `order_loc_` knows where each order rests.
pub record IsValid (b : OrderBook) : Type 0 where
  pub bid_side : IsSide bid b.bids
  pub ask_side : IsSide ask b.asks
  pub indexed : Indexed b.order_loc (side_orders b.bids) (side_orders b.asks)
