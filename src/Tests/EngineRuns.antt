-- ===== src/Tests/EngineRuns.antt =====
-- The engine, run on the small book.
use order_matching_machine.Prelude.{◌≡◌, ◌⊎◌, none, refl, arith}
use order_matching_machine.Prelude.Int.{pos}
use order_matching_machine.Orders.{bid, ask, market, limit, cancel}
use order_matching_machine.Engine.{MatchingEngine, ApplyResult}
use order_matching_machine.Engine.Limit.{LimitDone, process_order-LimitDone}
use order_matching_machine.Engine.Others.{
  MarketDone, process_order-MarketDone, CancelDone, process_order-CancelDone,
}
use order_matching_machine.Engine.Cancel.{CancelAnswer, process_order-CancelAnswer}
use order_matching_machine.Engine.CrossLoop.{NoMeet}
use order_matching_machine.Engine.TopCross.{TopCross, execute_top_cross_lem}
use order_matching_machine.Book.{OrderBook, add_order, execute_top_cross}
use order_matching_machine.Book.Flat.{side_orders}
use order_matching_machine.Book.Valid.{IsValid}
use order_matching_machine.Book.Add.{add_order-Added}
use order_matching_machine.Engine.Keeps.{
  Kept, process_order-Kept, ZeroRests, process_order-limit_zero,
}
use order_matching_machine.Tests.Fixtures.{
  order, small_book, small_engine, small_book-IsValid, small_uncrossed,
}

-- A bid of 12 at 101 rests over the asks: the book is crossed.
crossed_book : OrderBook
unfolding small_book
crossed_book = add_order small_book (order 4 bid limit 101 12)

crossed_book-IsValid : IsValid crossed_book
unfolding crossed_book
crossed_book-IsValid =
    (add_order-Added small_book (order 4 bid limit 101 12) refl (omega arith) refl
      small_book-IsValid).valid

process_order-LimitDone_example :
    (after : MatchingEngine) × (r : ApplyResult) × LimitDone small_engine
      (order 4 bid limit 101 12)
      after
      r
unfolding small_book
process_order-LimitDone_example =
    process_order-LimitDone small_engine (order 4 bid limit 101 12) small_book-IsValid
      small_uncrossed refl (omega arith) (omega arith) refl

process_order-MarketDone_example :
    (after : MatchingEngine) × (r : ApplyResult) × MarketDone small_engine
      (order 4 bid market 0 12)
      after
      r
process_order-MarketDone_example =
    process_order-MarketDone small_engine (order 4 bid market 0 12) refl (omega arith)
      small_book-IsValid small_uncrossed

process_order-CancelDone_example :
    (after : MatchingEngine) × (r : ApplyResult) × CancelDone small_engine
      (order 2 bid cancel 0 0)
      ask
      after
      r
unfolding small_book
process_order-CancelDone_example =
    process_order-CancelDone small_engine (order 2 bid cancel 0 0) ask (pos 100) refl refl
      small_book-IsValid small_uncrossed

process_order-CancelAnswer_example :
    (after : MatchingEngine) × (r : ApplyResult) × CancelAnswer small_engine
      (order 7 bid cancel 0 0)
      after
      r
process_order-CancelAnswer_example =
    process_order-CancelAnswer small_engine (order 7 bid cancel 0 0) refl small_book-IsValid
      small_uncrossed

process_order-Kept_example :
    (after : MatchingEngine) × (r : ApplyResult) × Kept small_engine
      (order 4 ask limit 90 3)
      after
      r
unfolding small_book
process_order-Kept_example =
    process_order-Kept small_engine (order 4 ask limit 90 3) small_book-IsValid small_uncrossed
      (omega arith) (λ t. (omega arith, refl))

process_order-limit_zero_example :
    (after : MatchingEngine) × (r : ApplyResult) × ZeroRests small_engine
      (order 4 ask limit 80 0)
      after
      r
unfolding small_book
process_order-limit_zero_example =
    process_order-limit_zero small_engine (order 4 ask limit 80 0) refl refl refl small_book-IsValid

execute_top_cross_lem_example :
    ((execute_top_cross crossed_book ≡ none)
      × NoMeet bid (side_orders crossed_book.bids) (side_orders crossed_book.asks))
    ⊎ TopCross crossed_book
execute_top_cross_lem_example = execute_top_cross_lem crossed_book crossed_book-IsValid
