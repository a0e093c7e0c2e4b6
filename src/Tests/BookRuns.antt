-- ===== src/Tests/BookRuns.antt =====
-- The book's operations, run on the small book.
use order_matching_machine.Prelude.{
  ◌≡◌, refl, ◌⊎◌, true, false, List, All, [], ◌∷◌, none, some, arith, map,
}
use order_matching_machine.Prelude.Int.{pos}
use order_matching_machine.Orders.{bid, ask, limit, Order}
use order_matching_machine.Book.{OrderBook}
use order_matching_machine.Book.Flat.{side_orders}
use order_matching_machine.Book.Add.{Added, add_order-Added}
use order_matching_machine.Book.Cancel.{Cancelled, cancel_order-Cancelled}
use order_matching_machine.Book.Queries.{
  side_consistent, sum_quantity, InStep, levels_consistent, levels_consistent_lem, best_ticks,
  NoneBetter, best_ticks_lem,
}
use order_matching_machine.Book.Market.Refine.{Matched, match_market-Matched}
use order_matching_machine.Tests.Fixtures.{order, small_book, small_book-IsValid}

-- The better ask stands first.
small_book_asks : map (λ (o : Order). o.id) (side_orders small_book.asks) ≡ 2 ∷ 1 ∷ []
unfolding small_book side_orders
small_book_asks = refl

add_order-Added_example : Added small_book (order 4 bid limit 95 3)
unfolding small_book
add_order-Added_example =
    add_order-Added small_book (order 4 bid limit 95 3) refl (omega arith) refl small_book-IsValid

cancel_order-Cancelled_example : (after : OrderBook) × Cancelled small_book 1 ask after
unfolding small_book
cancel_order-Cancelled_example =
    cancel_order-Cancelled small_book 1 ask (pos 101) refl small_book-IsValid

match_market-Matched_example : (after : OrderBook) × Matched small_book 9 bid 12 7 [] after
match_market-Matched_example = match_market-Matched small_book 9 12 7 [] small_book-IsValid bid

best_ticks_lem_example :
    ((best_ticks small_book.asks ≡ none) × (side_orders small_book.asks ≡ []))
    ⊎ ((o : Order) × (os : List Order) × (side_orders small_book.asks ≡ o ∷ os)
        × (best_ticks small_book.asks ≡ some o.price_ticks)
        × NoneBetter ask o.price_ticks (side_orders small_book.asks))
best_ticks_lem_example = best_ticks_lem ask small_book.asks small_book-IsValid.ask_side

-- A level whose total is out of step with its queue is found out, also among the asks.
broken_ask :
    levels_consistent (record small_book {
      asks =
          (record { price_ticks = pos 90; total_qty = 2; orders = order 9 ask limit 90 1 ∷ [] })
          ∷ [];
    })
    ≡ false
unfolding small_book levels_consistent side_consistent sum_quantity
broken_ask = refl

levels_consistent_lem_example :
    ((levels_consistent small_book ≡ true)
      × (All InStep small_book.bids × All InStep small_book.asks))
    ⊎ ((levels_consistent small_book ≡ false)
        × (¬ (All InStep small_book.bids × All InStep small_book.asks)))
levels_consistent_lem_example = levels_consistent_lem small_book
