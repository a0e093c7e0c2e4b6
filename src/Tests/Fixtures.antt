-- ===== src/Tests/Fixtures.antt =====
-- A small book: asks of 5 at 101 and of 10 at 100, a bid of 8 at 90.
use order_matching_machine.Prelude.{ℕ, ◌≡◌, refl, false, [], arith}
use order_matching_machine.Prelude.Int.{pos}
use order_matching_machine.Orders.{Side, bid, ask, OrderType, limit, Order}
use order_matching_machine.Book.{
  OrderBook, empty_book, add_order, insert_order, lower_bound, insert_at, is_crossed,
}
use order_matching_machine.Book.Valid.{IsValid}
use order_matching_machine.Book.Add.{add_order-Added, empty_book-IsValid}
use order_matching_machine.Engine.{MatchingEngine}

abbrev pub order : ℕ → Side → OrderType → ℕ → ℕ → Order
order id s t p q = record {
  id = id;
  price_ticks = pos p;
  quantity = q;
  side = s;
  order_type = t;
  timestamp = id;
}

unfoldable pub one_ask : OrderBook
unfolding empty_book add_order insert_order lower_bound insert_at
one_ask = add_order empty_book (order 1 ask limit 101 5)

unfoldable pub two_asks : OrderBook
unfolding one_ask
two_asks = add_order one_ask (order 2 ask limit 100 10)

unfoldable pub small_book : OrderBook
unfolding two_asks
small_book = add_order two_asks (order 3 bid limit 90 8)

pub one_ask-IsValid : IsValid one_ask
unfolding one_ask
one_ask-IsValid =
    (add_order-Added empty_book (order 1 ask limit 101 5) refl (omega arith) refl
      empty_book-IsValid).valid

pub two_asks-IsValid : IsValid two_asks
unfolding two_asks
two_asks-IsValid =
    (add_order-Added one_ask (order 2 ask limit 100 10) refl (omega arith) refl
      one_ask-IsValid).valid

pub small_book-IsValid : IsValid small_book
unfolding small_book
small_book-IsValid =
    (add_order-Added two_asks (order 3 bid limit 90 8) refl (omega arith) refl
      two_asks-IsValid).valid

pub small_uncrossed : is_crossed small_book ≡ false
unfolding small_book is_crossed
small_uncrossed = refl

abbrev pub small_engine : MatchingEngine
small_engine = record { book = small_book; trade_log = [] }
