-- ===== src/Orders.antt =====
-- include/order.h and include/trade.h: orders, and the prints of a match.
use order_matching_machine.Prelude.{ℕ}
use order_matching_machine.Prelude.Int.{ℤ}

-- `Order::Side`
pub data Side : Type 0 where
  bid ask : Side

-- `Order::Type`
pub data OrderType : Type 0 where
  market limit cancel : OrderType

-- `quantity` is a `uint32_t`, `id` and `timestamp` are `uint64_t`, `price_ticks` an `int64_t`.
pub record Order : Type 0 where
  pub id : ℕ
  pub price_ticks : ℤ
  pub quantity : ℕ
  pub side : Side
  pub order_type : OrderType
  pub timestamp : ℕ

pub record Trade : Type 0 where
  pub buyer_id : ℕ
  pub seller_id : ℕ
  pub price_ticks : ℤ
  pub quantity : ℕ
  pub timestamp : ℕ
