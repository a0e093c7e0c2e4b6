-- ===== src/Engine.antt =====
-- include/matching_engine/matching_engine.hpp, src/matching_engine.cpp and the reasons of
-- include/ome/reject_reason.hpp: the engine dispatches a command by its type, and keeps a trade log.
--
-- The loop that crosses an incoming limit order takes fuel; `none` is fuel run out, or an undefined
-- access in the book. Children prove that neither happens on a valid book.
use order_matching_machine.Prelude.{
  ℕ, zero, suc, ◌+◌, ◌-◌, Bool, true, false, ◌||◌, List, [], ◌∷◌, ◌++◌, Option, none, some, length,
  ◌==◌, if◌then◌else◌,
}
use order_matching_machine.Prelude.Words.{sub32}
use order_matching_machine.Orders.{OrderType, market, limit, cancel, Order, Trade}
use order_matching_machine.Book.{
  OrderBook, empty_book, add_order, cancel_order, is_crossed, execute_top_cross,
}
use order_matching_machine.Book.Flat.{all_orders}
use order_matching_machine.Book.Market.{match_market}
pub mod Reasons
use Reasons.{RejectReason, accepted_none, unknown_order}
pub mod CrossStep
pub mod Apart
pub mod TopCross
pub mod CrossLoop
pub mod CrossRun
pub mod Limit
pub mod Others
pub mod Cancel
pub mod Keeps

pub record ApplyResult : Type 0 where
  pub accepted : Bool
  pub reason : RejectReason
  pub filled_qty : ℕ
  pub fully_filled : Bool

pub record MatchingEngine : Type 0 where
  pub book : OrderBook
  pub trade_log : List Trade

unfoldable pub clear_trade_log : MatchingEngine → MatchingEngine
clear_trade_log e = record e { trade_log = [] }

-- What the crossing loop changes: the book, the log, and `remaining`.
pub record CrossState : Type 0 where
  pub book : OrderBook
  pub trade_log : List Trade
  pub remaining : ℕ

-- The loop's body after a successful `execute_top_cross`.
abbrev pub record_trade : ℕ → CrossState → Trade → OrderBook → CrossState
record_trade incoming_id st t b = record {
  book = b;
  trade_log = st.trade_log ++ t ∷ [];
  remaining =
      if t.buyer_id == incoming_id || t.seller_id == incoming_id
      then sub32 st.remaining t.quantity
      else st.remaining;
}

-- `while (remaining > 0 && book_.is_crossed())`
unfoldable pub cross_loop : ℕ → ℕ → CrossState → Option CrossState
cross_loop zero incoming_id st = none
cross_loop (suc fuel) incoming_id st = elim (st.remaining == 0) [
  | true ↦ some st
  | false ↦ elim (is_crossed st.book) [
    | false ↦ some st
    | true ↦ elim (execute_top_cross st.book) [
      | none ↦ some st
      | some (t, b) ↦ cross_loop fuel incoming_id (record_trade incoming_id st t b)
    ]
  ]
]

-- Every round takes an order out, so one round more than orders is enough.
abbrev pub cross_rounds : OrderBook → ℕ
cross_rounds b = suc (length (all_orders b))

abbrev pub limit_result : ℕ → Option CrossState → Option (MatchingEngine × ApplyResult)
limit_result requested none = none
limit_result requested (some st) = some (
  record { book = st.book; trade_log = st.trade_log },
  record {
    accepted = true;
    reason = accepted_none;
    filled_qty = sub32 requested st.remaining;
    fully_filled = st.remaining == 0;
  },
)

-- A limit order rests first, and then crosses.
unfoldable pub process_limit : MatchingEngine → Order → Option (MatchingEngine × ApplyResult)
process_limit e o =
    let b = add_order e.book o in
    limit_result o.quantity (
      cross_loop (cross_rounds b) o.id
        (record { book = b; trade_log = e.trade_log; remaining = o.quantity }))

abbrev pub market_apply :
    ℕ → Option (OrderBook × ℕ × List Trade) → Option (MatchingEngine × ApplyResult)
market_apply requested none = none
market_apply requested (some (b, remaining, trades)) = some (
  record { book = b; trade_log = trades },
  record {
    accepted = true;
    reason = accepted_none;
    filled_qty = sub32 requested remaining;
    fully_filled = true;
  },
)

-- What a market order leaves unfilled is dropped.
unfoldable pub process_market : MatchingEngine → Order → Option (MatchingEngine × ApplyResult)
process_market e o =
    market_apply o.quantity (match_market e.book o.id o.side o.quantity o.timestamp e.trade_log)

unfoldable pub process_cancel : MatchingEngine → Order → Option (MatchingEngine × ApplyResult)
process_cancel e o =
    let (b, removed) = cancel_order e.book o.id in
    some (
      record e { book = b },
      record {
        accepted = removed;
        reason = if removed then accepted_none else unknown_order;
        filled_qty = 0;
        fully_filled = false;
      },
    )

-- `processOrder`. Its branch for any other type is out of reach: the enumeration has three values.
unfoldable pub process_order : MatchingEngine → Order → Option (MatchingEngine × ApplyResult)
process_order e o = elim o.order_type [
  | cancel ↦ process_cancel e o
  | market ↦ process_market e o
  | limit ↦ process_limit e o
]
