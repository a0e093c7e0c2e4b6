-- ===== src/Thread/Risk.antt =====
-- The risk checks of the matching thread: `check_risk`, `reference_price`, and the limits of
-- include/ome/risk_config.hpp that they read.
use order_matching_machine.Prelude.{ℕ, not, ◌&&◌, Option, none, some, ltb, ◌==◌, if◌then◌else◌}
use order_matching_machine.Prelude.Int.{ℤ, pos, ltb_ℤ, leb_ℤ}
use order_matching_machine.Prelude.Words.{add_i64, sub_i64, mul_i64, half_i64, divides_i64}
use order_matching_machine.Book.{OrderBook}
use order_matching_machine.Book.Queries.{best_ticks}
use order_matching_machine.Engine.Reasons.{
  RejectReason, accepted_none, invalid_price, invalid_qty, risk_max_order_size, risk_price_band,
}
use order_matching_machine.Wire.Messages.{market_type, limit_type}
use order_matching_machine.Wal.Command.{OrderCommand}

-- The limits that the matching thread checks; the rates are the network thread's.
pub record RiskConfig : Type 0 where
  pub max_order_qty : ℕ
  pub tick_size : ℤ
  pub price_band_bp : ℤ

-- The mid of a two-sided book.
abbrev pub mid_price : Option ℤ → Option ℤ → Option ℤ
mid_price (some bid) (some ask) = some (half_i64 (add_i64 bid ask))
mid_price _ _ = none

-- `none` is the `false` of the source: there is no reference.
unfoldable pub reference_price : ℤ → OrderBook → Option ℤ
reference_price last_trade_ticks b =
    if ltb_ℤ (pos 0) last_trade_ticks
    then some last_trade_ticks
    else mid_price (best_ticks b.bids) (best_ticks b.asks)

abbrev pub distance : ℤ → ℤ → ℤ
distance price reference =
    if ltb_ℤ reference price then sub_i64 price reference else sub_i64 reference price

unfoldable pub check_band : RiskConfig → ℤ → Option ℤ → RejectReason
check_band risk price none = accepted_none
check_band risk price (some reference) =
    if ltb_ℤ (mul_i64 reference risk.price_band_bp) (mul_i64 (distance price reference) (pos 10000))
    then risk_price_band
    else accepted_none

unfoldable pub check_price : RiskConfig → ℤ → Option ℤ → RejectReason
check_price risk price reference =
    if leb_ℤ price (pos 0)
    then invalid_price
    else if ltb_ℤ (pos 1) risk.tick_size && not (divides_i64 risk.tick_size price)
    then invalid_price
    else if ltb_ℤ (pos 0) risk.price_band_bp
    then check_band risk price reference
    else accepted_none

unfoldable pub check_risk : RiskConfig → ℤ → OrderBook → OrderCommand → RejectReason
check_risk risk last_trade_ticks b c =
    if c.quantity == 0
    then invalid_qty
    else if ltb risk.max_order_qty c.quantity
    then risk_max_order_size
    else elim c.order_type [
      | market_type ↦ accepted_none
      | limit_type ↦ check_price risk c.price_ticks (reference_price last_trade_ticks b)
    ]
