-- ===== src/Thread/Gate.antt =====
-- New orders through the risk checks, against the ledger.
use order_matching_machine.Prelude.{
  ℕ, ◌+◌, ◌≤◌, ◌<◌, ◌^◌, ◌≡◌, refl, ap, subst, sym, Option, some, arith,
}
use order_matching_machine.Engine.Reasons.{
  RejectReason, accepted_none, unknown_order, invalid_price, invalid_qty, duplicate_order_id,
  risk_max_order_size, risk_price_band, malformed, rate_limited, not_subscribed,
  unknown_message_type, not_implemented,
}
use order_matching_machine.Prelude.Int.{ℤ}
use order_matching_machine.Book.{OrderBook}
use order_matching_machine.Wal.Command.{OrderCommand}
use order_matching_machine.Gateway.Events.{OrderEvent, reject}
use order_matching_machine.Thread.Risk.{RiskConfig, check_risk}
use order_matching_machine.Thread.State.{Exchange, MatchingThread}
use order_matching_machine.Thread.Routing.{emit}
use order_matching_machine.Thread.Apply.{gate, apply_new_order}
use order_matching_machine.Thread.Fills.{emit-exchange}
use order_matching_machine.Thread.Ledger.{IsLedger}
use order_matching_machine.Thread.NewOrder.{place_order-Ledger}

-- An answer comes, the ledger holds after it, and at most one id was given out.
abbrev pub Stands : ℕ → Option MatchingThread → Type 0
Stands n o =
    (u : MatchingThread) × (o ≡ some u)
    × IsLedger u.exchange
    × (u.exchange.next_exchange_id ≤ n + 1)

-- An answer that leaves the exchange as it is.
pub unchanged :
    (t u : MatchingThread)
    → IsLedger t.exchange
    → u.exchange ≡ t.exchange
    → Stands t.exchange.next_exchange_id (some u)
unchanged t u l h = (
  u,
  refl,
  subst IsLedger (sym h) l,
  let same = ap (λ (x : Exchange). x.next_exchange_id) h in omega (arith, same),
)

pub emitted :
    (t : MatchingThread) (s : ℕ) (e : OrderEvent)
    → IsLedger t.exchange
    → Stands t.exchange.next_exchange_id (some (emit t s e))
emitted t s e l = unchanged t (emit t s e) l (emit-exchange t s e)

-- What passes the risk checks has a quantity.
pub check_risk-quantity :
    (risk : RiskConfig) (last : ℤ) (b : OrderBook) (c : OrderCommand)
    → check_risk risk last b c ≡ accepted_none
    → 0 < c.quantity
unfolding check_risk
check_risk-quantity risk last b c h = ground arith

module _ (t : MatchingThread) (c : OrderCommand) (l : IsLedger t.exchange)
    (word : c.quantity < 2 ^ 32) (next : t.exchange.next_exchange_id + 1 < 2 ^ 64) where
  refused :
      (r : RejectReason)
      → Stands t.exchange.next_exchange_id
          (some (emit t c.session (reject c.session c.client_order_id r)))
  refused r = emitted t c.session (reject c.session c.client_order_id r) l

  gate-Stands :
      (r : RejectReason)
      → (r ≡ accepted_none → 0 < c.quantity)
      → Stands t.exchange.next_exchange_id (gate t c r)
  gate-Stands accepted_none p =
      let (u, returned, ledger, id) = place_order-Ledger t c l (p refl) word next in
      (u, returned, ledger, omega (arith, id))
  gate-Stands unknown_order p = refused unknown_order
  gate-Stands invalid_price p = refused invalid_price
  gate-Stands invalid_qty p = refused invalid_qty
  gate-Stands duplicate_order_id p = refused duplicate_order_id
  gate-Stands risk_max_order_size p = refused risk_max_order_size
  gate-Stands risk_price_band p = refused risk_price_band
  gate-Stands malformed p = refused malformed
  gate-Stands rate_limited p = refused rate_limited
  gate-Stands not_subscribed p = refused not_subscribed
  gate-Stands unknown_message_type p = refused unknown_message_type
  gate-Stands not_implemented p = refused not_implemented

  pub apply_new_order-Stands : Stands t.exchange.next_exchange_id (apply_new_order t c)
  unfolding apply_new_order
  apply_new_order-Stands =
      gate-Stands (check_risk t.risk t.exchange.last_trade_ticks t.exchange.engine.book c)
        (check_risk-quantity t.risk t.exchange.last_trade_ticks t.exchange.engine.book c)
