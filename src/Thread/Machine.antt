-- ===== src/Thread/Machine.antt =====
-- The matching thread without its outbox: what a command does to the exchange depends on the exchange,
-- the risk limits and the command alone.
use order_matching_machine.Prelude.{
  ℕ, List, [], ◌∷◌, Option, none, some, length, drop, ◌==◌, if◌then◌else◌,
}
use order_matching_machine.Orders.{bid, OrderType, market, Order, Trade}
use order_matching_machine.Engine.{MatchingEngine, ApplyResult, process_order}
use order_matching_machine.Engine.Reasons.{RejectReason, accepted_none}
use order_matching_machine.Wal.Command.{
  CommandType, session_opened_command, new_order_command, cancel_command, modify_command,
  subscribe_command, cancel_all_command, OrderCommand,
}
use order_matching_machine.Thread.Risk.{RiskConfig, check_risk}
use order_matching_machine.Thread.State.{put, value_or, Exchange}
use order_matching_machine.Thread.Routing.{
  find_order, put_set, forget_order, less_or_zero, filled, cleared,
}
use order_matching_machine.Thread.Apply.{
  book_order, record_order, with_engine, cancel_of, replacement, cancel_ids,
}

abbrev pub fill_of : Exchange → ℕ → Trade → Exchange
fill_of x xoid d = elim (x.owner_of xoid) [
  | none ↦ x
  | some s ↦ filled x xoid (less_or_zero (value_or 0 (x.remaining_of xoid)) d.quantity)
]

unfoldable pub fills_of : Exchange → List Trade → Exchange
fills_of x [] = x
fills_of x (d ∷ ds) =
    fills_of
      (fill_of (fill_of (record x { last_trade_ticks = d.price_ticks }) d.buyer_id d) d.seller_id d)
      ds

abbrev pub trades_of : Exchange → ℕ → Exchange
trades_of x from = cleared (fills_of x (drop from x.engine.trade_log))

abbrev pub drop_of : OrderType → ℕ → Exchange → Exchange
drop_of market xoid x = forget_order x xoid
drop_of _ xoid x = x

abbrev pub answer_of : Exchange → Order → ℕ → ApplyResult → Exchange
answer_of x o before r =
    if r.accepted then drop_of o.order_type o.id (trades_of x before) else forget_order x o.id

abbrev pub run_of : Exchange → Order → ℕ → Option (MatchingEngine × ApplyResult) → Option Exchange
run_of x o before none = none
run_of x o before (some (e, r)) = some (answer_of (with_engine x e) o before r)

abbrev pub place_of : Exchange → OrderCommand → Option Exchange
place_of x c =
    let o = book_order x c in
    let y = record_order x c o in run_of y o (length y.engine.trade_log) (process_order y.engine o)

abbrev pub gate_of : Exchange → OrderCommand → RejectReason → Option Exchange
gate_of x c accepted_none = place_of x c
gate_of x c risk = some x

abbrev pub new_order_of : RiskConfig → Exchange → OrderCommand → Option Exchange
new_order_of risk x c = gate_of x c (check_risk risk x.last_trade_ticks x.engine.book c)

abbrev pub cancel_answer_of : Exchange → ℕ → Option (MatchingEngine × ApplyResult) → Option Exchange
cancel_answer_of x xoid none = none
cancel_answer_of x xoid (some (e, r)) =
    some (if r.accepted then forget_order (with_engine x e) xoid else with_engine x e)

abbrev pub cancel_machine : Exchange → OrderCommand → Option Exchange
cancel_machine x c =
    let xoid = find_order x c.session c.client_order_id in
    if xoid == 0 then some x else cancel_answer_of x xoid (process_order x.engine (cancel_of xoid))

abbrev pub modify_answer_of :
    RiskConfig
    → Exchange
    → OrderCommand
    → ℕ
    → Option (MatchingEngine × ApplyResult)
    → Option Exchange
modify_answer_of risk x c old_id none = none
modify_answer_of risk x c old_id (some (e, r)) =
    let old_side = value_or bid (x.side_of old_id) in
    let y = record x { engine = e; side_of = put x.side_of old_id old_side } in
    if r.accepted
    then new_order_of risk (forget_order y old_id) (replacement c old_side)
    else some y

abbrev pub modify_machine : RiskConfig → Exchange → OrderCommand → Option Exchange
modify_machine risk x c =
    let old_id = find_order x c.session c.client_order_id in
    if old_id == 0
    then some x
    else modify_answer_of risk x c old_id (process_order x.engine (cancel_of old_id))

abbrev pub finish_of : ℕ → Option Exchange → Option Exchange
finish_of s none = none
finish_of s (some x) = some (record (cleared x) { session_orders = put_set x.session_orders s [] })

abbrev pub cancel_all_machine : Exchange → OrderCommand → Option Exchange
cancel_all_machine x c = finish_of c.session (cancel_ids x (x.session_orders c.session))

abbrev pub by_kind : RiskConfig → Exchange → OrderCommand → CommandType → Option Exchange
by_kind risk x c session_opened_command = some x
by_kind risk x c subscribe_command = some x
by_kind risk x c new_order_command = new_order_of risk x c
by_kind risk x c cancel_command = cancel_machine x c
by_kind risk x c modify_command = modify_machine risk x c
by_kind risk x c cancel_all_command = cancel_all_machine x c

-- What a command does to the exchange.
unfoldable pub machine : RiskConfig → Exchange → OrderCommand → Option Exchange
machine risk x c = by_kind risk x c c.command_type
