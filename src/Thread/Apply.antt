-- ===== src/Thread/Apply.antt =====
-- The handlers of the commands.
--
-- `none` is an engine that does not return; Thread/Live shows that it does not come up.
use order_matching_machine.Prelude.{
  ℕ, min, true, false, List, [], ◌∷◌, Option, none, some, length, ◌==◌, if◌then◌else◌,
}
use order_matching_machine.Prelude.Int.{pos}
use order_matching_machine.Prelude.Words.{add64}
use order_matching_machine.Orders.{Side, bid, ask, OrderType, market, limit, cancel, Order}
use order_matching_machine.Engine.{MatchingEngine, ApplyResult, process_order}
use order_matching_machine.Queue.Spsc
use order_matching_machine.Engine.Reasons.{RejectReason, accepted_none, unknown_order}
use order_matching_machine.Wire.Messages.{
  WireSide, bid_side, ask_side, WireOrderType, market_type, limit_type, max_book_depth,
}
use order_matching_machine.Wal.Command.{new_order_command, OrderCommand}
use order_matching_machine.Gateway.Events.{ack, reject, session_retired}
use order_matching_machine.Thread.Risk.{check_risk}
use order_matching_machine.Thread.State.{
  Map, put, erase, value_or, egress_capacity, Exchange, Outbox, MatchingThread,
}
use order_matching_machine.Thread.Routing.{
  key_of, find_order, put_set, forget_order, with_exchange, emit, publish_book, publish_trades,
  cleared,
}

abbrev pub order_side : WireSide → Side
order_side bid_side = bid
order_side ask_side = ask

abbrev pub wire_side : Side → WireSide
wire_side bid = bid_side
wire_side ask = ask_side

abbrev pub engine_type : WireOrderType → OrderType
engine_type market_type = market
engine_type limit_type = limit

abbrev pub book_order : Exchange → OrderCommand → Order
book_order x c = record {
  id = x.next_exchange_id;
  price_ticks = c.price_ticks;
  quantity = c.quantity;
  side = order_side c.side;
  order_type = engine_type c.order_type;
  timestamp = add64 x.logical_clock 1;
}

-- The maps and counters with the order recorded, before the engine sees it.
unfoldable pub record_order : Exchange → OrderCommand → Order → Exchange
record_order x c o = record x {
  next_exchange_id = add64 x.next_exchange_id 1;
  logical_clock = add64 x.logical_clock 1;
  owner_of = put x.owner_of o.id c.session;
  client_id_of = put x.client_id_of o.id c.client_order_id;
  remaining_of = put x.remaining_of o.id c.quantity;
  side_of = put x.side_of o.id o.side;
  session_orders = put_set x.session_orders c.session (o.id ∷ x.session_orders c.session);
  by_client_id = put x.by_client_id (key_of c.session c.client_order_id) o.id;
}

abbrev pub with_engine : Exchange → MatchingEngine → Exchange
with_engine x e = record x { engine = e }

abbrev pub forgotten : MatchingThread → ℕ → MatchingThread
forgotten t xoid = with_exchange t (forget_order t.exchange xoid)

-- A market order's remainder does not rest.
abbrev pub drop_type : OrderType → ℕ → MatchingThread → MatchingThread
drop_type market xoid t = forgotten t xoid
drop_type _ xoid t = t

abbrev pub drop_market : Order → MatchingThread → MatchingThread
drop_market o t = drop_type o.order_type o.id t

-- What follows on the engine's answer to a new order.
unfoldable pub answer_new_order :
    MatchingThread → OrderCommand → Order → ℕ → ApplyResult → MatchingThread
answer_new_order t c o before r =
    if r.accepted
    then drop_market o (
        publish_book
          (publish_trades (emit t c.session (ack c.session c.client_order_id o.id false)) before))
    else emit (forgotten t o.id) c.session (reject c.session c.client_order_id r.reason)

abbrev pub run_new_order :
    MatchingThread
    → OrderCommand
    → Order
    → ℕ
    → Option (MatchingEngine × ApplyResult)
    → Option MatchingThread
run_new_order t c o before none = none
run_new_order t c o before (some (e, r)) =
    some (answer_new_order (with_exchange t (with_engine t.exchange e)) c o before r)

-- A new order that passed the risk checks.
unfoldable pub place_order : MatchingThread → OrderCommand → Option MatchingThread
place_order t c =
    let o = book_order t.exchange c in
    let x = record_order t.exchange c o in
    run_new_order (with_exchange t x) c o (length x.engine.trade_log) (process_order x.engine o)

abbrev pub gate : MatchingThread → OrderCommand → RejectReason → Option MatchingThread
gate t c accepted_none = place_order t c
gate t c risk = some (emit t c.session (reject c.session c.client_order_id risk))

unfoldable pub apply_new_order : MatchingThread → OrderCommand → Option MatchingThread
apply_new_order t c =
    gate t c (check_risk t.risk t.exchange.last_trade_ticks t.exchange.engine.book c)

-- `Order cancel{}` with its id and type.
abbrev pub cancel_of : ℕ → Order
cancel_of xoid = record {
  id = xoid;
  price_ticks = pos 0;
  quantity = 0;
  side = bid;
  order_type = cancel;
  timestamp = 0;
}

unfoldable pub answer_cancel :
    MatchingThread
    → OrderCommand
    → ℕ
    → Option (MatchingEngine × ApplyResult)
    → Option MatchingThread
answer_cancel t c xoid none = none
answer_cancel t c xoid (some (e, r)) =
    let u = with_exchange t (with_engine t.exchange e) in
    some (
      if r.accepted
      then publish_book
          (emit (forgotten u xoid) c.session (ack c.session c.client_order_id xoid true))
      else emit u c.session (reject c.session c.client_order_id r.reason))

unfoldable pub apply_cancel : MatchingThread → OrderCommand → Option MatchingThread
apply_cancel t c =
    let xoid = find_order t.exchange c.session c.client_order_id in
    if xoid == 0
    then some (emit t c.session (reject c.session c.client_order_id unknown_order))
    else answer_cancel t c xoid (process_order t.exchange.engine (cancel_of xoid))

abbrev pub replacement : OrderCommand → Side → OrderCommand
replacement c old_side = record c {
  command_type = new_order_command;
  order_type = limit_type;
  side = wire_side old_side;
}

-- The second half of a modify. `side_of_[old_id]` puts BID where nothing is recorded.
unfoldable pub answer_modify :
    MatchingThread
    → OrderCommand
    → ℕ
    → Option (MatchingEngine × ApplyResult)
    → Option MatchingThread
answer_modify t c old_id none = none
answer_modify t c old_id (some (e, r)) =
    let old_side = value_or bid (t.exchange.side_of old_id) in
    let x = record t.exchange { engine = e; side_of = put t.exchange.side_of old_id old_side } in
    let u = with_exchange t x in
    if r.accepted
    then apply_new_order (forgotten u old_id) (replacement c old_side)
    else some (emit u c.session (reject c.session c.client_order_id unknown_order))

unfoldable pub apply_modify : MatchingThread → OrderCommand → Option MatchingThread
apply_modify t c =
    let old_id = find_order t.exchange c.session c.client_order_id in
    if old_id == 0
    then some (emit t c.session (reject c.session c.client_order_id unknown_order))
    else answer_modify t c old_id (process_order t.exchange.engine (cancel_of old_id))

-- The loop of `apply_cancel_all`: the engine's answers are ignored.
unfoldable pub cancel_ids : Exchange → List ℕ → Option Exchange
cancel_ids x [] = some x
cancel_ids x (xoid ∷ ids) = elim (process_order x.engine (cancel_of xoid)) [
  | none ↦ none
  | some (e, r) ↦ cancel_ids (forget_order (with_engine x e) xoid) ids
]

unfoldable pub unsubscribe : ℕ → List (ℕ × ℕ) → List (ℕ × ℕ)
unsubscribe s [] = []
unsubscribe s ((k, depth) ∷ subs) =
    let rest = unsubscribe s subs in if k == s then rest else (k, depth) ∷ rest

-- A push whose answer is ignored: no latch, and no count.
unfoldable pub push_tombstone : Outbox → ℕ → Option ℕ → Outbox
push_tombstone b s none = b
push_tombstone b s (some q) = record b {
  egress_queues = λ i.
      if i == q
      then record (b.egress_queues q) {
        queue = (Spsc.push egress_capacity (b.egress_queues q).queue (session_retired s)).1;
      }
      else b.egress_queues i;
}

unfoldable pub retire : Outbox → ℕ → Outbox
retire b s = record (push_tombstone b s (b.egress s)) {
  egress = erase b.egress s;
  md = erase b.md s;
  subscribers = unsubscribe s b.subscribers;
  stats = record b.stats { sessions_retired = add64 b.stats.sessions_retired 1 };
}

abbrev pub finish_cancel_all : MatchingThread → ℕ → Option Exchange → Option MatchingThread
finish_cancel_all t s none = none
finish_cancel_all t s (some x) = some (
    publish_book (record t {
      exchange = record (cleared x) { session_orders = put_set x.session_orders s [] };
      outbox = retire t.outbox s;
    }))

unfoldable pub apply_cancel_all : MatchingThread → OrderCommand → Option MatchingThread
apply_cancel_all t c =
    finish_cancel_all t c.session (cancel_ids t.exchange (t.exchange.session_orders c.session))

-- A null pointer is a missing entry.
abbrev pub put_pointer : Map ℕ → ℕ → Option ℕ → Map ℕ
put_pointer m s none = erase m s
put_pointer m s (some q) = put m s q

unfoldable pub open_session : Outbox → OrderCommand → Outbox
open_session b c = record b {
  egress = put_pointer b.egress c.session c.egress;
  md = put_pointer b.md c.session c.md_queue;
}

abbrev pub depth_of : ℕ → ℕ
depth_of quantity = min (if quantity == 0 then max_book_depth else quantity) max_book_depth

unfoldable pub apply_subscribe : MatchingThread → OrderCommand → MatchingThread
apply_subscribe t c =
    let subs = (c.session, depth_of c.quantity) ∷ unsubscribe c.session t.outbox.subscribers in
    publish_book (
      emit (record t { outbox = record t.outbox { subscribers = subs } }) c.session
        (ack c.session 0 0 false))
