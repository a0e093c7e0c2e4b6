-- ===== src/Thread/Routing.antt =====
-- Who hears of what: the ownership maps, the events to sessions, and the market data.
use order_matching_machine.Prelude.{
  ℕ, ◌-◌, ◌*◌, ◌%◌, ◌^◌, bit_xor, true, ◌||◌, List, [], ◌∷◌, Option, none, some, length, drop,
  is_empty, ltb, ◌==◌, if◌then◌else◌,
}
use order_matching_machine.Prelude.Words.{add64}
use order_matching_machine.Orders.{Trade}
use order_matching_machine.Book.{OrderBook}
use order_matching_machine.Book.Queries.{levels_ticks}
use order_matching_machine.Engine.{clear_trade_log}
use order_matching_machine.Queue.Spsc.{Spsc}
use order_matching_machine.Queue.Spsc
use order_matching_machine.Wire.Messages.{max_book_depth}
use order_matching_machine.Gateway.Session.{remove}
use order_matching_machine.Gateway.Events.{OrderEvent, fill}
use order_matching_machine.Thread.State.{
  put, erase, value_or, egress_capacity, market_data_capacity, BookSnapshot, Exchange, Outbox,
  MatchingThread,
}

-- Session and client order id in one key, on 64 bits.
unfoldable pub key_of : ℕ → ℕ → ℕ
key_of s coid = bit_xor (s * 2 ^ 40 % 2 ^ 64) (coid * 0x9E3779B97F4A7C15 % 2 ^ 64)

-- 0 where there is no such order.
unfoldable pub find_order : Exchange → ℕ → ℕ → ℕ
find_order x s client_order_id = value_or 0 (x.by_client_id (key_of s client_order_id))

abbrev pub put_set : (ℕ → List ℕ) → ℕ → List ℕ → ℕ → List ℕ
put_set m s ids = λ i. if i == s then ids else m i

-- The part of `forget_order` that needs the owner.
abbrev pub forget_owned : Exchange → ℕ → ℕ → Exchange
forget_owned x xoid s = record x {
  by_client_id = elim (x.client_id_of xoid) [
    | none ↦ x.by_client_id
    | some coid ↦ erase x.by_client_id (key_of s coid)
  ];
  session_orders = put_set x.session_orders s (remove xoid (x.session_orders s));
  owner_of = erase x.owner_of xoid;
}

abbrev pub forget_owner : Exchange → ℕ → Option ℕ → Exchange
forget_owner x xoid none = x
forget_owner x xoid (some s) = forget_owned x xoid s

unfoldable pub forget_order : Exchange → ℕ → Exchange
forget_order x xoid = record (forget_owner x xoid (x.owner_of xoid)) {
  client_id_of = erase x.client_id_of xoid;
  remaining_of = erase x.remaining_of xoid;
  side_of = erase x.side_of xoid;
}

-- The exchange changes, and nothing else.
abbrev pub with_exchange : MatchingThread → Exchange → MatchingThread
with_exchange t x = record t { exchange = x }

unfoldable pub push_event : Outbox → ℕ → OrderEvent → Outbox
push_event b q e =
    let (ok, queue) = Spsc.push egress_capacity (b.egress_queues q).queue e in
    if ok
    then record b {
      egress_queues =
          λ i. if i == q then record (b.egress_queues q) { queue = queue } else b.egress_queues i;
      stats = record b.stats { events_emitted = add64 b.stats.events_emitted 1 };
    }
    else record b {
      egress_queues = λ i.
          if i == q then record (b.egress_queues q) { overflowed = true } else b.egress_queues i;
      stats = record b.stats { egress_overflows = add64 b.stats.egress_overflows 1 };
    }

-- `emit`, to the queue of `egress_for`.
unfoldable pub emit : MatchingThread → ℕ → OrderEvent → MatchingThread
emit t s e = if t.replaying then t else elim (t.outbox.egress s) [
  | none ↦ t
  | some q ↦ record t { outbox = push_event t.outbox q e }
]

abbrev pub sized : ℕ → BookSnapshot → BookSnapshot
sized depth snap = record snap {
  n_bids = if ltb depth snap.n_bids then depth else snap.n_bids;
  n_asks = if ltb depth snap.n_asks then depth else snap.n_asks;
}

unfoldable pub push_snapshot : Outbox → ℕ → BookSnapshot → Outbox
push_snapshot b q snap =
    let (ok, queue) = Spsc.push market_data_capacity (b.md_queues q) snap in
    if ok then record b { md_queues = λ i. if i == q then queue else b.md_queues i } else record b {
      stats = record b.stats { market_data_dropped = add64 b.stats.market_data_dropped 1 };
    }

-- The loop over the subscribers.
unfoldable pub push_snapshots : List (ℕ × ℕ) → BookSnapshot → Outbox → Outbox
push_snapshots [] snap b = b
push_snapshots ((session, depth) ∷ subs) snap b = elim (b.md session) [
  | none ↦ push_snapshots subs snap b
  | some q ↦ push_snapshots subs snap (push_snapshot b q (sized depth snap))
]

abbrev pub snapshot_of : ℕ → OrderBook → BookSnapshot
snapshot_of seq book =
    let bids = levels_ticks max_book_depth book.bids in
    let asks = levels_ticks max_book_depth book.asks in
    record { seq = seq; n_bids = length bids; n_asks = length asks; bids = bids; asks = asks }

unfoldable pub publish_book : MatchingThread → MatchingThread
publish_book t =
    let seq = add64 t.outbox.book_seq 1 in
    if t.replaying || is_empty t.outbox.subscribers then t else record t {
      outbox =
          push_snapshots t.outbox.subscribers (snapshot_of seq t.exchange.engine.book)
            (record t.outbox { book_seq = seq });
    }

abbrev pub less_or_zero : ℕ → ℕ → ℕ
less_or_zero rem quantity = if ltb quantity rem then rem - quantity else 0

-- The exchange after a fill of an order that has an owner.
abbrev pub filled : Exchange → ℕ → ℕ → Exchange
filled x xoid rem =
    let y = record x { remaining_of = put x.remaining_of xoid rem } in
    if rem == 0 then forget_order y xoid else y

unfoldable pub route_fill : MatchingThread → ℕ → Trade → MatchingThread
route_fill t xoid d = elim (t.exchange.owner_of xoid) [
  | none ↦ t
  | some s ↦
      let rem = less_or_zero (value_or 0 (t.exchange.remaining_of xoid)) d.quantity in
      let coid = value_or 0 (t.exchange.client_id_of xoid) in
      with_exchange (emit t s (fill s coid xoid d.price_ticks d.quantity rem))
        (filled t.exchange xoid rem)
]

unfoldable pub route_trades : MatchingThread → List Trade → MatchingThread
route_trades t [] = t
route_trades t (d ∷ ds) =
    let u = with_exchange t (record t.exchange { last_trade_ticks = d.price_ticks }) in
    route_trades (route_fill (route_fill u d.buyer_id d) d.seller_id d) ds

abbrev pub cleared : Exchange → Exchange
cleared x = record x { engine = clear_trade_log x.engine }

unfoldable pub publish_trades : MatchingThread → ℕ → MatchingThread
publish_trades t from =
    let u = route_trades t (drop from t.exchange.engine.trade_log) in
    with_exchange u (cleared u.exchange)
