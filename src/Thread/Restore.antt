-- ===== src/Thread/Restore.antt =====
-- The thread's state to a snapshot and back: `export_snapshot`, `restore` and
-- `set_snapshot_baseline`.
use order_matching_machine.Prelude.{ℕ, List, [], ◌∷◌, map, ltb, ◌==◌, if◌then◌else◌}
use order_matching_machine.Prelude.Words.{add64}
use order_matching_machine.Orders.{Side, bid, ask, limit, Order}
use order_matching_machine.Book.{add_order}
use order_matching_machine.Book.Flat.{all_orders}
use order_matching_machine.Gateway.Session.{member}
use order_matching_machine.Snapshot.Format.{SnapshotOrder, SnapshotData}
use order_matching_machine.Thread.State.{put, value_or, Exchange, MatchingThread}
use order_matching_machine.Thread.Routing.{key_of, put_set, with_exchange}

abbrev pub side_number : Side → ℕ
side_number bid = 0
side_number ask = 1

abbrev pub side_of_number : ℕ → Side
side_of_number n = if n == 0 then bid else ask

abbrev pub export_order : Exchange → Order → SnapshotOrder
export_order x o = record {
  exchange_id = o.id;
  session = value_or 0 (x.owner_of o.id);
  client_order_id = value_or 0 (x.client_id_of o.id);
  price_ticks = o.price_ticks;
  quantity = o.quantity;
  side = side_number o.side;
  timestamp = o.timestamp;
}

unfoldable pub export_snapshot : MatchingThread → ℕ → SnapshotData
export_snapshot t last_seq = record {
  last_seq = last_seq;
  last_trade_ticks = t.exchange.last_trade_ticks;
  next_exchange_id = t.exchange.next_exchange_id;
  orders = map (export_order t.exchange) (all_orders t.exchange.engine.book);
}

abbrev pub restored_order : SnapshotOrder → Order
restored_order so = record {
  id = so.exchange_id;
  price_ticks = so.price_ticks;
  quantity = so.quantity;
  side = side_of_number so.side;
  order_type = limit;
  timestamp = so.timestamp;
}

-- The `insert` of a set.
abbrev pub insert_id : ℕ → List ℕ → List ℕ
insert_id k ids = if member k ids then ids else k ∷ ids

unfoldable pub restore_order : Exchange → SnapshotOrder → Exchange
restore_order x so =
    let o = restored_order so in
    record x {
      engine = record x.engine { book = add_order x.engine.book o };
      owner_of = put x.owner_of so.exchange_id so.session;
      client_id_of = put x.client_id_of so.exchange_id so.client_order_id;
      remaining_of = put x.remaining_of so.exchange_id so.quantity;
      side_of = put x.side_of so.exchange_id o.side;
      session_orders =
          put_set x.session_orders so.session
            (insert_id so.exchange_id (x.session_orders so.session));
      by_client_id = put x.by_client_id (key_of so.session so.client_order_id) so.exchange_id;
    }

-- The first loop of `restore`.
unfoldable pub restore_orders : Exchange → List SnapshotOrder → Exchange
restore_orders x [] = x
restore_orders x (so ∷ sos) = restore_orders (restore_order x so) sos

-- The second loop: the clock does not stay below a restored order.
unfoldable pub restore_clock : ℕ → List SnapshotOrder → ℕ
restore_clock clock [] = clock
restore_clock clock (so ∷ sos) =
    restore_clock (if ltb clock so.timestamp then so.timestamp else clock) sos

unfoldable pub restore : MatchingThread → SnapshotData → MatchingThread
restore t d =
    let started = record t.exchange {
      last_trade_ticks = d.last_trade_ticks;
      next_exchange_id = d.next_exchange_id;
    } in
    let x = restore_orders started d.orders in
    with_exchange t (record x { logical_clock = restore_clock x.logical_clock d.orders })

unfoldable pub set_snapshot_baseline : MatchingThread → ℕ → MatchingThread
set_snapshot_baseline t seq = record t {
  last_snapshot_seq = seq;
  next_snapshot_at = add64 seq t.snap.every_n;
}
