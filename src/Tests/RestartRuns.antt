-- ===== src/Tests/RestartRuns.antt =====
-- A restart of a thread in which one order rests.
use order_matching_machine.Prelude.{◌≡◌, refl, true, [], ◌∷◌, none, some, arith}
use order_matching_machine.Orders.{bid, limit}
use order_matching_machine.Book.{
  OrderBook, empty_book, add_order, insert_order, lower_bound, insert_at, is_crossed,
}
use order_matching_machine.Book.Add.{add_order-Added, empty_book-IsValid}
use order_matching_machine.Book.Flat.{side_orders, all_orders}
use order_matching_machine.Gateway.Session.{member}
use order_matching_machine.Snapshot.Format.{
  SnapshotData, FileWrite, encode_snapshot, put_orders, put_order, write_snapshot, read_snapshot,
}
use order_matching_machine.Snapshot.RoundTrip.{SnapshotFits}
use order_matching_machine.Thread.State.{put, Exchange, MatchingThread, new_exchange}
use order_matching_machine.Thread.Routing.{put_set}
use order_matching_machine.Thread.Restore.{export_snapshot, restore}
use order_matching_machine.Thread.Ledger.{IsLedger}
use order_matching_machine.Thread.Takeover.{Restored}
use order_matching_machine.Thread.Restarted.{restore-write_snapshot}
use order_matching_machine.Tests.Fixtures.{order}
use order_matching_machine.Tests.ThreadRuns.{thread}

unfoldable one_bid : OrderBook
one_bid = add_order empty_book (order 1 bid limit 100 5)

abbrev one_order_left : Exchange
one_order_left = record new_exchange {
  engine = record { book = one_bid; trade_log = [] };
  owner_of = put (λ k. none) 1 3;
  client_id_of = put (λ k. none) 1 7;
  remaining_of = put (λ k. none) 1 5;
  side_of = put (λ k. none) 1 bid;
  session_orders = put_set (λ k. []) 3 (1 ∷ []);
  next_exchange_id = 2;
}

one_order_left-IsLedger : IsLedger one_order_left
unfolding one_bid add_order insert_order lower_bound insert_at empty_book side_orders is_crossed
one_order_left-IsLedger = record {
  valid =
      (add_order-Added empty_book (order 1 bid limit 100 5) refl (omega arith) refl
        empty_book-IsValid).valid;
  uncrossed = refl;
  log_clear = refl;
  bids_positive = (omega arith, tt);
  asks_positive = tt;
  tracked = record {
    remaining = λ k. ground arith;
    owned = λ k. ground arith;
    sets = λ s k. unfold member in ground arith;
  };
  fresh = λ k m. ground (arith, m);
}

abbrev running : MatchingThread
running = record (thread none) { exchange = one_order_left }

exported-SnapshotFits : SnapshotFits (export_snapshot running 4)
unfolding export_snapshot all_orders one_bid add_order insert_order lower_bound insert_at empty_book
    side_orders
exported-SnapshotFits = record {
  seq_fits = omega arith;
  count_fits = omega arith;
  trade_fits = (omega arith, omega arith);
  next_fits = omega arith;
  orders_fit = (
    record {
      id_fits = omega arith;
      session_fits = omega arith;
      client_fits = omega arith;
      price_fits = (omega arith, omega arith);
      quantity_fits = omega arith;
      side_fits = omega arith;
      timestamp_fits = omega arith;
    },
    tt,
  );
}

abbrev to_disk : FileWrite
to_disk = record { opened = true; landed = 100; renamed = true }

saved : (write_snapshot none (export_snapshot running 4) to_disk).0 ≡ true
unfolding write_snapshot encode_snapshot put_orders put_order export_snapshot all_orders one_bid
    add_order insert_order lower_bound insert_at empty_book side_orders
    order_matching_machine.Wire.Bytes.le_bytes
saved = refl

restore-write_snapshot_example :
    (d : SnapshotData) × (read_snapshot (write_snapshot none (export_snapshot running 4) to_disk).1
      ≡ some d)
    × Restored one_order_left (restore (thread none) d).exchange
restore-write_snapshot_example =
    restore-write_snapshot running (thread none) 4 none to_disk one_order_left-IsLedger
      exported-SnapshotFits saved refl
