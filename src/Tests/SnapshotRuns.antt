-- ===== src/Tests/SnapshotRuns.antt =====
-- A snapshot of one order.
use order_matching_machine.Prelude.{◌≡◌, true, false, [], ◌∷◌, none, some, arith}
use order_matching_machine.Prelude.Int.{pos}
use order_matching_machine.Snapshot.Format.{
  SnapshotOrder, SnapshotData, FileWrite, write_snapshot, read_snapshot,
}
use order_matching_machine.Snapshot.RoundTrip.{SnapshotFits, read-write_snapshot}

abbrev one_order : SnapshotOrder
one_order = record {
  exchange_id = 1;
  session = 3;
  client_order_id = 7;
  price_ticks = pos 100;
  quantity = 5;
  side = 1;
  timestamp = 2;
}

abbrev one_snapshot : SnapshotData
one_snapshot = record {
  last_seq = 4;
  last_trade_ticks = pos 100;
  next_exchange_id = 2;
  orders = one_order ∷ [];
}

one_snapshot-SnapshotFits : SnapshotFits one_snapshot
one_snapshot-SnapshotFits = record {
  seq_fits = omega arith;
  count_fits = omega arith;
  trade_fits = (omega arith, omega arith);
  next_fits = omega arith;
  orders_fit = (
    record {
      id_fits = omega arith;
      session_fits = omega arith;
      client_fits = omega arith;
      price_fits = (omega arith, omega arith);
      quantity_fits = omega arith;
      side_fits = omega arith;
      timestamp_fits = omega arith;
    },
    tt,
  );
}

abbrev whole_write : FileWrite
whole_write = record { opened = true; landed = 89; renamed = true }

read-write_snapshot_example :
    ((write_snapshot none one_snapshot whole_write).0 ≡ true
      → read_snapshot (write_snapshot none one_snapshot whole_write).1 ≡ some one_snapshot)
    × ((write_snapshot none one_snapshot whole_write).0 ≡ false
        → (write_snapshot none one_snapshot whole_write).1 ≡ none)
read-write_snapshot_example =
    read-write_snapshot none one_snapshot whole_write one_snapshot-SnapshotFits
