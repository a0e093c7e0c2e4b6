-- ===== src/Snapshot/Format.antt =====
-- The snapshot file: `write_snapshot` and `read_snapshot`.
--
-- A file is the list of its bytes, and `none` where there is none. What the system does in a write is
-- an argument: whether the temporary file opens, how many bytes its `write` calls take before an
-- error, and whether the rename works.
use order_matching_machine.Prelude.{
  ℕ, zero, suc, ◌/◌, Bool, true, false, not, ◌||◌, List, [], ◌∷◌, ◌++◌, Option, none, some, length,
  drop, take, ltb, ◌==◌, if◌then◌else◌,
}
use order_matching_machine.Prelude.Int.{ℤ}
use order_matching_machine.Wire.Bytes.{
  put_u8, put_u32, put_u64, put_i64, Reader, reader, read, read_i64,
}
use order_matching_machine.Wal.Crc.{crc32}

abbrev pub snapshot_magic : ℕ
snapshot_magic = 0x53454D4F

abbrev pub snapshot_version : ℕ
snapshot_version = 1

abbrev pub snapshot_header_size : ℕ
snapshot_header_size = 44

-- One resting order, with its owner. `side` is 0 for BID and 1 for ASK.
pub record SnapshotOrder : Type 0 where
  pub exchange_id : ℕ
  pub session : ℕ
  pub client_order_id : ℕ
  pub price_ticks : ℤ
  pub quantity : ℕ
  pub side : ℕ
  pub timestamp : ℕ

pub record SnapshotData : Type 0 where
  pub last_seq : ℕ
  pub last_trade_ticks : ℤ
  pub next_exchange_id : ℕ
  pub orders : List SnapshotOrder

unfoldable pub put_order : List ℕ → SnapshotOrder → List ℕ
put_order body o =
    put_u64
      (put_u8
        (put_u32
          (put_i64 (put_u64 (put_u64 (put_u64 body o.exchange_id) o.session) o.client_order_id)
            o.price_ticks)
          o.quantity)
        o.side)
      o.timestamp

-- The loop over the orders.
unfoldable pub put_orders : List ℕ → List SnapshotOrder → List ℕ
put_orders body [] = body
put_orders body (o ∷ os) = put_orders (put_order body o) os

-- The buffer that is written.
unfoldable pub encode_snapshot : SnapshotData → List ℕ
encode_snapshot d =
    let body = put_orders [] d.orders in
    put_u32
      (put_u64
        (put_i64
          (put_u64 (put_u64 (put_u32 (put_u32 [] snapshot_magic) snapshot_version) d.last_seq)
            (length d.orders))
          d.last_trade_ticks)
        d.next_exchange_id)
      (crc32 body)
    ++ body

pub record FileWrite : Type 0 where
  pub opened : Bool
  pub landed : ℕ
  pub renamed : Bool

-- The answer, and the file at `path` afterwards.
unfoldable pub write_snapshot : Option (List ℕ) → SnapshotData → FileWrite → Bool × Option (List ℕ)
write_snapshot file d io =
    let out = encode_snapshot d in
    if not io.opened
    then (false, file)
    else if ltb io.landed (length out)
    then (false, file)
    else if not io.renamed
    then (false, file)
    else (true, some out)

unfoldable pub read_order : Reader → SnapshotOrder × Reader
read_order r =
    let (exchange_id, r1) = read 8 r in
    let (session, r2) = read 8 r1 in
    let (client_order_id, r3) = read 8 r2 in
    let (price_ticks, r4) = read_i64 r3 in
    let (quantity, r5) = read 4 r4 in
    let (side, r6) = read 1 r5 in
    let (timestamp, r7) = read 8 r6 in
    (
      record {
        exchange_id = exchange_id;
        session = session;
        client_order_id = client_order_id;
        price_ticks = price_ticks;
        quantity = quantity;
        side = side;
        timestamp = timestamp;
      },
      r7,
    )

-- The loop over the order records, `orders` so far.
unfoldable pub read_orders : ℕ → Reader → List SnapshotOrder → Option (List SnapshotOrder)
read_orders zero r orders = some orders
read_orders (suc count) r orders =
    let (o, r') = read_order r in
    elim (not r'.ok || ltb 1 o.side) [
      | true ↦ none
      | false ↦ read_orders count r' (orders ++ o ∷ [])
    ]

abbrev pub with_orders : ℕ → ℤ → ℕ → Option (List SnapshotOrder) → Option SnapshotData
with_orders last_seq last_trade_ticks next_exchange_id none = none
with_orders last_seq last_trade_ticks next_exchange_id (some orders) = some (record {
  last_seq = last_seq;
  last_trade_ticks = last_trade_ticks;
  next_exchange_id = next_exchange_id;
  orders = orders;
})

-- The checks on a file that was read in full; `none` is `false`.
unfoldable pub decode_snapshot : List ℕ → Option SnapshotData
decode_snapshot buf =
    let (magic, r1) = read 4 (reader (take snapshot_header_size buf)) in
    let (version, r2) = read 4 r1 in
    let (last_seq, r3) = read 8 r2 in
    let (count, r4) = read 8 r3 in
    let (last_trade_ticks, r5) = read_i64 r4 in
    let (next_exchange_id, r6) = read 8 r5 in
    let (want_crc, r7) = read 4 r6 in
    let body = drop snapshot_header_size buf in
    if ltb (length buf) snapshot_header_size
    then none
    else if not (magic == snapshot_magic)
    then none
    else if not (version == snapshot_version)
    then none
    else if not r7.ok
    then none
    else if ltb (length body / 45) count
    then none
    else if not (crc32 body == want_crc)
    then none
    else with_orders last_seq last_trade_ticks next_exchange_id (read_orders count (reader body) [])

unfoldable pub read_snapshot : Option (List ℕ) → Option SnapshotData
read_snapshot none = none
read_snapshot (some buf) = decode_snapshot buf
