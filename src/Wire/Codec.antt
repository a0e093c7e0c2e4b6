-- ===== src/Wire/Codec.antt =====
-- The encoders and decoders of include/ome/protocol.hpp, field by field.
--
-- A decoder returns `none` where the source returns `std::nullopt`.
use order_matching_machine.Prelude.{
  ℕ, zero, suc, ◌%◌, ◌^◌, min, not, ◌&&◌, ◌||◌, List, [], ◌∷◌, ◌++◌, Option, none, some, length,
  take, ltb, ◌==◌, if◌then◌else◌,
}
use order_matching_machine.Wire.Bytes.{
  put_u8, put_u16, put_u32, put_u64, put_i64, Reader, reader, read, read_i64, finished,
}
use order_matching_machine.Wire.Messages.{
  version, max_payload_size, header_size, max_book_depth, WireSide, bid_side, ask_side,
  WireOrderType, market_type, limit_type, MessageType, type_code, MessageHeader, NewOrder, Cancel,
  Modify, Subscribe, Ack, Reject, Fill, BookLevel, BookUpdate, Heartbeat,
}

abbrev pub side_code : WireSide → ℕ
side_code bid_side = 0
side_code ask_side = 1

abbrev pub order_type_code : WireOrderType → ℕ
order_type_code market_type = 0
order_type_code limit_type = 1

-- `static_cast` of a value that was checked to be 0 or 1.
abbrev pub side_of_code : ℕ → WireSide
side_of_code c = if c == 0 then bid_side else ask_side

abbrev pub order_type_of_code : ℕ → WireOrderType
order_type_of_code c = if c == 0 then market_type else limit_type

abbrev pub when_finished {ℓ} : {A : Type ℓ} → Reader → A → Option A
when_finished r a = if finished r then some a else none

unfoldable pub encode_header : List ℕ → MessageHeader → List ℕ
encode_header out h =
    put_u16 (put_u16 (put_u32 out h.payload_length) h.message_type) h.header_version

unfoldable pub decode_header : List ℕ → Option MessageHeader
decode_header bytes =
    let (len, r1) = read 4 (reader bytes) in
    let (type, r2) = read 2 r1 in
    let (ver, r3) = read 2 r2 in
    if ltb (length bytes) header_size
    then none
    else if r3.ok && not (ltb max_payload_size len)
    then some (record { payload_length = len; message_type = type; header_version = ver })
    else none

unfoldable pub encode_new_order : List ℕ → NewOrder → List ℕ
encode_new_order out m =
    put_u8
      (put_u8 (put_u32 (put_i64 (put_u64 out m.client_order_id) m.price_ticks) m.quantity)
        (side_code m.side))
      (order_type_code m.order_type)

unfoldable pub decode_new_order : List ℕ → Option NewOrder
decode_new_order bytes =
    let (id, r1) = read 8 (reader bytes) in
    let (price, r2) = read_i64 r1 in
    let (quantity, r3) = read 4 r2 in
    let (side, r4) = read 1 r3 in
    let (type, r5) = read 1 r4 in
    if finished r5
    then (if ltb 1 side || ltb 1 type
        then none
        else some (record {
          client_order_id = id;
          price_ticks = price;
          quantity = quantity;
          side = side_of_code side;
          order_type = order_type_of_code type;
        }))
    else none

unfoldable pub encode_cancel : List ℕ → Cancel → List ℕ
encode_cancel out m = put_u64 out m.client_order_id

unfoldable pub decode_cancel : List ℕ → Option Cancel
decode_cancel bytes =
    let (id, r1) = read 8 (reader bytes) in when_finished r1 (record { client_order_id = id })

unfoldable pub encode_modify : List ℕ → Modify → List ℕ
encode_modify out m =
    put_u32 (put_i64 (put_u64 out m.client_order_id) m.new_price_ticks) m.new_quantity

unfoldable pub decode_modify : List ℕ → Option Modify
decode_modify bytes =
    let (id, r1) = read 8 (reader bytes) in
    let (price, r2) = read_i64 r1 in
    let (quantity, r3) = read 4 r2 in
    when_finished r3
      (record { client_order_id = id; new_price_ticks = price; new_quantity = quantity })

unfoldable pub encode_subscribe : List ℕ → Subscribe → List ℕ
encode_subscribe out m = put_u8 out m.depth

unfoldable pub decode_subscribe : List ℕ → Option Subscribe
decode_subscribe bytes =
    let (depth, r1) = read 1 (reader bytes) in when_finished r1 (record { depth = depth })

unfoldable pub encode_ack : List ℕ → Ack → List ℕ
encode_ack out m = put_u64 (put_u64 out m.client_order_id) m.exchange_order_id

unfoldable pub decode_ack : List ℕ → Option Ack
decode_ack bytes =
    let (id, r1) = read 8 (reader bytes) in
    let (xid, r2) = read 8 r1 in
    when_finished r2 (record { client_order_id = id; exchange_order_id = xid })

unfoldable pub encode_reject : List ℕ → Reject → List ℕ
encode_reject out m = put_u16 (put_u64 out m.client_order_id) m.reason

unfoldable pub decode_reject : List ℕ → Option Reject
decode_reject bytes =
    let (id, r1) = read 8 (reader bytes) in
    let (reason, r2) = read 2 r1 in
    when_finished r2 (record { client_order_id = id; reason = reason })

unfoldable pub encode_fill : List ℕ → Fill → List ℕ
encode_fill out m =
    put_u32 (put_u32 (put_i64 (put_u64 out m.exchange_order_id) m.price_ticks) m.quantity)
      m.remaining_quantity

unfoldable pub decode_fill : List ℕ → Option Fill
decode_fill bytes =
    let (xid, r1) = read 8 (reader bytes) in
    let (price, r2) = read_i64 r1 in
    let (quantity, r3) = read 4 r2 in
    let (remaining, r4) = read 4 r3 in
    when_finished r4 (record {
      exchange_order_id = xid;
      price_ticks = price;
      quantity = quantity;
      remaining_quantity = remaining;
    })

unfoldable pub encode_heartbeat : List ℕ → Heartbeat → List ℕ
encode_heartbeat out m = put_u64 out m.timestamp_ns

unfoldable pub decode_heartbeat : List ℕ → Option Heartbeat
decode_heartbeat bytes =
    let (ts, r1) = read 8 (reader bytes) in when_finished r1 (record { timestamp_ns = ts })

-- The levels of one side, the price and the quantity of each.
unfoldable pub put_levels : List ℕ → List BookLevel → List ℕ
put_levels out [] = out
put_levels out (l ∷ ls) = put_levels (put_u64 (put_i64 out l.price_ticks) l.quantity) ls

-- At most `max_book_depth` levels of a side go out.
unfoldable pub encode_book_update : List ℕ → BookUpdate → List ℕ
encode_book_update out m =
    let nb = min (length m.bids) max_book_depth in
    let na = min (length m.asks) max_book_depth in
    put_levels (put_levels (put_u8 (put_u8 (put_u64 out m.seq) nb) na) (take nb m.bids))
      (take na m.asks)

unfoldable pub read_levels : ℕ → Reader → List BookLevel × Reader
read_levels zero r = ([], r)
read_levels (suc n) r =
    let (price, r1) = read_i64 r in
    let (quantity, r2) = read 8 r1 in
    let (ls, r3) = read_levels n r2 in
    (record { price_ticks = price; quantity = quantity } ∷ ls, r3)

unfoldable pub decode_book_update : List ℕ → Option BookUpdate
decode_book_update bytes =
    let (seq, r1) = read 8 (reader bytes) in
    let (nb, r2) = read 1 r1 in
    let (na, r3) = read 1 r2 in
    let (bids, r4) = read_levels nb r3 in
    let (asks, r5) = read_levels na r4 in
    if r3.ok
    then (if ltb max_book_depth nb || ltb max_book_depth na
        then none
        else when_finished r5 (record { seq = seq; bids = bids; asks = asks }))
    else none

-- `encode_frame`, given the type and the encoded payload.
unfoldable pub encode_frame : MessageType → List ℕ → List ℕ
encode_frame type payload =
    encode_header [] (record {
      payload_length = length payload % 2 ^ 32;
      message_type = type_code type;
      header_version = version;
    })
    ++ payload
