-- ===== src/Wire/RoundTrip.antt =====
-- Decoding what was encoded gives the message back, for every message of the protocol.
use order_matching_machine.Prelude.{
  ℕ, ◌<◌, ◌^◌, ◌≡◌, refl, sym, false, List, [], ◌++◌, none, some, arith, append-nil, append_assoc,
  length, leb, ltb, if◌then◌else◌, le→ltb_false,
}
use order_matching_machine.Prelude.Words.{bits_of}
use order_matching_machine.Wire.Bytes.{le_bytes, read-le_bytes, bits_of-lt, signed_of-bits_of}
use order_matching_machine.Wire.Messages.{
  max_payload_size, header_size, HeaderFits, ShortMessagesFit, MessageHeader, NewOrder, Cancel,
  Modify, Subscribe, Ack, Reject, Fill, Heartbeat, NewOrderFits, ModifyFits, FillFits,
}
use order_matching_machine.Wire.Codec.{
  side_code, order_type_code, encode_header, decode_header, encode_new_order, decode_new_order,
  encode_cancel, decode_cancel, encode_modify, decode_modify, encode_subscribe, decode_subscribe,
  encode_ack, decode_ack, encode_reject, decode_reject, encode_fill, decode_fill, encode_heartbeat,
  decode_heartbeat,
}
use order_matching_machine.Wire.Layout.{
  new_order-flat, modify-flat, fill-flat, header-flat, header-long, codes_small,
}

-- A new order whose fields are in range comes back from its encoding.
pub decode-encode_new_order :
    (m : NewOrder) → NewOrderFits m → decode_new_order (encode_new_order [] m) ≡ some m
unfolding decode_new_order
decode-encode_new_order m f =
    let (s, t, s', t') = codes_small m.side m.order_type in
    let tail4 = le_bytes 1 (order_type_code m.order_type) ++ [] in
    let tail3 = le_bytes 1 (side_code m.side) ++ tail4 in
    let tail2 = le_bytes 4 m.quantity ++ tail3 in
    rw
      (
        new_order-flat m,
        read-le_bytes 8 m.client_order_id f.id_fits (le_bytes 8 (bits_of m.price_ticks) ++ tail2),
        read-le_bytes 8 (bits_of m.price_ticks) (bits_of-lt m.price_ticks f.price_fits) tail2,
        signed_of-bits_of m.price_ticks f.price_fits,
        read-le_bytes 4 m.quantity f.quantity_fits tail3,
        read-le_bytes 1 (side_code m.side) (omega (arith, s)) tail4,
        read-le_bytes 1 (order_type_code m.order_type) (omega (arith, t)) [],
        le→ltb_false 1 (side_code m.side) (omega (arith, s)),
        le→ltb_false 1 (order_type_code m.order_type) (omega (arith, t)),
        s',
        t',
      )
      refl

decode-encode_cancel :
    (m : Cancel) → m.client_order_id < 2 ^ 64 → decode_cancel (encode_cancel [] m) ≡ some m
unfolding decode_cancel encode_cancel
decode-encode_cancel m h =
    rw (sym (append-nil (le_bytes 8 m.client_order_id)), read-le_bytes 8 m.client_order_id h [])
      refl

-- A modify whose fields are in range comes back from its encoding.
pub decode-encode_modify : (m : Modify) → ModifyFits m → decode_modify (encode_modify [] m) ≡ some m
unfolding decode_modify
decode-encode_modify m f =
    let tail2 = le_bytes 4 m.new_quantity ++ [] in
    rw
      (
        modify-flat m,
        read-le_bytes 8 m.client_order_id f.id_fits
            (le_bytes 8 (bits_of m.new_price_ticks) ++ tail2),
        read-le_bytes 8 (bits_of m.new_price_ticks) (bits_of-lt m.new_price_ticks f.price_fits)
            tail2,
        signed_of-bits_of m.new_price_ticks f.price_fits,
        read-le_bytes 4 m.new_quantity f.quantity_fits [],
      )
      refl

-- A fill whose fields are in range comes back from its encoding.
pub decode-encode_fill : (m : Fill) → FillFits m → decode_fill (encode_fill [] m) ≡ some m
unfolding decode_fill
decode-encode_fill m f =
    let tail3 = le_bytes 4 m.remaining_quantity ++ [] in
    let tail2 = le_bytes 4 m.quantity ++ tail3 in
    rw
      (
        fill-flat m,
        read-le_bytes 8 m.exchange_order_id f.id_fits (le_bytes 8 (bits_of m.price_ticks) ++ tail2),
        read-le_bytes 8 (bits_of m.price_ticks) (bits_of-lt m.price_ticks f.price_fits) tail2,
        signed_of-bits_of m.price_ticks f.price_fits,
        read-le_bytes 4 m.quantity f.quantity_fits tail3,
        read-le_bytes 4 m.remaining_quantity f.remaining_fits [],
      )
      refl

decode-encode_ack :
    (m : Ack)
    → m.client_order_id < 2 ^ 64
    → m.exchange_order_id < 2 ^ 64
    → decode_ack (encode_ack [] m) ≡ some m
unfolding decode_ack encode_ack
decode-encode_ack m h k =
    let tail1 = le_bytes 8 m.exchange_order_id ++ [] in
    rw
      (
        sym (append-nil (le_bytes 8 m.client_order_id ++ le_bytes 8 m.exchange_order_id)),
        append_assoc (le_bytes 8 m.client_order_id) (le_bytes 8 m.exchange_order_id) [],
        read-le_bytes 8 m.client_order_id h tail1,
        read-le_bytes 8 m.exchange_order_id k [],
      )
      refl

decode-encode_reject :
    (m : Reject)
    → m.client_order_id < 2 ^ 64
    → m.reason < 2 ^ 16
    → decode_reject (encode_reject [] m) ≡ some m
unfolding decode_reject encode_reject
decode-encode_reject m h k =
    let tail1 = le_bytes 2 m.reason ++ [] in
    rw
      (
        sym (append-nil (le_bytes 8 m.client_order_id ++ le_bytes 2 m.reason)),
        append_assoc (le_bytes 8 m.client_order_id) (le_bytes 2 m.reason) [],
        read-le_bytes 8 m.client_order_id h tail1,
        read-le_bytes 2 m.reason k [],
      )
      refl

decode-encode_subscribe :
    (m : Subscribe) → m.depth < 2 ^ 8 → decode_subscribe (encode_subscribe [] m) ≡ some m
unfolding decode_subscribe encode_subscribe
decode-encode_subscribe m h =
    rw (sym (append-nil (le_bytes 1 m.depth)), read-le_bytes 1 m.depth h []) refl

decode-encode_heartbeat :
    (m : Heartbeat) → m.timestamp_ns < 2 ^ 64 → decode_heartbeat (encode_heartbeat [] m) ≡ some m
unfolding decode_heartbeat encode_heartbeat
decode-encode_heartbeat m h =
    rw (sym (append-nil (le_bytes 8 m.timestamp_ns)), read-le_bytes 8 m.timestamp_ns h []) refl

-- A header whose fields are in range and that claims at most `max_payload_size` bytes comes back, whatever bytes follow it; a
-- one that claims more is refused.
pub decode-encode_header :
    (h : MessageHeader) (rest : List ℕ)
    → HeaderFits h
    → decode_header (encode_header [] h ++ rest)
      ≡ (if leb h.payload_length max_payload_size then some h else none)
unfolding decode_header
decode-encode_header h rest f =
    let tail2 = le_bytes 2 h.header_version ++ rest in
    let tail1 = le_bytes 2 h.message_type ++ tail2 in
    let long : ltb (length (le_bytes 4 h.payload_length ++ tail1)) header_size ≡ false =
      header-long h rest in
    rw
      (
        header-flat [] h rest,
        long,
        read-le_bytes 4 h.payload_length f.length_fits tail1,
        read-le_bytes 2 h.message_type f.type_fits tail2,
        read-le_bytes 2 h.header_version f.version_fits rest,
      )
      (ground arith)

-- The five short messages: within the ranges of their fields, each comes back from its encoding.
pub short_messages_come_back :
    (c : Cancel) (s : Subscribe) (a : Ack) (r : Reject) (t : Heartbeat)
    → ShortMessagesFit c s a r t
    → (decode_cancel (encode_cancel [] c) ≡ some c)
      × (decode_subscribe (encode_subscribe [] s) ≡ some s)
      × (decode_ack (encode_ack [] a) ≡ some a)
      × (decode_reject (encode_reject [] r) ≡ some r)
      × (decode_heartbeat (encode_heartbeat [] t) ≡ some t)
short_messages_come_back c s a r t f = (
  decode-encode_cancel c f.cancel_fits,
  decode-encode_subscribe s f.subscribe_fits,
  decode-encode_ack a f.ack_id_fits f.ack_exchange_id_fits,
  decode-encode_reject r f.reject_id_fits f.reject_reason_fits,
  decode-encode_heartbeat t f.heartbeat_fits,
)
