-- ===== src/Wire/Layout.antt =====
-- The bytes of an encoded message, in one flat sequence.
use order_matching_machine.Prelude.{
  ℕ, ◌<◌, ◌≡◌, refl, false, List, [], ◌++◌, arith, append-nil, append_assoc, length, length-append,
  ltb,
}
use order_matching_machine.Prelude.Words.{bits_of}
use order_matching_machine.Wire.Bytes.{le_bytes, length-le_bytes}
use order_matching_machine.Wire.Messages.{
  header_size, WireSide, bid_side, ask_side, WireOrderType, market_type, limit_type, MessageHeader,
  NewOrder, Modify, Fill,
}
use order_matching_machine.Wire.Codec.{
  side_code, order_type_code, side_of_code, order_type_of_code, encode_header, encode_new_order,
  encode_modify, encode_fill,
}

pub new_order-flat :
    (m : NewOrder)
    → encode_new_order [] m
      ≡ le_bytes 8 m.client_order_id
        ++ (le_bytes 8 (bits_of m.price_ticks)
            ++ (le_bytes 4 m.quantity
                ++ (le_bytes 1 (side_code m.side)
                    ++ (le_bytes 1 (order_type_code m.order_type) ++ []))))
unfolding encode_new_order
new_order-flat m = simp (append_assoc, append-nil)

pub modify-flat :
    (m : Modify)
    → encode_modify [] m
      ≡ le_bytes 8 m.client_order_id
        ++ (le_bytes 8 (bits_of m.new_price_ticks) ++ (le_bytes 4 m.new_quantity ++ []))
unfolding encode_modify
modify-flat m = simp (append_assoc, append-nil)

pub fill-flat :
    (m : Fill)
    → encode_fill [] m
      ≡ le_bytes 8 m.exchange_order_id
        ++ (le_bytes 8 (bits_of m.price_ticks)
            ++ (le_bytes 4 m.quantity ++ (le_bytes 4 m.remaining_quantity ++ [])))
unfolding encode_fill
fill-flat m = simp (append_assoc, append-nil)

pub header-flat :
    (out : List ℕ) (h : MessageHeader) (rest : List ℕ)
    → encode_header out h ++ rest
      ≡ out
        ++ (le_bytes 4 h.payload_length
            ++ (le_bytes 2 h.message_type ++ (le_bytes 2 h.header_version ++ rest)))
unfolding encode_header
header-flat out h rest = simp (append_assoc)

pub header-long :
    (h : MessageHeader) (rest : List ℕ)
    → ltb
        (length (
          le_bytes 4 h.payload_length
          ++ (le_bytes 2 h.message_type ++ (le_bytes 2 h.header_version ++ rest))))
        header_size
      ≡ false
header-long h rest =
    let a = le_bytes 4 h.payload_length in
    let b = le_bytes 2 h.message_type in
    let c = le_bytes 2 h.header_version in
    ground (
      arith,
      length-append a (b ++ (c ++ rest)),
      length-append b (c ++ rest),
      length-append c rest,
      length-le_bytes 4 h.payload_length,
      length-le_bytes 2 h.message_type,
      length-le_bytes 2 h.header_version,
    )

pub codes_small :
    (s : WireSide) (t : WireOrderType)
    → (side_code s < 2)
      × (order_type_code t < 2)
      × (side_of_code (side_code s) ≡ s)
      × (order_type_of_code (order_type_code t) ≡ t)
codes_small bid_side market_type = (omega arith, omega arith, refl, refl)
codes_small bid_side limit_type = (omega arith, omega arith, refl, refl)
codes_small ask_side market_type = (omega arith, omega arith, refl, refl)
codes_small ask_side limit_type = (omega arith, omega arith, refl, refl)
