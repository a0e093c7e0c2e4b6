-- ===== src/Tests/WireRuns.antt =====
-- The codecs and the frame reader on concrete messages.
use order_matching_machine.Prelude.{◌≡◌, refl, false, ◌∷◌, [], ◌++◌, some, arith, take}
use order_matching_machine.Prelude.Int.{pos, negsuc}
use order_matching_machine.Wire.Bytes.{le_bytes}
use order_matching_machine.Wire.Messages.{
  ask_side, limit_type, max_book_depth, MessageHeader, NewOrder, Modify, Fill, BookUpdate,
}
use order_matching_machine.Wire.Codec.{
  encode_header, decode_header, encode_cancel, decode_cancel, encode_subscribe, decode_subscribe,
  encode_ack, decode_ack, encode_reject, decode_reject, encode_heartbeat, decode_heartbeat,
  encode_new_order, decode_new_order, encode_modify, decode_modify, encode_fill, decode_fill,
  encode_book_update, decode_book_update,
}
use order_matching_machine.Wire.RoundTrip.{
  decode-encode_new_order, decode-encode_modify, decode-encode_fill, decode-encode_header,
  short_messages_come_back,
}
use order_matching_machine.Wire.Updates.{decode-encode_book_update}
use order_matching_machine.Wire.Frames.{Frame, FrameReader, contents, next_frame}
use order_matching_machine.Wire.Stream.{frame_bytes}
use order_matching_machine.Wire.Delivery.{
  Connection, start, later, arrive, poll, Delivered, Reach-Delivered,
}
use order_matching_machine.Wire.Whole.{next_frame-frame}

abbrev sample_order : NewOrder
sample_order = record {
  client_order_id = 7;
  price_ticks = negsuc 4;
  quantity = 300;
  side = ask_side;
  order_type = limit_type;
}

decode-encode_new_order_example :
    decode_new_order (encode_new_order [] sample_order) ≡ some sample_order
decode-encode_new_order_example = decode-encode_new_order sample_order (record {
  id_fits = omega arith;
  price_fits = (omega arith, omega arith);
  quantity_fits = omega arith;
})

abbrev sample_modify : Modify
sample_modify = record { client_order_id = 7; new_price_ticks = pos 1000; new_quantity = 5 }

decode-encode_modify_example : decode_modify (encode_modify [] sample_modify) ≡ some sample_modify
decode-encode_modify_example = decode-encode_modify sample_modify (record {
  id_fits = omega arith;
  price_fits = (omega arith, omega arith);
  quantity_fits = omega arith;
})

abbrev sample_fill : Fill
sample_fill = record {
  exchange_order_id = 9;
  price_ticks = pos 1000;
  quantity = 5;
  remaining_quantity = 2;
}

decode-encode_fill_example : decode_fill (encode_fill [] sample_fill) ≡ some sample_fill
decode-encode_fill_example = decode-encode_fill sample_fill (record {
  id_fits = omega arith;
  price_fits = (omega arith, omega arith);
  quantity_fits = omega arith;
  remaining_fits = omega arith;
})

abbrev sample_update : BookUpdate
sample_update = record {
  seq = 3;
  bids = record { price_ticks = pos 99; quantity = 70 } ∷ [];
  asks = record { price_ticks = pos 101; quantity = 20 } ∷ [];
}

decode-encode_book_update_example :
    decode_book_update (encode_book_update [] sample_update)
    ≡ some (record {
      seq = 3;
      bids = take max_book_depth sample_update.bids;
      asks = take max_book_depth sample_update.asks;
    })
decode-encode_book_update_example = decode-encode_book_update sample_update (record {
  seq_fits = omega arith;
  bids_fit = (record { price_fits = (omega arith, omega arith); quantity_fits = omega arith }, tt);
  asks_fit = (record { price_fits = (omega arith, omega arith); quantity_fits = omega arith }, tt);
})

abbrev sample_header : MessageHeader
sample_header = record { payload_length = 2; message_type = 1; header_version = 1 }

-- A frame of two payload bytes.
abbrev sample_frame : Frame
sample_frame = record { header = sample_header; payload = 5 ∷ 6 ∷ [] }

decode-encode_header_example :
    decode_header (encode_header [] sample_header ++ (9 ∷ [])) ≡ some sample_header
decode-encode_header_example =
    decode-encode_header sample_header (9 ∷ [])
      (record { length_fits = omega arith; type_fits = omega arith; version_fits = omega arith })

-- The sample frame and the first byte of another, behind a byte that was read.
abbrev sample_reader : FrameReader
sample_reader = record { buf = 0 ∷ (frame_bytes sample_frame ++ (4 ∷ [])); pos = 1; failed = false }

next_frame-frame_example :
    ((next_frame sample_reader).0 ≡ some sample_frame)
    × (contents (next_frame sample_reader).1 ≡ 4 ∷ [])
    × ((next_frame sample_reader).1.failed ≡ false)
unfolding encode_header le_bytes
next_frame-frame_example =
    next_frame-frame sample_reader sample_frame (4 ∷ [])
      (record { pos_le = omega arith; pos_lt = omega arith }) refl
      (record { length_exact = refl; length_bounded = omega arith })
      (record { length_fits = omega arith; type_fits = omega arith; version_fits = omega arith })
      refl

short_messages_come_back_example :
    (decode_cancel (encode_cancel [] (record { client_order_id = 1 }))
      ≡ some (record { client_order_id = 1 }))
    × (decode_subscribe (encode_subscribe [] (record { depth = 5 })) ≡ some (record { depth = 5 }))
    × (decode_ack (encode_ack [] (record { client_order_id = 1; exchange_order_id = 2 }))
        ≡ some (record { client_order_id = 1; exchange_order_id = 2 }))
    × (decode_reject (encode_reject [] (record { client_order_id = 1; reason = 3 }))
        ≡ some (record { client_order_id = 1; reason = 3 }))
    × (decode_heartbeat (encode_heartbeat [] (record { timestamp_ns = 8 }))
        ≡ some (record { timestamp_ns = 8 }))
short_messages_come_back_example =
    short_messages_come_back (record { client_order_id = 1 }) (record { depth = 5 })
      (record { client_order_id = 1; exchange_order_id = 2 })
      (record { client_order_id = 1; reason = 3 }) (record { timestamp_ns = 8 })
      (record {
        cancel_fits = omega arith;
        subscribe_fits = omega arith;
        ack_id_fits = omega arith;
        ack_exchange_id_fits = omega arith;
        reject_id_fits = omega arith;
        reject_reason_fits = omega arith;
        heartbeat_fits = omega arith;
      })

-- Six bytes of the sample frame arrive, a poll finds nothing whole, and the rest arrives.
Reach-Delivered_example : (c : Connection) × Delivered c
Reach-Delivered_example = (
  _,
  Reach-Delivered (
      later
        (later
          (later
            (later start (
              arrive (2 ∷ 0 ∷ 0 ∷ 0 ∷ 1 ∷ 0 ∷ []) (
                omega arith,
                (omega arith, (omega arith, (omega arith, (omega arith, (omega arith, tt))))),
              )))
            poll)
          (arrive (1 ∷ 0 ∷ 5 ∷ 6 ∷ [])
            (omega arith, (omega arith, (omega arith, (omega arith, tt))))))
        poll),
)
