-- ===== src/Wire/Frames.antt =====
-- include/ome/frame_reader.hpp: `FrameReader`, which cuts a byte stream into frames.
use order_matching_machine.Prelude.{
  ℕ, ◌+◌, ◌-◌, ◌*◌, Bool, true, false, ◌||◌, List, [], ◌++◌, Option, none, some, length, is_empty,
  take, drop, leb, ltb, ◌==◌, if◌then◌else◌,
}
use order_matching_machine.Wire.Messages.{header_size, MessageHeader}
use order_matching_machine.Wire.Codec.{decode_header}

pub record Frame : Type 0 where
  pub header : MessageHeader
  pub payload : List ℕ

abbrev pub compact_threshold : ℕ
compact_threshold = 64 * 1024

-- `buf_`, `pos_` and `failed_`.
pub record FrameReader : Type 0 where
  pub buf : List ℕ
  pub pos : ℕ
  pub failed : Bool

abbrev pub empty_reader : FrameReader
empty_reader = record { buf = []; pos = 0; failed = false }

-- The bytes that are held and not yet part of a frame.
abbrev pub contents : FrameReader → List ℕ
contents r = drop r.pos r.buf

abbrev pub buffered : FrameReader → ℕ
buffered r = length r.buf - r.pos

unfoldable pub append : FrameReader → List ℕ → FrameReader
append r bytes = if r.failed || is_empty bytes then r else record r { buf = r.buf ++ bytes }

unfoldable pub compact_if_needed : FrameReader → FrameReader
compact_if_needed r =
    if r.pos == length r.buf
    then record r { buf = []; pos = 0 }
    else if leb compact_threshold r.pos
    then record r { buf = drop r.pos r.buf; pos = 0 }
    else r

-- `next_frame` once the header was decoded, or refused.
unfoldable pub frame_behind : FrameReader → Option MessageHeader → Option Frame × FrameReader
frame_behind r none = (none, record r { failed = true })
frame_behind r (some h) =
    let need = header_size + h.payload_length in
    if ltb (buffered r) need then (none, r) else (
      some (record {
        header = h;
        payload = take h.payload_length (drop (r.pos + header_size) r.buf);
      }),
      compact_if_needed (record r { pos = r.pos + need }),
    )

unfoldable pub next_frame : FrameReader → Option Frame × FrameReader
next_frame r =
    if r.failed
    then (none, r)
    else if ltb (buffered r) header_size
    then (none, r)
    else frame_behind r (decode_header (contents r))
