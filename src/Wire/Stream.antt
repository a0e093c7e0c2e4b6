-- ===== src/Wire/Stream.antt =====
-- The frames that a reader hands out, against the bytes that it was given.
use order_matching_machine.Prelude.{
  ℕ, ◌+◌, ◌≤◌, ◌<◌, ◌≡◌, refl, ap, ◌∙◌, sym, true, false, Bool-cases, inl, inr, List, [], ◌++◌,
  Option, none, some, arith, append_assoc, All, length, length-drop, take, drop, leb, ltb, ◌==◌,
}
use order_matching_machine.Prelude.Cuts.{length-take_le, take-drop, drop-drop, drop_past}
use order_matching_machine.Wire.Bytes.{IsByte}
use order_matching_machine.Wire.Messages.{header_size, max_payload_size, MessageHeader}
use order_matching_machine.Wire.Codec.{encode_header, decode_header}
use order_matching_machine.Wire.Canonical.{header_of, decode_header-long, encode_header-header_of}
use order_matching_machine.Wire.Frames.{
  Frame, FrameReader, contents, buffered, compact_threshold, compact_if_needed, frame_behind,
  next_frame,
}

-- The position lies within the buffer, and the read prefix is short.
pub record IsReader (r : FrameReader) : Type 0 where
  pub pos_le : r.pos ≤ length r.buf
  pub pos_lt : r.pos < compact_threshold

-- Compaction drops only bytes that were read.
pub compact-contents :
    (r : FrameReader)
    → r.pos ≤ length r.buf
    → (contents (compact_if_needed r) ≡ contents r)
      × IsReader (compact_if_needed r)
      × ((compact_if_needed r).failed ≡ r.failed)
unfolding compact_if_needed
compact-contents r h = elim (Bool-cases (r.pos == length r.buf)) [
  | inl e ↦
      let end : drop r.pos r.buf ≡ [] = drop_past r.pos r.buf (ground arith) in
      rw (e, end) (refl, record { pos_le = omega arith; pos_lt = omega arith }, refl)
  | inr e ↦ elim (Bool-cases (leb compact_threshold r.pos)) [
    | inl f ↦ rw (e, f) (refl, record { pos_le = omega arith; pos_lt = omega arith }, refl)
    | inr f ↦ rw (e, f) (refl, record { pos_le = h; pos_lt = ground arith }, refl)
  ]
]

-- The bytes that a frame takes on the wire.
abbrev pub frame_bytes : Frame → List ℕ
frame_bytes f = encode_header [] f.header ++ f.payload

-- What a poll of the reader does to the held bytes: nothing, unless a frame comes out.
abbrev pub taken : Option Frame → List ℕ
taken none = []
taken (some f) = frame_bytes f

pub record IsFrame (f : Frame) : Type 0 where
  pub length_exact : length f.payload ≡ f.header.payload_length
  pub length_bounded : f.header.payload_length ≤ max_payload_size

abbrev pub IsFrameIfAny : Option Frame → Type 0
IsFrameIfAny none = Unit
IsFrameIfAny (some f) = IsFrame f

pub record Polled (r : FrameReader) (f : Option Frame) (after : FrameReader) : Type 0 where
  pub bytes_kept : contents r ≡ taken f ++ contents after
  pub reader_kept : IsReader after
  pub frame_good : IsFrameIfAny f

module _ (r : FrameReader) where
  abbrev head : MessageHeader
  head = header_of (contents r)

  abbrev whole : ℕ
  whole = header_size + head.payload_length

  abbrev cut_frame : Frame
  cut_frame = record {
    header = head;
    payload = take head.payload_length (drop (r.pos + header_size) r.buf);
  }

  abbrev passed : FrameReader
  passed = record r { pos = r.pos + whole }

  contents-cut :
      whole ≤ buffered r
      → All IsByte (contents r)
      → contents r ≡ frame_bytes cut_frame ++ contents passed
  contents-cut h b =
      let size = length-drop r.pos r.buf in
      let front = encode_header-header_of (contents r) (omega (arith, h, size)) b in
      rw
        (
          drop-drop r.pos header_size r.buf,
          drop-drop r.pos whole r.buf,
          drop-drop header_size head.payload_length (contents r),
          append_assoc (encode_header [] head)
              (take head.payload_length (drop header_size (contents r)))
              (drop head.payload_length (drop header_size (contents r))),
          take-drop head.payload_length (drop header_size (contents r)),
        )
        (sym front)

  length-payload : whole ≤ buffered r → length cut_frame.payload ≡ head.payload_length
  length-payload h =
      length-take_le head.payload_length (drop (r.pos + header_size) r.buf)
        (omega (arith, h, length-drop (r.pos + header_size) r.buf))

  frame_out-Polled :
      head.payload_length ≤ max_payload_size
      → whole ≤ buffered r
      → All IsByte (contents r)
      → Polled r (some cut_frame) (compact_if_needed passed)
  frame_out-Polled small h b =
      let (same, good, unfailed) = compact-contents passed (omega (arith, h)) in
      record {
        bytes_kept = contents-cut h b ∙ ap (λ l. frame_bytes cut_frame ++ l) (sym same);
        reader_kept = good;
        frame_good = record { length_exact = length-payload h; length_bounded = small };
      }

frame_behind-Polled :
    (r : FrameReader)
    → IsReader r
    → header_size ≤ buffered r
    → All IsByte (contents r)
    → Polled r
        (frame_behind r (decode_header (contents r))).0
        (frame_behind r (decode_header (contents r))).1
unfolding frame_behind
frame_behind-Polled r v h b =
    let size = length-drop r.pos r.buf in
    let head = header_of (contents r) in
    let shown = decode_header-long (contents r) (omega (arith, h, size)) in
    elim (Bool-cases (leb head.payload_length max_payload_size)) [
      | inr e ↦
          rw (shown, e)
            (record {
              bytes_kept = refl;
              reader_kept = record { pos_le = v.pos_le; pos_lt = v.pos_lt };
              frame_good = tt;
            })
      | inl e ↦ elim (Bool-cases (ltb (buffered r) (header_size + head.payload_length))) [
        | inl f ↦ rw (shown, e, f) (record { bytes_kept = refl; reader_kept = v; frame_good = tt })
        | inr f ↦ rw (shown, e, f) (frame_out-Polled r (ground arith) (ground arith) b)
      ]
    ]

next_frame-failed : (r : FrameReader) → r.failed ≡ true → next_frame r ≡ (none, r)
unfolding next_frame
next_frame-failed r e = ground arith

next_frame-short :
    (r : FrameReader) → ltb (buffered r) header_size ≡ true → next_frame r ≡ (none, r)
unfolding next_frame
next_frame-short r e = ground arith

pub next_frame-long :
    (r : FrameReader)
    → r.failed ≡ false
    → ltb (buffered r) header_size ≡ false
    → next_frame r ≡ frame_behind r (decode_header (contents r))
unfolding next_frame
next_frame-long r e f = ground arith

pub next_frame-Polled :
    (r : FrameReader)
    → IsReader r
    → All IsByte (contents r)
    → Polled r (next_frame r).0 (next_frame r).1
next_frame-Polled r v b =
    let idle : Polled r none r = record { bytes_kept = refl; reader_kept = v; frame_good = tt } in
    elim (Bool-cases r.failed) [
      | inl e ↦ rw (next_frame-failed r e) idle
      | inr e ↦ elim (Bool-cases (ltb (buffered r) header_size)) [
        | inl f ↦ rw (next_frame-short r f) idle
        | inr f ↦ rw (next_frame-long r e f) (frame_behind-Polled r v (ground arith) b)
      ]
    ]
