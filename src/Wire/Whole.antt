-- ===== src/Wire/Whole.antt =====
-- A frame that has arrived in full comes out.
use order_matching_machine.Prelude.{
  ℕ, ◌+◌, ◌≤◌, ◌≡◌, refl, ap, ◌∙◌, sym, true, false, List, [], ◌++◌, none, some, arith,
  append_assoc, length, length-append, length-drop, take, drop, take-append, drop-append, leb, ltb,
  if◌then◌else◌,
}
use order_matching_machine.Prelude.Cuts.{drop-drop}
use order_matching_machine.Wire.Bytes.{le_bytes, length-le_bytes}
use order_matching_machine.Wire.Messages.{header_size, max_payload_size, MessageHeader, HeaderFits}
use order_matching_machine.Wire.Codec.{encode_header, decode_header}
use order_matching_machine.Wire.RoundTrip.{decode-encode_header}
use order_matching_machine.Wire.Frames.{
  Frame, FrameReader, contents, buffered, compact_if_needed, frame_behind, next_frame,
}
use order_matching_machine.Wire.Stream.{
  IsReader, IsFrame, frame_bytes, compact-contents, next_frame-long,
}

length-encode_header : (h : MessageHeader) → length (encode_header [] h) ≡ header_size
unfolding encode_header
length-encode_header h =
    let a = le_bytes 4 h.payload_length in
    let b = le_bytes 2 h.message_type in
    omega (
      arith,
      length-append (a ++ b) (le_bytes 2 h.header_version),
      length-append a b,
      length-le_bytes 4 h.payload_length,
      length-le_bytes 2 h.message_type,
      length-le_bytes 2 h.header_version,
    )

module _ (r : FrameReader) (f : Frame) where
  abbrev whole : ℕ
  whole = header_size + f.header.payload_length

  abbrev passed : FrameReader
  passed = record r { pos = r.pos + whole }

  module _ (rest : List ℕ) (g : IsFrame f) (c : contents r ≡ frame_bytes f ++ rest) where
    contents_length : whole ≤ buffered r
    contents_length =
        let measured : length (contents r) ≡ length (frame_bytes f ++ rest) = ap length c in
        omega (
          arith,
          measured,
          length-drop r.pos r.buf,
          length-append (frame_bytes f) rest,
          length-append (encode_header [] f.header) f.payload,
          length-encode_header f.header,
          g.length_exact,
        )

    behind_header : drop header_size (contents r) ≡ f.payload ++ rest
    behind_header =
        ap (drop header_size) (c ∙ append_assoc (encode_header [] f.header) f.payload rest)
        ∙ ap (λ n. drop n (encode_header [] f.header ++ (f.payload ++ rest)))
            (sym (length-encode_header f.header))
        ∙ drop-append (encode_header [] f.header) (f.payload ++ rest)

    contents-passed : contents passed ≡ rest
    contents-passed =
        drop-drop r.pos whole r.buf
        ∙ drop-drop header_size f.header.payload_length (contents r)
        ∙ ap (drop f.header.payload_length) behind_header
        ∙ ap (λ n. drop n (f.payload ++ rest)) (sym g.length_exact)
        ∙ drop-append f.payload rest

    payload_taken : take f.header.payload_length (drop (r.pos + header_size) r.buf) ≡ f.payload
    payload_taken =
        ap (take f.header.payload_length) (drop-drop r.pos header_size r.buf ∙ behind_header)
        ∙ ap (λ n. take n (f.payload ++ rest)) (sym g.length_exact)
        ∙ take-append f.payload rest

    frame_behind-some : frame_behind r (some f.header) ≡ (some f, compact_if_needed passed)
    unfolding frame_behind
    frame_behind-some =
        let enough : ltb (buffered r) whole ≡ false = ground (arith, contents_length) in
        rw (enough, payload_taken) refl

-- An open reader that holds a whole frame with a payload of at most `max_payload_size` hands out
-- that frame, stays open, and holds what was behind the frame.
pub next_frame-frame :
    (r : FrameReader) (f : Frame) (rest : List ℕ)
    → IsReader r
    → r.failed ≡ false
    → IsFrame f
    → HeaderFits f.header
    → contents r ≡ frame_bytes f ++ rest
    → ((next_frame r).0 ≡ some f)
      × (contents (next_frame r).1 ≡ rest)
      × ((next_frame r).1.failed ≡ false)
next_frame-frame r f rest v e g fits c =
    let big = contents_length r f rest g c in
    let small : leb f.header.payload_length max_payload_size ≡ true =
      ground (arith, g.length_bounded) in
    let shown : decode_header (contents r) ≡ some f.header =
      ap decode_header (c ∙ append_assoc (encode_header [] f.header) f.payload rest)
      ∙ decode-encode_header f.header (f.payload ++ rest) fits
      ∙ ap (λ b. if b then some f.header else none) small in
    let out : next_frame r ≡ (some f, compact_if_needed (passed r f)) =
      next_frame-long r e (ground arith)
      ∙ ap (frame_behind r) shown
      ∙ frame_behind-some r f rest g c in
    let (same, good, unfailed) = compact-contents (passed r f) (omega (arith, big)) in
    rw out (refl, same ∙ contents-passed r f rest g c, unfailed ∙ e)
