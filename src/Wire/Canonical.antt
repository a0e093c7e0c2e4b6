-- ===== src/Wire/Canonical.antt =====
-- What a header of eight bytes or more decodes to, and its encoding.
use order_matching_machine.Prelude.{
  ℕ, ◌≤◌, ◌≡◌, refl, ap, ◌∙◌, sym, true, false, List, [], ◌++◌, none, some, arith, append_assoc,
  All, length, length-drop, take, drop, leb, ltb, if◌then◌else◌,
}
use order_matching_machine.Prelude.Cuts.{length-take_le, take-drop, drop-drop, All-take, All-drop}
use order_matching_machine.Wire.Bytes.{le_bytes, from_le, reader, read, IsByte, le_bytes-from_le}
use order_matching_machine.Wire.Messages.{max_payload_size, header_size, MessageHeader}
use order_matching_machine.Wire.Codec.{encode_header, decode_header}

pub read-long :
    (n : ℕ) (bs : List ℕ)
    → n ≤ length bs
    → read n (reader bs) ≡ (from_le (take n bs), reader (drop n bs))
unfolding read
read-long n bs h = let fits : leb n (length bs) ≡ true = ground arith in rw fits refl

pub le_bytes-take :
    (n : ℕ) (bs : List ℕ)
    → n ≤ length bs
    → All IsByte bs
    → le_bytes n (from_le (take n bs)) ≡ take n bs
le_bytes-take n bs h b =
    ap (λ k. le_bytes k (from_le (take n bs))) (sym (length-take_le n bs h))
    ∙ le_bytes-from_le (take n bs) (All-take IsByte n bs b)

-- The three fields at the front of the bytes.
abbrev pub header_of : List ℕ → MessageHeader
header_of bs = record {
  payload_length = from_le (take 4 bs);
  message_type = from_le (take 2 (drop 4 bs));
  header_version = from_le (take 2 (drop 2 (drop 4 bs)));
}

pub decode_header-long :
    (bs : List ℕ)
    → header_size ≤ length bs
    → decode_header bs
      ≡ (if leb (header_of bs).payload_length max_payload_size then some (header_of bs) else none)
unfolding decode_header
decode_header-long bs h =
    let len4 = length-drop 4 bs in
    let len6 = length-drop 2 (drop 4 bs) in
    let long : ltb (length bs) header_size ≡ false = ground arith in
    rw
      (
        long,
        read-long 4 bs (omega (arith, h)),
        read-long 2 (drop 4 bs) (omega (arith, h, len4)),
        read-long 2 (drop 2 (drop 4 bs)) (omega (arith, h, len4, len6)),
      )
      (ground arith)

pub encode_header-header_of :
    (bs : List ℕ)
    → header_size ≤ length bs
    → All IsByte bs
    → encode_header [] (header_of bs) ++ drop header_size bs ≡ bs
unfolding encode_header
encode_header-header_of bs h b =
    let len4 = length-drop 4 bs in
    let len6 = length-drop 2 (drop 4 bs) in
    let b4 = All-drop IsByte 4 bs b in
    let b6 = All-drop IsByte 2 (drop 4 bs) b4 in
    rw
      (
        le_bytes-take 4 bs (omega (arith, h)) b,
        le_bytes-take 2 (drop 4 bs) (omega (arith, h, len4)) b4,
        le_bytes-take 2 (drop 2 (drop 4 bs)) (omega (arith, h, len4, len6)) b6,
        append_assoc (take 4 bs ++ take 2 (drop 4 bs)) (take 2 (drop 2 (drop 4 bs))) (drop 8 bs),
        drop-drop 4 4 bs,
        drop-drop 2 2 (drop 4 bs),
        take-drop 2 (drop 2 (drop 4 bs)),
        append_assoc (take 4 bs) (take 2 (drop 4 bs)) (drop 2 (drop 4 bs)),
        take-drop 2 (drop 4 bs),
        take-drop 4 bs,
      )
      refl
