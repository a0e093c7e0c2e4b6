-- ===== src/Wire/Updates.antt =====
-- The levels of a book update, and its round trip.
use order_matching_machine.Prelude.{
  ℕ, min, ◌≡◌, refl, ap, ◌∙◌, sym, List, [], ◌∷◌, ◌++◌, some, arith, append-nil, append_assoc, All,
  length, take, le→ltb_false,
}
use order_matching_machine.Prelude.Cuts.{length-take_le, take-min, All-take}
use order_matching_machine.Prelude.Words.{bits_of}
use order_matching_machine.Wire.Bytes.{
  le_bytes, reader, read-le_bytes, bits_of-lt, signed_of-bits_of,
}
use order_matching_machine.Wire.Messages.{
  max_book_depth, BookLevel, BookUpdate, LevelFits, BookUpdateFits,
}
use order_matching_machine.Wire.Codec.{
  put_levels, encode_book_update, read_levels, decode_book_update,
}

abbrev levels_bytes : List BookLevel → List ℕ
levels_bytes [] = []
levels_bytes (l ∷ ls) =
    le_bytes 8 (bits_of l.price_ticks) ++ (le_bytes 8 l.quantity ++ levels_bytes ls)

put_levels-flat : (out : List ℕ) (ls : List BookLevel) → put_levels out ls ≡ out ++ levels_bytes ls
unfolding put_levels
put_levels-flat out [] = sym (append-nil out)
put_levels-flat out (l ∷ ls) =
    put_levels-flat ((out ++ le_bytes 8 (bits_of l.price_ticks)) ++ le_bytes 8 l.quantity) ls
    ∙ simp (append_assoc)

read_levels-levels_bytes :
    (ls : List BookLevel) (rest : List ℕ)
    → All LevelFits ls
    → read_levels (length ls) (reader (levels_bytes ls ++ rest)) ≡ (ls, reader rest)
unfolding read_levels
read_levels-levels_bytes [] rest f = refl
read_levels-levels_bytes (l ∷ ls) rest f =
    let tail2 = levels_bytes ls ++ rest in
    let tail1 = le_bytes 8 l.quantity ++ tail2 in
    let flat : levels_bytes (l ∷ ls) ++ rest ≡ le_bytes 8 (bits_of l.price_ticks) ++ tail1 =
      simp (append_assoc) in
    rw
      (
        flat,
        read-le_bytes 8 (bits_of l.price_ticks) (bits_of-lt l.price_ticks (f.0).price_fits) tail1,
        signed_of-bits_of l.price_ticks (f.0).price_fits,
        read-le_bytes 8 l.quantity (f.0).quantity_fits tail2,
        read_levels-levels_bytes ls rest f.1,
      )
      refl

book_update-flat :
    (m : BookUpdate)
    → encode_book_update [] m
      ≡ le_bytes 8 m.seq
        ++ (le_bytes 1 (min (length m.bids) max_book_depth)
            ++ (le_bytes 1 (min (length m.asks) max_book_depth)
                ++ (levels_bytes (take (min (length m.bids) max_book_depth) m.bids)
                    ++ (levels_bytes (take (min (length m.asks) max_book_depth) m.asks) ++ []))))
unfolding encode_book_update
book_update-flat m =
    let nb = min (length m.bids) max_book_depth in
    let na = min (length m.asks) max_book_depth in
    let head = (le_bytes 8 m.seq ++ le_bytes 1 nb) ++ le_bytes 1 na in
    put_levels-flat (put_levels head (take nb m.bids)) (take na m.asks)
    ∙ ap (λ l. l ++ levels_bytes (take na m.asks)) (put_levels-flat head (take nb m.bids))
    ∙ simp (append_assoc, append-nil)

-- A book update comes back cut to the best `max_book_depth` levels of each side, when its fields
-- are in range.
pub decode-encode_book_update :
    (m : BookUpdate)
    → BookUpdateFits m
    → decode_book_update (encode_book_update [] m)
      ≡ some (record {
        seq = m.seq;
        bids = take max_book_depth m.bids;
        asks = take max_book_depth m.asks;
      })
unfolding decode_book_update
decode-encode_book_update m f =
    let nb = min (length m.bids) max_book_depth in
    let na = min (length m.asks) max_book_depth in
    let bids = take nb m.bids in
    let asks = take na m.asks in
    let len_b : length bids ≡ nb = length-take_le nb m.bids (omega arith) in
    let len_a : length asks ≡ na = length-take_le na m.asks (omega arith) in
    let tail4 = levels_bytes asks ++ [] in
    let tail3 = levels_bytes bids ++ tail4 in
    let tail2 = le_bytes 1 na ++ tail3 in
    let tail1 = le_bytes 1 nb ++ tail2 in
    let read_b : read_levels nb (reader tail3) ≡ (bids, reader tail4) =
      ap (λ k. read_levels k (reader tail3)) (sym len_b)
      ∙ read_levels-levels_bytes bids tail4 (All-take LevelFits nb m.bids f.bids_fit) in
    let read_a : read_levels na (reader tail4) ≡ (asks, reader []) =
      ap (λ k. read_levels k (reader tail4)) (sym len_a)
      ∙ read_levels-levels_bytes asks [] (All-take LevelFits na m.asks f.asks_fit) in
    rw
      (
        book_update-flat m,
        read-le_bytes 8 m.seq f.seq_fits tail1,
        read-le_bytes 1 nb (omega arith) tail2,
        read-le_bytes 1 na (omega arith) tail3,
        read_b,
        read_a,
        le→ltb_false max_book_depth nb (omega arith),
        le→ltb_false max_book_depth na (omega arith),
        take-min max_book_depth m.bids,
        take-min max_book_depth m.asks,
      )
      refl
