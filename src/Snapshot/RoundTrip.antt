-- ===== src/Snapshot/RoundTrip.antt =====
-- What a written snapshot gives when it is read.
use order_matching_machine.Prelude.{
  ℕ, suc, ◌*◌, ◌/◌, ◌^◌, ◌≤◌, ◌<◌, ◌≡◌, refl, ap, ◌∙◌, sym, true, false, List, [], ◌∷◌, ◌++◌,
  Option, some, arith, All, length, length-append, take, drop, take-append, drop-append,
  append_assoc, append-nil, ltb,
}
use order_matching_machine.Prelude.Words.{bits_of}
use order_matching_machine.Wire.Bytes.{
  le_bytes, length-le_bytes, Reader, reader, read-le_bytes, IsI64, bits_of-lt, signed_of-bits_of,
}
use order_matching_machine.Wal.Crc.{crc32, crc32-lt}
use order_matching_machine.Snapshot.Format.{
  snapshot_magic, snapshot_version, snapshot_header_size, SnapshotOrder, SnapshotData, put_order,
  put_orders, encode_snapshot, FileWrite, write_snapshot, read_order, read_orders, decode_snapshot,
  read_snapshot,
}

-- An order whose fields are in range.
pub record OrderFits (o : SnapshotOrder) : Type 0 where
  pub id_fits : o.exchange_id < 2 ^ 64
  pub session_fits : o.session < 2 ^ 64
  pub client_fits : o.client_order_id < 2 ^ 64
  pub price_fits : IsI64 o.price_ticks
  pub quantity_fits : o.quantity < 2 ^ 32
  pub side_fits : o.side ≤ 1
  pub timestamp_fits : o.timestamp < 2 ^ 64

pub record SnapshotFits (d : SnapshotData) : Type 0 where
  pub seq_fits : d.last_seq < 2 ^ 64
  pub count_fits : length d.orders < 2 ^ 64
  pub trade_fits : IsI64 d.last_trade_ticks
  pub next_fits : d.next_exchange_id < 2 ^ 64
  pub orders_fit : All OrderFits d.orders

abbrev order_bytes : SnapshotOrder → List ℕ
order_bytes o =
    le_bytes 8 o.exchange_id
    ++ (le_bytes 8 o.session
        ++ (le_bytes 8 o.client_order_id
            ++ (le_bytes 8 (bits_of o.price_ticks)
                ++ (le_bytes 4 o.quantity ++ (le_bytes 1 o.side ++ le_bytes 8 o.timestamp)))))

abbrev orders_bytes : List SnapshotOrder → List ℕ
orders_bytes [] = []
orders_bytes (o ∷ os) = order_bytes o ++ orders_bytes os

put_order-flat : (body : List ℕ) (o : SnapshotOrder) → put_order body o ≡ body ++ order_bytes o
unfolding put_order
put_order-flat body o = simp append_assoc

put_orders-flat :
    (os : List SnapshotOrder) (body : List ℕ) → put_orders body os ≡ body ++ orders_bytes os
unfolding put_orders
put_orders-flat [] body = sym (append-nil body)
put_orders-flat (o ∷ os) body =
    put_orders-flat os (put_order body o)
    ∙ ap (λ b. b ++ orders_bytes os) (put_order-flat body o)
    ∙ append_assoc body (order_bytes o) (orders_bytes os)

length-order : (o : SnapshotOrder) → length (order_bytes o) ≡ 45
length-order o =
    rw (length-append, length-append, length-append, length-append, length-append, length-append)
      (omega (
        arith,
        length-le_bytes 8 o.exchange_id,
        length-le_bytes 8 o.session,
        length-le_bytes 8 o.client_order_id,
        length-le_bytes 8 (bits_of o.price_ticks),
        length-le_bytes 4 o.quantity,
        length-le_bytes 1 o.side,
        length-le_bytes 8 o.timestamp,
      ))

length-orders : (os : List SnapshotOrder) → length (orders_bytes os) ≡ 45 * length os
length-orders [] = omega arith
length-orders (o ∷ os) =
    omega (arith, length-append (order_bytes o) (orders_bytes os), length-order o, length-orders os)

order_assoc :
    (o : SnapshotOrder) (rest : List ℕ)
    → order_bytes o ++ rest
      ≡ le_bytes 8 o.exchange_id
        ++ (le_bytes 8 o.session
            ++ (le_bytes 8 o.client_order_id
                ++ (le_bytes 8 (bits_of o.price_ticks)
                    ++ (le_bytes 4 o.quantity
                        ++ (le_bytes 1 o.side ++ (le_bytes 8 o.timestamp ++ rest))))))
order_assoc o rest = simp append_assoc

read_order-order :
    (o : SnapshotOrder)
    → OrderFits o
    → (rest : List ℕ) → read_order (reader (order_bytes o ++ rest)) ≡ (o, reader rest)
unfolding read_order
read_order-order o f rest =
    let tail6 = le_bytes 8 o.timestamp ++ rest in
    let tail5 = le_bytes 1 o.side ++ tail6 in
    let tail4 = le_bytes 4 o.quantity ++ tail5 in
    let tail3 = le_bytes 8 (bits_of o.price_ticks) ++ tail4 in
    let tail2 = le_bytes 8 o.client_order_id ++ tail3 in
    let tail1 = le_bytes 8 o.session ++ tail2 in
    rw
      (
        order_assoc o rest,
        read-le_bytes 8 o.exchange_id f.id_fits tail1,
        read-le_bytes 8 o.session f.session_fits tail2,
        read-le_bytes 8 o.client_order_id f.client_fits tail3,
        read-le_bytes 8 (bits_of o.price_ticks) (bits_of-lt o.price_ticks f.price_fits) tail4,
        signed_of-bits_of o.price_ticks f.price_fits,
        read-le_bytes 4 o.quantity f.quantity_fits tail5,
        read-le_bytes 1 o.side (let s = f.side_fits in omega (arith, s)) tail6,
        read-le_bytes 8 o.timestamp f.timestamp_fits rest,
      )
      refl

read_orders-step :
    (o : SnapshotOrder) (count : ℕ) (rest : List ℕ) (before : List SnapshotOrder)
    → OrderFits o
    → read_orders (suc count) (reader (order_bytes o ++ rest)) before
      ≡ read_orders count (reader rest) (before ++ o ∷ [])
unfolding read_orders
read_orders-step o count rest before f =
    let low : ltb 1 o.side ≡ false = let s = f.side_fits in ground (arith, s) in
    let one = read_order-order o f rest in
    rw (read_orders, one, low)
      (ap (λ (r : SnapshotOrder × Reader). read_orders count r.1 (before ++ r.0 ∷ [])) one)

read_orders-orders :
    (os : List SnapshotOrder) (rest : List ℕ) (before : List SnapshotOrder)
    → All OrderFits os
    → read_orders (length os) (reader (orders_bytes os ++ rest)) before ≡ some (before ++ os)
unfolding read_orders
read_orders-orders [] rest before f = ap some (sym (append-nil before))
read_orders-orders (o ∷ os) rest before f =
    ap (λ b. read_orders (suc (length os)) (reader b) before)
      (append_assoc (order_bytes o) (orders_bytes os) rest)
    ∙ read_orders-step o (length os) (orders_bytes os ++ rest) before f.0
    ∙ read_orders-orders os rest (before ++ o ∷ []) f.1
    ∙ ap some (append_assoc before (o ∷ []) os)

module _ (d : SnapshotData) where
  abbrev body_of : List ℕ
  body_of = orders_bytes d.orders

  abbrev head_of : List ℕ
  head_of =
      le_bytes 4 snapshot_magic
      ++ (le_bytes 4 snapshot_version
          ++ (le_bytes 8 d.last_seq
              ++ (le_bytes 8 (length d.orders)
                  ++ (le_bytes 8 (bits_of d.last_trade_ticks)
                      ++ (le_bytes 8 d.next_exchange_id ++ (le_bytes 4 (crc32 body_of) ++ []))))))

  encode_snapshot-flat : encode_snapshot d ≡ head_of ++ body_of
  unfolding encode_snapshot
  encode_snapshot-flat = rw (put_orders-flat d.orders []) (simp (append_assoc, append-nil))

  length-head : length head_of ≡ 44
  length-head =
      rw
        (
          length-append, length-append, length-append, length-append, length-append, length-append,
          length-append,
        )
        (omega (
          arith,
          length-le_bytes 4 snapshot_magic,
          length-le_bytes 4 snapshot_version,
          length-le_bytes 8 d.last_seq,
          length-le_bytes 8 (length d.orders),
          length-le_bytes 8 (bits_of d.last_trade_ticks),
          length-le_bytes 8 d.next_exchange_id,
          length-le_bytes 4 (crc32 body_of),
        ))

  front : take snapshot_header_size (head_of ++ body_of) ≡ head_of
  front = ap (λ n. take n (head_of ++ body_of)) (sym length-head) ∙ take-append head_of body_of

  behind : drop snapshot_header_size (head_of ++ body_of) ≡ body_of
  behind = ap (λ n. drop n (head_of ++ body_of)) (sym length-head) ∙ drop-append head_of body_of

  decode-head : SnapshotFits d → decode_snapshot (head_of ++ body_of) ≡ some d
  unfolding decode_snapshot
  decode-head f =
      let long : ltb (length (head_of ++ body_of)) snapshot_header_size ≡ false =
        ground (arith, length-append head_of body_of, length-head) in
      let room : ltb (length body_of / 45) (length d.orders) ≡ false =
        let size = length-orders d.orders in ground (arith, size) in
      let orders : read_orders (length d.orders) (reader body_of) [] ≡ some d.orders =
        ap (λ b. read_orders (length d.orders) (reader b) []) (sym (append-nil body_of))
        ∙ read_orders-orders d.orders [] [] f.orders_fit in
      let tail6 = le_bytes 4 (crc32 body_of) ++ [] in
      let tail5 = le_bytes 8 d.next_exchange_id ++ tail6 in
      let tail4 = le_bytes 8 (bits_of d.last_trade_ticks) ++ tail5 in
      let tail3 = le_bytes 8 (length d.orders) ++ tail4 in
      let tail2 = le_bytes 8 d.last_seq ++ tail3 in
      let tail1 = le_bytes 4 snapshot_version ++ tail2 in
      rw
        (
          front,
          behind,
          long,
          read-le_bytes 4 snapshot_magic (omega arith) tail1,
          read-le_bytes 4 snapshot_version (omega arith) tail2,
          read-le_bytes 8 d.last_seq f.seq_fits tail3,
          read-le_bytes 8 (length d.orders) f.count_fits tail4,
          read-le_bytes 8 (bits_of d.last_trade_ticks) (bits_of-lt d.last_trade_ticks f.trade_fits)
              tail5,
          signed_of-bits_of d.last_trade_ticks f.trade_fits,
          read-le_bytes 8 d.next_exchange_id f.next_fits tail6,
          read-le_bytes 4 (crc32 body_of) (crc32-lt body_of) [],
          room,
          orders,
        )
        (ground arith)

  decode-encode_snapshot : SnapshotFits d → decode_snapshot (encode_snapshot d) ≡ some d
  decode-encode_snapshot f = ap decode_snapshot encode_snapshot-flat ∙ decode-head f

-- Whatever the system does in the write of a snapshot whose fields are in range: where `write_snapshot`
-- succeeds, reading the file gives back the snapshot, every order with its owner and in the same order;
-- where it fails, the file at the path is the one that was there before.
pub read-write_snapshot :
    (file : Option (List ℕ)) (d : SnapshotData) (io : FileWrite)
    → SnapshotFits d
    → ((write_snapshot file d io).0 ≡ true → read_snapshot (write_snapshot file d io).1 ≡ some d)
      × ((write_snapshot file d io).0 ≡ false → (write_snapshot file d io).1 ≡ file)
unfolding write_snapshot read_snapshot
read-write_snapshot file d io f =
    let back = decode-encode_snapshot d f in (λ h. ground (arith, back), λ h. ground arith)
