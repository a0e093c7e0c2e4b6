-- ===== src/Wal/Record.antt =====
-- A record of the log, whole or torn.
use order_matching_machine.Prelude.{
  ℕ, ◌+◌, ◌-◌, ◌%◌, ◌^◌, ◌<◌, ◌≡◌, refl, ap, ◌∙◌, sym, true, false, List, [], ◌++◌, none, some,
  arith, append_assoc, append-nil, length, length-append, take, drop, take-append, drop-append, ltb,
  ◌==◌, ltb→lt, Bool-cases, inl, inr,
}
use order_matching_machine.Prelude.Cuts.{length-take_le, drop-drop, take-append_ge}
use order_matching_machine.Wire.Bytes.{le_bytes, read-le_bytes, length-le_bytes}
use order_matching_machine.Wal.Command.{
  OrderCommand, CommandFits, bare, encode_command, decode-encode_command, length-encode_command,
}
use order_matching_machine.Wal.Crc.{crc32, crc32-lt}
use order_matching_machine.Wal.Log.{wal_header_size, record_bytes, intact_record, next_record}

intact_record-short :
    (rest : List ℕ) (crc seq : ℕ)
    → length rest < wal_header_size + 31
    → intact_record rest 31 crc seq ≡ none
unfolding intact_record
intact_record-short rest crc seq h = ground arith

module _ (seq : ℕ) (c : OrderCommand) where
  abbrev pub payload : List ℕ
  payload = encode_command [] c

  abbrev pub head : List ℕ
  head = le_bytes 4 31 ++ (le_bytes 4 (crc32 payload) ++ (le_bytes 8 seq ++ []))

  pub record-flat : record_bytes seq c ≡ head ++ payload
  unfolding record_bytes
  record-flat =
      let size : length payload % 2 ^ 32 ≡ 31 = omega (arith, length-encode_command c) in
      rw size (simp (append_assoc, append-nil))

  pub length-head : length head ≡ wal_header_size
  length-head =
      rw (length-append, length-append, length-append)
        (omega
          (arith, length-le_bytes 4 31, length-le_bytes 4 (crc32 payload), length-le_bytes 8 seq))

  pub length-record : length (record_bytes seq c) ≡ 47
  length-record =
      rw (record-flat, length-append head payload)
        (omega (arith, length-head, length-encode_command c))

  -- With the header intact, the record is judged by its payload.
  next_record-head :
      seq < 2 ^ 64
      → (rest : List ℕ)
      → next_record (head ++ rest) ≡ intact_record (head ++ rest) 31 (crc32 payload) seq
  unfolding next_record
  next_record-head h rest =
      let front : take wal_header_size (head ++ rest) ≡ head =
        ap (λ n. take n (head ++ rest)) (sym length-head) ∙ take-append head rest in
      let long : ltb (length (head ++ rest)) wal_header_size ≡ false =
        ground (arith, length-append head rest, length-head) in
      rw
        (
          front,
          long,
          read-le_bytes 4 31 (omega arith) (le_bytes 4 (crc32 payload) ++ (le_bytes 8 seq ++ [])),
          read-le_bytes 4 (crc32 payload) (crc32-lt payload) (le_bytes 8 seq ++ []),
          read-le_bytes 8 seq h [],
        )
        refl

  next_record-short : (rest : List ℕ) → length rest < wal_header_size → next_record rest ≡ none
  unfolding next_record
  next_record-short rest h = ground arith

  -- A record that is whole gives its number and its command.
  pub next_record-record :
      CommandFits c
      → seq < 2 ^ 64
      → (rest : List ℕ) → next_record (record_bytes seq c ++ rest) ≡ some (seq, bare c, rest)
  unfolding intact_record
  next_record-record f h rest =
      let size = length-encode_command c in
      let behind : drop wal_header_size (head ++ (payload ++ rest)) ≡ payload ++ rest =
        ap (λ n. drop n (head ++ (payload ++ rest))) (sym length-head)
        ∙ drop-append head (payload ++ rest) in
      let front : take 31 (payload ++ rest) ≡ payload =
        ap (λ n. take n (payload ++ rest)) (sym size) ∙ take-append payload rest in
      let last : drop (wal_header_size + 31) (head ++ (payload ++ rest)) ≡ rest =
        drop-drop wal_header_size 31 (head ++ (payload ++ rest))
        ∙ ap (drop 31) behind
        ∙ ap (λ n. drop n (payload ++ rest)) (sym size)
        ∙ drop-append payload rest in
      let long : ltb (length (head ++ (payload ++ rest))) (wal_header_size + 31) ≡ false = ground (
        arith,
        length-append head (payload ++ rest),
        length-append payload rest,
        length-head,
        size,
      ) in
      let same : (crc32 payload == crc32 payload) ≡ true = ground arith in
      rw
        (
          record-flat,
          append_assoc head payload rest,
          next_record-head h (payload ++ rest),
          long,
          behind,
          front,
          same,
          decode-encode_command c f,
          last,
        )
        refl

  -- A record of which only a part reached the file is no record.
  pub next_record-torn :
      seq < 2 ^ 64 → (k : ℕ) → k < 47 → next_record (take k (record_bytes seq c)) ≡ none
  next_record-torn h k small = elim (Bool-cases (ltb k wal_header_size)) [
    | inl e ↦ next_record-short (take k (record_bytes seq c)) (
        omega (
          arith,
          length-take_le k (record_bytes seq c) (omega (arith, length-record)),
          ltb→lt k wal_header_size e,
        ))
    | inr e ↦
        let j = k - wal_header_size in
        let start : k ≡ length head + j = ground (arith, length-head) in
        let part : take k (record_bytes seq c) ≡ head ++ take j payload =
          ap (take k) record-flat
          ∙ ap (λ n. take n (head ++ payload)) start
          ∙ take-append_ge j head payload in
        let size = length-take_le j payload (omega (arith, small, length-encode_command c)) in
        rw (part, next_record-head h (take j payload))
          (intact_record-short (head ++ take j payload) (crc32 payload) seq
            (omega (arith, length-append head (take j payload), length-head, size, small, start)))
  ]
