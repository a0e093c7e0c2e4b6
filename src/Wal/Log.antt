-- ===== src/Wal/Log.antt =====
-- The log of include/ome/wal.hpp: its records, the writer, and the scan of `read_wal`.
--
-- The file is the list of its bytes. What the operating system does is an argument: `landed` is how
-- many bytes of a record its `write` calls took before an error; `write_all` fails when some are left.
-- What a reader gets of a file is a `FileRead`.
use order_matching_machine.Prelude.{
  ℕ, zero, suc, ◌+◌, ◌-◌, ◌*◌, ◌%◌, ◌^◌, Bool, true, false, not, ◌&&◌, ◌||◌, List, [], ◌∷◌, ◌++◌,
  Option, none, some, length, is_empty, take, drop, ltb, leb, ◌==◌, if◌then◌else◌,
}
use order_matching_machine.Prelude.Words.{add64}
use order_matching_machine.Wire.Bytes.{put_u32, put_u64, reader, read}
use order_matching_machine.Wal.Command.{OrderCommand, encode_command, decode_command}
use order_matching_machine.Wal.Crc.{crc32}

abbrev pub wal_header_size : ℕ
wal_header_size = 16

abbrev pub wal_max_payload : ℕ
wal_max_payload = 64 * 1024

unfoldable pub record_bytes : ℕ → OrderCommand → List ℕ
record_bytes seq c =
    let payload = encode_command [] c in
    put_u64 (put_u32 (put_u32 [] (length payload % 2 ^ 32)) (crc32 payload)) seq ++ payload

pub record WalConfig : Type 0 where
  pub sync_interval_ns : ℕ
  pub sync_every_n : ℕ

pub record Wal : Type 0 where
  pub is_open : Bool
  pub cfg : WalConfig
  pub seq : ℕ
  pub since_sync : ℕ
  pub last_sync_ns : ℕ
  pub syncs : ℕ
  pub file : List ℕ

unfoldable pub sync : Wal → Wal
sync w =
    if not w.is_open || w.since_sync == 0
    then w
    else record w { since_sync = 0; syncs = add64 w.syncs 1 }

unfoldable pub maybe_sync : Wal → ℕ → Wal
maybe_sync w now_ns =
    if leb w.cfg.sync_every_n w.since_sync
      || (ltb w.last_sync_ns now_ns && leb w.cfg.sync_interval_ns (now_ns - w.last_sync_ns))
    then record (sync w) { last_sync_ns = now_ns }
    else w

unfoldable pub append : Wal → OrderCommand → ℕ → ℕ → Bool × Wal
append w c now_ns landed =
    let seq = add64 w.seq 1 in
    let bytes = record_bytes seq c in
    let written = record w { seq = seq; file = w.file ++ take landed bytes } in
    if not w.is_open
    then (false, w)
    else if ltb landed (length bytes)
    then (false, written)
    else (true, maybe_sync (record written { since_sync = add64 w.since_sync 1 }) now_ns)

-- `failed` is an `error` that is not empty.
pub record WalReadResult : Type 0 where
  pub commands : List OrderCommand
  pub first_seq : ℕ
  pub last_seq : ℕ
  pub truncated_bytes : ℕ
  pub sequence_gap : Bool
  pub gap_after : ℕ
  pub failed : Bool

abbrev pub empty_result : WalReadResult
empty_result = record {
  commands = [];
  first_seq = 0;
  last_seq = 0;
  truncated_bytes = 0;
  sequence_gap = false;
  gap_after = 0;
  failed = false;
}

-- The record at the front of the bytes: its number and its command, if it is intact.
unfoldable pub intact_record : List ℕ → ℕ → ℕ → ℕ → Option (ℕ × OrderCommand × List ℕ)
intact_record rest len want_crc seq =
    let payload = take len (drop wal_header_size rest) in
    if ltb wal_max_payload len
    then none
    else if ltb (length rest) (wal_header_size + len)
    then none
    else if not (crc32 payload == want_crc)
    then none
    else elim (decode_command payload) [
      | none ↦ none
      | some c ↦ some (seq, c, drop (wal_header_size + len) rest)
    ]

unfoldable pub next_record : List ℕ → Option (ℕ × OrderCommand × List ℕ)
next_record rest =
    let (len, r1) = read 4 (reader (take wal_header_size rest)) in
    let (want_crc, r2) = read 4 r1 in
    let (seq, r3) = read 8 r2 in
    if ltb (length rest) wal_header_size then none else intact_record rest len want_crc seq

abbrev pub push_record : WalReadResult → ℕ → OrderCommand → WalReadResult
push_record r seq c = record r {
  commands = r.commands ++ c ∷ [];
  first_seq = if is_empty r.commands then seq else r.first_seq;
  last_seq = seq;
}

abbrev pub is_gap : WalReadResult → ℕ → Bool
is_gap r seq = not (r.last_seq == 0) && not (seq == add64 r.last_seq 1)

-- The loop of `read_wal`, on fuel: what is left of the buffer from `pos` on, and the result so far.
unfoldable pub scan : ℕ → List ℕ → WalReadResult → Option WalReadResult
scan zero rest r = none
scan (suc fuel) rest r = elim (next_record rest) [
  | none ↦ some (record r { truncated_bytes = length rest })
  | some (seq, c, behind) ↦ elim (is_gap r seq) [
    | true ↦
        some
          (record r { sequence_gap = true; gap_after = r.last_seq; truncated_bytes = length rest })
    | false ↦ scan fuel behind (push_record r seq c)
  ]
]

-- The scan of the whole buffer; every record takes a byte at least.
unfoldable pub read_buffer : List ℕ → Option WalReadResult
read_buffer bytes = scan (suc (length bytes)) bytes empty_result

-- What the system does while a file is read: whether it opens, and after how many bytes a `read`
-- fails, if one does.
pub record FileRead : Type 0 where
  pub opened : Bool
  pub stops : Option ℕ

abbrev pub whole_read : FileRead
whole_read = record { opened = true; stops = none }

-- The loop over `read`: it ends at the end of the file, and also at a failure.
abbrev pub bytes_read : FileRead → List ℕ → List ℕ
bytes_read io file = elim io.stops [ none ↦ file | some n ↦ take n file ]

abbrev pub read_wal : List ℕ → FileRead → Option WalReadResult
read_wal file io =
    if not io.opened
    then some (record empty_result { failed = true })
    else read_buffer (bytes_read io file)
