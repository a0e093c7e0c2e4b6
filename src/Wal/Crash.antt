-- ===== src/Wal/Crash.antt =====
-- `read_wal` of a log that a crash cut short, and of a log with a hole.
use order_matching_machine.Prelude.{
  ℕ, suc, ◌+◌, ◌-◌, ◌^◌, ◌≤◌, ◌<◌, ◌≡◌, ◌≢◌, refl, ap, ◌∙◌, true, false, List, [], ◌∷◌, ◌++◌, some,
  arith, append_assoc, append-nil, All, map, length, length-append, take, is_empty,
}
use order_matching_machine.Prelude.Cuts.{length-take_le}
use order_matching_machine.Wal.Command.{OrderCommand, CommandFits, bare}
use order_matching_machine.Wal.Log.{
  record_bytes, WalReadResult, empty_result, push_record, is_gap, scan, read_buffer, whole_read,
  read_wal,
}
use order_matching_machine.Wal.Record.{next_record-record, next_record-torn, length-record}
use order_matching_machine.Wal.Replay.{log_bytes, pushed, scan-log_bytes, scan-end, scan-gap}

append-not_empty : (cs : List OrderCommand) (c : OrderCommand) → is_empty (cs ++ c ∷ []) ≡ false
append-not_empty [] c = refl
append-not_empty (b ∷ cs) c = refl

-- Behind a first command the rest is put on.
pushed-rest :
    (cs : List OrderCommand) (seq : ℕ) (r : WalReadResult)
    → is_empty r.commands ≡ false
    → r.last_seq + 1 ≡ seq
    → pushed r seq cs
      ≡ record r { commands = r.commands ++ map bare cs; last_seq = r.last_seq + length cs }
unfolding pushed
pushed-rest [] seq r e l =
    let none_more : r.last_seq + 0 ≡ r.last_seq = omega arith in
    rw (append-nil r.commands, none_more) refl
pushed-rest (c ∷ cs) seq r e l =
    let last : seq + length cs ≡ r.last_seq + suc (length cs) = omega (arith, l) in
    pushed-rest cs (suc seq) (push_record r seq (bare c)) (append-not_empty r.commands (bare c))
      (omega arith)
    ∙ rw (e, append_assoc r.commands (bare c ∷ []) (map bare cs), last) refl

length-log_bytes : (cs : List OrderCommand) (seq : ℕ) → length cs ≤ length (log_bytes seq cs)
unfolding log_bytes
length-log_bytes [] seq = omega arith
length-log_bytes (c ∷ cs) seq = omega (
  arith,
  length-log_bytes cs (suc seq),
  length-record seq c,
  length-append (record_bytes seq c) (log_bytes (suc seq) cs),
)

-- The result of a log that starts with `seq` and goes on without a hole.
abbrev pub replayed : ℕ → List OrderCommand → WalReadResult
replayed seq cs = record empty_result {
  commands = map bare cs;
  first_seq = seq;
  last_seq = seq + length cs - 1;
}

read_wal-log_bytes :
    (c : OrderCommand) (cs : List OrderCommand) (seq : ℕ) (tail : List ℕ)
    → All CommandFits (c ∷ cs)
    → seq + suc (length cs) < 2 ^ 64
    → (fuel : ℕ) × (read_buffer (log_bytes seq (c ∷ cs) ++ tail)
        ≡ scan (suc fuel) tail (replayed seq (c ∷ cs)))
unfolding read_buffer pushed
read_wal-log_bytes c cs seq tail f h =
    let bytes = log_bytes seq (c ∷ cs) ++ tail in
    let fuel = length bytes - length (c ∷ cs) in
    let enough : suc (length bytes) ≡ length (c ∷ cs) + suc fuel =
      omega (arith, length-log_bytes (c ∷ cs) seq, length-append (log_bytes seq (c ∷ cs)) tail) in
    let last : seq + length cs ≡ seq + suc (length cs) - 1 = omega arith in
    (
      fuel,
      ap (λ n. scan n bytes empty_result) enough
          ∙ scan-log_bytes (c ∷ cs) (suc fuel) seq tail empty_result f h refl
          ∙ ap (scan (suc fuel) tail) (
              pushed-rest cs (suc seq) (push_record empty_result seq (bare c)) refl (omega arith)
              ∙ rw last refl),
    )

-- Records of commands in range, numbered without a hole from `seq` on, then the first `k` bytes of
-- one more record, with `k` less than its length, as a crash leaves them: if it reads the whole file,
-- `read_wal` returns all
-- commands of the whole records without their pointers, the first and the last number, no gap, and
-- `k` torn bytes.
pub read_wal-torn :
    (c : OrderCommand) (cs : List OrderCommand) (seq : ℕ) (d : OrderCommand) (k : ℕ)
    → All CommandFits (c ∷ cs)
    → seq + suc (length cs) < 2 ^ 64
    → k < length (record_bytes (seq + suc (length cs)) d)
    → read_wal
        (log_bytes seq (c ∷ cs) ++ take k (record_bytes (seq + suc (length cs)) d))
        whole_read
      ≡ some (record (replayed seq (c ∷ cs)) { truncated_bytes = k })
read_wal-torn c cs seq d k f h small =
    let torn = take k (record_bytes (seq + suc (length cs)) d) in
    let (fuel, e) = read_wal-log_bytes c cs seq torn f h in
    let size = length-record (seq + suc (length cs)) d in
    let left : length torn ≡ k =
      length-take_le k (record_bytes (seq + suc (length cs)) d) (omega (arith, small)) in
    e
    ∙ scan-end fuel torn (replayed seq (c ∷ cs))
        (next_record-torn (seq + suc (length cs)) d h k (omega (arith, small, size)))
    ∙ ap (λ n. some (record (replayed seq (c ∷ cs)) { truncated_bytes = n })) left

-- Records of commands in range, numbered without a hole from `seq` on, `seq` not 0, then an intact
-- record whose number is not the next one, then any bytes: if it reads the whole file,
-- `read_wal` reports the gap behind the last
-- good number, and returns the commands before it and none behind.
pub read_wal-gap :
    (c : OrderCommand) (cs : List OrderCommand) (seq other : ℕ) (d : OrderCommand) (rest : List ℕ)
    → All CommandFits (c ∷ cs)
    → CommandFits d
    → 0 < seq
    → seq + suc (length cs) < 2 ^ 64
    → other < 2 ^ 64
    → other ≢ seq + suc (length cs)
    → read_wal (log_bytes seq (c ∷ cs) ++ (record_bytes other d ++ rest)) whole_read
      ≡ some (record (replayed seq (c ∷ cs)) {
        sequence_gap = true;
        gap_after = seq + length cs;
        truncated_bytes = length (record_bytes other d ++ rest);
      })
read_wal-gap c cs seq other d rest f g p h small ne =
    let tail = record_bytes other d ++ rest in
    let (fuel, e) = read_wal-log_bytes c cs seq tail f h in
    let last : seq + suc (length cs) - 1 ≡ seq + length cs = omega arith in
    let gap : is_gap (replayed seq (c ∷ cs)) other ≡ true = ground arith in
    e
    ∙ scan-gap fuel tail (replayed seq (c ∷ cs)) other (bare d) rest
        (next_record-record other d g small rest) gap
    ∙ ap
        (λ n. some (record (replayed seq (c ∷ cs)) {
          sequence_gap = true;
          gap_after = n;
          truncated_bytes = length tail;
        }))
        last
