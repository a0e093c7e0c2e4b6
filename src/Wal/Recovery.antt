-- ===== src/Wal/Recovery.antt =====
-- From the writer to the reader: what was appended is what recovery reads.
use order_matching_machine.Prelude.{
  ℕ, suc, refl, map, ◌+◌, ◌^◌, ◌<◌, ◌≡◌, ap, ◌∙◌, sym, subst, true, false, List, [], ◌∷◌, ◌++◌,
  some, arith, append_assoc, append-nil, All, length, length-append, take, ltb,
}
use order_matching_machine.Prelude.Cuts.{take_all}
use order_matching_machine.Prelude.Words.{add64}
use order_matching_machine.Wal.Command.{OrderCommand, CommandFits, bare}
use order_matching_machine.Wal.Log.{
  record_bytes, Wal, sync, maybe_sync, append, WalReadResult, empty_result, scan, read_buffer,
  whole_read, read_wal,
}
use order_matching_machine.Wal.Record.{length-record}
use order_matching_machine.Wal.Replay.{log_bytes}
use order_matching_machine.Wal.Crash.{replayed, read_wal-torn}

maybe_sync-file :
    (w : Wal) (now_ns : ℕ)
    → ((maybe_sync w now_ns).file ≡ w.file)
      × ((maybe_sync w now_ns).seq ≡ w.seq)
      × ((maybe_sync w now_ns).is_open ≡ w.is_open)
unfolding maybe_sync sync
maybe_sync-file w now_ns = (ground arith, ground arith, ground arith)

abbrev written : Wal → OrderCommand → ℕ → Wal
written w c landed = record w {
  seq = add64 w.seq 1;
  file = w.file ++ take landed (record_bytes (add64 w.seq 1) c);
}

append-cases :
    (w : Wal) (c : OrderCommand) (now_ns landed : ℕ)
    → (append w c now_ns landed).0 ≡ true
    → (ltb landed (length (record_bytes (add64 w.seq 1) c)) ≡ false)
      × ((append w c now_ns landed).1
          ≡ maybe_sync (record (written w c landed) { since_sync = add64 w.since_sync 1 }) now_ns)
unfolding append
append-cases w c now_ns landed h = (ground arith, ground arith)

-- A successful append puts one whole record behind the file, under the next number.
append-true :
    (w : Wal) (c : OrderCommand) (now_ns landed : ℕ)
    → (append w c now_ns landed).0 ≡ true
    → ((append w c now_ns landed).1.file ≡ w.file ++ record_bytes (add64 w.seq 1) c)
      × ((append w c now_ns landed).1.seq ≡ add64 w.seq 1)
append-true w c now_ns landed h =
    let (whole, after) = append-cases w c now_ns landed h in
    let (same_file, same_seq, _) =
      maybe_sync-file (record (written w c landed) { since_sync = add64 w.since_sync 1 }) now_ns in
    let all_landed = take_all landed (record_bytes (add64 w.seq 1) c) (ground arith) in
    rw (after) (same_file ∙ ap (λ l. w.file ++ l) all_landed, same_seq)

-- A failed append of an open log leaves what landed of the record.
append-false :
    (w : Wal) (c : OrderCommand) (now_ns landed : ℕ)
    → w.is_open ≡ true
    → (append w c now_ns landed).0 ≡ false
    → ((append w c now_ns landed).1.file ≡ w.file ++ take landed (record_bytes (add64 w.seq 1) c))
      × (landed < length (record_bytes (add64 w.seq 1) c))
unfolding append
append-false w c now_ns landed o h = (ground arith, ground arith)

-- Successful appends, one after the other, each at its own time.
pub data Logged (w : Wal) : List OrderCommand → Wal → Type 0 where
  none_yet : Logged w [] w
  one_more :
      {cs : List OrderCommand} {v : Wal}
      → Logged w cs v
      → (c : OrderCommand) (now_ns landed : ℕ) → (append v c now_ns landed).0 ≡ true
      → Logged w (cs ++ c ∷ []) (append v c now_ns landed).1

log_bytes-append :
    (cs : List OrderCommand) (seq : ℕ) (c : OrderCommand)
    → log_bytes seq (cs ++ c ∷ []) ≡ log_bytes seq cs ++ record_bytes (seq + length cs) c
unfolding log_bytes
log_bytes-append [] seq c =
    let here : seq + 0 ≡ seq = omega arith in rw here (append-nil (record_bytes seq c))
log_bytes-append (b ∷ cs) seq c =
    let later : suc seq + length cs ≡ seq + suc (length cs) = omega arith in
    ap (λ l. record_bytes seq b ++ l) (log_bytes-append cs (suc seq) c)
    ∙ rw later (
        sym (
          append_assoc (record_bytes seq b) (log_bytes (suc seq) cs)
            (record_bytes (seq + suc (length cs)) c)))

Logged-file :
    {w v : Wal} {cs : List OrderCommand}
    → Logged w cs v
    → w.seq + length cs < 2 ^ 64
    → (v.file ≡ w.file ++ log_bytes (suc w.seq) cs) × (v.seq ≡ w.seq + length cs)
unfolding log_bytes
Logged-file {w = w} none_yet h = (sym (append-nil w.file), omega arith)
Logged-file {w = w} (one_more {cs = cs} {v = v} l c now_ns landed e) h =
    let longer = length-append cs (c ∷ []) in
    let (file, number) = Logged-file l (omega (arith, h, longer)) in
    let (file', number') = append-true v c now_ns landed e in
    let next : add64 v.seq 1 ≡ suc w.seq + length cs = omega (arith, number, h, longer) in
    (
      file'
          ∙ rw (next, file)
              (append_assoc w.file (log_bytes (suc w.seq) cs)
                (record_bytes (suc w.seq + length cs) c))
          ∙ ap (λ l. w.file ++ l) (sym (log_bytes-append cs (suc w.seq) c)),
      number' ∙ omega (arith, number, h, longer),
    )

read_wal-nil : read_buffer [] ≡ some empty_result
unfolding read_buffer scan order_matching_machine.Wal.Log.next_record
read_wal-nil = refl

-- What a reader finds of a log that was empty before.
pub read_wal-Logged :
    {w v : Wal} (cs : List OrderCommand)
    → Logged w cs v
    → w.file ≡ []
    → All CommandFits cs
    → suc w.seq + length cs < 2 ^ 64
    → (r : WalReadResult) × (read_buffer v.file ≡ some r) × (r.commands ≡ map bare cs)
unfolding log_bytes
read_wal-Logged {w = w} {v = v} [] l empty f h =
    let (file, _) = Logged-file l (omega (arith, h)) in
    (empty_result, ap read_buffer (file ∙ ap (λ b. b ++ []) empty) ∙ read_wal-nil, refl)
read_wal-Logged {w = w} {v = v} (c ∷ cs) l empty f h =
    let (file, _) = Logged-file l (omega (arith, h)) in
    let all = log_bytes (suc w.seq) (c ∷ cs) in
    let size = length-record (suc w.seq + suc (length cs)) c in
    (
      _,
      ap read_buffer (file ∙ ap (λ b. b ++ all) empty ∙ sym (append-nil all))
          ∙ read_wal-torn c cs (suc w.seq) c 0 f h (omega (arith, size)),
      refl,
    )

-- A log that was empty, after one or more successful appends of commands in range and then one
-- append that failed on the open file after `landed` bytes, with all numbers below 2 ^ 64: if it
-- reads the whole file, `read_wal` returns every command that was appended, without its pointers, numbered from the log's start, no
-- gap, and `landed` torn bytes.
pub read_wal-append :
    {w v : Wal} (c : OrderCommand) (cs : List OrderCommand)
    → Logged w (c ∷ cs) v
    → w.file ≡ []
    → All CommandFits (c ∷ cs)
    → suc w.seq + suc (length cs) < 2 ^ 64
    → v.is_open ≡ true
    → (d : OrderCommand) (now_ns landed : ℕ) → (append v d now_ns landed).0 ≡ false
    → read_wal (append v d now_ns landed).1.file whole_read
      ≡ some (record (replayed (suc w.seq) (c ∷ cs)) { truncated_bytes = landed })
read_wal-append {w = w} {v = v} c cs l empty f h o d now_ns landed e =
    let (file, number) = Logged-file l (omega (arith, h)) in
    let (file', torn) = append-false v d now_ns landed o e in
    let next : add64 v.seq 1 ≡ suc w.seq + suc (length cs) = omega (arith, number, h) in
    let whole =
      read_wal-torn c cs (suc w.seq) d landed f h
        (subst (λ n. landed < length (record_bytes n d)) next torn) in
    ap read_buffer (
      file'
      ∙ ap (λ n. v.file ++ take landed (record_bytes n d)) next
      ∙ ap (λ l'. l' ++ take landed (record_bytes (suc w.seq + suc (length cs)) d))
          (file ∙ ap (λ l'. l' ++ log_bytes (suc w.seq) (c ∷ cs)) empty))
    ∙ whole

-- The loss window: below the configured number of unsynced records before a successful append, and
-- with that number below 2 ^ 64, the log is below it after the append.
pub append-since_sync :
    (w : Wal) (c : OrderCommand) (now_ns landed : ℕ)
    → w.cfg.sync_every_n < 2 ^ 64
    → w.since_sync < w.cfg.sync_every_n
    → (append w c now_ns landed).0 ≡ true
    → (append w c now_ns landed).1.since_sync < w.cfg.sync_every_n
unfolding append maybe_sync sync
append-since_sync w c now_ns landed n h e = ground arith
