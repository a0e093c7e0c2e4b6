-- ===== src/Wal/Replay.antt =====
-- Reading back what was logged: after a crash, and with a record missing.
use order_matching_machine.Prelude.{
  ℕ, suc, ◌+◌, ◌^◌, ◌<◌, ◌≡◌, refl, true, false, List, [], ◌∷◌, ◌++◌, none, some, arith,
  append_assoc, All, length,
}
use order_matching_machine.Wal.Command.{OrderCommand, CommandFits, bare}
use order_matching_machine.Wal.Log.{
  record_bytes, next_record, WalReadResult, push_record, is_gap, scan,
}
use order_matching_machine.Wal.Record.{next_record-record}

-- The records of commands, numbered from `seq` on.
unfoldable pub log_bytes : ℕ → List OrderCommand → List ℕ
log_bytes seq [] = []
log_bytes seq (c ∷ cs) = record_bytes seq c ++ log_bytes (suc seq) cs

-- The next number is due: the log is empty so far, or ends one before.
abbrev pub Due : WalReadResult → ℕ → Type 0
Due r seq = is_gap r seq ≡ false

push_record-Due :
    (r : WalReadResult) (seq : ℕ) (c : OrderCommand)
    → seq + 1 < 2 ^ 64
    → Due (push_record r seq c) (suc seq)
push_record-Due r seq c h = ground arith

-- The result after the records.
unfoldable pub pushed : WalReadResult → ℕ → List OrderCommand → WalReadResult
pushed r seq [] = r
pushed r seq (c ∷ cs) = pushed (push_record r seq (bare c)) (suc seq) cs

pub scan-next :
    (fuel : ℕ) (rest : List ℕ) (r : WalReadResult) (seq : ℕ) (c : OrderCommand) (behind : List ℕ)
    → next_record rest ≡ some (seq, c, behind)
    → Due r seq
    → scan (suc fuel) rest r ≡ scan fuel behind (push_record r seq c)
unfolding scan
scan-next fuel rest r seq c behind e d = rw (scan, e, d) refl

pub scan-gap :
    (fuel : ℕ) (rest : List ℕ) (r : WalReadResult) (seq : ℕ) (c : OrderCommand) (behind : List ℕ)
    → next_record rest ≡ some (seq, c, behind)
    → is_gap r seq ≡ true
    → scan (suc fuel) rest r
      ≡ some
          (record r { sequence_gap = true; gap_after = r.last_seq; truncated_bytes = length rest })
unfolding scan
scan-gap fuel rest r seq c behind e d = rw (scan, e, d) refl

pub scan-end :
    (fuel : ℕ) (rest : List ℕ) (r : WalReadResult)
    → next_record rest ≡ none
    → scan (suc fuel) rest r ≡ some (record r { truncated_bytes = length rest })
unfolding scan
scan-end fuel rest r e = rw (scan, e) refl

pub scan-log_bytes :
    (cs : List OrderCommand) (fuel seq : ℕ) (tail : List ℕ) (r : WalReadResult)
    → All CommandFits cs
    → seq + length cs < 2 ^ 64
    → Due r seq
    → scan (length cs + fuel) (log_bytes seq cs ++ tail) r ≡ scan fuel tail (pushed r seq cs)
unfolding log_bytes pushed
scan-log_bytes [] fuel seq tail r f h d =
    let none_more : 0 + fuel ≡ fuel = omega arith in rw none_more refl
scan-log_bytes (c ∷ cs) fuel seq tail r f h d =
    let one_more : suc (length cs) + fuel ≡ suc (length cs + fuel) = omega arith in
    rw
      (
        one_more,
        append_assoc (record_bytes seq c) (log_bytes (suc seq) cs) tail,
        scan-next (length cs + fuel) (record_bytes seq c ++ (log_bytes (suc seq) cs ++ tail)) r seq
            (bare c) (log_bytes (suc seq) cs ++ tail)
            (next_record-record seq c f.0 (omega (arith, h)) (log_bytes (suc seq) cs ++ tail)) d,
      )
      (scan-log_bytes cs fuel (suc seq) tail (push_record r seq (bare c)) f.1 (omega (arith, h))
        (push_record-Due r seq (bare c) (omega (arith, h))))
