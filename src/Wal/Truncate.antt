-- ===== src/Wal/Truncate.antt =====
-- `Wal::truncate_before`: the log without the records that a snapshot has made redundant, whatever the
-- system does meanwhile.
use order_matching_machine.Prelude.{
  ℕ, ◌+◌, ◌^◌, ◌<◌, ◌≡◌, refl, ap, ◌∙◌, sym, Bool, true, false, not, List, [], ◌++◌, some, arith,
  All, ◌&&◌, ◌⊎◌, Bool-cases, inl, inr, length, map, take, drop, leb, ltb,
}
use order_matching_machine.Wal.Command.{OrderCommand, CommandFits, bare}
use order_matching_machine.Wal.Log.{record_bytes, Wal, WalReadResult, sync, bytes_read, read_buffer}
use order_matching_machine.Wal.Replay.{log_bytes}
use order_matching_machine.Wal.Cut.{records_read, bytes_read-Cut, Found, Cut-Found}
use order_matching_machine.Prelude.Cuts.{length-take-le, All-take}
use order_matching_machine.Wal.Rewrite.{
  Rewrite, keep_records, rewrite_answer, rewrite, truncate_before, drop-nil, dropped,
  keep_records-log_bytes,
}

-- What a truncation leaves of the log `w` with the kept records `rest`.
pub record Truncated (w : Wal) (io : Rewrite) (rest : List ℕ) (ok : Bool) (v : Wal) : Type 0 where
  pub numbers : v.seq ≡ w.seq
  pub whole : (v.file ≡ w.file) ⊎ (v.file ≡ rest)
  pub done : ok ≡ true → (v.is_open ≡ true) × (v.file ≡ rest)
  pub failed : ok ≡ false → v.is_open ≡ false
  pub answer : ok ≡ (
      w.is_open
      && io.read.opened
      && io.opened
      && leb (length rest) io.landed
      && io.renamed
      && io.reopened)

-- The kept records, of the records that the reader got.
abbrev pub kept_bytes : ℕ → ℕ → List OrderCommand → List ℕ
kept_bytes keep_after seq cs =
    log_bytes (seq + dropped keep_after seq) (drop (dropped keep_after seq) cs)

keep_records-nil : (keep_after seq : ℕ) → keep_records keep_after seq [] ≡ []
unfolding keep_records
keep_records-nil k seq = refl

kept_bytes-nil : (keep_after seq : ℕ) → kept_bytes keep_after seq [] ≡ []
unfolding log_bytes
kept_bytes-nil k seq =
    ap (log_bytes (seq + dropped k seq)) (drop-nil (dropped k seq)) ∙ unfold log_bytes in refl

Found-kept :
    (keep_after seq : ℕ) (bytes : List ℕ) (cs : List OrderCommand) (rd : WalReadResult)
    → seq + length cs < 2 ^ 64
    → Found bytes seq cs rd
    → keep_records keep_after rd.first_seq rd.commands ≡ kept_bytes keep_after seq cs
Found-kept k seq bytes cs rd h w = elim w.numbered [
  | inl e ↦ rw (e, w.commands_are) (keep_records-log_bytes k seq cs h)
  | inr e ↦
      ap (keep_records k rd.first_seq) (w.commands_are ∙ ap (map bare) e)
      ∙ keep_records-nil k rd.first_seq
      ∙ sym (ap (kept_bytes k seq) e ∙ kept_bytes-nil k seq)
]

sync-same : (w : Wal) → ((sync w).file ≡ w.file) × ((sync w).seq ≡ w.seq)
unfolding sync
sync-same w = (ground arith, ground arith)

-- The log as `truncate_before` closes it.
abbrev closed : Wal → Wal
closed w = record (sync w) { is_open = false }

module _ (w : Wal) (io : Rewrite) (rest : List ℕ) where
  unwritten :
      (w.is_open
          && io.read.opened
          && io.opened
          && leb (length rest) io.landed
          && io.renamed
          && io.reopened)
        ≡ false
      → Truncated w io rest false (closed w)
  unwritten h = record {
    numbers = (sync-same w).1;
    whole = inl (sync-same w).0;
    done = λ e. cc;
    failed = λ e. refl;
    answer = sym h;
  }

  answers-Truncated :
      (opened short renamed reopened : Bool)
      → (w.is_open
          && io.read.opened
          && io.opened
          && leb (length rest) io.landed
          && io.renamed
          && io.reopened)
        ≡ (opened && not short && renamed && reopened)
      → Truncated w io rest
          (rewrite_answer (closed w) rest opened short renamed reopened).0
          (rewrite_answer (closed w) rest opened short renamed reopened).1
  answers-Truncated false short renamed reopened h = unwritten h
  answers-Truncated true true renamed reopened h = unwritten h
  answers-Truncated true false false reopened h = unwritten h
  answers-Truncated true false true false h = record {
    numbers = (sync-same w).1;
    whole = inr refl;
    done = λ e. cc;
    failed = λ e. refl;
    answer = sym h;
  }
  answers-Truncated true false true true h = record {
    numbers = (sync-same w).1;
    whole = inr refl;
    done = λ e. (refl, refl);
    failed = λ e. cc;
    answer = sym h;
  }

  rewrite-Truncated :
      w.is_open ≡ true
      → io.read.opened ≡ true
      → Truncated w io rest (rewrite (closed w) rest io).0 (rewrite (closed w) rest io).1
  rewrite-Truncated o r =
      let landed : leb (length rest) io.landed ≡ not (ltb io.landed (length rest)) = ground arith in
      answers-Truncated io.opened (ltb io.landed (length rest)) io.renamed io.reopened
        (rw (o, r, landed) refl)

module _ (w : Wal) (keep_after : ℕ) (io : Rewrite) where
  truncate_before-closed : w.is_open ≡ false → truncate_before w keep_after io ≡ some (false, w)
  unfolding truncate_before
  truncate_before-closed o = rw (truncate_before, o) refl

  truncate_before-unread :
      w.is_open ≡ true
      → io.read.opened ≡ false
      → truncate_before w keep_after io ≡ some (false, closed w)
  unfolding truncate_before
  truncate_before-unread o r = rw (truncate_before, o, r) refl

  truncate_before-read :
      (rd : WalReadResult)
      → w.is_open ≡ true
      → io.read.opened ≡ true
      → read_buffer (bytes_read io.read w.file) ≡ some rd
      → rd.failed ≡ false
      → truncate_before w keep_after io
        ≡ some (rewrite (closed w) (keep_records keep_after rd.first_seq rd.commands) io)
  unfolding truncate_before
  truncate_before-read rd o r e f = rw (truncate_before, o, r, e, f) refl

-- A log of whole records of commands in range, numbered without a hole from `seq` on and below
-- 2 ^ 64, and behind them at most a part of one more record. Whatever the system does,
-- `truncate_before` returns and the next number stays; the file is either as it was or the records with
-- numbers above `keep_after`, each with its old number, of those that were read back: all of them, or
-- as many as were whole where a `read` failed, and then the others are lost. The answer is true just
-- where the log was open, opened for reading, and was written, renamed and opened again; a failed
-- `read` does not count. Where it is true the file is the kept records and the log is open, and where
-- it is false, the log is closed.
pub truncate_before-Truncated :
    (w : Wal) (keep_after seq : ℕ) (io : Rewrite) (cs : List OrderCommand) (d : OrderCommand)
    (k : ℕ)
    → w.file ≡ log_bytes seq cs ++ take k (record_bytes (seq + length cs) d)
    → k < 47
    → All CommandFits cs
    → seq + length cs < 2 ^ 64
    → (ok : Bool) × (v : Wal) × (truncate_before w keep_after io ≡ some (ok, v))
      × Truncated w io (kept_bytes keep_after seq (take (records_read io.read (length cs)) cs)) ok v
truncate_before-Truncated w ka seq io cs d k e h f n =
    let got = take (records_read io.read (length cs)) cs in
    let rest = kept_bytes ka seq got in
    elim (Bool-cases w.is_open) [
      | inr o ↦ (
        false,
        w,
        truncate_before-closed w ka io o,
        record {
          numbers = refl;
          whole = inl refl;
          done = λ e'. cc;
          failed = λ e'. o;
          answer = rw o refl;
        },
      )
      | inl o ↦ elim (Bool-cases io.read.opened) [
        | inr r ↦ (
          false,
          closed w,
          truncate_before-unread w ka io o r,
          unwritten w io rest (rw (o, r) refl),
        )
        | inl r ↦
            let cut = bytes_read-Cut io.read w.file seq cs d k h e in
            let count = records_read io.read (length cs) in
            let small : seq + length got < 2 ^ 64 = omega (arith, n, length-take-le count cs) in
            let (rd, found) =
              Cut-Found (bytes_read io.read w.file) seq got cut (All-take CommandFits count cs f)
                small in
            let kept = Found-kept ka seq _ got rd small found in
            let t = rewrite-Truncated w io rest o r in
            (
              _,
              _,
              truncate_before-read w ka io rd o r found.returned found.read_ok
                  ∙ ap (λ out. some (rewrite (closed w) out io)) kept,
              t,
            )
      ]
    ]
