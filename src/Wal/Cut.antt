-- ===== src/Wal/Cut.antt =====
-- A log of which only a part is read, because a `read` failed: the whole records at its front.
use order_matching_machine.Prelude.{
  ℕ, suc, ◌+◌, ◌-◌, ◌/◌, ◌^◌, ◌<◌, ◌≡◌, refl, ap, ◌∙◌, sym, subst, min, take-append_le, false, List,
  [], ◌∷◌, ◌++◌, Option, none, some, arith, append_assoc, All, ◌⊎◌, inl, inr, Bool-cases, map,
  length, take, ltb,
}
use order_matching_machine.Prelude.Cuts.{take-append_ge, take-take, take_nil, take_all}
use order_matching_machine.Wal.Command.{OrderCommand, CommandFits, bare}
use order_matching_machine.Wal.Log.{
  record_bytes, WalReadResult, empty_result, next_record, read_buffer, FileRead, bytes_read,
}
use order_matching_machine.Wal.Record.{length-record, next_record-torn}
use order_matching_machine.Wal.Replay.{log_bytes, scan-end}
use order_matching_machine.Wal.Crash.{read_wal-torn}

-- How many of `count` records, each of 47 bytes, a reader gets.
abbrev pub records_read : FileRead → ℕ → ℕ
records_read io count = elim io.stops [ none ↦ count | some n ↦ min count (n / 47) ]

-- Whole records from the number `seq` on, and a part of one more.
pub record Cut (bytes : List ℕ) (seq : ℕ) (cs : List OrderCommand) : Type 0 where
  pub next : OrderCommand
  pub torn : ℕ
  pub torn_lt : torn < 47
  pub is_cut : bytes ≡ log_bytes seq cs ++ take torn (record_bytes (seq + length cs) next)

-- The cut before the end of the first record.
Cut-first :
    (n seq : ℕ) (c : OrderCommand) (cs : List OrderCommand) (tail : List ℕ)
    → n < 47
    → Cut (take n (log_bytes seq (c ∷ cs) ++ tail)) seq []
unfolding log_bytes
Cut-first n seq c cs tail h =
    let size = length-record seq c in
    let here : seq + 0 ≡ seq = omega arith in
    record {
      next = c;
      torn = n;
      torn_lt = h;
      is_cut =
          ap (take n) (append_assoc (record_bytes seq c) (log_bytes (suc seq) cs) tail)
          ∙ take-append_le n (record_bytes seq c) _ (omega (arith, size))
          ∙ ap (λ i. take n (record_bytes i c)) (sym here);
    }

-- The first record, and a cut behind it.
Cut-next :
    (n seq : ℕ) (c : OrderCommand) (cs kept : List OrderCommand) (tail : List ℕ)
    → Cut (take n (log_bytes (suc seq) cs ++ tail)) (suc seq) kept
    → Cut (take (47 + n) (log_bytes seq (c ∷ cs) ++ tail)) seq (c ∷ kept)
unfolding log_bytes
Cut-next n seq c cs kept tail w =
    let size : 47 + n ≡ length (record_bytes seq c) + n = omega (arith, length-record seq c) in
    let number : suc seq + length kept ≡ seq + suc (length kept) = omega arith in
    record {
      next = w.next;
      torn = w.torn;
      torn_lt = w.torn_lt;
      is_cut =
          ap (λ i. take i (log_bytes seq (c ∷ cs) ++ tail)) size
          ∙ ap (take _) (append_assoc (record_bytes seq c) (log_bytes (suc seq) cs) tail)
          ∙ take-append_ge n (record_bytes seq c) (log_bytes (suc seq) cs ++ tail)
          ∙ ap (λ l. record_bytes seq c ++ l) w.is_cut
          ∙ sym (append_assoc (record_bytes seq c) (log_bytes (suc seq) kept) _)
          ∙ ap (λ i. log_bytes seq (c ∷ kept) ++ take w.torn (record_bytes i w.next)) number;
    }

-- The first bytes of a log with a torn tail are as many whole records, and a torn one.
log_bytes-Cut :
    (n seq : ℕ) (cs : List OrderCommand) (d : OrderCommand) (k : ℕ)
    → k < 47
    → Cut
        (take n (log_bytes seq cs ++ take k (record_bytes (seq + length cs) d)))
        seq
        (take (min (length cs) (n / 47)) cs)
log_bytes-Cut n seq [] d k h = rw (take_nil {A = OrderCommand} (min 0 (n / 47))) (record {
  next = d;
  torn = min n k;
  torn_lt = omega (arith, h);
  is_cut = unfold log_bytes in take-take n k (record_bytes (seq + 0) d);
})
log_bytes-Cut n seq (c ∷ cs) d k h = elim (Bool-cases (ltb n 47)) [
  | inl e ↦
      let none_whole : min (suc (length cs)) (n / 47) ≡ 0 = ground (arith, e) in
      rw none_whole (Cut-first n seq c cs _ (ground (arith, e)))
  | inr e ↦
      let n' = n - 47 in
      let number : seq + suc (length cs) ≡ suc seq + length cs = omega arith in
      let size : n ≡ 47 + n' = ground (arith, e) in
      let one_more : min (suc (length cs)) (n / 47) ≡ suc (min (length cs) (n' / 47)) =
        ground (arith, e) in
      rw (one_more, number)
        (subst
          (λ i.
            Cut (take i (log_bytes seq (c ∷ cs) ++ take k (record_bytes (suc seq + length cs) d)))
              seq (c ∷ take (min (length cs) (n' / 47)) cs))
          (sym size) (Cut-next n' seq c cs _ _ (log_bytes-Cut n' (suc seq) cs d k h)))
]

-- What a reader gets of the file, whether a `read` fails or not.
pub bytes_read-Cut :
    (io : FileRead) (file : List ℕ) (seq : ℕ) (cs : List OrderCommand) (d : OrderCommand) (k : ℕ)
    → k < 47
    → file ≡ log_bytes seq cs ++ take k (record_bytes (seq + length cs) d)
    → Cut (bytes_read io file) seq (take (records_read io (length cs)) cs)
bytes_read-Cut io file seq cs d k h e = at_stop io.stops refl
  where
    at_stop :
        (s : Option ℕ)
        → io.stops ≡ s
        → Cut (bytes_read io file) seq (take (records_read io (length cs)) cs)
    at_stop none f =
        rw (f, take_all (length cs) cs (omega arith))
          (record { next = d; torn = k; torn_lt = h; is_cut = e })
    at_stop (some n) f = rw (f, e) (log_bytes-Cut n seq cs d k h)

read_buffer-torn :
    (bytes : List ℕ)
    → next_record bytes ≡ none
    → read_buffer bytes ≡ some (record empty_result { truncated_bytes = length bytes })
unfolding read_buffer
read_buffer-torn bytes h = scan-end (length bytes) bytes empty_result h

-- The scan of such bytes finds the whole records.
pub record Found (bytes : List ℕ) (seq : ℕ) (cs : List OrderCommand) (rd : WalReadResult)
    : Type 0 where
  pub returned : read_buffer bytes ≡ some rd
  pub read_ok : rd.failed ≡ false
  pub commands_are : rd.commands ≡ map bare cs
  pub numbered : (rd.first_seq ≡ seq) ⊎ (cs ≡ [])

pub Cut-Found :
    (bytes : List ℕ) (seq : ℕ) (cs : List OrderCommand)
    → Cut bytes seq cs
    → All CommandFits cs
    → seq + length cs < 2 ^ 64
    → (rd : WalReadResult) × Found bytes seq cs rd
Cut-Found bytes seq [] w f h =
    let torn = take w.torn (record_bytes (seq + 0) w.next) in
    let nothing_whole : log_bytes seq [] ++ torn ≡ torn = unfold log_bytes in refl in
    (
      _,
      record {
        returned =
            ap read_buffer (w.is_cut ∙ nothing_whole)
            ∙ read_buffer-torn torn
                (next_record-torn (seq + 0) w.next (omega (arith, h)) w.torn w.torn_lt);
        read_ok = refl;
        commands_are = refl;
        numbered = inr refl;
      },
    )
Cut-Found bytes seq (c ∷ cs) w f h =
    let size = length-record (seq + suc (length cs)) w.next in
    (
      _,
      record {
        returned =
            ap read_buffer w.is_cut
            ∙ read_wal-torn c cs seq w.next w.torn f h (omega (arith, size, w.torn_lt));
        read_ok = refl;
        commands_are = refl;
        numbered = inl refl;
      },
    )
