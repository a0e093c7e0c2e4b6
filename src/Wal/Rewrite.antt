-- ===== src/Wal/Rewrite.antt =====
-- `Wal::truncate_before`: the log without the records that a snapshot has made redundant.
--
-- What the system does is an argument: how the log is read back, whether the temporary file opens, how
-- many bytes its `write` calls take, whether the rename works, and whether the log opens again.
use order_matching_machine.Prelude.{
  ℕ, zero, suc, ◌+◌, ◌-◌, ◌^◌, ◌<◌, ◌≡◌, refl, ap, ◌∙◌, sym, Bool, true, false, not, List, [], ◌∷◌,
  ◌++◌, Option, none, some, arith, Bool-cases, inl, inr, length, map, drop, leb, ltb, if◌then◌else◌,
}
use order_matching_machine.Prelude.Words.{add64}
use order_matching_machine.Wal.Command.{OrderCommand, bare, encode_command}
use order_matching_machine.Wal.Log.{record_bytes, Wal, WalReadResult, sync, FileRead, read_wal}
use order_matching_machine.Wal.Replay.{log_bytes}

pub record Rewrite : Type 0 where
  pub read : FileRead
  pub opened : Bool
  pub landed : ℕ
  pub renamed : Bool
  pub reopened : Bool

-- The loop over the commands, from the number `seq` on.
unfoldable pub keep_records : ℕ → ℕ → List OrderCommand → List ℕ
keep_records keep_after seq [] = []
keep_records keep_after seq (c ∷ cs) =
    let rest = keep_records keep_after (add64 seq 1) cs in
    if leb seq keep_after then rest else record_bytes seq c ++ rest

-- The early returns: the file opens, the writes fall short, the rename works, the log opens again.
abbrev pub rewrite_answer : Wal → List ℕ → Bool → Bool → Bool → Bool → Bool × Wal
rewrite_answer w out opened short renamed reopened =
    if not opened
    then (false, w)
    else if short
    then (false, w)
    else if not renamed
    then (false, w)
    else if not reopened
    then (false, record w { file = out })
    else (true, record w { file = out; is_open = true })

-- The rewrite of a closed log, and its answer.
abbrev pub rewrite : Wal → List ℕ → Rewrite → Bool × Wal
rewrite w out io =
    rewrite_answer w out io.opened (ltb io.landed (length out)) io.renamed io.reopened

abbrev pub rewrite_read : Wal → ℕ → Rewrite → Option WalReadResult → Option (Bool × Wal)
rewrite_read w keep_after io none = none
rewrite_read w keep_after io (some rd) =
    if rd.failed
    then some (false, w)
    else some (rewrite w (keep_records keep_after rd.first_seq rd.commands) io)

-- `none` is a read that does not return, which does not come up; the count of dropped records is left out.
unfoldable pub truncate_before : Wal → ℕ → Rewrite → Option (Bool × Wal)
truncate_before w keep_after io =
    if not w.is_open
    then some (false, w)
    else rewrite_read (record (sync w) { is_open = false }) keep_after io (read_wal w.file io.read)

record_bytes-bare : (seq : ℕ) (c : OrderCommand) → record_bytes seq (bare c) ≡ record_bytes seq c
unfolding record_bytes encode_command
record_bytes-bare seq c = refl

pub drop-nil : (n : ℕ) → drop {A = OrderCommand} n [] ≡ []
drop-nil zero = refl
drop-nil (suc n) = refl

module _ (keep_after seq : ℕ) (c : OrderCommand) (cs : List OrderCommand)
    (small : seq + 1 < 2 ^ 64) where
  keep_records-drop :
      leb seq keep_after ≡ true
      → keep_records keep_after seq (c ∷ cs) ≡ keep_records keep_after (suc seq) cs
  unfolding keep_records
  keep_records-drop h =
      let next : add64 seq 1 ≡ suc seq = omega (arith, small) in ground (arith, h, next)

  keep_records-keep :
      leb seq keep_after ≡ false
      → keep_records keep_after seq (c ∷ cs)
        ≡ record_bytes seq c ++ keep_records keep_after (suc seq) cs
  unfolding keep_records
  keep_records-keep h =
      let next : add64 seq 1 ≡ suc seq = omega (arith, small) in ground (arith, h, next)

-- How many records fall away.
abbrev pub dropped : ℕ → ℕ → ℕ
dropped keep_after seq = suc keep_after - seq

pub keep_records-log_bytes :
    (keep_after seq : ℕ) (cs : List OrderCommand)
    → seq + length cs < 2 ^ 64
    → keep_records keep_after seq (map bare cs)
      ≡ log_bytes (seq + dropped keep_after seq) (drop (dropped keep_after seq) cs)
unfolding log_bytes
keep_records-log_bytes k seq [] h = rw (drop-nil (dropped k seq)) (unfold keep_records in refl)
keep_records-log_bytes k seq (c ∷ cs) h =
    let small : seq + 1 < 2 ^ 64 = omega (arith, h) in
    let rest = keep_records-log_bytes k (suc seq) cs (omega (arith, h)) in
    elim (Bool-cases (leb seq k)) [
      | inl e ↦
          let one_more : dropped k seq ≡ suc (dropped k (suc seq)) = ground (arith, e) in
          let number : suc seq + dropped k (suc seq) ≡ seq + dropped k seq = ground (arith, e) in
          keep_records-drop k seq (bare c) (map bare cs) small e
          ∙ rest
          ∙ ap (λ n. log_bytes n (drop (dropped k (suc seq)) cs)) number
          ∙ ap (λ n. log_bytes (seq + dropped k seq) (drop n (c ∷ cs))) (sym one_more)
      | inr e ↦
          let none_here : dropped k seq ≡ 0 = ground (arith, e) in
          let none_there : dropped k (suc seq) ≡ 0 = ground (arith, e) in
          let rest' : keep_records k (suc seq) (map bare cs) ≡ log_bytes (suc seq) cs =
            rest
            ∙ ap (λ n. log_bytes (suc seq + n) (drop n cs)) none_there
            ∙ ap (λ n. log_bytes n cs) (let z : suc seq + 0 ≡ suc seq = omega arith in z) in
          keep_records-keep k seq (bare c) (map bare cs) small e
          ∙ ap (λ b. b ++ keep_records k (suc seq) (map bare cs)) (record_bytes-bare seq c)
          ∙ ap (λ b. record_bytes seq c ++ b) rest'
          ∙ sym (
              ap (λ n. log_bytes (seq + n) (drop n (c ∷ cs))) none_here
              ∙ ap (λ n. log_bytes n (c ∷ cs)) (let z : seq + 0 ≡ seq = omega arith in z))
    ]
