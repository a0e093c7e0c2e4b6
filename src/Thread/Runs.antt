-- ===== src/Thread/Runs.antt =====
-- Runs of a live thread and of one that replays, against the machine.
use order_matching_machine.Prelude.{
  ◌≡◌, refl, ap, ◌∙◌, sym, Bool, true, false, not, ◌&&◌, Bool-cases, Option-cases, inl, inr, List,
  [], ◌∷◌, Option, none, some, arith, map,
}
use order_matching_machine.Wal.Command.{OrderCommand, is_loggable}
use order_matching_machine.Wal.Log.{Wal, WalReadResult, read_wal}
use order_matching_machine.Wal.Log
use order_matching_machine.Thread.State.{Exchange, Outbox, MatchingThread}
use order_matching_machine.Thread.Loop.{
  apply_logged, Io, log_and_apply, after_append, apply, replay,
}
use order_matching_machine.Thread.Machine.{machine}
use order_matching_machine.Thread.Acts.{Answers}
use order_matching_machine.Thread.Determined.{apply_logged-Answers}
use order_matching_machine.Thread.Durable.{
  loggable, log_all, run_machine, log_all-append, log_all-skip, loggable-cons, loggable-skip,
  by_kind-silent,
}
use order_matching_machine.Thread.Recovery.{run_machine-some, run_machine-none}

replay-some :
    (t u : MatchingThread) (c : OrderCommand) (io : Io) (cs : List (OrderCommand × Io))
    → apply t c io ≡ some u
    → replay t ((c, io) ∷ cs) ≡ replay u cs
unfolding replay
replay-some t u c io cs h = rw (replay, h) refl

replay-none :
    (t : MatchingThread) (c : OrderCommand) (io : Io) (cs : List (OrderCommand × Io))
    → apply t c io ≡ none
    → replay t ((c, io) ∷ cs) ≡ none
unfolding replay
replay-none t c io cs h = rw (replay, h) refl

-- A command that is applied as it stands: the machine answers as the thread does.
module _ (t : MatchingThread) (c : OrderCommand) where
  answered :
      (m : Option Exchange)
      → Answers t m (apply_logged t c)
      → (u : MatchingThread) → apply_logged t c ≡ some u
      → (y : Exchange) × (b : Outbox) × (m ≡ some y) × (u ≡ record t { exchange = y; outbox = b })
  answered none a u h = absurd (let n : apply_logged t c ≡ none = a in cc)
  answered (some y) (u', k, (b, act)) u h = (y, b, refl, let same : u ≡ u' = cc in same ∙ act)

  told :
      (m : Option Exchange) (y : Exchange)
      → Answers t m (apply_logged t c)
      → m ≡ some y
      → (b : Outbox) × (apply_logged t c ≡ some (record t { exchange = y; outbox = b }))
  told none y a h = cc
  told (some x) y (u, k, (b, act)) h =
      let same : x ≡ y = cc in
      (b, k ∙ ap some act ∙ ap (λ z. some (record t { exchange = z; outbox = b })) same)

apply-silent :
    (t : MatchingThread) (c : OrderCommand) (io : Io)
    → (not t.replaying && is_loggable c.command_type) ≡ false
    → apply t c io ≡ apply_logged t c
unfolding apply
apply-silent t c io h = ground (arith, h)

log_and_apply-true :
    (t : MatchingThread) (c : OrderCommand) (io : Io) (w : Wal) (answer : Bool × Wal)
    → answer.0 ≡ true
    → after_append t c answer ≡ apply_logged (record t { wal = some answer.1 }) c
log_and_apply-true t c io w (true, v) h = refl
log_and_apply-true t c io w (false, v) h = cc

apply-logs :
    (t : MatchingThread) (c : OrderCommand) (io : Io) (w : Wal)
    → t.replaying ≡ false
    → is_loggable c.command_type ≡ true
    → t.wal ≡ some w
    → (Log.append w c io.now_ns io.landed).0 ≡ true
    → apply t c io ≡ apply_logged (record t { wal = some (Log.append w c io.now_ns io.landed).1 }) c
unfolding apply
apply-logs t c io w p l h k =
    let both : (not t.replaying && is_loggable c.command_type) ≡ true = rw (p, l) refl in
    let to_log : apply t c io ≡ log_and_apply t c io t.wal = ground (arith, both) in
    to_log
    ∙ ap (log_and_apply t c io) h
    ∙ log_and_apply-true t c io w (Log.append w c io.now_ns io.landed) k

-- A command of a thread that is replaying, or one that is not logged, leaves the log.
first_answer :
    (t t' u : MatchingThread) (c : OrderCommand) (io : Io) (cs : List (OrderCommand × Io))
    → apply t c io ≡ apply_logged t' c
    → replay t ((c, io) ∷ cs) ≡ some u
    → (y : Exchange) × (b : Outbox) × (machine t'.risk t'.exchange c ≡ some y)
      × (replay (record t' { exchange = y; outbox = b }) cs ≡ some u)
first_answer t t' u c io cs h k = elim (Option-cases (apply_logged t' c)) [
  | inl e ↦ absurd (let n = replay-none t c io cs (h ∙ e) in cc)
  | inr (v, e) ↦
      let (y, b, m, same) =
        answered t' c (machine t'.risk t'.exchange c) (apply_logged-Answers t' c) v e in
      (y, b, m, ap (λ z. replay z cs) (sym same) ∙ sym (replay-some t v c io cs (h ∙ e)) ∙ k)
]

-- The live thread: its exchange is what the machine makes of the logged commands.
pub live-run :
    (t u : MatchingThread) (w v : Wal) (cs : List (OrderCommand × Io))
    → t.replaying ≡ false
    → t.wal ≡ some w
    → log_all w cs ≡ some v
    → replay t cs ≡ some u
    → (run_machine t.risk t.exchange (loggable cs) ≡ some u.exchange) × (u.wal ≡ some v)
unfolding run_machine loggable log_all replay
live-run t u w v [] p h l k =
    let same : t ≡ u = cc in
    (
      ap (λ (z : MatchingThread). some z.exchange) same,
      let end : w ≡ v = cc in ap (λ (z : MatchingThread). z.wal) (sym same) ∙ h ∙ ap some end,
    )
live-run t u w v ((c, io) ∷ cs) p h l k = elim (Bool-cases (is_loggable c.command_type)) [
  | inl e ↦
      let (ok, rest) = log_all-append w c io cs v e l in
      let w' = (Log.append w c io.now_ns io.landed).1 in
      let t' = record t { wal = some w' } in
      let (y, b, m, k') = first_answer t t' u c io cs (apply-logs t c io w p e h ok) k in
      let (ran, file) =
        live-run (record t' { exchange = y; outbox = b }) u w' v cs p refl rest k' in
      (
        ap (run_machine t.risk t.exchange) (loggable-cons c io cs e)
            ∙ run_machine-some t.risk t.exchange c y (loggable cs) m
            ∙ ran,
        file,
      )
  | inr e ↦
      let silent = apply-silent t c io (rw (p, e) refl) in
      let (y, b, m, k') = first_answer t t u c io cs silent k in
      let same : t.exchange ≡ y =
        let q = by_kind-silent t.risk t.exchange c c.command_type e in unfold machine in cc in
      let (ran, file) =
        live-run (record t { exchange = y; outbox = b }) u w v cs p h (log_all-skip w c io cs v e l)
          k' in
      (
        ap (run_machine t.risk t.exchange) (loggable-skip c io cs e)
            ∙ ap (λ z. run_machine t.risk z (loggable cs)) same
            ∙ ran,
        file,
      )
]

-- A thread that replays: its exchange is what the machine makes of the commands.
pub silent-run :
    (t : MatchingThread) (io : Io) (cs : List OrderCommand) (y : Exchange)
    → t.replaying ≡ true
    → run_machine t.risk t.exchange cs ≡ some y
    → (u : MatchingThread) × (replay t (map (λ c. (c, io)) cs) ≡ some u) × (u.exchange ≡ y)
unfolding run_machine replay
silent-run t io [] y p h = (t, refl, cc)
silent-run t io (c ∷ cs) y p h = elim (Option-cases (machine t.risk t.exchange c)) [
  | inl e ↦ absurd (let n = run_machine-none t.risk t.exchange c cs e in cc)
  | inr (z, e) ↦
      let (b, k) = told t c (machine t.risk t.exchange c) z (apply_logged-Answers t c) e in
      let silent = apply-silent t c io (rw p refl) in
      let next = record t { exchange = z; outbox = b } in
      let (u, ran, left) =
        silent-run next io cs y p (sym (run_machine-some t.risk t.exchange c z cs e) ∙ h) in
      (u, replay-some t next c io (map (λ d. (d, io)) cs) (silent ∙ k) ∙ ran, left)
]
