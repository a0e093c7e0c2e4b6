-- ===== src/Thread/Durable.antt =====
-- From the live thread through its log to the recovered one.
use order_matching_machine.Prelude.{
  ◌≡◌, refl, ap, subst, ◌∙◌, sym, true, false, Bool-cases, inl, inr, List, [], ◌∷◌, ◌++◌, Option,
  none, some, arith, append_assoc, append-nil, if◌then◌else◌,
}
use order_matching_machine.Wal.Command.{
  CommandType, session_opened_command, new_order_command, cancel_command, modify_command,
  subscribe_command, cancel_all_command, OrderCommand, is_loggable,
}
use order_matching_machine.Wal.Log.{Wal, WalReadResult, read_wal}
use order_matching_machine.Wal.Log
use order_matching_machine.Wal.Recovery.{Logged, one_more}
use order_matching_machine.Thread.Risk.{RiskConfig}
use order_matching_machine.Thread.State.{Exchange}
use order_matching_machine.Thread.Loop.{Io}
use order_matching_machine.Thread.Machine.{by_kind, machine}

-- The commands that the log takes, in order.
unfoldable pub loggable : List (OrderCommand × Io) → List OrderCommand
loggable [] = []
loggable ((c, io) ∷ cs) =
    let rest = loggable cs in if is_loggable c.command_type then c ∷ rest else rest

-- The log after the commands; `none` where an append fails.
unfoldable pub log_all : Wal → List (OrderCommand × Io) → Option Wal
log_all w [] = some w
log_all w ((c, io) ∷ cs) = elim (is_loggable c.command_type) [
  | true ↦ elim (Log.append w c io.now_ns io.landed).0 [
    | true ↦ log_all (Log.append w c io.now_ns io.landed).1 cs
    | false ↦ none
  ]
  | false ↦ log_all w cs
]

unfoldable pub run_machine : RiskConfig → Exchange → List OrderCommand → Option Exchange
run_machine risk x [] = some x
run_machine risk x (c ∷ cs) = elim (machine risk x c) [
  | none ↦ none
  | some y ↦ run_machine risk y cs
]

pub log_all-append :
    (w : Wal) (c : OrderCommand) (io : Io) (cs : List (OrderCommand × Io)) (v : Wal)
    → is_loggable c.command_type ≡ true
    → log_all w ((c, io) ∷ cs) ≡ some v
    → ((Log.append w c io.now_ns io.landed).0 ≡ true)
      × (log_all (Log.append w c io.now_ns io.landed).1 cs ≡ some v)
unfolding log_all
log_all-append w c io cs v h k = (ground (arith, k), ground (arith, k))

pub log_all-skip :
    (w : Wal) (c : OrderCommand) (io : Io) (cs : List (OrderCommand × Io)) (v : Wal)
    → is_loggable c.command_type ≡ false
    → log_all w ((c, io) ∷ cs) ≡ some v
    → log_all w cs ≡ some v
unfolding log_all
log_all-skip w c io cs v h k = ground (arith, k)

pub loggable-cons :
    (c : OrderCommand) (io : Io) (cs : List (OrderCommand × Io))
    → is_loggable c.command_type ≡ true
    → loggable ((c, io) ∷ cs) ≡ c ∷ loggable cs
unfolding loggable
loggable-cons c io cs h = ground (arith, h)

pub loggable-skip :
    (c : OrderCommand) (io : Io) (cs : List (OrderCommand × Io))
    → is_loggable c.command_type ≡ false
    → loggable ((c, io) ∷ cs) ≡ loggable cs
unfolding loggable
loggable-skip c io cs h = ground (arith, h)

-- The log takes one command after the other.
pub log_all-Logged :
    (w₀ w v : Wal) (before : List OrderCommand) (cs : List (OrderCommand × Io))
    → Logged w₀ before w
    → log_all w cs ≡ some v
    → Logged w₀ (before ++ loggable cs) v
unfolding log_all loggable
log_all-Logged w₀ w v before [] l h =
    let same : w ≡ v = cc in
    subst (λ x. Logged w₀ (before ++ []) x) same
      (subst (λ b. Logged w₀ b w) (sym (append-nil before)) l)
log_all-Logged w₀ w v before ((c, io) ∷ cs) l h = elim (Bool-cases (is_loggable c.command_type)) [
  | inl e ↦
      let (ok, rest) = log_all-append w c io cs v e h in
      let more =
        log_all-Logged w₀ (Log.append w c io.now_ns io.landed).1 v (before ++ c ∷ []) cs
          (one_more l c io.now_ns io.landed ok) rest in
      subst (λ b. Logged w₀ b v)
        (append_assoc before (c ∷ []) (loggable cs)
          ∙ ap (λ b. before ++ b) (sym (loggable-cons c io cs e)))
        more
  | inr e ↦
      subst (λ b. Logged w₀ (before ++ b) v) (sym (loggable-skip c io cs e))
        (log_all-Logged w₀ w v before cs l (log_all-skip w c io cs v e h))
]

pub by_kind-silent :
    (risk : RiskConfig) (x : Exchange) (c : OrderCommand) (k : CommandType)
    → is_loggable k ≡ false
    → by_kind risk x c k ≡ some x
unfolding is_loggable
by_kind-silent risk x c session_opened_command h = refl
by_kind-silent risk x c subscribe_command h = refl
by_kind-silent risk x c new_order_command h = cc
by_kind-silent risk x c cancel_command h = cc
by_kind-silent risk x c modify_command h = cc
by_kind-silent risk x c cancel_all_command h = cc
