-- ===== src/Thread/Recovery.antt =====
-- The machine on commands without their pointers, and on one command after the other.
use order_matching_machine.Prelude.{
  ℕ, ◌≡◌, refl, ap, ◌∙◌, sym, Option-cases, inl, inr, List, [], ◌∷◌, Option, none, some, map, ◌==◌,
  if◌then◌else◌,
}
use order_matching_machine.Orders.{bid}
use order_matching_machine.Engine.{MatchingEngine, process_order}
use order_matching_machine.Engine.{ApplyResult}
use order_matching_machine.Engine.Reasons.{
  RejectReason, accepted_none, unknown_order, invalid_price, invalid_qty, duplicate_order_id,
  risk_max_order_size, risk_price_band, malformed, rate_limited, not_subscribed,
  unknown_message_type, not_implemented,
}
use order_matching_machine.Wal.Command.{
  CommandType, session_opened_command, new_order_command, cancel_command, modify_command,
  subscribe_command, cancel_all_command, OrderCommand, bare,
}
use order_matching_machine.Thread.Risk.{RiskConfig, check_risk}
use order_matching_machine.Thread.State.{put, value_or, Exchange}
use order_matching_machine.Thread.Routing.{find_order, forget_order}
use order_matching_machine.Thread.Apply.{record_order, replacement, cancel_of}
use order_matching_machine.Thread.Machine.{
  gate_of, new_order_of, modify_answer_of, by_kind, machine,
}
use order_matching_machine.Thread.Durable.{run_machine}

-- The pointers of a command do not matter to the exchange.
module _ (risk : RiskConfig) (x : Exchange) (c : OrderCommand) where
  gate_of-bare : (r : RejectReason) → gate_of x (bare c) r ≡ gate_of x c r
  unfolding record_order
  gate_of-bare accepted_none = refl
  gate_of-bare unknown_order = refl
  gate_of-bare invalid_price = refl
  gate_of-bare invalid_qty = refl
  gate_of-bare duplicate_order_id = refl
  gate_of-bare risk_max_order_size = refl
  gate_of-bare risk_price_band = refl
  gate_of-bare malformed = refl
  gate_of-bare rate_limited = refl
  gate_of-bare not_subscribed = refl
  gate_of-bare unknown_message_type = refl
  gate_of-bare not_implemented = refl

  new_order_of-bare : new_order_of risk x (bare c) ≡ new_order_of risk x c
  unfolding check_risk
  new_order_of-bare = gate_of-bare (check_risk risk x.last_trade_ticks x.engine.book c)

module _ (risk : RiskConfig) (x : Exchange) (c : OrderCommand) where
  modify_answer_of-bare :
      (old_id : ℕ) (m : Option (MatchingEngine × ApplyResult))
      → modify_answer_of risk x (bare c) old_id m ≡ modify_answer_of risk x c old_id m
  modify_answer_of-bare old_id none = refl
  modify_answer_of-bare old_id (some (e, r)) =
      let old_side = value_or bid (x.side_of old_id) in
      let y = record x { engine = e; side_of = put x.side_of old_id old_side } in
      ap (λ a. if r.accepted then a else some y)
        (new_order_of-bare risk (forget_order y old_id) (replacement c old_side))

  by_kind-bare : (k : CommandType) → by_kind risk x (bare c) k ≡ by_kind risk x c k
  by_kind-bare session_opened_command = refl
  by_kind-bare subscribe_command = refl
  by_kind-bare new_order_command = new_order_of-bare risk x c
  by_kind-bare cancel_command = refl
  by_kind-bare modify_command =
      let old_id = find_order x c.session c.client_order_id in
      ap (λ a. if old_id == 0 then some x else a)
        (modify_answer_of-bare old_id (process_order x.engine (cancel_of old_id)))
  by_kind-bare cancel_all_command = refl

  machine-bare : machine risk x (bare c) ≡ machine risk x c
  unfolding machine
  machine-bare = by_kind-bare c.command_type

  pub run_machine-some :
      (y : Exchange) (cs : List OrderCommand)
      → machine risk x c ≡ some y
      → run_machine risk x (c ∷ cs) ≡ run_machine risk y cs
  unfolding run_machine
  run_machine-some y cs h = rw (run_machine, h) refl

  pub run_machine-none :
      (cs : List OrderCommand) → machine risk x c ≡ none → run_machine risk x (c ∷ cs) ≡ none
  unfolding run_machine
  run_machine-none cs h = rw (run_machine, h) refl

pub run_machine-bare :
    (risk : RiskConfig) (x : Exchange) (cs : List OrderCommand)
    → run_machine risk x (map bare cs) ≡ run_machine risk x cs
run_machine-bare risk x [] = refl
run_machine-bare risk x (c ∷ cs) = elim (Option-cases (machine risk x c)) [
  | inl e ↦
      run_machine-none risk x (bare c) (map bare cs) (machine-bare risk x c ∙ e)
      ∙ sym (run_machine-none risk x c cs e)
  | inr (y, e) ↦
      run_machine-some risk x (bare c) y (map bare cs) (machine-bare risk x c ∙ e)
      ∙ run_machine-bare risk y cs
      ∙ sym (run_machine-some risk x c y cs e)
]
