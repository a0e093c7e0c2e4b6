-- ===== src/Thread/Live.antt =====
-- `apply` and `recover` as wholes.
use order_matching_machine.Prelude.{
  ◌+◌, ◌≤◌, ◌<◌, ◌^◌, ◌≡◌, refl, ap, subst, ◌∙◌, sym, Bool, true, false, not, ◌&&◌, Bool-cases, inl,
  inr, List, [], ◌∷◌, Option, none, some, arith, All, length,
}
use order_matching_machine.Wal.Command.{
  CommandType, session_opened_command, new_order_command, cancel_command, modify_command,
  subscribe_command, cancel_all_command, OrderCommand, is_loggable,
}
use order_matching_machine.Wal.Log.{Wal}
use order_matching_machine.Wal.Log
use order_matching_machine.Thread.State.{Exchange, MatchingThread}
use order_matching_machine.Thread.Fills.{emit-exchange}
use order_matching_machine.Thread.Apply.{open_session, apply_subscribe}
use order_matching_machine.Thread.Loop.{
  dispatch, apply_logged, Io, log_and_apply, after_append, apply, replay,
}
use order_matching_machine.Thread.Ledger.{IsLedger, publish_book-exchange}
use order_matching_machine.Thread.Gate.{Stands, apply_new_order-Stands}
use order_matching_machine.Thread.Total.{apply_cancel-Stands, apply_modify-Stands}
use order_matching_machine.Thread.Retire.{apply_cancel_all-Retired}

apply_subscribe-exchange :
    (t : MatchingThread) (c : OrderCommand) → (apply_subscribe t c).exchange ≡ t.exchange
unfolding apply_subscribe
apply_subscribe-exchange t c = publish_book-exchange _ ∙ emit-exchange _ c.session _

module _ (t : MatchingThread) (c : OrderCommand) (l : IsLedger t.exchange)
    (word : c.quantity < 2 ^ 32) (next : t.exchange.next_exchange_id + 1 < 2 ^ 64) where
  kept :
      (u : MatchingThread) → u.exchange ≡ t.exchange → Stands t.exchange.next_exchange_id (some u)
  kept u h = (
    u,
    refl,
    subst IsLedger (sym h) l,
    let same = ap (λ (x : Exchange). x.next_exchange_id) h in omega (arith, same),
  )

  by_type : (k : CommandType) → Stands t.exchange.next_exchange_id (dispatch t c k)
  by_type session_opened_command = (kept (record t { outbox = open_session t.outbox c }) refl)
  by_type subscribe_command = (kept (apply_subscribe t c) (apply_subscribe-exchange t c))
  by_type new_order_command = (apply_new_order-Stands t c l word next)
  by_type cancel_command = (apply_cancel-Stands t c l)
  by_type modify_command = (apply_modify-Stands t c l word next)
  by_type cancel_all_command =
      let (u, returned, w) = apply_cancel_all-Retired t c l in
      let counter = w.counter in (u, returned, w.ledger, omega (arith, counter))

  pub apply_logged-Stands : Stands t.exchange.next_exchange_id (apply_logged t c)
  apply_logged-Stands = by_type c.command_type

after_append-Stands :
    (t : MatchingThread) (c : OrderCommand) (answer : Bool × Wal)
    → IsLedger t.exchange
    → c.quantity < 2 ^ 32
    → t.exchange.next_exchange_id + 1 < 2 ^ 64
    → Stands t.exchange.next_exchange_id (after_append t c answer)
after_append-Stands t c (true, w) l word next =
    apply_logged-Stands (record t { wal = some w }) c l word next
after_append-Stands t c (false, w) l word next = kept t c l word next _ refl

log_and_apply-Stands :
    (t : MatchingThread) (c : OrderCommand) (io : Io) (w : Option Wal)
    → IsLedger t.exchange
    → c.quantity < 2 ^ 32
    → t.exchange.next_exchange_id + 1 < 2 ^ 64
    → Stands t.exchange.next_exchange_id (log_and_apply t c io w)
log_and_apply-Stands t c io none l word next = apply_logged-Stands t c l word next
log_and_apply-Stands t c io (some w) l word next =
    after_append-Stands t c (Log.append w c io.now_ns io.landed) l word next

-- Any command, on any state that is a ledger, whatever the write to the log does: with a 32-bit
-- quantity and a counter of ids that does not wrap, `apply` returns; the book and the maps of the
-- orders agree again, the book is valid and not crossed, and at most one id was given out.
pub apply-IsLedger :
    (t : MatchingThread) (c : OrderCommand) (io : Io)
    → IsLedger t.exchange
    → c.quantity < 2 ^ 32
    → t.exchange.next_exchange_id + 1 < 2 ^ 64
    → (u : MatchingThread) × (apply t c io ≡ some u)
      × IsLedger u.exchange
      × (u.exchange.next_exchange_id ≤ t.exchange.next_exchange_id + 1)
unfolding apply
apply-IsLedger t c io l word next =
    elim (Bool-cases (not t.replaying && is_loggable c.command_type)) [
      | inl e ↦ rw e (log_and_apply-Stands t c io t.wal l word next)
      | inr e ↦ rw e (apply_logged-Stands t c l word next)
    ]

-- The commands of a queue or of a log, applied one after the other.
pub replay-IsLedger :
    (t : MatchingThread) (cs : List (OrderCommand × Io))
    → IsLedger t.exchange
    → All (λ p. p.0.quantity < 2 ^ 32) cs
    → t.exchange.next_exchange_id + length cs < 2 ^ 64
    → (u : MatchingThread) × (replay t cs ≡ some u) × IsLedger u.exchange
unfolding replay
replay-IsLedger t [] l words next = (t, refl, l)
replay-IsLedger t ((c, io) ∷ cs) l words next =
    let (u, returned, ledger, id) = apply-IsLedger t c io l words.0 (omega (arith, next)) in
    let (v, ran, ledger_after) = replay-IsLedger u cs ledger words.1 (omega (arith, next, id)) in
    (v, rw (replay, returned) ran, ledger_after)
