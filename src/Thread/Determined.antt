-- ===== src/Thread/Determined.antt =====
-- Every handler against the machine.
use order_matching_machine.Prelude.{
  ℕ, refl, Bool, true, false, [], ◌∷◌, Option, none, some, length, ◌==◌, if◌then◌else◌,
}
use order_matching_machine.Orders.{bid, Order}
use order_matching_machine.Engine.{MatchingEngine, ApplyResult, process_order}
use order_matching_machine.Engine.Reasons.{
  RejectReason, accepted_none, unknown_order, invalid_price, invalid_qty, duplicate_order_id,
  risk_max_order_size, risk_price_band, malformed, rate_limited, not_subscribed,
  unknown_message_type, not_implemented,
}
use order_matching_machine.Gateway.Events.{ack, reject}
use order_matching_machine.Wal.Command.{
  CommandType, session_opened_command, new_order_command, cancel_command, modify_command,
  subscribe_command, cancel_all_command, OrderCommand,
}
use order_matching_machine.Thread.Risk.{check_risk}
use order_matching_machine.Thread.State.{put, value_or, Exchange, MatchingThread}
use order_matching_machine.Thread.Routing.{
  find_order, put_set, forget_order, with_exchange, emit, publish_book, cleared,
}
use order_matching_machine.Thread.Acts.{
  Acts, Answers, after, emit-Acts, publish_book-Acts, answer_new_order-Acts,
}
use order_matching_machine.Thread.Machine.{
  run_of, place_of, gate_of, new_order_of, cancel_answer_of, cancel_machine, modify_answer_of,
  modify_machine, finish_of, by_kind, machine,
}
use order_matching_machine.Thread.Apply.{
  book_order, record_order, with_engine, forgotten, run_new_order, place_order, gate,
  apply_new_order, cancel_of, answer_cancel, apply_cancel, replacement, answer_modify, apply_modify,
  cancel_ids, retire, finish_cancel_all, apply_cancel_all, open_session, depth_of, unsubscribe,
  apply_subscribe,
}
use order_matching_machine.Thread.Loop.{dispatch, apply_logged}

-- Either answer.
either :
    (t : MatchingThread) (b : Bool) (x y : Option Exchange) (o p : Option MatchingThread)
    → Answers t x o
    → Answers t y p
    → Answers t (if b then x else y) (if b then o else p)
either t true x y o p h k = h
either t false x y o p h k = k

run_new_order-Answers :
    (t : MatchingThread) (y : Exchange) (c : OrderCommand) (o : Order) (before : ℕ)
    → (m : Option (MatchingEngine × ApplyResult))
    → Answers t (run_of y o before m) (run_new_order (with_exchange t y) c o before m)
run_new_order-Answers t y c o before none = refl
run_new_order-Answers t y c o before (some (e, r)) =
    (_, refl, answer_new_order-Acts (with_exchange t (with_engine y e)) c o before r)

module _ (t : MatchingThread) (y : Exchange) (c : OrderCommand) where
  place_order-Answers : Answers t (place_of y c) (place_order (with_exchange t y) c)
  unfolding place_order
  place_order-Answers =
      let o = book_order y c in
      let z = record_order y c o in
      run_new_order-Answers t z c o (length z.engine.trade_log) (process_order z.engine o)

  refused_answer :
      (r : RejectReason)
      → Answers t
          (some y)
          (some (emit (with_exchange t y) c.session (reject c.session c.client_order_id r)))
  refused_answer r = (_, refl, emit-Acts (with_exchange t y) c.session _)

  gate-Answers : (r : RejectReason) → Answers t (gate_of y c r) (gate (with_exchange t y) c r)
  gate-Answers accepted_none = place_order-Answers
  gate-Answers unknown_order = refused_answer unknown_order
  gate-Answers invalid_price = refused_answer invalid_price
  gate-Answers invalid_qty = refused_answer invalid_qty
  gate-Answers duplicate_order_id = refused_answer duplicate_order_id
  gate-Answers risk_max_order_size = refused_answer risk_max_order_size
  gate-Answers risk_price_band = refused_answer risk_price_band
  gate-Answers malformed = refused_answer malformed
  gate-Answers rate_limited = refused_answer rate_limited
  gate-Answers not_subscribed = refused_answer not_subscribed
  gate-Answers unknown_message_type = refused_answer unknown_message_type
  gate-Answers not_implemented = refused_answer not_implemented

  apply_new_order-Answers :
      Answers t (new_order_of t.risk y c) (apply_new_order (with_exchange t y) c)
  unfolding apply_new_order
  apply_new_order-Answers = gate-Answers (check_risk t.risk y.last_trade_ticks y.engine.book c)

module _ (t : MatchingThread) (c : OrderCommand) (xoid : ℕ) where
  answer_cancel-Answers :
      (m : Option (MatchingEngine × ApplyResult))
      → Answers t (cancel_answer_of t.exchange xoid m) (answer_cancel t c xoid m)
  unfolding answer_cancel
  answer_cancel-Answers none = refl
  answer_cancel-Answers (some (e, r)) = by_answer r.accepted
    where
      u : MatchingThread
      u = with_exchange t (with_engine t.exchange e)

      done : MatchingThread
      done = emit (forgotten u xoid) c.session (ack c.session c.client_order_id xoid true)

      told : MatchingThread
      told = emit u c.session (reject c.session c.client_order_id r.reason)

      by_answer :
          (b : Bool)
          → Answers t
              (some (
                if b
                then forget_order (with_engine t.exchange e) xoid
                else with_engine t.exchange e))
              (some (if b then publish_book done else told))
      by_answer true = (
        _,
        refl,
        after t done (forget_order u.exchange xoid) (λ x. x) publish_book
            (emit-Acts (forgotten u xoid) c.session _) publish_book-Acts,
      )
      by_answer false = (_, refl, emit-Acts u c.session _)

  answer_modify-Answers :
      (m : Option (MatchingEngine × ApplyResult))
      → Answers t (modify_answer_of t.risk t.exchange c xoid m) (answer_modify t c xoid m)
  unfolding answer_modify
  answer_modify-Answers none = refl
  answer_modify-Answers (some (e, r)) =
      let old_side = value_or bid (t.exchange.side_of xoid) in
      let y = record t.exchange { engine = e; side_of = put t.exchange.side_of xoid old_side } in
      either t r.accepted _ _ _ _
        (apply_new_order-Answers t (forget_order y xoid) (replacement c old_side))
        (refused_answer t y c unknown_order)

module _ (t : MatchingThread) (c : OrderCommand) where
  apply_cancel-Answers : Answers t (cancel_machine t.exchange c) (apply_cancel t c)
  unfolding apply_cancel
  apply_cancel-Answers =
      let xoid = find_order t.exchange c.session c.client_order_id in
      either t (xoid == 0) _ _ _ _ (refused_answer t t.exchange c unknown_order)
        (answer_cancel-Answers t c xoid (process_order t.exchange.engine (cancel_of xoid)))

  apply_modify-Answers : Answers t (modify_machine t.risk t.exchange c) (apply_modify t c)
  unfolding apply_modify
  apply_modify-Answers =
      let xoid = find_order t.exchange c.session c.client_order_id in
      either t (xoid == 0) _ _ _ _ (refused_answer t t.exchange c unknown_order)
        (answer_modify-Answers t c xoid (process_order t.exchange.engine (cancel_of xoid)))

  finish_cancel_all-Answers :
      (m : Option Exchange) → Answers t (finish_of c.session m) (finish_cancel_all t c.session m)
  finish_cancel_all-Answers none = refl
  finish_cancel_all-Answers (some x) = (
    _,
    refl,
    publish_book-Acts (record t {
      exchange = record (cleared x) { session_orders = put_set x.session_orders c.session [] };
      outbox = retire t.outbox c.session;
    }),
  )

  apply_subscribe-Acts : Acts t t.exchange (apply_subscribe t c)
  unfolding apply_subscribe
  apply_subscribe-Acts =
      let subs = (c.session, depth_of c.quantity) ∷ unsubscribe c.session t.outbox.subscribers in
      let u = record t { outbox = record t.outbox { subscribers = subs } } in
      after t _ t.exchange (λ x. x) publish_book (emit-Acts u c.session (ack c.session 0 0 false))
        publish_book-Acts

  dispatch-Answers : (k : CommandType) → Answers t (by_kind t.risk t.exchange c k) (dispatch t c k)
  unfolding apply_cancel_all
  dispatch-Answers session_opened_command = (_, refl, (open_session t.outbox c, refl))
  dispatch-Answers subscribe_command = (_, refl, apply_subscribe-Acts)
  dispatch-Answers new_order_command = apply_new_order-Answers t t.exchange c
  dispatch-Answers cancel_command = apply_cancel-Answers
  dispatch-Answers modify_command = apply_modify-Answers
  dispatch-Answers cancel_all_command =
      finish_cancel_all-Answers (cancel_ids t.exchange (t.exchange.session_orders c.session))

-- Every handler, in every state: what it does to the exchange is what `machine` does, which sees neither
-- the sessions, the queues, the log nor whether the thread replays; nothing else of the thread changes
-- but the outbox; and the one has no answer where the other has none.
pub apply_logged-Answers :
    (t : MatchingThread) (c : OrderCommand)
    → Answers t (machine t.risk t.exchange c) (apply_logged t c)
unfolding machine
apply_logged-Answers t c = dispatch-Answers t c c.command_type
