-- ===== src/Thread/Total.antt =====
-- Cancels and modifies get an answer, and keep the ledger.
use order_matching_machine.Prelude.{
  ℕ, ◌+◌, ◌<◌, ◌^◌, ◌≡◌, refl, ap, subst, ◌∙◌, sym, true, Bool-cases, inl, inr, some, arith, ◌==◌,
}
use order_matching_machine.Orders.{bid}
use order_matching_machine.Engine.{MatchingEngine, ApplyResult}
use order_matching_machine.Engine.Reasons.{unknown_order}
use order_matching_machine.Wal.Command.{OrderCommand}
use order_matching_machine.Gateway.Events.{ack, reject}
use order_matching_machine.Thread.State.{put, value_or, Exchange, MatchingThread}
use order_matching_machine.Thread.Routing.{
  find_order, forget_order, with_exchange, emit, publish_book,
}
use order_matching_machine.Thread.Apply.{
  with_engine, forgotten, answer_cancel, apply_cancel, replacement, answer_modify, apply_modify,
}
use order_matching_machine.Thread.Tracks.{Tracks}
use order_matching_machine.Thread.Fills.{emit-exchange}
use order_matching_machine.Thread.Ledger.{
  IsLedger, resting_of, publish_book-exchange, forget_order-SameEngine,
}
use order_matching_machine.Thread.Cancels.{
  CancelAnswer, process_order-CancelAnswer, forgotten-IsLedger,
}
use order_matching_machine.Thread.Gate.{Stands, unchanged, emitted, apply_new_order-Stands}

module _ (t : MatchingThread) (c : OrderCommand) (l : IsLedger t.exchange) where
  same_maps :
      (y : Exchange)
      → y.remaining_of ≡ t.exchange.remaining_of
      → y.owner_of ≡ t.exchange.owner_of
      → y.session_orders ≡ t.exchange.session_orders
      → Tracks y (resting_of t.exchange.engine.book)
  same_maps y r o s = record {
    remaining = λ k. ap (λ m. m k) r ∙ l.tracked.remaining k;
    owned = λ k. rw o (l.tracked.owned k);
    sets = λ u k. rw (o, s) (l.tracked.sets u k);
  }

  cancelled_ledger :
      (xoid : ℕ) (e : MatchingEngine) (r : ApplyResult)
      → CancelAnswer t.exchange xoid e r
      → IsLedger (forget_order (with_engine t.exchange e) xoid)
  cancelled_ledger xoid e r w =
      forgotten-IsLedger t.exchange l xoid (with_engine t.exchange e) e r w
        (same_maps (with_engine t.exchange e) refl refl refl) refl refl

  cancel_answers :
      (xoid : ℕ) (e : MatchingEngine) (r : ApplyResult)
      → CancelAnswer t.exchange xoid e r
      → Stands t.exchange.next_exchange_id (answer_cancel t c xoid (some (e, r)))
  unfolding answer_cancel
  cancel_answers xoid e r w =
      let u = with_exchange t (with_engine t.exchange e) in
      elim (Bool-cases r.accepted) [
        | inl h ↦
            let done =
              emit (forgotten u xoid) c.session (ack c.session c.client_order_id xoid true) in
            let same : (publish_book done).exchange ≡ forget_order (with_engine t.exchange e) xoid =
              publish_book-exchange done ∙ emit-exchange (forgotten u xoid) c.session _ in
            let counter = forget_order-SameEngine (with_engine t.exchange e) xoid in
            rw h (
              publish_book done,
              refl,
              subst IsLedger (sym same) (cancelled_ledger xoid e r w),
              let id = ap (λ (x : Exchange). x.next_exchange_id) same ∙ counter.1 in
                  omega (arith, id),
            )
        | inr h ↦
            let kept = (w.refused h).0 in
            rw h (
              unchanged t (emit u c.session (reject c.session c.client_order_id r.reason)) l
                (emit-exchange u c.session _ ∙ ap (with_engine t.exchange) kept))
      ]

  pub apply_cancel-Stands : Stands t.exchange.next_exchange_id (apply_cancel t c)
  unfolding apply_cancel
  apply_cancel-Stands =
      let xoid = find_order t.exchange c.session c.client_order_id in
      let (e, r, w) = process_order-CancelAnswer t.exchange l xoid in
      elim (Bool-cases (xoid == 0)) [
        | inl h ↦ rw h (emitted t c.session (reject c.session c.client_order_id unknown_order) l)
        | inr h ↦ rw (h, w.returned) (cancel_answers xoid e r w)
      ]

  module _ (word : c.quantity < 2 ^ 32) (next : t.exchange.next_exchange_id + 1 < 2 ^ 64) where
    modify_answers :
        (xoid : ℕ) (e : MatchingEngine) (r : ApplyResult)
        → CancelAnswer t.exchange xoid e r
        → Stands t.exchange.next_exchange_id (answer_modify t c xoid (some (e, r)))
    unfolding answer_modify
    modify_answers xoid e r w =
        let old_side = value_or bid (t.exchange.side_of xoid) in
        let y = record t.exchange { engine = e; side_of = put t.exchange.side_of xoid old_side } in
        let tracks = same_maps y refl refl refl in
        let counter = forget_order-SameEngine y xoid in
        let left = forgotten-IsLedger t.exchange l xoid y e r w tracks refl refl in
        elim (Bool-cases r.accepted) [
          | inl h ↦
              let (u, returned, ledger, id) =
                apply_new_order-Stands (forgotten (with_exchange t y) xoid) (replacement c old_side)
                  left word (omega (arith, counter.1, next)) in
              rw h (u, returned, ledger, let same = counter.1 in omega (arith, same, id))
          | inr h ↦
              let kept = (w.refused h).0 in
              let u =
                emit (with_exchange t y) c.session
                  (reject c.session c.client_order_id unknown_order) in
              let same : u.exchange ≡ y = emit-exchange (with_exchange t y) c.session _ in
              let back : IsLedger
                  (record t.exchange { side_of = put t.exchange.side_of xoid old_side }) =
                record {
                  valid = l.valid;
                  uncrossed = l.uncrossed;
                  log_clear = l.log_clear;
                  bids_positive = l.bids_positive;
                  asks_positive = l.asks_positive;
                  fresh = l.fresh;
                  tracked = same_maps _ refl refl refl;
                } in
              rw h (
                u,
                refl,
                subst IsLedger
                    (sym (
                      same
                      ∙ ap
                          (λ g. record t.exchange {
                            engine = g;
                            side_of = put t.exchange.side_of xoid old_side;
                          })
                          kept))
                    back,
                let id = ap (λ (x : Exchange). x.next_exchange_id) same in omega (arith, id),
              )
        ]

    pub apply_modify-Stands : Stands t.exchange.next_exchange_id (apply_modify t c)
    unfolding apply_modify
    apply_modify-Stands =
        let xoid = find_order t.exchange c.session c.client_order_id in
        let (e, r, w) = process_order-CancelAnswer t.exchange l xoid in
        elim (Bool-cases (xoid == 0)) [
          | inl h ↦ rw h (emitted t c.session (reject c.session c.client_order_id unknown_order) l)
          | inr h ↦ rw (h, w.returned) (modify_answers xoid e r w)
        ]
