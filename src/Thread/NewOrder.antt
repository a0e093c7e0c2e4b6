-- ===== src/Thread/NewOrder.antt =====
-- A new order that passed the risk checks keeps the ledger.
use order_matching_machine.Prelude.{
  ℕ, ◌+◌, ◌-◌, ◌≤◌, ◌<◌, ◌^◌, ◌≡◌, refl, ap, subst, ◌∙◌, sym, false, Bool-cases, inl, inr, List,
  ◌++◌, some, arith, All, length, ◌==◌, if◌then◌else◌,
}
use order_matching_machine.Prelude.Words.{add64}
use order_matching_machine.Orders.{market, limit, Order, Trade}
use order_matching_machine.Book.Market.Loop.{prints}
use order_matching_machine.Book.Market.Sweep.{
  any, sweep_fills, sweep_left, sweep_fills-add-left, taken,
}
use order_matching_machine.Engine.{MatchingEngine, ApplyResult, clear_trade_log, process_order}
use order_matching_machine.Engine.CrossLoop.{cross_prints}
use order_matching_machine.Engine.CrossStep.{own, opp, crosses}
use order_matching_machine.Engine.Limit.{process_order-LimitDone}
use order_matching_machine.Engine.Others.{process_order-MarketDone}
use order_matching_machine.Gateway.Events.{ack}
use order_matching_machine.Wire.Messages.{WireOrderType, market_type, limit_type}
use order_matching_machine.Wal.Command.{OrderCommand}
use order_matching_machine.Thread.State.{Exchange, MatchingThread}
use order_matching_machine.Thread.Routing.{forget_order, emit, publish_trades, with_exchange}
use order_matching_machine.Thread.Apply.{
  book_order, record_order, with_engine, answer_new_order, place_order,
}
use order_matching_machine.Thread.Amount.{
  amount, amount_at, IsPositive, fills_amount, amount-sweep, sweep_rest-IsPositive, traded,
  traded-cross_prints, traded-prints, amount-rested, rested-IsPositive,
}
use order_matching_machine.Thread.Tracks.{Tracks, without, forget-Tracks}
use order_matching_machine.Thread.Fills.{emit-exchange, record_order-Tracks}
use order_matching_machine.Thread.Ledger.{
  IsLedger, resting_of, resting_of-own, IsPositive-own, unknown_of, forget_order-SameEngine,
  publish_trades-Tracks,
}
use order_matching_machine.Thread.Settled.{settled, answer-limit, answer-market}

module _ (t : MatchingThread) (c : OrderCommand) (l : IsLedger t.exchange) (p : 0 < c.quantity)
    (word : c.quantity < 2 ^ 32) (next : t.exchange.next_exchange_id + 1 < 2 ^ 64) where
  abbrev incoming : Order
  incoming = book_order t.exchange c

  abbrev recorded : Exchange
  recorded = record_order t.exchange c incoming

  abbrev before : List Trade
  before = t.exchange.engine.trade_log

  nothing_yet : resting_of t.exchange.engine.book incoming.id ≡ 0
  nothing_yet = l.fresh incoming.id (omega arith)

  abbrev account : ℕ → ℕ
  account k = if k == incoming.id then c.quantity else resting_of t.exchange.engine.book k

  tracked_new : (e : MatchingEngine) → Tracks (with_engine recorded e) account
  tracked_new e =
      let w =
        record_order-Tracks t.exchange (resting_of t.exchange.engine.book) c incoming p nothing_yet
          l.tracked in
      record { remaining = w.remaining; owned = w.owned; sets = w.sets }

  abbrev running : MatchingEngine → MatchingThread
  running e = with_exchange t (with_engine recorded e)

  place_order-returns :
      (e : MatchingEngine) (r : ApplyResult)
      → process_order t.exchange.engine incoming ≡ some (e, r)
      → place_order t c ≡ some (answer_new_order (running e) c incoming (length before) r)
  unfolding place_order record_order
  place_order-returns e r h = rw h refl

  abbrev acked : MatchingEngine → MatchingThread
  acked e = emit (running e) c.session (ack c.session c.client_order_id incoming.id false)

  -- The exchange once the trades of the order are routed.
  abbrev routed : MatchingEngine → Exchange
  routed e = (publish_trades (acked e) (length before)).exchange

  routed_is :
      (e : MatchingEngine) (ds : List Trade)
      → e.trade_log ≡ before ++ ds
      → Tracks (routed e) (λ k. account k - traded k ds)
        × ((routed e).engine ≡ clear_trade_log e)
        × ((routed e).next_exchange_id ≡ t.exchange.next_exchange_id + 1)
  unfolding record_order
  routed_is e ds h =
      let same =
        emit-exchange (running e) c.session (ack c.session c.client_order_id incoming.id false) in
      let counted : add64 t.exchange.next_exchange_id 1 ≡ t.exchange.next_exchange_id + 1 =
        omega arith in
      let (w, engine, id) =
        publish_trades-Tracks (acked e) account before ds
          (ap (λ (x : Exchange). x.engine.trade_log) same ∙ h)
          (subst (λ x. Tracks x account) (sym same) (tracked_new e)) in
      (
        w,
        engine ∙ ap (λ (x : Exchange). clear_trade_log x.engine) same,
        id ∙ ap (λ (x : Exchange). x.next_exchange_id) same ∙ counted,
      )

  -- An id from the counter on is the order's or rests nowhere.
  later_ids : (k : ℕ) → t.exchange.next_exchange_id + 1 ≤ k → account k ≡ 0
  later_ids k m = let none_yet = l.fresh k (omega (arith, m)) in ground (arith, none_yet, m)

  module _ (fs : List (Order × ℕ)) (left : ℕ) (split : taken fs + left ≡ c.quantity) (k : ℕ)
      (own_before own_after opp_before opp_after : List Order)
      (before_is : amount k own_before + amount k opp_before ≡ resting_of t.exchange.engine.book k)
      (swept : fills_amount k fs + amount k opp_after ≡ amount k opp_before) where
    account-limit :
        amount k own_after ≡ amount_at k incoming left + amount k own_before
        → account k - traded k (cross_prints incoming.side incoming fs)
          ≡ amount k own_after + amount k opp_after
    account-limit own_is =
        let prints_are = traded-cross_prints k incoming.side incoming fs in
        let empty = nothing_yet in
        elim (Bool-cases (k == incoming.id)) [
          | inl e ↦ let same : k ≡ incoming.id = ground arith in ground (arith, same)
          | inr e ↦ ground arith
        ]

    account-market :
        amount k own_after ≡ amount k own_before
        → (without
            (λ i. account i - traded i (prints incoming.side incoming.id incoming.timestamp fs))
            incoming.id
            k)
          ≡ amount k own_after + amount k opp_after
    account-market own_is =
        let prints_are = traded-prints k incoming.side incoming.id incoming.timestamp fs in
        let empty = nothing_yet in
        elim (Bool-cases (k == incoming.id)) [
          | inl e ↦ let same : k ≡ incoming.id = ground arith in ground (arith, same)
          | inr e ↦ ground arith
        ]

  limit-Ledger :
      incoming.order_type ≡ limit
      → (u : MatchingThread) × (place_order t c ≡ some u)
        × IsLedger u.exchange
        × (u.exchange.next_exchange_id ≡ t.exchange.next_exchange_id + 1)
  limit-Ledger h =
      let (e, r, w) =
        process_order-LimitDone t.exchange.engine incoming l.valid l.uncrossed h p word
          (unknown_of t.exchange incoming.id l nothing_yet) in
      let s = incoming.side in
      let old = t.exchange.engine.book in
      let ok = crosses s incoming in
      let fills = sweep_fills ok c.quantity (opp s old) in
      let (tracks, engine, id) = routed_is e (cross_prints s incoming fills) w.printed in
      let positive = IsPositive-own s t.exchange l in
      let account_is : (k : ℕ)
          → account k - traded k (cross_prints s incoming fills) ≡ resting_of e.book k =
        λ k.
          account-limit fills (sweep_left ok c.quantity (opp s old))
            (sweep_fills-add-left ok c.quantity (opp s old)) k (own s old) (own s e.book)
            (opp s old) (opp s e.book) (resting_of-own s old k)
            (ap (λ os. fills_amount k fills + amount k os) w.opp_left
              ∙ amount-sweep ok k c.quantity (opp s old))
            (ap (amount k) w.own_left ∙ amount-rested k s incoming _ (own s old))
          ∙ resting_of-own s e.book k in
      let answer = answer-limit (running e) c incoming (length before) r h w.accepted.0 in
      (
        _,
        place_order-returns e r w.returned,
        subst IsLedger (sym answer) (
            settled (routed e) e s engine w.valid w.uncrossed
              (subst (All IsPositive) (sym w.own_left)
                (rested-IsPositive s incoming _ _ positive.0))
              (subst (All IsPositive) (sym w.opp_left)
                (sweep_rest-IsPositive ok c.quantity _ positive.1))
              tracks account_is
              (λ k m.
                let none_yet = later_ids k (omega (arith, m, id)) in
                sym (account_is k) ∙ omega (arith, none_yet))),
        ap (λ (x : Exchange). x.next_exchange_id) answer ∙ id,
      )

  market-Ledger :
      incoming.order_type ≡ market
      → (u : MatchingThread) × (place_order t c ≡ some u)
        × IsLedger u.exchange
        × (u.exchange.next_exchange_id ≡ t.exchange.next_exchange_id + 1)
  market-Ledger h =
      let (e, r, w) =
        process_order-MarketDone t.exchange.engine incoming h word l.valid l.uncrossed in
      let s = incoming.side in
      let old = t.exchange.engine.book in
      let fills = sweep_fills any c.quantity (opp s old) in
      let printed = prints s incoming.id incoming.timestamp fills in
      let (tracks, engine, id) = routed_is e printed w.printed in
      let dropped = forget_order-SameEngine (routed e) incoming.id in
      let positive = IsPositive-own s t.exchange l in
      let account_is : (k : ℕ)
          → without (λ i. account i - traded i printed) incoming.id k ≡ resting_of e.book k =
        λ k.
          account-market fills (sweep_left any c.quantity (opp s old))
            (sweep_fills-add-left any c.quantity (opp s old)) k (own s old) (own s e.book)
            (opp s old) (opp s e.book) (resting_of-own s old k)
            (ap (λ os. fills_amount k fills + amount k os) w.opp_left
              ∙ amount-sweep any k c.quantity (opp s old))
            (ap (amount k) w.own_left)
          ∙ resting_of-own s e.book k in
      let answer = answer-market (running e) c incoming (length before) r h w.accepted.0 in
      (
        _,
        place_order-returns e r w.returned,
        subst IsLedger (sym answer) (
            settled (forget_order (routed e) incoming.id) e s (dropped.0 ∙ engine) w.valid
              w.uncrossed (subst (All IsPositive) (sym w.own_left) positive.0)
              (subst (All IsPositive) (sym w.opp_left)
                (sweep_rest-IsPositive any c.quantity _ positive.1))
              (forget-Tracks (routed e) _ incoming.id tracks) account_is
              (λ k m.
                let none_yet = later_ids k (omega (arith, m, id, dropped.1)) in
                sym (account_is k) ∙ ground (arith, none_yet))),
        ap (λ (x : Exchange). x.next_exchange_id) answer ∙ dropped.1 ∙ id,
      )

  -- A new order that passed the risk checks, of either type.
  pub place_order-Ledger :
      (u : MatchingThread) × (place_order t c ≡ some u)
      × IsLedger u.exchange
      × (u.exchange.next_exchange_id ≡ t.exchange.next_exchange_id + 1)
  place_order-Ledger = by_type c.order_type refl
    where
      by_type :
          (k : WireOrderType)
          → c.order_type ≡ k
          → (u : MatchingThread) × (place_order t c ≡ some u)
            × IsLedger u.exchange
            × (u.exchange.next_exchange_id ≡ t.exchange.next_exchange_id + 1)
      by_type market_type e = market-Ledger (rw e refl)
      by_type limit_type e = limit-Ledger (rw e refl)
