-- ===== src/Thread/Settled.antt =====
-- The end of a command: when the state is a ledger again, and what follows on an order's acceptance.
use order_matching_machine.Prelude.{ℕ, ◌≤◌, ◌≡◌, ap, subst, ◌∙◌, sym, true, false, All}
use order_matching_machine.Orders.{Side, market, limit, Order}
use order_matching_machine.Book.{is_crossed}
use order_matching_machine.Book.Flat.{side_orders}
use order_matching_machine.Book.Valid.{IsValid}
use order_matching_machine.Engine.{MatchingEngine, ApplyResult, clear_trade_log}
use order_matching_machine.Engine.CrossStep.{own, opp}
use order_matching_machine.Gateway.Events.{ack}
use order_matching_machine.Wal.Command.{OrderCommand}
use order_matching_machine.Thread.State.{Exchange, MatchingThread}
use order_matching_machine.Thread.Routing.{forget_order, emit, publish_trades}
use order_matching_machine.Thread.Apply.{answer_new_order}
use order_matching_machine.Thread.Amount.{IsPositive}
use order_matching_machine.Thread.Tracks.{Tracks}
use order_matching_machine.Thread.Fills.{Tracks-same}
use order_matching_machine.Thread.Ledger.{
  IsLedger, resting_of, IsPositive-sides, publish_book-exchange,
}

-- What the maps, the engine's book and the account have to be for a ledger.
pub settled :
    {a : ℕ → ℕ} (y : Exchange) (e : MatchingEngine) (s : Side)
    → y.engine ≡ clear_trade_log e
    → IsValid e.book
    → is_crossed e.book ≡ false
    → All IsPositive (own s e.book)
    → All IsPositive (opp s e.book)
    → Tracks y a
    → ((k : ℕ) → a k ≡ resting_of e.book k)
    → ((k : ℕ) → y.next_exchange_id ≤ k → resting_of e.book k ≡ 0)
    → IsLedger y
unfolding clear_trade_log
settled y e s h v u p q w same new =
    let sides = IsPositive-sides s e.book p q in
    record {
      valid = subst (λ (g : MatchingEngine). IsValid g.book) (sym h) v;
      uncrossed = ap (λ (g : MatchingEngine). is_crossed g.book) h ∙ u;
      log_clear = ap (λ (g : MatchingEngine). g.trade_log) h;
      bids_positive =
          subst (λ (g : MatchingEngine). All IsPositive (side_orders g.book.bids)) (sym h) sides.0;
      asks_positive =
          subst (λ (g : MatchingEngine). All IsPositive (side_orders g.book.asks)) (sym h) sides.1;
      tracked =
          Tracks-same y (λ k. same k ∙ ap (λ (g : MatchingEngine). resting_of g.book k) (sym h)) w;
      fresh = λ k l. ap (λ (g : MatchingEngine). resting_of g.book k) h ∙ new k l;
    }

pub answer-limit :
    (t : MatchingThread) (c : OrderCommand) (o : Order) (before : ℕ) (r : ApplyResult)
    → o.order_type ≡ limit
    → r.accepted ≡ true
    → (answer_new_order t c o before r).exchange
      ≡ (publish_trades
          (emit t c.session (ack c.session c.client_order_id o.id false))
          before).exchange
unfolding answer_new_order
answer-limit t c o before r h k = rw (k, h) (publish_book-exchange _)

pub answer-market :
    (t : MatchingThread) (c : OrderCommand) (o : Order) (before : ℕ) (r : ApplyResult)
    → o.order_type ≡ market
    → r.accepted ≡ true
    → (answer_new_order t c o before r).exchange
      ≡ forget_order
          (publish_trades
            (emit t c.session (ack c.session c.client_order_id o.id false))
            before).exchange
          o.id
unfolding answer_new_order
answer-market t c o before r h k =
    rw (k, h) (ap (λ x. forget_order x o.id) (publish_book-exchange _))
