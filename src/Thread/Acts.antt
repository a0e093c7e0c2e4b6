-- ===== src/Thread/Acts.antt =====
-- The handlers against the machine: nothing but the exchange and the outbox of a thread changes, and the
-- exchange changes as the machine's does.
use order_matching_machine.Prelude.{
  ℕ, ◌≡◌, refl, ap, ◌∙◌, sym, Bool, true, false, ◌||◌, Bool-cases, Option-cases, inl, inr, List, [],
  ◌∷◌, Option, none, some, arith, drop, is_empty, if◌then◌else◌,
}
use order_matching_machine.Prelude.Words.{add64}
use order_matching_machine.Orders.{OrderType, market, limit, cancel, Order, Trade}
use order_matching_machine.Engine.{ApplyResult}
use order_matching_machine.Gateway.Events.{OrderEvent, ack, reject, fill}
use order_matching_machine.Wal.Command.{OrderCommand}
use order_matching_machine.Thread.State.{value_or, Exchange, Outbox, MatchingThread}
use order_matching_machine.Thread.Routing.{
  push_event, push_snapshots, snapshot_of, forget_order, with_exchange, emit, publish_book,
  less_or_zero, filled, route_fill, route_trades, cleared, publish_trades,
}
use order_matching_machine.Thread.Machine.{fill_of, fills_of, trades_of, drop_of, answer_of}
use order_matching_machine.Thread.Apply.{drop_type, forgotten, drop_market, answer_new_order}

-- Nothing but the exchange and the outbox of a thread changes, the exchange into `x`.
abbrev pub Acts : MatchingThread → Exchange → MatchingThread → Type 0
Acts t x u = (b : Outbox) × (u ≡ record t { exchange = x; outbox = b })

-- The same for an answer that may not come.
abbrev pub Answers : MatchingThread → Option Exchange → Option MatchingThread → Type 0
Answers t none o = o ≡ none
Answers t (some x) o = (u : MatchingThread) × (o ≡ some u) × Acts t x u

emit-silent : (t : MatchingThread) (s : ℕ) (e : OrderEvent) → t.replaying ≡ true → emit t s e ≡ t
unfolding emit
emit-silent t s e h = ground arith

emit-nobody :
    (t : MatchingThread) (s : ℕ) (e : OrderEvent) → t.outbox.egress s ≡ none → emit t s e ≡ t
unfolding emit
emit-nobody t s e h = ground arith

emit-pushed :
    (t : MatchingThread) (s : ℕ) (e : OrderEvent) (q : ℕ)
    → t.replaying ≡ false
    → t.outbox.egress s ≡ some q
    → emit t s e ≡ record t { outbox = push_event t.outbox q e }
unfolding emit
emit-pushed t s e q h n = ground arith

pub emit-Acts : (t : MatchingThread) (s : ℕ) (e : OrderEvent) → Acts t t.exchange (emit t s e)
emit-Acts t s e = elim (Bool-cases t.replaying) [
  | inl h ↦ (t.outbox, emit-silent t s e h)
  | inr h ↦ elim (Option-cases (t.outbox.egress s)) [
    | inl n ↦ (t.outbox, emit-nobody t s e n)
    | inr (q, n) ↦ (push_event t.outbox q e, emit-pushed t s e q h n)
  ]
]

-- The subscribers' queues after a publication.
abbrev published : MatchingThread → Outbox
published t =
    let seq = add64 t.outbox.book_seq 1 in
    push_snapshots t.outbox.subscribers (snapshot_of seq t.exchange.engine.book)
      (record t.outbox { book_seq = seq })

pub publish_book-Acts : (t : MatchingThread) → Acts t t.exchange (publish_book t)
publish_book-Acts t = elim (Bool-cases (t.replaying || is_empty t.outbox.subscribers)) [
  | inl h ↦ (t.outbox, unfold publish_book in ground arith)
  | inr h ↦ (published t, unfold publish_book in ground arith)
]

-- An act after an act.
pub after :
    (t u : MatchingThread) (x : Exchange) (f : Exchange → Exchange)
    (g : MatchingThread → MatchingThread)
    → Acts t x u
    → ((w : MatchingThread) → Acts w (f w.exchange) (g w))
    → Acts t (f x) (g u)
after t u x f g (b, h) next =
    let (d, k) = next (record t { exchange = x; outbox = b }) in (d, ap g h ∙ k)

route_fill-nobody :
    (t : MatchingThread) (xoid : ℕ) (d : Trade)
    → t.exchange.owner_of xoid ≡ none
    → (route_fill t xoid d ≡ t) × (fill_of t.exchange xoid d ≡ t.exchange)
unfolding route_fill
route_fill-nobody t xoid d e = (ground arith, ground arith)

abbrev left_of : MatchingThread → ℕ → Trade → ℕ
left_of t xoid d = less_or_zero (value_or 0 (t.exchange.remaining_of xoid)) d.quantity

route_fill-owner :
    (t : MatchingThread) (xoid : ℕ) (d : Trade) (s : ℕ)
    → t.exchange.owner_of xoid ≡ some s
    → (route_fill t xoid d
        ≡ with_exchange
            (emit t s (
              fill s
                (value_or 0 (t.exchange.client_id_of xoid))
                xoid
                d.price_ticks
                d.quantity
                (left_of t xoid d)))
            (filled t.exchange xoid (left_of t xoid d)))
      × (filled t.exchange xoid (left_of t xoid d) ≡ fill_of t.exchange xoid d)
unfolding route_fill
route_fill-owner t xoid d s e = (ground arith, ground arith)

route_fill-Acts :
    (t : MatchingThread) (xoid : ℕ) (d : Trade)
    → Acts t (fill_of t.exchange xoid d) (route_fill t xoid d)
route_fill-Acts t xoid d = elim (Option-cases (t.exchange.owner_of xoid)) [
  | inl e ↦
      let (u, x) = route_fill-nobody t xoid d e in (t.outbox, u ∙ ap (with_exchange t) (sym x))
  | inr (s, e) ↦
      let (u, x) = route_fill-owner t xoid d s e in
      let (b, h) = emit-Acts t s _ in
      (
        b,
        u
            ∙ ap (λ w. with_exchange w (filled t.exchange xoid (left_of t xoid d))) h
            ∙ ap (λ y. record t { exchange = y; outbox = b }) x,
      )
]

route_trades-Acts :
    (t : MatchingThread) (ds : List Trade) → Acts t (fills_of t.exchange ds) (route_trades t ds)
unfolding route_trades fills_of
route_trades-Acts t [] = (t.outbox, refl)
route_trades-Acts t (d ∷ ds) =
    let u = with_exchange t (record t.exchange { last_trade_ticks = d.price_ticks }) in
    let buyer = route_fill-Acts u d.buyer_id d in
    let seller =
      after u _ _ (λ x. fill_of x d.seller_id d) (λ w. route_fill w d.seller_id d) buyer
        (λ w. route_fill-Acts w d.seller_id d) in
    after u _ _ (λ x. fills_of x ds) (λ w. route_trades w ds) seller (λ w. route_trades-Acts w ds)

publish_trades-Acts :
    (t : MatchingThread) (from : ℕ) → Acts t (trades_of t.exchange from) (publish_trades t from)
unfolding publish_trades
publish_trades-Acts t from =
    let (b, h) = route_trades-Acts t (drop from t.exchange.engine.trade_log) in
    (b, ap (λ w. with_exchange w (cleared w.exchange)) h)

drop_type-Acts :
    (k : OrderType) (xoid : ℕ) (t : MatchingThread)
    → Acts t (drop_of k xoid t.exchange) (drop_type k xoid t)
drop_type-Acts market xoid t = (t.outbox, refl)
drop_type-Acts limit xoid t = (t.outbox, refl)
drop_type-Acts cancel xoid t = (t.outbox, refl)

module _ (t : MatchingThread) (c : OrderCommand) (o : Order) (before : ℕ) where
  pub answer_new_order-Acts :
      (r : ApplyResult) → Acts t (answer_of t.exchange o before r) (answer_new_order t c o before r)
  unfolding answer_new_order
  answer_new_order-Acts r = by_answer r.accepted
    where
      acked : MatchingThread
      acked = emit t c.session (ack c.session c.client_order_id o.id false)

      accepted :
          Acts t
            (drop_of o.order_type o.id (trades_of t.exchange before))
            (drop_market o (publish_book (publish_trades acked before)))
      accepted =
          let trades =
            after t acked t.exchange (λ x. trades_of x before) (λ w. publish_trades w before)
              (emit-Acts t c.session _) (λ w. publish_trades-Acts w before) in
          let book = after t _ _ (λ x. x) publish_book trades publish_book-Acts in
          after t _ _ (drop_of o.order_type o.id) (drop_market o) book
            (drop_type-Acts o.order_type o.id)

      refused :
          Acts t
            (forget_order t.exchange o.id)
            (emit (forgotten t o.id) c.session (reject c.session c.client_order_id r.reason))
      refused = emit-Acts (forgotten t o.id) c.session _

      by_answer :
          (b : Bool)
          → Acts t
              (if b
                then drop_of o.order_type o.id (trades_of t.exchange before)
                else forget_order t.exchange o.id)
              (if b
                then drop_market o (publish_book (publish_trades acked before))
                else emit
                    (forgotten t o.id)
                    c.session
                    (reject c.session c.client_order_id r.reason))
      by_answer true = accepted
      by_answer false = refused
