-- ===== src/Engine/Keeps.antt =====
-- `processOrder` on every type of command: it returns, and the book stays valid and not crossed.
use order_matching_machine.Prelude.{
  ◌+◌, ◌<◌, ◌^◌, ◌≡◌, refl, ap, ◌∙◌, true, false, none, some, arith, Option-cases, inl, inr,
}
use order_matching_machine.Orders.{OrderType, market, limit, cancel, Order}
use order_matching_machine.Book.{is_crossed, add_order}
use order_matching_machine.Book.Levels.{quantity_of}
use order_matching_machine.Book.Flat.{side_orders, place}
use order_matching_machine.Book.Add.{add_order-Added}
use order_matching_machine.Book.Valid.{IsValid}
use order_matching_machine.Book.Market.Sweep.{
  taken, sweep_fills, sweep_fills-add-left, sweep_fills-add-rest,
}
use order_matching_machine.Engine.{
  MatchingEngine, ApplyResult, cross_rounds, process_order, process_limit,
}
use order_matching_machine.Engine.CrossRun.{loop-done}
use order_matching_machine.Engine.Reasons.{accepted_none}
use order_matching_machine.Engine.CrossStep.{own, opp, crosses}
use order_matching_machine.Engine.Limit.{LimitDone, process_order-LimitDone, process_order-limit}
use order_matching_machine.Engine.Others.{
  process_order-MarketDone, process_order-CancelDone, process_order-cancel_unknown,
}

-- What holds of a command's outcome, whatever its type.
pub record Kept (e : MatchingEngine) (o : Order) (after : MatchingEngine) (r : ApplyResult)
    : Type 0 where
  pub returned : process_order e o ≡ some (after, r)
  pub valid : IsValid after.book
  pub uncrossed : is_crossed after.book ≡ false

module _ (e : MatchingEngine) (o : Order) (v : IsValid e.book) (c : is_crossed e.book ≡ false)
    (q : o.quantity < 2 ^ 32) where
  abbrev Keeps : Type 0
  Keeps = (after : MatchingEngine) × (r : ApplyResult) × Kept e o after r

  keeps_limit : o.order_type ≡ limit → 0 < o.quantity → e.book.order_loc o.id ≡ none → Keeps
  keeps_limit t pos fresh =
      let (after, r, w) = process_order-LimitDone e o v c t pos q fresh in
      (after, r, record { returned = w.returned; valid = w.valid; uncrossed = w.uncrossed })

  keeps_market : o.order_type ≡ market → Keeps
  keeps_market t =
      let (after, r, w) = process_order-MarketDone e o t q v c in
      (after, r, record { returned = w.returned; valid = w.valid; uncrossed = w.uncrossed })

  keeps_cancel : o.order_type ≡ cancel → Keeps
  keeps_cancel t = elim (Option-cases (e.book.order_loc o.id)) [
    | inl h ↦
        (e, _, record { returned = process_order-cancel_unknown e o t h; valid = v; uncrossed = c })
    | inr (l, h) ↦
        let (after, r, w) = process_order-CancelDone e o l.0 l.1 t h v c in
        (after, r, record { returned = w.returned; valid = w.valid; uncrossed = w.uncrossed })
  ]

  -- On a valid book that is not crossed, `processOrder` returns for a command of every type, and
  -- leaves the book valid and not crossed. Of the order it asks a 32-bit quantity, and of a limit
  -- order that the quantity is above 0 and the id does not rest already.
  pub process_order-Kept :
      (o.order_type ≡ limit → (0 < o.quantity) × (e.book.order_loc o.id ≡ none))
      → (after : MatchingEngine) × (r : ApplyResult) × Kept e o after r
  process_order-Kept h = by_type o.order_type refl
    where
      by_type : (t : OrderType) → o.order_type ≡ t → Keeps
      by_type market t = keeps_market t
      by_type limit t = let (pos, fresh) = h t in keeps_limit t pos fresh
      by_type cancel t = keeps_cancel t

-- No quantity is made or lost by a limit order: on its side, and on the other side, what rested
-- before (with the order's own quantity) is what rests after, and what was traded.
pub process_order-limit_conserves :
    (e : MatchingEngine) (o : Order) (after : MatchingEngine) (r : ApplyResult)
    → LimitDone e o after r
    → (quantity_of (opp o.side after.book) + r.filled_qty ≡ quantity_of (opp o.side e.book))
      × (r.filled_qty ≡ taken (sweep_fills (crosses o.side o) o.quantity (opp o.side e.book)))
process_order-limit_conserves e o after r w =
    let a = sweep_fills-add-left (crosses o.side o) o.quantity (opp o.side e.book) in
    let b = sweep_fills-add-rest (crosses o.side o) o.quantity (opp o.side e.book) in
    let f = w.filled in rw (w.opp_left) (omega (arith, a, b, f), omega (arith, a, f))

zero_quantity :
    (e : MatchingEngine) (o : Order)
    → o.quantity ≡ 0
    → process_limit e o
      ≡ some (
        record { book = add_order e.book o; trade_log = e.trade_log },
        record { accepted = true; reason = accepted_none; filled_qty = 0; fully_filled = true },
      )
unfolding process_limit
zero_quantity e o z =
    rw
      (
        loop-done (cross_rounds (add_order e.book o)) o.id
            (record { book = add_order e.book o; trade_log = e.trade_log; remaining = o.quantity })
            (omega arith) z,
        z,
      )
      refl

-- What becomes of a limit order of quantity 0.
pub record ZeroRests (e : MatchingEngine) (o : Order) (after : MatchingEngine) (r : ApplyResult)
    : Type 0 where
  pub returned : process_order e o ≡ some (after, r)
  pub reported : (r.accepted ≡ true) × (r.filled_qty ≡ 0) × (r.fully_filled ≡ true)
  pub own_left : own o.side after.book ≡ place o.side o (own o.side e.book)
  pub opp_left : opp o.side after.book ≡ opp o.side e.book
  pub log_kept : after.trade_log ≡ e.trade_log
  pub valid : IsValid after.book

-- A limit order of quantity 0 under an id that does not rest yet, on a valid book: it is accepted and
-- reported as fully filled, with nothing traded, and yet it stands in its side's queue afterwards, at
-- the place that its price and time give it; the other side and the log stay, and the book is valid.
pub process_order-limit_zero :
    (e : MatchingEngine) (o : Order)
    → o.order_type ≡ limit
    → o.quantity ≡ 0
    → e.book.order_loc o.id ≡ none
    → IsValid e.book
    → (after : MatchingEngine) × (r : ApplyResult) × ZeroRests e o after r
process_order-limit_zero e o t z fresh v =
    let w = add_order-Added e.book o t (omega (arith, z)) fresh v in
    (
      _,
      _,
      record {
        returned = process_order-limit e o t ∙ zero_quantity e o z;
        reported = (refl, refl, refl);
        own_left = w.placed;
        opp_left = ap side_orders w.untouched;
        log_kept = refl;
        valid = w.valid;
      },
    )
