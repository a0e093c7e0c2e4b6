-- ===== src/Engine/Others.antt =====
-- Market orders and cancels through `processOrder`, and what every command keeps.
use order_matching_machine.Prelude.{
  ℕ, ◌-◌, ◌<◌, ◌^◌, min, ◌≡◌, refl, ap, ◌∙◌, Bool, true, false, List, [], ◌∷◌, ◌++◌, none, some,
  arith, Bool-cases, inl, inr, ◌==◌, leb, if◌then◌else◌,
}
use order_matching_machine.Prelude.Words.{sub32}
use order_matching_machine.Orders.{Side, bid, ask, market, cancel, Order}
use order_matching_machine.Book.{OrderBook, is_crossed, cancel_order}
use order_matching_machine.Book.Levels.{quantity_of}
use order_matching_machine.Book.Flat.{side_orders}
use order_matching_machine.Book.Valid.{IsValid}
use order_matching_machine.Book.Erase.{remove}
use order_matching_machine.Book.Cancel.{cancel_order-Cancelled, cancel_order-unknown}
use order_matching_machine.Book.Market.{opposite}
use order_matching_machine.Book.Market.Loop.{prints}
use order_matching_machine.Book.Market.Refine.{Matched, match_market-Matched}
use order_matching_machine.Book.Market.Sweep.{any, stops, sweep_rest, sweep_fills}
use order_matching_machine.Engine.{
  MatchingEngine, ApplyResult, process_order, process_market, process_cancel,
}
use order_matching_machine.Engine.Reasons.{accepted_none, unknown_order}
use order_matching_machine.Engine.Apart.{uncrossed-NoMeet}
use order_matching_machine.Engine.CrossStep.{own, opp, is_crossed-heads}
use order_matching_machine.Engine.CrossLoop.{NoMeet, NoMeet-heads, NoMeet-tail, NoMeet-reduced}

NoMeet-sweep :
    (s : Side) (rest : List Order) (q : ℕ) (xs : List Order)
    → NoMeet s rest xs
    → NoMeet s rest (sweep_rest any q xs)
unfolding sweep_rest
NoMeet-sweep s rest q [] h = h
NoMeet-sweep s rest q (x ∷ xs) h = elim (Bool-cases (stops any q x)) [
  | inl e ↦ rw e h
  | inr e ↦ elim (Bool-cases (leb x.quantity q)) [
    | inl f ↦ rw (e, f) (NoMeet-sweep s rest (q - x.quantity) xs (NoMeet-tail s rest x xs h))
    | inr f ↦ rw (e, f) (NoMeet-reduced s rest x (x.quantity - q) xs h)
  ]
]

NoMeet-remove :
    (s : Side) (rest : List Order) (id : ℕ) (xs : List Order)
    → NoMeet s rest xs
    → NoMeet s rest (remove id xs)
unfolding remove
NoMeet-remove s [] id xs h = tt
NoMeet-remove s (r ∷ rest) id [] h = tt
NoMeet-remove s (r ∷ rest) id (x ∷ xs) h = elim (Bool-cases (x.id == id)) [
  | inl e ↦ rw e h.1
  | inr e ↦ rw e (h.0, NoMeet-remove s (r ∷ rest) id xs h.1)
]

-- A book whose one side shrank to what still meets nothing is not crossed.
uncrossed_of :
    (s : Side) (b : OrderBook) → IsValid b → NoMeet s (own s b) (opp s b) → is_crossed b ≡ false
uncrossed_of s b v h = is_crossed-heads s b v ∙ NoMeet-heads s (own s b) (opp s b) h

pub record MarketDone (e : MatchingEngine) (o : Order) (after : MatchingEngine) (r : ApplyResult)
    : Type 0 where
  pub returned : process_order e o ≡ some (after, r)
  pub valid : IsValid after.book
  pub uncrossed : is_crossed after.book ≡ false
  pub own_left : own o.side after.book ≡ own o.side e.book
  pub opp_left : opp o.side after.book ≡ sweep_rest any o.quantity (opp o.side e.book)
  pub printed :
      after.trade_log
      ≡ e.trade_log
        ++ prints o.side o.id o.timestamp (sweep_fills any o.quantity (opp o.side e.book))
  pub accepted : (r.accepted ≡ true) × (r.reason ≡ accepted_none) × (r.fully_filled ≡ true)
  pub filled : r.filled_qty ≡ min o.quantity (quantity_of (opp o.side e.book))

market_returns :
    (e : MatchingEngine) (o : Order) (b : OrderBook)
    → o.order_type ≡ market
    → Matched e.book o.id o.side o.quantity o.timestamp e.trade_log b
    → process_order e o
      ≡ some (
        record {
          book = b;
          trade_log =
              e.trade_log
              ++ prints o.side o.id o.timestamp (sweep_fills any o.quantity (opp o.side e.book));
        },
        record {
          accepted = true;
          reason = accepted_none;
          filled_qty = sub32 o.quantity (o.quantity - quantity_of (opp o.side e.book));
          fully_filled = true;
        },
      )
unfolding process_order process_market
market_returns e o b t w = ground (arith, w.returned)

-- A market order of a 32-bit quantity, on a valid book that is not crossed: `processOrder` returns,
-- and accepts it; it fills as much as the other side has of what it asks, its trades and what is left
-- of that side are the sweep of the side's priority list, its own side stays, the rest of the order
-- is dropped, and the book is valid and not crossed again.
pub process_order-MarketDone :
    (e : MatchingEngine) (o : Order)
    → o.order_type ≡ market
    → o.quantity < 2 ^ 32
    → IsValid e.book
    → is_crossed e.book ≡ false
    → (after : MatchingEngine) × (r : ApplyResult) × MarketDone e o after r
process_order-MarketDone e o t q v c =
    let (b, w) = match_market-Matched e.book o.id o.quantity o.timestamp e.trade_log v o.side in
    let stays : own o.side b ≡ own o.side e.book = ap side_orders w.untouched in
    (
      _,
      _,
      record {
        returned = market_returns e o b t w;
        valid = w.valid;
        uncrossed = uncrossed_of o.side b w.valid (
            rw (stays, w.swept)
              (NoMeet-sweep o.side _ o.quantity _ (uncrossed-NoMeet o.side e.book v c)));
        own_left = stays;
        opp_left = w.swept;
        printed = refl;
        accepted = (refl, refl, refl);
        filled = omega arith;
      },
    )

pub record CancelDone (e : MatchingEngine) (o : Order) (s : Side) (after : MatchingEngine)
    (r : ApplyResult) : Type 0 where
  pub returned : process_order e o ≡ some (after, r)
  pub valid : IsValid after.book
  pub uncrossed : is_crossed after.book ≡ false
  pub own_left : own s after.book ≡ remove o.id (own s e.book)
  pub opp_left : opp s after.book ≡ opp s e.book
  pub log_kept : after.trade_log ≡ e.trade_log
  pub gone : after.book.order_loc o.id ≡ none
  pub accepted : (r.accepted ≡ true) × (r.reason ≡ accepted_none)
  pub nothing_filled : (r.filled_qty ≡ 0) × (r.fully_filled ≡ false)

cancel_returns :
    (e : MatchingEngine) (o : Order) (b : OrderBook) (removed : Bool)
    → o.order_type ≡ cancel
    → cancel_order e.book o.id ≡ (b, removed)
    → process_order e o
      ≡ some (
        record e { book = b },
        record {
          accepted = removed;
          reason = if removed then accepted_none else unknown_order;
          filled_qty = 0;
          fully_filled = false;
        },
      )
unfolding process_order process_cancel
cancel_returns e o b removed t h = ground (arith, h)

still_apart :
    (s : Side) (b after : OrderBook) (id : ℕ)
    → NoMeet (opposite s) (own (opposite s) b) (opp (opposite s) b)
    → own s after ≡ remove id (own s b)
    → opp s after ≡ opp s b
    → NoMeet (opposite s) (own (opposite s) after) (opp (opposite s) after)
still_apart bid b after id h e f = rw (e, f) (NoMeet-remove ask _ id _ h)
still_apart ask b after id h e f = rw (e, f) (NoMeet-remove bid _ id _ h)

-- A cancel of an id that rests, on a valid book that is not crossed: `processOrder` accepts it
-- and reports nothing filled, that order alone leaves its side, the trade log stays, and the book is
-- valid and not crossed again.
pub process_order-CancelDone :
    (e : MatchingEngine) (o : Order) (s : Side) (p : _)
    → o.order_type ≡ cancel
    → e.book.order_loc o.id ≡ some (s, p)
    → IsValid e.book
    → is_crossed e.book ≡ false
    → (after : MatchingEngine) × (r : ApplyResult) × CancelDone e o s after r
process_order-CancelDone e o s p t h v c =
    let (b, w) = cancel_order-Cancelled e.book o.id s p h v in
    let other : opp s b ≡ opp s e.book = ap side_orders w.untouched in
    (
      _,
      _,
      record {
        returned = cancel_returns e o b true t w.returned;
        valid = w.valid;
        uncrossed = uncrossed_of (opposite s) b w.valid (
            still_apart s e.book b o.id (uncrossed-NoMeet (opposite s) e.book v c) w.removed other);
        own_left = w.removed;
        opp_left = other;
        log_kept = refl;
        gone = w.gone;
        accepted = (refl, refl);
        nothing_filled = (refl, refl);
      },
    )

-- A cancel of an id that does not rest is refused with `UNKNOWN_ORDER`, and changes nothing.
pub process_order-cancel_unknown :
    (e : MatchingEngine) (o : Order)
    → o.order_type ≡ cancel
    → e.book.order_loc o.id ≡ none
    → process_order e o
      ≡ some (
        e,
        record { accepted = false; reason = unknown_order; filled_qty = 0; fully_filled = false },
      )
process_order-cancel_unknown e o t h =
    cancel_returns e o e.book false t (cancel_order-unknown e.book o.id h)
