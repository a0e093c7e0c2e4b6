-- ===== src/Thread/Ledger.antt =====
-- The invariant of the matching thread: the ownership maps are the book's resting orders.
use order_matching_machine.Prelude.{
  ℕ, ◌+◌, ◌-◌, ◌≤◌, ◌≡◌, refl, ap, ◌∙◌, false, Bool-cases, Option-cases, inl, inr, List, [], ◌∷◌,
  ◌++◌, none, arith, All, length, drop, drop-append, is_empty, ◌||◌, ◌==◌,
}
use order_matching_machine.Orders.{Side, bid, ask, Trade}
use order_matching_machine.Book.{OrderBook, empty_book, is_crossed}
use order_matching_machine.Book.Add.{empty_book-IsValid}
use order_matching_machine.Book.Flat.{side_orders}
use order_matching_machine.Book.Valid.{IsValid}
use order_matching_machine.Engine.{clear_trade_log}
use order_matching_machine.Engine.CrossStep.{own, opp}
use order_matching_machine.Gateway.Session.{member}
use order_matching_machine.Thread.State.{put, Exchange, MatchingThread, new_exchange}
use order_matching_machine.Thread.Routing.{
  forget_order, filled, route_fill, route_trades, publish_book, publish_trades, with_exchange,
}
use order_matching_machine.Thread.Amount.{amount, IsPositive, find_loc-amount, traded}
use order_matching_machine.Thread.Tracks.{Tracks}
use order_matching_machine.Thread.Fills.{route_trades-Tracks}

-- The quantity that rests under an id.
abbrev pub resting_of : OrderBook → ℕ → ℕ
resting_of b k = amount k (side_orders b.bids) + amount k (side_orders b.asks)

-- Between two commands: the book is valid and not crossed, and only orders with a quantity rest; the
-- trade log is drained; `remaining_of` is the quantity that rests under each id, the ids with an owner
-- are those that rest, and the sets of the sessions are the owners turned around; ids from
-- `next_exchange_id` on are new.
pub record IsLedger (x : Exchange) : Type 0 where
  pub valid : IsValid x.engine.book
  pub uncrossed : is_crossed x.engine.book ≡ false
  pub log_clear : x.engine.trade_log ≡ []
  pub bids_positive : All IsPositive (side_orders x.engine.book.bids)
  pub asks_positive : All IsPositive (side_orders x.engine.book.asks)
  pub tracked : Tracks x (resting_of x.engine.book)
  pub fresh : (k : ℕ) → x.next_exchange_id ≤ k → resting_of x.engine.book k ≡ 0

pub new_exchange-IsLedger : IsLedger new_exchange
unfolding empty_book is_crossed side_orders
new_exchange-IsLedger = record {
  valid = empty_book-IsValid;
  uncrossed = refl;
  log_clear = refl;
  bids_positive = tt;
  asks_positive = tt;
  tracked = record {
    remaining = λ k. refl;
    owned = λ k. refl;
    sets = λ s k. unfold member in refl;
  };
  fresh = λ k h. refl;
}

module _ (s : Side) (b : OrderBook) where
  pub resting_of-own : (k : ℕ) → amount k (own s b) + amount k (opp s b) ≡ resting_of b k
  resting_of-own k = by_side s
    where
      by_side : (u : Side) → amount k (own u b) + amount k (opp u b) ≡ resting_of b k
      by_side bid = refl
      by_side ask = omega arith

pub IsPositive-own :
    (s : Side) (x : Exchange)
    → IsLedger x
    → All IsPositive (own s x.engine.book) × All IsPositive (opp s x.engine.book)
IsPositive-own bid x l = (l.bids_positive, l.asks_positive)
IsPositive-own ask x l = (l.asks_positive, l.bids_positive)

pub IsPositive-sides :
    (s : Side) (b : OrderBook)
    → All IsPositive (own s b)
    → All IsPositive (opp s b)
    → All IsPositive (side_orders b.bids) × All IsPositive (side_orders b.asks)
IsPositive-sides bid b h k = (h, k)
IsPositive-sides ask b h k = (k, h)

-- An id of which nothing rests is not on the book's map.
pub unknown_of :
    (x : Exchange) (k : ℕ)
    → IsLedger x
    → resting_of x.engine.book k ≡ 0
    → x.engine.book.order_loc k ≡ none
unknown_of x k l z =
    let b = find_loc-amount k (side_orders x.engine.book.bids) l.bids_positive (omega (arith, z)) in
    let a = find_loc-amount k (side_orders x.engine.book.asks) l.asks_positive (omega (arith, z)) in
    l.valid.indexed.located k ∙ rw (b, a) refl

-- The engine and the counter of ids.
abbrev pub SameEngine : Exchange → Exchange → Type 0
SameEngine x y = (x.engine ≡ y.engine) × (x.next_exchange_id ≡ y.next_exchange_id)

pub forget_order-SameEngine : (x : Exchange) (k : ℕ) → SameEngine (forget_order x k) x
unfolding forget_order
forget_order-SameEngine x k = elim (Option-cases (x.owner_of k)) [
  | inl e ↦ rw e (refl, refl)
  | inr (s, e) ↦ rw e (refl, refl)
]

filled-SameEngine : (x : Exchange) (k rem : ℕ) → SameEngine (filled x k rem) x
filled-SameEngine x k rem = elim (Bool-cases (rem == 0)) [
  | inl e ↦ rw e (forget_order-SameEngine (record x { remaining_of = put x.remaining_of k rem }) k)
  | inr e ↦ rw e (refl, refl)
]

route_fill-SameEngine :
    (t : MatchingThread) (k : ℕ) (d : Trade) → SameEngine (route_fill t k d).exchange t.exchange
unfolding route_fill
route_fill-SameEngine t k d = elim (Option-cases (t.exchange.owner_of k)) [
  | inl e ↦ rw (route_fill, e) (refl, refl)
  | inr (s, e) ↦ rw (route_fill, e) (filled-SameEngine t.exchange k _)
]

pub route_trades-SameEngine :
    (t : MatchingThread) (ds : List Trade) → SameEngine (route_trades t ds).exchange t.exchange
unfolding route_trades
route_trades-SameEngine t [] = (refl, refl)
route_trades-SameEngine t (d ∷ ds) =
    let u = with_exchange t (record t.exchange { last_trade_ticks = d.price_ticks }) in
    let a = route_fill-SameEngine u d.buyer_id d in
    let b = route_fill-SameEngine (route_fill u d.buyer_id d) d.seller_id d in
    let c = route_trades-SameEngine (route_fill (route_fill u d.buyer_id d) d.seller_id d) ds in
    (c.0 ∙ b.0 ∙ a.0, c.1 ∙ b.1 ∙ a.1)

pub publish_book-exchange : (t : MatchingThread) → (publish_book t).exchange ≡ t.exchange
unfolding publish_book
publish_book-exchange t = elim (Bool-cases (t.replaying || is_empty t.outbox.subscribers)) [
  | inl e ↦ rw e refl
  | inr e ↦ rw e refl
]

-- After the trades of a command: the account is less what they trade, and the log is drained.
pub publish_trades-Tracks :
    (t : MatchingThread) (a : ℕ → ℕ) (before : List Trade) (ds : List Trade)
    → t.exchange.engine.trade_log ≡ before ++ ds
    → Tracks t.exchange a
    → Tracks (publish_trades t (length before)).exchange (λ k. a k - traded k ds)
      × ((publish_trades t (length before)).exchange.engine ≡ clear_trade_log t.exchange.engine)
      × ((publish_trades t (length before)).exchange.next_exchange_id ≡ t.exchange.next_exchange_id)
unfolding publish_trades
publish_trades-Tracks t a before ds e h =
    let news : drop (length before) t.exchange.engine.trade_log ≡ ds =
      ap (drop (length before)) e ∙ drop-append before ds in
    let w = route_trades-Tracks t a ds h in
    let same = route_trades-SameEngine t ds in
    rw news (
      record { remaining = w.remaining; owned = w.owned; sets = w.sets },
      ap clear_trade_log same.0,
      same.1,
    )
