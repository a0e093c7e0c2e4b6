-- ===== src/Book/Replay.antt =====
-- `reduce_level_after_lobster_execution` and `replace_remaining_quantity` of src/order_book.cpp, for
-- the replay of recorded market data.
use order_matching_machine.Prelude.{
  ℕ, zero, suc, ◌-◌, min, ◌≡◌, Bool, true, false, Bool-cases, inl, inr, List, [], ◌∷◌, ◌++◌, Option,
  none, some, arith, ltb, ◌==◌, if◌then◌else◌,
}
use order_matching_machine.Prelude.Int.{ℤ, eqb_ℤ}
use order_matching_machine.Prelude.Words.{add64, sub64}
use order_matching_machine.Orders.{Side, Order}
use order_matching_machine.Book.{
  PriceLevel, Locations, OrderBook, erase_loc, levels, set_levels, lower_bound, keep_level,
  cancel_order,
}
use order_matching_machine.Book.Levels.{quantity_of}
use order_matching_machine.Book.Queries.{sum_quantity}

-- The state of the loop over a level's queue: the queue, the index, and what is still to take.
pub record DrainState : Type 0 where
  pub orders : List Order
  pub order_loc : Locations
  pub remaining : ℕ

-- `while (remaining > 0)`: a front order that is not exhausted took all that remained, so the loop
-- ends there.
unfoldable pub drain : ℕ → List Order → Locations → DrainState
drain remaining [] m = record { orders = []; order_loc = m; remaining = remaining }
drain remaining (o ∷ os) m =
    let take = min remaining o.quantity in
    let rest = drain (remaining - take) os (erase_loc m o.id) in
    if remaining == 0
    then record { orders = o ∷ os; order_loc = m; remaining = 0 }
    else if (o.quantity - take) == 0
    then rest
    else record {
      orders = record o { quantity = o.quantity - take } ∷ os;
      order_loc = m;
      remaining = 0;
    }

-- The level at the iterator: `none` where the source returns `allow_missing_level` or false.
abbrev pub drained_level : ℕ → PriceLevel → List PriceLevel → DrainState → List PriceLevel
drained_level traded_size l ls d =
    keep_level
      (record l { total_qty = sub64 l.total_qty (traded_size - d.remaining); orders = d.orders }) ls

unfoldable pub reduce_at :
    OrderBook → Side → ℤ → ℕ → Bool → List PriceLevel → List PriceLevel → OrderBook × Bool
reduce_at b s price traded_size allow pre [] = (b, allow)
reduce_at b s price traded_size allow pre (l ∷ ls) =
    let d = drain traded_size l.orders b.order_loc in
    if eqb_ℤ l.price_ticks price
    then (if ltb (sum_quantity 0 l.orders) traded_size then (b, false) else (
      record (set_levels b s (pre ++ drained_level traded_size l ls d)) { order_loc = d.order_loc },
      d.remaining == 0,
    ))
    else (b, allow)

unfoldable pub reduce_level : OrderBook → Side → ℤ → ℕ → Bool → OrderBook × Bool
reduce_level b s price traded_size allow =
    let (pre, post) = lower_bound s price (levels b s) in
    if traded_size == 0 then (b, true) else reduce_at b s price traded_size allow pre post

-- The order of an id with its new quantity, and its old quantity.
unfoldable pub set_remaining : ℕ → ℕ → List Order → Option (ℕ × List Order)
set_remaining id new_remaining [] = none
set_remaining id new_remaining (o ∷ os) =
    let rest = set_remaining id new_remaining os in
    if o.id == id
    then some (o.quantity, record o { quantity = new_remaining } ∷ os)
    else elim rest [ none ↦ none | some (old, xs) ↦ some (old, o ∷ xs) ]

-- The lambda `touch`; `none` is its `false`.
unfoldable pub touch : ℤ → ℕ → ℕ → List PriceLevel → Option (List PriceLevel)
touch price id new_remaining [] = none
touch price id new_remaining (l ∷ ls) =
    if eqb_ℤ l.price_ticks price
    then elim (set_remaining id new_remaining l.orders) [
      | none ↦ none
      | some (old, os) ↦
          some
            (record l { total_qty = add64 (sub64 l.total_qty old) new_remaining; orders = os } ∷ ls)
    ]
    else none

unfoldable pub replace_remaining_quantity : OrderBook → ℕ → ℕ → OrderBook × Bool
replace_remaining_quantity b id zero = cancel_order b id
replace_remaining_quantity b id (suc n) = elim (b.order_loc id) [
  | none ↦ (b, false)
  | some (s, p) ↦ elim (touch p id (suc n) (lower_bound s p (levels b s)).1) [
    | none ↦ (b, false)
    | some ls ↦ (set_levels b s ((lower_bound s p (levels b s)).0 ++ ls), true)
  ]
]

-- Taking at most what the queue holds from its front leaves nothing to take, and the queue holds that
-- much less; taking more empties the queue and leaves the difference.
pub quantity_of-drain :
    (traded : ℕ) (os : List Order) (m : Locations)
    → (quantity_of (drain traded os m).orders ≡ quantity_of os - traded)
      × ((drain traded os m).remaining ≡ traded - quantity_of os)
unfolding drain
quantity_of-drain traded [] m = (omega arith, omega arith)
quantity_of-drain traded (o ∷ os) m =
    let rest = quantity_of-drain (traded - min traded o.quantity) os (erase_loc m o.id) in
    elim (Bool-cases (traded == 0)) [
      | inl e ↦ rw e (ground arith, ground arith)
      | inr e ↦ elim (Bool-cases ((o.quantity - min traded o.quantity) == 0)) [
        | inl f ↦ rw (e, f) (ground (arith, rest.0), ground (arith, rest.1))
        | inr f ↦ rw (e, f) (ground arith, ground arith)
      ]
    ]
