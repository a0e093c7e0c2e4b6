-- ===== src/Book/Fill.antt =====
-- One fill of the front order of a side: the step that `match_market` and `execute_top_cross` share.
use order_matching_machine.Prelude.{
  ℕ, ◌+◌, ◌-◌, ◌≤◌, ◌≡◌, refl, ap, false, List, [], ◌∷◌, ◌++◌, arith, All, Bool-cases, inl, inr,
  is_empty, ◌==◌, ==_iff, if◌then◌else◌,
}
use order_matching_machine.Prelude.Words.{sub64}
use order_matching_machine.Orders.{Side, Order}
use order_matching_machine.Book.{PriceLevel, Locations, keep_level, fill_front, forget_filled}
use order_matching_machine.Book.Levels.{quantity_of, Belongs, IsLevel, IsSide}
use order_matching_machine.Book.Flat.{side_orders, find_loc, Indexed}

-- What a fill leaves of an order.
abbrev pub remainder : ℕ → Order → List Order → List Order
remainder take o os =
    if (o.quantity - take) == 0 then os else record o { quantity = o.quantity - take } ∷ os

-- After a fill the queue is the old one with its front order reduced, or gone.
pub side_orders-fill_front :
    (take : ℕ) (l : PriceLevel) (o : Order) (os : List Order) (ls : List PriceLevel)
    → side_orders (fill_front take l o os ls) ≡ remainder take o (os ++ side_orders ls)
unfolding fill_front side_orders
side_orders-fill_front take l o [] ls = ground arith
side_orders-fill_front take l o (x ∷ os) ls = ground arith

-- A queue shortened at its front, in a level whose total went down as much.
IsLevel-shrink :
    (s : Side) (l : PriceLevel) (take : ℕ) (o : Order) (os new : List Order)
    → IsLevel s l
    → l.orders ≡ o ∷ os
    → take + quantity_of new ≡ o.quantity + quantity_of os
    → is_empty new ≡ false
    → All (Belongs s l.price_ticks) new
    → IsLevel s (record l { total_qty = sub64 l.total_qty take; orders = new })
IsLevel-shrink s l take o os new v e q n b = record {
  nonempty = n;
  total = omega (arith, v.total, ap quantity_of e);
  belong = b;
}

-- Fills up to the order's quantity keep the side.
pub fill_front-IsSide :
    (s : Side) (take : ℕ) (l : PriceLevel) (o : Order) (os : List Order) (ls : List PriceLevel)
    → take ≤ o.quantity
    → l.orders ≡ o ∷ os
    → IsSide s (l ∷ ls)
    → IsSide s (fill_front take l o os ls)
unfolding fill_front
fill_front-IsSide s take l o os ls h e v = elim (Bool-cases ((o.quantity - take) == 0)) [
  | inl gone ↦ rw gone (popped ((==_iff _ 0).0 gone) os e)
  | inr left ↦ rw left (
    IsLevel-shrink s l take o os (record o { quantity = o.quantity - take } ∷ os) v.0 e
        (omega arith) refl (belongs.0, belongs.1),
    v.1,
    v.2,
  )
]
  where
    belongs : All (Belongs s l.price_ticks) (o ∷ os)
    belongs = rw e at v.0.belong

    popped :
        o.quantity - take ≡ 0
        → (rest : List Order) → l.orders ≡ o ∷ rest
        → IsSide s (keep_level (record l { total_qty = sub64 l.total_qty take; orders = rest }) ls)
    popped g [] e' = v.2
    popped g (x ∷ rest) e' = (
      IsLevel-shrink s l take o (x ∷ rest) (x ∷ rest) v.0 e' (omega arith) refl
          (let b : All (Belongs s l.price_ticks) (o ∷ x ∷ rest) = rw e' at v.0.belong in b.1),
      v.1,
      v.2,
    )

-- The map after a fill: the order's id goes exactly when the order does.
pub Indexed-remainder :
    (m : Locations) (take : ℕ) (o : Order) (os ys : List Order)
    → Indexed m (o ∷ os) ys
    → Indexed (forget_filled take o m) (remainder take o os) ys
unfolding find_loc
Indexed-remainder m take o os ys x = elim (Bool-cases ((o.quantity - take) == 0)) [
  | inl gone ↦ rw gone (record {
    distinct_left = x.distinct_left.1;
    distinct_right = x.distinct_right;
    apart = λ k. ground (arith, x.apart k);
    located = λ k. ground (arith, x.located k, x.apart k, x.distinct_left);
  })
  | inr left ↦ rw left (record {
    distinct_left = x.distinct_left;
    distinct_right = x.distinct_right;
    apart = λ k. ground (arith, x.apart k);
    located = λ k. ground (arith, x.located k);
  })
]
