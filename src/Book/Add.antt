-- ===== src/Book/Add.antt =====
-- `addOrder` on the whole book.
use order_matching_machine.Prelude.{
  ℕ, ◌<◌, ◌^◌, ◌≡◌, ◌≢◌, refl, ◌∙◌, sym, subst, List, [], ◌∷◌, Option, none, some, arith,
  Bool-cases, inl, inr, ◌==◌, if◌then◌else◌,
}
use order_matching_machine.Prelude.Int.{ℤ}
use order_matching_machine.Orders.{Side, bid, ask, limit, Order}
use order_matching_machine.Book.{
  OrderBook, Locations, levels, put_loc, better, empty_book, add_order,
}
use order_matching_machine.Book.Flat.{
  side_orders, place, find_loc, first_of, Distinct, Indexed, Indexed-swap,
}
use order_matching_machine.Book.Insert.{insert_order-IsSide, side_orders-insert_order}
use order_matching_machine.Book.Valid.{IsValid}
use order_matching_machine.Book.Market.{opposite}

-- A new id is found where the order went, every other id where it was.
pub find_loc-place :
    (s : Side) (o : Order) (xs : List Order) (k : ℕ)
    → find_loc o.id xs ≡ none
    → find_loc k (place s o xs)
      ≡ (if k == o.id then some (o.side, o.price_ticks) else find_loc k xs)
unfolding find_loc place
find_loc-place s o [] k h = refl
find_loc-place s o (x ∷ xs) k h = elim (Bool-cases (better s o.price_ticks x.price_ticks)) [
  | inl e ↦ rw e refl
  | inr e ↦ rw e (ground (arith, find_loc-place s o xs k))
]

Distinct-place :
    (s : Side) (o : Order) (xs : List Order)
    → find_loc o.id xs ≡ none
    → Distinct xs
    → Distinct (place s o xs)
unfolding find_loc place
Distinct-place s o [] h d = (refl, tt)
Distinct-place s o (x ∷ xs) h d = elim (Bool-cases (better s o.price_ticks x.price_ticks)) [
  | inl e ↦ rw e (h, d)
  | inr e ↦
      rw e (ground (arith, find_loc-place s o xs x.id), Distinct-place s o xs (ground arith) d.1)
]

pub first_of-none : (a b : Option (Side × ℤ)) → first_of a b ≡ none → (a ≡ none) × (b ≡ none)
first_of-none none b h = (refl, h)
first_of-none (some v) b h = cc

-- A fresh order keeps the index.
pub Indexed-place :
    (m : Locations) (s : Side) (o : Order) (xs ys : List Order)
    → m o.id ≡ none
    → Indexed m xs ys
    → Indexed (put_loc m o.id (o.side, o.price_ticks)) (place s o xs) ys
Indexed-place m s o xs ys h x =
    let fresh = first_of-none (find_loc o.id xs) (find_loc o.id ys) (sym (x.located o.id) ∙ h) in
    record {
      distinct_left = Distinct-place s o xs fresh.0 x.distinct_left;
      distinct_right = x.distinct_right;
      apart = λ k. rw (find_loc-place s o xs k fresh.0) (ground (arith, x.apart k, fresh.1));
      located = λ k. rw (find_loc-place s o xs k fresh.0) (ground (arith, x.located k));
    }

-- A book with an order added to it.
pub record Added (b : OrderBook) (o : Order) : Type 0 where
  pub valid : IsValid (add_order b o)
  pub placed :
      side_orders (levels (add_order b o) o.side) ≡ place o.side o (side_orders (levels b o.side))
  pub untouched : levels (add_order b o) (opposite o.side) ≡ levels b (opposite o.side)

-- The order with its side and type written out, so that `addOrder` computes.
Added-limit :
    (b : OrderBook) (o : Order) (s : Side)
    → o.quantity < 2 ^ 64
    → b.order_loc o.id ≡ none
    → IsValid b
    → Added b (record o { side = s; order_type = limit })
unfolding add_order
Added-limit b o bid q h v =
    let o' = record o { side = bid; order_type = limit } in
    let placed = side_orders-insert_order o' b.bids v.bid_side in
    record {
      valid = record {
        bid_side = insert_order-IsSide o' b.bids q v.bid_side;
        ask_side = v.ask_side;
        indexed = rw placed (Indexed-place b.order_loc bid o' _ _ h v.indexed);
      };
      placed = placed;
      untouched = refl;
    }
Added-limit b o ask q h v =
    let o' = record o { side = ask; order_type = limit } in
    let placed = side_orders-insert_order o' b.asks v.ask_side in
    record {
      valid = record {
        bid_side = v.bid_side;
        ask_side = insert_order-IsSide o' b.asks q v.ask_side;
        indexed = rw placed (
            Indexed-swap _ _ _
              (Indexed-place b.order_loc ask o' _ _ h (Indexed-swap _ _ _ v.indexed)));
      };
      placed = placed;
      untouched = refl;
    }

-- A limit order under an id that does not rest yet takes its place in price-time priority on its side
-- of a valid book; the other side stays, and the book stays valid.
pub add_order-Added :
    (b : OrderBook) (o : Order)
    → o.order_type ≡ limit
    → o.quantity < 2 ^ 64
    → b.order_loc o.id ≡ none
    → IsValid b
    → Added b o
add_order-Added b o t q h v =
    subst (λ t'. Added b (record o { order_type = t' })) (sym t) (Added-limit b o o.side q h v)

-- No other order touches the book.
pub add_order-other : (b : OrderBook) (o : Order) → o.order_type ≢ limit → add_order b o ≡ b
unfolding add_order
add_order-other b o h = ground arith

-- A book starts valid.
pub empty_book-IsValid : IsValid empty_book
unfolding empty_book side_orders find_loc
empty_book-IsValid = record {
  bid_side = tt;
  ask_side = tt;
  indexed = record {
    distinct_left = tt;
    distinct_right = tt;
    apart = λ k. inl refl;
    located = λ k. refl;
  };
}
