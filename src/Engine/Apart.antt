-- ===== src/Engine/Apart.antt =====
-- On an uncrossed book the best order of a side meets nothing on the other side.
use order_matching_machine.Prelude.{
  ◌≡◌, refl, ap, ◌∙◌, sym, true, false, List, [], ◌∷◌, arith, All, All-append, is_empty,
}
use order_matching_machine.Prelude.Int.{ℤ}
use order_matching_machine.Orders.{Side, bid, ask, Order}
use order_matching_machine.Book.{PriceLevel, OrderBook, levels, better, is_crossed}
use order_matching_machine.Book.Levels.{Belongs, Behind, IsSide}
use order_matching_machine.Book.Flat.{side_orders}
use order_matching_machine.Book.Valid.{IsValid}
use order_matching_machine.Book.Market.{opposite}
use order_matching_machine.Engine.CrossStep.{own, opp, crosses, heads_cross, is_crossed-heads}
use order_matching_machine.Engine.CrossLoop.{NoMeet}

-- An own order that does not meet a price does not meet a worse one.
misses_worse :
    (s : Side) (r x : Order) (p : ℤ)
    → crosses s r (record x { price_ticks = p }) ≡ false
    → better (opposite s) p x.price_ticks ≡ true
    → crosses s r x ≡ false
misses_worse bid r x p h k = ground arith
misses_worse ask r x p h k = ground arith

-- An order that is no better than one that meets nothing meets nothing.
pub misses_behind :
    (s : Side) (o y x : Order)
    → better s o.price_ticks y.price_ticks ≡ false
    → crosses s y x ≡ false
    → crosses s o x ≡ false
misses_behind bid o y x h k = ground arith
misses_behind ask o y x h k = ground arith

-- Whether two orders meet depends on their prices alone.
crosses_price :
    (s : Side) (r x : Order) (p : ℤ)
    → x.price_ticks ≡ p
    → crosses s r x ≡ crosses s r (record x { price_ticks = p })
crosses_price bid r x p e = rw e refl
crosses_price ask r x p e = rw e refl

crosses_at :
    (s : Side) (r x y : Order) (p : ℤ)
    → crosses s r (record x { price_ticks = p }) ≡ crosses s r (record y { price_ticks = p })
crosses_at bid r x y p = refl
crosses_at ask r x y p = refl

misses_queue :
    (s : Side) (r z : Order) (p : ℤ) (os : List Order)
    → All (Belongs (opposite s) p) os
    → crosses s r (record z { price_ticks = p }) ≡ false
    → All (λ x. crosses s r x ≡ false) os
misses_queue s r z p [] b h = tt
misses_queue s r z p (x ∷ os) b h =
    (crosses_price s r x p b.0.0 ∙ crosses_at s r x z p ∙ h, misses_queue s r z p os b.1 h)

misses_levels :
    (s : Side) (r z : Order) (ls : List PriceLevel)
    → IsSide (opposite s) ls
    → All (λ l. crosses s r (record z { price_ticks = l.price_ticks }) ≡ false) ls
    → All (λ x. crosses s r x ≡ false) (side_orders ls)
unfolding side_orders
misses_levels s r z [] v h = tt
misses_levels s r z (l ∷ ls) v h =
    All-append _ l.orders (side_orders ls)
      (misses_queue s r z l.price_ticks l.orders v.0.belong h.0) (misses_levels s r z ls v.2 h.1)

misses_behind_level :
    (s : Side) (r z : Order) (p : ℤ) (ls : List PriceLevel)
    → Behind (opposite s) p ls
    → crosses s r (record z { price_ticks = p }) ≡ false
    → All (λ l. crosses s r (record z { price_ticks = l.price_ticks }) ≡ false) ls
misses_behind_level s r z p [] b h = tt
misses_behind_level s r z p (l ∷ ls) b h = (
  misses_worse s r (record z { price_ticks = l.price_ticks }) p h b.0,
  misses_behind_level s r z p ls b.1 h,
)

-- If the best order of a side misses the front of the other side, it misses all of it.
misses_side :
    (s : Side) (r : Order) (ls : List PriceLevel)
    → IsSide (opposite s) ls
    → heads_cross s (r ∷ []) (side_orders ls) ≡ false
    → All (λ x. crosses s r x ≡ false) (side_orders ls)
misses_side s r [] v h = unfold side_orders in tt
misses_side s r (l ∷ ls) v h = at_queue l.orders refl
  where
    at_queue :
        (q : List Order) → l.orders ≡ q → All (λ x. crosses s r x ≡ false) (side_orders (l ∷ ls))
    at_queue [] e = absurd (let n : is_empty l.orders ≡ false = v.0.nonempty in cc)
    at_queue (x ∷ q) e =
        let b : All (Belongs (opposite s) l.price_ticks) (x ∷ q) = rw e at v.0.belong in
        let front : crosses s r x ≡ false = (unfold side_orders in rw e at h) in
        let level = sym (crosses_price s r x l.price_ticks b.0.0) ∙ front in
        misses_levels s r x (l ∷ ls) v (level, misses_behind_level s r x l.price_ticks ls v.1 level)

-- On an uncrossed book the best order of either side misses the whole of the other.
pub uncrossed-NoMeet :
    (s : Side) (b : OrderBook) → IsValid b → is_crossed b ≡ false → NoMeet s (own s b) (opp s b)
uncrossed-NoMeet s b v h = at_own (own s b) refl
  where
    other_side : (s' : Side) → IsSide (opposite s') (levels b (opposite s'))
    other_side bid = v.ask_side
    other_side ask = v.bid_side

    front :
        (r : Order) (rs xs : List Order)
        → heads_cross s (r ∷ rs) xs ≡ false
        → heads_cross s (r ∷ []) xs ≡ false
    front r rs [] e = refl
    front r rs (x ∷ xs) e = e

    at_own : (os : List Order) → own s b ≡ os → NoMeet s os (opp s b)
    at_own [] e = tt
    at_own (r ∷ rs) e = misses_side s r (levels b (opposite s)) (other_side s) (
        front r rs (opp s b)
          (ap (λ os. heads_cross s os (opp s b)) (sym e) ∙ sym (is_crossed-heads s b v) ∙ h))
