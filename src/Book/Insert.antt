-- ===== src/Book/Insert.antt =====
-- `addOrder` on one side: the level structure is kept, and the queue order is price-time priority.
use order_matching_machine.Prelude.{
  ◌+◌, ◌^◌, ◌<◌, ◌≡◌, refl, ap, ◌∙◌, sym, subst, true, false, List, [], ◌∷◌, ◌++◌, arith,
  append_assoc, All, All-append, Bool-cases, inl, inr, is_empty,
}
use order_matching_machine.Prelude.Int.{ℤ, eqb_ℤ, eq_of_eqb_ℤ}
use order_matching_machine.Prelude.Words.{add64}
use order_matching_machine.Orders.{Side, bid, ask, Order}
use order_matching_machine.Book.{
  PriceLevel, better, lower_bound, new_level, insert_at, insert_order,
}
use order_matching_machine.Book.Levels.{
  quantity_of, Belongs, IsLevel, Behind, IsSide, StartsAt, better_total, Behind-trans,
  lower_bound-append, lower_bound-before, lower_bound-after, IsSide-append_right, IsSide-splice,
  Behind_of_append,
}
use order_matching_machine.Book.Flat.{side_orders, side_orders-append, place, place-append}

quantity_of-append :
    (xs : List Order) (o : Order) → quantity_of (xs ++ o ∷ []) ≡ quantity_of xs + o.quantity
quantity_of-append [] o = omega arith
quantity_of-append (x ∷ xs) o = omega (arith, quantity_of-append xs o)

is_empty-append : (xs : List Order) (o : Order) → is_empty (xs ++ o ∷ []) ≡ false
is_empty-append [] o = refl
is_empty-append (x ∷ xs) o = refl

new_level-IsLevel : (o : Order) → o.quantity < 2 ^ 64 → IsLevel o.side (new_level o)
new_level-IsLevel o h = record { nonempty = refl; total = omega arith; belong = ((refl, refl), tt) }

push_back-IsLevel :
    (o : Order) (l : PriceLevel)
    → o.price_ticks ≡ l.price_ticks
    → IsLevel o.side l
    → IsLevel o.side
        (record l { total_qty = add64 l.total_qty o.quantity; orders = l.orders ++ o ∷ [] })
push_back-IsLevel o l e v = record {
  nonempty = is_empty-append l.orders o;
  total = omega (arith, v.total, quantity_of-append l.orders o);
  belong = All-append _ l.orders (o ∷ []) v.belong ((e, refl), tt);
}

-- Behind the iterator stand prices that are no better; a level of another price is worse.
Behind_of_start :
    (s : Side) (p : ℤ) (l : PriceLevel) (ls : List PriceLevel)
    → better s l.price_ticks p ≡ false
    → eqb_ℤ l.price_ticks p ≡ false
    → IsSide s (l ∷ ls)
    → Behind s p (l ∷ ls)
Behind_of_start s p l ls h k v =
    let w = better_total s l.price_ticks p h k in (w, Behind-trans s p l.price_ticks ls w v.1)

insert_at-IsSide :
    (o : Order) (post : List PriceLevel)
    → o.quantity < 2 ^ 64
    → StartsAt o.side o.price_ticks post
    → IsSide o.side post
    → IsSide o.side (insert_at o post)
unfolding insert_at
insert_at-IsSide o [] q a v = (new_level-IsLevel o q, tt, tt)
insert_at-IsSide o (l ∷ ls) q a v = elim (Bool-cases (eqb_ℤ l.price_ticks o.price_ticks)) [
  | inl e ↦
      rw e (push_back-IsLevel o l (sym (eq_of_eqb_ℤ l.price_ticks o.price_ticks e)) v.0, v.1, v.2)
  | inr e ↦ rw e (new_level-IsLevel o q, Behind_of_start o.side o.price_ticks l ls a e v, v)
]

Behind-insert_at :
    (s : Side) (q : ℤ) (o : Order) (post : List PriceLevel)
    → better s q o.price_ticks ≡ true
    → Behind s q post
    → Behind s q (insert_at o post)
unfolding insert_at
Behind-insert_at s q o [] h k = (h, tt)
Behind-insert_at s q o (l ∷ ls) h k = elim (Bool-cases (eqb_ℤ l.price_ticks o.price_ticks)) [
  | inl e ↦ rw e k
  | inr e ↦ rw e (h, k)
]

Behind_of_parts :
    (s : Side) (o : Order) (pre post : List PriceLevel)
    → All (λ l. better s l.price_ticks o.price_ticks ≡ true) pre
    → All (λ l. Behind s l.price_ticks post) pre
    → All (λ l. Behind s l.price_ticks (insert_at o post)) pre
Behind_of_parts s o [] post h k = tt
Behind_of_parts s o (l ∷ pre) post h k =
    (Behind-insert_at s l.price_ticks o post h.0 k.0, Behind_of_parts s o pre post h.1 k.1)

-- `addOrder` keeps its side's structure.
pub insert_order-IsSide :
    (o : Order) (ls : List PriceLevel)
    → o.quantity < 2 ^ 64
    → IsSide o.side ls
    → IsSide o.side (insert_order o.side o ls)
unfolding insert_order
insert_order-IsSide o ls q v =
    IsSide-splice s pre post (insert_at o post) whole
      (insert_at-IsSide o post q (lower_bound-after s p ls) (IsSide-append_right s pre post whole))
      (Behind_of_parts s o pre post (lower_bound-before s p ls) (Behind_of_append s pre post whole))
  where
    s : Side
    s = o.side

    p : ℤ
    p = o.price_ticks

    pre : List PriceLevel
    pre = (lower_bound s p ls).0

    post : List PriceLevel
    post = (lower_bound s p ls).1

    whole : IsSide s (pre ++ post)
    whole = rw (lower_bound-append s p ls) v

better_asym : (s : Side) (a b : ℤ) → better s a b ≡ true → better s b a ≡ false
better_asym bid a b h = ground arith
better_asym ask a b h = ground arith

pub better_irrefl : (s : Side) (a : ℤ) → better s a a ≡ false
better_irrefl bid a = ground arith
better_irrefl ask a = ground arith

-- A queue's orders compare as its level does.
queue_compares :
    (s : Side) (p q : ℤ) (os : List Order)
    → All (Belongs s p) os
    → better s q p ≡ false
    → All (λ x. better s q x.price_ticks ≡ false) os
queue_compares s p q [] h k = tt
queue_compares s p q (o ∷ os) h k = (rw (h.0.0) k, queue_compares s p q os h.1 k)

better_levels_compare :
    (s : Side) (o : Order) (pre post : List PriceLevel)
    → IsSide s (pre ++ post)
    → All (λ l. better s l.price_ticks o.price_ticks ≡ true) pre
    → All (λ x. better s o.price_ticks x.price_ticks ≡ false) (side_orders pre)
unfolding side_orders
better_levels_compare s o [] post v h = tt
better_levels_compare s o (l ∷ pre) post v h =
    All-append _ l.orders (side_orders pre)
      (queue_compares s l.price_ticks o.price_ticks l.orders v.0.belong
        (better_asym s l.price_ticks o.price_ticks h.0))
      (better_levels_compare s o pre post v.2 h.1)

-- A newcomer that beats the front level stands before all of its side.
place-first :
    (s : Side) (o : Order) (p : ℤ) (os rest : List Order)
    → is_empty os ≡ false
    → All (Belongs s p) os
    → better s o.price_ticks p ≡ true
    → place s o (os ++ rest) ≡ o ∷ os ++ rest
unfolding place
place-first s o p [] rest n b h = cc
place-first s o p (x ∷ os) rest n b h = rw (b.0.0, h)

place-behind :
    (s : Side) (o : Order) (ls : List PriceLevel)
    → IsSide s ls
    → Behind s o.price_ticks ls
    → place s o (side_orders ls) ≡ o ∷ side_orders ls
unfolding side_orders
place-behind s o [] v h = unfold place in refl
place-behind s o (l ∷ ls) v h =
    place-first s o l.price_ticks l.orders (side_orders ls) v.0.nonempty v.0.belong h.0

side_orders-insert_at :
    (o : Order) (post : List PriceLevel)
    → StartsAt o.side o.price_ticks post
    → IsSide o.side post
    → side_orders (insert_at o post) ≡ place o.side o (side_orders post)
unfolding insert_at side_orders
side_orders-insert_at o [] a v = unfold place in refl
side_orders-insert_at o (l ∷ ls) a v = elim (Bool-cases (eqb_ℤ l.price_ticks o.price_ticks)) [
  | inl e ↦
      let same = eq_of_eqb_ℤ l.price_ticks o.price_ticks e in
      rw e (
        append_assoc l.orders (o ∷ []) (side_orders ls)
        ∙ ap (λ t. l.orders ++ t)
            (sym (place-behind o.side o ls v.2 (subst (λ q. Behind o.side q ls) same v.1)))
        ∙ sym (
            place-append o.side o l.orders (side_orders ls) (
              queue_compares o.side l.price_ticks o.price_ticks l.orders v.0.belong
                (rw same (better_irrefl o.side o.price_ticks)))))
  | inr e ↦
      let w = Behind_of_start o.side o.price_ticks l ls a e v in
      rw e (sym (place-behind o.side o (l ∷ ls) v w))
]

-- `addOrder` puts the order at its place in price-time priority.
pub side_orders-insert_order :
    (o : Order) (ls : List PriceLevel)
    → IsSide o.side ls
    → side_orders (insert_order o.side o ls) ≡ place o.side o (side_orders ls)
unfolding insert_order
side_orders-insert_order o ls v =
    side_orders-append pre (insert_at o post)
    ∙ ap (λ t. side_orders pre ++ t)
        (side_orders-insert_at o post (lower_bound-after s p ls)
          (IsSide-append_right s pre post whole))
    ∙ sym (
        place-append s o (side_orders pre) (side_orders post)
          (better_levels_compare s o pre post whole (lower_bound-before s p ls)))
    ∙ ap (place s o)
        (sym (side_orders-append pre post) ∙ ap side_orders (lower_bound-append s p ls))
  where
    s : Side
    s = o.side

    p : ℤ
    p = o.price_ticks

    pre : List PriceLevel
    pre = (lower_bound s p ls).0

    post : List PriceLevel
    post = (lower_bound s p ls).1

    whole : IsSide s (pre ++ post)
    whole = rw (lower_bound-append s p ls) v
