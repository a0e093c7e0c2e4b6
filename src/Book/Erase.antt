-- ===== src/Book/Erase.antt =====
-- The erasure of one order from a side, as `cancelOrder` does it.
use order_matching_machine.Prelude.{
  ℕ, ◌+◌, ◌≡◌, ◌≢◌, refl, ap, ◌∙◌, sym, true, List, [], ◌∷◌, ◌++◌, Option, none, some, arith, All,
  Bool-cases, ◌⊎◌, inl, inr, ◌==◌, if◌then◌else◌,
}
use order_matching_machine.Prelude.Int.{ℤ}
use order_matching_machine.Orders.{Side, Order}
use order_matching_machine.Book.{PriceLevel, Locations, better, erase_loc, take_order}
use order_matching_machine.Book.Levels.{quantity_of, Belongs, Behind, IsSide}
use order_matching_machine.Book.Flat.{
  side_orders, find_loc, find_loc-append, first_of, Distinct, Indexed,
}

-- The list without the first order of an id.
unfoldable pub remove : ℕ → List Order → List Order
remove id [] = []
remove id (o ∷ os) = if o.id == id then os else o ∷ remove id os

pub remove-append_left :
    (id : ℕ) (xs ys : List Order)
    → find_loc id xs ≡ none
    → remove id (xs ++ ys) ≡ xs ++ remove id ys
unfolding remove find_loc
remove-append_left id [] ys h = refl
remove-append_left id (x ∷ xs) ys h = ground (arith, remove-append_left id xs ys)

pub remove-append_found :
    (id : ℕ) (xs ys : List Order)
    → find_loc id xs ≢ none
    → remove id (xs ++ ys) ≡ remove id xs ++ ys
unfolding remove find_loc
remove-append_found id [] ys h = absurd (h refl)
remove-append_found id (x ∷ xs) ys h = ground (arith, remove-append_found id xs ys)

find_loc-remove :
    (id : ℕ) (xs : List Order) (k : ℕ)
    → Distinct xs
    → find_loc k (remove id xs) ≡ (if k == id then none else find_loc k xs)
unfolding remove find_loc
find_loc-remove id [] k d = ground arith
find_loc-remove id (x ∷ xs) k d = ground (arith, find_loc-remove id xs k d.1)

Distinct-remove : (id : ℕ) (xs : List Order) → Distinct xs → Distinct (remove id xs)
unfolding remove find_loc
Distinct-remove id [] d = tt
Distinct-remove id (x ∷ xs) d = elim (Bool-cases (x.id == id)) [
  | inl e ↦ rw e d.1
  | inr e ↦ rw e (ground (arith, find_loc-remove id xs x.id d.1), Distinct-remove id xs d.1)
]

-- The index after the order of an id that rests on this side is gone.
pub Indexed-remove :
    (m : Locations) (id : ℕ) (xs ys : List Order)
    → find_loc id xs ≢ none
    → Indexed m xs ys
    → Indexed (erase_loc m id) (remove id xs) ys
Indexed-remove m id xs ys h x = record {
  distinct_left = Distinct-remove id xs x.distinct_left;
  distinct_right = x.distinct_right;
  apart = λ k. rw (find_loc-remove id xs k x.distinct_left) (ground (arith, x.apart k));
  located =
      λ k. rw (find_loc-remove id xs k x.distinct_left) (ground (arith, x.located k, x.apart k, h));
}

-- The scan of a queue for an id that is in it.
pub record Taken (s : Side) (p : ℤ) (id : ℕ) (os : List Order) (o : Order) (rest : List Order)
    : Type 0 where
  pub found : take_order id os ≡ some (o, rest)
  pub removed : rest ≡ remove id os
  pub total : quantity_of os ≡ o.quantity + quantity_of rest
  pub belong : All (Belongs s p) rest

pub take_order-Taken :
    (s : Side) (p : ℤ) (id : ℕ) (os : List Order)
    → All (Belongs s p) os
    → find_loc id os ≢ none
    → (o : Order) × (rest : List Order) × Taken s p id os o rest
unfolding take_order remove find_loc
take_order-Taken s p id [] b h = absurd (h refl)
take_order-Taken s p id (o ∷ os) b h = elim (Bool-cases (o.id == id)) [
  | inl e ↦ (o, os, record { found = rw e refl; removed = rw e refl; total = refl; belong = b.1 })
  | inr e ↦
      let (x, rest, t) = take_order-Taken s p id os b.1 (ground arith) in
      (
        x,
        o ∷ rest,
        record {
          found = rw (e, t.found) refl;
          removed = rw e (ap (λ l. o ∷ l) t.removed);
          total = omega (arith, t.total);
          belong = (b.0, t.belong);
        },
      )
]

-- Where an id is found, the side and the price are those of the level that it rests in.
pub find_loc-Belongs :
    (s s' : Side) (p p' : ℤ) (id : ℕ) (os : List Order)
    → All (Belongs s p) os
    → find_loc id os ≡ some (s', p')
    → (s' ≡ s) × (p' ≡ p)
unfolding find_loc
find_loc-Belongs s s' p p' id [] b h = cc
find_loc-Belongs s s' p p' id (o ∷ os) b h = ground (arith, find_loc-Belongs s s' p p' id os b.1)

pub first_of-cases :
    (a b : Option (Side × ℤ)) {v : Side × ℤ}
    → first_of a b ≡ some v
    → (a ≡ some v) ⊎ ((a ≡ none) × (b ≡ some v))
first_of-cases none b h = inr (refl, h)
first_of-cases (some w) b h = inl h

pub find_loc-side :
    (s s' : Side) (p : ℤ) (id : ℕ) (ls : List PriceLevel)
    → IsSide s ls
    → find_loc id (side_orders ls) ≡ some (s', p)
    → s' ≡ s
unfolding side_orders find_loc
find_loc-side s s' p id [] v h = cc
find_loc-side s s' p id (l ∷ ls) v h =
    elim (first_of-cases (find_loc id l.orders) (find_loc id (side_orders ls))
      (sym (find_loc-append id l.orders (side_orders ls)) ∙ h)) [
        | inl e ↦ (find_loc-Belongs s s' l.price_ticks p id l.orders v.0.belong e).0
        | inr e ↦ find_loc-side s s' p id ls v.2 e.1
      ]

-- An id found behind a price rests at a worse one.
pub find_loc-Behind :
    (s s' : Side) (q p : ℤ) (id : ℕ) (ls : List PriceLevel)
    → IsSide s ls
    → Behind s q ls
    → find_loc id (side_orders ls) ≡ some (s', p)
    → better s q p ≡ true
unfolding side_orders find_loc
find_loc-Behind s s' q p id [] v b h = cc
find_loc-Behind s s' q p id (l ∷ ls) v b h =
    elim (first_of-cases (find_loc id l.orders) (find_loc id (side_orders ls))
      (sym (find_loc-append id l.orders (side_orders ls)) ∙ h)) [
        | inl e ↦ rw ((find_loc-Belongs s s' l.price_ticks p id l.orders v.0.belong e).1) b.0
        | inr e ↦ find_loc-Behind s s' q p id ls v.2 b.1 e.1
      ]
