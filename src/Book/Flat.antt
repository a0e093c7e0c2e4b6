-- ===== src/Book/Flat.antt =====
-- The abstract view of a side: its resting orders in price-time priority, and where an id rests.
use order_matching_machine.Prelude.{
  ℕ, ◌≡◌, refl, ap, ◌∙◌, sym, false, List, [], ◌∷◌, ◌++◌, Option, none, some, arith, append_assoc,
  All, ◌⊎◌, inl, inr, ◌==◌, if◌then◌else◌,
}
use order_matching_machine.Prelude.Int.{ℤ}
use order_matching_machine.Orders.{Side, Order}
use order_matching_machine.Book.{PriceLevel, OrderBook, better}

-- The orders of a side, level after level, each queue from its front.
unfoldable pub side_orders : List PriceLevel → List Order
side_orders [] = []
side_orders (l ∷ ls) = l.orders ++ side_orders ls

-- `all_orders`: bids best first, then asks best first.
unfoldable pub all_orders : OrderBook → List Order
all_orders b = side_orders b.bids ++ side_orders b.asks

-- Price-time priority: a newcomer goes behind every order whose price is as good as its own.
unfoldable pub place : Side → Order → List Order → List Order
place s o [] = o ∷ []
place s o (x ∷ xs) = if better s o.price_ticks x.price_ticks then o ∷ x ∷ xs else x ∷ place s o xs

-- Where the first order of an id rests.
unfoldable pub find_loc : ℕ → List Order → Option (Side × ℤ)
find_loc k [] = none
find_loc k (o ∷ os) = if k == o.id then some (o.side, o.price_ticks) else find_loc k os

-- No two orders share an id.
abbrev pub Distinct : List Order → Type 0
Distinct [] = Unit {0}
Distinct (o ∷ os) = (find_loc o.id os ≡ none) × Distinct os

pub side_orders-append :
    (ls ms : List PriceLevel) → side_orders (ls ++ ms) ≡ side_orders ls ++ side_orders ms
unfolding side_orders
side_orders-append [] ms = refl
side_orders-append (l ∷ ls) ms =
    rw (side_orders-append ls ms) (sym (append_assoc l.orders (side_orders ls) (side_orders ms)))

-- A newcomer passes what it does not beat.
pub place-append :
    (s : Side) (o : Order) (xs ys : List Order)
    → All (λ x. better s o.price_ticks x.price_ticks ≡ false) xs
    → place s o (xs ++ ys) ≡ xs ++ place s o ys
unfolding place
place-append s o [] ys h = refl
place-append s o (x ∷ xs) ys h = rw (h.0) (ap (λ l. x ∷ l) (place-append s o xs ys h.1))

abbrev pub first_of : Option (Side × ℤ) → Option (Side × ℤ) → Option (Side × ℤ)
first_of none m = m
first_of (some v) m = some v

pub find_loc-append :
    (k : ℕ) (xs ys : List Order) → find_loc k (xs ++ ys) ≡ first_of (find_loc k xs) (find_loc k ys)
unfolding find_loc
find_loc-append k [] ys = refl
find_loc-append k (x ∷ xs) ys = ground (arith, find_loc-append k xs ys)

-- `order_loc_` beside the two sides it indexes: ids are unique, and each maps to where it rests.
pub record Indexed (m : ℕ → Option (Side × ℤ)) (xs ys : List Order) : Type 0 where
  pub distinct_left : Distinct xs
  pub distinct_right : Distinct ys
  pub apart : (k : ℕ) → (find_loc k xs ≡ none) ⊎ (find_loc k ys ≡ none)
  pub located : (k : ℕ) → m k ≡ first_of (find_loc k xs) (find_loc k ys)

swap_first : (a b : Option (Side × ℤ)) → (a ≡ none) ⊎ (b ≡ none) → first_of a b ≡ first_of b a
swap_first none none h = refl
swap_first none (some w) h = refl
swap_first (some v) none h = refl
swap_first (some v) (some w) h = ground arith

swap_sides {ℓ κ} : {A : Type ℓ} {B : Type κ} → A ⊎ B → B ⊎ A
swap_sides (inl a) = inr a
swap_sides (inr b) = inl b

-- The sides may be exchanged.
pub Indexed-swap :
    (m : ℕ → Option (Side × ℤ)) (xs ys : List Order) → Indexed m xs ys → Indexed m ys xs
Indexed-swap m xs ys x = record {
  distinct_left = x.distinct_right;
  distinct_right = x.distinct_left;
  apart = λ k. swap_sides (x.apart k);
  located = λ k. x.located k ∙ swap_first (find_loc k xs) (find_loc k ys) (x.apart k);
}
