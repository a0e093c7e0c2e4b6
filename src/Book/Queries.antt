-- ===== src/Book/Queries.antt =====
-- The observers of src/order_book.cpp: best prices, depth, the consistency check and the digest.
use order_matching_machine.Prelude.{
  ℕ, zero, suc, ◌+◌, ◌*◌, ◌/◌, ◌%◌, ◌^◌, ◌<◌, bit_xor, ◌≡◌, refl, ◌⊎◌, inl, inr, ap, sym, ◌≢◌,
  Bool-cases, Bool, true, false, not, ◌&&◌, List, [], ◌∷◌, Option, none, some, arith, All,
  All-append, length, is_empty, take, map, ◌==◌, ==_iff,
}
use order_matching_machine.Prelude.Int.{ℤ}
use order_matching_machine.Prelude.Words.{add64, bits_of}
use order_matching_machine.Orders.{Side, bid, ask, Order}
use order_matching_machine.Book.{PriceLevel, OrderBook, better}
use order_matching_machine.Book.Levels.{quantity_of, Belongs, Behind, IsSide}
use order_matching_machine.Book.Flat.{side_orders}
use order_matching_machine.Book.Cross.{front_price}

-- `best_bid_ticks` and `best_ask_ticks`; `none` is their `false`.
unfoldable pub best_ticks : List PriceLevel → Option ℤ
best_ticks [] = none
best_ticks (l ∷ ls) = some l.price_ticks

-- `bid_levels_ticks` and `ask_levels_ticks`.
unfoldable pub levels_ticks : ℕ → List PriceLevel → List (ℤ × ℕ)
levels_ticks max_levels ls =
    map (λ (l : PriceLevel). (l.price_ticks, l.total_qty)) (take max_levels ls)

-- The sum of a queue's quantities in a `std::uint64_t`, from the front on.
unfoldable pub sum_quantity : ℕ → List Order → ℕ
sum_quantity sum [] = sum
sum_quantity sum (o ∷ os) = sum_quantity (add64 sum o.quantity) os

abbrev pub level_consistent : PriceLevel → Bool
level_consistent l = sum_quantity 0 l.orders == l.total_qty && not (is_empty l.orders)

unfoldable pub side_consistent : List PriceLevel → Bool
side_consistent [] = true
side_consistent (l ∷ ls) = level_consistent l && side_consistent ls

unfoldable pub levels_consistent : OrderBook → Bool
levels_consistent b = side_consistent b.bids && side_consistent b.asks

abbrev pub fnv_offset : ℕ
fnv_offset = 1469598103934665603

abbrev pub fnv_prime : ℕ
fnv_prime = 1099511628211

-- `mix`: the eight bytes of `v`, lowest first.
unfoldable pub mix_bytes : ℕ → ℕ → ℕ → ℕ
mix_bytes zero v h = h
mix_bytes (suc n) v h = mix_bytes n (v / 256) (bit_xor h (v % 256) * fnv_prime % 2 ^ 64)

unfoldable pub mix : ℕ → ℕ → ℕ
unfolding mix_bytes
mix h v = mix_bytes 8 v h

unfoldable pub mix_levels : ℕ → List PriceLevel → ℕ
mix_levels h [] = h
mix_levels h (l ∷ ls) =
    mix_levels (mix (mix (mix h (bits_of l.price_ticks)) l.total_qty) (length l.orders)) ls

unfoldable pub mix_side : ℕ → ℕ → List PriceLevel → ℕ
mix_side tag h ls = mix_levels (mix (mix h tag) (length ls)) ls

unfoldable pub digest : OrderBook → ℕ
digest b = mix_side 2 (mix_side 1 fnv_offset b.bids) b.asks

sum_quantity-mod :
    (n : ℕ) (os : List Order) → n < 2 ^ 64 → sum_quantity n os ≡ (n + quantity_of os) % 2 ^ 64
unfolding sum_quantity
sum_quantity-mod n [] h = omega arith
sum_quantity-mod n (o ∷ os) h =
    omega (arith, sum_quantity-mod (add64 n o.quantity) os (omega arith))

-- A level's cached total is the sum of its queue, wrapped as `std::uint64_t` wraps it, and it holds
-- an order at least.
abbrev pub InStep : PriceLevel → Type 0
InStep l = (l.total_qty ≡ quantity_of l.orders % 2 ^ 64) × (l.orders ≢ [])

-- A test that answers true exactly where `P` holds.
abbrev pub Tells : Bool → Type 0 → Type 0
Tells t P = ((t ≡ true) × P) ⊎ ((t ≡ false) × (¬ P))

Tells-and : (t u : Bool) {P Q : Type 0} → Tells t P → Tells u Q → Tells (t && u) (P × Q)
Tells-and t u (inl (e, p)) (inl (f, q)) = inl (rw (e, f) refl, (p, q))
Tells-and t u (inl (e, p)) (inr (f, q)) = inr (rw (e, f) refl, λ b. q b.1)
Tells-and t u (inr (e, p)) h = inr (rw e refl, λ b. p b.0)

nonempty-Tells : (os : List Order) → Tells (not (is_empty os)) (os ≢ [])
nonempty-Tells [] = inr (refl, λ n. n refl)
nonempty-Tells (o ∷ os) = inl (refl, λ e. cc)

sum-Tells :
    (l : PriceLevel)
    → Tells (sum_quantity 0 l.orders == l.total_qty) (l.total_qty ≡ quantity_of l.orders % 2 ^ 64)
sum-Tells l =
    let sum = sum_quantity-mod 0 l.orders (omega arith) in
    elim (Bool-cases (sum_quantity 0 l.orders == l.total_qty)) [
      | inl e ↦ inl (e, omega (arith, (==_iff _ _).0 e, sum))
      | inr e ↦ inr (e, λ n. ground (arith, sum))
    ]

side_consistent-Tells : (ls : List PriceLevel) → Tells (side_consistent ls) (All InStep ls)
unfolding side_consistent
side_consistent-Tells [] = inl (refl, tt)
side_consistent-Tells (l ∷ ls) =
    Tells-and (level_consistent l) (side_consistent ls)
      (Tells-and _ _ (sum-Tells l) (nonempty-Tells l.orders)) (side_consistent-Tells ls)

-- On any book, valid or not, `levels_consistent` returns true where every level of both sides has the
-- sum of its queue, wrapped at 2 ^ 64, as its cached total and holds an order at least, and false
-- where some level does not.
pub levels_consistent_lem :
    (b : OrderBook)
    → ((levels_consistent b ≡ true) × (All InStep b.bids × All InStep b.asks))
      ⊎ ((levels_consistent b ≡ false) × (¬ (All InStep b.bids × All InStep b.asks)))
unfolding levels_consistent
levels_consistent_lem b =
    Tells-and (side_consistent b.bids) (side_consistent b.asks) (side_consistent-Tells b.bids)
      (side_consistent-Tells b.asks)

-- No order of the list has a better price.
abbrev pub NoneBetter : Side → ℤ → List Order → Type 0
NoneBetter s p = All (λ o. better s o.price_ticks p ≡ false)

not_better_self : (s : Side) (p : ℤ) → better s p p ≡ false
not_better_self bid p = ground arith
not_better_self ask p = ground arith

not_better_behind : (s : Side) (p q : ℤ) → better s p q ≡ true → better s q p ≡ false
not_better_behind bid p q h = ground arith
not_better_behind ask p q h = ground arith

queue-NoneBetter :
    (s : Side) (p q : ℤ) (os : List Order)
    → All (Belongs s q) os
    → better s q p ≡ false
    → NoneBetter s p os
queue-NoneBetter s p q [] b h = tt
queue-NoneBetter s p q (o ∷ os) b h = (rw (b.0.0) h, queue-NoneBetter s p q os b.1 h)

behind-NoneBetter :
    (s : Side) (p : ℤ) (ls : List PriceLevel)
    → IsSide s ls
    → Behind s p ls
    → NoneBetter s p (side_orders ls)
unfolding side_orders
behind-NoneBetter s p [] v b = tt
behind-NoneBetter s p (l ∷ ls) v b =
    All-append _ l.orders (side_orders ls)
      (queue-NoneBetter s p l.price_ticks l.orders v.0.belong
        (not_better_behind s p l.price_ticks b.0))
      (behind-NoneBetter s p ls v.2 b.1)

level-NoneBetter :
    (s : Side) (l : PriceLevel) (ls : List PriceLevel)
    → IsSide s (l ∷ ls)
    → NoneBetter s l.price_ticks (side_orders (l ∷ ls))
unfolding side_orders
level-NoneBetter s l ls v =
    All-append _ l.orders (side_orders ls)
      (queue-NoneBetter s l.price_ticks l.price_ticks l.orders v.0.belong
        (not_better_self s l.price_ticks))
      (behind-NoneBetter s l.price_ticks ls v.2 v.1)

-- The best price of a side of a valid book: where there is one, it is the price of the order that is
-- first in priority, and no order of the side has a better one; where there is none, nothing rests on
-- that side.
pub best_ticks_lem :
    (s : Side) (ls : List PriceLevel)
    → IsSide s ls
    → ((best_ticks ls ≡ none) × (side_orders ls ≡ []))
      ⊎ ((o : Order) × (os : List Order) × (side_orders ls ≡ o ∷ os)
          × (best_ticks ls ≡ some o.price_ticks)
          × NoneBetter s o.price_ticks (side_orders ls))
unfolding best_ticks
best_ticks_lem s [] v = inl (refl, unfold side_orders in refl)
best_ticks_lem s (l ∷ ls) v =
    let (o, os, e, p) = front_price s l ls v in
    inr (o, os, e, ap some (sym p), rw p (level-NoneBetter s l ls v))
