-- ===== src/Thread/Ranked.antt =====
-- A side's priority list, order by order: each order stands where it would be placed, and its id is new.
use order_matching_machine.Prelude.{
  ℕ, ◌+◌, ◌≡◌, refl, ap, subst, ◌∙◌, sym, true, false, Bool-cases, inl, inr, List, [], ◌∷◌, ◌++◌,
  none, arith, All, All-append, map, append_assoc, append-nil, ◌==◌, ◌⊎◌,
}
use order_matching_machine.Prelude.Int.{ℤ}
use order_matching_machine.Orders.{Side, bid, ask, limit, Order}
use order_matching_machine.Book.{PriceLevel, better}
use order_matching_machine.Book.Levels.{Belongs, IsSide, Behind}
use order_matching_machine.Book.Flat.{side_orders, find_loc, Distinct}
use order_matching_machine.Thread.Amount.{amount, IsPositive}

-- No order of the list is worse than the price.
abbrev pub NotWorse : Side → ℤ → List Order → Type 0
NotWorse s p = All (λ x. better s p x.price_ticks ≡ false)

-- The second list can be placed behind the first, one order after the other.
abbrev pub Follows : Side → List Order → List Order → Type 0
Follows s us [] = Unit {0}
Follows s us (o ∷ os) = NotWorse s o.price_ticks us × Follows s (us ++ o ∷ []) os

better_irrefl : (s : Side) (p : ℤ) → better s p p ≡ false
better_irrefl bid p = ground arith
better_irrefl ask p = ground arith

better_asym : (s : Side) (p q : ℤ) → better s p q ≡ true → better s q p ≡ false
better_asym bid p q h = ground arith
better_asym ask p q h = ground arith

Follows-level :
    (s : Side) (p : ℤ) (us q rest : List Order)
    → All (Belongs s p) q
    → NotWorse s p us
    → Follows s (us ++ q) rest
    → Follows s us (q ++ rest)
Follows-level s p us [] rest b n f = subst (λ l. Follows s l rest) (append-nil us) f
Follows-level s p us (o ∷ q) rest b n f =
    let price : o.price_ticks ≡ p = b.0.0 in
    let here : NotWorse s p (us ++ o ∷ []) =
      All-append _ us (o ∷ []) n (ap (better s p) price ∙ better_irrefl s p, tt) in
    (
      subst (λ r. NotWorse s r us) (sym price) n,
      Follows-level s p (us ++ o ∷ []) q rest b.1 here
          (subst (λ l. Follows s l rest) (sym (append_assoc us (o ∷ []) q)) f),
    )

worse_level :
    (s : Side) (p q : ℤ) (os : List Order)
    → All (Belongs s p) os
    → better s p q ≡ true
    → NotWorse s q os
worse_level s p q [] b h = tt
worse_level s p q (o ∷ os) b h =
    (ap (better s q) b.0.0 ∙ better_asym s p q h, worse_level s p q os b.1 h)

-- The orders so far against the levels to come.
abbrev Clear : Side → List Order → List PriceLevel → Type 0
Clear s us = All (λ l. NotWorse s l.price_ticks us)

Clear-level :
    (s : Side) (us : List Order) (p : ℤ) (os : List Order) (ls : List PriceLevel)
    → All (Belongs s p) os
    → Behind s p ls
    → Clear s us ls
    → Clear s (us ++ os) ls
Clear-level s us p os [] b h c = tt
Clear-level s us p os (l ∷ ls) b h c = (
  All-append _ us os c.0 (worse_level s p l.price_ticks os b h.0),
  Clear-level s us p os ls b h.1 c.1,
)

Follows-levels :
    (s : Side) (us : List Order) (ls : List PriceLevel)
    → IsSide s ls
    → Clear s us ls
    → Follows s us (side_orders ls)
unfolding side_orders
Follows-levels s us [] v c = tt
Follows-levels s us (l ∷ ls) v c =
    Follows-level s l.price_ticks us l.orders (side_orders ls) v.0.belong c.0 (
      Follows-levels s (us ++ l.orders) ls v.2
        (Clear-level s us l.price_ticks l.orders ls v.0.belong v.1 c.1))

nothing_before : (s : Side) (ls : List PriceLevel) → Clear s [] ls
nothing_before s [] = tt
nothing_before s (l ∷ ls) = (tt, nothing_before s ls)

pub Follows-side : (s : Side) (ls : List PriceLevel) → IsSide s ls → Follows s [] (side_orders ls)
Follows-side s ls v = Follows-levels s [] ls v (nothing_before s ls)

-- No id of the third list is in the first two, nor twice in it.
abbrev pub Fresh : List Order → List Order → List Order → Type 0
Fresh us vs [] = Unit {0}
Fresh us vs (o ∷ os) = (amount o.id us + amount o.id vs ≡ 0) × Fresh (us ++ o ∷ []) vs os

pub amount-append : (k : ℕ) (us vs : List Order) → amount k (us ++ vs) ≡ amount k us + amount k vs
amount-append k [] vs = omega arith
amount-append k (u ∷ us) vs = omega (arith, amount-append k us vs)

pub Fresh-Distinct :
    (us vs os : List Order)
    → Distinct os
    → ((k : ℕ) → (find_loc k os ≡ none) ⊎ (amount k us + amount k vs ≡ 0))
    → Fresh us vs os
unfolding find_loc
Fresh-Distinct us vs [] d h = tt
Fresh-Distinct us vs (o ∷ os) d h = (
  ground (arith, h o.id),
  Fresh-Distinct (us ++ o ∷ []) vs os d.1 (λ k. elim (Bool-cases (k == o.id)) [
    | inl e ↦ let same : k ≡ o.id = ground arith in inl (rw same d.0)
    | inr e ↦ elim (h k) [
      | inl n ↦ inl (rw e at n)
      | inr n ↦ inr (ground (arith, amount-append k us (o ∷ []), n))
    ]
  ]),
)

-- Every side of a book holds orders of that side.
pub All-side :
    (s : Side) (ls : List PriceLevel) → IsSide s ls → All (λ o. o.side ≡ s) (side_orders ls)
unfolding side_orders
All-side s [] v = tt
All-side s (l ∷ ls) v =
    All-append _ l.orders (side_orders ls) (of_level l.orders v.0.belong) (All-side s ls v.2)
  where
    of_level : (os : List Order) → All (Belongs s l.price_ticks) os → All (λ o. o.side ≡ s) os
    of_level [] b = tt
    of_level (o ∷ os) b = (b.0.1, of_level os b.1)

-- A limit order with the rest as it is.
abbrev pub as_limit : Order → Order
as_limit o = record o { order_type = limit }

pub amount-as_limit : (k : ℕ) (os : List Order) → amount k (map as_limit os) ≡ amount k os
amount-as_limit k [] = refl
amount-as_limit k (o ∷ os) = omega (arith, amount-as_limit k os)

pub as_limit-IsPositive : (os : List Order) → All IsPositive os → All IsPositive (map as_limit os)
as_limit-IsPositive [] h = tt
as_limit-IsPositive (o ∷ os) h = (h.0, as_limit-IsPositive os h.1)

pub as_limit-NotWorse :
    (s : Side) (p : ℤ) (os : List Order) → NotWorse s p os → NotWorse s p (map as_limit os)
as_limit-NotWorse s p [] h = tt
as_limit-NotWorse s p (o ∷ os) h = (h.0, as_limit-NotWorse s p os h.1)
