-- ===== src/Book/Market/Sweep.antt =====
-- What a sweep of the priority list is: an aggressive quantity takes orders from the front, as long
-- as they are acceptable, in full or as far as it reaches.
use order_matching_machine.Prelude.{
  ℕ, ◌+◌, ◌-◌, ◌≡◌, refl, min, Bool, true, false, not, ◌||◌, List, [], ◌∷◌, arith, ◌==◌, leb,
  leb→le, Bool-cases, inl, inr, ◌<◌, if◌then◌else◌,
}
use order_matching_machine.Orders.{Order}
use order_matching_machine.Book.Fill.{remainder}
use order_matching_machine.Book.Levels.{quantity_of}

-- The sweep stops at quantity 0 or at an order that is not acceptable.
abbrev pub stops : (Order → Bool) → ℕ → Order → Bool
stops ok q o = q == 0 || not (ok o)

-- The orders filled, each with the quantity taken.
unfoldable pub sweep_fills : (Order → Bool) → ℕ → List Order → List (Order × ℕ)
sweep_fills ok q [] = []
sweep_fills ok q (o ∷ os) =
    let rest = sweep_fills ok (q - min q o.quantity) os in
    if stops ok q o then [] else (o, min q o.quantity) ∷ rest

-- The orders left.
unfoldable pub sweep_rest : (Order → Bool) → ℕ → List Order → List Order
sweep_rest ok q [] = []
sweep_rest ok q (o ∷ os) =
    let rest = sweep_rest ok (q - o.quantity) os in
    if stops ok q o
    then o ∷ os
    else if leb o.quantity q
    then rest
    else record o { quantity = o.quantity - q } ∷ os

-- The quantity left.
unfoldable pub sweep_left : (Order → Bool) → ℕ → List Order → ℕ
sweep_left ok q [] = q
sweep_left ok q (o ∷ os) =
    let rest = sweep_left ok (q - o.quantity) os in if stops ok q o then q else rest

abbrev pub taken : List (Order × ℕ) → ℕ
taken [] = 0
taken ((o, n) ∷ fs) = n + taken fs

-- Every order is acceptable to a market order.
abbrev pub any : Order → Bool
any o = true

module _ (ok : Order → Bool) where
  -- A quantity of 0 takes nothing.
  pub sweep_zero :
      (os : List Order)
      → (sweep_rest ok 0 os ≡ os) × (sweep_left ok 0 os ≡ 0) × (sweep_fills ok 0 os ≡ [])
  unfolding sweep_rest sweep_left sweep_fills
  sweep_zero [] = (refl, refl, refl)
  sweep_zero (o ∷ os) = (refl, refl, refl)

  -- One fill of the front order is the first step of the sweep.
  pub sweep_step :
      (q : ℕ) (o : Order) (os : List Order)
      → stops ok q o ≡ false
      → (sweep_rest ok (q - min q o.quantity) (remainder (min q o.quantity) o os)
          ≡ sweep_rest ok q (o ∷ os))
        × (sweep_left ok (q - min q o.quantity) (remainder (min q o.quantity) o os)
            ≡ sweep_left ok q (o ∷ os))
        × ((o, min q o.quantity)
              ∷ sweep_fills ok (q - min q o.quantity) (remainder (min q o.quantity) o os)
            ≡ sweep_fills ok q (o ∷ os))
  unfolding sweep_rest sweep_left sweep_fills
  sweep_step q o os h = elim (Bool-cases (leb o.quantity q)) [
    | inl fits ↦
        let all : min q o.quantity ≡ o.quantity = omega (arith, leb→le o.quantity q fits) in
        let gone : o.quantity - o.quantity ≡ 0 = omega arith in
        rw (all, gone, h, fits) (refl, refl, refl)
    | inr more ↦
        let less : q < o.quantity = ground arith in
        let part : min q o.quantity ≡ q = omega arith in
        let stop : q - q ≡ 0 = omega arith in
        let spent : q - o.quantity ≡ 0 = omega arith in
        let after = record o { quantity = o.quantity - q } ∷ os in
        ground (arith, part, stop, spent, less, sweep_zero after, sweep_zero os)
  ]

  -- What is taken and what is left make up the quantity.
  pub sweep_fills-add-left :
      (q : ℕ) (os : List Order) → taken (sweep_fills ok q os) + sweep_left ok q os ≡ q
  unfolding sweep_fills sweep_left
  sweep_fills-add-left q [] = omega arith
  sweep_fills-add-left q (o ∷ os) = ground (
    arith,
    sweep_fills-add-left (q - o.quantity) os,
    sweep_fills-add-left (q - min q o.quantity) os,
    sweep_zero os,
  )

  -- What is taken and what rests make up the list.
  pub sweep_fills-add-rest :
      (q : ℕ) (os : List Order)
      → taken (sweep_fills ok q os) + quantity_of (sweep_rest ok q os) ≡ quantity_of os
  unfolding sweep_fills sweep_rest
  sweep_fills-add-rest q [] = omega arith
  sweep_fills-add-rest q (o ∷ os) = ground (
    arith,
    sweep_fills-add-rest (q - o.quantity) os,
    sweep_fills-add-rest (q - min q o.quantity) os,
    sweep_zero os,
  )

-- A market order takes all there is, or all that it wants.
pub sweep_left-any : (q : ℕ) (os : List Order) → sweep_left any q os ≡ q - quantity_of os
unfolding sweep_left
sweep_left-any q [] = omega arith
sweep_left-any q (o ∷ os) = ground (arith, sweep_left-any (q - o.quantity) os)

-- The sweep is over where the list is empty or its front order stops it.
abbrev pub halts : (Order → Bool) → ℕ → List Order → Bool
halts ok q [] = true
halts ok q (o ∷ os) = stops ok q o

pub sweep_halts :
    (ok : Order → Bool) (q : ℕ) (os : List Order)
    → halts ok q os ≡ true
    → (sweep_rest ok q os ≡ os) × (sweep_left ok q os ≡ q) × (sweep_fills ok q os ≡ [])
unfolding sweep_rest sweep_left sweep_fills
sweep_halts ok q [] h = (refl, refl, refl)
sweep_halts ok q (o ∷ os) h = rw h (refl, refl, refl)
