-- ===== src/Thread/Amount.antt =====
-- How much of each id rests in a list of orders, and what the book's operations do to it.
use order_matching_machine.Prelude.{
  ℕ, ◌+◌, ◌-◌, ◌<◌, ◌≡◌, refl, min, Bool, Bool-cases, inl, inr, List, [], ◌∷◌, none, arith, All,
  leb, ◌==◌, if◌then◌else◌,
}
use order_matching_machine.Orders.{Side, bid, ask, Order, Trade}
use order_matching_machine.Book.{better}
use order_matching_machine.Book.Flat.{find_loc, Distinct, place}
use order_matching_machine.Book.Erase.{remove}
use order_matching_machine.Book.Market.Sweep.{stops, sweep_fills, sweep_rest, taken, sweep_zero}
use order_matching_machine.Book.Market.Loop.{prints}
use order_matching_machine.Engine.CrossLoop.{cross_prints}
use order_matching_machine.Engine.Limit.{rested}

abbrev pub amount_at : ℕ → Order → ℕ → ℕ
amount_at k o n = if o.id == k then n else 0

-- The quantity of the orders with an id.
abbrev pub amount : ℕ → List Order → ℕ
amount k [] = 0
amount k (o ∷ os) = amount_at k o o.quantity + amount k os

abbrev pub fills_amount : ℕ → List (Order × ℕ) → ℕ
fills_amount k [] = 0
fills_amount k ((o, n) ∷ fs) = amount_at k o n + fills_amount k fs

-- What an id's orders trade, on either side.
abbrev pub traded : ℕ → List Trade → ℕ
traded k [] = 0
traded k (d ∷ ds) =
    (if d.buyer_id == k then d.quantity else 0)
    + (if d.seller_id == k then d.quantity else 0)
    + traded k ds

abbrev pub IsPositive : Order → Type 0
IsPositive o = 0 < o.quantity

pub amount-place :
    (k : ℕ) (s : Side) (o : Order) (xs : List Order)
    → amount k (place s o xs) ≡ amount_at k o o.quantity + amount k xs
unfolding place
amount-place k s o [] = refl
amount-place k s o (x ∷ xs) = elim (Bool-cases (better s o.price_ticks x.price_ticks)) [
  | inl e ↦ rw e refl
  | inr e ↦ rw e (omega (arith, amount-place k s o xs))
]

pub place-IsPositive :
    (s : Side) (o : Order) (xs : List Order)
    → IsPositive o
    → All IsPositive xs
    → All IsPositive (place s o xs)
unfolding place
place-IsPositive s o [] p h = (p, tt)
place-IsPositive s o (x ∷ xs) p h = elim (Bool-cases (better s o.price_ticks x.price_ticks)) [
  | inl e ↦ rw e (p, h)
  | inr e ↦ rw e (h.0, place-IsPositive s o xs p h.1)
]

pub amount-none : (k : ℕ) (xs : List Order) → find_loc k xs ≡ none → amount k xs ≡ 0
unfolding find_loc
amount-none k [] h = refl
amount-none k (x ∷ xs) h = ground (arith, amount-none k xs)

-- Where every order has a quantity, an id of which nothing rests does not rest.
pub find_loc-amount :
    (k : ℕ) (xs : List Order) → All IsPositive xs → amount k xs ≡ 0 → find_loc k xs ≡ none
unfolding find_loc
find_loc-amount k [] p h = refl
find_loc-amount k (x ∷ xs) p h = ground (arith, find_loc-amount k xs p.1, p.0)

pub amount-remove :
    (k id : ℕ) (xs : List Order)
    → Distinct xs
    → amount k (remove id xs) ≡ (if k == id then 0 else amount k xs)
unfolding remove
amount-remove k id [] d = ground arith
amount-remove k id (x ∷ xs) d = elim (Bool-cases (x.id == id)) [
  | inl e ↦
      let same : x.id ≡ id = ground arith in
      rw e (ground (arith, same, amount-none id xs (rw same at d.0)))
  | inr e ↦ rw e (ground (arith, amount-remove k id xs d.1))
]

pub remove-IsPositive :
    (id : ℕ) (xs : List Order) → All IsPositive xs → All IsPositive (remove id xs)
unfolding remove
remove-IsPositive id [] h = tt
remove-IsPositive id (x ∷ xs) h = elim (Bool-cases (x.id == id)) [
  | inl e ↦ rw e h.1
  | inr e ↦ rw e (h.0, remove-IsPositive id xs h.1)
]

module _ (ok : Order → Bool) where
  -- A sweep takes from each id what it fills of it.
  pub amount-sweep :
      (k q : ℕ) (xs : List Order)
      → fills_amount k (sweep_fills ok q xs) + amount k (sweep_rest ok q xs) ≡ amount k xs
  unfolding sweep_fills sweep_rest
  amount-sweep k q [] = refl
  amount-sweep k q (x ∷ xs) = elim (Bool-cases (stops ok q x)) [
    | inl e ↦ rw e (omega arith)
    | inr e ↦ elim (Bool-cases (leb x.quantity q)) [
      | inl f ↦
          let all : min q x.quantity ≡ x.quantity = ground arith in
          rw (e, f, all) (omega (arith, amount-sweep k (q - x.quantity) xs))
      | inr f ↦
          let part : min q x.quantity ≡ q = ground arith in
          let spent : q - q ≡ 0 = omega arith in
          let stop = sweep_zero ok xs in
          let more : q < x.quantity = ground arith in
          rw (e, f, part, spent, stop.2) (ground (arith, more))
    ]
  ]

  pub sweep_rest-IsPositive :
      (q : ℕ) (xs : List Order) → All IsPositive xs → All IsPositive (sweep_rest ok q xs)
  unfolding sweep_rest
  sweep_rest-IsPositive q [] h = tt
  sweep_rest-IsPositive q (x ∷ xs) h = elim (Bool-cases (stops ok q x)) [
    | inl e ↦ rw e h
    | inr e ↦ elim (Bool-cases (leb x.quantity q)) [
      | inl f ↦ rw (e, f) (sweep_rest-IsPositive (q - x.quantity) xs h.1)
      | inr f ↦ let left : 0 < x.quantity - q = ground arith in rw (e, f) (left, h.1)
    ]
  ]

-- A print books each fill on both orders.
pub traded-cross_prints :
    (k : ℕ) (s : Side) (o : Order) (fs : List (Order × ℕ))
    → traded k (cross_prints s o fs) ≡ fills_amount k fs + amount_at k o (taken fs)
traded-cross_prints k s o [] = ground arith
traded-cross_prints k bid o ((x, n) ∷ fs) = ground (arith, traded-cross_prints k bid o fs)
traded-cross_prints k ask o ((x, n) ∷ fs) = ground (arith, traded-cross_prints k ask o fs)

pub traded-prints :
    (k : ℕ) (s : Side) (id ts : ℕ) (fs : List (Order × ℕ))
    → traded k (prints s id ts fs) ≡ fills_amount k fs + (if id == k then taken fs else 0)
traded-prints k s id ts [] = ground arith
traded-prints k bid id ts ((x, n) ∷ fs) = ground (arith, traded-prints k bid id ts fs)
traded-prints k ask id ts ((x, n) ∷ fs) = ground (arith, traded-prints k ask id ts fs)

pub amount-rested :
    (k : ℕ) (s : Side) (o : Order) (n : ℕ) (xs : List Order)
    → amount k (rested s o n xs) ≡ amount_at k o n + amount k xs
amount-rested k s o n xs = elim (Bool-cases (n == 0)) [
  | inl e ↦ let nothing : n ≡ 0 = ground arith in rw e (ground (arith, nothing))
  | inr e ↦ rw e (amount-place k s (record o { quantity = n }) xs)
]

pub rested-IsPositive :
    (s : Side) (o : Order) (n : ℕ) (xs : List Order)
    → All IsPositive xs
    → All IsPositive (rested s o n xs)
rested-IsPositive s o n xs h = elim (Bool-cases (n == 0)) [
  | inl e ↦ rw e h
  | inr e ↦ rw e (place-IsPositive s (record o { quantity = n }) xs (ground arith) h)
]
