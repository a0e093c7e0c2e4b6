-- ===== src/Book/Levels.antt =====
-- What a side of the book keeps: levels strictly in price order, none of them empty, each with its
-- cached total in step with its queue. The lemmas cut a side at `lower_bound` and put it together.
use order_matching_machine.Prelude.{
  ℕ, ◌+◌, ◌%◌, ◌^◌, ◌≡◌, refl, inl, inr, true, false, List, [], ◌∷◌, ◌++◌, arith, All, All-append,
  All-append_left, All-append_right, Bool-cases, is_empty,
}
use order_matching_machine.Prelude.Int.{ℤ, eqb_ℤ}
use order_matching_machine.Orders.{Side, bid, ask, Order}
use order_matching_machine.Book.{PriceLevel, better, lower_bound}

-- The quantity of a queue, exact (no wrap).
abbrev pub quantity_of : List Order → ℕ
quantity_of [] = 0
quantity_of (o ∷ os) = o.quantity + quantity_of os

abbrev pub Belongs : Side → ℤ → Order → Type 0
Belongs s p o = (o.price_ticks ≡ p) × (o.side ≡ s)

-- A level holds an order at least, all of its price and side; `total_qty` is their sum, wrapped as
-- `std::uint64_t` wraps it.
pub record IsLevel (s : Side) (l : PriceLevel) : Type 0 where
  pub nonempty : is_empty l.orders ≡ false
  pub total : l.total_qty ≡ quantity_of l.orders % 2 ^ 64
  pub belong : All (Belongs s l.price_ticks) l.orders

abbrev pub Behind : Side → ℤ → List PriceLevel → Type 0
Behind s p = All (λ l. better s p l.price_ticks ≡ true)

abbrev pub IsSide : Side → List PriceLevel → Type 0
IsSide s [] = Unit {0}
IsSide s (l ∷ ls) = IsLevel s l × Behind s l.price_ticks ls × IsSide s ls

pub better_trans :
    (s : Side) (a b c : ℤ) → better s a b ≡ true → better s b c ≡ true → better s a c ≡ true
better_trans bid a b c h k = ground arith
better_trans ask a b c h k = ground arith

-- Of two prices one is better, or they are equal.
pub better_total :
    (s : Side) (a b : ℤ) → better s a b ≡ false → eqb_ℤ a b ≡ false → better s b a ≡ true
better_total bid a b h k = ground arith
better_total ask a b h k = ground arith

pub Behind-trans :
    (s : Side) (a b : ℤ) (ls : List PriceLevel)
    → better s a b ≡ true
    → Behind s b ls
    → Behind s a ls
Behind-trans s a b [] h k = tt
Behind-trans s a b (l ∷ ls) h k =
    (better_trans s a b l.price_ticks h k.0, Behind-trans s a b ls h k.1)

-- The two parts of `lower_bound` make up the side.
pub lower_bound-append :
    (s : Side) (p : ℤ) (ls : List PriceLevel)
    → (lower_bound s p ls).0 ++ (lower_bound s p ls).1 ≡ ls
unfolding lower_bound
lower_bound-append s p [] = refl
lower_bound-append s p (l ∷ ls) = ground (arith, lower_bound-append s p ls)

-- Every level before the iterator is better than the price searched for, and the one at it is not.
pub lower_bound-before :
    (s : Side) (p : ℤ) (ls : List PriceLevel)
    → All (λ l. better s l.price_ticks p ≡ true) (lower_bound s p ls).0
unfolding lower_bound
lower_bound-before s p [] = tt
lower_bound-before s p (l ∷ ls) = ground (arith, lower_bound-before s p ls)

abbrev pub StartsAt : Side → ℤ → List PriceLevel → Type 0
StartsAt s p [] = Unit {0}
StartsAt s p (l ∷ ls) = better s l.price_ticks p ≡ false

pub lower_bound-after :
    (s : Side) (p : ℤ) (ls : List PriceLevel) → StartsAt s p (lower_bound s p ls).1
unfolding lower_bound
lower_bound-after s p [] = tt
lower_bound-after s p (l ∷ ls) = elim (Bool-cases (better s l.price_ticks p)) [
  | inl h ↦ rw h (lower_bound-after s p ls)
  | inr h ↦ rw h h
]

pub lower_bound-better :
    (s : Side) (p : ℤ) (l : PriceLevel) (ls : List PriceLevel)
    → better s l.price_ticks p ≡ true
    → lower_bound s p (l ∷ ls) ≡ (l ∷ (lower_bound s p ls).0, (lower_bound s p ls).1)
unfolding lower_bound
lower_bound-better s p l ls h = rw h refl

pub lower_bound-stop :
    (s : Side) (p : ℤ) (l : PriceLevel) (ls : List PriceLevel)
    → better s l.price_ticks p ≡ false
    → lower_bound s p (l ∷ ls) ≡ ([], l ∷ ls)
unfolding lower_bound
lower_bound-stop s p l ls h = rw h refl

-- What stands behind a cut is a side.
pub IsSide-append_right :
    (s : Side) (pre post : List PriceLevel) → IsSide s (pre ++ post) → IsSide s post
IsSide-append_right s [] post h = h
IsSide-append_right s (l ∷ pre) post h = IsSide-append_right s pre post h.2

-- Another tail may be put behind a cut, if every price before the cut is better than its prices.
pub IsSide-splice :
    (s : Side) (pre post post' : List PriceLevel)
    → IsSide s (pre ++ post)
    → IsSide s post'
    → All (λ l. Behind s l.price_ticks post') pre
    → IsSide s (pre ++ post')
IsSide-splice s [] post post' h k b = k
IsSide-splice s (l ∷ pre) post post' h k b = (
  h.0,
  All-append _ pre post' (All-append_left _ pre post h.1) b.0,
  IsSide-splice s pre post post' h.2 k b.1,
)

-- So it is where the new tail starts no better than a price that the cut was made at.
pub Behind_of_cut :
    (s : Side) (p : ℤ) (pre post : List PriceLevel)
    → All (λ l. better s l.price_ticks p ≡ true) pre
    → Behind s p post
    → All (λ l. Behind s l.price_ticks post) pre
Behind_of_cut s p [] post h k = tt
Behind_of_cut s p (l ∷ pre) post h k =
    (Behind-trans s l.price_ticks p post h.0 k, Behind_of_cut s p pre post h.1 k)

pub Behind_of_append :
    (s : Side) (pre post : List PriceLevel)
    → IsSide s (pre ++ post)
    → All (λ l. Behind s l.price_ticks post) pre
Behind_of_append s [] post h = tt
Behind_of_append s (l ∷ pre) post h =
    (All-append_right _ pre post h.1, Behind_of_append s pre post h.2)
