-- ===== src/Engine/CrossLoop.antt =====
-- What the crossing loop does to the two priority lists: the sweep of the other side, as far as the
-- incoming order's limit accepts its prices.
use order_matching_machine.Prelude.{
  ℕ, ◌-◌, ◌≤◌, ◌<◌, ◌^◌, min, ◌≡◌, refl, ap, ◌∙◌, sym, true, false, List, [], ◌∷◌, ◌++◌, arith, All,
  append-nil, append_assoc, Bool-cases, inl, inr, ◌==◌, if◌then◌else◌,
}
use order_matching_machine.Prelude.Words.{sub32}
use order_matching_machine.Orders.{Side, bid, ask, Order, Trade}
use order_matching_machine.Book.{OrderBook, is_crossed}
use order_matching_machine.Book.Fill.{remainder}
use order_matching_machine.Book.Valid.{IsValid}
use order_matching_machine.Book.Market.Sweep.{
  stops, sweep_rest, sweep_left, sweep_fills, sweep_zero, sweep_step, halts, sweep_halts,
}
use order_matching_machine.Engine.{CrossState, record_trade}
use order_matching_machine.Engine.CrossStep.{
  own, opp, crosses, cross_trade, heads_cross, is_crossed-heads,
}

-- The prints of an incoming order's fills.
abbrev pub cross_prints : Side → Order → List (Order × ℕ) → List Trade
cross_prints s o [] = []
cross_prints s o ((x, n) ∷ fs) = record (cross_trade s o x) { quantity = n } ∷ cross_prints s o fs

-- What rests of the incoming order, in front of its side.
abbrev pub resting : Order → ℕ → List Order → List Order
resting o n rest = if n == 0 then rest else record o { quantity = n } ∷ rest

-- The best of the own side's other orders meets nothing on the other side.
abbrev pub NoMeet : Side → List Order → List Order → Type 0
NoMeet s [] xs = Unit {0}
NoMeet s (r ∷ rs) xs = All (λ x. crosses s r x ≡ false) xs

pub NoMeet-heads :
    (s : Side) (rest xs : List Order) → NoMeet s rest xs → heads_cross s rest xs ≡ false
NoMeet-heads s [] xs h = refl
NoMeet-heads s (r ∷ rest) [] h = refl
NoMeet-heads s (r ∷ rest) (x ∷ xs) h = h.0

pub NoMeet-tail :
    (s : Side) (rest : List Order) (x : Order) (xs : List Order)
    → NoMeet s rest (x ∷ xs)
    → NoMeet s rest xs
NoMeet-tail s [] x xs h = tt
NoMeet-tail s (r ∷ rest) x xs h = h.1

pub NoMeet-reduced :
    (s : Side) (rest : List Order) (x : Order) (n : ℕ) (xs : List Order)
    → NoMeet s rest (x ∷ xs)
    → NoMeet s rest (record x { quantity = n } ∷ xs)
NoMeet-reduced s [] x n xs h = tt
NoMeet-reduced bid (r ∷ rest) x n xs h = h
NoMeet-reduced ask (r ∷ rest) x n xs h = h

pub NoMeet-remainder :
    (s : Side) (rest : List Order) (n : ℕ) (x : Order) (xs : List Order)
    → NoMeet s rest (x ∷ xs)
    → NoMeet s rest (remainder n x xs)
NoMeet-remainder s rest n x xs h = elim (Bool-cases ((x.quantity - n) == 0)) [
  | inl e ↦ rw e (NoMeet-tail s rest x xs h)
  | inr e ↦ rw e (NoMeet-reduced s rest x (x.quantity - n) xs h)
]

module _ (s : Side) (o : Order) (rest : List Order) where
  -- The loop's end: the other side is swept up to the limit, and the book is not crossed.
  pub record Swept (xs : List Order) (st out : CrossState) : Type 0 where
    pub valid : IsValid out.book
    pub opp_left : opp s out.book ≡ sweep_rest (crosses s o) st.remaining xs
    pub left : out.remaining ≡ sweep_left (crosses s o) st.remaining xs
    pub own_left : own s out.book ≡ resting o (sweep_left (crosses s o) st.remaining xs) rest
    pub printed :
        out.trade_log ≡ st.trade_log ++ cross_prints s o (sweep_fills (crosses s o) st.remaining xs)
    pub uncrossed : is_crossed out.book ≡ false

  -- Where the loop stands: the incoming order is the best of its side, with what is left of it.
  pub record Ready (xs : List Order) (st : CrossState) : Type 0 where
    pub valid : IsValid st.book
    pub own_now : own s st.book ≡ record o { quantity = st.remaining } ∷ rest
    pub opp_now : opp s st.book ≡ xs
    pub word : st.remaining < 2 ^ 32
    pub apart : NoMeet s rest xs

  -- The loop stops where the sweep does.
  pub stop_here :
      (xs : List Order) (st : CrossState)
      → Ready xs st
      → (st.remaining == 0) ≡ false
      → halts (crosses s o) st.remaining xs ≡ true
      → is_crossed st.book ≡ false
      → Swept xs st st
  stop_here xs st r pos h c =
      let z = sweep_halts (crosses s o) st.remaining xs h in
      record {
        valid = r.valid;
        opp_left = rw (z.0) r.opp_now;
        left = sym z.1;
        own_left = rw (z.1, pos) r.own_now;
        printed = rw (z.2) (sym (append-nil st.trade_log));
        uncrossed = c;
      }

  -- The state after a match with `x`.
  abbrev pub next : CrossState → Order → OrderBook → CrossState
  next st x b = record {
    book = b;
    trade_log =
        st.trade_log ++ record (cross_trade s o x) { quantity = min st.remaining x.quantity } ∷ [];
    remaining = st.remaining - min st.remaining x.quantity;
  }

  -- A match and the sweep of what it leaves are the sweep.
  pub Swept-step :
      (x : Order) (xs : List Order) (st out : CrossState) (b : OrderBook)
      → stops (crosses s o) st.remaining x ≡ false
      → Swept (remainder (min st.remaining x.quantity) x xs) (next st x b) out
      → Swept (x ∷ xs) st out
  Swept-step x xs st out b h w =
      let z = sweep_step (crosses s o) st.remaining x xs h in
      record {
        valid = w.valid;
        opp_left = w.opp_left ∙ z.0;
        left = w.left ∙ z.1;
        own_left = w.own_left ∙ ap (λ n. resting o n rest) z.1;
        printed =
            w.printed
            ∙ append_assoc st.trade_log (_ ∷ []) _
            ∙ ap (λ fs. st.trade_log ++ cross_prints s o fs) z.2;
        uncrossed = w.uncrossed;
      }

  -- The incoming order is used up: the loop ends with its next test.
  pub used_up :
      (xs : List Order) (st : CrossState)
      → IsValid st.book
      → st.remaining ≡ 0
      → own s st.book ≡ rest
      → opp s st.book ≡ xs
      → NoMeet s rest xs
      → Swept xs st st
  used_up xs st v z e f a =
      let y = sweep_zero (crosses s o) xs in
      record {
        valid = v;
        opp_left = rw (z, y.0) f;
        left = rw (z, y.1) refl;
        own_left = rw (z, y.1) e;
        printed = rw (z, y.2) (sym (append-nil st.trade_log));
        uncrossed = is_crossed-heads s st.book v ∙ rw (e, f) (NoMeet-heads s rest xs a);
      }

pub crosses-quantity :
    (s : Side) (o x : Order) (n : ℕ) → crosses s (record o { quantity = n }) x ≡ crosses s o x
crosses-quantity bid o x n = refl
crosses-quantity ask o x n = refl

sub32_exact : (q n : ℕ) → q < 2 ^ 32 → n ≤ q → sub32 q n ≡ q - n
sub32_exact q n h k = omega arith

-- The match's trade carries the incoming id, so `remaining` goes down by its quantity.
pub record_trade-next :
    (s : Side) (o x : Order) (rest : List Order) (st : CrossState) (b : OrderBook)
    → st.remaining < 2 ^ 32
    → record_trade o.id st (cross_trade s (record o { quantity = st.remaining }) x) b
      ≡ next s o rest st x b
record_trade-next bid o x rest st b h =
    ground (arith, sub32_exact st.remaining (min st.remaining x.quantity) h)
record_trade-next ask o x rest st b h =
    let same : min x.quantity st.remaining ≡ min st.remaining x.quantity = omega arith in
    rw same (ground (arith, sub32_exact st.remaining (min st.remaining x.quantity) h))
