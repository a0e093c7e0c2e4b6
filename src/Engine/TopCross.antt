-- ===== src/Engine/TopCross.antt =====
-- `execute_top_cross` on every valid book, crossed or not.
use order_matching_machine.Prelude.{
  ◌≡◌, refl, ◌∙◌, sym, false, true, none, Bool-cases, ◌⊎◌, inl, inr,
}
use order_matching_machine.Prelude.Int.{leb_ℤ}
use order_matching_machine.Orders.{bid}
use order_matching_machine.Book.{OrderBook, is_crossed, execute_top_cross}
use order_matching_machine.Book.Flat.{side_orders}
use order_matching_machine.Book.Valid.{IsValid}
use order_matching_machine.Book.Cross.{
  Front, Crossed, side_orders-Front, crossed-fronts, execute_top_cross-Crossed,
}
use order_matching_machine.Engine.Apart.{uncrossed-NoMeet}
use order_matching_machine.Engine.CrossStep.{is_crossed-heads}
use order_matching_machine.Engine.CrossLoop.{NoMeet}

-- The outcome where the best bid's price is at least the best ask's.
pub record TopCross (b : OrderBook) : Type 0 where
  pub best_bid : Front b.bids
  pub best_ask : Front b.asks
  pub meet : leb_ℤ best_ask.order.price_ticks best_bid.order.price_ticks ≡ true
  pub after : OrderBook
  pub crossed : Crossed b after best_bid best_ask

execute_top_cross-uncrossed : (b : OrderBook) → is_crossed b ≡ false → execute_top_cross b ≡ none
unfolding execute_top_cross
execute_top_cross-uncrossed b h = rw h refl

fronts_meet :
    (b : OrderBook) (f : Front b.bids) (g : Front b.asks)
    → IsValid b
    → is_crossed b ≡ true
    → leb_ℤ g.order.price_ticks f.order.price_ticks ≡ true
fronts_meet b f g v h =
    let heads = sym (is_crossed-heads bid b v) ∙ h in
    rw (side_orders-Front b.bids f, side_orders-Front b.asks g) at heads

-- `execute_top_cross` on a valid book. Where it returns nothing, the best bid's price is below every
-- ask's. Where it returns a trade, the best bid's price is at least the best ask's: the best bid buys
-- of the best ask, at the ask's price, the smaller of their quantities, under the later of their
-- timestamps; each of the two keeps what is left of it, and leaves the book if that is nothing; all
-- other orders stay, and the book is valid again.
pub execute_top_cross_lem :
    (b : OrderBook)
    → IsValid b
    → ((execute_top_cross b ≡ none) × NoMeet bid (side_orders b.bids) (side_orders b.asks))
      ⊎ TopCross b
execute_top_cross_lem b v = elim (Bool-cases (is_crossed b)) [
  | inl h ↦
      let (f, g) = crossed-fronts b h v in
      inr (record {
        best_bid = f;
        best_ask = g;
        meet = fronts_meet b f g v h;
        after = _;
        crossed = execute_top_cross-Crossed b f g h v;
      })
  | inr h ↦ inl (execute_top_cross-uncrossed b h, uncrossed-NoMeet bid b v h)
]
