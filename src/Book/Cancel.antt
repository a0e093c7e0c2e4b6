-- ===== src/Book/Cancel.antt =====
-- `cancelOrder`: it succeeds exactly on the ids that rest, and takes out that order alone.
use order_matching_machine.Prelude.{
  ℕ, ◌≡◌, ◌≢◌, refl, ap, ◌∙◌, sym, true, false, List, [], ◌∷◌, ◌++◌, Option, none, some, arith, inl,
  inr,
}
use order_matching_machine.Prelude.Int.{ℤ, eqb_ℤ, eqb_ℤ_refl}
use order_matching_machine.Prelude.Words.{sub64}
use order_matching_machine.Orders.{Side, bid, ask, Order}
use order_matching_machine.Book.{
  PriceLevel, OrderBook, levels, set_levels, better, erase_loc, lower_bound, take_order, keep_level,
  erase_at, rejoin, erase_from, cancel_order,
}
use order_matching_machine.Book.Levels.{Behind, IsSide, lower_bound-better, lower_bound-stop}
use order_matching_machine.Book.Flat.{side_orders, find_loc, find_loc-append, Indexed-swap}
use order_matching_machine.Book.Insert.{better_irrefl}
use order_matching_machine.Book.Erase.{
  remove, remove-append_left, remove-append_found, Indexed-remove, Taken, take_order-Taken,
  find_loc-Belongs, first_of-cases, find_loc-side, find_loc-Behind,
}
use order_matching_machine.Book.Market.{opposite}
use order_matching_machine.Book.Valid.{IsValid}

-- A side without the order of an id.
record Erased (s : Side) (p : ℤ) (id : ℕ) (ls after : List PriceLevel) : Type 0 where
  found : erase_from s p id ls ≡ some after
  kept : IsSide s after
  removed : side_orders after ≡ remove id (side_orders ls)
  behind : (q : ℤ) → Behind s q ls → Behind s q after

-- The level at the iterator loses the order, and goes if that was its last.
shrunk_level :
    (s : Side) (l : PriceLevel) (ls : List PriceLevel) (id : ℕ) (o : Order) (rest : List Order)
    → IsSide s (l ∷ ls)
    → Taken s l.price_ticks id l.orders o rest
    → let l' = record l { total_qty = sub64 l.total_qty o.quantity; orders = rest } in
      IsSide s (keep_level l' ls)
      × (side_orders (keep_level l' ls) ≡ rest ++ side_orders ls)
      × ((q : ℤ) → Behind s q (l ∷ ls) → Behind s q (keep_level l' ls))
unfolding side_orders
shrunk_level s l ls id o [] v t = (v.2, refl, λ q b. b.1)
shrunk_level s l ls id o (x ∷ rest) v t = (
  (
    record { nonempty = refl; total = omega (arith, v.0.total, t.total); belong = t.belong },
    v.1,
    v.2,
  ),
  refl,
  λ q b. b,
)

erase_from-here :
    (s : Side) (p : ℤ) (id : ℕ) (l : PriceLevel) (ls : List PriceLevel) (o : Order)
    (rest : List Order)
    → better s l.price_ticks p ≡ false
    → eqb_ℤ l.price_ticks p ≡ true
    → take_order id l.orders ≡ some (o, rest)
    → erase_from s p id (l ∷ ls)
      ≡ some (keep_level (record l { total_qty = sub64 l.total_qty o.quantity; orders = rest }) ls)
unfolding erase_from erase_at
erase_from-here s p id l ls o rest h e t = rw (lower_bound-stop s p l ls h, e, t) refl

erase_from-later :
    (s : Side) (p : ℤ) (id : ℕ) (l : PriceLevel) (ls after : List PriceLevel)
    → better s l.price_ticks p ≡ true
    → erase_from s p id ls ≡ some after
    → erase_from s p id (l ∷ ls) ≡ some (l ∷ after)
unfolding erase_from
erase_from-later s p id l ls after h e =
    rw (lower_bound-better s p l ls h) (later (erase_at p id (lower_bound s p ls).1) e)
  where
    later :
        (r : Option (List PriceLevel))
        → rejoin (lower_bound s p ls).0 r ≡ some after
        → rejoin (l ∷ (lower_bound s p ls).0) r ≡ some (l ∷ after)
    later none e' = cc
    later (some post) e' = cc

erase_here :
    (s : Side) (id : ℕ) (l : PriceLevel) (ls : List PriceLevel)
    → IsSide s (l ∷ ls)
    → find_loc id l.orders ≢ none
    → (after : List PriceLevel) × Erased s l.price_ticks id (l ∷ ls) after
unfolding side_orders
erase_here s id l ls v h =
    let (o, rest, t) = take_order-Taken s l.price_ticks id l.orders v.0.belong h in
    let (k, f, b) = shrunk_level s l ls id o rest v t in
    (
      keep_level (record l { total_qty = sub64 l.total_qty o.quantity; orders = rest }) ls,
      record {
        found =
            erase_from-here s l.price_ticks id l ls o rest (better_irrefl s l.price_ticks)
              (eqb_ℤ_refl l.price_ticks) t.found;
        kept = k;
        removed =
            f
            ∙ ap (λ r. r ++ side_orders ls) t.removed
            ∙ sym (remove-append_found id l.orders (side_orders ls) h);
        behind = b;
      },
    )

erase_later :
    (s : Side) (p : ℤ) (id : ℕ) (l : PriceLevel) (ls after : List PriceLevel)
    → better s l.price_ticks p ≡ true
    → find_loc id l.orders ≡ none
    → IsSide s (l ∷ ls)
    → Erased s p id ls after
    → Erased s p id (l ∷ ls) (l ∷ after)
unfolding side_orders
erase_later s p id l ls after h n v w = record {
  found = erase_from-later s p id l ls after h w.found;
  kept = (v.0, w.behind l.price_ticks v.1, w.kept);
  removed = ap (λ r. l.orders ++ r) w.removed ∙ sym (remove-append_left id l.orders _ n);
  behind = λ q b. (b.0, w.behind q b.1);
}

-- The search by side and price reaches the order.
erase_from-Erased :
    (s : Side) (p : ℤ) (id : ℕ) (ls : List PriceLevel)
    → IsSide s ls
    → find_loc id (side_orders ls) ≡ some (s, p)
    → (after : List PriceLevel) × Erased s p id ls after
unfolding side_orders find_loc
erase_from-Erased s p id [] v h = cc
erase_from-Erased s p id (l ∷ ls) v h =
    elim (first_of-cases (find_loc id l.orders) (find_loc id (side_orders ls))
      (sym (find_loc-append id l.orders (side_orders ls)) ∙ h)) [
        | inl e ↦
            let same = (find_loc-Belongs s s l.price_ticks p id l.orders v.0.belong e).1 in
            rw same (erase_here s id l ls v (λ n. cc))
        | inr (n, e) ↦
            let (after, w) = erase_from-Erased s p id ls v.2 e in
            (
              l ∷ after,
              erase_later s p id l ls after (find_loc-Behind s s l.price_ticks p id ls v.2 v.1 e) n
                  v w,
            )
      ]

-- A book after the order of an id is taken from side `s`.
pub record Cancelled (b : OrderBook) (id : ℕ) (s : Side) (after : OrderBook) : Type 0 where
  pub returned : cancel_order b id ≡ (after, true)
  pub valid : IsValid after
  pub removed : side_orders (levels after s) ≡ remove id (side_orders (levels b s))
  pub untouched : levels after (opposite s) ≡ levels b (opposite s)
  pub gone : after.order_loc id ≡ none

erase_loc_self : (m : ℕ → Option (Side × ℤ)) (id : ℕ) → erase_loc m id id ≡ none
erase_loc_self m id = ground arith

cancel_order-found :
    (b : OrderBook) (id : ℕ) (s : Side) (p : ℤ) (ls : List PriceLevel)
    → b.order_loc id ≡ some (s, p)
    → erase_from s p id (levels b s) ≡ some ls
    → cancel_order b id
      ≡ (record (set_levels b s ls) { order_loc = erase_loc b.order_loc id }, true)
unfolding cancel_order
cancel_order-found b id s p ls h e = ground arith

cancel-bid :
    (b : OrderBook) (id : ℕ) (p : ℤ)
    → b.order_loc id ≡ some (bid, p)
    → IsValid b
    → (after : OrderBook) × Cancelled b id bid after
cancel-bid b id p h v =
    let found = on_side in
    let (ls, w) = erase_from-Erased bid p id b.bids v.bid_side found in
    (
      record b { bids = ls; order_loc = erase_loc b.order_loc id },
      record {
        returned = cancel_order-found b id bid p ls h w.found;
        valid = record {
          bid_side = w.kept;
          ask_side = v.ask_side;
          indexed = rw (w.removed) (Indexed-remove b.order_loc id _ _ (λ n. cc) v.indexed);
        };
        removed = w.removed;
        untouched = refl;
        gone = erase_loc_self b.order_loc id;
      },
    )
  where
    on_side : find_loc id (side_orders b.bids) ≡ some (bid, p)
    on_side =
        elim (first_of-cases (find_loc id (side_orders b.bids)) (find_loc id (side_orders b.asks))
          (sym (v.indexed.located id) ∙ h)) [
            | inl e ↦ e
            | inr (n, e) ↦ cc (find_loc-side ask bid p id b.asks v.ask_side e)
          ]

cancel-ask :
    (b : OrderBook) (id : ℕ) (p : ℤ)
    → b.order_loc id ≡ some (ask, p)
    → IsValid b
    → (after : OrderBook) × Cancelled b id ask after
cancel-ask b id p h v =
    let found = on_side in
    let (ls, w) = erase_from-Erased ask p id b.asks v.ask_side found in
    (
      record b { asks = ls; order_loc = erase_loc b.order_loc id },
      record {
        returned = cancel_order-found b id ask p ls h w.found;
        valid = record {
          bid_side = v.bid_side;
          ask_side = w.kept;
          indexed = rw (w.removed) (
              Indexed-swap _ _ _
                (Indexed-remove b.order_loc id _ _ (λ n. cc) (Indexed-swap _ _ _ v.indexed)));
        };
        removed = w.removed;
        untouched = refl;
        gone = erase_loc_self b.order_loc id;
      },
    )
  where
    on_side : find_loc id (side_orders b.asks) ≡ some (ask, p)
    on_side =
        elim (first_of-cases (find_loc id (side_orders b.bids)) (find_loc id (side_orders b.asks))
          (sym (v.indexed.located id) ∙ h)) [
            | inl e ↦ cc (find_loc-side bid ask p id b.bids v.bid_side e)
            | inr (n, e) ↦ e
          ]

-- In a valid book a cancel of an id that is on the map succeeds: it takes out the order of that id
-- alone from the side that the map names, the other side stays, the id leaves the map, and the book
-- stays valid.
pub cancel_order-Cancelled :
    (b : OrderBook) (id : ℕ) (s : Side) (p : ℤ)
    → b.order_loc id ≡ some (s, p)
    → IsValid b
    → (after : OrderBook) × Cancelled b id s after
cancel_order-Cancelled b id bid p h v = cancel-bid b id p h v
cancel_order-Cancelled b id ask p h v = cancel-ask b id p h v

-- A cancel of an id that is not on the map changes nothing and says so.
pub cancel_order-unknown :
    (b : OrderBook) (id : ℕ) → b.order_loc id ≡ none → cancel_order b id ≡ (b, false)
unfolding cancel_order
cancel_order-unknown b id h = ground arith
