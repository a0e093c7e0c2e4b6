-- ===== src/Thread/Restart.antt =====
-- A restart from a snapshot, order by order.
use order_matching_machine.Prelude.{
  ℕ, ◌+◌, ◌<◌, ◌^◌, ◌≡◌, refl, ap, subst, ◌∙◌, sym, true, Option-cases, inl, inr, List, [], ◌∷◌,
  ◌++◌, none, some, arith, All, map, append-nil, ◌==◌, if◌then◌else◌,
}
use order_matching_machine.Orders.{Side, bid, ask, Order}
use order_matching_machine.Book.{add_order, levels}
use order_matching_machine.Book.Flat.{side_orders, find_loc, place, place-append}
use order_matching_machine.Book.Valid.{IsValid}
use order_matching_machine.Book.Market.{opposite}
use order_matching_machine.Book.Add.{Added, add_order-Added}
use order_matching_machine.Engine.CrossStep.{own, opp}
use order_matching_machine.Gateway.Session.{member}
use order_matching_machine.Thread.State.{value_or, Exchange}
use order_matching_machine.Thread.Restore.{
  side_number, side_of_number, export_order, restored_order, restore_order,
}
use order_matching_machine.Thread.Amount.{amount, IsPositive, find_loc-amount}
use order_matching_machine.Thread.Tracks.{positive, is_some, is_owner}
use order_matching_machine.Thread.Ranked.{
  NotWorse, amount-append, as_limit, amount-as_limit, as_limit-IsPositive, as_limit-NotWorse,
}

-- The exchange `y` has taken over the orders `us` of one side and `vs` of the other from `x`.
pub record Restoring (x y : Exchange) (s : Side) (us vs : List Order) : Type 0 where
  pub valid : IsValid y.engine.book
  pub log_clear : y.engine.trade_log ≡ []
  pub own_is : own s y.engine.book ≡ map as_limit us
  pub opp_is : opp s y.engine.book ≡ map as_limit vs
  pub own_positive : All IsPositive us
  pub opp_positive : All IsPositive vs
  pub owners :
      (k : ℕ) → y.owner_of k ≡ (if (amount k us + amount k vs) == 0 then none else x.owner_of k)
  pub clients :
      (k : ℕ)
      → y.client_id_of k
        ≡ (if (amount k us + amount k vs) == 0 then none else some (value_or 0 (x.client_id_of k)))
  pub remaining : (k : ℕ) → y.remaining_of k ≡ positive (amount k us + amount k vs)
  pub sets : (u k : ℕ) → member k (y.session_orders u) ≡ is_owner u (y.owner_of k)
  pub last_trade : y.last_trade_ticks ≡ x.last_trade_ticks
  pub counter : y.next_exchange_id ≡ x.next_exchange_id

side_back : (s : Side) → side_of_number (side_number s) ≡ s
side_back bid = refl
side_back ask = refl

restored_order-export_order :
    (x : Exchange) (o : Order) → restored_order (export_order x o) ≡ as_limit o
restored_order-export_order x o = ap (λ s. record (as_limit o) { side = s }) (side_back o.side)

as_limit-last :
    (us : List Order) (o : Order) → map as_limit (us ++ o ∷ []) ≡ map as_limit us ++ as_limit o ∷ []
as_limit-last [] o = refl
as_limit-last (u ∷ us) o = ap (λ l. as_limit u ∷ l) (as_limit-last us o)

last-IsPositive :
    (us : List Order) (o : Order)
    → All IsPositive us
    → 0 < o.quantity
    → All IsPositive (us ++ o ∷ [])
last-IsPositive [] o h p = (p, tt)
last-IsPositive (u ∷ us) o h p = (h.0, last-IsPositive us o h.1 p)

place-last :
    (s : Side) (o : Order) (us : List Order)
    → NotWorse s o.price_ticks us
    → place s o us ≡ us ++ o ∷ []
unfolding place
place-last s o us h = ap (place s o) (sym (append-nil us)) ∙ place-append s o us [] h

module _ (x y : Exchange) (s : Side) (us vs : List Order) (w : Restoring x y s us vs) where
  unknown_id : (k : ℕ) → amount k us + amount k vs ≡ 0 → y.engine.book.order_loc k ≡ none
  unknown_id k z =
      let nowhere = at_side s w.own_is w.opp_is in
      w.valid.indexed.located k ∙ rw (nowhere.0, nowhere.1) refl
    where
      absent :
          (os ls : List Order)
          → ls ≡ map as_limit os
          → All IsPositive os
          → amount k os ≡ 0
          → find_loc k ls ≡ none
      absent os ls e h n =
          subst (λ l. find_loc k l ≡ none) (sym e)
            (find_loc-amount k (map as_limit os) (as_limit-IsPositive os h)
              (amount-as_limit k os ∙ n))

      at_side :
          (u : Side)
          → own u y.engine.book ≡ map as_limit us
          → opp u y.engine.book ≡ map as_limit vs
          → (find_loc k (side_orders y.engine.book.bids) ≡ none)
            × (find_loc k (side_orders y.engine.book.asks) ≡ none)
      at_side bid a b = (
        absent us _ a w.own_positive (omega (arith, z)),
        absent vs _ b w.opp_positive (omega (arith, z)),
      )
      at_side ask a b = (
        absent vs _ b w.opp_positive (omega (arith, z)),
        absent us _ a w.own_positive (omega (arith, z)),
      )

  module _ (o : Order) (side_is : o.side ≡ s) (pos : 0 < o.quantity) (word : o.quantity < 2 ^ 32)
      (owned : is_some (x.owner_of o.id) ≡ true) (fresh : amount o.id us + amount o.id vs ≡ 0)
      (behind : NotWorse s o.price_ticks us) where
    abbrev next : Exchange
    next = restore_order y (export_order x o)

    book_is : next.engine.book ≡ add_order y.engine.book (as_limit o)
    unfolding restore_order
    book_is = ap (add_order y.engine.book) (restored_order-export_order x o)

    added : Added y.engine.book (as_limit o)
    added =
        add_order-Added y.engine.book (as_limit o) refl (omega (arith, word))
          (unknown_id o.id fresh) w.valid

    own_next : own s next.engine.book ≡ map as_limit (us ++ o ∷ [])
    own_next =
        ap (own s) book_is
        ∙ subst
            (λ z.
              own z (add_order y.engine.book (as_limit o))
              ≡ place z (as_limit o) (own z y.engine.book))
            side_is added.placed
        ∙ ap (place s (as_limit o)) w.own_is
        ∙ place-last s (as_limit o) (map as_limit us) (as_limit-NotWorse s o.price_ticks us behind)
        ∙ sym (as_limit-last us o)

    opp_next : opp s next.engine.book ≡ map as_limit vs
    opp_next =
        ap (opp s) book_is
        ∙ ap side_orders (
            subst
              (λ z.
                levels (add_order y.engine.book (as_limit o)) (opposite z)
                ≡ levels y.engine.book (opposite z))
              side_is added.untouched)
        ∙ w.opp_is

    nobody : y.owner_of o.id ≡ none
    nobody = w.owners o.id ∙ rw fresh refl

    with_owner : (t : ℕ) → x.owner_of o.id ≡ some t → Restoring x next s (us ++ o ∷ []) vs
    unfolding restore_order
    with_owner t e = record {
      valid = subst IsValid (sym book_is) added.valid;
      log_clear = w.log_clear;
      own_is = own_next;
      opp_is = opp_next;
      own_positive = last-IsPositive us o w.own_positive pos;
      opp_positive = w.opp_positive;
      owners = λ k. ground (arith, w.owners k, amount-append k us (o ∷ []), e, fresh, pos);
      clients = λ k. ground (arith, w.clients k, amount-append k us (o ∷ []), fresh, pos);
      remaining = λ k. ground (arith, w.remaining k, amount-append k us (o ∷ []), fresh, pos);
      sets = λ u k.
          unfold member in
          ground (arith, w.sets u k, w.sets t k, w.sets t o.id, w.sets u o.id, nobody, e);
      last_trade = w.last_trade;
      counter = w.counter;
    }

    pub restore_order-Restoring : Restoring x next s (us ++ o ∷ []) vs
    restore_order-Restoring = elim (Option-cases (x.owner_of o.id)) [
      | inl n ↦ absurd (let h = owned in cc)
      | inr (t, e) ↦ with_owner t e
    ]
