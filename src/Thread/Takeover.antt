-- ===== src/Thread/Takeover.antt =====
-- A list of exported orders, restored one after the other.
use order_matching_machine.Prelude.{
  ℕ, ◌+◌, ◌≤◌, ◌<◌, ◌^◌, ◌≡◌, refl, ap, subst, ◌∙◌, sym, true, false, not, Option-cases, inl, inr,
  List, [], ◌∷◌, ◌++◌, none, some, arith, All, map, append_assoc, append-nil, ◌==◌, if◌then◌else◌,
}
use order_matching_machine.Orders.{Side, bid, ask, Order}
use order_matching_machine.Book.Flat.{side_orders}
use order_matching_machine.Engine.CrossStep.{opp, heads_cross, is_crossed-heads}
use order_matching_machine.Snapshot.Format.{SnapshotOrder}
use order_matching_machine.Thread.State.{value_or, Exchange}
use order_matching_machine.Thread.Restore.{export_order, restore_order, restore_orders}
use order_matching_machine.Thread.Amount.{amount, IsPositive}
use order_matching_machine.Thread.Tracks.{positive, is_some}
use order_matching_machine.Thread.Ledger.{IsLedger, resting_of}
use order_matching_machine.Thread.Ranked.{
  Follows, Fresh, as_limit, amount-as_limit, as_limit-IsPositive,
}
use order_matching_machine.Thread.Restart.{Restoring, restore_order-Restoring}

pub restore_orders-Restoring :
    (x y : Exchange) (s : Side) (us vs os : List Order)
    → Restoring x y s us vs
    → Follows s us os
    → Fresh us vs os
    → All (λ o. o.side ≡ s) os
    → All IsPositive os
    → All (λ o. o.quantity < 2 ^ 32) os
    → All (λ o. is_some (x.owner_of o.id) ≡ true) os
    → Restoring x (restore_orders y (map (export_order x) os)) s (us ++ os) vs
unfolding restore_orders
restore_orders-Restoring x y s us vs [] w f n d p q h =
    subst (λ l. Restoring x y s l vs) (sym (append-nil us)) w
restore_orders-Restoring x y s us vs (o ∷ os) w f n d p q h =
    let w' = restore_order-Restoring x y s us vs w o d.0 p.0 q.0 h.0 n.0 f.0 in
    subst
      (λ l.
        Restoring x (restore_orders (restore_order y (export_order x o)) (map (export_order x) os))
          s l vs)
      (append_assoc us (o ∷ []) os)
      (restore_orders-Restoring x (restore_order y (export_order x o)) s (us ++ o ∷ []) vs os w' f.1
        n.1 d.1 p.1 q.1 h.1)

pub restore_orders-append :
    (y : Exchange) (a b : List SnapshotOrder)
    → restore_orders y (a ++ b) ≡ restore_orders (restore_orders y a) b
unfolding restore_orders
restore_orders-append y [] b = refl
restore_orders-append y (so ∷ a) b = restore_orders-append (restore_order y so) a b

-- Where an account covers a list, every order of it has something left.
pub covered :
    (a : ℕ → ℕ) (os : List Order)
    → All IsPositive os
    → ((k : ℕ) → amount k os ≤ a k)
    → All (λ o. not (a o.id == 0) ≡ true) os
covered a [] p h = tt
covered a (o ∷ os) p h =
    (ground (arith, h o.id, p.0), covered a os p.1 (λ k. let m = h k in omega (arith, m)))

pub owners_of :
    (x : Exchange) (os : List Order)
    → IsLedger x
    → All (λ o. not (resting_of x.engine.book o.id == 0) ≡ true) os
    → All (λ o. is_some (x.owner_of o.id) ≡ true) os
owners_of x [] l h = tt
owners_of x (o ∷ os) l h = (l.tracked.owned o.id ∙ h.0, owners_of x os l h.1)

heads_cross-as_limit :
    (us vs : List Order)
    → heads_cross bid (map as_limit us) (map as_limit vs) ≡ heads_cross bid us vs
heads_cross-as_limit [] vs = refl
heads_cross-as_limit (u ∷ us) [] = refl
heads_cross-as_limit (u ∷ us) (v ∷ vs) = refl

-- A thread that took over the exchange `x`: the same resting orders in the same order on both sides, as
-- limit orders; the same owners and remaining quantities; the client's id of each resting order; the
-- same last trade price and next id; and a ledger.
pub record Restored (x y : Exchange) : Type 0 where
  pub ledger : IsLedger y
  pub bids_are : side_orders y.engine.book.bids ≡ map as_limit (side_orders x.engine.book.bids)
  pub asks_are : side_orders y.engine.book.asks ≡ map as_limit (side_orders x.engine.book.asks)
  pub owners_are : (k : ℕ) → y.owner_of k ≡ x.owner_of k
  pub clients_are :
      (k : ℕ)
      → y.client_id_of k
        ≡ (if resting_of x.engine.book k == 0 then none else some (value_or 0 (x.client_id_of k)))
  pub remaining_are : (k : ℕ) → y.remaining_of k ≡ x.remaining_of k
  pub last_trade_is : y.last_trade_ticks ≡ x.last_trade_ticks
  pub counter_is : y.next_exchange_id ≡ x.next_exchange_id

module _ (x y : Exchange) (l : IsLedger x)
    (w : Restoring x y ask (side_orders x.engine.book.asks) (side_orders x.engine.book.bids)) where
  same_resting : (k : ℕ) → resting_of y.engine.book k ≡ resting_of x.engine.book k
  same_resting k =
      let b = ap (amount k) w.opp_is ∙ amount-as_limit k (side_orders x.engine.book.bids) in
      let a = ap (amount k) w.own_is ∙ amount-as_limit k (side_orders x.engine.book.asks) in
      omega (arith, a, b)

  swapped :
      (k : ℕ)
      → amount k (side_orders x.engine.book.asks) + amount k (side_orders x.engine.book.bids)
        ≡ resting_of x.engine.book k
  swapped k = omega arith

  same_owner : (k : ℕ) → y.owner_of k ≡ x.owner_of k
  same_owner k =
      w.owners k
      ∙ ap (λ n. if n == 0 then none else x.owner_of k) (swapped k)
      ∙ (let o = l.tracked.owned k in
          elim (Option-cases (x.owner_of k)) [
            | inl e ↦ rw e (ground arith)
            | inr (t, e) ↦
                let rests : (resting_of x.engine.book k == 0) ≡ false = ground (arith, o, e) in
                rw rests refl
          ])

  same_remaining : (k : ℕ) → y.remaining_of k ≡ x.remaining_of k
  same_remaining k = w.remaining k ∙ ap positive (swapped k) ∙ sym (l.tracked.remaining k)

  pub restored : Restored x y
  restored = record {
    ledger = record {
      valid = w.valid;
      uncrossed =
          is_crossed-heads bid y.engine.book w.valid
          ∙ ap (λ us. heads_cross bid us (opp bid y.engine.book)) w.opp_is
          ∙ ap (heads_cross bid (map as_limit (side_orders x.engine.book.bids))) w.own_is
          ∙ heads_cross-as_limit (side_orders x.engine.book.bids) (side_orders x.engine.book.asks)
          ∙ sym (is_crossed-heads bid x.engine.book l.valid)
          ∙ l.uncrossed;
      log_clear = w.log_clear;
      bids_positive = subst (All IsPositive) (sym w.opp_is) (as_limit-IsPositive _ l.bids_positive);
      asks_positive = subst (All IsPositive) (sym w.own_is) (as_limit-IsPositive _ l.asks_positive);
      tracked = record {
        remaining = λ k. w.remaining k ∙ ap positive (swapped k ∙ sym (same_resting k));
        owned = λ k.
            ap is_some (same_owner k)
            ∙ l.tracked.owned k
            ∙ ap (λ n. not (n == 0)) (sym (same_resting k));
        sets = w.sets;
      };
      fresh = λ k m. same_resting k ∙ l.fresh k (let c = w.counter in omega (arith, m, c));
    };
    bids_are = w.opp_is;
    asks_are = w.own_is;
    owners_are = same_owner;
    clients_are = λ k.
        w.clients k
        ∙ ap (λ n. if n == 0 then none else some (value_or 0 (x.client_id_of k))) (swapped k);
    remaining_are = same_remaining;
    last_trade_is = w.last_trade;
    counter_is = w.counter;
  }
