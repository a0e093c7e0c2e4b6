-- ===== src/Thread/Cancels.antt =====
-- A cancel through the engine, and the loop of a cancel-all, against the ledger.
use order_matching_machine.Prelude.{
  ℕ, ◌+◌, ◌≡◌, refl, ap, subst, ◌∙◌, sym, false, Bool-cases, Option-cases, inl, inr, [], none, some,
  arith, All, ◌==◌,
}
use order_matching_machine.Prelude.Int.{ℤ}
use order_matching_machine.Orders.{Side, bid, ask}
use order_matching_machine.Book.{OrderBook, is_crossed}
use order_matching_machine.Book.Flat.{side_orders, find_loc, Distinct}
use order_matching_machine.Book.Add.{first_of-none}
use order_matching_machine.Book.Valid.{IsValid}
use order_matching_machine.Book.Erase.{remove}
use order_matching_machine.Engine.{MatchingEngine, ApplyResult, process_order}
use order_matching_machine.Engine.CrossStep.{own, opp}
use order_matching_machine.Engine.Others.{process_order-CancelDone, process_order-cancel_unknown}
use order_matching_machine.Engine.Reasons.{unknown_order}
use order_matching_machine.Thread.State.{Exchange}
use order_matching_machine.Thread.Routing.{forget_order}
use order_matching_machine.Thread.Apply.{cancel_of}
use order_matching_machine.Thread.Amount.{
  amount, amount-none, IsPositive, amount-remove, remove-IsPositive,
}
use order_matching_machine.Thread.Tracks.{Tracks, without, is_some, forget-Tracks}
use order_matching_machine.Thread.Fills.{Tracks-same}
use order_matching_machine.Thread.Ledger.{
  IsLedger, resting_of, resting_of-own, IsPositive-own, IsPositive-sides, forget_order-SameEngine,
}

-- An id that the book's map does not know has nothing resting.
pub resting_of-none :
    (b : OrderBook) (k : ℕ) → IsValid b → b.order_loc k ≡ none → resting_of b k ≡ 0
resting_of-none b k v h =
    let both =
      first_of-none (find_loc k (side_orders b.bids)) (find_loc k (side_orders b.asks))
        (sym (v.indexed.located k) ∙ h) in
    ground
      (arith, amount-none k (side_orders b.bids) both.0, amount-none k (side_orders b.asks) both.1)

Distinct-own : (s : Side) (b : OrderBook) → IsValid b → Distinct (own s b)
Distinct-own bid b v = v.indexed.distinct_left
Distinct-own ask b v = v.indexed.distinct_right

-- The engine's answer to the cancel of an id, and the book it leaves.
pub record CancelAnswer (x : Exchange) (k : ℕ) (e : MatchingEngine) (r : ApplyResult) : Type 0 where
  pub returned : process_order x.engine (cancel_of k) ≡ some (e, r)
  pub valid : IsValid e.book
  pub uncrossed : is_crossed e.book ≡ false
  pub log_clear : e.trade_log ≡ []
  pub bids_positive : All IsPositive (side_orders e.book.bids)
  pub asks_positive : All IsPositive (side_orders e.book.asks)
  pub rests : (i : ℕ) → resting_of e.book i ≡ without (resting_of x.engine.book) k i
  pub found : r.accepted ≡ is_some (x.engine.book.order_loc k)
  pub refused : r.accepted ≡ false → (e ≡ x.engine) × (r.reason ≡ unknown_order)

module _ (x : Exchange) (l : IsLedger x) (k : ℕ) where
  unknown_answer :
      x.engine.book.order_loc k ≡ none
      → (e : MatchingEngine) × (r : ApplyResult) × CancelAnswer x k e r
  unknown_answer h =
      let nothing = resting_of-none x.engine.book k l.valid h in
      (
        _,
        _,
        record {
          returned = process_order-cancel_unknown x.engine (cancel_of k) refl h;
          valid = l.valid;
          uncrossed = l.uncrossed;
          log_clear = l.log_clear;
          bids_positive = l.bids_positive;
          asks_positive = l.asks_positive;
          rests = λ i. elim (Bool-cases (i == k)) [
            | inl e ↦ let same : i ≡ k = ground arith in rw (e, same) nothing
            | inr e ↦ rw e refl
          ];
          found = rw h refl;
          refused = λ n. (refl, refl);
        },
      )

  found_answer :
      (s : Side) (p : ℤ)
      → x.engine.book.order_loc k ≡ some (s, p)
      → (e : MatchingEngine) × (r : ApplyResult) × CancelAnswer x k e r
  found_answer s p h =
      let (e, r, w) =
        process_order-CancelDone x.engine (cancel_of k) s p refl h l.valid l.uncrossed in
      let positive = IsPositive-own s x l in
      let sides =
        IsPositive-sides s e.book
          (subst (All IsPositive) (sym w.own_left) (remove-IsPositive k _ positive.0))
          (subst (All IsPositive) (sym w.opp_left) positive.1) in
      let nothing = resting_of-none e.book k w.valid w.gone in
      (
        e,
        r,
        record {
          returned = w.returned;
          valid = w.valid;
          uncrossed = w.uncrossed;
          log_clear = w.log_kept ∙ l.log_clear;
          bids_positive = sides.0;
          asks_positive = sides.1;
          rests = λ i. elim (Bool-cases (i == k)) [
            | inl f ↦ let same : i ≡ k = ground arith in rw (f, same) nothing
            | inr f ↦
                let kept =
                  amount-remove i k (own s x.engine.book) (Distinct-own s x.engine.book l.valid) in
                rw f (
                  sym (resting_of-own s e.book i)
                  ∙ ap (λ os. amount i os + amount i (opp s e.book)) w.own_left
                  ∙ ap (λ os. amount i (remove k (own s x.engine.book)) + amount i os) w.opp_left
                  ∙ ap (λ n. n + amount i (opp s x.engine.book)) (rw f at kept)
                  ∙ resting_of-own s x.engine.book i)
          ];
          found = w.accepted.0 ∙ rw h refl;
          refused = λ n. absurd (let t = w.accepted.0 in cc);
        },
      )

  pub process_order-CancelAnswer : (e : MatchingEngine) × (r : ApplyResult) × CancelAnswer x k e r
  process_order-CancelAnswer = elim (Option-cases (x.engine.book.order_loc k)) [
    | inl h ↦ unknown_answer h
    | inr ((s, p), h) ↦ found_answer s p h
  ]

  -- The cancelled id is forgotten: the maps and the book agree again.
  pub forgotten-IsLedger :
      (y : Exchange) (e : MatchingEngine) (r : ApplyResult)
      → CancelAnswer x k e r
      → Tracks y (resting_of x.engine.book)
      → y.engine ≡ e
      → y.next_exchange_id ≡ x.next_exchange_id
      → IsLedger (forget_order y k)
  forgotten-IsLedger y e r w tracks engine id =
      let same = forget_order-SameEngine y k in
      let now : (forget_order y k).engine ≡ e = same.0 ∙ engine in
      record {
        valid = subst (λ (g : MatchingEngine). IsValid g.book) (sym now) w.valid;
        uncrossed = ap (λ (g : MatchingEngine). is_crossed g.book) now ∙ w.uncrossed;
        log_clear = ap (λ (g : MatchingEngine). g.trade_log) now ∙ w.log_clear;
        bids_positive =
            subst (λ (g : MatchingEngine). All IsPositive (side_orders g.book.bids)) (sym now)
              w.bids_positive;
        asks_positive =
            subst (λ (g : MatchingEngine). All IsPositive (side_orders g.book.asks)) (sym now)
              w.asks_positive;
        tracked =
            Tracks-same (forget_order y k)
              (λ i. sym (w.rests i) ∙ ap (λ (g : MatchingEngine). resting_of g.book i) (sym now))
              (forget-Tracks y (resting_of x.engine.book) k tracks);
        fresh = λ i m.
            ap (λ (g : MatchingEngine). resting_of g.book i) now
            ∙ w.rests i
            ∙ (let none_yet = l.fresh i (omega (arith, m, same.1, id)) in ground (arith, none_yet));
      }
