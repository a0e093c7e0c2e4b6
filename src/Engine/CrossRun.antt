-- ===== src/Engine/CrossRun.antt =====
-- The crossing loop of `processOrder` ends, and it has swept the other side.
use order_matching_machine.Prelude.{
  ℕ, zero, suc, ◌-◌, ◌<◌, min, ◌≡◌, refl, ap, ◌∙◌, true, false, List, [], ◌∷◌, some, arith,
  Bool-cases, inl, inr, length, ◌==◌, ==_iff,
}
use order_matching_machine.Orders.{Side, Order, Trade}
use order_matching_machine.Book.{OrderBook, is_crossed, execute_top_cross}
use order_matching_machine.Book.Fill.{remainder}
use order_matching_machine.Book.Market.Sweep.{stops}
use order_matching_machine.Engine.{CrossState, record_trade, cross_loop}
use order_matching_machine.Engine.CrossStep.{own, crosses, is_crossed-heads, crossed-Round}
use order_matching_machine.Engine.CrossLoop.{
  NoMeet-remainder, Swept, Ready, stop_here, next, Swept-step, used_up, crosses-quantity,
  record_trade-next,
}

-- The loop's ways on.
pub loop-done :
    (fuel id : ℕ) (st : CrossState) → 0 < fuel → st.remaining ≡ 0 → cross_loop fuel id st ≡ some st
unfolding cross_loop
loop-done zero id st h e = absurd (omega arith)
loop-done (suc fuel) id st h e = ground arith

pub loop-apart :
    (fuel id : ℕ) (st : CrossState)
    → (st.remaining == 0) ≡ false
    → is_crossed st.book ≡ false
    → cross_loop (suc fuel) id st ≡ some st
unfolding cross_loop
loop-apart fuel id st h c = ground arith

loop-match :
    (fuel id : ℕ) (st : CrossState) (t : Trade) (b : OrderBook)
    → (st.remaining == 0) ≡ false
    → is_crossed st.book ≡ true
    → execute_top_cross st.book ≡ some (t, b)
    → cross_loop (suc fuel) id st ≡ cross_loop fuel id (record_trade id st t b)
unfolding cross_loop
loop-match fuel id st t b h c e = ground arith

module _ (s : Side) (o : Order) (rest : List Order) where
  abbrev Ends : ℕ → List Order → CrossState → Type 0
  Ends fuel xs st =
      (out : CrossState) × (cross_loop fuel o.id st ≡ some out) × Swept s o rest xs st out

  -- A match, with the induction hypothesis for the state that it leaves.
  match_round :
      (fuel : ℕ) (x : Order) (xs : List Order) (st : CrossState)
      → 0 < fuel
      → Ready s o rest (x ∷ xs) st
      → (st.remaining == 0) ≡ false
      → crosses s o x ≡ true
      → ((nx : CrossState) → Ready s o rest xs nx → (nx.remaining == 0) ≡ false → Ends fuel xs nx)
      → Ends (suc fuel) (x ∷ xs) st
  match_round fuel x xs st f r pos c ih =
      let crossed : is_crossed st.book ≡ true =
        is_crossed-heads s st.book r.valid
        ∙ rw (r.own_now, r.opp_now) (crosses-quantity s o x st.remaining ∙ c) in
      let (b, w) =
        crossed-Round s st.book (record o { quantity = st.remaining }) x rest xs r.valid crossed
          r.own_now r.opp_now in
      let go = stops_not st.remaining pos c in
      let stepped =
        loop-match fuel o.id st _ b pos crossed w.returned
        ∙ ap (cross_loop fuel o.id) (record_trade-next s o x rest st b r.word) in
      elim (Bool-cases ((st.remaining - min st.remaining x.quantity) == 0)) [
        | inl e ↦
            let none_left = (==_iff _ 0).0 e in
            let own_now : own s b ≡ rest = w.own_left ∙ rw e refl in
            (
              next s o rest st x b,
              stepped ∙ loop-done fuel o.id (next s o rest st x b) f none_left,
              Swept-step s o rest x xs st _ b go (
                  used_up s o rest _ (next s o rest st x b) w.valid none_left own_now w.opp_left
                    (NoMeet-remainder s rest (min st.remaining x.quantity) x xs r.apart)),
            )
        | inr e ↦
            let popped : remainder (min st.remaining x.quantity) x xs ≡ xs = ground arith in
            let ready : Ready s o rest xs (next s o rest st x b) = record {
              valid = w.valid;
              own_now = w.own_left ∙ rw e refl;
              opp_now = w.opp_left ∙ popped;
              word = omega (arith, r.word);
              apart =
                  rw popped at (NoMeet-remainder s rest (min st.remaining x.quantity) x xs r.apart);
            } in
            let (out, ran, swept) = ih (next s o rest st x b) ready e in
            (out, stepped ∙ ran, Swept-step s o rest x xs st out b go (rw popped swept))
      ]
    where
      stops_not :
          (q : ℕ) → (q == 0) ≡ false → crosses s o x ≡ true → stops (crosses s o) q x ≡ false
      stops_not q h k = rw (h, k) refl

  -- Given more rounds than orders on the other side, the loop ends, and it has swept that side.
  pub cross_loop_sweeps :
      (fuel : ℕ) (xs : List Order) (st : CrossState)
      → length xs < fuel
      → Ready s o rest xs st
      → (st.remaining == 0) ≡ false
      → Ends fuel xs st
  cross_loop_sweeps zero xs st f r pos = absurd (omega arith)
  cross_loop_sweeps (suc fuel) [] st f r pos =
      let c : is_crossed st.book ≡ false =
        is_crossed-heads s st.book r.valid ∙ rw (r.own_now, r.opp_now) refl in
      (st, loop-apart fuel o.id st pos c, stop_here s o rest [] st r pos refl c)
  cross_loop_sweeps (suc fuel) (x ∷ xs) st f r pos = elim (Bool-cases (crosses s o x)) [
    | inl c ↦
        match_round fuel x xs st (omega arith) r pos c
          (λ nx r' p'. cross_loop_sweeps fuel xs nx (omega arith) r' p')
    | inr c ↦
        let apart : is_crossed st.book ≡ false =
          is_crossed-heads s st.book r.valid
          ∙ rw (r.own_now, r.opp_now) (crosses-quantity s o x st.remaining ∙ c) in
        (
          st,
          loop-apart fuel o.id st pos apart,
          stop_here s o rest (x ∷ xs) st r pos (rw (pos, c) refl) apart,
        )
  ]
