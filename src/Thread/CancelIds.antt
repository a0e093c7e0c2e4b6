-- ===== src/Thread/CancelIds.antt =====
-- The loop of a cancel-all against the ledger.
use order_matching_machine.Prelude.{
  ℕ, ◌≡◌, refl, ap, ◌∙◌, Bool-cases, Option-cases, inl, inr, List, [], ◌∷◌, none, some, arith, ◌==◌,
  if◌then◌else◌,
}
use order_matching_machine.Gateway.Session.{member}
use order_matching_machine.Engine.{MatchingEngine, ApplyResult, process_order}
use order_matching_machine.Thread.State.{Exchange}
use order_matching_machine.Thread.Routing.{forget_order}
use order_matching_machine.Thread.Apply.{with_engine, cancel_of, cancel_ids}
use order_matching_machine.Thread.Ledger.{IsLedger, resting_of, forget_order-SameEngine}
use order_matching_machine.Thread.Cancels.{process_order-CancelAnswer, forgotten-IsLedger}

forget_order-owner_of :
    (x : Exchange) (k i : ℕ)
    → (forget_order x k).owner_of i ≡ (if i == k then none else x.owner_of i)
unfolding forget_order
forget_order-owner_of x k i = elim (Option-cases (x.owner_of k)) [
  | inl e ↦ rw e (elim (Bool-cases (i == k)) [
    | inl f ↦ let same : i ≡ k = ground arith in rw (f, same) e
    | inr f ↦ rw f refl
  ])
  | inr (s, e) ↦ rw e refl
]

cancel_ids-step :
    (x : Exchange) (k : ℕ) (ids : List ℕ) (e : MatchingEngine) (r : ApplyResult)
    → process_order x.engine (cancel_of k) ≡ some (e, r)
    → cancel_ids x (k ∷ ids) ≡ cancel_ids (forget_order (with_engine x e) k) ids
unfolding cancel_ids
cancel_ids-step x k ids e r h = rw (cancel_ids, h) refl

-- What a cancel-all leaves of the ids that it goes through, and of the others.
pub record IdsCancelled (x : Exchange) (ids : List ℕ) (y : Exchange) : Type 0 where
  pub ran : cancel_ids x ids ≡ some y
  pub ledger : IsLedger y
  pub counter : y.next_exchange_id ≡ x.next_exchange_id
  pub owners : (i : ℕ) → y.owner_of i ≡ (if member i ids then none else x.owner_of i)
  pub left :
      (i : ℕ)
      → resting_of y.engine.book i ≡ (if member i ids then 0 else resting_of x.engine.book i)

-- The loop of a cancel-all gets to its end.
pub cancel_ids-IdsCancelled :
    (x : Exchange) (ids : List ℕ) → IsLedger x → (y : Exchange) × IdsCancelled x ids y
unfolding cancel_ids member
cancel_ids-IdsCancelled x [] l =
    (x, record { ran = refl; ledger = l; counter = refl; owners = λ i. refl; left = λ i. refl })
cancel_ids-IdsCancelled x (k ∷ ids) l =
    let (e, r, w) = process_order-CancelAnswer x l k in
    let x' = forget_order (with_engine x e) k in
    let same = forget_order-SameEngine (with_engine x e) k in
    let (y, next) = cancel_ids-IdsCancelled x' ids (
      forgotten-IsLedger x l k (with_engine x e) e r w
        (record { remaining = l.tracked.remaining; owned = l.tracked.owned; sets = l.tracked.sets })
        refl refl) in
    (
      y,
      record {
        ran = cancel_ids-step x k ids e r w.returned ∙ next.ran;
        ledger = next.ledger;
        counter = next.counter ∙ same.1;
        owners = λ i. ground (arith, next.owners i, forget_order-owner_of (with_engine x e) k i);
        left = λ i.
            let now = ap (λ (g : MatchingEngine). resting_of g.book i) same.0 in
            ground (arith, next.left i, now, w.rests i);
      },
    )
