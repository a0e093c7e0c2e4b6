-- ===== src/Thread/Retire.antt =====
-- A session goes away: its cancel-all against the ledger.
use order_matching_machine.Prelude.{
  ℕ, ◌≡◌, refl, ap, subst, ◌∙◌, sym, false, Bool-cases, inl, inr, [], none, some, arith, ◌==◌,
  if◌then◌else◌,
}
use order_matching_machine.Engine.{clear_trade_log}
use order_matching_machine.Gateway.Session.{member}
use order_matching_machine.Wal.Command.{OrderCommand}
use order_matching_machine.Thread.State.{Exchange, MatchingThread}
use order_matching_machine.Thread.Routing.{put_set, publish_book, cleared}
use order_matching_machine.Thread.Apply.{finish_cancel_all, apply_cancel_all, retire}
use order_matching_machine.Thread.Tracks.{is_owner}
use order_matching_machine.Thread.Ledger.{IsLedger, resting_of, publish_book-exchange}
use order_matching_machine.Thread.CancelIds.{IdsCancelled, cancel_ids-IdsCancelled}

-- The exchange with the session's set gone.
abbrev retired : Exchange → ℕ → Exchange
retired y s = record (cleared y) { session_orders = put_set y.session_orders s [] }

-- What a cancel-all does to the exchange `x`.
pub record Retired (x : Exchange) (s : ℕ) (y : Exchange) : Type 0 where
  pub ledger : IsLedger y
  pub counter : y.next_exchange_id ≡ x.next_exchange_id
  pub emptied : y.session_orders s ≡ []
  pub owners : (i : ℕ) → y.owner_of i ≡ (if is_owner s (x.owner_of i) then none else x.owner_of i)
  pub left :
      (i : ℕ)
      → resting_of y.engine.book i
        ≡ (if is_owner s (x.owner_of i) then 0 else resting_of x.engine.book i)

module _ (x : Exchange) (s : ℕ) (l : IsLedger x) where
  by_owner :
      {A : Type 0} (a b : A) (i : ℕ)
      → (if member i (x.session_orders s) then a else b)
        ≡ (if is_owner s (x.owner_of i) then a else b)
  by_owner a b i = rw (l.tracked.sets s i) refl

  nobody :
      (y : Exchange)
      → IdsCancelled x (x.session_orders s) y
      → (k : ℕ) → is_owner s (y.owner_of k) ≡ false
  nobody y w k = elim (Bool-cases (is_owner s (x.owner_of k))) [
    | inl e ↦ rw (w.owners k ∙ by_owner none (x.owner_of k) k, e) refl
    | inr e ↦ ap (is_owner s) (w.owners k ∙ by_owner none (x.owner_of k) k) ∙ rw e e
  ]

  retired-Retired :
      (y : Exchange) → IdsCancelled x (x.session_orders s) y → Retired x s (retired y s)
  unfolding clear_trade_log
  retired-Retired y w =
      let m = w.ledger in
      record {
        ledger = record {
          valid = m.valid;
          uncrossed = m.uncrossed;
          log_clear = refl;
          bids_positive = m.bids_positive;
          asks_positive = m.asks_positive;
          tracked = record {
            remaining = m.tracked.remaining;
            owned = m.tracked.owned;
            sets = λ u k. elim (Bool-cases (u == s)) [
              | inl e ↦
                  let same : u ≡ s = ground arith in
                  rw (e, same) (unfold member in sym (nobody y w k))
              | inr e ↦ rw e (m.tracked.sets u k)
            ];
          };
          fresh = m.fresh;
        };
        counter = w.counter;
        emptied = ground arith;
        owners = λ i. w.owners i ∙ by_owner none (x.owner_of i) i;
        left = λ i. w.left i ∙ by_owner 0 (resting_of x.engine.book i) i;
      }

-- Cancel-on-disconnect, in any state that is a ledger: the command comes to its end, every order of
-- the session leaves the book and the maps, the orders of all other sessions stay with the quantity
-- that they had, the session's set is empty, and the state is a ledger again.
pub apply_cancel_all-Retired :
    (t : MatchingThread) (c : OrderCommand)
    → IsLedger t.exchange
    → (u : MatchingThread) × (apply_cancel_all t c ≡ some u)
      × Retired t.exchange c.session u.exchange
unfolding apply_cancel_all
apply_cancel_all-Retired t c l =
    let (y, w) = cancel_ids-IdsCancelled t.exchange (t.exchange.session_orders c.session) l in
    let u = record t { exchange = retired y c.session; outbox = retire t.outbox c.session } in
    (
      publish_book u,
      ap (finish_cancel_all t c.session) w.ran,
      subst (Retired t.exchange c.session) (sym (publish_book-exchange u))
          (retired-Retired t.exchange c.session l y w),
    )
