-- ===== src/Thread/Restarted.antt =====
-- A restart from a snapshot as a whole.
use order_matching_machine.Prelude.{
  ℕ, ◌+◌, ◌<◌, ◌^◌, ◌≡◌, refl, ap, subst, ◌∙◌, sym, true, inl, inr, List, [], ◌∷◌, ◌++◌, Option,
  none, some, arith, All, All-append_left, All-append_right, map, ◌==◌, if◌then◌else◌, ◌⊎◌,
}
use mathlib.Core.List.{map-append}
use order_matching_machine.Orders.{bid, ask, Order}
use order_matching_machine.Book.{empty_book}
use order_matching_machine.Book.Add.{empty_book-IsValid}
use order_matching_machine.Book.Flat.{side_orders, all_orders, find_loc}
use order_matching_machine.Gateway.Session.{member}
use order_matching_machine.Snapshot.Format.{SnapshotData, FileWrite, write_snapshot, read_snapshot}
use order_matching_machine.Snapshot.RoundTrip.{OrderFits, SnapshotFits, read-write_snapshot}
use order_matching_machine.Thread.State.{value_or, Exchange, MatchingThread, new_exchange}
use order_matching_machine.Thread.Restore.{
  export_order, export_snapshot, restore_orders, restore_clock, restore,
}
use order_matching_machine.Thread.Amount.{amount, amount-none}
use order_matching_machine.Thread.Tracks.{positive}
use order_matching_machine.Thread.Ledger.{IsLedger, resting_of}
use order_matching_machine.Thread.Ranked.{Follows-side, Fresh-Distinct, All-side}
use order_matching_machine.Thread.Restart.{Restoring}
use order_matching_machine.Thread.Takeover.{
  restore_orders-Restoring, restore_orders-append, covered, owners_of, Restored, restored,
}

-- The exchange in which `restore` starts its loops.
abbrev started : Exchange → Exchange → Exchange
started z x = record z {
  last_trade_ticks = x.last_trade_ticks;
  next_exchange_id = x.next_exchange_id;
}

words_of :
    (x : Exchange) (os : List Order)
    → All OrderFits (map (export_order x) os)
    → All (λ o. o.quantity < 2 ^ 32) os
words_of x [] h = tt
words_of x (o ∷ os) h = (h.0.quantity_fits, words_of x os h.1)

module _ (x : Exchange) (l : IsLedger x)
    (fits : All OrderFits (map (export_order x) (all_orders x.engine.book))) where
  abbrev bids : List Order
  bids = side_orders x.engine.book.bids

  abbrev asks : List Order
  asks = side_orders x.engine.book.asks

  parts :
      map (export_order x) (all_orders x.engine.book)
      ≡ map (export_order x) bids ++ map (export_order x) asks
  unfolding all_orders
  parts = map-append (export_order x) bids asks

  both_fit : All OrderFits (map (export_order x) bids ++ map (export_order x) asks)
  both_fit = subst (All OrderFits) parts fits

  nothing : Restoring x (started new_exchange x) bid [] []
  unfolding empty_book side_orders
  nothing = record {
    valid = empty_book-IsValid;
    log_clear = refl;
    own_is = refl;
    opp_is = refl;
    own_positive = tt;
    opp_positive = tt;
    owners = λ k. refl;
    clients = λ k. refl;
    remaining = λ k. refl;
    sets = λ u k. unfold member in refl;
    last_trade = refl;
    counter = refl;
  }

  abbrev half : Exchange
  half = restore_orders (started new_exchange x) (map (export_order x) bids)

  bids_restored : Restoring x half bid bids []
  bids_restored =
      restore_orders-Restoring x (started new_exchange x) bid [] [] bids nothing
        (Follows-side bid x.engine.book.bids l.valid.bid_side)
        (Fresh-Distinct [] [] bids l.valid.indexed.distinct_left (λ k. inr refl))
        (All-side bid x.engine.book.bids l.valid.bid_side) l.bids_positive
        (words_of x bids
          (All-append_left _ (map (export_order x) bids) (map (export_order x) asks) both_fit))
        (owners_of x bids l
          (covered (resting_of x.engine.book) bids l.bids_positive (λ k. omega arith)))

  turned : Restoring x half ask [] bids
  turned =
      let w = bids_restored in
      record {
        valid = w.valid;
        log_clear = w.log_clear;
        own_is = w.opp_is;
        opp_is = w.own_is;
        own_positive = tt;
        opp_positive = l.bids_positive;
        owners = λ k.
            w.owners k
            ∙ ap (λ n. if n == 0 then none else x.owner_of k)
                (let e : amount k bids + 0 ≡ 0 + amount k bids = omega arith in e);
        clients = λ k.
            w.clients k
            ∙ ap (λ n. if n == 0 then none else some (value_or 0 (x.client_id_of k)))
                (let e : amount k bids + 0 ≡ 0 + amount k bids = omega arith in e);
        remaining = λ k.
            w.remaining k
            ∙ ap positive (let e : amount k bids + 0 ≡ 0 + amount k bids = omega arith in e);
        sets = w.sets;
        last_trade = w.last_trade;
        counter = w.counter;
      }

  apart_asks : (k : ℕ) → (find_loc k asks ≡ none) ⊎ (amount k [] + amount k bids ≡ 0)
  apart_asks k = elim (l.valid.indexed.apart k) [
    | inl n ↦ inr (let z = amount-none k bids n in omega (arith, z))
    | inr n ↦ inl n
  ]

  all_restored :
      Restoring x
        (restore_orders (started new_exchange x) (map (export_order x) (all_orders x.engine.book)))
        ask
        asks
        bids
  all_restored =
      subst (λ y. Restoring x y ask asks bids)
        (sym (
          ap (restore_orders (started new_exchange x)) parts
          ∙ restore_orders-append (started new_exchange x) (map (export_order x) bids)
              (map (export_order x) asks)))
        (restore_orders-Restoring x half ask [] bids asks turned
          (Follows-side ask x.engine.book.asks l.valid.ask_side)
          (Fresh-Distinct [] bids asks l.valid.indexed.distinct_right apart_asks)
          (All-side ask x.engine.book.asks l.valid.ask_side) l.asks_positive
          (words_of x asks
            (All-append_right _ (map (export_order x) bids) (map (export_order x) asks) both_fit))
          (owners_of x asks l
            (covered (resting_of x.engine.book) asks l.asks_positive (λ k. omega arith))))

with_clock : (x y : Exchange) (n : ℕ) → Restored x y → Restored x (record y { logical_clock = n })
with_clock x y n r =
    let l = r.ledger in
    record {
      ledger = record {
        valid = l.valid;
        uncrossed = l.uncrossed;
        log_clear = l.log_clear;
        bids_positive = l.bids_positive;
        asks_positive = l.asks_positive;
        tracked = record {
          remaining = l.tracked.remaining;
          owned = l.tracked.owned;
          sets = l.tracked.sets;
        };
        fresh = l.fresh;
      };
      bids_are = r.bids_are;
      asks_are = r.asks_are;
      owners_are = r.owners_are;
      clients_are = r.clients_are;
      remaining_are = r.remaining_are;
      last_trade_is = r.last_trade_is;
      counter_is = r.counter_is;
    }

-- A restart from a snapshot file. A thread whose state is a ledger exports it, and the fields are in the
-- ranges of the file; the write succeeds, whatever file was there. Then reading the file succeeds, and
-- `restore` of what was read, on a thread with a new exchange, rebuilds the book, with the same orders
-- in the same order on both sides, the same owners, remaining quantities, last trade price and next id, and
-- for each resting order the client's id that it had (0 where it had none); and the state is a ledger
-- again.
pub restore-write_snapshot :
    (t u : MatchingThread) (seq : ℕ) (file : Option (List ℕ)) (io : FileWrite)
    → IsLedger t.exchange
    → SnapshotFits (export_snapshot t seq)
    → (write_snapshot file (export_snapshot t seq) io).0 ≡ true
    → u.exchange ≡ new_exchange
    → (d : SnapshotData) × (read_snapshot (write_snapshot file (export_snapshot t seq) io).1
        ≡ some d)
      × Restored t.exchange (restore u d).exchange
unfolding restore export_snapshot
restore-write_snapshot t u seq file io l f ok h =
    let x = t.exchange in
    let sos = map (export_order x) (all_orders x.engine.book) in
    let fresh_start = restored x _ l (all_restored x l f.orders_fit) in
    (
      _,
      (read-write_snapshot file (export_snapshot t seq) io f).0 ok,
      subst
          (λ z. Restored x (record (restore_orders (started z x) sos) {
            logical_clock = restore_clock (restore_orders (started z x) sos).logical_clock sos;
          }))
          (sym h) (with_clock x _ _ fresh_start),
    )
