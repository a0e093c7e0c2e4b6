-- ===== src/Thread/Fills.antt =====
-- The fills of a command, and the recording of a new order, against the account of the ids.
use order_matching_machine.Prelude.{
  ℕ, ◌-◌, ◌<◌, ◌≡◌, true, false, Bool-cases, Option-cases, inl, inr, List, [], ◌∷◌, none, some,
  arith, ◌==◌, if◌then◌else◌,
}
use order_matching_machine.Orders.{Order, Trade}
use order_matching_machine.Wal.Command.{OrderCommand}
use order_matching_machine.Gateway.Session.{member}
use order_matching_machine.Gateway.Events.{OrderEvent}
use order_matching_machine.Thread.State.{put, value_or, Exchange, MatchingThread}
use order_matching_machine.Thread.Routing.{
  emit, filled, less_or_zero, route_fill, route_trades, with_exchange,
}
use order_matching_machine.Thread.Apply.{record_order}
use order_matching_machine.Thread.Amount.{traded}
use order_matching_machine.Thread.Tracks.{Tracks, forget_order-Tracks}

-- An account less what some ids trade.
abbrev pub less : (ℕ → ℕ) → ℕ → ℕ → ℕ → ℕ
less a k n i = if i == k then a i - n else a i

pub Tracks-same : {a b : ℕ → ℕ} (x : Exchange) → ((i : ℕ) → a i ≡ b i) → Tracks x a → Tracks x b
Tracks-same x e h = record {
  remaining = λ k. rw (← e k) (h.remaining k);
  owned = λ k. rw (← e k) (h.owned k);
  sets = h.sets;
}

module _ (x : Exchange) (a : ℕ → ℕ) (k n : ℕ) (h : Tracks x a) where
  abbrev rem : ℕ
  rem = less_or_zero (value_or 0 (x.remaining_of k)) n

  rem_is : rem ≡ a k - n
  rem_is = let r = h.remaining k in rw r (ground arith)

  used_up : (rem == 0) ≡ true → Tracks (filled x k rem) (less a k n)
  used_up e =
      let nothing : a k - n ≡ 0 = let r = rem_is in ground arith in
      rw e (
        Tracks-same _ (λ i. ground (arith, nothing))
          (forget_order-Tracks (record x { remaining_of = put x.remaining_of k rem }) a k
            (record {
              remaining_but = λ i f. rw f (h.remaining i);
              owned_but = λ i f. h.owned i;
              sets_all = h.sets;
            })))

  some_left : (rem == 0) ≡ false → Tracks (filled x k rem) (less a k n)
  some_left e =
      let r = rem_is in
      rw e (record {
        remaining = λ i. ground (arith, r, h.remaining i);
        owned = λ i. ground (arith, r, h.owned i);
        sets = h.sets;
      })

  filled-Tracks : Tracks (filled x k rem) (less a k n)
  filled-Tracks = elim (Bool-cases (rem == 0)) [ inl e ↦ used_up e | inr e ↦ some_left e ]

pub emit-exchange :
    (t : MatchingThread) (s : ℕ) (e : OrderEvent) → (emit t s e).exchange ≡ t.exchange
unfolding emit
emit-exchange t s e = ground arith

route_fill-none :
    (t : MatchingThread) (k : ℕ) (d : Trade) → t.exchange.owner_of k ≡ none → route_fill t k d ≡ t
unfolding route_fill
route_fill-none t k d e = ground arith

route_fill-some :
    (t : MatchingThread) (k : ℕ) (d : Trade) (s : ℕ)
    → t.exchange.owner_of k ≡ some s
    → (route_fill t k d).exchange
      ≡ filled t.exchange k (less_or_zero (value_or 0 (t.exchange.remaining_of k)) d.quantity)
unfolding route_fill
route_fill-some t k d s e = ground arith

pub route_fill-Tracks :
    (t : MatchingThread) (a : ℕ → ℕ) (k : ℕ) (d : Trade)
    → Tracks t.exchange a
    → Tracks (route_fill t k d).exchange (less a k d.quantity)
route_fill-Tracks t a k d h = elim (Option-cases (t.exchange.owner_of k)) [
  | inl e ↦
      let nothing : a k ≡ 0 = let o = h.owned k in ground arith in
      rw (route_fill-none t k d e) (Tracks-same t.exchange (λ i. ground (arith, nothing)) h)
  | inr (s, e) ↦ rw (route_fill-some t k d s e) (filled-Tracks t.exchange a k d.quantity h)
]

pub route_trades-Tracks :
    (t : MatchingThread) (a : ℕ → ℕ) (ds : List Trade)
    → Tracks t.exchange a
    → Tracks (route_trades t ds).exchange (λ k. a k - traded k ds)
unfolding route_trades
route_trades-Tracks t a [] h = Tracks-same t.exchange (λ i. omega arith) h
route_trades-Tracks t a (d ∷ ds) h =
    let u = with_exchange t (record t.exchange { last_trade_ticks = d.price_ticks }) in
    let start : Tracks u.exchange a = record {
      remaining = h.remaining;
      owned = h.owned;
      sets = h.sets;
    } in
    let buyer = route_fill-Tracks u a d.buyer_id d start in
    let seller =
      route_fill-Tracks (route_fill u d.buyer_id d) (less a d.buyer_id d.quantity) d.seller_id d
        buyer in
    Tracks-same _ (λ i. ground arith)
      (route_trades-Tracks (route_fill (route_fill u d.buyer_id d) d.seller_id d)
        (less (less a d.buyer_id d.quantity) d.seller_id d.quantity) ds seller)

-- A new order under an id of which there is nothing yet.
pub record_order-Tracks :
    (x : Exchange) (a : ℕ → ℕ) (c : OrderCommand) (o : Order)
    → 0 < c.quantity
    → a o.id ≡ 0
    → Tracks x a
    → Tracks (record_order x c o) (λ k. if k == o.id then c.quantity else a k)
unfolding record_order
record_order-Tracks x a c o p z h =
    let unowned = h.owned o.id in
    record {
      remaining = λ k. ground (arith, h.remaining k);
      owned = λ k. ground (arith, h.owned k);
      sets = λ s k. unfold member in ground (arith, h.sets s k, h.sets c.session k, h.sets s o.id);
    }
