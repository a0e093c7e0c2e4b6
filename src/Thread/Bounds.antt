-- ===== src/Thread/Bounds.antt =====
-- The risk checks against the exact condition, where nothing overflows.
use order_matching_machine.Prelude.{
  ℕ, ◌+◌, ◌-◌, ◌*◌, ◌%◌, ◌^◌, ◌<◌, ◌≡◌, ap, ◌∙◌, Bool, true, false, not, ◌&&◌, ◌||◌, some, arith,
  ltb, leb, ◌==◌, if◌then◌else◌,
}
use order_matching_machine.Prelude.Int.{pos, ltb_ℤ, leb_ℤ}
use order_matching_machine.Prelude.Words.{mul_i64, divides_i64, i64_of}
use order_matching_machine.Book.{OrderBook}
use order_matching_machine.Engine.Reasons.{
  RejectReason, accepted_none, invalid_price, invalid_qty, risk_max_order_size, risk_price_band,
}
use order_matching_machine.Wire.Messages.{WireOrderType, market_type, limit_type}
use order_matching_machine.Wal.Command.{OrderCommand}
use order_matching_machine.Thread.Risk.{
  RiskConfig, reference_price, distance, check_band, check_price, check_risk,
}

abbrev pub is_accepted : RejectReason → Bool
is_accepted accepted_none = true
is_accepted _ = false

-- How far two prices are apart.
abbrev pub gap : ℕ → ℕ → ℕ
gap p r = (p - r) + (r - p)

-- A price that a limit order may have, beside a reference: not 0, on the tick, and in the band.
abbrev pub is_allowed : ℕ → ℕ → ℕ → ℕ → Bool
is_allowed tick band reference price =
    not (price == 0)
    && (leb tick 1 || price % tick == 0)
    && (band == 0 || leb (gap price reference * 10000) (reference * band))

small_mod : (a : ℕ) → a < 2 ^ 63 → a % 2 ^ 64 ≡ a
small_mod a h = omega (arith, h)

small_i64 : (a : ℕ) → a < 2 ^ 63 → i64_of (a % 2 ^ 64) ≡ pos a
small_i64 a h = rw (small_mod a h) (ground (arith, h))

mul_i64-pos :
    (a b : ℕ) → a < 2 ^ 63 → b < 2 ^ 63 → a * b < 2 ^ 63 → mul_i64 (pos a) (pos b) ≡ pos (a * b)
mul_i64-pos a b h k l = rw (small_mod a h, small_mod b k) (small_i64 (a * b) l)

distance-pos : (p r : ℕ) → p < 2 ^ 63 → r < 2 ^ 63 → distance (pos p) (pos r) ≡ pos (gap p r)
distance-pos p r h k = ground (arith, h, k)

module _ (risk : RiskConfig) (tick band p r : ℕ) (tick_is : risk.tick_size ≡ pos tick)
    (band_is : risk.price_band_bp ≡ pos band) (tick_fits : tick < 2 ^ 63)
    (band_fits : band < 2 ^ 63) (price_fits : p * 10000 < 2 ^ 63)
    (reference_fits : r * 10000 < 2 ^ 63) (limit_fits : r * band < 2 ^ 63) where
  check_band-exact :
      is_accepted (check_band risk (pos p) (some (pos r))) ≡ leb (gap p r * 10000) (r * band)
  unfolding check_band
  check_band-exact =
      let apart = distance-pos p r (omega (arith, price_fits)) (omega (arith, reference_fits)) in
      let scaled =
        mul_i64-pos (gap p r) 10000 (omega (arith, price_fits, reference_fits)) (omega arith)
          (omega (arith, price_fits, reference_fits)) in
      let allowed = mul_i64-pos r band (omega (arith, reference_fits)) band_fits limit_fits in
      ap
        (λ z. is_accepted (
          if ltb_ℤ (mul_i64 (pos r) z) (mul_i64 (distance (pos p) (pos r)) (pos 10000))
          then risk_price_band
          else accepted_none))
        band_is
      ∙ ap
          (λ z. is_accepted (
            if ltb_ℤ z (mul_i64 (distance (pos p) (pos r)) (pos 10000))
            then risk_price_band
            else accepted_none))
          allowed
      ∙ ap
          (λ z. is_accepted (
            if ltb_ℤ (pos (r * band)) (mul_i64 z (pos 10000))
            then risk_price_band
            else accepted_none))
          apart
      ∙ ap (λ z. is_accepted (if ltb_ℤ (pos (r * band)) z then risk_price_band else accepted_none))
          scaled
      ∙ ground arith

  check_price-exact :
      is_accepted (check_price risk (pos p) (some (pos r))) ≡ is_allowed tick band r p
  unfolding check_price
  check_price-exact =
      let banded = check_band-exact in
      ap
        (λ z. is_accepted (
          if leb_ℤ (pos p) (pos 0)
          then invalid_price
          else if ltb_ℤ (pos 1) z && not (divides_i64 z (pos p))
          then invalid_price
          else if ltb_ℤ (pos 0) risk.price_band_bp
          then check_band risk (pos p) (some (pos r))
          else accepted_none))
        tick_is
      ∙ ap
          (λ z. is_accepted (
            if leb_ℤ (pos p) (pos 0)
            then invalid_price
            else if ltb_ℤ (pos 1) (pos tick) && not (divides_i64 (pos tick) (pos p))
            then invalid_price
            else if ltb_ℤ (pos 0) z
            then check_band risk (pos p) (some (pos r))
            else accepted_none))
          band_is
      ∙ by_steps (check_band risk (pos p) (some (pos r))) banded
    where
      by_steps :
          (a : RejectReason)
          → is_accepted a ≡ leb (gap p r * 10000) (r * band)
          → is_accepted (
              if leb_ℤ (pos p) (pos 0)
              then invalid_price
              else if ltb_ℤ (pos 1) (pos tick) && not (divides_i64 (pos tick) (pos p))
              then invalid_price
              else if ltb_ℤ (pos 0) (pos band)
              then a
              else accepted_none)
            ≡ is_allowed tick band r p
      by_steps a h = ground (arith, h)

  -- A limit order of 32 bits at a price that is not negative, after a trade at a positive price, where
  -- neither ten thousand times a price nor the band times the reference passes 2 ^ 63: `check_risk`
  -- accepts it exactly if its quantity is between 1 and the largest allowed, its price is not 0 and on
  -- the tick, and, with the band on, its distance to the last trade in ten-thousandths of it is at most
  -- the band; nothing is rounded, and the book does not matter.
  pub check_risk-exact :
      (b : OrderBook) (c : OrderCommand)
      → c.order_type ≡ limit_type
      → c.price_ticks ≡ pos p
      → 0 < r
      → is_accepted (check_risk risk (pos r) b c)
        ≡ (not (c.quantity == 0) && leb c.quantity risk.max_order_qty && is_allowed tick band r p)
  unfolding check_risk
  check_risk-exact b c h k l =
      let reference : reference_price (pos r) b ≡ some (pos r) =
        unfold reference_price in ground (arith, l) in
      let priced : is_accepted (check_price risk c.price_ticks (reference_price (pos r) b))
          ≡ is_allowed tick band r p =
        ap (λ z. is_accepted (check_price risk z (reference_price (pos r) b))) k
        ∙ ap (λ z. is_accepted (check_price risk (pos p) z)) reference
        ∙ check_price-exact in
      by_type c.order_type h (check_price risk c.price_ticks (reference_price (pos r) b)) priced
    where
      by_type :
          (o : WireOrderType)
          → o ≡ limit_type
          → (a : RejectReason) → is_accepted a ≡ is_allowed tick band r p
          → is_accepted (
              if c.quantity == 0
              then invalid_qty
              else if ltb risk.max_order_qty c.quantity
              then risk_max_order_size
              else elim o [ market_type ↦ accepted_none | limit_type ↦ a ])
            ≡ (not (c.quantity == 0)
                && leb c.quantity risk.max_order_qty
                && is_allowed tick band r p)
      by_type market_type e a g = cc
      by_type limit_type e a g = ground (arith, g)
