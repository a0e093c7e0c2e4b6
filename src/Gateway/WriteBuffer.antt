-- ===== src/Gateway/WriteBuffer.antt =====
-- include/ome/write_buffer.hpp: what a connection has still to send, under a cap.
use order_matching_machine.Prelude.{
  ℕ, ◌+◌, ◌-◌, ◌*◌, ◌≤◌, min, ◌≡◌, refl, ◌∙◌, sym, Bool, true, false, Bool-cases, inl, inr, ◌&&◌,
  List, [], ◌∷◌, ◌++◌, arith, append-nil, length, length-append, length-drop, is_empty, drop,
  drop-append_le, leb, ltb, ◌==◌, if◌then◌else◌,
}
use order_matching_machine.Prelude.Cuts.{drop-drop, drop_past, drop-min}

abbrev pub compact_threshold : ℕ
compact_threshold = 64 * 1024

-- `buf_`, `pos_` and `capacity_`.
pub record WriteBuffer : Type 0 where
  pub buf : List ℕ
  pub pos : ℕ
  pub capacity : ℕ

-- The region that `data()` and `pending()` describe.
abbrev pub unsent : WriteBuffer → List ℕ
unsent w = drop w.pos w.buf

abbrev pub pending : WriteBuffer → ℕ
pending w = length w.buf - w.pos

unfoldable pub append : WriteBuffer → List ℕ → Bool × WriteBuffer
append w bytes =
    let moved =
      if ltb w.capacity (length w.buf + length bytes) && ltb 0 w.pos
      then record w { buf = drop w.pos w.buf; pos = 0 }
      else w in
    if is_empty bytes
    then (true, w)
    else if ltb w.capacity (pending w + length bytes)
    then (false, w)
    else (true, record moved { buf = moved.buf ++ bytes })

unfoldable pub settle : WriteBuffer → WriteBuffer
settle w =
    if w.pos == length w.buf
    then record w { buf = []; pos = 0 }
    else if leb compact_threshold w.pos
    then record w { buf = drop w.pos w.buf; pos = 0 }
    else w

unfoldable pub consume : WriteBuffer → ℕ → WriteBuffer
consume w n = settle (record w { pos = w.pos + min n (pending w) })

-- The position lies within the buffer, and the memory held within the capacity.
pub record IsBuffer (w : WriteBuffer) : Type 0 where
  pub pos_le : w.pos ≤ length w.buf
  pub held_le : length w.buf ≤ w.capacity

-- All bytes go behind the unsent ones, or none do and the cap would be passed.
pub record Queued (w : WriteBuffer) (bytes : List ℕ) (ok : Bool) (after : WriteBuffer)
    : Type 0 where
  pub decided : ok ≡ leb (pending w + length bytes) w.capacity
  pub sent_order : unsent after ≡ (if ok then unsent w ++ bytes else unsent w)
  pub same_capacity : after.capacity ≡ w.capacity
  pub valid : IsBuffer after

module _ (w : WriteBuffer) (v : IsBuffer w) where
  append-refused :
      (bytes : List ℕ)
      → leb (pending w + length bytes) w.capacity ≡ false
      → append w bytes ≡ (false, w)
  unfolding append
  append-refused [] e = absurd (ground (arith, v.held_le))
  append-refused (b ∷ bs) e = ground arith

  append-moved :
      (bytes : List ℕ)
      → is_empty bytes ≡ false
      → leb (pending w + length bytes) w.capacity ≡ true
      → (ltb w.capacity (length w.buf + length bytes) && ltb 0 w.pos) ≡ true
      → append w bytes ≡ (true, record w { buf = unsent w ++ bytes; pos = 0 })
  unfolding append
  append-moved bytes n e m = ground arith

  append-behind :
      (bytes : List ℕ)
      → is_empty bytes ≡ false
      → leb (pending w + length bytes) w.capacity ≡ true
      → (ltb w.capacity (length w.buf + length bytes) && ltb 0 w.pos) ≡ false
      → append w bytes ≡ (true, record w { buf = w.buf ++ bytes })
  unfolding append
  append-behind bytes n e m = ground arith

  append-empty : append w [] ≡ (true, w)
  unfolding append
  append-empty = ground arith

  Queued-refused :
      (bytes : List ℕ) → leb (pending w + length bytes) w.capacity ≡ false → Queued w bytes false w
  Queued-refused bytes e = record {
    decided = sym e;
    sent_order = refl;
    same_capacity = refl;
    valid = v;
  }

  Queued-empty : Queued w [] true w
  Queued-empty = record {
    decided = ground (arith, v.held_le);
    sent_order = sym (append-nil (unsent w));
    same_capacity = refl;
    valid = v;
  }

  Queued-moved :
      (bytes : List ℕ)
      → leb (pending w + length bytes) w.capacity ≡ true
      → Queued w bytes true (record w { buf = unsent w ++ bytes; pos = 0 })
  Queued-moved bytes e = record {
    decided = sym e;
    sent_order = refl;
    same_capacity = refl;
    valid = record {
      pos_le = omega arith;
      held_le = ground (arith, length-append (unsent w) bytes, length-drop w.pos w.buf);
    };
  }

  Queued-behind :
      (bytes : List ℕ)
      → leb (pending w + length bytes) w.capacity ≡ true
      → (ltb w.capacity (length w.buf + length bytes) && ltb 0 w.pos) ≡ false
      → Queued w bytes true (record w { buf = w.buf ++ bytes })
  Queued-behind bytes e m = record {
    decided = sym e;
    sent_order = drop-append_le w.pos w.buf bytes v.pos_le;
    same_capacity = refl;
    valid = record {
      pos_le = omega (arith, v.pos_le, length-append w.buf bytes);
      held_le = ground (arith, length-append w.buf bytes);
    };
  }

  Queued-more :
      (bytes : List ℕ)
      → is_empty bytes ≡ false
      → leb (pending w + length bytes) w.capacity ≡ true
      → Queued w bytes (append w bytes).0 (append w bytes).1
  Queued-more bytes n e =
      elim (Bool-cases (ltb w.capacity (length w.buf + length bytes) && ltb 0 w.pos)) [
        | inl m ↦ rw (append-moved bytes n e m) (Queued-moved bytes e)
        | inr m ↦ rw (append-behind bytes n e m) (Queued-behind bytes e m)
      ]

  -- For a buffer within its capacity: an append succeeds just when the unsent bytes and the new ones
  -- fit the capacity; then the new ones stand behind the unsent ones, and otherwise none is added. The
  -- buffer that is held, sent bytes included, stays within the capacity.
  pub append-Queued : (bytes : List ℕ) → Queued w bytes (append w bytes).0 (append w bytes).1
  append-Queued [] = rw append-empty Queued-empty
  append-Queued (b ∷ bs) = elim (Bool-cases (leb (pending w + length (b ∷ bs)) w.capacity)) [
    | inl e ↦ Queued-more (b ∷ bs) refl e
    | inr e ↦ rw (append-refused (b ∷ bs) e) (Queued-refused (b ∷ bs) e)
  ]

settle-unsent :
    (w : WriteBuffer) → IsBuffer w → (unsent (settle w) ≡ unsent w) × IsBuffer (settle w)
unfolding settle
settle-unsent w v = elim (Bool-cases (w.pos == length w.buf)) [
  | inl e ↦
      let end : drop w.pos w.buf ≡ [] = drop_past w.pos w.buf (ground arith) in
      rw (e, end) (refl, record { pos_le = omega arith; held_le = omega arith })
  | inr e ↦ elim (Bool-cases (leb compact_threshold w.pos)) [
    | inl f ↦
        rw (e, f)
          (
            refl,
            record {
              pos_le = omega arith;
              held_le = omega (arith, v.held_le, length-drop w.pos w.buf);
            },
          )
    | inr f ↦ rw (e, f) (refl, v)
  ]
]

-- For a buffer within its capacity: what is left to send after `n` bytes went out is the unsent bytes
-- without their first `n`, or nothing when `n` is more than there are, and the buffer stays within
-- its capacity.
pub consume-unsent :
    (w : WriteBuffer) (n : ℕ)
    → IsBuffer w
    → (unsent (consume w n) ≡ drop n (unsent w)) × IsBuffer (consume w n)
unfolding consume
consume-unsent w n v =
    let step = min n (pending w) in
    let (same, good) =
      settle-unsent (record w { pos = w.pos + step })
        (record { pos_le = omega (arith, v.pos_le); held_le = v.held_le }) in
    (
      same
          ∙ drop-drop w.pos step w.buf
          ∙ drop-min n (unsent w) step (omega (arith, length-drop w.pos w.buf)),
      good,
    )
