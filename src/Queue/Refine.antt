-- ===== src/Queue/Refine.antt =====
-- The ring refines a FIFO of at most `N` elements.
use order_matching_machine.Prelude.{
  ℕ, zero, suc, ◌≤◌, ◌<◌, ◌≡◌, ◌≢◌, refl, ap, ◌∙◌, sym, Bool, true, false, Bool-cases, inl, inr,
  List, [], ◌∷◌, ◌++◌, Option, none, some, arith, length, set, length-set, replicate, is_empty, ltb,
  ◌==◌, if◌then◌else◌,
}
use order_matching_machine.Queue.Spsc.{Spsc, next_slot, new_queue, push, is_empty_queue, pop}
use order_matching_machine.Queue.Window.{
  Window, length-Window, Window-push, Window-written, next_slot-le, next_slot-moves, distance,
  distance-full,
}

-- The ring holds the queue `xs`, its oldest element first.
pub record Holds {A : Type 0} (n : ℕ) (q : Spsc A) (xs : List A) : Type 0 where
  pub head_le : q.head ≤ n
  pub tail_le : q.tail ≤ n
  pub slots : length q.buffer ≡ suc n
  pub window : Window n q.buffer q.tail q.head xs

abbrev pub put : {A : Type 0} → Bool → List A → A → List A
put ok xs o = if ok then xs ++ o ∷ [] else xs

-- What a consumer gets from a queue, and what it leaves.
abbrev pub first : {A : Type 0} → List A → Option A
first [] = none
first (x ∷ xs) = some x

abbrev pub others : {A : Type 0} → List A → List A
others [] = []
others (x ∷ xs) = xs

module _ {A : Type 0} where
  length-replicate : (n : ℕ) (d : A) → length (replicate n d) ≡ n
  length-replicate zero d = refl
  length-replicate (suc n) d = ap suc (length-replicate n d)

  pub new_queue-Holds : (n : ℕ) (d : A) → Holds n (new_queue n d) []
  new_queue-Holds n d = record {
    head_le = omega arith;
    tail_le = omega arith;
    slots = length-replicate (suc n) d;
    window = refl;
  }

module _ {A : Type 0} (n : ℕ) (q : Spsc A) (xs : List A) (v : Holds n q xs) where
  size : length xs ≡ distance n q.tail q.head
  size = length-Window n q.tail q.head q.buffer xs v.tail_le v.head_le v.window

  fullness : (next_slot n q.head == q.tail) ≡ (length xs == n)
  fullness = distance-full n q.tail q.head v.tail_le v.head_le ∙ ap (λ k. k == n) (sym size)

  pub length-Holds : length xs ≤ n
  length-Holds = let d = size in ground (arith, d, v.tail_le, v.head_le)

  push-full : (o : A) → (length xs == n) ≡ true → push n q o ≡ (false, q)
  unfolding push
  push-full o e = rw (fullness, e) refl

  push-free :
      (o : A)
      → (length xs == n) ≡ false
      → push n q o ≡ (true, record q { buffer = set q.buffer q.head o; head = next_slot n q.head })
  unfolding push
  push-free o e = rw (fullness, e) refl

  not_full : (length xs == n) ≡ false → next_slot n q.head ≢ q.tail
  not_full e = let f = fullness in ground arith

  -- On a ring of at least one element: a push succeeds just when fewer than `n` elements are queued,
  -- and then the element stands last; a push that fails changes nothing.
  pub push-Holds :
      0 < n
      → (o : A)
      → ((push n q o).0 ≡ ltb (length xs) n) × Holds n (push n q o).1 (put (ltb (length xs) n) xs o)
  push-Holds p o = elim (Bool-cases (length xs == n)) [
    | inl e ↦
        let full : ltb (length xs) n ≡ false = ground arith in rw (push-full o e, full) (refl, v)
    | inr e ↦
        let free : ltb (length xs) n ≡ true = let l = length-Holds in ground arith in
        let wrote =
          Window-written n q.tail q.head q.buffer xs o (omega (arith, v.head_le, v.slots))
            v.window in
        rw (push-free o e, free)
          (
            refl,
            record {
              head_le = next_slot-le n q.head v.head_le;
              tail_le = v.tail_le;
              slots = length-set q.buffer q.head o ∙ v.slots;
              window =
                  Window-push n q.tail q.head (set q.buffer q.head o) xs o v.tail_le v.head_le
                    (not_full e) (next_slot-moves n q.head p v.head_le) wrote.1 wrote.0;
            },
          )
  ]

  -- A pop of an empty queue gives nothing and changes nothing, and any other gives the oldest element
  -- and leaves the rest; `empty` tells which.
  pub pop-Holds :
      ((pop n q).0 ≡ first xs) × Holds n (pop n q).1 (others xs) × (is_empty_queue q ≡ is_empty xs)
  unfolding pop is_empty_queue
  pop-Holds = by_queue xs v
    where
      by_queue :
          (ys : List A)
          → Holds n q ys
          → ((pop n q).0 ≡ first ys)
            × Holds n (pop n q).1 (others ys)
            × (is_empty_queue q ≡ is_empty ys)
      by_queue [] h =
          let same : (q.tail == q.head) ≡ true = let w = h.window in ground arith in
          rw same (refl, h, refl)
      by_queue (y ∷ ys) h =
          let apart : (q.tail == q.head) ≡ false = let w = h.window.0 in ground arith in
          rw apart (
            h.window.1,
            record {
              head_le = h.head_le;
              tail_le = next_slot-le n q.tail h.tail_le;
              slots = h.slots;
              window = h.window.2;
            },
            refl,
          )
