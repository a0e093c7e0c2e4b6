-- ===== src/Queue/Spsc.antt =====
-- `SpscQueue<T, N>`: `N + 1` slots, a head that only the producer moves, a tail that only the consumer
-- moves. The functions here are a call run without interruption; Queue/Steps has the loads and
-- stores one by one.
use order_matching_machine.Prelude.{
  ℕ, suc, ◌+◌, ◌%◌, Bool, true, false, List, Option, none, get_elem?, set, replicate, ◌==◌,
  if◌then◌else◌,
}

-- `buffer_`, `head_` and `tail_`.
pub record Spsc {ℓ} (A : Type ℓ) : Type ℓ where
  pub buffer : List A
  pub head : ℕ
  pub tail : ℕ

-- `(i + 1) % kSlots`, with `kSlots = N + 1`.
abbrev pub next_slot : ℕ → ℕ → ℕ
next_slot n i = (i + 1) % suc n

module _ {ℓ} {A : Type ℓ} where
  -- Every slot holds a default value from construction.
  abbrev pub new_queue : ℕ → A → Spsc A
  new_queue n d = record { buffer = replicate (suc n) d; head = 0; tail = 0 }

  unfoldable pub push : ℕ → Spsc A → A → Bool × Spsc A
  push n q o =
      if next_slot n q.head == q.tail
      then (false, q)
      else (true, record q { buffer = set q.buffer q.head o; head = next_slot n q.head })

  unfoldable pub is_empty_queue : Spsc A → Bool
  is_empty_queue q = q.tail == q.head

  -- `none` where the source returns an empty optional; a tail past the buffer does not arise.
  unfoldable pub pop : ℕ → Spsc A → Option A × Spsc A
  pop n q =
      if q.tail == q.head
      then (none, q)
      else (get_elem? q.buffer q.tail, record q { tail = next_slot n q.tail })
