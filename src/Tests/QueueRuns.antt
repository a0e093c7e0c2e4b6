-- ===== src/Tests/QueueRuns.antt =====
-- The ring on concrete elements.
use order_matching_machine.Prelude.{ℕ, ◌≡◌, refl, false, [], ◌∷◌, some, arith, ltb}
use order_matching_machine.Queue.Spsc.{Spsc, new_queue, push, is_empty_queue, pop}
use order_matching_machine.Queue.Refine.{Holds, put, new_queue-Holds, push-Holds, pop-Holds}
use order_matching_machine.Queue.Steps.{
  System, start, later, load_tail, Fifo, found_room, idle_consumer,
}
use order_matching_machine.Queue.Interleave.{Reach-Fifo}

abbrev none_queued : Spsc ℕ
none_queued = new_queue 2 0

abbrev one_queued : Spsc ℕ
one_queued = (push 2 none_queued 7).1

push-Holds_example :
    ((push 2 none_queued 7).0 ≡ ltb 0 2) × Holds 2 (push 2 none_queued 7).1 (put (ltb 0 2) [] 7)
push-Holds_example = push-Holds 2 none_queued [] (new_queue-Holds 2 0) (omega arith) 7

one_queued-Holds : Holds 2 one_queued (7 ∷ [])
one_queued-Holds = (push-Holds 2 none_queued [] (new_queue-Holds 2 0) (omega arith) 7).1

pop-Holds_example :
    ((pop 2 one_queued).0 ≡ some 7)
    × Holds 2 (pop 2 one_queued).1 []
    × (is_empty_queue one_queued ≡ false)
pop-Holds_example = pop-Holds 2 one_queued (7 ∷ []) one_queued-Holds

abbrev pushing : System ℕ
pushing = record {
  ring = new_queue 2 0;
  producer = found_room 7;
  consumer = idle_consumer;
  pushed = [];
  popped = [];
}

Reach-Fifo_example : Fifo 2 pushing
Reach-Fifo_example = Reach-Fifo 2 (omega arith) (later start (load_tail 7 refl (λ e. ground arith)))
