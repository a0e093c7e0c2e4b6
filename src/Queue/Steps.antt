-- ===== src/Queue/Steps.antt =====
-- The ring under two threads: each load and store of `push` and `pop` is a step of its own, and the
-- steps of the producer and the consumer come in any order.
--
-- Each side reads its own index before, which only it writes; so a call has one load of the other's
-- index, on which it decides, one access to a slot, and one store of its own index.
use order_matching_machine.Prelude.{ℕ, ◌≡◌, ◌≢◌, List, [], ◌∷◌, ◌++◌, some, get_elem?, set}
use order_matching_machine.Queue.Spsc.{Spsc, next_slot, new_queue}
use order_matching_machine.Queue.Refine.{Holds}

-- Where the producer's call stands.
pub data Producer (A : Type 0) : Type 0 where
  idle_producer : Producer A
  found_room written : A → Producer A

-- Where the consumer's call stands.
pub data Consumer (A : Type 0) : Type 0 where
  idle_consumer found_element : Consumer A
  read_out : A → Consumer A

-- The shared ring, the two calls, and what was pushed and popped so far.
pub record System (A : Type 0) : Type 0 where
  pub ring : Spsc A
  pub producer : Producer A
  pub consumer : Consumer A
  pub pushed : List A
  pub popped : List A

module _ {A : Type 0} (n : ℕ) where
  -- A call that finds the ring full, or empty, returns at once and leaves everything as it is.
  pub data Step (s : System A) : System A → Type 0 where
    load_tail :
        (o : A)
        → s.producer ≡ idle_producer
        → next_slot n s.ring.head ≢ s.ring.tail
        → Step s (record s { producer = found_room o })
    write_slot :
        (o : A)
        → s.producer ≡ found_room o
        → Step s (record s {
          ring = record s.ring { buffer = set s.ring.buffer s.ring.head o };
          producer = written o;
        })
    store_head :
        (o : A)
        → s.producer ≡ written o
        → Step s (record s {
          ring = record s.ring { head = next_slot n s.ring.head };
          producer = idle_producer;
          pushed = s.pushed ++ o ∷ [];
        })
    load_head :
        s.consumer ≡ idle_consumer
        → s.ring.tail ≢ s.ring.head
        → Step s (record s { consumer = found_element })
    read_slot :
        (o : A)
        → s.consumer ≡ found_element
        → get_elem? s.ring.buffer s.ring.tail ≡ some o
        → Step s (record s { consumer = read_out o })
    store_tail :
        (o : A)
        → s.consumer ≡ read_out o
        → Step s (record s {
          ring = record s.ring { tail = next_slot n s.ring.tail };
          consumer = idle_consumer;
          popped = s.popped ++ o ∷ [];
        })

  pub data Reach (d : A) : System A → Type 0 where
    start : Reach d (record {
      ring = new_queue n d;
      producer = idle_producer;
      consumer = idle_consumer;
      pushed = [];
      popped = [];
    })
    later : {s t : System A} → Reach d s → Step s t → Reach d t

  -- What a call in progress relies on, whatever the other thread does meanwhile.
  abbrev pub ProducerKnows : Spsc A → Producer A → Type 0
  ProducerKnows q idle_producer = Unit {0}
  ProducerKnows q (found_room o) = next_slot n q.head ≢ q.tail
  ProducerKnows q (written o) = (next_slot n q.head ≢ q.tail) × (get_elem? q.buffer q.head ≡ some o)

  abbrev pub ConsumerKnows : Spsc A → Consumer A → Type 0
  ConsumerKnows q idle_consumer = Unit {0}
  ConsumerKnows q found_element = q.tail ≢ q.head
  ConsumerKnows q (read_out o) = (q.tail ≢ q.head) × (get_elem? q.buffer q.tail ≡ some o)

  -- The ring holds what was pushed and not yet popped, in order.
  pub record Fifo (s : System A) : Type 0 where
    pub queued : List A
    pub holds : Holds n s.ring queued
    pub in_order : s.popped ++ queued ≡ s.pushed
    pub producer_knows : ProducerKnows s.ring s.producer
    pub consumer_knows : ConsumerKnows s.ring s.consumer
