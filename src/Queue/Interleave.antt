-- ===== src/Queue/Interleave.antt =====
-- The invariant of the ring under two threads.
use order_matching_machine.Prelude.{
  ℕ, ◌≤◌, ◌<◌, ◌≡◌, ◌≢◌, refl, ap, ◌∙◌, sym, List, [], ◌∷◌, ◌++◌, some, arith, append_assoc,
  length-set, set,
}
use order_matching_machine.Queue.Spsc.{Spsc, next_slot}
use order_matching_machine.Queue.Window.{
  Window-push, Window-set, get_elem?-set_self, get_elem?-set_other, next_slot-le, next_slot-moves,
  next_slot-injective,
}
use order_matching_machine.Queue.Refine.{Holds, new_queue-Holds}
use order_matching_machine.Queue.Steps.{
  Producer, idle_producer, found_room, written, Consumer, idle_consumer, found_element, read_out,
  System, Step, load_tail, write_slot, store_head, load_head, read_slot, store_tail, Reach, start,
  later, ProducerKnows, ConsumerKnows, Fifo,
}

module _ {A : Type 0} (n : ℕ) where
  -- A write to the head's slot does not disturb the consumer.
  write-ConsumerKnows :
      (q : Spsc A) (o : A) (c : Consumer A)
      → ConsumerKnows n q c
      → ConsumerKnows n (record q { buffer = set q.buffer q.head o }) c
  write-ConsumerKnows q o idle_consumer k = tt
  write-ConsumerKnows q o found_element k = k
  write-ConsumerKnows q o (read_out x) k =
      (k.0, get_elem?-set_other q.buffer q.head q.tail o (λ e. k.0 (sym e)) ∙ k.1)

  publish-ConsumerKnows :
      (q : Spsc A) (c : Consumer A)
      → next_slot n q.head ≢ q.tail
      → ConsumerKnows n q c
      → ConsumerKnows n (record q { head = next_slot n q.head }) c
  publish-ConsumerKnows q idle_consumer r k = tt
  publish-ConsumerKnows q found_element r k = λ e. r (sym e)
  publish-ConsumerKnows q (read_out x) r k = (λ e. r (sym e), k.1)

  -- The tail moves towards the head, and stays clear of the slot behind it.
  free-ProducerKnows :
      (q : Spsc A) (p : Producer A)
      → q.tail ≤ n
      → q.head ≤ n
      → q.tail ≢ q.head
      → ProducerKnows n q p
      → ProducerKnows n (record q { tail = next_slot n q.tail }) p
  free-ProducerKnows q idle_producer a b r k = tt
  free-ProducerKnows q (found_room o) a b r k =
      next_slot-injective n q.head q.tail b a (λ e. r (sym e))
  free-ProducerKnows q (written o) a b r k =
      (next_slot-injective n q.head q.tail b a (λ e. r (sym e)), k.1)

  module _ (s : System A) (f : Fifo n s) where
    write-Fifo :
        (o : A)
        → ProducerKnows n s.ring (found_room o)
        → Fifo n (record s {
          ring = record s.ring { buffer = set s.ring.buffer s.ring.head o };
          producer = written o;
        })
    write-Fifo o k =
        let h = f.holds in
        record {
          queued = f.queued;
          holds = record {
            head_le = h.head_le;
            tail_le = h.tail_le;
            slots = length-set s.ring.buffer s.ring.head o ∙ h.slots;
            window = Window-set n s.ring.tail s.ring.head s.ring.buffer f.queued o h.window;
          };
          in_order = f.in_order;
          producer_knows = (
            k,
            get_elem?-set_self s.ring.buffer s.ring.head o (omega (arith, h.head_le, h.slots)),
          );
          consumer_knows = write-ConsumerKnows s.ring o s.consumer f.consumer_knows;
        }

    store-Fifo :
        0 < n
        → (o : A) → ProducerKnows n s.ring (written o)
        → Fifo n (record s {
          ring = record s.ring { head = next_slot n s.ring.head };
          producer = idle_producer;
          pushed = s.pushed ++ o ∷ [];
        })
    store-Fifo p o k =
        let h = f.holds in
        record {
          queued = f.queued ++ o ∷ [];
          holds = record {
            head_le = next_slot-le n s.ring.head h.head_le;
            tail_le = h.tail_le;
            slots = h.slots;
            window =
                Window-push n s.ring.tail s.ring.head s.ring.buffer f.queued o h.tail_le h.head_le
                  k.0 (next_slot-moves n s.ring.head p h.head_le) k.1 h.window;
          };
          in_order =
              sym (append_assoc s.popped f.queued (o ∷ [])) ∙ ap (λ l. l ++ o ∷ []) f.in_order;
          producer_knows = tt;
          consumer_knows = publish-ConsumerKnows s.ring s.consumer k.0 f.consumer_knows;
        }

    free-Fifo :
        (o : A)
        → ConsumerKnows n s.ring (read_out o)
        → Fifo n (record s {
          ring = record s.ring { tail = next_slot n s.ring.tail };
          consumer = idle_consumer;
          popped = s.popped ++ o ∷ [];
        })
    free-Fifo o k = by_queue f.queued f.holds f.in_order
      where
        by_queue :
            (xs : List A)
            → Holds n s.ring xs
            → s.popped ++ xs ≡ s.pushed
            → Fifo n (record s {
              ring = record s.ring { tail = next_slot n s.ring.tail };
              consumer = idle_consumer;
              popped = s.popped ++ o ∷ [];
            })
        by_queue [] h e = absurd (k.0 h.window)
        by_queue (x ∷ xs) h e =
            let same : some x ≡ some o = sym h.window.1 ∙ k.1 in
            let oldest : x ≡ o = cc in
            record {
              queued = xs;
              holds = record {
                head_le = h.head_le;
                tail_le = next_slot-le n s.ring.tail h.tail_le;
                slots = h.slots;
                window = h.window.2;
              };
              in_order =
                  append_assoc s.popped (o ∷ []) xs ∙ ap (λ y. s.popped ++ y ∷ xs) (sym oldest) ∙ e;
              producer_knows =
                  free-ProducerKnows s.ring s.producer h.tail_le h.head_le k.0 f.producer_knows;
              consumer_knows = tt;
            }

  Step-Fifo : {s t : System A} → 0 < n → Step n s t → Fifo n s → Fifo n t
  Step-Fifo {s = s} p (load_tail o e r) f = record {
    queued = f.queued;
    holds = f.holds;
    in_order = f.in_order;
    producer_knows = r;
    consumer_knows = f.consumer_knows;
  }
  Step-Fifo {s = s} p (write_slot o e) f = write-Fifo s f o (rw e at f.producer_knows)
  Step-Fifo {s = s} p (store_head o e) f = store-Fifo s f p o (rw e at f.producer_knows)
  Step-Fifo {s = s} p (load_head e r) f = record {
    queued = f.queued;
    holds = f.holds;
    in_order = f.in_order;
    producer_knows = f.producer_knows;
    consumer_knows = r;
  }
  Step-Fifo {s = s} p (read_slot o e r) f = record {
    queued = f.queued;
    holds = f.holds;
    in_order = f.in_order;
    producer_knows = f.producer_knows;
    consumer_knows = (rw e at f.consumer_knows, r);
  }
  Step-Fifo {s = s} p (store_tail o e) f = free-Fifo s f o (rw e at f.consumer_knows)

  -- On a ring of at least one element, in every interleaving of the two threads: what was popped, then
  -- what the ring holds, is what was pushed, in order; and while a call is under way, what it found in
  -- the other's index still holds: the slot that the producer writes is free, and is not the one that
  -- the consumer reads.
  pub Reach-Fifo : {d : A} {s : System A} → 0 < n → Reach n d s → Fifo n s
  Reach-Fifo {d = d} p start = record {
    queued = [];
    holds = new_queue-Holds n d;
    in_order = refl;
    producer_knows = tt;
    consumer_knows = tt;
  }
  Reach-Fifo p (later r t) = Step-Fifo p t (Reach-Fifo p r)
