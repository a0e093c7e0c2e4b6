-- ===== src/Wire/Delivery.antt =====
-- A byte stream read in any chunks and polled at any time.
use order_matching_machine.Prelude.{
  ℕ, ◌≡◌, refl, ap, subst, ◌∙◌, sym, true, false, Bool-cases, inl, inr, List, [], ◌∷◌, ◌++◌, Option,
  none, some, arith, append-nil, append_assoc, All, All-append, All-append_left, All-append_right,
  length-append, drop, drop-append_le,
}
use order_matching_machine.Wire.Bytes.{IsByte}
use order_matching_machine.Wire.Frames.{
  Frame, FrameReader, empty_reader, contents, append, next_frame,
}
use order_matching_machine.Wire.Stream.{
  IsReader, IsFrame, IsFrameIfAny, frame_bytes, taken, next_frame-Polled,
}

-- A connection's reader, the bytes that came in so far, and the frames that went out, in order.
pub record Connection : Type 0 where
  pub received : List ℕ
  pub frames : List Frame
  pub reader : FrameReader

abbrev pub frame_list : Option Frame → List Frame
frame_list none = []
frame_list (some f) = f ∷ []

-- A read of any size, or a poll for the next frame.
pub data Step (c : Connection) : Connection → Type 0 where
  arrive :
      (chunk : List ℕ)
      → All IsByte chunk
      → Step c (record c { received = c.received ++ chunk; reader = append c.reader chunk })
  poll : Step c (record c {
    frames = c.frames ++ frame_list (next_frame c.reader).0;
    reader = (next_frame c.reader).1;
  })

pub data Reach : Connection → Type 0 where
  start : Reach (record { received = []; frames = []; reader = empty_reader })
  later : {c d : Connection} → Reach c → Step c d → Reach d

abbrev pub frames_bytes : List Frame → List ℕ
frames_bytes [] = []
frames_bytes (f ∷ fs) = frame_bytes f ++ frames_bytes fs

-- The frames, then what the reader holds, then what came after a failure, are the bytes received.
pub record Delivered (c : Connection) : Type 0 where
  pub lost : List ℕ
  pub exact : frames_bytes c.frames ++ (contents c.reader ++ lost) ≡ c.received
  pub none_lost : c.reader.failed ≡ false → lost ≡ []
  pub frames_good : All IsFrame c.frames
  pub reader_good : IsReader c.reader
  pub bytes_good : All IsByte c.received

frames_bytes-append :
    (fs gs : List Frame) → frames_bytes (fs ++ gs) ≡ frames_bytes fs ++ frames_bytes gs
frames_bytes-append [] gs = refl
frames_bytes-append (f ∷ fs) gs =
    ap (λ l. frame_bytes f ++ l) (frames_bytes-append fs gs)
    ∙ sym (append_assoc (frame_bytes f) (frames_bytes fs) (frames_bytes gs))

frames_bytes-frame_list : (f : Option Frame) → frames_bytes (frame_list f) ≡ taken f
frames_bytes-frame_list none = refl
frames_bytes-frame_list (some f) = append-nil (frame_bytes f)

frame_list-All : (f : Option Frame) → IsFrameIfAny f → All IsFrame (frame_list f)
frame_list-All none h = tt
frame_list-All (some f) h = (h, tt)

next_frame-unfailed : (r : FrameReader) → (next_frame r).1.failed ≡ false → r.failed ≡ false
unfolding next_frame
next_frame-unfailed r h = ground arith

contents_bytes : (c : Connection) → (d : Delivered c) → All IsByte (contents c.reader)
contents_bytes c d =
    let all_bytes = subst (λ l. All IsByte l) (sym d.exact) d.bytes_good in
    All-append_left IsByte (contents c.reader) d.lost
      (All-append_right IsByte (frames_bytes c.frames) (contents c.reader ++ d.lost) all_bytes)

poll-Delivered :
    (c : Connection)
    → Delivered c
    → Delivered (record c {
      frames = c.frames ++ frame_list (next_frame c.reader).0;
      reader = (next_frame c.reader).1;
    })
poll-Delivered c d =
    let p = next_frame-Polled c.reader d.reader_good (contents_bytes c d) in
    let f = (next_frame c.reader).0 in
    let r = (next_frame c.reader).1 in
    record {
      lost = d.lost;
      exact =
          rw
            (
              frames_bytes-append c.frames (frame_list f),
              frames_bytes-frame_list f,
              append_assoc (frames_bytes c.frames) (taken f) (contents r ++ d.lost),
              sym (append_assoc (taken f) (contents r) d.lost),
              sym p.bytes_kept,
            )
            d.exact;
      none_lost = λ h. d.none_lost (next_frame-unfailed c.reader h);
      frames_good =
          All-append IsFrame c.frames (frame_list f) d.frames_good (frame_list-All f p.frame_good);
      reader_good = p.reader_kept;
      bytes_good = d.bytes_good;
    }

append-failed : (r : FrameReader) (chunk : List ℕ) → r.failed ≡ true → append r chunk ≡ r
unfolding append
append-failed r chunk e = ground arith

append-open :
    (r : FrameReader) (chunk : List ℕ)
    → r.failed ≡ false
    → append r chunk ≡ record r { buf = r.buf ++ chunk }
unfolding append
append-open r [] e = rw (append-nil r.buf) (ground arith)
append-open r (b ∷ bs) e = ground arith

-- What arrives after a failure is lost, and nothing else is.
arrive-failed :
    (c : Connection) (chunk : List ℕ)
    → All IsByte (c.received ++ chunk)
    → c.reader.failed ≡ true
    → Delivered c
    → Delivered (record c { received = c.received ++ chunk })
arrive-failed c chunk b e d = record {
  lost = d.lost ++ chunk;
  exact =
      sym (ap (λ l. frames_bytes c.frames ++ l) (append_assoc (contents c.reader) d.lost chunk))
      ∙ sym (append_assoc (frames_bytes c.frames) (contents c.reader ++ d.lost) chunk)
      ∙ ap (λ l. l ++ chunk) d.exact;
  none_lost = λ h. absurd (cc);
  frames_good = d.frames_good;
  reader_good = d.reader_good;
  bytes_good = b;
}

arrive-open :
    (c : Connection) (chunk : List ℕ)
    → All IsByte (c.received ++ chunk)
    → c.reader.failed ≡ false
    → Delivered c
    → Delivered (record c {
      received = c.received ++ chunk;
      reader = record c.reader { buf = c.reader.buf ++ chunk };
    })
arrive-open c chunk b e d =
    let whole : frames_bytes c.frames ++ contents c.reader ≡ c.received =
      sym (
        ap (λ l. frames_bytes c.frames ++ l)
          (ap (λ l. contents c.reader ++ l) (d.none_lost e) ∙ append-nil (contents c.reader)))
      ∙ d.exact in
    record {
      lost = [];
      exact =
          rw
            (
              append-nil (drop c.reader.pos (c.reader.buf ++ chunk)),
              drop-append_le c.reader.pos c.reader.buf chunk d.reader_good.pos_le,
            )
            (sym (append_assoc (frames_bytes c.frames) (contents c.reader) chunk)
              ∙ ap (λ l. l ++ chunk) whole);
      none_lost = λ h. refl;
      frames_good = d.frames_good;
      reader_good = record {
        pos_le = omega (arith, d.reader_good.pos_le, length-append c.reader.buf chunk);
        pos_lt = d.reader_good.pos_lt;
      };
      bytes_good = b;
    }

Step-Delivered : {c d : Connection} → Step c d → Delivered c → Delivered d
Step-Delivered {c = c} (arrive chunk b) k =
    let good = All-append IsByte c.received chunk k.bytes_good b in
    elim (Bool-cases c.reader.failed) [
      | inl e ↦ rw (append-failed c.reader chunk e) (arrive-failed c chunk good e k)
      | inr e ↦ rw (append-open c.reader chunk e) (arrive-open c chunk good e k)
    ]
Step-Delivered {c = c} poll k = poll-Delivered c k

-- However the bytes were cut into reads, and whenever the reader was polled: the frames handed out,
-- written out again one after the other, then the bytes still held, then the bytes that came after
-- a failure, are exactly the bytes received; before a failure none are lost. Every frame has the
-- payload length that its header claims, at most `max_payload_size`, and the position stays within
-- the buffer and below `compact_threshold`.
pub Reach-Delivered : {c : Connection} → Reach c → Delivered c
Reach-Delivered start = record {
  lost = [];
  exact = refl;
  none_lost = λ h. refl;
  frames_good = tt;
  reader_good = record { pos_le = omega arith; pos_lt = omega arith };
  bytes_good = tt;
}
Reach-Delivered (later r s) = Step-Delivered s (Reach-Delivered r)
