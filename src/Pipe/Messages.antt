-- ===== src/Pipe/Messages.antt =====
-- A pipe as a queue of messages: `pipe_write` puts a message at the end, `pipe_read` takes the
-- first one.
use sistem_operasi.Base.{
  ℕ, zero, suc, ◌+◌, ◌-◌, ◌<◌, ◌≤◌, ◌≡◌, ◌≢◌, refl, ◌∙◌, true, false, List, [], ◌∷◌, ◌++◌,
  append_assoc, arith, length, length-append, lt→ltb, ◌==◌, some, pos, take, modify,
  get_or-modify_self, get_or-modify_ne, length-modify, if◌then◌else◌,
}
use sistem_operasi.Ring.{Ring}
use sistem_operasi.Waiters
use sistem_operasi.Task
use sistem_operasi.Pipe.{
  Pipe, State, pipe_at, on_pipe, free_pipe, live, write, write_message, read_step, Read,
}
use sistem_operasi.Pipe.Bytes.{
  Bytes, count-Bytes, length-Bytes, write_message-whole, write_message-cut, first_message,
  after_message, read_bytes_lem,
}

-- No byte of a C string is 0.
abbrev pub NoZero : List ℕ → Type 0
NoZero [] = Unit {0}
NoZero (c ∷ m) = (c ≢ 0) × NoZero m

abbrev pub AllNoZero : List (List ℕ) → Type 0
AllNoZero [] = Unit {0}
AllNoZero (m ∷ ms) = NoZero m × AllNoZero ms

-- Messages as they stand in the ring, each behind its separator.
abbrev pub frame : List (List ℕ) → List ℕ
frame [] = []
frame (m ∷ ms) = m ++ (0 ∷ frame ms)

frame-append :
    (ms : List (List ℕ)) (m : List ℕ) → frame (ms ++ (m ∷ [])) ≡ frame ms ++ m ++ (0 ∷ [])
frame-append [] m = refl
frame-append (x ∷ ms) m = simp (frame-append ms m, append_assoc)

first_message-frame :
    (k : ℕ) (m rest : List ℕ)
    → NoZero m
    → length m < k
    → (first_message k (m ++ (0 ∷ rest)) ≡ m) × (after_message k (m ++ (0 ∷ rest)) ≡ rest)
first_message-frame zero m rest z h = absurd (omega arith)
first_message-frame (suc k) [] rest z h = (refl, refl)
first_message-frame (suc k) (c ∷ m) rest z h =
    let more : (c == 0) ≡ false = ground arith in
    let (f, a) = first_message-frame k m rest z.1 (omega arith) in (rw (more, f), rw (more, a))

AllNoZero-append :
    (ms : List (List ℕ)) (m : List ℕ) → AllNoZero ms → NoZero m → AllNoZero (ms ++ (m ∷ []))
AllNoZero-append [] m h z = (z, tt)
AllNoZero-append (x ∷ ms) m h z = (h.0, AllNoZero-append ms m h.1 z)

-- Pipe `i` is in use and holds the messages `ms`, oldest first.
pub record Messages (s : State) (i : ℕ) (ms : List (List ℕ)) : Type 0 where
  pub slots : length s.pipes ≡ 8
  pub in_range : i < 8
  pub in_use : (pipe_at s i).used ≡ true
  pub stored : Bytes (pipe_at s i).ring (frame ms)
  pub strings : AllNoZero ms

live-Messages : {s : State} {i : ℕ} {ms : List (List ℕ)} → Messages s i ms → live s (pos i) ≡ some i
unfolding live
live-Messages {i} h = rw (lt→ltb i 8 h.in_range, live, h.in_use)

-- A new ring for pipe `i` holds new messages; the scheduler does not matter.
rering :
    (s : State) (i : ℕ) (f : Pipe → Pipe) (sched : Task.Sched) {ms : List (List ℕ)}
    (ms' : List (List ℕ))
    → Messages s i ms
    → (f (pipe_at s i)).used ≡ true
    → Bytes (f (pipe_at s i)).ring (frame ms')
    → AllNoZero ms'
    → Messages (record s { pipes = modify s.pipes i f; sched = sched }) i ms'
rering s i f sched ms' h u b z =
    let same = get_or-modify_self s.pipes i f free_pipe (omega (arith, h.slots, h.in_range)) in
    record {
      slots = length-modify s.pipes i f ∙ h.slots;
      in_range = h.in_range;
      in_use = rw same u;
      stored = rw same b;
      strings = z;
    }

write-live :
    (s : State) (i : ℕ) (msg : List ℕ) (r : Ring ℕ) (n : ℕ)
    → live s (pos i) ≡ some i
    → write_message (pipe_at s i).ring msg ≡ (r, n)
    → write (pos i) (some msg) s ≡ (
      record s {
        pipes =
            modify s.pipes i
              (λ q. record q { ring = r; readers = (Waiters.dequeue (pipe_at s i).readers).0 });
        sched = Task.unblock (Waiters.dequeue (pipe_at s i).readers).1 s.sched;
      },
      pos n,
    )
unfolding write
write-live s i msg r n l run = rw (l, write, run)

-- A message that fits with its separator goes to the end of the queue, and its length is returned;
-- the longest waiting reader is woken, and no other pipe changes.
pub write-append :
    (s : State) (i : ℕ) (ms : List (List ℕ)) (msg : List ℕ) (j : ℕ)
    → Messages s i ms
    → NoZero msg
    → i ≢ j
    → length (frame ms) + length msg < 255
    → let (s', n) = write (pos i) (some msg) s in
      (n ≡ pos (length msg))
      × Messages s' i (ms ++ (msg ∷ []))
      × (s'.sched ≡ Task.unblock (Waiters.dequeue (pipe_at s i).readers).1 s.sched)
      × (pipe_at s' j ≡ pipe_at s j)
write-append s i ms msg j h z ne room =
    let (r, run, b) = write_message-whole msg (pipe_at s i).ring (frame ms) h.stored room in
    rw (write-live s i msg r (length msg) (live-Messages h) run) (
      refl,
      rering s i _ _ (ms ++ (msg ∷ [])) h h.in_use (rw (frame-append ms msg) b)
          (AllNoZero-append ms msg h.strings z),
      refl,
      get_or-modify_ne s.pipes i j _ free_pipe ne,
    )

-- A message that leaves no room for its separator is cut: as many bytes as the ring has room for
-- are stored and counted, and what is stored does not end in a separator.
pub write-cut :
    (s : State) (i : ℕ) (ms : List (List ℕ)) (msg : List ℕ)
    → Messages s i ms
    → 255 ≤ length (frame ms) + length msg
    → let (s', n) = write (pos i) (some msg) s in
      (n ≡ pos (255 - length (frame ms)))
      × Bytes (pipe_at s' i).ring (frame ms ++ take (255 - length (frame ms)) msg)
write-cut s i ms msg h over =
    let (r, run, b) = write_message-cut msg (pipe_at s i).ring (frame ms) h.stored over in
    let same =
      get_or-modify_self s.pipes i
        (λ (q : Pipe). record q { ring = r; readers = (Waiters.dequeue (pipe_at s i).readers).0 })
        free_pipe (omega (arith, h.slots, h.in_range)) in
    rw (write-live s i msg r (255 - length (frame ms)) (live-Messages h) run) (refl, rw same b)

-- The data test of `pipe_read` passes when the ring holds a byte.
not_empty : (r : Ring ℕ) (q : List ℕ) → Bytes r q → q ≢ [] → (r.head == r.tail) ≡ false
not_empty r [] b ne = absurd (ne refl)
not_empty r (c ∷ q) b ne = ground (arith, count-Bytes b)

is_empty : (r : Ring ℕ) → Bytes r [] → (r.head == r.tail) ≡ true
is_empty r b = ground (arith, count-Bytes b, b.ring)

frame-ne-nil : (m rest : List ℕ) → (m ++ (0 ∷ rest)) ≢ []
frame-ne-nil [] rest e = cc
frame-ne-nil (c ∷ m) rest e = cc

-- `pipe_read` returns the first message, which leaves the queue; no other pipe changes.
pub read-first :
    (s : State) (i : ℕ) (m : List ℕ) (ms : List (List ℕ)) (j : ℕ)
    → Messages s i (m ∷ ms)
    → i ≢ j
    → let (s', out) = read_step (pos i) true s in
      (out ≡ Read.message m) × Messages s' i ms × (pipe_at s' j ≡ pipe_at s j)
unfolding read_step
read-first s i m ms j h ne =
    let short : length m < 255 =
      omega (arith, length-Bytes h.stored, length-append m (0 ∷ frame ms)) in
    let (f, a) = first_message-frame 255 m (frame ms) h.strings.0 short in
    let (r, run, b) = read_bytes_lem 255 (pipe_at s i).ring (frame (m ∷ ms)) h.stored in
    let data_in =
      not_empty (pipe_at s i).ring (frame (m ∷ ms)) h.stored (frame-ne-nil m (frame ms)) in
    rw (live-Messages h, read_step, data_in)
      (
        rw (run, f),
        rering s i _ s.sched ms h h.in_use (rw (run, ← a) b) h.strings.1,
        get_or-modify_ne s.pipes i j _ free_pipe ne,
      )

-- With no message, `pipe_read` reports the end of file once no writer is left; before that the
-- task queues up to wait, unless the ring of readers is full and it retries.
pub read-empty :
    (s : State) (i : ℕ)
    → Messages s i []
    → let (w, ok) = Waiters.enqueue (pipe_at s i).readers s.sched.current in
      read_step (pos i) true s ≡ (
        if (pipe_at s i).eof
        then (s, Read.end_of_file)
        else if ok
        then (on_pipe i (λ q. record q { readers = w }) s, Read.waits)
        else (s, Read.retries))
unfolding read_step
read-empty s i h = rw (live-Messages h, read_step, is_empty (pipe_at s i).ring h.stored)
