-- ===== src/Pipe/Writers.antt =====
-- The writers of a pipe: the last one to leave marks the end of the file and wakes every reader.
use sistem_operasi.Base.{
  ℕ, zero, suc, ◌+◌, ◌<◌, ◌≡◌, refl, ◌∙◌, true, false, List, [], ◌∷◌, arith, length, length-modify,
  lt→ltb, ◌==◌, some, ℤ, pos, modify, get_or-modify_self, if◌then◌else◌, map,
}
use sistem_operasi.Waiters.{Waiters}
use sistem_operasi.Waiters.Fifo.{Holds, dequeue-nil, dequeue-cons}
use sistem_operasi.Task
use sistem_operasi.Pipe.{
  Pipe, State, pipe_at, on_pipe, free_pipe, live, drain, unblock_all, writer_attach, writer_detach,
  drop_ref,
}

-- The loop takes out every waiter, oldest first.
pub drain-Holds :
    (fuel : ℕ) (w : Waiters) (q : List ℕ)
    → Holds w q
    → length q < fuel
    → (w' : Waiters) × (drain fuel w ≡ (w', map pos q)) × Holds w' []
unfolding drain
drain-Holds zero w q h lt = absurd (omega arith)
drain-Holds (suc fuel) w [] h lt = (w, rw (dequeue-nil w h, drain, dequeue-nil w h), h)
drain-Holds (suc fuel) w (t ∷ q) h lt =
    let (w1, ok, h1) = dequeue-cons w t q h in
    let (w2, run, h2) = drain-Holds fuel w1 q h1 (omega arith) in (w2, rw (ok, drain, ok, run), h2)

-- Pipe `i` is in use, has `n` writers and the readers `q` wait for it, longest first.
pub record Open (s : State) (i n : ℕ) (q : List ℕ) : Type 0 where
  pub slots : length s.pipes ≡ 8
  pub in_range : i < 8
  pub in_use : (pipe_at s i).used ≡ true
  pub writers : (pipe_at s i).write_refs ≡ n
  pub waiting : Holds (pipe_at s i).readers q

live-Open : {s : State} {i n : ℕ} {q : List ℕ} → Open s i n q → live s (pos i) ≡ some i
unfolding live
live-Open {i} h = rw (lt→ltb i 8 h.in_range, live, h.in_use)

reopen :
    (s : State) (i : ℕ) (f : Pipe → Pipe) (sched : Task.Sched) {n : ℕ} {q : List ℕ} (n' : ℕ)
    (q' : List ℕ)
    → Open s i n q
    → (f (pipe_at s i)).used ≡ true
    → (f (pipe_at s i)).write_refs ≡ n'
    → Holds (f (pipe_at s i)).readers q'
    → Open (record s { pipes = modify s.pipes i f; sched = sched }) i n' q'
reopen s i f sched n' q' h u w r =
    let same = get_or-modify_self s.pipes i f free_pipe (omega (arith, h.slots, h.in_range)) in
    record {
      slots = length-modify s.pipes i f ∙ h.slots;
      in_range = h.in_range;
      in_use = rw same u;
      writers = rw same w;
      waiting = rw same r;
    }

detach-live :
    (s : State) (i : ℕ) (w : Waiters) (ts : List ℤ)
    → live s (pos i) ≡ some i
    → drain 4 (pipe_at s i).readers ≡ (w, ts)
    → writer_detach (pos i) s ≡ (
        if drop_ref (pipe_at s i).write_refs == 0
        then record s {
          pipes = modify s.pipes i (λ q. record q { write_refs = 0; eof = true; readers = w });
          sched = unblock_all ts s.sched;
        }
        else on_pipe i (λ q. record q { write_refs = drop_ref (pipe_at s i).write_refs }) s)
unfolding writer_detach
detach-live s i w ts l run = rw (l, writer_detach, run)

-- When the only writer leaves, readers get the end of the file: it is marked, and all of them are
-- woken in the order in which they came.
pub writer_detach_last :
    (s : State) (i : ℕ) (q : List ℕ)
    → Open s i 1 q
    → length q < 4
    → let s' = writer_detach (pos i) s in
      ((pipe_at s' i).eof ≡ true) × Open s' i 0 [] × (s'.sched ≡ unblock_all (map pos q) s.sched)
writer_detach_last s i q h few =
    let (w, run, empty) = drain-Holds 4 (pipe_at s i).readers q h.waiting few in
    let f : Pipe → Pipe = λ p. record p { write_refs = 0; eof = true; readers = w } in
    let same = get_or-modify_self s.pipes i f free_pipe (omega (arith, h.slots, h.in_range)) in
    rw (detach-live s i w (map pos q) (live-Open h) run, h.writers)
      (rw same, reopen s i f _ 0 [] h h.in_use refl empty, refl)

-- While another writer remains, only the count changes.
pub writer_detach_more :
    (s : State) (i n : ℕ) (q : List ℕ)
    → Open s i (suc n) q
    → length q < 4
    → 0 < n
    → n < 127
    → let s' = writer_detach (pos i) s in
      Open s' i n q × (s'.sched ≡ s.sched) × ((pipe_at s' i).eof ≡ (pipe_at s i).eof)
writer_detach_more s i n q h few some_left small =
    let (w, run, empty) = drain-Holds 4 (pipe_at s i).readers q h.waiting few in
    let refs : drop_ref (pipe_at s i).write_refs ≡ n = rw h.writers (ground arith) in
    let more : (drop_ref (pipe_at s i).write_refs == 0) ≡ false = rw refs (ground arith) in
    let f : Pipe → Pipe = λ p. record p { write_refs = drop_ref (pipe_at s i).write_refs } in
    let same = get_or-modify_self s.pipes i f free_pipe (omega (arith, h.slots, h.in_range)) in
    rw (detach-live s i w (map pos q) (live-Open h) run, more)
      (reopen s i f s.sched n q h h.in_use refs h.waiting, refl, rw same)

-- Attaching a writer adds one to the count, as long as the count fits in an `int8_t`.
pub writer_attach_lem :
    (s : State) (i n : ℕ) (q : List ℕ)
    → Open s i n q
    → n < 127
    → Open (writer_attach (pos i) s) i (n + 1) q × ((writer_attach (pos i) s).sched ≡ s.sched)
unfolding writer_attach
writer_attach_lem s i n q h small =
    rw (live-Open h, writer_attach)
      (reopen s i _ s.sched (n + 1) q h h.in_use (rw h.writers (omega arith)) h.waiting, refl)
