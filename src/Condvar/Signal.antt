-- ===== src/Condvar/Signal.antt =====
-- Waiting on a condition variable, and waking one or all of those who wait.
use sistem_operasi.Base.{
  ℕ, zero, suc, ◌<◌, ◌≡◌, refl, ◌∙◌, true, some, List, [], ◌∷◌, ◌++◌, ℤ, pos, modify,
  get_or-modify_self, length-modify, arith, length, lt→ltb,
}
use sistem_operasi.Waiters.{Waiters}
use sistem_operasi.Waiters.Fifo.{
  Holds, enqueue-room, enqueue-full, dequeue_keep-nil, dequeue_keep-cons,
}
use sistem_operasi.Task
use sistem_operasi.Task.{Sched}
use sistem_operasi.Semaphore
use sistem_operasi.Condvar.{
  CondVar, State, cv_at, free_cv, live, Wait, wait_release, signal, wake_each, broadcast, on_sched,
}

-- Condition variable `i` is in use, and the tasks `q` wait on it, longest first.
pub record Waited (s : State) (i : ℕ) (q : List ℕ) : Type 0 where
  pub slots : length s.cvs ≡ 8
  pub in_range : i < 8
  pub in_use : (cv_at s i).used ≡ true
  pub waiting : Holds (cv_at s i).waiters q

live-Waited : {s : State} {i : ℕ} {q : List ℕ} → Waited s i q → live s (pos i) ≡ some i
unfolding live
live-Waited {i} h = rw (lt→ltb i 8 h.in_range, live, h.in_use)

put-Waited :
    (s : State) (i : ℕ) (w : Waiters) (sems : Semaphore.State) {q : List ℕ} (q' : List ℕ)
    → Waited s i q
    → Holds w q'
    → Waited (record { cvs = modify s.cvs i (λ c. record c { waiters = w }); sems = sems }) i q'
put-Waited s i w sems q' h v =
    let f : CondVar → CondVar = λ c. record c { waiters = w } in
    let same = get_or-modify_self s.cvs i f free_cv (omega (arith, h.slots, h.in_range)) in
    record {
      slots = length-modify s.cvs i f ∙ h.slots;
      in_range = h.in_range;
      in_use = rw same h.in_use;
      waiting = rw same v;
    }

-- `unblock` of each task, in order.
abbrev pub wake_all : List ℕ → Sched → Sched
wake_all [] s = s
wake_all (t ∷ q) s = wake_all q (Task.unblock (pos t) s)

-- `cv_signal` takes out the longest waiting task and wakes it; with none waiting it does nothing.
pub signal_lem :
    (s : State) (i t : ℕ) (q : List ℕ)
    → Waited s i (t ∷ q)
    → let (s', out) = signal (pos i) s in
      (out ≡ pos 0) × Waited s' i q × (s'.sems ≡ on_sched (Task.unblock (pos t)) s.sems)
unfolding signal
signal_lem s i t q h =
    let (w, ok, v) = dequeue_keep-cons (cv_at s i).waiters t q h.waiting in
    rw (live-Waited h, signal, ok) (refl, put-Waited s i w _ q h v, refl)

wake_each-Holds :
    (fuel : ℕ) (w : Waiters) (q : List ℕ) (sched : Sched)
    → Holds w q
    → length q < fuel
    → (w' : Waiters) × (wake_each fuel w sched ≡ (w', wake_all q sched)) × Holds w' []
unfolding wake_each
wake_each-Holds zero w q sched h lt = absurd (omega arith)
wake_each-Holds (suc fuel) w [] sched h lt =
    (w, rw (dequeue_keep-nil w h, wake_each, dequeue_keep-nil w h), h)
wake_each-Holds (suc fuel) w (t ∷ q) sched h lt =
    let (w1, ok, h1) = dequeue_keep-cons w t q h in
    let (w2, run, h2) = wake_each-Holds fuel w1 q (Task.unblock (pos t) sched) h1 (omega arith) in
    (w2, rw (ok, wake_each, ok, run), h2)

-- `cv_broadcast` wakes every waiting task, longest first, and leaves none in the ring.
pub broadcast_lem :
    (s : State) (i : ℕ) (q : List ℕ)
    → Waited s i q
    → length q < 4
    → let (s', out) = broadcast (pos i) s in
      (out ≡ pos 0) × Waited s' i [] × (s'.sems ≡ on_sched (wake_all q) s.sems)
unfolding broadcast
broadcast_lem s i q h few =
    let (w, run, v) = wake_each-Holds 4 (cv_at s i).waiters q s.sems.sched h.waiting few in
    rw (live-Waited h, broadcast, run) (refl, put-Waited s i w _ [] h v, refl)

-- With fewer than three waiting, `cv_wait` puts the caller behind them and posts the mutex.
pub wait_release-queues :
    (s : State) (i : ℕ) (sem_id : ℤ) (q : List ℕ)
    → Waited s i q
    → length q < 3
    → let (s', out) = wait_release (pos i) sem_id s in
      (out ≡ Wait.queued)
      × (s'.sems ≡ (Semaphore.post sem_id s.sems).0)
      × Waited s' i (q ++ (s.sems.sched.current ∷ []))
unfolding wait_release
wait_release-queues s i sem_id q h room =
    let (w, ok, v) = enqueue-room (cv_at s i).waiters q s.sems.sched.current h.waiting room in
    rw (live-Waited h, wait_release, ok)
      (refl, refl, put-Waited s i w _ (q ++ (s.sems.sched.current ∷ [])) h v)

-- With three waiting, `cv_wait` posts the mutex and turns the caller away.
pub wait_release-full :
    (s : State) (i : ℕ) (sem_id : ℤ) (q : List ℕ)
    → Waited s i q
    → length q ≡ 3
    → wait_release (pos i) sem_id s
      ≡ (record s { sems = (Semaphore.post sem_id s.sems).0 }, Wait.turned_away)
unfolding wait_release
wait_release-full s i sem_id q h full =
    let no_room = enqueue-full (cv_at s i).waiters q s.sems.sched.current h.waiting full in
    rw (live-Waited h, wait_release, no_room)
