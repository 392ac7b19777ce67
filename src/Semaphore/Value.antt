-- ===== src/Semaphore/Value.antt =====
-- What `sem_wait` and `sem_post` do to a semaphore's value, its waiting tasks and the scheduler.
use sistem_operasi.Base.{
  ℕ, suc, ap, ◌+◌, ◌-◌, ◌%◌, ◌<◌, ◌≡◌, refl, ◌∙◌, true, false, List, [], ◌∷◌, ◌++◌, arith, length,
  length-modify, lt→ltb, some, ℤ, pos, minus_one, modify, get_or-modify_self,
}
use sistem_operasi.Waiters.Fifo.{Holds, enqueue-room, enqueue-full, dequeue-nil, dequeue-cons}
use sistem_operasi.Task
use sistem_operasi.Semaphore.{
  Semaphore, State, sem_at, free_sem, live, positive, Wait, try_wait, wait_step, raise, wake, post,
  post_step, post_rest,
}

-- Semaphore `x` has the value `v`, and the tasks `q` wait for it, longest first.
pub record Counts (x : Semaphore) (v : ℕ) (q : List ℕ) : Type 0 where
  pub value : x.value ≡ v
  pub waiting : Holds x.waiters q

-- A positive value is taken at once.
pub try_wait-suc :
    (t v : ℕ) (q : List ℕ) (x : Semaphore)
    → Counts x (suc v) q
    → suc v < 128
    → (y : Semaphore) × (try_wait t x ≡ (y, Wait.acquired)) × (y.used ≡ x.used) × Counts y v q
unfolding try_wait
try_wait-suc t v q x c small =
    let yes_positive : positive x.value ≡ true = rw c.value (ground arith) in
    (
      record x { value = x.value - 1 },
      rw (yes_positive, try_wait),
      refl,
      record { value = omega (arith, c.value); waiting = c.waiting },
    )

-- At 0 the task joins the waiting tasks, if fewer than three wait.
pub try_wait-queue :
    (t : ℕ) (q : List ℕ) (x : Semaphore)
    → Counts x 0 q
    → length q < 3
    → (y : Semaphore) × (try_wait t x ≡ (y, Wait.queued))
      × (y.used ≡ x.used)
      × Counts y 0 (q ++ (t ∷ []))
unfolding try_wait
try_wait-queue t q x c room =
    let (w, ok, h) = enqueue-room x.waiters q t c.waiting room in
    let at_zero : positive x.value ≡ false = rw c.value refl in
    (
      record x { waiters = w },
      rw (at_zero, try_wait, ok),
      refl,
      record { value = c.value; waiting = h },
    )

-- A fourth waiter is turned away, and nothing changes.
pub try_wait-full :
    (t : ℕ) (q : List ℕ) (x : Semaphore)
    → Counts x 0 q
    → length q ≡ 3
    → try_wait t x ≡ (x, Wait.retries)
unfolding try_wait
try_wait-full t q x c full =
    let at_zero : positive x.value ≡ false = rw c.value refl in
    rw (enqueue-full x.waiters q t c.waiting full, try_wait, at_zero)

abbrev pub first_or_none : List ℕ → ℤ
first_or_none [] = minus_one
first_or_none (t ∷ q) = pos t

abbrev pub rest : List ℕ → List ℕ
rest [] = []
rest (t ∷ q) = q

-- Posting adds one and takes out the longest waiting task.
pub raise_lem :
    (v : ℕ) (q : List ℕ) (x : Semaphore)
    → Counts x v q
    → (y : Semaphore) × (raise x ≡ (y, first_or_none q))
      × (y.used ≡ x.used)
      × Counts y ((v + 1) % 256) (rest q)
unfolding raise
raise_lem v [] x c = (
  record x { value = (x.value + 1) % 256 },
  rw (dequeue-nil x.waiters c.waiting, raise),
  refl,
  record { value = rw c.value refl; waiting = c.waiting },
)
raise_lem v (t ∷ q) x c =
    let (w, ok, h) = dequeue-cons x.waiters t q c.waiting in
    (
      record x { value = (x.value + 1) % 256; waiters = w },
      rw (ok, raise),
      refl,
      record { value = rw c.value refl; waiting = h },
    )

-- Semaphore `i` of the table is in use, with that value and those waiting tasks.
pub record Live (s : State) (i v : ℕ) (q : List ℕ) : Type 0 where
  pub slots : length s.sems ≡ 16
  pub in_range : i < 16
  pub in_use : (sem_at s i).used ≡ true
  pub counts : Counts (sem_at s i) v q

pub live-Live : {s : State} {i v : ℕ} {q : List ℕ} → Live s i v q → live s (pos i) ≡ some i
unfolding live
live-Live {i} h = rw (lt→ltb i 16 h.in_range, live, h.in_use)

-- Another semaphore in the same place.
pub put-Live :
    (s : State) (i : ℕ) (x : Semaphore) (sched : Task.Sched) {v : ℕ} {q : List ℕ} (v' : ℕ)
    (q' : List ℕ)
    → Live s i v q
    → x.used ≡ (sem_at s i).used
    → Counts x v' q'
    → Live (record s { sems = modify s.sems i (λ _. x); sched = sched }) i v' q'
put-Live s i x sched v' q' h u c =
    let same = get_or-modify_self s.sems i (λ _. x) free_sem (omega (arith, h.slots, h.in_range)) in
    record {
      slots = length-modify s.sems i (λ _. x) ∙ h.slots;
      in_range = h.in_range;
      in_use = rw same (u ∙ h.in_use);
      counts = rw same c;
    }

-- `sem_wait` on a positive value succeeds in its first round and takes one.
pub wait_step-acquires :
    (s : State) (i v : ℕ) (q : List ℕ)
    → Live s i (suc v) q
    → suc v < 128
    → let (s', out) = wait_step (pos i) s in
      (out ≡ Wait.acquired) × Live s' i v q × (s'.sched ≡ s.sched)
unfolding wait_step
wait_step-acquires s i v q h small =
    let (y, run, u, c) = try_wait-suc s.sched.current v q (sem_at s i) h.counts small in
    rw (live-Live h, wait_step, run) (refl, put-Live s i y s.sched v q h u c, refl)

-- At 0 the caller joins the waiting tasks.
pub wait_step-queues :
    (s : State) (i : ℕ) (q : List ℕ)
    → Live s i 0 q
    → length q < 3
    → let (s', out) = wait_step (pos i) s in
      (out ≡ Wait.queued) × Live s' i 0 (q ++ (s.sched.current ∷ [])) × (s'.sched ≡ s.sched)
unfolding wait_step
wait_step-queues s i q h room =
    let (y, run, u, c) = try_wait-queue s.sched.current q (sem_at s i) h.counts room in
    rw (live-Live h, wait_step, run)
      (refl, put-Live s i y s.sched 0 (q ++ (s.sched.current ∷ [])) h u c, refl)

-- When three tasks wait already, the caller has to try again.
pub wait_step-retries :
    (s : State) (i : ℕ) (q : List ℕ)
    → Live s i 0 q
    → length q ≡ 3
    → let (s', out) = wait_step (pos i) s in
      (out ≡ Wait.retries) × Live s' i 0 q × (s'.sched ≡ s.sched)
unfolding wait_step
wait_step-retries s i q h full =
    rw (live-Live h, wait_step, try_wait-full s.sched.current q (sem_at s i) h.counts full)
      (refl, put-Live s i (sem_at s i) s.sched 0 q h refl h.counts, refl)

pub post_step-run :
    (s : State) (i : ℕ) (y : Semaphore) (w : ℤ)
    → live s (pos i) ≡ some i
    → raise (sem_at s i) ≡ (y, w)
    → post_step (pos i) s ≡ (record s { sems = modify s.sems i (λ _. y) }, some w)
unfolding post_step
post_step-run s i y w l run = rw (l, post_step, run) refl

-- `sem_post` up to its `sti` adds one to the value and takes out the longest waiting task.
pub post_step-raises :
    (s : State) (i v : ℕ) (q : List ℕ)
    → Live s i v q
    → v < 127
    → let (s', out) = post_step (pos i) s in
      (out ≡ some (first_or_none q)) × Live s' i (v + 1) (rest q) × (s'.sched ≡ s.sched)
post_step-raises s i v q h small =
    let (y, run, u, c) = raise_lem v q (sem_at s i) h.counts in
    let no_wrap : (v + 1) % 256 ≡ v + 1 = omega arith in
    rw (post_step-run s i y (first_or_none q) (live-Live h) run)
      (refl, put-Live s i y s.sched (v + 1) (rest q) h u (rw no_wrap at c), refl)

pub post-run :
    (s : State) (i : ℕ) (y : Semaphore) (w : ℤ)
    → live s (pos i) ≡ some i
    → raise (sem_at s i) ≡ (y, w)
    → post (pos i) s ≡ (record s { sems = modify s.sems i (λ _. y); sched = wake w s.sched }, pos 0)
unfolding post
post-run s i y w l run = ap post_rest (post_step-run s i y w l run)

-- `sem_post` succeeds, adds one to the value, and wakes the longest waiting task.
pub post-raises :
    (s : State) (i v : ℕ) (q : List ℕ)
    → Live s i v q
    → v < 127
    → let (s', out) = post (pos i) s in
      (out ≡ pos 0) × Live s' i (v + 1) (rest q) × (s'.sched ≡ wake (first_or_none q) s.sched)
post-raises s i v q h small =
    let (y, run, u, c) = raise_lem v q (sem_at s i) h.counts in
    let no_wrap : (v + 1) % 256 ≡ v + 1 = omega arith in
    let step = post-run s i y (first_or_none q) (live-Live h) run in
    rw step (refl, put-Live s i y _ (v + 1) (rest q) h u (rw no_wrap at c), refl)
