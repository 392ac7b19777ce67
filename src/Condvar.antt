-- ===== src/Condvar.antt =====
-- src/kernel/condvar.c: eight condition variables, each with a ring of waiting tasks, used with a
-- semaphore as the mutex.
pub mod Signal
use sistem_operasi.Base.{
  ℕ, zero, suc, ◌+◌, Bool, true, false, Option, none, some, List, [], ◌∷◌, ℤ, pos, negsuc,
  minus_one, get_or, modify, index_below, if◌then◌else◌,
}
use sistem_operasi.Waiters
use sistem_operasi.Waiters.{Waiters, no_waiters}
use sistem_operasi.Task
use sistem_operasi.Task.{Sched}
use sistem_operasi.Semaphore

-- CV_MAX
abbrev pub cv_max : ℕ
cv_max = 8

pub record CondVar : Type 0 where
  pub used : Bool
  pub waiters : Waiters

-- The semaphores and the scheduler are those of semaphore.c and task.c.
pub record State : Type 0 where
  pub cvs : List CondVar
  pub sems : Semaphore.State

abbrev pub free_cv : CondVar
free_cv = record { used = false; waiters = no_waiters }

abbrev pub cv_at : State → ℕ → CondVar
cv_at s i = get_or s.cvs i free_cv

unfoldable pub init_all : List CondVar → List CondVar
init_all [] = []
init_all (c ∷ cs) = free_cv ∷ init_all cs

-- The scan of `cv_alloc`; the numbers left in the ring's slots stay.
unfoldable pub alloc_from : ℕ → List CondVar → List CondVar × ℤ
alloc_from i [] = ([], minus_one)
alloc_from i (c ∷ cs) =
    let (rest, id) = alloc_from (i + 1) cs in
    if c.used
    then (c ∷ rest, id)
    else (record { used = true; waiters = record c.waiters { head = 0; tail = 0 } } ∷ cs, pos i)

unfoldable pub alloc : State → State × ℤ
alloc s = let (cvs, id) = alloc_from 0 s.cvs in (record s { cvs = cvs }, id)

unfoldable pub free_slot : ℤ → State → State
free_slot id s = elim (index_below cv_max id) [
  | none ↦ s
  | some i ↦ record s { cvs = modify s.cvs i (λ c. record c { used = false }) }
]

unfoldable pub live : State → ℤ → Option ℕ
live s id = elim (index_below cv_max id) [
  | none ↦ none
  | some i ↦ if (cv_at s i).used then some i else none
]

-- The first part of `cv_wait`, up to the point where the caller blocks (`queued`) or, with the
-- ring full, yields: the mutex `sem_id` has been posted either way. After it the caller calls
-- `sem_wait`.
pub data Wait : Type 0 where
  invalid queued turned_away : Wait

unfoldable pub wait_release : ℤ → ℤ → State → State × Wait
wait_release id sem_id s = elim (live s id) [
  | none ↦ (s, Wait.invalid)
  | some i ↦
      let (w, ok) = Waiters.enqueue (cv_at s i).waiters s.sems.sched.current in
      let sems = (Semaphore.post sem_id s.sems).0 in
      if ok
      then (
        record s { cvs = modify s.cvs i (λ c. record c { waiters = w }); sems = sems },
        Wait.queued,
      )
      else (record s { sems = sems }, Wait.turned_away)
]

-- What follows before the `sem_wait`.
unfoldable pub wait_pause : Wait → State → State
wait_pause Wait.invalid s = s
wait_pause Wait.queued s = record s { sems = record s.sems { sched = Task.block s.sems.sched } }
wait_pause Wait.turned_away s = record s {
  sems = record s.sems { sched = Task.yield_cpu s.sems.sched };
}

abbrev pub on_sched : (Sched → Sched) → Semaphore.State → Semaphore.State
on_sched f s = record s { sched = f s.sched }

-- `cv_signal`
unfoldable pub signal : ℤ → State → State × ℤ
signal id s = elim (live s id) [
  | none ↦ (s, minus_one)
  | some i ↦
      let (w, tid) = Waiters.dequeue_keep (cv_at s i).waiters in
      (
        record {
          cvs = modify s.cvs i (λ c. record c { waiters = w });
          sems = on_sched (Task.unblock tid) s.sems;
        },
        pos 0,
      )
]

-- The loop of `cv_broadcast`, for at most `fuel` waiters: each one that is taken out is woken.
unfoldable pub wake_each : ℕ → Waiters → Sched → Waiters × Sched
wake_each zero w sched = (w, sched)
wake_each (suc fuel) w sched =
    let (w', tid) = Waiters.dequeue_keep w in
    elim tid [ negsuc n ↦ (w', sched) | pos t ↦ wake_each fuel w' (Task.unblock (pos t) sched) ]

-- `cv_broadcast`
unfoldable pub broadcast : ℤ → State → State × ℤ
broadcast id s = elim (live s id) [
  | none ↦ (s, minus_one)
  | some i ↦
      let (w, sched) = wake_each Waiters.waiter_max (cv_at s i).waiters s.sems.sched in
      (
        record {
          cvs = modify s.cvs i (λ c. record c { waiters = w });
          sems = record s.sems { sched = sched };
        },
        pos 0,
      )
]
