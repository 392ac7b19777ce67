-- ===== src/Semaphore.antt =====
-- src/kernel/semaphore.c: sixteen counting semaphores, each with a ring of waiting tasks.
-- Interrupts are off between `cli` and `sti`, so that `wait_step`, one round of `sem_wait`, and
-- `post_step`, `sem_post` up to its `sti`, are single steps.
pub mod LostWakeup
pub mod Value
pub mod Interleave
use sistem_operasi.Base.{
  ℕ, ◌+◌, ◌-◌, ◌%◌, Bool, true, false, ◌&&◌, Option, none, some, List, [], ◌∷◌, ℤ, pos, minus_one,
  get_or, modify, index_below, if◌then◌else◌, ltb,
}
use sistem_operasi.Waiters
use sistem_operasi.Waiters.{Waiters, no_waiters}
use sistem_operasi.Task
use sistem_operasi.Task.{Sched}

-- SEM_MAX
abbrev pub sem_max : ℕ
sem_max = 16

-- `value` is the bit pattern of the `int8_t`.
pub record Semaphore : Type 0 where
  pub value : ℕ
  pub used : Bool
  pub waiters : Waiters

pub record State : Type 0 where
  pub sems : List Semaphore
  pub sched : Sched

abbrev pub free_sem : Semaphore
free_sem = record { value = 0; used = false; waiters = no_waiters }

abbrev pub sem_at : State → ℕ → Semaphore
sem_at s i = get_or s.sems i free_sem

unfoldable pub init_all : List Semaphore → List Semaphore
init_all [] = []
init_all (x ∷ xs) = free_sem ∷ init_all xs

-- `(int8_t)initial_value` of a 32-bit pattern keeps its low byte.
unfoldable pub alloc_from : ℕ → ℕ → List Semaphore → List Semaphore × ℤ
alloc_from v i [] = ([], minus_one)
alloc_from v i (x ∷ xs) =
    let (rest, id) = alloc_from v (i + 1) xs in
    if x.used
    then (x ∷ rest, id)
    else (record { value = v % 256; used = true; waiters = no_waiters } ∷ xs, pos i)

unfoldable pub alloc : ℕ → State → State × ℤ
alloc v s = let (sems, id) = alloc_from v 0 s.sems in (record s { sems = sems }, id)

unfoldable pub free_slot : ℤ → State → State
free_slot id s = elim (index_below sem_max id) [
  | none ↦ s
  | some i ↦ record s { sems = modify s.sems i (λ x. record x { used = false }) }
]

-- The number of a semaphore in use, after the range check.
unfoldable pub live : State → ℤ → Option ℕ
live s id = elim (index_below sem_max id) [
  | none ↦ none
  | some i ↦ if (sem_at s i).used then some i else none
]

-- `value > 0` of an `int8_t`'s bit pattern.
abbrev pub positive : ℕ → Bool
positive v = ltb 0 v && ltb v 128

-- How a round of `sem_wait` ends: by returning -1 or 0; with the task in the ring of waiters, about
-- to block; or, where the ring is full, about to yield. After the last two a new round begins.
pub data Wait : Type 0 where
  invalid acquired queued retries : Wait

-- One round on one semaphore.
unfoldable pub try_wait : ℕ → Semaphore → Semaphore × Wait
try_wait tid x =
    let (w, ok) = Waiters.enqueue x.waiters tid in
    if positive x.value
    then (record x { value = x.value - 1 }, Wait.acquired)
    else if ok
    then (record x { waiters = w }, Wait.queued)
    else (x, Wait.retries)

unfoldable pub wait_step : ℤ → State → State × Wait
wait_step id s = elim (live s id) [
  | none ↦ (s, Wait.invalid)
  | some i ↦
      let (x, out) = try_wait s.sched.current (sem_at s i) in
      (record s { sems = modify s.sems i (λ _. x) }, out)
]

-- What a task that has to wait does with interrupts on, before its next round.
unfoldable pub wait_after : Wait → State → State
wait_after Wait.queued s = record s { sched = Task.block s.sched }
wait_after Wait.retries s = record s { sched = Task.yield_cpu s.sched }
wait_after _ s = s

-- The part of `sem_post` between `cli` and `sti`, on one semaphore; `value++` wraps.
unfoldable pub raise : Semaphore → Semaphore × ℤ
raise x =
    let (w, tid) = Waiters.dequeue x.waiters in
    (record x { value = (x.value + 1) % 256; waiters = w }, tid)

-- `if (w >= 0 && w < MAX_TASKS && task_is_used(w)) task_unblock(w);`
unfoldable pub wake : ℤ → Sched → Sched
wake tid sched = if Task.is_used sched tid then Task.unblock tid sched else sched

-- `sem_post` up to its `sti`: the number that `sem_dequeue` gave, or none where the call returns -1.
unfoldable pub post_step : ℤ → State → State × Option ℤ
post_step id s = elim (live s id) [
  | none ↦ (s, none)
  | some i ↦
      let (x, tid) = raise (sem_at s i) in (record s { sems = modify s.sems i (λ _. x) }, some tid)
]

-- `sem_post` behind its `sti`.
abbrev pub post_rest : State × Option ℤ → State × ℤ
post_rest (s, none) = (s, minus_one)
post_rest (s, some tid) = (record s { sched = wake tid s.sched }, pos 0)

-- A whole call that nothing interrupts.
unfoldable pub post : ℤ → State → State × ℤ
post id s = post_rest (post_step id s)
