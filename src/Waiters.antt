-- ===== src/Waiters.antt =====
-- The ring of waiting task numbers that semaphore.c, pipe.c and condvar.c (src/kernel) each keep
-- in an array of four `int`, -1 where no task waits.
pub mod Fifo
use sistem_operasi.Base.{
  ℕ, Bool, true, false, Option, none, some, List, ℤ, pos, minus_one, replicate, set,
}
use sistem_operasi.Ring.{Ring, push, pop}

-- SEM_WAITER_MAX, PIPE_WAITER_MAX and CV_WAITER_MAX
abbrev pub waiter_max : ℕ
waiter_max = 4

abbrev pub Waiters : Type 0
Waiters = Ring ℤ

-- The ring as the `_init_all` and `_alloc` functions leave it.
abbrev pub no_waiters : Waiters
no_waiters = record { slots = replicate 4 minus_one; head = 0; tail = 0 }

-- `sem_enqueue`, `pipe_enqueue_waiter`, `cv_enqueue`: false is their -1, a full ring.
unfoldable pub enqueue : Waiters → ℕ → Waiters × Bool
enqueue w tid = elim (push waiter_max w (pos tid)) [ none ↦ (w, false) | some w' ↦ (w', true) ]

-- `sem_dequeue`, `pipe_dequeue_waiter`: the oldest waiter, whose slot is cleared, or -1.
unfoldable pub dequeue : Waiters → Waiters × ℤ
dequeue w = elim (pop waiter_max minus_one w) [
  | none ↦ (w, minus_one)
  | some (tid, w') ↦ (record w' { slots = set w'.slots w.head minus_one }, tid)
]

-- `cv_dequeue`: the same, but the slot keeps its number.
unfoldable pub dequeue_keep : Waiters → Waiters × ℤ
dequeue_keep w = elim (pop waiter_max minus_one w) [
  | none ↦ (w, minus_one)
  | some (tid, w') ↦ (w', tid)
]
