-- ===== src/Tests/Semaphores.antt =====
-- semaphore.c, condvar.c and the waking functions of task.c on concrete states.
use sistem_operasi.Base.{
  ◌+◌, ◌≡◌, ◌≤◌, refl, true, [], ◌∷◌, pos, minus_one, replicate, arith, ◌==◌, if◌then◌else◌, none,
}
use sistem_operasi.Ring.{push, pop}
use sistem_operasi.Waiters
use sistem_operasi.Waiters.{no_waiters}
use sistem_operasi.Task.{Status, task_at}
use sistem_operasi.Task.Waking.{IsTable}
use sistem_operasi.Semaphore.{
  Semaphore, State, free_sem, sem_at, post, post_step, live, raise, wait_step, try_wait,
}
use sistem_operasi.Semaphore.Value.{Live}
use sistem_operasi.Semaphore.Interleave.{
  Place, System, Step, Steps, Steps-taken, posting, park, round, go_to, raising, blocked_slot,
}
use sistem_operasi.Semaphore.LostWakeup.{parks_after_post}
use sistem_operasi.Condvar
use sistem_operasi.Condvar.{CondVar, free_cv, signal, broadcast, on_sched}
use sistem_operasi.Condvar.Signal.{Waited, broadcast_lem, wake_all}
use sistem_operasi.Tests.Tables.{sched2}

table : IsTable sched2
table = omega arith

abbrev with_sem : Semaphore → State
with_sem x = record { sems = x ∷ replicate 15 free_sem; sched = sched2 }

-- The value 2 with nobody waiting, 0 with nobody, with task 4, and with three tasks.
abbrev two : State
two = with_sem (record { value = 2; used = true; waiters = no_waiters })

abbrev zero : State
zero = with_sem (record { value = 0; used = true; waiters = no_waiters })

abbrev one_waits : State
one_waits = with_sem (record {
  value = 0;
  used = true;
  waiters = record { slots = pos 4 ∷ minus_one ∷ minus_one ∷ minus_one ∷ []; head = 0; tail = 1 };
})

two_live : Live two 0 2 []
two_live = record {
  slots = refl;
  in_range = omega arith;
  in_use = refl;
  counts = record { value = refl; waiting = record { ring = omega arith; queue = refl } };
}

one_live : Live one_waits 0 0 (4 ∷ [])
one_live = record {
  slots = refl;
  in_range = omega arith;
  in_use = refl;
  counts = record { value = refl; waiting = record { ring = omega arith; queue = refl } };
}

abbrev start : System
start = record { state = two; place = λ t. Place.outside; taken = 0; posted = 0 }

-- Task 1 is interrupted in `sem_post` behind the `sti`, task 3 takes from the value, and task 1 finds
-- nobody to wake.
abbrev interrupted : System
interrupted = round 0 3 (go_to 3 Place.trying (raising 0 1 start))

abbrev finish : System
finish = go_to 1 Place.outside interrupted

at_waking : interrupted.place 1 ≡ Place.waking minus_one
unfolding round raising post_step live raise Waiters.dequeue pop wait_step try_wait Waiters.enqueue
    push
at_waking = refl

nobody : blocked_slot minus_one interrupted.state.sched ≡ none
unfolding blocked_slot
nobody = refl

run : Steps 0 start finish
unfolding raising
run =
    Steps.next
      (Steps.next
        (Steps.next (Steps.next Steps.here (Step.posts start 1 refl))
          (Step.enters (raising 0 1 start) 3 refl))
        (Step.tries (go_to 3 Place.trying (raising 0 1 start)) 3 refl))
      (Step.misses interrupted 1 minus_one at_waking nobody)

posted_one : finish.posted ≡ 1
unfolding raising round
posted_one = refl

Steps-taken_example :
    (finish.taken ≤ 2 + finish.posted)
    × ((sem_at finish.state 0).value + finish.taken ≡ 2 + finish.posted)
Steps-taken_example =
    Steps-taken 0 2 start finish two_live refl refl run (omega (arith, posted_one))

-- Task 4 is in the ring and about to block.
abbrev in_gap : System
in_gap = record {
  state = one_waits;
  place = λ t. if 4 == t then Place.parking else Place.outside;
  taken = 0;
  posted = 0;
}

parks_after_post_example :
    let u = park 4 (posting 0 1 in_gap) in
    Steps 0 in_gap u
    × Live u.state 0 1 []
    × (u.place 4 ≡ Place.parked)
    × ((task_at u.state.sched 4).status ≡ Status.blocked)
    × ((post (pos 0) u.state).0.sched ≡ u.state.sched)
parks_after_post_example =
    parks_after_post 0 4 1 in_gap one_live table (omega arith) (omega arith) refl refl refl

-- Tasks 6 and 9 wait on condition variable 0.
abbrev cv : CondVar
cv = record {
  used = true;
  waiters = record { slots = pos 6 ∷ pos 9 ∷ minus_one ∷ minus_one ∷ []; head = 0; tail = 2 };
}

abbrev conds : Condvar.State
conds = record { cvs = cv ∷ replicate 7 free_cv; sems = two }

conds-Waited : Waited conds 0 (6 ∷ 9 ∷ [])
conds-Waited = record {
  slots = refl;
  in_range = omega arith;
  in_use = refl;
  waiting = record { ring = omega arith; queue = refl };
}

broadcast_lem_example :
    let (s', out) = broadcast (pos 0) conds in
    (out ≡ pos 0) × Waited s' 0 [] × (s'.sems ≡ on_sched (wake_all (6 ∷ 9 ∷ [])) two)
broadcast_lem_example = broadcast_lem conds 0 (6 ∷ 9 ∷ []) conds-Waited (omega arith)
