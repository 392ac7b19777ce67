-- ===== src/Task.antt =====
-- The task table of src/kernel/task.c and the operations that change one task's status.
-- A task's stack, page directory and FPU image belong to the hardware side and are left out.
pub mod Args
pub mod Create
pub mod Delivery
pub mod Exit
pub mod Handover
pub mod Ageing
pub mod Orphans
pub mod Ownership
pub mod Schedule
pub mod Selection
pub mod Signals
pub mod Waking
use sistem_operasi.Base.{
  ℕ, ◌+◌, ◌-◌, ◌%◌, ◌^◌, Bool, true, false, ◌&&◌, not, Option, none, some, List, [], ◌∷◌, ℤ, pos,
  negsuc, minus_one, get_or, modify, index_below, if◌then◌else◌, ltb, leb, ◌==◌,
}
use mathlib.Core.List.{map}

-- MAX_TASKS
abbrev pub max_tasks : ℕ
max_tasks = 32

-- TASK_RUNNING, TASK_BLOCKED, TASK_SLEEPING
pub data Status : Type 0 where
  running blocked sleeping : Status

-- A 32-bit word used as a set of bits: bit `k` is set.
abbrev pub Bits : Type 0
Bits = ℕ → Bool

abbrev pub no_bits : Bits
no_bits k = false

pub record Task : Type 0 where
  pub used : Bool
  pub status : Status
  pub wake_tick : ℕ
  pub name : List ℕ
  pub priority : ℕ
  pub ticks : ℕ
  pub pipe_id : ℤ
  pub cpu_id : ℤ
  pub is_user : Bool
  pub is_thread : Bool
  pub parent_tid : ℤ
  pub waiter : ℤ
  pub heap_end : ℕ
  pub pending_signals : Bits
  pub arg_argc : ℤ
  pub arg_buf : List ℕ
  pub nice : ℤ
  pub age_ticks : ℕ
  pub uid : ℤ
  pub fpu_valid : Bool
  pub itimer_interval : ℕ
  pub itimer_remaining : ℕ
  pub signal_mask : Bits
  pub rlimit_mem : ℕ
  pub rlimit_fds : ℕ

-- The static data of task.c; `current` is `current_task`, `current_ap` is `current_task_ap`.
pub record Sched : Type 0 where
  pub tasks : List Task
  pub current : ℕ
  pub current_ap : ℤ
  pub count : ℕ
  pub has_ap : Bool
  pub exit_codes : List ℤ

-- A slot of the zeroed static table.
abbrev pub blank : Task
blank = record {
  used = false;
  status = Status.running;
  wake_tick = 0;
  name = [];
  priority = 0;
  ticks = 0;
  pipe_id = pos 0;
  cpu_id = pos 0;
  is_user = false;
  is_thread = false;
  parent_tid = pos 0;
  waiter = pos 0;
  heap_end = 0;
  pending_signals = no_bits;
  arg_argc = pos 0;
  arg_buf = [];
  nice = pos 0;
  age_ticks = 0;
  uid = pos 0;
  fpu_valid = false;
  itimer_interval = 0;
  itimer_remaining = 0;
  signal_mask = no_bits;
  rlimit_mem = 0;
  rlimit_fds = 0;
}

-- `tasks[i]`
abbrev pub task_at : Sched → ℕ → Task
task_at s i = get_or s.tasks i blank

-- An assignment to fields of `tasks[i]`.
abbrev pub on_task : ℕ → (Task → Task) → Sched → Sched
on_task i f s = record s { tasks = modify s.tasks i f }

abbrev pub is_running : Status → Bool
is_running Status.running = true
is_running _ = false

abbrev pub is_blocked : Status → Bool
is_blocked Status.blocked = true
is_blocked _ = false

abbrev pub is_sleeping : Status → Bool
is_sleeping Status.sleeping = true
is_sleeping _ = false

unfoldable pub is_used : Sched → ℤ → Bool
is_used s id = elim (index_below max_tasks id) [ none ↦ false | some i ↦ (task_at s i).used ]

-- The assignment of `task_block`; its loop waits until another step makes the task runnable.
unfoldable pub block : Sched → Sched
block s = on_task s.current (λ t. record t { status = Status.blocked }) s

abbrev pub wake_blocked : Task → Task
wake_blocked t = if t.used && is_blocked t.status then record t { status = Status.running } else t

unfoldable pub unblock : ℤ → Sched → Sched
unblock id s = elim (index_below max_tasks id) [ none ↦ s | some i ↦ on_task i wake_blocked s ]

unfoldable pub yield_cpu : Sched → Sched
yield_cpu s = on_task s.current (λ t. if is_running t.status then record t { ticks = 1 } else t) s

-- The assignments of `task_sleep` at the tick `now`; 32-bit addition wraps.
unfoldable pub sleep : ℕ → ℕ → Sched → Sched
sleep ms now s =
    on_task s.current
      (λ t. record t {
        status = Status.sleeping;
        wake_tick = (now + (if ltb 0 ms then ms else 1)) % 2 ^ 32;
      })
      s

abbrev pub wake_sleeper : ℕ → Task → Task
wake_sleeper now t =
    if t.used && (is_sleeping t.status && leb t.wake_tick now)
    then record t { status = Status.running }
    else t

unfoldable pub check_sleepers : ℕ → Sched → Sched
check_sleepers now s = record s { tasks = map (wake_sleeper now) s.tasks }
