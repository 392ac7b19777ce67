-- ===== src/Task/Signals.antt =====
-- Signals, interval timers and the settings of a task in src/kernel/task.c.
use sistem_operasi.Base.{
  ℕ, zero, suc, ◌+◌, ◌-◌, Bool, true, false, ◌&&◌, not, Option, none, some, ℤ, pos, negsuc,
  index_below, if◌then◌else◌, ltb, ◌==◌, ltb_ℤ, pos_part,
}
use sistem_operasi.Task.{
  Sched, Task, Bits, task_at, on_task, max_tasks, is_used, is_running, unblock,
}
use sistem_operasi.Task.Exit.{exit_code}

-- SIGINT, SIGKILL, SIGALRM and SIGTERM
abbrev pub sigint : ℕ
sigint = 2

abbrev pub sigkill : ℕ
sigkill = 9

abbrev pub sigalrm : ℕ
sigalrm = 14

abbrev pub sigterm : ℕ
sigterm = 15

-- `bits | (1u << k)` and `bits & ~(1u << k)`
abbrev pub with_bit : ℕ → Bits → Bits
with_bit k bits j = if j == k then true else bits j

abbrev pub without_bit : ℕ → Bits → Bits
without_bit k bits j = if j == k then false else bits j

-- Some of the lowest `n` bits is set.
unfoldable pub any_bit : ℕ → Bits → Bool
any_bit zero bits = false
any_bit (suc n) bits = if bits n then true else any_bit n bits

-- `while (sig < 32 && !(bits & (1u << sig))) sig++;` over the `n` bits from `sig` on.
unfoldable pub first_bit : ℕ → ℕ → Bits → ℕ
first_bit zero sig bits = sig
first_bit (suc n) sig bits = let rest = first_bit n (suc sig) bits in if bits sig then sig else rest

-- `task_send_signal`
unfoldable pub send_signal : ℤ → ℤ → Sched → Sched
send_signal tid sig s = elim (index_below max_tasks tid) [
  | none ↦ s
  | some i ↦ elim (index_below 32 sig) [
    | none ↦ s
    | some k ↦
        if ltb 0 i && ((task_at s i).used && ltb 0 k)
        then (let s' =
              on_task i (λ t. record t { pending_signals = with_bit k t.pending_signals }) s in
            if is_running (task_at s' i).status then s' else unblock tid s')
        else s
  ]
]

abbrev pub terminating : Bits
terminating k = if k == sigint then true else if k == sigkill then true else k == sigterm

-- `sigs` and `masked` of `task_check_signals`
abbrev pub sigs : Task → Bits
sigs t k = t.pending_signals k && terminating k

abbrev pub deliverable : Task → Bits
deliverable t k = sigs t k && (if k == sigkill then true else not (t.signal_mask k))

-- The signal that ends the task, if one does.
unfoldable pub delivered : Task → Option ℕ
delivered t =
    if any_bit 32 (sigs t) && (t.is_user && any_bit 32 (deliverable t))
    then some (first_bit 31 1 (deliverable t))
    else none

-- `task_check_signals`
unfoldable pub check_signals : Sched → Sched
check_signals s = elim (delivered (task_at s s.current)) [
  | none ↦ s
  | some sig ↦ exit_code (pos (128 + sig)) s
]

-- A write to a task in use; the number is checked first.
abbrev pub on_used : ℤ → (Task → Task) → Sched → Sched
on_used id f s = elim (index_below max_tasks id) [
  | none ↦ s
  | some i ↦ if (task_at s i).used then on_task i f s else s
]

unfoldable pub set_signal_mask : ℤ → Bits → Sched → Sched
set_signal_mask tid mask s =
    on_used tid (λ t. record t { signal_mask = without_bit sigkill mask }) s

unfoldable pub set_rlimit : ℤ → ℕ → ℕ → Sched → Sched
set_rlimit tid mem_kb fds s =
    on_used tid (λ t. record t { rlimit_mem = mem_kb; rlimit_fds = fds }) s

unfoldable pub set_itimer : ℤ → ℕ → Sched → Sched
set_itimer tid ms s = on_used tid (λ t. record t { itimer_interval = ms; itimer_remaining = ms }) s

-- `task_set_priority`: 1 or 0.
unfoldable pub set_priority : ℤ → ℤ → Sched → Sched × Bool
set_priority id prio s =
    if is_used s id && (not (ltb_ℤ prio (pos 1)) && not (ltb_ℤ (pos 3) prio))
    then (let p = pos_part prio in (on_used id (λ t. record t { priority = p; ticks = p }) s, true))
    else (s, false)

-- The value put between -20 and 19.
abbrev pub clamp_nice : ℤ → ℤ
clamp_nice v = if ltb_ℤ v (negsuc 19) then negsuc 19 else if ltb_ℤ (pos 19) v then pos 19 else v

unfoldable pub set_nice : ℤ → ℤ → Sched → Sched × Bool
set_nice id v s =
    if is_used s id
    then (on_used id (λ t. record t { nice = clamp_nice v }) s, true)
    else (s, false)

unfoldable pub get_nice : ℤ → Sched → ℤ
get_nice id s = elim (index_below max_tasks id) [
  | none ↦ pos 0
  | some i ↦ if (task_at s i).used then (task_at s i).nice else pos 0
]

-- One slot's share of `task_itimer_tick`.
unfoldable pub itimer_one : ℕ → Sched → Sched
itimer_one i s =
    let t = task_at s i in
    if t.used && (t.is_user && (ltb 0 t.itimer_interval && ltb 0 t.itimer_remaining))
    then (let s1 = on_task i (λ u. record u { itimer_remaining = u.itimer_remaining - 1 }) s in
        if t.itimer_remaining == 1
        then on_task i (λ u. record u { itimer_remaining = u.itimer_interval })
            (send_signal (pos i) (pos sigalrm) s1)
        else s1)
    else s

-- The loop over `n` slots from `i` on.
unfoldable pub itimer_from : ℕ → ℕ → Sched → Sched
itimer_from zero i s = s
itimer_from (suc n) i s = itimer_from n (suc i) (itimer_one i s)

unfoldable pub itimer_tick : Sched → Sched
itimer_tick s = itimer_from max_tasks 0 s
