-- ===== src/Task/Exit.antt =====
-- The end of a task in src/kernel/task.c: `task_exit_code`, `task_wait`, `task_kill` and the exit
-- codes. Closing descriptors and freeing memory are the business of vfs.c and vmm.c.
use sistem_operasi.Base.{
  ℕ, zero, suc, ◌+◌, ◌-◌, Bool, true, false, ◌&&◌, none, some, ℤ, pos, minus_one, index_below,
  if◌then◌else◌, ltb, ◌==◌, eqb_ℤ, set, get_or,
}
use sistem_operasi.Task.{Sched, Task, task_at, on_task, max_tasks, is_used, block, unblock, no_bits}

-- `if (w >= 0 && w < MAX_TASKS && tasks[w].used) task_unblock(w);`
abbrev pub wake : ℤ → Sched → Sched
wake w s = if is_used s w then unblock w s else s

-- A thread in use of the process `owner`.
abbrev pub is_child : ℕ → Task → Bool
is_child owner t = t.used && (t.is_thread && eqb_ℤ t.parent_tid (pos owner))

-- The loop's work on slot `i`: a thread of `owner` ends, and who waits for it wakes up.
unfoldable pub end_thread : ℕ → ℕ → Sched → Sched
end_thread owner i s =
    let t = task_at s i in
    if is_child owner t
    then wake t.waiter (on_task i (λ u. record u { used = false; cpu_id = minus_one }) s)
    else s

-- The loop over `n` slots from `i` on.
unfoldable pub end_threads : ℕ → ℕ → ℕ → Sched → Sched
end_threads owner zero i s = s
end_threads owner (suc n) i s = end_threads owner n (suc i) (end_thread owner i s)

abbrev pub cleared : Task → Task
cleared t = record t {
  used = false;
  cpu_id = minus_one;
  waiter = minus_one;
  is_thread = false;
  pending_signals = no_bits;
}

-- `task_exit_code` up to its endless loop.
unfoldable pub exit_code : ℤ → Sched → Sched
exit_code code s =
    let tid = s.current in
    let t = task_at s tid in
    let s1 = record s { exit_codes = set s.exit_codes tid code } in
    let s2 = if t.is_thread then s1 else end_threads tid (max_tasks - 1) 1 s1 in
    wake t.waiter (on_task tid cleared s2)

unfoldable pub get_exit_code : ℤ → Sched → ℤ
get_exit_code tid s = elim (index_below max_tasks tid) [
  | none ↦ minus_one
  | some i ↦ get_or s.exit_codes i (pos 0)
]

-- `task_wait` up to the end of `task_block`'s assignment: whether the caller blocks.
unfoldable pub wait : ℤ → Sched → Sched × Bool
wait tid s = elim (index_below max_tasks tid) [
  | none ↦ (s, false)
  | some i ↦
      if ltb 0 i && (task_at s i).used
      then (block (on_task i (λ t. record t { waiter = pos s.current }) s), true)
      else (s, false)
]

-- What `task_wait` does when it runs again.
unfoldable pub wait_end : ℤ → Sched → Sched
wait_end tid s = elim (index_below max_tasks tid) [
  | none ↦ s
  | some i ↦ on_task i (λ t. record t { waiter = minus_one }) s
]

-- `task_kill`
unfoldable pub kill : ℤ → Sched → Sched × Bool
kill id s = elim (index_below max_tasks id) [
  | none ↦ (s, false)
  | some i ↦
      if ltb 0 i && (task_at s i).used
      then (
        record (on_task i (λ t. record t { used = false }) s) {
          count = if i + 1 == s.count then s.count - 1 else s.count;
        },
        true,
      )
      else (s, false)
]
