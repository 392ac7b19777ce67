-- ===== src/Task/Schedule.antt =====
-- The schedulers of src/kernel/task.c: `task_switch` for the boot processor and `task_switch_ap`
-- for a second one. The lock that both hold around the table makes each one step here.
use sistem_operasi.Base.{
  ℕ, zero, suc, ◌+◌, ◌-◌, ◌*◌, ◌/◌, ◌%◌, Bool, true, false, ◌&&◌, not, Option, none, some, List, [],
  ◌∷◌, ℤ, pos, negsuc, minus_one, if◌then◌else◌, ltb, ◌==◌, ◌+ℤ◌, ◌-ℤ◌, ltb_ℤ, eqb_ℤ,
}
use sistem_operasi.Task.{Sched, Task, task_at, on_task, is_running, max_tasks}

-- `task_tick_countdown_or_reset`: true when the task still has time left.
unfoldable pub count_down : ℤ → Sched → Sched × Bool
count_down (negsuc n) s = (s, false)
count_down (pos i) s =
    let t = task_at s i in
    if t.used && is_running t.status
    then (if ltb 1 t.ticks
        then (on_task i (λ u. record u { ticks = u.ticks - 1 }) s, true)
        else (on_task i (λ u. record u { ticks = u.priority }) s, false))
    else (s, false)

-- `priority * 4 - nice + (age_ticks >> 3)`
abbrev pub score : Task → ℤ
score t = (pos (t.priority * 4) -ℤ t.nice) +ℤ pos (t.age_ticks / 8)

-- The task in slot `i` waits for the boot processor: it is free, runnable and not the current one.
abbrev pub is_waiting : ℕ → ℕ → Task → Bool
is_waiting current i t =
    t.used && (is_running t.status && (eqb_ℤ t.cpu_id minus_one && not (i == current)))

-- With a second processor, the boot processor leaves the kernel's own tasks to it.
abbrev pub is_candidate : Bool → ℕ → ℕ → Task → Bool
is_candidate has_ap current i t = is_waiting current i t && not (has_ap && not t.is_user)

-- `best` and `best_score`
pub record Best : Type 0 where
  pub index : ℤ
  pub top : ℤ

abbrev pub no_best : Best
no_best = record { index = minus_one; top = negsuc 9998 }

abbrev pub better : Bool → ℕ → ℕ → Best → Task → Best
better has_ap current i b t =
    if is_candidate has_ap current i t && ltb_ℤ b.top (score t)
    then record { index = pos i; top = score t }
    else b

-- The loop of the selection, from slot `i` on.
unfoldable pub select_from : Bool → ℕ → ℕ → Best → List Task → Best
select_from has_ap current i b [] = b
select_from has_ap current i b (t ∷ ts) =
    select_from has_ap current (suc i) (better has_ap current i b t) ts

unfoldable pub select : Sched → ℤ
select s = (select_from s.has_ap s.current 0 no_best s.tasks).index

-- One task's share of the loop that ages the tasks not chosen; `age_ticks` stops at 2^32 - 1.
abbrev pub age_one : ℕ → ℤ → ℕ → Task → Task
age_one current best i t =
    if is_waiting current i t && (not (eqb_ℤ (pos i) best) && ltb t.age_ticks 4294967295)
    then record t { age_ticks = t.age_ticks + 1 }
    else t

unfoldable pub age_from : ℕ → ℤ → ℕ → List Task → List Task
age_from current best i [] = []
age_from current best i (t ∷ ts) = age_one current best i t ∷ age_from current best (suc i) ts

-- The old task goes back to the pool, the new one is claimed and becomes the current one.
abbrev pub hand_over : ℕ → Sched → Sched
hand_over next s =
    record (on_task next (λ t. record t { cpu_id = pos 0; age_ticks = 0 })
      (on_task s.current (λ t. record t { cpu_id = minus_one; fpu_valid = true }) s)) {
        current = next;
      }

-- The check of the choice, and the switch.
unfoldable pub dispatch : ℤ → Sched → Sched
dispatch (negsuc n) s = s
dispatch (pos next) s = if is_waiting s.current next (task_at s next) then hand_over next s else s

abbrev pub choose : Sched → Sched
choose s =
    let best = select s in dispatch best (record s { tasks = age_from s.current best 0 s.tasks })

-- `task_switch`
unfoldable pub switch : Sched → Sched
switch s =
    if ltb s.count 2
    then s
    else let (s', more) = count_down (pos s.current) s in if more then s' else choose s'

-- The cyclic search of `task_switch_ap` over `n` slots from `next` on.
unfoldable pub scan : (ℕ → Bool) → ℕ → ℕ → Option ℕ
scan test zero next = none
scan test (suc n) next =
    let rest = scan test n ((next + 1) % max_tasks) in if test next then some next else rest

-- A runnable kernel task with the given `cpu_id`.
abbrev pub is_stealable : Sched → ℤ → ℕ → Bool
is_stealable s cpu i =
    let t = task_at s i in t.used && (is_running t.status && (not t.is_user && eqb_ℤ t.cpu_id cpu))

-- The slot after the current task of the second processor.
abbrev pub next_slot : ℤ → ℕ
next_slot (pos i) = (i + 1) % max_tasks
next_slot (negsuc n) = 0

-- A task assigned to this processor, or else a free one.
unfoldable pub find_ap : ℤ → Sched → Option ℕ
find_ap cpu s =
    let start = next_slot s.current_ap in
    elim (scan (λ i. is_stealable s cpu i && not (eqb_ℤ (pos i) s.current_ap)) max_tasks start) [
      | some next ↦ some next
      | none ↦ scan (is_stealable s minus_one) max_tasks start
    ]

-- `cpu_id` of the task that runs on the second processor, when it is still in use.
unfoldable pub mark_ap : ℤ → Sched → Sched
mark_ap cpu s = elim s.current_ap [
  | negsuc n ↦ s
  | pos i ↦ if (task_at s i).used then on_task i (λ t. record t { cpu_id = cpu }) s else s
]

abbrev pub save_ap : Sched → Sched
save_ap s = elim s.current_ap [
  | negsuc n ↦ s
  | pos i ↦ if (task_at s i).used then on_task i (λ t. record t { fpu_valid = true }) s else s
]

abbrev pub claim_ap : ℤ → Sched → ℕ → Sched
claim_ap cpu s next =
    let free = mark_ap minus_one s in
    let claimed = on_task next (λ t. record t { cpu_id = cpu }) free in
    record (save_ap claimed) { current_ap = pos next }

-- `task_switch_ap` on the processor `cpu`.
unfoldable pub switch_ap : ℤ → Sched → Sched
switch_ap cpu s =
    if ltb s.count 1
    then s
    else (let (s', more) = count_down s.current_ap s in
        if more then s' else elim (find_ap cpu s') [
          | none ↦ mark_ap cpu s'
          | some next ↦
              if eqb_ℤ (pos next) s'.current_ap then mark_ap cpu s' else claim_ap cpu s' next
        ])
