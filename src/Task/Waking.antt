-- ===== src/Task/Waking.antt =====
-- Blocking, sleeping and waking: what each operation does to every task of the table.
use sistem_operasi.Base.{
  ℕ, ◌<◌, ◌≡◌, arith, ℤ, pos, negsuc, length, get_or-modify_self, get_or-modify_ne, length-modify,
  get_or-map, lt→ltb, true, ◌==◌, ==_iff, ==_refl, if◌then◌else◌, Bool-cases, inl, inr,
}
use sistem_operasi.Task.{
  Sched, Task, Status, task_at, on_task, wake_blocked, wake_sleeper, block, unblock, check_sleepers,
  blank,
}

-- The table has a slot for each number that the range checks let through.
pub record IsTable (s : Sched) : Type 0 where
  pub slots : length s.tasks ≡ 32
  pub current_in : s.current < 32

-- What a write to slot `i` does to slot `j`.
pub task_at-on_task :
    (s : Sched) (i j : ℕ) (f : Task → Task)
    → i < length s.tasks
    → task_at (on_task i f s) j ≡ (if i == j then f (task_at s i) else task_at s j)
task_at-on_task s i j f h = elim (Bool-cases (i == j)) [
  | inl same ↦
      let e : i ≡ j = (==_iff i j).0 same in rw (same, ← e) (get_or-modify_self s.tasks i f blank h)
  | inr other ↦ rw other (get_or-modify_ne s.tasks i j f blank (ground arith))
]

pub on_task-IsTable : (i : ℕ) (f : Task → Task) {s : Sched} → IsTable s → IsTable (on_task i f s)
on_task-IsTable i f {s} v = omega (arith, length-modify s.tasks i f)

pub unblock-IsTable : (id : ℤ) {s : Sched} → IsTable s → IsTable (unblock id s)
unfolding unblock
unblock-IsTable (pos i) {s} v = ground (arith, length-modify s.tasks i wake_blocked)
unblock-IsTable (negsuc n) v = v

-- `unblock` changes the one task that it names.
pub task_at-unblock :
    (s : Sched) (i j : ℕ)
    → IsTable s
    → i < 32
    → task_at (unblock (pos i) s) j ≡ (if i == j then wake_blocked (task_at s i) else task_at s j)
unfolding unblock
task_at-unblock s i j v h =
    rw (lt→ltb i 32 h, unblock) (task_at-on_task s i j wake_blocked (omega arith))

pub block-IsTable : {s : Sched} → IsTable s → IsTable (block s)
unfolding block
block-IsTable {s} v = on_task-IsTable s.current _ v

-- A used task that `block` has put to sleep is runnable again after an `unblock` of it, and no
-- other task changes on the way.
pub unblock-block :
    (s : Sched) (j : ℕ)
    → IsTable s
    → (task_at s s.current).used ≡ true
    → task_at (unblock (pos s.current) (block s)) j
      ≡ (if s.current == j then record (task_at s j) { status = Status.running } else task_at s j)
unfolding block
unblock-block s j v h = elim (Bool-cases (s.current == j)) [
  | inl same ↦
      let e : s.current ≡ j = (==_iff s.current j).0 same in
      rw (
        task_at-unblock (block s) s.current j (block-IsTable v) v.current_in,
        same,
        task_at-on_task s s.current s.current _ (omega arith),
        ==_refl s.current,
        h,
        ← e,
        h,
      )
  | inr other ↦ rw (
    task_at-unblock (block s) s.current j (block-IsTable v) v.current_in,
    other,
    task_at-on_task s s.current j _ (omega arith),
    other,
  )
]

-- The timer wakes exactly the used, sleeping tasks whose tick has come.
pub task_at-check_sleepers :
    (now : ℕ) (s : Sched) (i : ℕ)
    → i < length s.tasks
    → task_at (check_sleepers now s) i ≡ wake_sleeper now (task_at s i)
unfolding check_sleepers
task_at-check_sleepers now s i h = get_or-map s.tasks i (wake_sleeper now) blank blank h
