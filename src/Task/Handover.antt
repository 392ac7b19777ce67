-- ===== src/Task/Handover.antt =====
-- What the switch to the selected task does to every task of the table.
use mathlib.Core.Path.{subst}
use mathlib.Core.Bool.{true≢false}
use sistem_operasi.Base.{
  ℕ, zero, suc, ◌+◌, ◌<◌, ◌≡◌, refl, sym, ap, ◌∙◌, true, false, ◌&&◌, not, List, [], ◌∷◌, ℤ, pos,
  minus_one, if◌then◌else◌, ◌==◌, ◌≤ℤ◌, get_or, length, inl, inr, Bool-cases, arith, ==_iff,
  ==_refl, and_false, and_left, length-modify,
}
use sistem_operasi.Task.{Sched, Task, task_at, on_task, blank}
use sistem_operasi.Task.Waking.{task_at-on_task, IsTable}
use sistem_operasi.Task.Schedule.{
  is_waiting, select, age_one, age_from, hand_over, dispatch, choose,
}
use sistem_operasi.Task.Selection.{Chosen, select_lem}

-- The waiting tasks that are not chosen grow older, each in its own slot.
get_or-age_from :
    (current : ℕ) (best : ℤ) (i : ℕ) (ts : List Task) (k : ℕ)
    → get_or (age_from current best i ts) k blank ≡ age_one current best (i + k) (get_or ts k blank)
unfolding age_from
get_or-age_from current best i [] k = refl
get_or-age_from current best i (t ∷ ts) zero = let e : i + 0 ≡ i = omega arith in rw e refl
get_or-age_from current best i (t ∷ ts) (suc k) =
    let e : i + suc k ≡ suc i + k = omega arith in rw e (get_or-age_from current best (suc i) ts k)

pub length-age_from :
    (current : ℕ) (best : ℤ) (i : ℕ) (ts : List Task)
    → length (age_from current best i ts) ≡ length ts
unfolding age_from
length-age_from current best i [] = refl
length-age_from current best i (t ∷ ts) = ap suc (length-age_from current best (suc i) ts)

-- The table after the loop that ages the tasks.
abbrev pub aged : Sched → ℤ → Sched
aged s best = record s { tasks = age_from s.current best 0 s.tasks }

pub task_at-aged :
    (s : Sched) (best : ℤ) (j : ℕ)
    → task_at (aged s best) j ≡ age_one s.current best j (task_at s j)
task_at-aged s best j =
    let e : 0 + j ≡ j = omega arith in get_or-age_from s.current best 0 s.tasks j ∙ (rw e refl)

age_one-chosen : (current b : ℕ) (t : Task) → age_one current (pos b) b t ≡ t
age_one-chosen current b t = simp (==_refl (b + 0), and_false) refl

age_one-current : (current : ℕ) (best : ℤ) (t : Task) → age_one current best current t ≡ t
age_one-current current best t = simp (==_refl current, and_false) refl

-- A waiting task is not the current one.
pub is_waiting-other :
    (current i : ℕ) (t : Task) → is_waiting current i t ≡ true → (i == current) ≡ false
is_waiting-other current i t h = elim (Bool-cases (i == current)) [
  | inr other ↦ other
  | inl same ↦ absurd (true≢false (sym h ∙ (simp (same, and_false) refl)))
]

claimed :
    (s : Sched) (b j : ℕ)
    → IsTable s
    → b < 32
    → (b == s.current) ≡ false
    → task_at (hand_over b (aged s (pos b))) j ≡ (
        if b == j
        then record (task_at s j) { cpu_id = pos 0; age_ticks = 0 }
        else (if s.current == j
            then record (task_at s j) { cpu_id = minus_one; fpu_valid = true }
            else age_one s.current (pos b) j (task_at s j)))
claimed s b j v h other =
    let s1 = aged s (pos b) in
    let back : Task → Task = λ t. record t { cpu_id = minus_one; fpu_valid = true } in
    let take_it : Task → Task = λ t. record t { cpu_id = pos 0; age_ticks = 0 } in
    let n1 : length s1.tasks ≡ 32 = length-age_from s.current (pos b) 0 s.tasks ∙ v.slots in
    let n2 : length (on_task s.current back s1).tasks ≡ 32 =
      length-modify s1.tasks s.current back ∙ n1 in
    let e2 = task_at-on_task (on_task s.current back s1) b j take_it (omega (arith, n2, h)) in
    let e1 = λ (k : ℕ). task_at-on_task s1 s.current k back (omega (arith, n1, v)) in
    elim (Bool-cases (b == j)) [
      | inl same ↦
          let ne : (s.current == b) ≡ false = ground (arith, other) in
          let e : b ≡ j = (==_iff b j).0 same in
          rw
            (
              e2,
              same,
              e1 b,
              ne,
              task_at-aged s (pos b) b,
              age_one-chosen s.current b (task_at s b),
              e,
            )
            refl
      | inr differ ↦ elim (Bool-cases (s.current == j)) [
        | inl same ↦
            let e : s.current ≡ j = (==_iff s.current j).0 same in
            rw
              (
                e2,
                differ,
                e1 j,
                same,
                task_at-aged s (pos b) s.current,
                age_one-current s.current (pos b) (task_at s s.current),
                e,
              )
              refl
        | inr differs ↦ rw (e2, differ, e1 j, differs) (task_at-aged s (pos b) j)
      ]
    ]

-- When task `b` is selected on a full table whose nice values are those of an `int8_t`, it becomes
-- the current task and belongs to the boot processor with its age reset; the task that was current
-- goes back to the pool; and every other waiting task grows older by one, up to 2^32 - 1.
pub choose-hands_over :
    (s : Sched) (b j : ℕ)
    → IsTable s
    → ((i : ℕ) → (task_at s i).nice ≤ℤ pos 127)
    → select s ≡ pos b
    → ((choose s).current ≡ b)
      × (task_at (choose s) j ≡ (
          if b == j
          then record (task_at s j) { cpu_id = pos 0; age_ticks = 0 }
          else (if s.current == j
              then record (task_at s j) { cpu_id = minus_one; fpu_valid = true }
              else age_one s.current (pos b) j (task_at s j))))
unfolding dispatch
choose-hands_over s b j v nice chosen =
    let t = task_at s b in
    let found = subst (Chosen s) chosen (select_lem s nice) in
    let w = and_left (is_waiting s.current b t) (not (s.has_ap && not t.is_user)) found.1 in
    let aged_b = task_at-aged s (pos b) b ∙ age_one-chosen s.current b t in
    rw (chosen, dispatch, aged_b, w)
      (refl, claimed s b j v (omega (arith, v, found.0)) (is_waiting-other s.current b t w))
