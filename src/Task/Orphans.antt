-- ===== src/Task/Orphans.antt =====
-- The end of a process ends its threads.
use sistem_operasi.Base.{
  ℕ, zero, suc, ◌+◌, ◌≤◌, ◌<◌, ◌≡◌, refl, false, ◌&&◌, ℤ, pos, negsuc, minus_one, if◌then◌else◌,
  ltb, ltb→lt, set, ◌==◌, ==_iff, ◌⊎◌, inl, inr, Bool-cases, arith,
}
use sistem_operasi.Task.{Sched, Task, task_at, on_task, is_blocked, is_used, unblock}
use sistem_operasi.Task.Waking.{
  IsTable, on_task-IsTable, unblock-IsTable, task_at-on_task, task_at-unblock,
}
use sistem_operasi.Task.Exit.{wake, is_child, end_thread, end_threads, cleared, exit_code}

-- Waking a task leaves every task the child that it was.
is_child-unblock :
    (o : ℕ) (w : ℤ) (s : Sched) (j : ℕ)
    → IsTable s
    → is_child o (task_at (unblock w s) j) ≡ is_child o (task_at s j)
unfolding unblock
is_child-unblock o (negsuc n) s j v = refl
is_child-unblock o (pos i) s j v = elim (Bool-cases (ltb i 32)) [
  | inr out ↦ rw (out, unblock) refl
  | inl low ↦ rw (task_at-unblock s i j v (ltb→lt i 32 low)) (elim (Bool-cases (i == j)) [
    | inr differ ↦ rw differ refl
    | inl same ↦
        let e : i ≡ j = (==_iff i j).0 same in
        rw (same, e)
          (elim (Bool-cases ((task_at s j).used && is_blocked (task_at s j).status)) [
            | inl b ↦ rw b refl
            | inr b ↦ rw b refl
          ])
  ])
]

is_child-wake :
    (o : ℕ) (w : ℤ) (s : Sched) (j : ℕ)
    → IsTable s
    → is_child o (task_at (wake w s) j) ≡ is_child o (task_at s j)
is_child-wake o w s j v = elim (Bool-cases (is_used s w)) [
  | inl h ↦ rw h (is_child-unblock o w s j v)
  | inr h ↦ rw h refl
]

wake-IsTable : (w : ℤ) (s : Sched) → IsTable s → IsTable (wake w s)
wake-IsTable w s v = elim (Bool-cases (is_used s w)) [
  | inl h ↦ rw h (unblock-IsTable w v)
  | inr h ↦ rw h v
]

end_thread-IsTable : (o i : ℕ) (s : Sched) → IsTable s → IsTable (end_thread o i s)
unfolding end_thread
end_thread-IsTable o i s v = elim (Bool-cases (is_child o (task_at s i))) [
  | inl h ↦
      rw h (
        wake-IsTable _ _ (on_task-IsTable i (λ u. record u { used = false; cpu_id = minus_one }) v))
  | inr h ↦ rw h v
]

-- One round ends the thread in slot `i`, and makes no task a child.
is_child-end_thread :
    (o i : ℕ) (s : Sched) (j : ℕ)
    → IsTable s
    → i < 32
    → is_child o (task_at (end_thread o i s) j)
      ≡ (if i == j then false else is_child o (task_at s j))
unfolding end_thread
is_child-end_thread o i s j v l =
    let off : Task → Task = λ u. record u { used = false; cpu_id = minus_one } in
    let at1 = task_at-on_task s i j off (omega (arith, v, l)) in
    elim (Bool-cases (is_child o (task_at s i))) [
      | inl h ↦
          rw
            (
              h,
              is_child-wake o (task_at s i).waiter (on_task i off s) j (on_task-IsTable i off v),
              at1,
            )
            (elim (Bool-cases (i == j)) [ inl same ↦ rw same refl | inr differ ↦ rw differ refl ])
      | inr h ↦ rw h (elim (Bool-cases (i == j)) [
        | inl same ↦ let e : i ≡ j = (==_iff i j).0 same in rw (same, ← e) h
        | inr differ ↦ rw differ refl
      ])
    ]

-- A task that is no child stays none; those in the slots of the loop are none after it.
is_child-end_threads :
    (o n i : ℕ) (s : Sched) (j : ℕ)
    → IsTable s
    → i + n ≤ 32
    → ((i ≤ j) × (j < i + n)) ⊎ (is_child o (task_at s j) ≡ false)
    → is_child o (task_at (end_threads o n i s) j) ≡ false
unfolding end_threads
is_child-end_threads o zero i s j v l (inl h) = absurd (omega (arith, h.0, h.1))
is_child-end_threads o zero i s j v l (inr h) = h
is_child-end_threads o (suc n) i s j v l h =
    let step = is_child-end_thread o i s j v (omega arith) in
    is_child-end_threads o n (suc i) (end_thread o i s) j (end_thread-IsTable o i s v) (omega arith)
      (elim (Bool-cases (i == j)) [
        | inl same ↦ inr (rw (step, same) refl)
        | inr differ ↦ elim h [
          | inl b ↦ inl (ground (arith, b, differ), omega (arith, b))
          | inr f ↦ inr (rw (step, differ) f)
        ]
      ])

end_threads-IsTable : (o n i : ℕ) (s : Sched) → IsTable s → IsTable (end_threads o n i s)
unfolding end_threads
end_threads-IsTable o zero i s v = v
end_threads-IsTable o (suc n) i s v =
    end_threads-IsTable o n (suc i) (end_thread o i s) (end_thread-IsTable o i s v)

-- On a full table, after `task_exit_code` of a process no slot but slot 0 holds a thread of it.
pub exit_code-orphans :
    (code : ℤ) (s : Sched) (j : ℕ)
    → IsTable s
    → (task_at s s.current).is_thread ≡ false
    → 0 < j
    → j < 32
    → is_child s.current (task_at (exit_code code s) j) ≡ false
unfolding exit_code
exit_code-orphans code s j v process low high =
    let c = s.current in
    let s1 = record s { exit_codes = set s.exit_codes c code } in
    let v1 : IsTable s1 = record { slots = v.slots; current_in = v.current_in } in
    let s2 = end_threads c 31 1 s1 in
    let v2 : IsTable s2 = end_threads-IsTable c 31 1 s1 v1 in
    let gone : is_child c (task_at s2 j) ≡ false =
      is_child-end_threads c 31 1 s1 j v1 (omega arith) (inl (omega arith, omega arith)) in
    rw
      (
        process,
        is_child-wake c (task_at s c).waiter (on_task c cleared s2) j
            (on_task-IsTable c cleared v2),
        task_at-on_task s2 c j cleared (omega (arith, v, v2)),
      )
      (elim (Bool-cases (c == j)) [ inl same ↦ rw same refl | inr differ ↦ rw differ gone ])
