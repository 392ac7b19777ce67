-- ===== src/Task/Ownership.antt =====
-- A switch leaves no task but the new current one with the boot processor's number.
use sistem_operasi.Base.{
  ℕ, ◌-◌, ◌<◌, ◌≡◌, refl, sym, Bool, false, not, ◌&&◌, ◌≤ℤ◌, eqb_ℤ, ℤ, pos, negsuc, length, ◌⊎◌,
  inl, inr, Bool-cases, and_false, arith, ◌==◌, ==_iff, ltb,
}
use sistem_operasi.Task.{Sched, Task, task_at, on_task, is_running}
use sistem_operasi.Task.Waking.{task_at-on_task, IsTable, on_task-IsTable}
use sistem_operasi.Task.Schedule.{count_down, select, age_one, dispatch, choose, switch, is_waiting}
use sistem_operasi.Task.Handover.{task_at-aged, choose-hands_over}

-- A task in use whose `cpu_id` is 0.
abbrev pub on_boot : Task → Bool
on_boot t = t.used && eqb_ℤ t.cpu_id (pos 0)

-- Only the current task can have the boot processor's number.
abbrev pub IsOwned : Sched → Type 0
IsOwned s = (j : ℕ) → (on_boot (task_at s j) ≡ false) ⊎ (j ≡ s.current)

abbrev pub IsNice : Sched → Type 0
IsNice s = (j : ℕ) → (task_at s j).nice ≤ℤ pos 127

pub ℤ-cases : (z : ℤ) → ((n : ℕ) × (z ≡ pos n)) ⊎ ((n : ℕ) × (z ≡ negsuc n))
ℤ-cases (pos n) = inl (n, refl)
ℤ-cases (negsuc n) = inr (n, refl)

on_boot-age_one :
    (current : ℕ) (best : ℤ) (i : ℕ) (t : Task) → on_boot (age_one current best i t) ≡ on_boot t
on_boot-age_one current best i t =
    elim (Bool-cases
      (is_waiting current i t && (not (eqb_ℤ (pos i) best) && ltb t.age_ticks 4294967295))) [
        | inl h ↦ rw h refl
        | inr h ↦ rw h refl
      ]

choose-IsOwned : (s : Sched) → IsTable s → IsNice s → IsOwned s → IsOwned (choose s)
unfolding dispatch
choose-IsOwned s v nice o j = elim (ℤ-cases (select s)) [
  | inr (n, e) ↦
      rw
        (
          e,
          dispatch,
          task_at-aged s (negsuc n) j,
          on_boot-age_one s.current (negsuc n) j (task_at s j),
        )
        (o j)
  | inl (b, e) ↦
      let (c, eff) = choose-hands_over s b j v nice e in
      rw (c, eff)
        (elim (Bool-cases (b == j)) [
          | inl same ↦ inr (sym ((==_iff b j).0 same))
          | inr differ ↦ inl (
              rw differ (elim (Bool-cases (s.current == j)) [
                | inl same ↦ rw same (and_false (task_at s j).used)
                | inr differs ↦
                    rw (differs, on_boot-age_one s.current (pos b) j (task_at s j))
                      (elim (o j) [ inl h ↦ h | inr h ↦ absurd (ground arith) ])
              ]))
        ])
]

-- What the countdown changes is the time that the task has left.
count_down-ticks :
    (i : ℕ) (s : Sched)
    → ((count_down (pos i) s).0 ≡ s)
      ⊎ ((g : Task → ℕ) × ((count_down (pos i) s).0 ≡ on_task i (λ u. record u { ticks = g u }) s))
unfolding count_down
count_down-ticks i s =
    let t = task_at s i in
    elim (Bool-cases (t.used && is_running t.status)) [
      | inr h ↦ inl (rw h refl)
      | inl h ↦ elim (Bool-cases (ltb 1 t.ticks)) [
        | inl l ↦ inr (λ u. u.ticks - 1, rw (h, l) refl)
        | inr l ↦ inr (λ u. u.priority, rw (h, l) refl)
      ]
    ]

module _ (s : Sched) (i : ℕ) (g : Task → ℕ) (h : i < length s.tasks) where
  abbrev timed : Sched
  timed = on_task i (λ u. record u { ticks = g u }) s

  on_boot-timed : (j : ℕ) → on_boot (task_at timed j) ≡ on_boot (task_at s j)
  on_boot-timed j =
      rw (task_at-on_task s i j (λ u. record u { ticks = g u }) h) (elim (Bool-cases (i == j)) [
        | inl same ↦ let e : i ≡ j = (==_iff i j).0 same in rw (same, e) refl
        | inr differ ↦ rw differ refl
      ])

  nice-timed : (j : ℕ) → (task_at timed j).nice ≡ (task_at s j).nice
  nice-timed j =
      rw (task_at-on_task s i j (λ u. record u { ticks = g u }) h) (elim (Bool-cases (i == j)) [
        | inl same ↦ let e : i ≡ j = (==_iff i j).0 same in rw (same, e) refl
        | inr differ ↦ rw differ refl
      ])

-- What a switch relies on.
record IsReady (s : Sched) : Type 0 where
  pub table : IsTable s
  pub nice : IsNice s
  pub owned : IsOwned s

count_down-IsReady : (s : Sched) → IsReady s → IsReady (count_down (pos s.current) s).0
count_down-IsReady s r = elim (count_down-ticks s.current s) [
  | inl e ↦ rw e r
  | inr (g, e) ↦
      let h : s.current < length s.tasks = omega (arith, r.table) in
      rw e (record {
        table = on_task-IsTable s.current (λ u. record u { ticks = g u }) r.table;
        nice = λ j. rw (nice-timed s s.current g h j) (r.nice j);
        owned = λ j. rw (on_boot-timed s s.current g h j) (r.owned j);
      })
]

-- On a full table whose nice values are those of an `int8_t`, if only the current task has the boot
-- processor's number, then the same holds after `task_switch`.
pub switch-IsOwned : (s : Sched) → IsTable s → IsNice s → IsOwned s → IsOwned (switch s)
unfolding switch
switch-IsOwned s v nice o =
    let r = count_down-IsReady s (record { table = v; nice = nice; owned = o }) in
    elim (Bool-cases (ltb s.count 2)) [
      | inl few ↦ rw few o
      | inr enough ↦ elim (Bool-cases (count_down (pos s.current) s).1) [
        | inl more ↦ rw (enough, more) r.owned
        | inr over ↦
            rw (enough, over)
              (choose-IsOwned (count_down (pos s.current) s).0 r.table r.nice r.owned)
      ]
    ]
