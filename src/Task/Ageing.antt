-- ===== src/Task/Ageing.antt =====
-- The age that keeps a waiting task from being passed over for ever: repeated runs of the selection of
-- `task_switch` in src/kernel/task.c.
use sistem_operasi.Base.{
  ℕ, zero, suc, ◌+◌, ◌<◌, ◌≤◌, ◌≡◌, ◌⊎◌, refl, sym, ap, ◌∙◌, true, false, ◌&&◌, not, Bool-cases,
  inl, inr, ℤ, pos, minus_one, negsuc, min, if◌then◌else◌, ◌==◌, ==_iff, ◌≤ℤ◌, ltb, eqb_ℤ, arith,
}
use mathlib.Core.Path.{subst}
use sistem_operasi.Task.{Sched, Task, task_at}
use sistem_operasi.Task.Waking.{IsTable, on_task-IsTable}
use sistem_operasi.Task.Schedule.{is_waiting, select, age_one, age_from, dispatch, choose}
use sistem_operasi.Task.Selection.{Chosen, select_lem}
use sistem_operasi.Task.Handover.{
  is_waiting-other, choose-hands_over, task_at-aged, length-age_from,
}
use sistem_operasi.Task.Ownership.{IsNice, ℤ-cases}

-- The selection `n` times in a row.
unfoldable pub choose_times : ℕ → Sched → Sched
choose_times zero s = s
choose_times (suc n) s = choose_times n (choose s)

-- A task that has been passed over `n` times; its age is a `uint32_t` that stops at its end.
abbrev pub older : ℕ → Task → Task
older n t = record t { age_ticks = min (t.age_ticks + n) 4294967295 }

age_one-older :
    (current : ℕ) (best : ℤ) (j : ℕ) (t : Task)
    → is_waiting current j t ≡ true
    → eqb_ℤ (pos j) best ≡ false
    → t.age_ticks ≤ 4294967295
    → age_one current best j t ≡ older 1 t
age_one-older current best j t w other small =
    let with_age = λ (n : ℕ). record t { age_ticks = n } in
    elim (Bool-cases (ltb t.age_ticks 4294967295)) [
      | inl below ↦
          let grown : t.age_ticks + 1 ≡ min (t.age_ticks + 1) 4294967295 = ground arith in
          (rw (w, other, below) refl) ∙ ap with_age grown
      | inr full ↦
          let stays : t.age_ticks ≡ min (t.age_ticks + 1) 4294967295 = ground arith in
          (rw (w, other, full) refl) ∙ ap with_age stays
    ]

age_one-nice :
    (current : ℕ) (best : ℤ) (i : ℕ) (t : Task) → (age_one current best i t).nice ≡ t.nice
age_one-nice current best i t =
    elim (Bool-cases
      (is_waiting current i t && (not (eqb_ℤ (pos i) best) && ltb t.age_ticks 4294967295))) [
        | inl h ↦ rw h refl
        | inr h ↦ rw h refl
      ]

-- Where no task is selected, the tasks have only aged.
choose-none :
    (s : Sched) (n : ℕ)
    → select s ≡ negsuc n
    → choose s ≡ record s { tasks = age_from s.current (negsuc n) 0 s.tasks }
unfolding dispatch
choose-none s n e = rw (e, dispatch) refl

dispatch-IsTable : (b : ℕ) (s : Sched) → b < 32 → IsTable s → IsTable (dispatch (pos b) s)
unfolding dispatch
dispatch-IsTable b s lt v = elim (Bool-cases (is_waiting s.current b (task_at s b))) [
  | inr h ↦ rw h v
  | inl h ↦
      let w =
        on_task-IsTable b (λ t. record t { cpu_id = pos 0; age_ticks = 0 })
          (on_task-IsTable s.current (λ t. record t { cpu_id = minus_one; fpu_valid = true }) v) in
      rw h (record { slots = w.slots; current_in = lt })
]

aged-IsTable :
    (s : Sched) (best : ℤ)
    → IsTable s
    → IsTable (record s { tasks = age_from s.current best 0 s.tasks })
aged-IsTable s best v = record {
  slots = length-age_from s.current best 0 s.tasks ∙ v.slots;
  current_in = v.current_in;
}

choose-IsTable : (s : Sched) → IsTable s → IsNice s → IsTable (choose s)
choose-IsTable s v nice = elim (ℤ-cases (select s)) [
  | inr (n, e) ↦ subst IsTable (sym (choose-none s n e)) (aged-IsTable s (negsuc n) v)
  | inl (b, e) ↦
      let found = subst (Chosen s) e (select_lem s nice) in
      let aged = aged-IsTable s (pos b) v in
      subst
        (λ best. IsTable (dispatch best (record s { tasks = age_from s.current best 0 s.tasks })))
        (sym e) (dispatch-IsTable b _ (omega (arith, found.0, v.slots)) aged)
]

switched-nice :
    (s : Sched) (b k : ℕ)
    → (if b == k
        then record (task_at s k) { cpu_id = pos 0; age_ticks = 0 }
        else (if s.current == k
            then record (task_at s k) { cpu_id = minus_one; fpu_valid = true }
            else age_one s.current (pos b) k (task_at s k))).nice
      ≡ (task_at s k).nice
switched-nice s b k = elim (Bool-cases (b == k)) [
  | inl e ↦ rw e refl
  | inr e ↦ elim (Bool-cases (s.current == k)) [
    | inl c ↦ rw (e, c) refl
    | inr c ↦ rw (e, c) (age_one-nice s.current (pos b) k (task_at s k))
  ]
]

choose-nice :
    (s : Sched) (k : ℕ) → IsTable s → IsNice s → (task_at (choose s) k).nice ≡ (task_at s k).nice
choose-nice s k v nice = elim (ℤ-cases (select s)) [
  | inr (n, e) ↦
      ap (λ (c : Sched). (task_at c k).nice) (choose-none s n e)
      ∙ ap (λ (t : Task). t.nice) (task_at-aged s (negsuc n) k)
      ∙ age_one-nice s.current (negsuc n) k (task_at s k)
  | inl (b, e) ↦
      ap (λ (t : Task). t.nice) ((choose-hands_over s b k v nice e).1) ∙ switched-nice s b k
]

choose-IsNice : (s : Sched) → IsTable s → IsNice s → IsNice (choose s)
choose-IsNice s v nice k = subst (λ n. n ≤ℤ pos 127) (sym (choose-nice s k v nice)) (nice k)

waits_on :
    (current b j : ℕ) (t : Task)
    → is_waiting current j t ≡ true
    → (b == j) ≡ false
    → is_waiting b j t ≡ true
waits_on current b j t w other =
    let was = is_waiting-other current j t w in
    let now : (j == b) ≡ false = ground (arith, other) in
    let same : is_waiting b j t ≡ is_waiting current j t = rw (was, now) refl in same ∙ w

-- One selection: the task is selected, or has grown older and waits on.
choose-older :
    (s : Sched) (j : ℕ)
    → IsTable s
    → IsNice s
    → is_waiting s.current j (task_at s j) ≡ true
    → (task_at s j).age_ticks ≤ 4294967295
    → (select s ≡ pos j)
      ⊎ ((task_at (choose s) j ≡ older 1 (task_at s j))
          × (is_waiting (choose s).current j (task_at s j) ≡ true))
choose-older s j v nice w small = elim (ℤ-cases (select s)) [
  | inr (n, e) ↦
      let same = choose-none s n e in
      inr (
        ap (λ (c : Sched). task_at c j) same
            ∙ task_at-aged s (negsuc n) j
            ∙ age_one-older s.current (negsuc n) j (task_at s j) w (ground arith) small,
        ap (λ (c : Sched). is_waiting c.current j (task_at s j)) same ∙ w,
      )
  | inl (b, e) ↦ elim (Bool-cases (b == j)) [
    | inl chosen ↦ inl (e ∙ ap pos ((==_iff b j).0 chosen))
    | inr other ↦
        let (c, eff) = choose-hands_over s b j v nice e in
        let away : (s.current == j) ≡ false =
          ground (arith, is_waiting-other s.current j (task_at s j) w) in
        inr (
          eff
              ∙ (rw (other, away)
                  (age_one-older s.current (pos b) j (task_at s j) w (ground (arith, other))
                    small)),
          ap (λ k. is_waiting k j (task_at s j)) c ∙ waits_on s.current b j (task_at s j) w other,
        )
  ]
]

older-older : (n : ℕ) (t : Task) → older n (older 1 t) ≡ older (suc n) t
older-older n t =
    let sum : min (min (t.age_ticks + 1) 4294967295 + n) 4294967295
        ≡ min (t.age_ticks + suc n) 4294967295 =
      omega arith in
    ap (λ a. record t { age_ticks = a }) sum

-- On a full table whose nice values are those of an `int8_t`, after `n` selections in a row of which
-- none selected the waiting task `j`, that task is as before and still waits, but its age, a
-- `uint32_t`, has grown by `n`, up to 2^32 - 1.
pub choose_times-older :
    (n j : ℕ) (s : Sched)
    → IsTable s
    → IsNice s
    → is_waiting s.current j (task_at s j) ≡ true
    → (task_at s j).age_ticks < 4294967296
    → let u = choose_times n s in
      ((k : ℕ) × (k < n) × (select (choose_times k s) ≡ pos j))
      ⊎ ((task_at u j ≡ older n (task_at s j)) × (is_waiting u.current j (task_at u j) ≡ true))
unfolding choose_times
choose_times-older zero j s v nice w small =
    let grown : (task_at s j).age_ticks ≡ min ((task_at s j).age_ticks + 0) 4294967295 =
      omega arith in
    inr (ap (λ a. record (task_at s j) { age_ticks = a }) grown, w)
choose_times-older (suc n) j s v nice w small = elim (choose-older s j v nice w (omega arith)) [
  | inl now ↦ inl (0, omega arith, now)
  | inr (aged, waits) ↦
      let still : is_waiting (choose s).current j (task_at (choose s) j) ≡ true =
        subst (λ t. is_waiting (choose s).current j t ≡ true) (sym aged) waits in
      let bound : (task_at (choose s) j).age_ticks < 4294967296 =
        subst (λ (t : Task). t.age_ticks < 4294967296) (sym aged) (omega arith) in
      elim (choose_times-older n j (choose s) (choose-IsTable s v nice) (choose-IsNice s v nice)
        still bound) [
          | inl (k, lt, chosen) ↦ inl (suc k, omega arith, chosen)
          | inr (older_n, waits_n) ↦
              inr (older_n ∙ ap (older n) aged ∙ older-older n (task_at s j), waits_n)
        ]
]
