-- ===== src/Semaphore/LostWakeup.antt =====
-- The gap in `sem_wait` between the `sti` behind `sem_enqueue` and the assignment of `task_block`.
use sistem_operasi.Base.{
  ℕ, zero, suc, ◌+◌, ◌<◌, ◌≡◌, refl, sym, ap, ap₂, ◌∙◌, none, some, List, [], ◌∷◌, arith, ==_refl,
  ==_iff, ◌==◌, ℤ, pos, Bool-cases, inl, inr, false, and_false, index_below, get_or, modify,
}
use mathlib.Core.Path.{subst, fun_ext}
use sistem_operasi.Task
use sistem_operasi.Task.{Sched, Status, task_at, wake_blocked, is_blocked, blank}
use sistem_operasi.Task.Waking.{IsTable, unblock-IsTable, task_at-on_task, task_at-unblock}
use sistem_operasi.Semaphore.{State, wait_after, post, wake, sem_at}
use sistem_operasi.Semaphore.Value.{
  Live, live-Live, post-raises, post-run, post_step-run, raise_lem,
}
use sistem_operasi.Semaphore.Interleave.{
  Place, System, Step, Steps, running_as, posting, park, resched, raising, blocked_slot, goto,
  go_to,
}

-- Waking a task that is not blocked does nothing to its status.
wake-running :
    (t : ℕ) (sched : Sched)
    → IsTable sched
    → t < 32
    → (task_at sched t).status ≡ Status.running
    → (task_at (wake (pos t) sched) t).status ≡ Status.running
unfolding wake
wake-running t sched v lt run = elim (Bool-cases (Task.is_used sched (pos t))) [
  | inl used ↦ rw (used, task_at-unblock sched t t v lt, ==_refl t) (ground arith)
  | inr free ↦ rw (free, run)
]

wake-IsTable : (id : ℤ) (sched : Sched) → IsTable sched → IsTable (wake id sched)
unfolding wake
wake-IsTable id sched v = elim (Bool-cases (Task.is_used sched id)) [
  | inl used ↦ rw used (unblock-IsTable id v)
  | inr free ↦ rw free v
]

-- A task that is not blocked is not found by the tests in front of the store.
blocked_slot-running :
    (t : ℕ) (sched : Sched)
    → t < 32
    → (task_at sched t).status ≡ Status.running
    → blocked_slot (pos t) sched ≡ none
unfolding blocked_slot
blocked_slot-running t sched lt run =
    let inside : index_below 32 (pos t) ≡ some t = ground arith in
    let awake : is_blocked (task_at sched t).status ≡ false = rw run refl in
    rw (inside, blocked_slot, awake, and_false (task_at sched t).used) refl

-- Waking leaves the table as it is where no blocked task is found.
modify_id {ℓ} :
    {A : Type ℓ} (xs : List A) (i : ℕ) (f : A → A) (d : A)
    → f (get_or xs i d) ≡ get_or xs i d
    → modify xs i f ≡ xs
modify_id [] i f d e = refl
modify_id (x ∷ xs) zero f d e = ap (λ y. y ∷ xs) e
modify_id (x ∷ xs) (suc i) f d e = ap (λ r. x ∷ r) (modify_id xs i f d e)

wake-missed :
    (t : ℕ) (sched : Sched)
    → t < 32
    → (task_at sched t).status ≡ Status.running
    → wake (pos t) sched ≡ sched
unfolding wake Task.unblock
wake-missed t sched lt run =
    let inside : index_below 32 (pos t) ≡ some t = ground arith in
    let awake : is_blocked (task_at sched t).status ≡ false = rw run refl in
    let same : wake_blocked (task_at sched t) ≡ task_at sched t =
      rw (awake, and_false (task_at sched t).used) refl in
    let tasks = modify_id sched.tasks t wake_blocked blank same in
    elim (Bool-cases (Task.is_used sched (pos t))) [
      | inl used ↦
          rw (used, inside, wake, Task.unblock) (ap (λ ts. record sched { tasks = ts }) tasks)
      | inr free ↦ rw (free, wake) refl
    ]

goto-goto :
    (t : ℕ) (p : Place) (places : ℕ → Place)
    → places t ≡ Place.outside
    → goto t Place.outside (goto t p places) ≡ places
goto-goto t p places out = fun_ext (λ u. elim (Bool-cases (t == u)) [
  | inl e ↦ rw e (sym out ∙ ap places ((==_iff t u).0 e))
  | inr e ↦ rw e refl
])

-- A `sem_post` that nothing interrupts and that finds nobody blocked is two of the steps.
posting-Steps :
    (i t p : ℕ) (s : System)
    → Live s.state i 0 (t ∷ [])
    → t < 32
    → s.place p ≡ Place.outside
    → (task_at s.state.sched t).status ≡ Status.running
    → Steps i s (posting i p s)
unfolding posting raising
posting-Steps i t p s h lt out run =
    let h' = resched s.state i 0 (t ∷ []) (record s.state.sched { current = p }) h in
    let s0 = running_as p s.state in
    let (y, took, u, c) = raise_lem 0 (t ∷ []) (sem_at s0 i) h'.counts in
    let s1 : State = record s0 { sems = modify s0.sems i (λ _. y) } in
    let raised : System = record s {
      state = s1;
      place = goto p (Place.waking (pos t)) s.place;
      posted = s.posted + 1;
    } in
    let first : raising i p s ≡ raised =
      rw (post_step-run s0 i y (pos t) (live-Live h') took) refl in
    let here_now : raised.place p ≡ Place.waking (pos t) = rw (==_refl p) refl in
    let missed = blocked_slot-running t s1.sched lt run in
    let whole : (post (pos i) s0).0 ≡ s1 =
      ap (λ r. r.0) (post-run s0 i y (pos t) (live-Live h') took)
      ∙ ap (λ sched. record s1 { sched = sched }) (wake-missed t s1.sched lt run) in
    let last : go_to p Place.outside raised ≡ posting i p s =
      ap₂
        (λ (state : State) (place : ℕ → Place). record s {
          state = state;
          place = place;
          posted = s.posted + 1;
        })
        (sym whole) (goto-goto p (Place.waking (pos t)) s.place out) in
    subst (Steps i s) last (
      Steps.next (subst (Steps i s) first (Steps.next Steps.here (Step.posts s p out)))
        (Step.misses raised p (pos t) here_now missed))

-- A task that is interrupted in the gap is lost: a `sem_post` there finds it not blocked yet, takes
-- it out of the ring and has no effect on it, and then it blocks. The value is positive, the ring is
-- empty, and no later `sem_post` wakes it.
pub parks_after_post :
    (i t p : ℕ) (s : System)
    → Live s.state i 0 (t ∷ [])
    → IsTable s.state.sched
    → t < 32
    → p < 32
    → s.place t ≡ Place.parking
    → s.place p ≡ Place.outside
    → (task_at s.state.sched t).status ≡ Status.running
    → let u = park t (posting i p s) in
      Steps i s u
      × Live u.state i 1 []
      × (u.place t ≡ Place.parked)
      × ((task_at u.state.sched t).status ≡ Status.blocked)
      × ((post (pos i) u.state).0.sched ≡ u.state.sched)
unfolding park posting wait_after wake Task.block Task.is_used
parks_after_post i t p s h v lt lp at_gap out run =
    let h' = resched s.state i 0 (t ∷ []) (record s.state.sched { current = p }) h in
    let (ok, after, woken) = post-raises (running_as p s.state) i 0 (t ∷ []) h' (omega arith) in
    let s1 = posting i p s in
    let u = park t s1 in
    let live = resched s1.state i 1 [] u.state.sched after in
    let table : IsTable s1.state.sched = rw woken (
      wake-IsTable (pos t) (running_as p s.state).sched
        (record { slots = v.slots; current_in = lp })) in
    (
      Steps.next (posting-Steps i t p s h lt out run) (Step.parks s1 t at_gap),
      live,
      rw (==_refl t),
      rw (
        task_at-on_task (running_as t s1.state).sched t t _ (omega (arith, table.slots)),
        ==_refl t,
      ),
      (post-raises u.state i 1 [] live (omega arith)).2,
    )
