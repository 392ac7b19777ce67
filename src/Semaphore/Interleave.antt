-- ===== src/Semaphore/Interleave.antt =====
-- Every interleaving of tasks that call `sem_wait` and `sem_post` on semaphore `i` on one processor: a
-- task may be interrupted wherever interrupts are on, between any two steps below. The two stores of
-- `task_block` and `task_unblock` and the test in front of the latter are steps of their own.
use sistem_operasi.Base.{
  ℕ, zero, suc, ◌+◌, ◌<◌, ◌≤◌, ◌≡◌, ◌≢◌, List, [], ◌∷◌, ◌++◌, arith, length, ◌==◌, if◌then◌else◌,
  pos, length-append, Bool-cases, inl, inr, ltb, ltb→lt, ltb→le, ℤ, Option, none, some, ◌&&◌,
  index_below,
}
use sistem_operasi.Task
use sistem_operasi.Task.{Sched, Status, task_at, on_task, is_blocked}
use sistem_operasi.Semaphore.{State, Wait, wait_step, wait_after, post, post_step, sem_at}
use sistem_operasi.Semaphore.Value.{
  Live, rest, wait_step-acquires, wait_step-queues, wait_step-retries, post_step-raises,
}

-- Where a task stands: in neither call; in `sem_wait` at the top of a round, turned away by a full ring
-- and about to yield, in the ring but not yet blocked, or in the loop of `task_block`; in `sem_post`
-- behind its `sti` with the number that it took out of the ring, or about to wake that task.
pub data Place : Type 0 where
  outside trying yielding parking parked : Place
  waking : ℤ → Place
  setting : ℕ → Place

-- `taken` counts the calls of `sem_wait` that have taken from the value, and `posted` the calls of
-- `sem_post` that have added to it.
pub record System : Type 0 where
  pub state : State
  pub place : ℕ → Place
  pub taken : ℕ
  pub posted : ℕ

abbrev pub goto : ℕ → Place → (ℕ → Place) → ℕ → Place
goto t p places u = if t == u then p else places u

-- The state with task `t` on the processor.
abbrev pub running_as : ℕ → State → State
running_as t s = record s { sched = record s.sched { current = t } }

abbrev pub next_place : Wait → Place
next_place Wait.queued = Place.parking
next_place Wait.retries = Place.yielding
next_place _ = Place.outside

abbrev pub taken_after : Wait → ℕ → ℕ
taken_after Wait.acquired n = n + 1
taken_after _ n = n

-- One round of `sem_wait` by task `t`.
unfoldable pub round : ℕ → ℕ → System → System
round i t s =
    let (state, out) = wait_step (pos i) (running_as t s.state) in
    record s {
      state = state;
      place = goto t (next_place out) s.place;
      taken = taken_after out s.taken;
    }

abbrev pub after_raise : Option ℤ → Place
after_raise none = Place.outside
after_raise (some w) = Place.waking w

-- `sem_post` by task `t` up to its `sti`.
unfoldable pub raising : ℕ → ℕ → System → System
raising i t s =
    let (state, out) = post_step (pos i) (running_as t s.state) in
    record s { state = state; place = goto t (after_raise out) s.place; posted = s.posted + 1 }

-- The tests of `task_is_used` and `task_unblock`: the slot of a task that is blocked.
unfoldable pub blocked_slot : ℤ → Sched → Option ℕ
blocked_slot w sched = elim (index_below 32 w) [
  | none ↦ none
  | some j ↦ if (task_at sched j).used && is_blocked (task_at sched j).status then some j else none
]

-- The store of `task_unblock`.
unfoldable pub set_running : ℕ → ℕ → System → System
set_running t j s = record s {
  state = record s.state {
    sched = on_task j (λ u. record u { status = Status.running }) s.state.sched;
  };
  place = goto t Place.outside s.place;
}

-- `task_yield` by a task that was turned away.
unfoldable pub yield_in : ℕ → System → System
yield_in t s = record s {
  state = wait_after Wait.retries (running_as t s.state);
  place = goto t Place.trying s.place;
}

-- A call of `sem_post` by task `t` that nothing interrupts.
unfoldable pub posting : ℕ → ℕ → System → System
posting i t s = record s { state = (post (pos i) (running_as t s.state)).0; posted = s.posted + 1 }

-- The assignment of `task_block` by a task that has queued up.
unfoldable pub park : ℕ → System → System
park t s = record s {
  state = wait_after Wait.queued (running_as t s.state);
  place = goto t Place.parked s.place;
}

abbrev pub go_to : ℕ → Place → System → System
go_to t p s = record s { place = goto t p s.place }

pub data Step (i : ℕ) : System → System → Type 0 where
  enters : (s : System) (t : ℕ) → s.place t ≡ Place.outside → Step i s (go_to t Place.trying s)
  tries : (s : System) (t : ℕ) → s.place t ≡ Place.trying → Step i s (round i t s)
  parks : (s : System) (t : ℕ) → s.place t ≡ Place.parking → Step i s (park t s)
  resumes :
      (s : System) (t : ℕ)
      → s.place t ≡ Place.parked
      → (task_at s.state.sched t).status ≢ Status.blocked
      → Step i s (go_to t Place.trying s)
  yields : (s : System) (t : ℕ) → s.place t ≡ Place.yielding → Step i s (yield_in t s)
  posts : (s : System) (t : ℕ) → s.place t ≡ Place.outside → Step i s (raising i t s)
  finds :
      (s : System) (t j : ℕ) (w : ℤ)
      → s.place t ≡ Place.waking w
      → blocked_slot w s.state.sched ≡ some j
      → Step i s (go_to t (Place.setting j) s)
  misses :
      (s : System) (t : ℕ) (w : ℤ)
      → s.place t ≡ Place.waking w
      → blocked_slot w s.state.sched ≡ none
      → Step i s (go_to t Place.outside s)
  sets : (s : System) (t j : ℕ) → s.place t ≡ Place.setting j → Step i s (set_running t j s)

pub data Steps (i : ℕ) (s : System) : System → Type 0 where
  here : Steps i s s
  next : {t u : System} → Steps i s t → Step i t u → Steps i s u

-- With `n` in the account, the semaphore's value is what was there at first and was posted, less
-- what was taken; at most three tasks wait in its ring.
pub record Balanced (i n : ℕ) (s : System) : Type 0 where
  pub v : ℕ
  pub q : List ℕ
  pub live : Live s.state i v q
  pub few : length q < 4
  pub balance : v + s.taken ≡ n + s.posted

-- The scheduler does not matter to a semaphore.
pub resched :
    (s : State) (i v : ℕ) (q : List ℕ) (sched : Sched)
    → Live s i v q
    → Live (record s { sched = sched }) i v q
resched s i v q sched h = record {
  slots = h.slots;
  in_range = h.in_range;
  in_use = h.in_use;
  counts = h.counts;
}

round-cases :
    (i n t v : ℕ) (q : List ℕ) (s : System)
    → Live s.state i v q
    → length q < 4
    → v + s.taken ≡ n + s.posted
    → n + s.posted < 128
    → Balanced i n (round i t s)
unfolding round
round-cases i n t (suc v) q s h few e small =
    let h' = resched s.state i (suc v) q (record s.state.sched { current = t }) h in
    let (out, after, same) = wait_step-acquires (running_as t s.state) i v q h' (omega arith) in
    record { v = v; q = q; live = after; few = few; balance = rw out (omega arith) }
round-cases i n t zero q s h few e small =
    let h' = resched s.state i 0 q (record s.state.sched { current = t }) h in
    elim (Bool-cases (ltb (length q) 3)) [
      | inl room ↦
          let (out, after, same) =
            wait_step-queues (running_as t s.state) i q h' (ltb→lt (length q) 3 room) in
          record {
            v = 0;
            q = q ++ (t ∷ []);
            live = after;
            few = omega (arith, length-append q (t ∷ []), ltb→lt (length q) 3 room);
            balance = rw out e;
          }
      | inr full ↦
          let (out, after, same) =
            wait_step-retries (running_as t s.state) i q h'
              (omega (arith, ltb→le (length q) 3 full)) in
          record { v = 0; q = q; live = after; few = few; balance = rw out e }
    ]

length-rest : (q : List ℕ) → length (rest q) ≤ length q
length-rest [] = omega arith
length-rest (t ∷ q) = omega arith

raising-Balanced :
    (i n t : ℕ) (s : System)
    → Balanced i n s
    → n + suc s.posted < 128
    → Balanced i n (raising i t s)
unfolding raising
raising-Balanced i n t s b small =
    let h' = resched s.state i b.v b.q (record s.state.sched { current = t }) b.live in
    let (out, after, woken) =
      post_step-raises (running_as t s.state) i b.v b.q h' (omega (arith, b.balance)) in
    record {
      v = b.v + 1;
      q = rest b.q;
      live = after;
      few = omega (arith, length-rest b.q, b.few);
      balance = omega (arith, b.balance);
    }

posted-le : {i : ℕ} {s u : System} → Step i s u → s.posted ≤ u.posted
unfolding round raising park yield_in set_running
posted-le (enters s t p) = omega arith
posted-le (tries s t p) = omega arith
posted-le (parks s t p) = omega arith
posted-le (resumes s t p w) = omega arith
posted-le (yields s t p) = omega arith
posted-le (posts s t p) = omega arith
posted-le (finds s t j w p e) = omega arith
posted-le (misses s t w p e) = omega arith
posted-le (sets s t j p) = omega arith

Step-Balanced :
    {i n : ℕ} {s u : System} → Step i s u → n + u.posted < 128 → Balanced i n s → Balanced i n u
unfolding round raising park yield_in set_running wait_after Task.block Task.yield_cpu
Step-Balanced (enters s t p) small b = record {
  v = b.v;
  q = b.q;
  live = b.live;
  few = b.few;
  balance = b.balance;
}
Step-Balanced {i} {n} (tries s t p) small b =
    round-cases i n t b.v b.q s b.live b.few b.balance small
Step-Balanced {i} (parks s t p) small b = record {
  v = b.v;
  q = b.q;
  live = resched s.state i b.v b.q _ b.live;
  few = b.few;
  balance = b.balance;
}
Step-Balanced (resumes s t p w) small b = record {
  v = b.v;
  q = b.q;
  live = b.live;
  few = b.few;
  balance = b.balance;
}
Step-Balanced {i} (yields s t p) small b = record {
  v = b.v;
  q = b.q;
  live = resched s.state i b.v b.q _ b.live;
  few = b.few;
  balance = b.balance;
}
Step-Balanced (finds s t j w p e) small b = record {
  v = b.v;
  q = b.q;
  live = b.live;
  few = b.few;
  balance = b.balance;
}
Step-Balanced (misses s t w p e) small b = record {
  v = b.v;
  q = b.q;
  live = b.live;
  few = b.few;
  balance = b.balance;
}
Step-Balanced {i} (sets s t j p) small b = record {
  v = b.v;
  q = b.q;
  live = resched s.state i b.v b.q _ b.live;
  few = b.few;
  balance = b.balance;
}
Step-Balanced {i} {n} (posts s t p) small b = raising-Balanced i n t s b (omega arith)

Steps-Balanced :
    {i n : ℕ} {s u : System} → Steps i s u → n + u.posted < 128 → Balanced i n s → Balanced i n u
Steps-Balanced here small b = b
Steps-Balanced (next r st) small b =
    Step-Balanced st small (Steps-Balanced r (omega (arith, posted-le st)) b)

-- However calls of `sem_wait` and `sem_post` are interleaved on a semaphore in use that starts with
-- value `n` and no waiter, those of `sem_wait` that have taken from the value are at most as many as
-- `n` and the calls of `sem_post` that have added to it together, and the value is the difference,
-- while that sum fits in an `int8_t`.
pub Steps-taken :
    (i n : ℕ) (s u : System)
    → Live s.state i n []
    → s.taken ≡ 0
    → s.posted ≡ 0
    → Steps i s u
    → n + u.posted < 128
    → (u.taken ≤ n + u.posted) × ((sem_at u.state i).value + u.taken ≡ n + u.posted)
Steps-taken i n s u h t0 p0 r small =
    let start : Balanced i n s = record {
      v = n;
      q = [];
      live = h;
      few = omega arith;
      balance = omega arith;
    } in
    let b = Steps-Balanced r small start in omega (arith, b.balance, b.live.counts.value)
