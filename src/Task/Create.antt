-- ===== src/Task/Create.antt =====
-- The creation of tasks in src/kernel/task.c: the slot and its fields. The first stack frame, the
-- page tables and the page for thread-local data are the hardware side's; the descriptors that
-- `task_create_user`, `task_create_thread` and `task_create_fork` set up last are in `Vfs`.
use sistem_operasi.Base.{
  ℕ, zero, suc, ◌+◌, ◌-◌, Bool, true, false, not, Option, none, some, List, [], ◌∷◌, ◌++◌, ℤ, pos,
  minus_one, index_below, if◌then◌else◌, ltb, leb, get_or, take, drop, length, find_index,
  next_slot, str_copy, map, pos_part, ltb_ℤ,
}
use sistem_operasi.Task.{Sched, Task, Status, task_at, on_task, max_tasks, no_bits}

-- The scan for a free slot, which passes slot 0, the shell's.
abbrev pub find_free : Sched → Option ℕ
find_free s = next_slot (find_index (λ t. not t.used) (drop 1 s.tasks))

-- `if (id >= task_count) task_count = id + 1;`
abbrev pub raise_count : ℕ → Sched → Sched
raise_count id s = record s { count = if leb s.count id then id + 1 else s.count }

-- `task_init_common`
abbrev pub init_common : Task → Task
init_common t = record t {
  used = true;
  status = Status.running;
  wake_tick = 0;
  pipe_id = minus_one;
  waiter = minus_one;
  fpu_valid = false;
  itimer_interval = 0;
  itimer_remaining = 0;
  signal_mask = no_bits;
  rlimit_mem = 0;
  rlimit_fds = 0;
}

-- "[idle]", "thread" and "[shell]"
abbrev pub idle_name : List ℕ
idle_name = 91 ∷ 105 ∷ 100 ∷ 108 ∷ 101 ∷ 93 ∷ []

abbrev pub thread_name : List ℕ
thread_name = 116 ∷ 104 ∷ 114 ∷ 101 ∷ 97 ∷ 100 ∷ []

abbrev pub shell_name : List ℕ
shell_name = 91 ∷ 115 ∷ 104 ∷ 101 ∷ 108 ∷ 108 ∷ 93 ∷ []

abbrev pub user_heap_start : ℕ
user_heap_start = 0xC10000

-- `task_init`
unfoldable pub init : Sched → Sched
init s = record s {
  tasks =
      map (λ (t : Task). record t { used = false; status = Status.running; wake_tick = 0 }) s.tasks;
}

-- `task_set_main`
unfoldable pub set_main : Sched → Sched
set_main s =
    on_task 0
      (λ t. record t {
        used = true;
        status = Status.running;
        wake_tick = 0;
        priority = 3;
        ticks = 3;
        pipe_id = minus_one;
        cpu_id = pos 0;
        is_user = true;
        name = shell_name;
      })
      (record s { count = 1 })

abbrev pub kernel_task : Bool → Task → Task
kernel_task has_ap t = record (init_common t) {
  priority = 1;
  ticks = 1;
  heap_end = 0;
  cpu_id = if has_ap then pos 1 else minus_one;
  is_user = false;
  is_thread = false;
  parent_tid = minus_one;
  name = idle_name;
}

-- `task_create`: the new task's number, or -1.
unfoldable pub create : Sched → Sched × ℤ
create s = elim (find_free s) [
  | none ↦ (s, minus_one)
  | some id ↦ (on_task id (kernel_task s.has_ap) (raise_count id s), pos id)
]

-- `(argv && argv[k]) ? argv[k] : ""`
abbrev pub arg_at : List (Option (List ℕ)) → ℕ → List ℕ
arg_at argv k = elim (get_or argv k none) [ none ↦ [] | some a ↦ a ]

-- The loop that writes the arguments one behind the other, each with its 0: `n` arguments from
-- number `k` on, as long as less than 510 bytes are written.
unfoldable pub pack_from : ℕ → ℕ → List (Option (List ℕ)) → List ℕ → List ℕ
pack_from zero k argv out = out
pack_from (suc n) k argv out =
    let onward =
      pack_from n (suc k) argv (out ++ (take (510 - length out) (arg_at argv k) ++ (0 ∷ []))) in
    if ltb (length out) 510 then onward else out

-- `ac`: at most eight arguments.
abbrev pub arg_count : ℤ → ℤ
arg_count argc = if ltb_ℤ (pos 8) argc then pos 8 else argc

-- `arg_buf`, with its last 0.
abbrev pub pack_args : ℤ → List (Option (List ℕ)) → List ℕ
pack_args argc argv = pack_from (pos_part (arg_count argc)) 0 argv [] ++ (0 ∷ [])

-- "?" stands for a null pointer.
abbrev pub user_name : Option (List ℕ) → List ℕ
user_name none = 63 ∷ []
user_name (some name) = str_copy 32 name

abbrev pub user_task : Option (List ℕ) → ℤ → List (Option (List ℕ)) → Task → Task
user_task name argc argv t = record (init_common t) {
  priority = 2;
  ticks = 2;
  cpu_id = minus_one;
  heap_end = user_heap_start;
  is_user = true;
  is_thread = false;
  parent_tid = minus_one;
  name = user_name name;
  arg_argc = arg_count argc;
  arg_buf = pack_args argc argv;
}

-- `task_create_user`
unfoldable pub create_user : Option (List ℕ) → ℤ → List (Option (List ℕ)) → Sched → Sched × ℤ
create_user name argc argv s = elim (find_free s) [
  | none ↦ (s, minus_one)
  | some id ↦ (on_task id (user_task name argc argv) (raise_count id s), pos id)
]

abbrev pub thread_task : ℕ → Task → Task → Task
thread_task parent_tid parent t = record (init_common t) {
  priority = 2;
  ticks = 2;
  cpu_id = minus_one;
  heap_end = parent.heap_end;
  is_user = true;
  is_thread = true;
  parent_tid = pos parent_tid;
  name = thread_name;
}

-- `task_create_thread`: the parent is looked at after the count has been raised.
unfoldable pub create_thread : ℤ → Sched → Sched × ℤ
create_thread parent_tid s = elim (find_free s) [
  | none ↦ (s, minus_one)
  | some id ↦
      let s1 = raise_count id s in
      elim (index_below max_tasks parent_tid) [
        | none ↦ (s1, minus_one)
        | some p ↦
            if (task_at s1 p).used
            then (on_task id (thread_task p (task_at s1 p)) s1, pos id)
            else (s1, minus_one)
      ]
]

abbrev pub forked : Task → Task
forked parent = record parent {
  used = true;
  status = Status.running;
  cpu_id = minus_one;
  waiter = minus_one;
  is_thread = false;
  parent_tid = minus_one;
  wake_tick = 0;
}

-- `task_create_fork` of a task that the caller has checked.
unfoldable pub create_fork : ℕ → Sched → Sched × ℤ
create_fork parent_tid s = elim (find_free s) [
  | none ↦ (s, minus_one)
  | some id ↦
      let s1 = raise_count id s in (on_task id (λ t. forked (task_at s1 parent_tid)) s1, pos id)
]

-- `task_set_name`: `none` is a null pointer.
unfoldable pub set_name : ℤ → Option (List ℕ) → Sched → Sched
set_name id none s = s
set_name id (some name) s = elim (index_below max_tasks id) [
  | none ↦ s
  | some i ↦
      if (task_at s i).used then on_task i (λ t. record t { name = str_copy 32 name }) s else s
]

-- The getters of a slot's field, with what each gives for a number out of range.
abbrev pub field_of {ℓ} : {A : Type ℓ} → (Task → A) → A → ℤ → Sched → A
field_of f d id s = elim (index_below max_tasks id) [ none ↦ d | some i ↦ f (task_at s i) ]

-- The setters that do not look whether the slot is in use.
abbrev pub set_field : (Task → Task) → ℤ → Sched → Sched
set_field f id s = elim (index_below max_tasks id) [ none ↦ s | some i ↦ on_task i f s ]

unfoldable pub set_heap_end : ℤ → ℕ → Sched → Sched
set_heap_end id end s = set_field (λ t. record t { heap_end = end }) id s

unfoldable pub set_uid : ℤ → ℤ → Sched → Sched
set_uid id uid s = set_field (λ t. record t { uid = uid }) id s

unfoldable pub set_pipe : ℤ → ℤ → Sched → Sched
set_pipe id pipe_id s = set_field (λ t. record t { pipe_id = pipe_id }) id s
