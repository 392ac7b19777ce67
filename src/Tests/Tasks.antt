-- ===== src/Tests/Tasks.antt =====
-- The scheduler, the signals and the end of a task at concrete tables.
use sistem_operasi.Base.{
  ℕ, zero, suc, ◌≡◌, refl, ◌≤ℤ◌, ◌<◌, ◌≤◌, true, false, some, pos, minus_one, arith, inl, inr,
  if◌then◌else◌, ◌==◌, ◌⊎◌, ◌∷◌, replicate, get_or,
}
use sistem_operasi.Task.{Task, Sched, task_at, blank}
use sistem_operasi.Task.Waking.{IsTable}
use sistem_operasi.Task.Schedule.{select, select_from, switch, is_waiting}
use sistem_operasi.Task.Selection.{Chosen, select_lem}
use sistem_operasi.Task.Ageing.{choose_times, older, choose_times-older}
use sistem_operasi.Task.Ownership.{on_boot, IsOwned, switch-IsOwned}
use sistem_operasi.Task.Signals.{delivered, send_signal, any_bit, first_bit}
use sistem_operasi.Task.Delivery.{send_signal-kills}
use sistem_operasi.Task.Exit.{is_child, exit_code}
use sistem_operasi.Task.Orphans.{exit_code-orphans}
use sistem_operasi.Tests.Tables.{runner}

abbrev pooled : Task
pooled = record runner { cpu_id = minus_one }

abbrev favoured : Task
favoured = record pooled { priority = 3 }

abbrev boot : Task
boot = record runner { ticks = 1 }

abbrev thread : Task
thread = record pooled { is_thread = true; parent_tid = pos 0 }

-- Task 0 runs, task 2 has the highest priority, and task 3 is a thread of task 0.
abbrev table : Sched
table = record {
  tasks = boot ∷ pooled ∷ favoured ∷ thread ∷ replicate 28 pooled;
  current = 0;
  current_ap = minus_one;
  count = 32;
  has_ap = false;
  exit_codes = replicate 32 (pos 0);
}

nice_pooled : (n j : ℕ) → (get_or (replicate n pooled) j blank).nice ≤ℤ pos 127
nice_pooled zero j = omega arith
nice_pooled (suc n) zero = omega arith
nice_pooled (suc n) (suc j) = nice_pooled n j

table-IsNice : (j : ℕ) → (task_at table j).nice ≤ℤ pos 127
table-IsNice zero = omega arith
table-IsNice (suc zero) = omega arith
table-IsNice (suc (suc zero)) = omega arith
table-IsNice (suc (suc (suc zero))) = omega arith
table-IsNice (suc (suc (suc (suc j)))) = nice_pooled 28 j

owned_pooled : (n j k : ℕ) → (on_boot (get_or (replicate n pooled) j blank) ≡ false) ⊎ (k ≡ 0)
owned_pooled zero j k = inl refl
owned_pooled (suc n) zero k = inl refl
owned_pooled (suc n) (suc j) k = owned_pooled n j k

table-IsOwned : IsOwned table
table-IsOwned zero = inr refl
table-IsOwned (suc zero) = inl refl
table-IsOwned (suc (suc zero)) = inl refl
table-IsOwned (suc (suc (suc zero))) = inl refl
table-IsOwned (suc (suc (suc (suc j)))) = owned_pooled 28 j (suc (suc (suc (suc j))))

table-IsTable : IsTable table
table-IsTable = record { slots = refl; current_in = omega arith }

select_lem_example : Chosen table (select table)
select_lem_example = select_lem table table-IsNice

selected : select table ≡ pos 2
unfolding select select_from
selected = refl

choose_times-older_example :
    ((k : ℕ) × (k < 3) × (select (choose_times k table) ≡ pos 1))
    ⊎ ((task_at (choose_times 3 table) 1 ≡ older 3 (task_at table 1))
        × (is_waiting (choose_times 3 table).current 1 (task_at (choose_times 3 table) 1) ≡ true))
choose_times-older_example =
    choose_times-older 3 1 table table-IsTable table-IsNice refl (omega arith)

switch-IsOwned_example : IsOwned (switch table)
switch-IsOwned_example = switch-IsOwned table table-IsTable table-IsNice table-IsOwned

-- SIGINT is masked, SIGALRM does not end a task, and SIGTERM does.
abbrev signalled : Task
signalled = record runner {
  pending_signals = λ k. if k == 2 then true else if k == 14 then true else k == 15;
  signal_mask = λ k. k == 2;
}

ended : delivered signalled ≡ some 15
unfolding delivered any_bit first_bit
ended = refl

send_signal-kills_example :
    (sig : ℕ) × ((delivered (task_at (send_signal (pos 2) (pos 9) table) 2) ≡ some sig) × (sig ≤ 9))
send_signal-kills_example =
    send_signal-kills table 2 table-IsTable (omega arith) (omega arith) refl refl

exit_code-orphans_example : is_child 0 (task_at (exit_code (pos 7) table) 3) ≡ false
exit_code-orphans_example =
    exit_code-orphans (pos 7) table 3 table-IsTable refl (omega arith) (omega arith)
