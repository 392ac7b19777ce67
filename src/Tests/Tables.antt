-- ===== src/Tests/Tables.antt =====
-- Concrete tables that the other test modules share.
use sistem_operasi.Base.{true, false, pos, minus_one, replicate}
use sistem_operasi.Task.{Task, Sched, blank}

abbrev pub runner : Task
runner = record blank { used = true; priority = 2; ticks = 2; is_user = true }

-- Thirty-two tasks, all in use, with task 2 on the processor.
abbrev pub sched2 : Sched
sched2 = record {
  tasks = replicate 32 runner;
  current = 2;
  current_ap = minus_one;
  count = 32;
  has_ap = false;
  exit_codes = replicate 32 (pos 0);
}
