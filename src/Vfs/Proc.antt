-- ===== src/Vfs/Proc.antt =====
-- The texts of /proc: `proc_generate` of src/kernel/vfs.c. The tasks are those of `Task`; the numbers
-- that vmm.c, timer.c and smp.c hand over and the kernel's log are arguments.
use Prim.Native.String.{String}
use sistem_operasi.Base.{
  ℕ, zero, suc, ◌+◌, ◌-◌, ◌*◌, ◌/◌, ◌%◌, ◌^◌, Bool, true, false, ◌||◌, not, Option, none, some,
  List, [], ◌∷◌, ◌++◌, ℤ, pos, if◌then◌else◌, ltb, ◌==◌, ltb_ℤ, index_below, take, length, str_eq,
}
use sistem_operasi.Task.{Sched, Status, task_at, max_tasks, is_used}
use sistem_operasi.Fs.Names.{strip_prefix, slash}
use sistem_operasi.Vfs.{Kind, Fd, State, table, fd_at, on_fd, live}
use sistem_operasi.Vfs.Redirect.{to_uint32}
use sistem_operasi.Vfs.Decimal.{codes, number, parse_pid, is_digit_first}
use sistem_operasi.Vfs.Read.{Got, read, to_int, at_most, advance, slice}

-- What other files hand over: `pmm_free_count`, `get_ticks`, `cpu_count`, `smp_ap_started` and
-- `dmesg_read`.
pub record Machine : Type 0 where
  pub free_frames : ℕ
  pub ticks : ℕ
  pub cpu_count : ℕ
  pub ap_started : ℕ
  pub log : List ℕ

-- The number of a task with the blanks behind it.
abbrev pub padded : ℕ → List ℕ
padded i =
    number i ++ (if ltb i 10 then codes "   " else if ltb i 100 then codes "  " else codes " ")

-- The lines of the tasks in use, for `n` slots from `i` on.
unfoldable pub lines_from : (ℕ → List ℕ) → ℕ → ℕ → Sched → List ℕ
lines_from line zero i s = []
lines_from line (suc n) i s =
    let rest = lines_from line n (suc i) s in if (task_at s i).used then line i ++ rest else rest

-- A line of /proc/ps, and one of /proc itself.
abbrev pub ps_line : Sched → ℕ → List ℕ
ps_line s i =
    padded i
    ++ (codes " "
        ++ ((if i == s.current then codes "running   " else codes "blocked   ")
            ++ ((task_at s i).name ++ codes "\n")))

abbrev pub pid_line : ℕ → List ℕ
pid_line i = number i ++ codes "\n"

unfoldable pub ps_text : Sched → List ℕ
ps_text s =
    codes "TID  STATUS    NAME\n"
    ++ (codes "---- --------- --------------------------------\n"
        ++ lines_from (ps_line s) max_tasks 0 s)

abbrev pub total_frames : ℕ
total_frames = 16384 - 768

unfoldable pub meminfo_text : ℕ → List ℕ
meminfo_text free =
    codes "MemTotal:  "
    ++ (number (total_frames * 4)
        ++ (codes " kB\nMemFree:   "
            ++ (number (free * 4 % 2 ^ 32)
                ++ (codes " kB\nMemUsed:   "
                    ++ (number ((total_frames - free) * 4) ++ codes " kB\nPageSize:  4 kB\n")))))

unfoldable pub cpuinfo_text : Machine → List ℕ
cpuinfo_text m =
    codes "arch:    x86_64\nvendor:  Oria OS\nmode:    Long Mode (64-bit)\ncores:   "
    ++ (number m.cpu_count
        ++ (codes "\nonline:  " ++ (number ((m.ap_started + 1) % 2 ^ 32) ++ codes "\n")))

abbrev pub state_name : Sched → ℕ → List ℕ
state_name s i = if i == s.current then codes "R (running)" else elim (task_at s i).status [
  | Status.sleeping ↦ codes "S (sleeping)"
  | Status.blocked ↦ codes "D (blocked)"
  | Status.running ↦ codes "R (ready)"
]

unfoldable pub status_text : Sched → ℕ → List ℕ
status_text s i =
    let t = task_at s i in
    codes "Name:\t"
    ++ (t.name
        ++ (codes "\nPid:\t"
            ++ (number i
                ++ (codes "\nState:\t"
                    ++ (state_name s i
                        ++ (codes "\nPPid:\t"
                            ++ (number (to_uint32 t.parent_tid)
                                ++ (codes "\nPriority:\t"
                                    ++ (number t.priority ++ codes "\n")))))))))

-- MM_USER_CODE_BASE
abbrev pub user_code_base : ℕ
user_code_base = 0xC00000

unfoldable pub maps_text : ℕ → List ℕ
maps_text heap =
    let heap_line =
      codes "0000000000c00000   rw-p  [heap] size="
      ++ (number ((heap - user_code_base) % 2 ^ 32) ++ codes "\n") in
    codes "address            perm  region\n0000000000c00000   r-xp  [text]\n"
    ++ ((if ltb user_code_base heap then heap_line else [])
        ++ codes "0000000000f00000   rw-p  [stack]\n")

abbrev pub kind_text : Kind → List ℕ
kind_text Kind.stdin = codes "stdin"
kind_text Kind.stdout = codes "stdout"
kind_text (Kind.file name) = codes "file:" ++ name
kind_text (Kind.pipe_to _ _) = codes "pipe"
kind_text (Kind.net _) = codes "socket"
kind_text (Kind.tty _) = codes "tty"
kind_text (Kind.proc _) = codes "proc"
kind_text Kind.dev = codes "dev"
kind_text Kind.untyped = codes "?"

-- The descriptors in use, from number `j` on.
unfoldable pub fd_lines : ℕ → List Fd → List ℕ
fd_lines j [] = []
fd_lines j (f ∷ fs) =
    let rest = fd_lines (suc j) fs in
    if f.used then number j ++ (codes ": " ++ (kind_text f.kind ++ (codes "\n" ++ rest))) else rest

-- Whether a text starts like another.
abbrev pub starts : String → List ℕ → Bool
starts prefix path = elim (strip_prefix (codes prefix) path) [ none ↦ false | some _ ↦ true ]

abbrev pub skip_slash : List ℕ → List ℕ
skip_slash [] = []
skip_slash (c ∷ cs) = if c == slash then cs else c ∷ cs

-- The entry `rest` of task `pid`, an `int`.
unfoldable pub task_text : ℤ → List ℕ → State → List ℕ
task_text pid rest s = elim (index_below max_tasks pid) [
  | none ↦ codes "proc: PID tidak ada: " ++ (number (to_uint32 pid) ++ codes "\n")
  | some i ↦
      if not (is_used s.pipes.sched pid)
      then codes "proc: PID tidak ada: " ++ (number (to_uint32 pid) ++ codes "\n")
      else if str_eq rest [] || starts "st" rest
      then status_text s.pipes.sched i
      else if starts "ma" rest
      then maps_text (task_at s.pipes.sched i).heap_end
      else if starts "fd" rest
      then fd_lines 0 (table s i)
      else codes "proc: sub-path tidak dikenal: " ++ (rest ++ codes "\n")
]

unfoldable pub numbered_text : List ℕ → State → List ℕ
numbered_text path s =
    let (pid, rest) = parse_pid 0 path in task_text (to_int (pid % 2 ^ 32)) (skip_slash rest) s

unfoldable pub root_text : Sched → List ℕ
root_text s = codes "ps\nmeminfo\nuptime\ncpuinfo\ndmesg\n" ++ lines_from pid_line max_tasks 0 s

-- `proc_generate`: the text of an entry, cut to PROC_BUF_SIZE - 1 bytes.
unfoldable pub generate : Machine → List ℕ → State → List ℕ
generate m path s =
    let sched = s.pipes.sched in
    take 2047 (
      if str_eq path (codes "ps")
      then ps_text sched
      else if starts "mem" path
      then meminfo_text m.free_frames
      else if starts "u" path
      then number (m.ticks / 100) ++ codes " seconds\n"
      else if starts "cp" path
      then cpuinfo_text m
      else if starts "dm" path
      then m.log
      else if str_eq path [] || str_eq path (codes ".")
      then root_text sched
      else if is_digit_first path
      then numbered_text path s
      else codes "proc: unknown entry /proc/" ++ (path ++ codes "\n"))

-- The arm of `vfs_read` for /proc, which generates the text anew at its start; the text is kept for the
-- reads behind it.
unfoldable pub read_proc : Machine → ℕ → ℕ → List ℕ → ℤ → State → State × Got
read_proc m i j name len s =
    let f = fd_at s i j in
    let text = if f.offset == 0 then generate m name s else s.proc_buf in
    let s1 = record s { proc_buf = text } in
    let remaining = to_int ((length text + 2 ^ 32 - f.offset) % 2 ^ 32) in
    let n = at_most remaining len in
    if ltb_ℤ (pos 0) remaining
    then (on_fd i j (advance n) s1, slice f.offset n text)
    else (s1, Got.bytes [] (pos 0))

-- `vfs_read` with that arm too.
unfoldable pub read_any : Machine → ℤ → ℤ → ℤ → State → Option (State × Got)
read_any m task fd len s = elim (live s task fd) [
  | none ↦ read task fd len s
  | some (i, j) ↦ elim (fd_at s i j).kind [
    | Kind.proc name ↦ some (read_proc m i j name len s)
    | _ ↦ read task fd len s
  ]
]
