-- ===== src/Vfs/Redirect.antt =====
-- The standard descriptors, turned to files and pipes, and the position, the flags and the state of a
-- descriptor, in src/kernel/vfs.c.
use sistem_operasi.Base.{
  ℕ, ◌+◌, ◌-◌, ◌/◌, ◌%◌, ◌^◌, Bool, true, false, ◌&&◌, Option, none, some, List, [], ◌∷◌, ℤ, pos,
  negsuc, minus_one, index_below, if◌then◌else◌, ◌==◌, get_or,
}
use sistem_operasi.Task.{max_tasks}
use sistem_operasi.Pipe
use sistem_operasi.Keyboard
use sistem_operasi.Fs.Write
use sistem_operasi.Vfs.{Kind, State, rdonly, wronly, fd_at, on_fd, to_int16, live, free_tty, max_fd}
use sistem_operasi.Vfs.Open.{fill, fill_stream, copy_name, is_readable, ensure_file}

-- A conversion of an `int` to `uint32_t`.
unfoldable pub to_uint32 : ℤ → ℕ
to_uint32 (pos n) = n % 2 ^ 32
to_uint32 (negsuc n) = 2 ^ 32 - 1 - n % 2 ^ 32

-- `fd_table[task][2] = fd_table[task][1];`
abbrev pub copy_stderr : ℕ → State → State
copy_stderr i s = on_fd i 2 (λ _. fd_at s i 1) s

-- The path of a redirection: neither null nor empty.
unfoldable pub some_path : ℤ → Option (List ℕ) → Option (ℕ × List ℕ)
some_path task none = none
some_path task (some []) = none
some_path task (some (c ∷ cs)) = elim (index_below max_tasks task) [
  | none ↦ none
  | some i ↦ some (i, c ∷ cs)
]

-- `vfs_redirect_out`
unfoldable pub redirect_out : ℤ → Option (List ℕ) → ℕ → State → State × ℤ
redirect_out task path tick s = elim (some_path task path) [
  | none ↦ (s, minus_one)
  | some (i, name) ↦
      let s1 = ensure_file name tick s in
      (copy_stderr i (on_fd i 1 (fill (Kind.file (copy_name name)) wronly 0) s1), pos 0)
]

-- `vfs_redirect_in`
unfoldable pub redirect_in : ℤ → Option (List ℕ) → State → State × ℤ
redirect_in task path s = elim (some_path task path) [
  | none ↦ (s, minus_one)
  | some (i, name) ↦
      if is_readable name s
      then (on_fd i 0 (fill (Kind.file (copy_name name)) rdonly 0) s, pos 0)
      else (s, minus_one)
]

-- The length that `fs_read_bin` leaves in `file_len`, which starts at 0.
unfoldable pub stored_size : List ℕ → State → ℕ
stored_size name s = elim (Write.read_bin name s.files) [ none ↦ 0 | some (size, _) ↦ size ]

-- `vfs_redirect_out_append`
unfoldable pub redirect_out_append : ℤ → Option (List ℕ) → ℕ → State → State × ℤ
redirect_out_append task path tick s = elim (some_path task path) [
  | none ↦ (s, minus_one)
  | some (i, name) ↦
      let size = stored_size name s in
      let (files, _) = Write.write name [] tick s.files in
      let s1 = if size == 0 then record s { files = files } else s in
      (copy_stderr i (on_fd i 1 (fill (Kind.file (copy_name name)) wronly size) s1), pos 0)
]

-- `vfs_redirect_out_pipe`
unfoldable pub redirect_out_pipe : ℤ → ℤ → State → State × ℤ
redirect_out_pipe task id s = elim (index_below max_tasks task) [
  | none ↦ (s, minus_one)
  | some i ↦
      let s1 = on_fd i 1 (fill_stream (Kind.pipe_to (to_int16 id) true) wronly) s in
      (record s1 { pipes = Pipe.writer_attach id s1.pipes }, pos 0)
]

-- `vfs_redirect_in_pipe`
unfoldable pub redirect_in_pipe : ℤ → ℤ → State → State × ℤ
redirect_in_pipe task id s = elim (index_below max_tasks task) [
  | none ↦ (s, minus_one)
  | some i ↦ (on_fd i 0 (fill_stream (Kind.pipe_to (to_int16 id) false) rdonly) s, pos 0)
]

-- The type test of `vfs_stdout_is_file`.
abbrev pub is_redirected : Kind → Bool
is_redirected (Kind.file _) = true
is_redirected (Kind.pipe_to _ _) = true
is_redirected (Kind.net _) = true
is_redirected (Kind.tty _) = true
is_redirected _ = false

unfoldable pub stdout_is_file : ℤ → State → Bool
stdout_is_file task s = elim (index_below max_tasks task) [
  | none ↦ false
  | some i ↦ (fd_at s i 1).used && is_redirected (fd_at s i 1).kind
]

-- `vfs_seek`
unfoldable pub seek : ℤ → ℤ → ℤ → State → State × ℤ
seek task fd offset s = elim (live s task fd) [
  | none ↦ (s, minus_one)
  | some (i, j) ↦ (on_fd i j (λ f. record f { offset = to_uint32 offset }) s, pos 0)
]

-- `vfs_set_flags`
unfoldable pub set_flags : ℤ → ℤ → ℕ → State → State × ℤ
set_flags task fd flags s = elim (live s task fd) [
  | none ↦ (s, minus_one)
  | some (i, j) ↦ (on_fd i j (λ f. record f { flags = flags % 256 }) s, pos 0)
]

-- The pipe behind a terminal.
abbrev pub tty_pipe : ℤ → State → ℤ
tty_pipe id s = elim (index_below 4 id) [
  | none ↦ minus_one
  | some i ↦ (get_or s.ttys i free_tty).pipe_id
]

-- Whether a descriptor is ready for POLLIN and for POLLOUT.
abbrev pub can_read : Kind → Keyboard.State → State → Bool
can_read Kind.stdin keys s = Keyboard.has_char keys
can_read (Kind.pipe_to id false) keys s = Pipe.has_data id s.pipes
can_read (Kind.file _) keys s = true
can_read (Kind.tty id) keys s = Pipe.has_data (tty_pipe id s) s.pipes
can_read _ keys s = false

abbrev pub can_write : Kind → Bool
can_write (Kind.pipe_to _ true) = true
can_write Kind.stdout = true
can_write (Kind.file _) = true
can_write (Kind.net _) = true
can_write _ = false

-- `vfs_fd_ready`: POLLERR is 4 and stands for a descriptor that is not in use.
unfoldable pub fd_ready : ℤ → ℤ → ℕ → Keyboard.State → State → ℕ
fd_ready task fd events keys s = elim (index_below max_tasks task) [
  | none ↦ 0
  | some i ↦ elim (index_below max_fd fd) [
    | none ↦ 0
    | some j ↦
        let f = fd_at s i j in
        let input = if events % 2 == 1 && can_read f.kind keys s then 1 else 0 in
        let output = if events / 2 % 2 == 1 && can_write f.kind then 2 else 0 in
        if f.used then input + output else 4
  ]
]
