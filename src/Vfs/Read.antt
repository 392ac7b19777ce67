-- ===== src/Vfs/Read.antt =====
-- Reading a file, a device, a pipe or a terminal through a descriptor: `vfs_read` in
-- src/kernel/vfs.c, less its arms for connections and /proc; the arm for
-- the keyboard, `read_key`, works on the driver's state.
use sistem_operasi.Base.{
  ℕ, ◌+◌, ◌-◌, ◌/◌, ◌%◌, ◌^◌, Bool, true, false, ◌||◌, ◌&&◌, not, Option, none, some, List, [], ◌∷◌,
  ℤ, pos, negsuc, minus_one, if◌then◌else◌, ltb, leb, ◌==◌, ltb_ℤ, pos_part, take, drop, replicate,
  length,
}
use sistem_operasi.Fs
use sistem_operasi.Pipe
use sistem_operasi.Keyboard
use sistem_operasi.Task
use sistem_operasi.Fs.Write
use sistem_operasi.Vfs.{Kind, Fd, State, fd_at, on_fd, live}
use sistem_operasi.Vfs.Redirect.{to_uint32, tty_pipe}

-- A conversion of a `uint32_t` to `int`.
unfoldable pub to_int : ℕ → ℤ
to_int n = if ltb n (2 ^ 31) then pos n else negsuc (2 ^ 32 - 1 - n)

-- What a read gives: the bytes that are put into `buf` with the value returned; an access outside the
-- file's buffer, on which C says nothing; or a round of `pipe_read` that has to
-- wait; or a task that has blocked until a key is typed.
pub data Got : Type 0 where
  bytes : List ℕ → ℤ → Got
  outside : Got
  pauses : Pipe.Read → Got
  waits_for_key : Got

-- `f->flags & (VFS_O_RDONLY | VFS_O_RDWR)`
abbrev pub may_read : ℕ → Bool
may_read flags = not (flags % 4 == 0)

-- `if (len > remaining) len = remaining;`
abbrev pub at_most : ℤ → ℤ → ℤ
at_most remaining len = if ltb_ℤ remaining len then remaining else len

-- `len` bytes of a buffer from `offset` on.
unfoldable pub slice : ℕ → ℤ → List ℕ → Got
slice offset len data_bytes =
    if leb (offset + pos_part len) (length data_bytes) || pos_part len == 0
    then Got.bytes (take (pos_part len) (drop offset data_bytes)) len
    else Got.outside

-- `f->offset += (uint32_t)len;`
abbrev pub advance : ℤ → Fd → Fd
advance len f = record f { offset = (f.offset + to_uint32 len) % 2 ^ 32 }

-- The arm for files, of a file of `size` bytes in `buffer`.
unfoldable pub read_stored : ℕ → ℕ → ℤ → ℕ → Fs.Buffer → State → State × Got
read_stored i j len size buffer s =
    let f = fd_at s i j in
    let remaining = to_int ((size + 2 ^ 32 - f.offset) % 2 ^ 32) in
    let n = at_most remaining len in
    if size == 0
    then (s, Got.bytes [] (pos 0))
    else if ltb_ℤ (pos 0) remaining
    then (on_fd i j (advance n) s, slice f.offset n buffer.bytes)
    else (s, Got.bytes [] (pos 0))

unfoldable pub read_file : ℕ → ℕ → List ℕ → ℤ → State → State × Got
read_file i j name len s = elim (Write.read_bin name s.files) [
  | none ↦ (s, Got.bytes [] (pos 0))
  | some (size, data_ptr) ↦ elim data_ptr [
    | none ↦ (s, Got.bytes [] (pos 0))
    | some buffer ↦ read_stored i j len size buffer s
  ]
]

-- The arm for /dev: VFS_DEV_ZERO fills the buffer, all else is at its end.
abbrev pub read_dev : ℕ → ℤ → Got
read_dev sub len =
    if sub == 1 then Got.bytes (replicate (pos_part len) 0) len else Got.bytes [] (pos 0)

-- What `vfs_read` makes of a round of `pipe_read`: the whole message goes to `buf`, and the value
-- returned is `len` at most.
abbrev pub cap_message : ℤ → Pipe.Read → Got
cap_message len Pipe.Read.invalid = Got.bytes [] minus_one
cap_message len Pipe.Read.end_of_file = Got.bytes [] (pos 0)
cap_message len (Pipe.Read.message cs) =
    Got.bytes cs (if ltb_ℤ (pos (length cs)) len then pos (length cs) else len)
cap_message len Pipe.Read.waits = Got.pauses Pipe.Read.waits
cap_message len Pipe.Read.retries = Got.pauses Pipe.Read.retries

-- The same for a terminal, which returns the message's length.
abbrev pub whole_message : Pipe.Read → Got
whole_message Pipe.Read.invalid = Got.bytes [] minus_one
whole_message Pipe.Read.end_of_file = Got.bytes [] (pos 0)
whole_message (Pipe.Read.message cs) = Got.bytes cs (pos (length cs))
whole_message Pipe.Read.waits = Got.pauses Pipe.Read.waits
whole_message Pipe.Read.retries = Got.pauses Pipe.Read.retries

-- VFS_EAGAIN
abbrev pub again : ℤ
again = negsuc 10

-- `(f->flags & VFS_O_NONBLOCK) && !pipe_has_data(id)`
abbrev pub would_block : ℕ → ℤ → State → Bool
would_block flags id s = flags / 8 % 2 == 1 && not (Pipe.has_data id s.pipes)

-- The arm for pipes, up to the first wait.
unfoldable pub read_pipe : ℤ → Bool → ℕ → ℤ → State → State × Got
read_pipe id true flags len s = (s, Got.bytes [] minus_one)
read_pipe id false flags len s =
    let (pipes, r) = Pipe.read_step id true s.pipes in
    if not (ltb_ℤ (pos 0) len)
    then (s, Got.bytes [] (pos 0))
    else if would_block flags id s
    then (s, Got.bytes [] again)
    else (record s { pipes = pipes }, cap_message len r)

-- The arm for the keyboard, on the driver's state, up to the first wait.
unfoldable pub read_key : ℕ → ℤ → Keyboard.State → Keyboard.State × Got
read_key flags len keys =
    let (rest, c) = Keyboard.get_char keys in
    if not (ltb_ℤ (pos 0) len)
    then (keys, Got.bytes [] (pos 0))
    else if Keyboard.has_char keys
    then (rest, Got.bytes (c ∷ []) (pos 1))
    else if flags / 8 % 2 == 1
    then (keys, Got.bytes [] again)
    else (
      record keys { waiter = pos keys.sched.current; sched = Task.block keys.sched },
      Got.waits_for_key,
    )

-- The arm for terminals, up to the first wait.
unfoldable pub read_tty : ℤ → ℕ → State → State × Got
read_tty id flags s =
    let (pipes, r) = Pipe.read_step (tty_pipe id s) true s.pipes in
    if would_block flags (tty_pipe id s) s
    then (s, Got.bytes [] again)
    else (record s { pipes = pipes }, whole_message r)

-- `vfs_read`; `none` where it turns to the keyboard (`read_key`), to a connection or to /proc.
unfoldable pub read : ℤ → ℤ → ℤ → State → Option (State × Got)
read task fd len s = elim (live s task fd) [
  | none ↦ some (s, Got.bytes [] minus_one)
  | some (i, j) ↦ elim (fd_at s i j).kind [
    | Kind.file name ↦
        if may_read (fd_at s i j).flags
        then some (read_file i j name len s)
        else some (s, Got.bytes [] minus_one)
    | Kind.dev ↦ some (s, read_dev (fd_at s i j).offset len)
    | Kind.pipe_to id to_write ↦ some (read_pipe id to_write (fd_at s i j).flags len s)
    | Kind.tty id ↦ some (read_tty id (fd_at s i j).flags s)
    | Kind.untyped ↦ some (s, Got.bytes [] minus_one)
    | Kind.stdout ↦ some (s, Got.bytes [] minus_one)
    | Kind.stdin ↦ none
    | Kind.net _ ↦ none
    | Kind.proc _ ↦ none
  ]
]
