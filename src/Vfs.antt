-- ===== src/Vfs.antt =====
-- The descriptors of src/kernel/vfs.c: the table of each task, and what opening, copying and closing
-- do to it and to the pipes behind it. The connections of net.c are known here by the calls of
-- `net_tcp_close` made for them, oldest first.
pub mod Open
pub mod Redirect
pub mod Read
pub mod Store
pub mod Proc
pub mod Decimal
pub mod Numbers
pub mod Table
pub mod Fork
pub mod Pieces
use sistem_operasi.Base.{
  ℕ, zero, suc, ◌+◌, ◌-◌, ◌%◌, Bool, true, false, ◌&&◌, not, Option, none, some, List, [], ◌∷◌,
  ◌++◌, ℤ, pos, negsuc, minus_one, index_below, if◌then◌else◌, ltb, ◌==◌, get_or, modify, set, map,
}
use sistem_operasi.Task.{max_tasks}
use sistem_operasi.Pipe
use sistem_operasi.Fs

-- VFS_MAX_FD
abbrev pub max_fd : ℕ
max_fd = 32

-- VFS_O_RDONLY, VFS_O_WRONLY and VFS_O_RDWR
abbrev pub rdonly : ℕ
rdonly = 1

abbrev pub wronly : ℕ
wronly = 2

abbrev pub rdwr : ℕ
rdwr = 3

-- `type` with the member of the union that it selects. A pipe has its end: `true` for `pipe_end == 1`,
-- the end for writing.
pub data Kind : Type 0 where
  untyped stdin stdout : Kind
  file : List ℕ → Kind
  pipe_to : ℤ → Bool → Kind
  net : ℤ → Kind
  tty : ℤ → Kind
  proc : List ℕ → Kind
  dev : Kind

pub record Fd : Type 0 where
  pub kind : Kind
  pub used : Bool
  pub flags : ℕ
  pub offset : ℕ

pub record TtySlot : Type 0 where
  pub used : Bool
  pub pipe_id : ℤ

pub record State : Type 0 where
  pub fds : List (List Fd)
  pub ttys : List TtySlot
  pub pipes : Pipe.State
  pub files : Fs.State
  pub net_closed : List ℤ
  pub proc_buf : List ℕ

abbrev pub free_fd : Fd
free_fd = record { kind = Kind.untyped; used = false; flags = 0; offset = 0 }

-- `fd_table[task]`, `fd_table[task][fd]` and an assignment to fields of the latter.
abbrev pub table : State → ℕ → List Fd
table s i = get_or s.fds i []

abbrev pub fd_at : State → ℕ → ℕ → Fd
fd_at s i j = get_or (table s i) j free_fd

abbrev pub on_fd : ℕ → ℕ → (Fd → Fd) → State → State
on_fd i j f s = record s { fds = modify s.fds i (λ fds. modify fds j f) }

-- A conversion to `int16_t`.
unfoldable pub to_int16 : ℤ → ℤ
to_int16 (pos n) = let m = n % 65536 in if ltb m 32768 then pos m else negsuc (65535 - m)
to_int16 (negsuc n) = let m = n % 65536 in if ltb m 32768 then negsuc m else pos (65535 - m)

abbrev pub clear : Fd → Fd
clear f = record f { used = false }

-- `vfs_init`
unfoldable pub init : State → State
init s = record s { fds = map (map clear) s.fds }

abbrev pub std : Kind → ℕ → Fd → Fd
std kind flags f = record f { used = true; kind = kind; flags = flags }

-- `vfs_init_task`
unfoldable pub init_task : ℤ → State → State
init_task task s = elim (index_below max_tasks task) [
  | none ↦ s
  | some i ↦ record s {
    fds = modify s.fds i (λ fds.
        modify
          (modify (modify (map clear fds) 0 (std Kind.stdin rdonly)) 1 (std Kind.stdout wronly)) 2
          (std Kind.stdout wronly));
  }
]

-- `vfs_copy_fds`
unfoldable pub copy_fds : ℤ → ℤ → State → State
copy_fds src dst s = elim (index_below max_tasks src) [
  | none ↦ s
  | some i ↦ elim (index_below max_tasks dst) [
    | none ↦ s
    | some j ↦ record s { fds = set s.fds j (table s i) }
  ]
]

-- What `vfs_close_all` does for a descriptor in use: the connection is closed, the writer leaves.
unfoldable pub release : Kind → State → State
release (Kind.net conn) s = record s { net_closed = s.net_closed ++ conn ∷ [] }
release (Kind.pipe_to id true) s = record s { pipes = Pipe.writer_detach id s.pipes }
release _ s = s

-- The loop of `vfs_close_all` over the rest of the task's table.
unfoldable pub close_rest : List Fd → State → List Fd × State
close_rest [] s = ([], s)
close_rest (f ∷ fs) s =
    let s1 = if f.used then release f.kind s else s in
    let (fs', s2) = close_rest fs s1 in (clear f ∷ fs', s2)

unfoldable pub close_all : ℤ → State → State
close_all task s = elim (index_below max_tasks task) [
  | none ↦ s
  | some i ↦ let (fds, s') = close_rest (table s i) s in record s' { fds = set s'.fds i fds }
]

abbrev pub free_tty : TtySlot
free_tty = record { used = false; pipe_id = pos 0 }

-- `vfs_close` of a terminal: its pipe and its slot are free again.
unfoldable pub close_tty : ℤ → State → State
close_tty id s = elim (index_below 4 id) [
  | none ↦ s
  | some i ↦
      let t = get_or s.ttys i free_tty in
      if t.used
      then record s {
        pipes = Pipe.free_slot t.pipe_id s.pipes;
        ttys = modify s.ttys i (λ u. record u { used = false });
      }
      else s
]

abbrev pub release_fd : Kind → State → State
release_fd (Kind.tty id) s = close_tty id s
release_fd kind s = release kind s

-- A descriptor in use, after the range checks.
unfoldable pub live : State → ℤ → ℤ → Option (ℕ × ℕ)
live s task fd = elim (index_below max_tasks task) [
  | none ↦ none
  | some i ↦ elim (index_below max_fd fd) [
    | none ↦ none
    | some j ↦ if (fd_at s i j).used then some (i, j) else none
  ]
]

-- `vfs_close`, which keeps the three standard descriptors.
unfoldable pub close : ℤ → ℤ → State → State × ℤ
close task fd s = elim (live s task fd) [
  | none ↦ (s, minus_one)
  | some (i, j) ↦
      if ltb j 3 then (s, minus_one) else (on_fd i j clear (release_fd (fd_at s i j).kind s), pos 0)
]
