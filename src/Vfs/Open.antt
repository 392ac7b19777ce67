-- ===== src/Vfs/Open.antt =====
-- New descriptors in src/kernel/vfs.c: files, entries of /proc and /dev, pipes, terminals and
-- connections.
use sistem_operasi.Base.{
  ℕ, zero, suc, ◌+◌, ◌/◌, ◌%◌, Bool, true, false, not, Option, none, some, List, [], ◌∷◌, ℤ, pos,
  negsuc, minus_one, index_below, if◌then◌else◌, ◌==◌, modify, str_eq, str_copy, find_index,
  next_slot,
}
use sistem_operasi.Task.{max_tasks}
use sistem_operasi.Pipe
use sistem_operasi.Fs.{max_name}
use sistem_operasi.Fs.Write
use sistem_operasi.Fs.Names.{strip_prefix}
use sistem_operasi.Vfs.{
  Kind, Fd, TtySlot, State, rdonly, wronly, rdwr, table, on_fd, to_int16, release,
}

-- The first descriptor not in use, from number `n` on.
unfoldable pub next_free : ℕ → List Fd → Option ℕ
next_free zero fds = find_index (λ (f : Fd). not f.used) fds
next_free (suc n) [] = none
next_free (suc n) (f ∷ fds) = next_slot (next_free n fds)

abbrev pub find_free : List Fd → Option ℕ
find_free fds = next_free 3 fds

-- `path[k]` copied up to FS_MAX_NAME - 1 bytes.
abbrev pub copy_name : List ℕ → List ℕ
copy_name path = str_copy max_name path

abbrev pub fill : Kind → ℕ → ℕ → Fd → Fd
fill kind flags offset f = record { kind = kind; used = true; flags = flags; offset = offset }

-- The same where the offset is left as it was.
abbrev pub fill_stream : Kind → ℕ → Fd → Fd
fill_stream kind flags f = record f { kind = kind; used = true; flags = flags }

-- "/proc/" and "/dev/", "null" and "zero"
abbrev pub proc_prefix : List ℕ
proc_prefix = 47 ∷ 112 ∷ 114 ∷ 111 ∷ 99 ∷ 47 ∷ []

abbrev pub dev_prefix : List ℕ
dev_prefix = 47 ∷ 100 ∷ 101 ∷ 118 ∷ 47 ∷ []

abbrev pub null_name : List ℕ
null_name = 110 ∷ 117 ∷ 108 ∷ 108 ∷ []

abbrev pub zero_name : List ℕ
zero_name = 122 ∷ 101 ∷ 114 ∷ 111 ∷ []

-- `dev_sub`: VFS_DEV_NULL or VFS_DEV_ZERO.
abbrev pub device : List ℕ → Option ℕ
device name =
    if str_eq name null_name then some 0 else if str_eq name zero_name then some 1 else none

-- The loop that takes the first free descriptor and fills it, or gives -1.
unfoldable pub take_fd : ℕ → (Fd → Fd) → State → State × ℤ
take_fd i f s = elim (find_free (table s i)) [
  | none ↦ (s, minus_one)
  | some j ↦ (on_fd i j f s, pos j)
]

-- Whether `fs_read` and `fs_read_bin` give a pointer.
abbrev pub is_readable : List ℕ → State → Bool
is_readable path s = elim (Write.read path s.files) [ none ↦ false | some _ ↦ true ]

unfoldable pub is_stored : List ℕ → State → Bool
is_stored path s = elim (Write.read_bin path s.files) [
  | none ↦ false
  | some (_, buffer) ↦ elim buffer [ none ↦ false | some _ ↦ true ]
]

-- `if (!fs_read(path)) fs_write(path, "");` at the timer's tick.
unfoldable pub ensure_file : List ℕ → ℕ → State → State
ensure_file path tick s =
    let (files, _) = Write.write path [] tick s.files in
    if is_readable path s then s else record s { files = files }

-- A regular file: created if VFS_O_CREATE asks for it, else it has to be there.
unfoldable pub open_file : ℕ → List ℕ → ℕ → ℕ → State → State × ℤ
open_file i path flags tick s = elim (find_free (table s i)) [
  | none ↦ (s, minus_one)
  | some j ↦
      let f = fill (Kind.file (copy_name path)) (flags % 256) 0 in
      if flags / 4 % 2 == 1
      then (on_fd i j f (ensure_file path tick s), pos j)
      else if is_stored path s
      then (on_fd i j f s, pos j)
      else (s, minus_one)
]

-- `vfs_open`; `none` is a null `path`, and `flags` is the bit pattern of the `int`.
unfoldable pub open_path : ℤ → Option (List ℕ) → ℕ → ℕ → State → State × ℤ
open_path task none flags tick s = (s, minus_one)
open_path task (some path) flags tick s = elim (index_below max_tasks task) [
  | none ↦ (s, minus_one)
  | some i ↦ elim (strip_prefix proc_prefix path) [
    | some entry ↦ take_fd i (fill (Kind.proc (copy_name entry)) rdonly 0) s
    | none ↦ elim (strip_prefix dev_prefix path) [
      | some name ↦ elim (device name) [
        | none ↦ (s, minus_one)
        | some sub ↦ take_fd i (fill Kind.dev (flags % 256) sub) s
      ]
      | none ↦ open_file i path flags tick s
    ]
  ]
]

-- The search of `vfs_pipe` for two free descriptors.
unfoldable pub find_two : List Fd → Option (ℕ × ℕ)
find_two fds = elim (find_free fds) [
  | none ↦ none
  | some r ↦ elim (next_free (r + 1) fds) [ none ↦ none | some w ↦ some (r, w) ]
]

-- Both ends of the pipe `id`, and its first writer.
abbrev pub put_ends : ℕ → ℕ → ℕ → ℤ → State → State
put_ends i r w id s =
    let s1 = on_fd i r (fill_stream (Kind.pipe_to (to_int16 id) false) rdonly) s in
    let s2 = on_fd i w (fill_stream (Kind.pipe_to (to_int16 id) true) wronly) s1 in
    record s2 { pipes = Pipe.writer_attach id s2.pipes }

-- `vfs_pipe`: the two descriptors, or `none` for -1.
unfoldable pub pipe : ℤ → State → State × Option (ℕ × ℕ)
pipe task s = elim (index_below max_tasks task) [
  | none ↦ (s, none)
  | some i ↦
      let (pipes, id) = Pipe.alloc s.pipes in
      elim id [
        | negsuc _ ↦ (record s { pipes = pipes }, none)
        | pos n ↦ elim (find_two (table s i)) [
          | none ↦ (record s { pipes = Pipe.free_slot (pos n) pipes }, none)
          | some (r, w) ↦ (put_ends i r w (pos n) (record s { pipes = pipes }), some (r, w))
        ]
      ]
]

-- `vfs_net_open`, where `conn` is what `net_tcp_connect` gives, or `none` without a network card.
unfoldable pub net_open : ℤ → Option ℤ → State → State × ℤ
net_open task none s = (s, minus_one)
net_open task (some (negsuc _)) s = (s, minus_one)
net_open task (some (pos conn)) s = elim (index_below max_tasks task) [
  | none ↦ (s, minus_one)
  | some i ↦ elim (find_free (table s i)) [
    | none ↦ (release (Kind.net (pos conn)) s, minus_one)
    | some j ↦ (on_fd i j (fill_stream (Kind.net (to_int16 (pos conn))) rdwr) s, pos j)
  ]
]

-- `vfs_tty_open`: a slot, a pipe and a descriptor, or none of them.
unfoldable pub tty_open : ℤ → State → State × ℤ
tty_open task s = elim (index_below max_tasks task) [
  | none ↦ (s, minus_one)
  | some i ↦ elim (find_index (λ (t : TtySlot). not t.used) s.ttys) [
    | none ↦ (s, minus_one)
    | some slot ↦
        let (pipes, id) = Pipe.alloc s.pipes in
        let t : TtySlot = record { used = true; pipe_id = id } in
        let s1 = record s { pipes = pipes; ttys = modify s.ttys slot (λ _. t) } in
        elim id [
          | negsuc _ ↦ (record s { pipes = pipes }, minus_one)
          | pos n ↦ elim (find_free (table s i)) [
            | none ↦ (
              record s {
                pipes = Pipe.free_slot (pos n) pipes;
                ttys = modify s.ttys slot (λ _. record t { used = false });
              },
              minus_one,
            )
            | some j ↦ (on_fd i j (fill_stream (Kind.tty (pos slot)) rdwr) s1, pos j)
          ]
        ]
  ]
]
