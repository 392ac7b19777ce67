-- ===== src/Tests/Descriptors.antt =====
-- vfs.c on concrete tables.
use sistem_operasi.Base.{
  ℕ, ◌+◌, ◌≡◌, refl, true, false, none, some, List, [], ◌∷◌, ◌++◌, ℤ, pos, minus_one, replicate,
  arith,
}
use sistem_operasi.Fs
use sistem_operasi.Fs.{File, free_file}
use sistem_operasi.Pipe.{pipe_at}
use sistem_operasi.Vfs
use sistem_operasi.Vfs.{Kind, Fd, free_fd, fd_at, close, copy_fds}
use sistem_operasi.Fs.Names.{strip_prefix}
use sistem_operasi.Vfs.Decimal.{codes, digits, number}
use sistem_operasi.Vfs.Open.{pipe, find_two, next_free}
use sistem_operasi.Vfs.Proc.{Machine, generate}
use sistem_operasi.Vfs.Read.{Got, read}
use sistem_operasi.Vfs.Table.{Has}
use sistem_operasi.Vfs.Fork.{close-copy_fds}
use sistem_operasi.Vfs.Pieces.{Reads, read-pieces}
use sistem_operasi.Tests.Pipes.{state, pipe-Open}

-- Task 1 has the end for writing of pipe 0 as descriptor 4, and a file of three bytes, of which it has
-- read one, as descriptor 3.
abbrev writer_fd : Fd
writer_fd = record { kind = Kind.pipe_to (pos 0) true; used = true; flags = 2; offset = 0 }

abbrev file_fd : Fd
file_fd = record { kind = Kind.file (98 ∷ []); used = true; flags = 1; offset = 1 }

abbrev three_bytes : Fs.Buffer
three_bytes = record { addr = 0x100010; bytes = 7 ∷ 8 ∷ 9 ∷ 0 ∷ [] }

abbrev one_file : File
one_file = record free_file { name = 98 ∷ []; size = 3; used = true; buffer = some three_bytes }

abbrev two_tasks : Vfs.State
two_tasks = record {
  fds =
      replicate 32 free_fd
      ∷ (replicate 3 free_fd ++ (file_fd ∷ writer_fd ∷ replicate 27 free_fd))
      ∷ replicate 32 free_fd
      ∷ [];
  ttys = [];
  pipes = state;
  files = record { files = one_file ∷ []; heap = []; disk = none };
  net_closed = [];
  proc_buf = [];
}

writer_held : Has two_tasks 1 4 writer_fd
writer_held = record {
  task = omega arith;
  slot = omega arith;
  row = omega arith;
  column = omega arith;
  found = refl;
  in_use = refl;
}

close-copy_fds_example :
    let s2 = (close (pos 1) (pos 4) (copy_fds (pos 1) (pos 2) two_tasks)).0 in
    ((pipe_at s2.pipes 0).eof ≡ true) × (fd_at s2 2 4 ≡ writer_fd)
close-copy_fds_example =
    close-copy_fds two_tasks 1 2 4 0 writer_fd (5 ∷ []) writer_held refl (omega arith) (omega arith)
      (omega arith) (omega arith) pipe-Open (omega arith)

file_open : Reads two_tasks 1 3 file_fd (98 ∷ []) 3 three_bytes
unfolding sistem_operasi.Fs.Write.read_bin sistem_operasi.Base.find_index sistem_operasi.Base.str_eq
file_open = record {
  has = record {
    task = omega arith;
    slot = omega arith;
    row = omega arith;
    column = omega arith;
    found = refl;
    in_use = refl;
  };
  kind = refl;
  readable = refl;
  stored = refl;
  whole = omega arith;
  small = omega arith;
}

read-pieces_example :
    (s1 s2 : Vfs.State) × (xs ys : List ℕ) × (read (pos 1) (pos 3) (pos 1) two_tasks
      ≡ some (s1, Got.bytes xs (pos 1)))
    × (read (pos 1) (pos 3) (pos 1) s1 ≡ some (s2, Got.bytes ys (pos 1)))
    × (read (pos 1) (pos 3) (pos (1 + 1)) two_tasks ≡ some (s2, Got.bytes (xs ++ ys) (pos (1 + 1))))
read-pieces_example =
    read-pieces two_tasks 1 3 file_fd (98 ∷ []) 3 1 1 three_bytes file_open (omega arith)
      (omega arith) (omega arith)

abbrev machine : Machine
machine = record { free_frames = 5; ticks = 4200; cpu_count = 2; ap_started = 1; log = [] }

-- A new pipe takes the first two free descriptors behind the standard ones.
free_pair : (pipe (pos 1) two_tasks).1 ≡ some (5, 6)
unfolding pipe find_two next_free sistem_operasi.Base.find_index sistem_operasi.Pipe.alloc
    sistem_operasi.Pipe.alloc_from
free_pair = refl

uptime_text : generate machine (codes "uptime") two_tasks ≡ codes "42 seconds\n"
unfolding generate number digits sistem_operasi.Base.str_eq strip_prefix
uptime_text = refl

-- The standard descriptors cannot be closed.
stdin_stays : (close (pos 1) (pos 0) two_tasks).1 ≡ minus_one
unfolding close sistem_operasi.Vfs.live
stdin_stays = refl
