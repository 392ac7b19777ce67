-- ===== src/Tests/Pipes.antt =====
-- pipe.c and ipc.c on concrete states.
use sistem_operasi.Pipe.Writers.{Open}
use sistem_operasi.Base.{
  ℕ, ◌≡◌, refl, true, false, some, List, [], ◌∷◌, ◌++◌, pos, replicate, set, arith,
}
use sistem_operasi.Ring.{Ring}
use sistem_operasi.Waiters.{Waiters, no_waiters}
use sistem_operasi.Waiters
use sistem_operasi.Task
use sistem_operasi.Pipe.{Pipe, State, pipe_at, free_pipe, write, read_step, Read}
use sistem_operasi.Pipe.Bytes.{Bytes}
use sistem_operasi.Pipe.Messages.{Messages, write-append, write-cut, read-first, frame}
use sistem_operasi.Ipc
use sistem_operasi.Ipc.Fifo as Queue
use sistem_operasi.Ipc.Fifo.{recv-send_queue}
use sistem_operasi.Tests.Tables.{sched2}

-- The text "hi", stored at the end of the buffer, with task 5 waiting in the ring of readers.
abbrev hi : List ℕ
hi = b'h' ∷ b'i' ∷ []

abbrev wrapped : Ring ℕ
wrapped = record { slots = set (set (replicate 256 0) 254 b'h') 255 b'i'; head = 254; tail = 1 }

abbrev one_reader : Waiters
one_reader = record { slots = pos 5 ∷ pos 7 ∷ pos 7 ∷ pos 7 ∷ []; head = 0; tail = 1 }

abbrev busy : Pipe
busy = record { ring = wrapped; used = true; eof = false; write_refs = 1; readers = one_reader }

abbrev pub state : State
state = record { pipes = busy ∷ replicate 7 free_pipe; named = []; sched = sched2 }

wrapped-Bytes : Bytes wrapped (b'h' ∷ b'i' ∷ 0 ∷ [])
wrapped-Bytes = record { ring = omega arith; queue = refl }

holds_hi : Messages state 0 (hi ∷ [])
holds_hi = record {
  slots = refl;
  in_range = omega arith;
  in_use = refl;
  stored = wrapped-Bytes;
  strings = omega arith;
}

write-append_example :
    let (s', n) = write (pos 0) (some hi) state in
    (n ≡ pos 2)
    × Messages s' 0 (hi ∷ hi ∷ [])
    × (s'.sched ≡ Task.unblock (Waiters.dequeue one_reader).1 sched2)
    × (pipe_at s' 3 ≡ pipe_at state 3)
write-append_example =
    write-append state 0 (hi ∷ []) hi 3 holds_hi (omega arith) (omega arith) (omega arith)

-- 254 bytes are in the ring, so that one more fits and no separator.
abbrev nearly_full : List ℕ
nearly_full = replicate 253 b'x'

abbrev tight_pipe : Pipe
tight_pipe = record busy {
  ring = record { slots = replicate 253 b'x' ++ (0 ∷ 0 ∷ 0 ∷ []); head = 0; tail = 254 };
}

abbrev tight : State
tight = record state { pipes = tight_pipe ∷ replicate 7 free_pipe }

holds_much : Messages tight 0 (nearly_full ∷ [])
holds_much = record {
  slots = refl;
  in_range = omega arith;
  in_use = refl;
  stored = record { ring = omega arith; queue = refl };
  strings = omega arith;
}

write-cut_example :
    let (s', n) = write (pos 0) (some hi) tight in
    (n ≡ pos 1) × Bytes (pipe_at s' 0).ring (frame (nearly_full ∷ []) ++ (b'h' ∷ []))
write-cut_example = write-cut tight 0 (nearly_full ∷ []) hi holds_much (omega arith)

read-first_example :
    let (s', out) = read_step (pos 0) true state in
    (out ≡ Read.message hi) × Messages s' 0 [] × (pipe_at s' 3 ≡ pipe_at state 3)
read-first_example = read-first state 0 hi [] 3 holds_hi (omega arith)

-- Pipe 0 has one writer.
pub pipe-Open : Open state 0 1 (5 ∷ [])
pipe-Open = record {
  slots = refl;
  in_range = omega arith;
  in_use = refl;
  writers = refl;
  waiting = record { ring = omega arith; queue = refl };
}

abbrev mail : Ipc.Queue
mail = record { slots = hi ∷ [] ∷ [] ∷ [] ∷ [] ∷ [] ∷ [] ∷ [] ∷ []; head = 0; tail = 1 }

mail-Holds : Queue.Holds mail (hi ∷ [])
mail-Holds = record { ring = omega arith; queue = refl; short = omega arith }

recv-send_queue_example :
    let (q1, ok) = Ipc.send hi mail in
    let all : List (List ℕ) = hi ∷ hi ∷ [] in
    (ok ≡ true)
    × Queue.Holds q1 all
    × ((q2 : Ipc.Queue) × (Ipc.recv q1 ≡ (q2, some hi)) × Queue.Holds q2 (hi ∷ []))
recv-send_queue_example = recv-send_queue hi mail (hi ∷ []) mail-Holds (omega arith)
