-- ===== src/Pipe.antt =====
-- src/kernel/pipe.c: eight pipes, each a ring of 256 bytes with a ring of waiting readers, and the
-- named pipes that stand for them. Interrupts are off in each operation between its `cli` and
-- `sti`, so each is one step; `read_step` is one round of `pipe_read` up to its return or its `sti`.
pub mod Bytes
pub mod Messages
pub mod Slots
pub mod Writers
use sistem_operasi.Base.{
  ℕ, zero, suc, ◌+◌, ◌-◌, ◌%◌, Bool, true, false, ◌&&◌, not, Option, none, some, List, [], ◌∷◌,
  ◌++◌, ℤ, pos, negsuc, minus_one, get_or, modify, replicate, index_below, if◌then◌else◌, ltb, ◌==◌,
  set, take,
}
use sistem_operasi.Ring.{Ring, push, pop}
use sistem_operasi.Waiters
use sistem_operasi.Waiters.{Waiters, no_waiters}
use sistem_operasi.Task.{Sched}
use sistem_operasi.Task

-- PIPE_MAX and PIPE_BUF
abbrev pub pipe_max : ℕ
pipe_max = 8

abbrev pub pipe_buf : ℕ
pipe_buf = 256

-- `ring` is `buf`, `head` and `tail`; `readers` is `reader_waiters`, `rw_head` and `rw_tail`.
-- `write_refs` is the bit pattern of the `int8_t`.
pub record Pipe : Type 0 where
  pub ring : Ring ℕ
  pub used : Bool
  pub eof : Bool
  pub write_refs : ℕ
  pub readers : Waiters

pub record NamedPipe : Type 0 where
  pub name : List ℕ
  pub pipe_id : ℤ
  pub used : Bool

pub record State : Type 0 where
  pub pipes : List Pipe
  pub named : List NamedPipe
  pub sched : Sched

abbrev pub free_pipe : Pipe
free_pipe = record {
  ring = record { slots = replicate 256 0; head = 0; tail = 0 };
  used = false;
  eof = false;
  write_refs = 0;
  readers = no_waiters;
}

abbrev pub pipe_at : State → ℕ → Pipe
pipe_at s i = get_or s.pipes i free_pipe

abbrev pub on_pipe : ℕ → (Pipe → Pipe) → State → State
on_pipe i f s = record s { pipes = modify s.pipes i f }

-- The fields that `pipe_init_all` and `pipe_alloc` set; the bytes in the buffer stay.
abbrev pub reset : Bool → Pipe → Pipe
reset used p = record {
  ring = record { slots = p.ring.slots; head = 0; tail = 0 };
  used = used;
  eof = false;
  write_refs = 0;
  readers = no_waiters;
}

unfoldable pub init_all : List Pipe → List Pipe
init_all [] = []
init_all (p ∷ ps) = reset false p ∷ init_all ps

-- The scan of `pipe_alloc`: the first free slot from number `i` on, taken.
unfoldable pub alloc_from : ℕ → List Pipe → List Pipe × ℤ
alloc_from i [] = ([], minus_one)
alloc_from i (p ∷ ps) =
    let (rest, id) = alloc_from (i + 1) ps in
    if p.used then (p ∷ rest, id) else (reset true p ∷ ps, pos i)

unfoldable pub alloc : State → State × ℤ
alloc s = let (pipes, id) = alloc_from 0 s.pipes in (record s { pipes = pipes }, id)

-- The number of a pipe in use, after the range check.
unfoldable pub live : State → ℤ → Option ℕ
live s id = elim (index_below pipe_max id) [
  | none ↦ none
  | some i ↦ if (pipe_at s i).used then some i else none
]

unfoldable pub free_slot : ℤ → State → State
free_slot id s = elim (index_below pipe_max id) [
  | none ↦ s
  | some i ↦ on_pipe i (λ p. record p { used = false }) s
]

-- `write_refs++` on an `int8_t`.
unfoldable pub writer_attach : ℤ → State → State
writer_attach id s = elim (live s id) [
  | none ↦ s
  | some i ↦ on_pipe i (λ p. record p { write_refs = (p.write_refs + 1) % 256 }) s
]

-- `while ((w = pipe_dequeue_waiter(id)) >= 0) waiters[n++] = w;` on at most `fuel` waiters.
unfoldable pub drain : ℕ → Waiters → Waiters × List ℤ
drain zero w = (w, [])
drain (suc fuel) w =
    let (w', tid) = Waiters.dequeue w in
    elim tid [ negsuc n ↦ (w', []) | pos t ↦ let (w'', ts) = drain fuel w' in (w'', pos t ∷ ts) ]

unfoldable pub unblock_all : List ℤ → Sched → Sched
unblock_all [] s = s
unblock_all (t ∷ ts) s = unblock_all ts (Task.unblock t s)

-- `if (write_refs > 0) write_refs--;` at an `int8_t`'s bit pattern.
abbrev pub drop_ref : ℕ → ℕ
drop_ref n = if ltb 0 n && ltb n 128 then n - 1 else n

unfoldable pub writer_detach : ℤ → State → State
writer_detach id s = elim (live s id) [
  | none ↦ s
  | some i ↦
      let p = pipe_at s i in
      let refs = drop_ref p.write_refs in
      let (w, ts) = drain Waiters.waiter_max p.readers in
      if refs == 0
      then record s {
        pipes = modify s.pipes i (λ q. record q { write_refs = 0; eof = true; readers = w });
        sched = unblock_all ts s.sched;
      }
      else on_pipe i (λ q. record q { write_refs = refs }) s
]

-- The copying loop of `pipe_write`: how many bytes went in before the ring was full.
unfoldable pub write_bytes : Ring ℕ → List ℕ → ℕ → Ring ℕ × ℕ
write_bytes r [] n = (r, n)
write_bytes r (c ∷ cs) n = elim (push pipe_buf r c) [
  | none ↦ (r, n)
  | some r' ↦ write_bytes r' cs (n + 1)
]

-- The bytes, then a separating 0 where there is room for it.
unfoldable pub write_message : Ring ℕ → List ℕ → Ring ℕ × ℕ
write_message r msg =
    let (r', n) = write_bytes r msg 0 in
    elim (push pipe_buf r' 0) [ none ↦ (r', n) | some r'' ↦ (r'', n) ]

-- `pipe_write`: `none` is a null pointer, and a message is the bytes before its 0.
unfoldable pub write : ℤ → Option (List ℕ) → State → State × ℤ
write id none s = (s, minus_one)
write id (some msg) s = elim (live s id) [
  | none ↦ (s, minus_one)
  | some i ↦
      let p = pipe_at s i in
      let (r, n) = write_message p.ring msg in
      let (w, tid) = Waiters.dequeue p.readers in
      (
        record s {
          pipes = modify s.pipes i (λ q. record q { ring = r; readers = w });
          sched = Task.unblock tid s.sched;
        },
        pos n,
      )
]

-- The copying loop of `pipe_read`, with room for `k` more bytes.
unfoldable pub read_bytes : ℕ → Ring ℕ → Ring ℕ × List ℕ
read_bytes zero r = (r, [])
read_bytes (suc k) r = elim (pop pipe_buf 0 r) [
  | none ↦ (r, [])
  | some (c, r') ↦ let (r'', cs) = read_bytes k r' in if c == 0 then (r', []) else (r'', c ∷ cs)
]

-- How one round of `pipe_read` ends: by returning -1, 0 at the end of file, or a message; or with
-- the task in the ring of readers, about to block; or, where that ring is full, about to yield.
pub data Read : Type 0 where
  invalid end_of_file : Read
  message : List ℕ → Read
  waits retries : Read

unfoldable pub read_step : ℤ → Bool → State → State × Read
read_step id has_buf s = elim (live s id) [
  | none ↦ (s, Read.invalid)
  | some i ↦
      let p = pipe_at s i in
      let (r, cs) = read_bytes (pipe_buf - 1) p.ring in
      let (w, ok) = Waiters.enqueue p.readers s.sched.current in
      if not has_buf
      then (s, Read.invalid)
      else if not (p.ring.head == p.ring.tail)
      then (on_pipe i (λ q. record q { ring = r }) s, Read.message cs)
      else if p.eof
      then (s, Read.end_of_file)
      else if ok
      then (on_pipe i (λ q. record q { readers = w }) s, Read.waits)
      else (s, Read.retries)
]

-- What a reader that has to wait does with interrupts on, before its next round.
unfoldable pub read_wait : Read → State → State
read_wait Read.waits s = record s { sched = Task.block s.sched }
read_wait Read.retries s = record s { sched = Task.yield_cpu s.sched }
read_wait _ s = s

unfoldable pub has_data : ℤ → State → Bool
has_data id s = elim (live s id) [
  | none ↦ false
  | some i ↦ not ((pipe_at s i).ring.head == (pipe_at s i).ring.tail)
]

unfoldable pub str_eq : List ℕ → List ℕ → Bool
str_eq [] [] = true
str_eq [] (y ∷ ys) = false
str_eq (x ∷ xs) [] = false
str_eq (x ∷ xs) (y ∷ ys) = (x == y) && str_eq xs ys

-- `np_strcpy(dst, src, 16)` keeps the first 15 bytes.
abbrev pub copy_name : List ℕ → List ℕ
copy_name name = take 15 name

unfoldable pub find_named : List ℕ → List NamedPipe → Option NamedPipe
find_named name [] = none
find_named name (n ∷ ns) = if n.used && str_eq n.name name then some n else find_named name ns

unfoldable pub has_free_name : List NamedPipe → Bool
has_free_name [] = false
has_free_name (n ∷ ns) = if n.used then has_free_name ns else true

unfoldable pub add_named : List ℕ → ℤ → List NamedPipe → List NamedPipe
add_named name id [] = []
add_named name id (n ∷ ns) =
    if n.used
    then n ∷ add_named name id ns
    else record { name = copy_name name; pipe_id = id; used = true } ∷ ns

unfoldable pub named_open : Option (List ℕ) → State → State × ℤ
named_open none s = (s, minus_one)
named_open (some name) s = elim (find_named name s.named) [
  | some n ↦ (s, n.pipe_id)
  | none ↦
      if has_free_name s.named
      then (let (s', id) = alloc s in
          elim id [
            | negsuc _ ↦ (s', minus_one)
            | pos i ↦ (record s' { named = add_named name (pos i) s'.named }, pos i)
          ])
      else (s, minus_one)
]

unfoldable pub drop_named : List ℕ → List NamedPipe → List NamedPipe
drop_named name [] = []
drop_named name (n ∷ ns) =
    if n.used && str_eq n.name name
    then record n { used = false; name = [] } ∷ ns
    else n ∷ drop_named name ns

unfoldable pub named_close : Option (List ℕ) → State → State
named_close none s = s
named_close (some name) s = elim (find_named name s.named) [
  | none ↦ s
  | some n ↦ let s' = free_slot n.pipe_id s in record s' { named = drop_named name s'.named }
]
