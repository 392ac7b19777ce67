-- ===== src/Vfs/Fork.antt =====
-- A pipe's writer that two tasks share after `vfs_copy_fds` of src/kernel/vfs.c.
use sistem_operasi.Base.{
  ℕ, ◌<◌, ◌≤◌, ◌≡◌, ◌≢◌, refl, ◌∙◌, sym, ap, true, false, List, [], length, ℤ, pos, set, get_or,
  arith, lt→ltb, ltb, length-set, get_or-set_self, get_or-set_ne,
}
use mathlib.Core.Path.{subst}
use sistem_operasi.Task.{max_tasks}
use sistem_operasi.Pipe
use sistem_operasi.Pipe.{pipe_at}
use sistem_operasi.Pipe.Writers.{Open, writer_detach_last}
use sistem_operasi.Vfs.{
  Kind, Fd, State, table, fd_at, on_fd, free_fd, copy_fds, clear, close, release,
}
use sistem_operasi.Vfs.Table.{Has, live-Has, table-on_fd_ne}

copy_fds-eq :
    (s : State) (i k : ℕ)
    → i < max_tasks
    → k < max_tasks
    → copy_fds (pos i) (pos k) s ≡ record s { fds = set s.fds k (table s i) }
unfolding copy_fds
copy_fds-eq s i k h l = rw (lt→ltb i max_tasks h, copy_fds, lt→ltb k max_tasks l) refl

-- Closing the write end of a pipe by a task takes one writer from the pipe.
close-writer :
    (s : State) (i j : ℕ) (f : Fd) (id : ℤ)
    → Has s i j f
    → 3 ≤ j
    → f.kind ≡ Kind.pipe_to id true
    → close (pos i) (pos j) s
      ≡ (on_fd i j clear (record s { pipes = Pipe.writer_detach id s.pipes }), pos 0)
unfolding close release
close-writer s i j f id h high kind =
    let third : ltb j 3 ≡ false = ground arith in
    rw (live-Has s i j f h, close, third, h.found, kind, release) refl

Has-copied :
    (s : State) (i k j : ℕ) (f : Fd)
    → Has s i j f
    → k ≢ i
    → Has (record s { fds = set s.fds k (table s i) }) i j f
Has-copied s i k j f h ne =
    let same = get_or-set_ne s.fds k i (table s i) [] ne in
    record {
      task = h.task;
      slot = h.slot;
      row = rw (length-set s.fds k (table s i)) h.row;
      column = rw same h.column;
      found = ap (λ fds. get_or fds j free_fd) same ∙ h.found;
      in_use = h.in_use;
    }

-- After `vfs_copy_fds` gave task `k` the descriptors of task `i`, among them the only write end of
-- pipe `p`, task `i` closes that end: readers are then told that the pipe has ended, although task
-- `k` still has the end for writing.
pub close-copy_fds :
    (s : State) (i k j p : ℕ) (f : Fd) (q : List ℕ)
    → Has s i j f
    → f.kind ≡ Kind.pipe_to (pos p) true
    → 3 ≤ j
    → k < max_tasks
    → k < length s.fds
    → k ≢ i
    → Open s.pipes p 1 q
    → length q < 4
    → let s2 = (close (pos i) (pos j) (copy_fds (pos i) (pos k) s)).0 in
      ((pipe_at s2.pipes p).eof ≡ true) × (fd_at s2 k j ≡ f)
close-copy_fds s i k j p f q h kind high task row ne open_p few =
    let s1 : State = record s { fds = set s.fds k (table s i) } in
    let s2 : State = record s1 { pipes = Pipe.writer_detach (pos p) s.pipes } in
    let run : (close (pos i) (pos j) (copy_fds (pos i) (pos k) s)).0 ≡ on_fd i j clear s2 =
      ap (λ t. (close (pos i) (pos j) t).0) (copy_fds-eq s i k h.task task)
      ∙ ap (λ r. r.0) (close-writer s1 i j f (pos p) (Has-copied s i k j f h ne) high kind) in
    let kept : table (on_fd i j clear s2) k ≡ table s i =
      table-on_fd_ne s2 i j clear k (λ e. ne (sym e))
      ∙ get_or-set_self s.fds k (table s i) [] row in
    subst (λ (t : State). ((pipe_at t.pipes p).eof ≡ true) × (fd_at t k j ≡ f)) (sym run)
      (
        (writer_detach_last s.pipes p q open_p few).0,
        ap (λ fds. get_or fds j free_fd) kept ∙ h.found,
      )
