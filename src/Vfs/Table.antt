-- ===== src/Vfs/Table.antt =====
-- The descriptor tables of src/kernel/vfs.c: what is found in them, and what a write to one leaves.
use sistem_operasi.Base.{
  ℕ, ◌<◌, ◌≡◌, ◌≢◌, refl, ◌∙◌, ap, true, some, [], length, pos, get_or, modify, length-modify,
  get_or-modify_self, get_or-modify_ne, modify-modify, modify_same, lt→ltb,
}
use sistem_operasi.Task.{max_tasks}
use sistem_operasi.Vfs.{Fd, State, table, fd_at, on_fd, free_fd, live, max_fd}

-- Descriptor `j` of task `i` is in use and is `f`.
pub record Has (s : State) (i j : ℕ) (f : Fd) : Type 0 where
  pub task : i < max_tasks
  pub slot : j < max_fd
  pub row : i < length s.fds
  pub column : j < length (table s i)
  pub found : fd_at s i j ≡ f
  pub in_use : f.used ≡ true

pub live-Has : (s : State) (i j : ℕ) (f : Fd) → Has s i j f → live s (pos i) (pos j) ≡ some (i, j)
unfolding live
live-Has s i j f h =
    rw (lt→ltb i max_tasks h.task, live, lt→ltb j max_fd h.slot, h.found, h.in_use) refl

module _ (s : State) (i j : ℕ) (g : Fd → Fd) where
  pub table-on_fd : i < length s.fds → table (on_fd i j g s) i ≡ modify (table s i) j g
  table-on_fd h = get_or-modify_self s.fds i (λ fds. modify fds j g) [] h

  pub table-on_fd_ne : (k : ℕ) → i ≢ k → table (on_fd i j g s) k ≡ table s k
  table-on_fd_ne k h = get_or-modify_ne s.fds i k (λ fds. modify fds j g) [] h

  pub Has-on_fd : (f : Fd) → Has s i j f → (g f).used ≡ true → Has (on_fd i j g s) i j (g f)
  Has-on_fd f h u =
      let same = table-on_fd h.row in
      record {
        task = h.task;
        slot = h.slot;
        row = rw (length-modify s.fds i (λ fds. modify fds j g)) h.row;
        column = rw (same, length-modify (table s i) j g) h.column;
        found =
            ap (λ fds. get_or fds j free_fd) same
            ∙ get_or-modify_self (table s i) j g free_fd h.column
            ∙ ap g h.found;
        in_use = u;
      }

-- Two writes to a descriptor are one.
pub on_fd-on_fd :
    (s : State) (i j : ℕ) (f g h : Fd → Fd)
    → g (f (fd_at s i j)) ≡ h (fd_at s i j)
    → on_fd i j g (on_fd i j f s) ≡ on_fd i j h s
on_fd-on_fd s i j f g h e =
    let row : modify (modify (table s i) j f) j g ≡ modify (table s i) j h =
      modify-modify (table s i) j f g ∙ modify_same (table s i) j (λ x. g (f x)) h free_fd e in
    ap (λ rows. record s { fds = rows })
      (modify-modify s.fds i (λ fds. modify fds j f) (λ fds. modify fds j g)
        ∙ modify_same s.fds i (λ fds. modify (modify fds j f) j g) (λ fds. modify fds j h) [] row)
