-- ===== src/Ring.antt =====
-- The circular array that pipe.c, semaphore.c, condvar.c and ipc.c (src/kernel) each write out by
-- hand: an array, the index to read next and the index to fill next. One slot stays empty, so that
-- `head == tail` is the empty ring and a ring of `cap` slots holds `cap - 1` items.
pub mod Items
pub mod Queue
use sistem_operasi.Base.{ℕ, ◌+◌, ◌%◌, Option, none, some, List, ◌==◌, if◌then◌else◌, set, get_or}

pub record Ring {ℓ} (A : Type ℓ) : Type ℓ where
  pub slots : List A
  pub head : ℕ
  pub tail : ℕ

-- `(i + 1) % cap`
abbrev pub next_index : ℕ → ℕ → ℕ
next_index cap i = (i + 1) % cap

module _ {ℓ} {A : Type ℓ} (cap : ℕ) where
  -- `next == head` refuses; otherwise the slot at `tail` is filled and `tail` moves on.
  unfoldable pub push : Ring A → A → Option (Ring A)
  push r x =
      if next_index cap r.tail == r.head
      then none
      else some (record r { slots = set r.slots r.tail x; tail = next_index cap r.tail })

  -- `head == tail` is empty; otherwise the slot at `head` is read (`d` stands for a read outside
  -- the array) and `head` moves on.
  unfoldable pub pop : A → Ring A → Option (A × Ring A)
  pop d r =
      if r.head == r.tail
      then none
      else some (get_or r.slots r.head d, record r { head = next_index cap r.head })
