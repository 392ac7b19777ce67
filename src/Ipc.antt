-- ===== src/Ipc.antt =====
-- src/kernel/ipc.c: one queue of text messages. Both operations run with interrupts off.
pub mod Fifo
use sistem_operasi.Base.{ℕ, Bool, true, false, Option, none, some, List, [], take, if◌then◌else◌}
use sistem_operasi.Ring.{Ring, push, pop}

-- IPC_QUEUE_SIZE and IPC_MSG_LEN
abbrev pub queue_size : ℕ
queue_size = 8

abbrev pub msg_len : ℕ
msg_len = 64

-- `queue`, `head` and `tail`; a slot is the bytes of its string before the 0.
abbrev pub Queue : Type 0
Queue = Ring (List ℕ)

unfoldable pub init : Queue → Queue
init q = record q { head = 0; tail = 0 }

-- `ipc_strncpy(dst, src, 64)` on the bytes before the 0
abbrev pub strncpy : List ℕ → List ℕ
strncpy src = take 63 src

-- `ipc_send`: false is its 0, a full queue.
unfoldable pub send : List ℕ → Queue → Queue × Bool
send msg q = elim (push queue_size q (strncpy msg)) [ none ↦ (q, false) | some q' ↦ (q', true) ]

-- `ipc_recv`: `none` is its 0, an empty queue.
unfoldable pub recv : Queue → Queue × Option (List ℕ)
recv q = elim (pop queue_size [] q) [ none ↦ (q, none) | some (msg, q') ↦ (q', some (strncpy msg)) ]
