-- ===== src/MessageQueue.antt =====
-- src/kernel/mq.c: a mailbox of eight messages for each task.
pub mod Mailbox
use sistem_operasi.Base.{
  ℕ, zero, suc, ◌+◌, Bool, true, false, Option, none, some, List, [], ◌∷◌, ◌++◌, ℤ, pos, negsuc,
  minus_one, get_or, set, take, drop, replicate, index_below, if◌then◌else◌, ltb, ltb_ℤ,
}
use sistem_operasi.Task
use sistem_operasi.Task.{Sched, max_tasks}

-- MQ_MAX_MSGS and MQ_MSG_SIZE
abbrev pub max_msgs : ℕ
max_msgs = 8

abbrev pub msg_size : ℕ
msg_size = 56

pub record Msg : Type 0 where
  pub used : Bool
  pub from : ℤ
  pub len : ℕ
  pub payload : List ℕ

abbrev pub Mailbox : Type 0
Mailbox = List Msg

abbrev pub blank_msg : Msg
blank_msg = record { used = false; from = pos 0; len = 0; payload = replicate 56 0 }

unfoldable pub clear_box : Mailbox → Mailbox
clear_box [] = []
clear_box (m ∷ ms) = record m { used = false } ∷ clear_box ms

unfoldable pub init : List Mailbox → List Mailbox
init [] = []
init (b ∷ bs) = clear_box b ∷ init bs

-- `for (k = 0; k < len; k++) dst[k] = src[k];`, where `src` has at least `len` bytes
unfoldable pub copy : ℕ → List ℕ → List ℕ → List ℕ
copy zero src dst = dst
copy (suc n) src [] = []
copy (suc n) [] dst = dst
copy (suc n) (x ∷ src) (y ∷ dst) = x ∷ copy n src dst

-- `if (len > MQ_MSG_SIZE) len = MQ_MSG_SIZE; if (len < 0) len = 0;`
unfoldable pub clamp_len : ℤ → ℕ
clamp_len (pos n) = if ltb msg_size n then msg_size else n
clamp_len (negsuc n) = 0

-- The loop of `mq_send`: the message goes into the first free slot.
unfoldable pub put : ℕ → List ℕ → ℤ → Mailbox → Option Mailbox
put len bytes from [] = none
put len bytes from (m ∷ ms) =
    let later = put len bytes from ms in
    if m.used
    then elim later [ none ↦ none | some ms' ↦ some (m ∷ ms') ]
    else some
        (record { used = true; from = from; len = len; payload = copy len bytes m.payload } ∷ ms)

-- `mq_send`: false is its -1.
unfoldable pub send : Sched → ℤ → List ℕ → ℤ → ℤ → List Mailbox → List Mailbox × Bool
send sched dst bytes len from boxes = elim (index_below max_tasks dst) [
  | none ↦ (boxes, false)
  | some d ↦
      if Task.is_used sched dst
      then (elim (put (clamp_len len) bytes from (get_or boxes d [])) [
        | none ↦ (boxes, false)
        | some box ↦ (set boxes d box, true)
      ])
      else (boxes, false)
]

-- `if (len > max_len) len = max_len;`
abbrev pub limit : ℕ → ℤ → ℤ
limit len max_len = if ltb_ℤ max_len (pos len) then max_len else pos len

-- How many bytes a loop up to such a limit copies.
abbrev pub rounds : ℤ → ℕ
rounds (pos n) = n
rounds (negsuc n) = 0

-- What `mq_recv` hands back: its result, the bytes written to the caller's buffer, and the sender.
pub record Received : Type 0 where
  pub length_out : ℤ
  pub bytes : List ℕ
  pub sender : ℤ

-- The loop of `mq_recv`: the first used slot is read and freed.
unfoldable pub pull : ℤ → Mailbox → Option (Received × Mailbox)
pull max_len [] = none
pull max_len (m ∷ ms) =
    let later = pull max_len ms in
    if m.used
    then some (
      record {
        length_out = limit m.len max_len;
        bytes = take (rounds (limit m.len max_len)) m.payload;
        sender = m.from;
      },
      record m { used = false } ∷ ms,
    )
    else elim later [ none ↦ none | some (got, ms') ↦ some (got, m ∷ ms') ]

-- `mq_recv`: `none` is its 0 without a message.
unfoldable pub recv : ℤ → ℤ → List Mailbox → List Mailbox × Option Received
recv dst max_len boxes = elim (index_below max_tasks dst) [
  | none ↦ (boxes, none)
  | some d ↦ elim (pull max_len (get_or boxes d [])) [
    | none ↦ (boxes, none)
    | some (got, box) ↦ (set boxes d box, some got)
  ]
]

unfoldable pub count_used : Mailbox → ℕ
count_used [] = 0
count_used (m ∷ ms) = (if m.used then 1 else 0) + count_used ms

unfoldable pub pending : ℤ → List Mailbox → ℕ
pending pid boxes = elim (index_below max_tasks pid) [
  | none ↦ 0
  | some p ↦ count_used (get_or boxes p [])
]
