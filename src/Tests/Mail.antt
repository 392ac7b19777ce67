-- ===== src/Tests/Mail.antt =====
-- mq.c on a concrete table.
use sistem_operasi.Base.{
  ℕ, ◌≡◌, refl, true, false, some, List, [], ◌∷◌, pos, replicate, arith, get_or, set,
}
use sistem_operasi.Task
use sistem_operasi.MessageQueue.{Msg, Mailbox, blank_msg, send, recv}
use sistem_operasi.MessageQueue.Mailbox.{recv-send, filled}
use sistem_operasi.Tests.Tables.{sched2}

-- The mailbox of task 3: its first slot is free, and an older message from task 1 is in the second.
abbrev older : Msg
older = record blank_msg { used = true; from = pos 1; len = 1 }

abbrev box3 : Mailbox
box3 = blank_msg ∷ (older ∷ replicate 6 blank_msg)

abbrev boxes : List Mailbox
boxes = set (replicate 32 (replicate 8 blank_msg)) 3 box3

abbrev bytes : List ℕ
bytes = b'o' ∷ b'k' ∷ []

recv-send_example :
    let (boxes', sent) = send sched2 (pos 3) bytes (pos 2) (pos 7) boxes in
    let (boxes'', got) = recv (pos 3) (pos 56) boxes' in
    (sent ≡ true)
    × (got ≡ some (record { length_out = pos 2; bytes = bytes; sender = pos 7 }))
    × (get_or boxes'' 3 []
        ≡ record (filled 2 bytes (pos 7) blank_msg) { used = false }
          ∷ (older ∷ replicate 6 blank_msg))
    × (get_or boxes'' 4 [] ≡ get_or boxes 4 [])
unfolding Task.is_used
recv-send_example =
    recv-send sched2 3 2 56 bytes (pos 7) boxes blank_msg (older ∷ replicate 6 blank_msg) 4
      (omega arith) (omega arith) refl refl refl refl refl (omega arith) (omega arith) (omega arith)
