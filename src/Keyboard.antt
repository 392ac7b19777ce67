-- ===== src/Keyboard.antt =====
-- The keyboard driver of src/kernel/keyboard.c: a ring of 64 bytes that the interrupt handler fills
-- from scan codes and the readers empty. The port's byte is the handler's argument.
pub mod Handler
use sistem_operasi.Base.{
  ℕ, zero, suc, ◌+◌, ◌-◌, Bool, true, false, ◌&&◌, ◌||◌, not, Option, none, some, List, [], ◌∷◌,
  ◌++◌, get_or, length, if◌then◌else◌, ltb, leb, ◌==◌, ℤ, pos, negsuc, minus_one, replicate,
}
use sistem_operasi.Ring.{Ring, push, pop}
use sistem_operasi.Task
use sistem_operasi.Task.{Sched}
use sistem_operasi.Task.Signals
use sistem_operasi.Task.Signals.{sigint}

abbrev pub key_buffer_size : ℕ
key_buffer_size = 64

-- The driver's static data, and the task table that it wakes tasks in.
pub record State : Type 0 where
  pub ring : Ring ℕ
  pub extended : Bool
  pub shift : Bool
  pub ctrl : Bool
  pub alt : Bool
  pub capslock : Bool
  pub fg_pid : ℤ
  pub waiter : ℤ
  pub sched : Sched

-- `key_push`: a full ring drops the byte.
unfoldable pub push_key : ℕ → State → State
push_key c s = elim (push key_buffer_size s.ring c) [ none ↦ s | some r ↦ record s { ring = r } ]

-- `keyboard_getchar`: 0 for the empty ring.
unfoldable pub get_char : State → State × ℕ
get_char s = elim (pop key_buffer_size 0 s.ring) [
  | none ↦ (s, 0)
  | some (c, r) ↦ (record s { ring = r }, c)
]

abbrev pub has_char : State → Bool
has_char s = not (s.ring.head == s.ring.tail)

-- The two tables, 0 where a scan code has no character.
abbrev pub scancodes : List ℕ
scancodes =
    0 ∷ 0 ∷ 49 ∷ 50 ∷ 51 ∷ 52 ∷ 53 ∷ 54 ∷ 55 ∷ 56 ∷ 57 ∷ 48 ∷ 45 ∷ 61 ∷ 0 ∷ 0 ∷ 113 ∷ 119 ∷ 101
    ∷ 114 ∷ 116 ∷ 121 ∷ 117 ∷ 105 ∷ 111 ∷ 112 ∷ 91 ∷ 93 ∷ 0 ∷ 0 ∷ 97 ∷ 115 ∷ 100 ∷ 102 ∷ 103 ∷ 104
    ∷ 106 ∷ 107 ∷ 108 ∷ 59 ∷ 39 ∷ 96 ∷ 0 ∷ 92 ∷ 122 ∷ 120 ∷ 99 ∷ 118 ∷ 98 ∷ 110 ∷ 109 ∷ 44 ∷ 46 ∷ 47
    ∷ 0 ∷ 42 ∷ 0 ∷ 32 ∷ []

abbrev pub shift_scancodes : List ℕ
shift_scancodes =
    0 ∷ 0 ∷ 33 ∷ 64 ∷ 35 ∷ 36 ∷ 37 ∷ 94 ∷ 38 ∷ 42 ∷ 40 ∷ 41 ∷ 95 ∷ 43 ∷ 0 ∷ 0 ∷ 81 ∷ 87 ∷ 69 ∷ 82
    ∷ 84 ∷ 89 ∷ 85 ∷ 73 ∷ 79 ∷ 80 ∷ 123 ∷ 125 ∷ 0 ∷ 0 ∷ 65 ∷ 83 ∷ 68 ∷ 70 ∷ 71 ∷ 72 ∷ 74 ∷ 75 ∷ 76
    ∷ 58 ∷ 34 ∷ 126 ∷ 0 ∷ 124 ∷ 90 ∷ 88 ∷ 67 ∷ 86 ∷ 66 ∷ 78 ∷ 77 ∷ 60 ∷ 62 ∷ 63 ∷ 0 ∷ 42 ∷ 0 ∷ 32
    ∷ []

abbrev pub is_lower : ℕ → Bool
is_lower c = leb 97 c && leb c 122

abbrev pub is_upper : ℕ → Bool
is_upper c = leb 65 c && leb c 90

-- Caps Lock swaps the case of a letter.
abbrev pub swap_case : ℕ → ℕ
swap_case c = if is_lower c then c - 32 else if is_upper c then c + 32 else c

-- With Ctrl a letter becomes its control code.
abbrev pub control_code : ℕ → ℕ
control_code c = if is_lower c then c - 97 + 1 else if is_upper c then c - 65 + 1 else c

-- The character of a scan code in the tables, 0 for none.
unfoldable pub translate : ℕ → State → ℕ
translate sc s =
    let plain = get_or (if s.shift then shift_scancodes else scancodes) sc 0 in
    let cased = if s.capslock then swap_case plain else plain in
    if s.ctrl then control_code cased else cased

-- `wake = kwaiter; kwaiter = -1; if (wake >= 0) task_unblock(wake);`
abbrev pub wake : State → State
wake s = record s { waiter = minus_one; sched = Task.unblock s.waiter s.sched }

-- The key of an extended code: the arrows and Delete.
abbrev pub extended_key : ℕ → Option ℕ
extended_key sc =
    if sc == 0x48
    then some 1
    else if sc == 0x50
    then some 2
    else if sc == 0x4B
    then some 4
    else if sc == 0x4D
    then some 5
    else if sc == 0x53
    then some 6
    else none

unfoldable pub handle_extended : ℕ → State → State
handle_extended sc s =
    let s' = record s { extended = false } in
    elim (extended_key sc) [ none ↦ s' | some key ↦ push_key key s' ]

-- F1 to F10: the state, and the virtual terminal to switch to.
unfoldable pub handle_function : ℕ → State → State × Option ℕ
handle_function sc s =
    if s.ctrl && (s.alt && ltb (sc - 0x3B) 6)
    then (s, some (sc - 0x3B))
    else (wake (push_key (16 + (sc - 0x3B)) s), none)

-- Ctrl+C: the foreground task gets SIGINT, and the ring nothing.
abbrev pub interrupt : State → State
interrupt s = elim s.fg_pid [
  | negsuc n ↦ s
  | pos i ↦ record s {
    fg_pid = minus_one;
    sched = Task.Signals.send_signal (pos i) (pos sigint) s.sched;
  }
]

abbrev pub push_some : ℕ → State → State
push_some c s = if c == 0 then s else push_key c s

-- Backspace, Enter, Escape and the tables' characters.
unfoldable pub handle_plain : ℕ → State → State
handle_plain sc s =
    if sc == 0x0E
    then wake (push_key 8 s)
    else if sc == 0x1C
    then wake (push_key 10 s)
    else if sc == 0x01
    then wake (push_key 0x1B s)
    else if ltb sc 58
    then (if s.ctrl && (sc == 0x2E) then interrupt s else wake (push_some (translate sc s) s))
    else wake s

-- The keys that only change a flag of the driver.
unfoldable pub handle_modifier : ℕ → State → Option State
handle_modifier sc s =
    if sc == 0xE0
    then some (record s { extended = true })
    else if sc == 0xAA || sc == 0xB6
    then some (record s { shift = false; extended = false })
    else if sc == 0x9D
    then some (record s { ctrl = false; extended = false })
    else if sc == 0xB8
    then some (record s { alt = false; extended = false })
    else if leb 0x80 sc
    then some (record s { extended = false })
    else if sc == 0x2A || sc == 0x36
    then some (record s { shift = true })
    else if sc == 0x1D
    then some (record s { ctrl = true })
    else if sc == 0x38
    then some (record s { alt = true })
    else if sc == 0x3A
    then some (record s { capslock = not s.capslock })
    else none

-- `keyboard_handler` at the byte `sc`, with the virtual terminal to switch to.
unfoldable pub handler : ℕ → State → State × Option ℕ
handler sc s = elim (handle_modifier sc s) [
  | some s' ↦ (s', none)
  | none ↦
      if s.extended
      then (handle_extended sc s, none)
      else if sc == 0x0F
      then (wake (push_key 3 s), none)
      else if leb 0x3B sc && leb sc 0x44
      then handle_function sc s
      else (handle_plain sc s, none)
]
