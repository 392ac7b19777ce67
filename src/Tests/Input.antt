-- ===== src/Tests/Input.antt =====
-- The keyboard and the arguments of a task at concrete states.
use sistem_operasi.Base.{
  true, ◌≡◌, refl, false, none, some, [], ◌∷◌, arith, replicate, pos, minus_one,
}
use sistem_operasi.Task.{blank}
use sistem_operasi.Task.Create.{user_task, pack_from}
use sistem_operasi.Task.Args.{get_argv, copy_serial, split_strings, get_argv-user_task}
use sistem_operasi.Ring.Queue.{IsRing}
use sistem_operasi.Keyboard.{State, handler, handle_modifier}
use sistem_operasi.Keyboard.Handler.{Grows, handler-Grows, handler-right_ctrl}
use sistem_operasi.Tests.Tables.{sched2}

abbrev keyboard : State
keyboard = record {
  ring = record { slots = replicate 64 0; head = 62; tail = 63 };
  extended = false;
  shift = false;
  ctrl = false;
  alt = false;
  capslock = false;
  fg_pid = minus_one;
  waiter = pos 3;
  sched = sched2;
}

ring-IsRing : IsRing 64 keyboard.ring
ring-IsRing = omega arith

handler-Grows_example : Grows keyboard (handler 0x1E keyboard).0
handler-Grows_example = handler-Grows 0x1E keyboard ring-IsRing

plain_key : (t : State) → handle_modifier 0x1E t ≡ none
unfolding handle_modifier
plain_key t = refl

handler-right_ctrl_example :
    handler 0x1E (handler 0x1D (handler 0xE0 keyboard).0).0
    ≡ (record keyboard { extended = false; ctrl = true }, none)
handler-right_ctrl_example = handler-right_ctrl 0x1E keyboard plain_key refl

-- "ls", "-l"
get_argv-user_task_example :
    get_argv (user_task none (pos 2) (some (108 ∷ 115 ∷ []) ∷ some (45 ∷ 108 ∷ []) ∷ []) blank)
    ≡ (108 ∷ 115 ∷ []) ∷ (45 ∷ 108 ∷ []) ∷ []
get_argv-user_task_example =
    get_argv-user_task ((108 ∷ 115 ∷ []) ∷ (45 ∷ 108 ∷ []) ∷ []) none blank (omega arith)
      (omega arith) (omega arith)

-- An empty argument cuts the copy short: of "a", "", "b" the last arrives empty.
empty_argument :
    get_argv (user_task none (pos 3) (some (97 ∷ []) ∷ some [] ∷ some (98 ∷ []) ∷ []) blank)
    ≡ (97 ∷ []) ∷ [] ∷ [] ∷ []
unfolding get_argv copy_serial split_strings pack_from
empty_argument = refl
