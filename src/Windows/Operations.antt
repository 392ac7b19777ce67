-- ===== src/Windows/Operations.antt =====
-- The operations of the window manager of src/kernel/window.c that change its state, in any order.
use sistem_operasi.Base.{ℕ, Bool, List, [], ◌∷◌, ℤ}
use sistem_operasi.Windows.{
  State, init, create, destroy, key_event, poll_event, raise_by_id, minimize_by_id, restore_by_id,
}
use sistem_operasi.Windows.Mouse.{mouse_event}
use sistem_operasi.Windows.Content.{draw_text, clear_content, fill_rect, draw_pixel, btn_add}

-- One call, from a program or from an interrupt handler.
pub data Call : Type 0 where
  start : Call
  open_at : ℤ → ℤ → ℤ → ℤ → List ℕ → Call
  close : ℤ → Call
  mouse : ℤ → ℤ → ℕ → ℕ → ℕ → Call
  key : ℕ → Call
  poll : ℤ → Call
  raise : ℤ → Call
  minimize : ℤ → Call
  restore : ℤ → Call
  text : ℤ → ℤ → ℤ → List ℕ → ℕ → ℕ → Call
  clear : ℤ → ℕ → Call
  fill : ℤ → ℤ → ℤ → ℤ → ℤ → ℕ → Call
  pixel : Bool → ℤ → ℤ → ℤ → ℕ → Call
  button : ℤ → ℤ → ℤ → ℤ → ℤ → List ℕ → Call

unfoldable pub perform : Call → State → State
perform Call.start s = init s
perform (Call.open_at x y w h title) s = (create x y w h title s).0
perform (Call.close id) s = destroy id s
perform (Call.mouse nx ny new_btn old_btn now) s = mouse_event nx ny new_btn old_btn now s
perform (Call.key c) s = key_event c s
perform (Call.poll id) s = (poll_event id s).0
perform (Call.raise id) s = raise_by_id id s
perform (Call.minimize id) s = minimize_by_id id s
perform (Call.restore id) s = restore_by_id id s
perform (Call.text id x y str fg bg) s = draw_text id x y str fg bg s
perform (Call.clear id bg) s = clear_content id bg s
perform (Call.fill id x y w h color) s = fill_rect id x y w h color s
perform (Call.pixel room id x y color) s = draw_pixel room id x y color s
perform (Call.button id x y w h label) s = (btn_add id x y w h label s).0

unfoldable pub perform_all : List Call → State → State
perform_all [] s = s
perform_all (c ∷ cs) s = perform_all cs (perform c s)
