-- ===== src/Tests/Screen.antt =====
-- The windows of window.c on a concrete screen.
use sistem_operasi.Base.{
  ◌≡◌, ◌≤◌, refl, true, none, some, List, [], ◌∷◌, length, replicate, pos, find_index,
}
use sistem_operasi.Windows.{State, blank_window, init, create, destroy, is_focused, topmost}
use sistem_operasi.Windows.Hits.{hit_window}
use sistem_operasi.Windows.Kept.{IsStacked}
use sistem_operasi.Windows.Invariant.{init-IsStacked, perform_all-IsStacked}
use sistem_operasi.Windows.Operations.{Call, perform, perform_all}
use sistem_operasi.Windows.Topmost.{destroy-create, hit_window-IsHit, IsHit}

abbrev cold : State
cold = record {
  windows = replicate 16 blank_window;
  z_order = [];
  drag_id = none;
  drag_offset = (pos 0, pos 0);
  resize_id = none;
  resize_orig = (pos 0, pos 0);
  resize_mouse = (pos 0, pos 0);
  mouse = (pos 0, pos 0);
  mouse_btn = 0;
  last_icon = none;
  last_icon_tick = 0;
  launched = [];
}

-- Two windows open, a click on the lower one, and the upper one closes.
abbrev calls : List Call
calls =
    Call.open_at (pos 10) (pos 10) (pos 200) (pos 100) (72 ∷ 105 ∷ [])
    ∷ Call.open_at (pos 100) (pos 50) (pos 300) (pos 200) []
    ∷ Call.mouse (pos 20) (pos 60) 1 0 7
    ∷ Call.close (pos 1)
    ∷ []

perform_all-IsStacked_example :
    let s' = perform_all calls (init cold) in IsStacked s' × (length s'.z_order ≤ 16)
perform_all-IsStacked_example = perform_all-IsStacked calls (init cold) (init-IsStacked cold refl)

destroy-create_example :
    let (s1, id) = create (pos 10) (pos 10) (pos 200) (pos 100) (72 ∷ 105 ∷ []) (init cold) in
    (id ≡ pos 0) × (s1.z_order ≡ 0 ∷ []) × (is_focused 0 s1 ≡ true) × ((destroy id s1).z_order ≡ [])
unfolding init find_index
destroy-create_example =
    destroy-create (pos 10) (pos 10) (pos 200) (pos 100) (72 ∷ 105 ∷ []) (init cold) 0
      (init-IsStacked cold refl) refl

abbrev one_window : State
one_window = perform_all (Call.open_at (pos 10) (pos 10) (pos 200) (pos 100) [] ∷ []) (init cold)

hit_window-IsHit_example :
    IsHit (pos 20) (pos 60) one_window (hit_window (pos 20) (pos 60) one_window)
hit_window-IsHit_example =
    hit_window-IsHit (pos 20) (pos 60) one_window
      (perform_all-IsStacked (Call.open_at (pos 10) (pos 10) (pos 200) (pos 100) [] ∷ [])
        (init cold) (init-IsStacked cold refl)).0

hits : hit_window (pos 20) (pos 60) one_window ≡ some 0
unfolding init create perform perform_all find_index topmost
hits = refl
