-- ===== src/Windows/Mouse.antt =====
-- `wm_mouse_event` of src/kernel/window.c, with `taskbar_click` of src/kernel/taskbar.c.
use sistem_operasi.Base.{
  ℕ, ◌+◌, ◌*◌, ◌-◌, ◌%◌, ◌^◌, Bool, true, false, not, ◌&&◌, ◌||◌, none, some, List, [], ◌∷◌, ◌++◌,
  length, if◌then◌else◌, ◌==◌, ltb, ltb_ℤ, ℤ, pos, ◌+ℤ◌, ◌-ℤ◌,
}
use sistem_operasi.Windows.{
  State, Launch, win_at, on_win, push_event, z_raise, at_least, forget, raise_by_id, restore_by_id,
  is_minimized, event_close, event_click, event_btn,
}
use sistem_operasi.Windows.Hits.{
  hit_window, is_close, is_minimize, is_resize, is_titlebar, hit_button, hit_desktop_icon,
  launch_index, find_switch,
}

-- SCREEN_W, and SCREEN_H - TASKBAR_H_PX
abbrev pub screen_w : ℤ
screen_w = pos 1920

abbrev pub desk_h : ℤ
desk_h = pos 1064

abbrev pub at_most : ℤ → ℤ → ℤ
at_most high v = if ltb_ℤ high v then high else v

-- A resize in progress.
unfoldable pub resize_step : ℤ → ℤ → Bool → State → State
resize_step nx ny held s = elim s.resize_id [
  | none ↦ s
  | some id ↦
      let width = at_least (pos 92) (s.resize_orig.0 +ℤ (nx -ℤ s.resize_mouse.0)) in
      let height = at_least (pos 72) (s.resize_orig.1 +ℤ (ny -ℤ s.resize_mouse.1)) in
      if held
      then on_win id
          (λ w. record w {
            w = if ltb_ℤ screen_w (w.x +ℤ width) then screen_w -ℤ w.x else width;
            h = if ltb_ℤ desk_h (w.y +ℤ height) then desk_h -ℤ w.y else height;
          })
          s
      else (record s { resize_id = none })
]

-- The new position of a dragged window on one axis, inside the screen where it fits.
abbrev pub drag_to : ℤ → ℤ → ℤ → ℤ
drag_to limit size v =
    let v' = at_least (pos 0) v in if ltb_ℤ limit (v' +ℤ size) then limit -ℤ size else v'

-- A drag in progress.
unfoldable pub drag_step : ℤ → ℤ → Bool → State → State
drag_step nx ny held s = elim s.drag_id [
  | none ↦ s
  | some id ↦
      if held
      then on_win id
          (λ w. record w {
            x = drag_to screen_w w.w (nx -ℤ s.drag_offset.0);
            y = at_least (pos 0) (drag_to desk_h w.h (ny -ℤ s.drag_offset.1));
          })
          s
      else (record s { drag_id = none })
]

abbrev pub is_top : ℕ → List ℕ → Bool
is_top id [] = false
is_top id (x ∷ []) = x == id
is_top id (x ∷ y ∷ z) = is_top id (y ∷ z)

abbrev pub raise_clicked : ℕ → State → State
raise_clicked id s = record s {
  z_order = if is_top id s.z_order then s.z_order else z_raise id s.z_order;
}

-- A click on the content: on a button, or at a point that `wm_get_click_pos` reports.
unfoldable pub click_content : ℤ → ℤ → ℕ → State → State
click_content nx ny id s =
    let w = win_at s id in
    elim (hit_button nx ny w) [
      | some b ↦ push_event id (event_btn + b * 256) s
      | none ↦ push_event id event_click (
          on_win id (λ w. record w { last_click = (nx -ℤ (w.x +ℤ pos 2), ny -ℤ (w.y +ℤ pos 30)) })
            s)
    ]

-- A click on a window that is on top.
unfoldable pub click_part : ℤ → ℤ → ℕ → State → State
click_part nx ny id s =
    let w = win_at s id in
    if is_close nx ny w
    then push_event id event_close s
    else if is_minimize nx ny w
    then (record (on_win id (λ w. record w { minimized = true }) s) {
      drag_id = forget id s.drag_id;
    })
    else if is_resize nx ny w
    then (record s { resize_id = some id; resize_orig = (w.w, w.h); resize_mouse = (nx, ny) })
    else if is_titlebar nx ny w
    then (record s { drag_id = some id; drag_offset = (nx -ℤ w.x, ny -ℤ w.y) })
    else click_content nx ny id s

-- `last_icon_idx == icon && (now - last_icon_tick) < 30`
abbrev pub is_double : ℕ → ℕ → State → Bool
is_double icon now s = elim s.last_icon [
  | none ↦ false
  | some i ↦ i == icon && ltb ((now + 2 ^ 32 - s.last_icon_tick) % 2 ^ 32) 30
]

-- A click on the desktop starts the program of an icon when it is the second one in 300 ms.
unfoldable pub click_desktop : ℤ → ℤ → ℕ → State → State
click_desktop nx ny now s = elim (hit_desktop_icon nx ny) [
  | none ↦ s
  | some i ↦
      if is_double i now s
      then (record s { launched = s.launched ++ (Launch.icon i ∷ []); last_icon = none })
      else (record s { last_icon = some i; last_icon_tick = now })
]

abbrev pub switch_to : ℕ → State → State
switch_to id s =
    if is_minimized (pos id) s then restore_by_id (pos id) s else raise_by_id (pos id) s

abbrev pub quick_launch : ℤ → State → State
quick_launch nx s = elim (launch_index (nx -ℤ pos 2)) [
  | none ↦ s
  | some i ↦ if ltb i 5 then (record s { launched = s.launched ++ (Launch.quick i ∷ []) }) else s
]

-- `taskbar_click`
unfoldable pub taskbar_click : ℤ → ℤ → State → State
taskbar_click mx my s =
    if ltb_ℤ my desk_h || not (ltb_ℤ my (pos 1080))
    then s
    else if not (ltb_ℤ mx (pos 1848))
    then s
    else if ltb_ℤ mx (pos 202)
    then quick_launch mx s
    else elim (find_switch mx (length s.z_order) 0 s.z_order) [
      | none ↦ s
      | some id ↦ switch_to id s
    ]

unfoldable pub click : ℤ → ℤ → ℕ → State → State
click nx ny now s =
    if not (ltb_ℤ ny desk_h) then taskbar_click nx ny s else elim (hit_window nx ny s) [
      | none ↦ click_desktop nx ny now s
      | some id ↦ click_part nx ny id (raise_clicked id s)
    ]

-- `wm_mouse_event`; `now` is what `get_ticks` gives.
unfoldable pub mouse_event : ℤ → ℤ → ℕ → ℕ → ℕ → State → State
mouse_event nx ny new_btn old_btn now s =
    let held = new_btn % 2 == 1 in
    let s1 =
      drag_step nx ny held
        (resize_step nx ny held (record s { mouse = (nx, ny); mouse_btn = new_btn })) in
    if held && old_btn % 2 == 0 then click nx ny now s1 else s1
