-- ===== src/Windows/Invariant.antt =====
-- The order of the windows under all operations of src/kernel/window.c.
use sistem_operasi.Base.{
  ℕ, zero, suc, ◌+◌, ◌≡◌, ◌≤◌, refl, sym, ap, ◌∙◌, Bool, true, false, not, ◌&&◌, ◌||◌, List, [],
  ◌∷◌, length, get_or, ◌==◌, ltb_ℤ, arith, ℤ, pos, ltb, ◌%◌, ◌-ℤ◌, ◌*◌,
}
use sistem_operasi.Windows.{
  Window, State, blank_window, win_at, live_at, init_slots, init, event_close, event_click,
  event_btn, is_minimized,
}
use sistem_operasi.Windows.Stack.{
  IsStack, bit, population, population-le, IsStack-modify, IsStack-z_raise,
}
use sistem_operasi.Windows.Hits.{
  hit_window, hit_button, hit_desktop_icon, launch_index, find_switch, is_close, is_minimize,
  is_resize, is_titlebar,
}
use sistem_operasi.Windows.Mouse.{
  resize_step, drag_step, click_content, click_part, click_desktop, raise_clicked, is_top,
  taskbar_click, quick_launch, click, mouse_event, is_double, desk_h,
}
use sistem_operasi.Windows.Content.{draw_text, clear_content, fill_rect, draw_pixel, btn_add}
use sistem_operasi.Windows.Operations.{Call, perform, perform_all}
use sistem_operasi.Windows.Kept.{
  IsStacked, keeps, keeps_if, push_event-IsStacked, poll_event-IsStacked, key_event-IsStacked,
  raise_by_id-IsStacked, minimize_by_id-IsStacked, restore_by_id-IsStacked, create-IsStacked,
  destroy-IsStacked,
}

click_content-IsStacked :
    (nx ny : ℤ) (id : ℕ) (s : State) → IsStacked s → IsStacked (click_content nx ny id s)
unfolding click_content
click_content-IsStacked nx ny id s h =
    keeps IsStacked (hit_button nx ny (win_at s id))
      (push_event-IsStacked id event_click _ (IsStack-modify _ (λ w. refl) id h))
      (λ b e. push_event-IsStacked id (event_btn + b * 256) s h)

click_part-IsStacked :
    (nx ny : ℤ) (id : ℕ) (s : State) → IsStacked s → IsStacked (click_part nx ny id s)
unfolding click_part
click_part-IsStacked nx ny id s h =
    let w = win_at s id in
    keeps_if IsStacked (is_close nx ny w) (push_event-IsStacked id event_close s h) (
      keeps_if IsStacked (is_minimize nx ny w)
        (IsStack-modify (λ w. record w { minimized = true }) (λ w. refl) id h)
        (keeps_if IsStacked (is_resize nx ny w) h
          (keeps_if IsStacked (is_titlebar nx ny w) h (click_content-IsStacked nx ny id s h))))

click_desktop-IsStacked :
    (nx ny : ℤ) (now : ℕ) (s : State) → IsStacked s → IsStacked (click_desktop nx ny now s)
unfolding click_desktop
click_desktop-IsStacked nx ny now s h =
    keeps IsStacked (hit_desktop_icon nx ny) h (λ i e. keeps_if IsStacked (is_double i now s) h h)

quick_launch-IsStacked : (nx : ℤ) (s : State) → IsStacked s → IsStacked (quick_launch nx s)
quick_launch-IsStacked nx s h =
    keeps IsStacked (launch_index (nx -ℤ pos 2)) h (λ i e. keeps_if IsStacked (ltb i 5) h h)

taskbar_click-IsStacked : (mx my : ℤ) (s : State) → IsStacked s → IsStacked (taskbar_click mx my s)
unfolding taskbar_click
taskbar_click-IsStacked mx my s h =
    keeps_if IsStacked (ltb_ℤ my desk_h || not (ltb_ℤ my (pos 1080))) h (
      keeps_if IsStacked (not (ltb_ℤ mx (pos 1848))) h (
        keeps_if IsStacked (ltb_ℤ mx (pos 202)) (quick_launch-IsStacked mx s h) (
          keeps IsStacked (find_switch mx (length s.z_order) 0 s.z_order) h (λ id e.
            keeps_if IsStacked (is_minimized (pos id) s) (restore_by_id-IsStacked (pos id) s h)
              (raise_by_id-IsStacked (pos id) s h)))))

raise_clicked-IsStacked : (id : ℕ) (s : State) → IsStacked s → IsStacked (raise_clicked id s)
raise_clicked-IsStacked id s h =
    keeps_if (λ z. IsStack s.windows z) (is_top id s.z_order) h (IsStack-z_raise id h)

click-IsStacked : (nx ny : ℤ) (now : ℕ) (s : State) → IsStacked s → IsStacked (click nx ny now s)
unfolding click
click-IsStacked nx ny now s h =
    keeps_if IsStacked (not (ltb_ℤ ny desk_h)) (taskbar_click-IsStacked nx ny s h) (
      keeps IsStacked (hit_window nx ny s) (click_desktop-IsStacked nx ny now s h) (λ id e.
        click_part-IsStacked nx ny id (raise_clicked id s) (raise_clicked-IsStacked id s h)))

resize_step-IsStacked :
    (nx ny : ℤ) (held : Bool) (s : State) → IsStacked s → IsStacked (resize_step nx ny held s)
unfolding resize_step
resize_step-IsStacked nx ny held s h =
    keeps IsStacked s.resize_id h
      (λ id e. keeps_if IsStacked held (IsStack-modify _ (λ w. refl) id h) h)

drag_step-IsStacked :
    (nx ny : ℤ) (held : Bool) (s : State) → IsStacked s → IsStacked (drag_step nx ny held s)
unfolding drag_step
drag_step-IsStacked nx ny held s h =
    keeps IsStacked s.drag_id h
      (λ id e. keeps_if IsStacked held (IsStack-modify _ (λ w. refl) id h) h)

mouse_event-IsStacked :
    (nx ny : ℤ) (new_btn old_btn now : ℕ) (s : State)
    → IsStacked s
    → IsStacked (mouse_event nx ny new_btn old_btn now s)
unfolding mouse_event
mouse_event-IsStacked nx ny new_btn old_btn now s h =
    let held = new_btn % 2 == 1 in
    let s0 : State = record s { mouse = (nx, ny); mouse_btn = new_btn } in
    let moved =
      drag_step-IsStacked nx ny held (resize_step nx ny held s0)
        (resize_step-IsStacked nx ny held s0 h) in
    keeps_if IsStacked (held && old_btn % 2 == 0) (click-IsStacked nx ny now _ moved) moved

draw_text-IsStacked :
    (id x y : ℤ) (str : List ℕ) (fg bg : ℕ) (s : State)
    → IsStacked s
    → IsStacked (draw_text id x y str fg bg s)
unfolding draw_text
draw_text-IsStacked id x y str fg bg s h =
    keeps IsStacked (live_at s id) h (λ i e. IsStack-modify _ (λ w. refl) i h)

clear_content-IsStacked :
    (id : ℤ) (bg : ℕ) (s : State) → IsStacked s → IsStacked (clear_content id bg s)
unfolding clear_content
clear_content-IsStacked id bg s h =
    keeps IsStacked (live_at s id) h (λ i e. IsStack-modify _ (λ w. refl) i h)

fill_rect-IsStacked :
    (id x y w k : ℤ) (color : ℕ) (s : State)
    → IsStacked s
    → IsStacked (fill_rect id x y w k color s)
unfolding fill_rect
fill_rect-IsStacked id x y w k color s h =
    keeps IsStacked (live_at s id) h
      (λ i e. keeps_if IsStacked _ h (IsStack-modify _ (λ w. refl) i h))

draw_pixel-IsStacked :
    (room : Bool) (id x y : ℤ) (color : ℕ) (s : State)
    → IsStacked s
    → IsStacked (draw_pixel room id x y color s)
unfolding draw_pixel
draw_pixel-IsStacked room id x y color s h =
    keeps IsStacked (live_at s id) h
      (λ i e. keeps_if IsStacked _ h (IsStack-modify _ (λ w. refl) i h))

btn_add-IsStacked :
    (id x y w k : ℤ) (label : List ℕ) (s : State)
    → IsStacked s
    → IsStacked ((btn_add id x y w k label s).0)
unfolding btn_add
btn_add-IsStacked id x y w k label s h =
    keeps (λ (p : State × ℤ). IsStacked (p.0)) (live_at s id) h
      (λ i e. keeps_if (λ (p : State × ℤ). IsStacked (p.0)) _ h (IsStack-modify _ (λ w. refl) i h))

population-init_slots : (ws : List Window) → population (init_slots ws) ≡ 0
population-init_slots [] = refl
population-init_slots (w ∷ ws) = omega (arith, population-init_slots ws)

length-init_slots : (ws : List Window) → length (init_slots ws) ≡ length ws
length-init_slots [] = refl
length-init_slots (w ∷ ws) = ap suc (length-init_slots ws)

init_slots-dead : (ws : List Window) (i : ℕ) → (get_or (init_slots ws) i blank_window).alive ≡ false
init_slots-dead [] i = refl
init_slots-dead (w ∷ ws) zero = refl
init_slots-dead (w ∷ ws) (suc i) = init_slots-dead ws i

-- After `wm_init` no window is in the order.
pub init-IsStacked : (s : State) → length s.windows ≡ 16 → IsStacked (init s)
unfolding init
init-IsStacked s l = record {
  slots = length-init_slots s.windows ∙ l;
  size = sym (population-init_slots s.windows);
  once = λ i. sym (ap bit (init_slots-dead s.windows i));
}

perform-IsStacked : (c : Call) (s : State) → IsStacked s → IsStacked (perform c s)
unfolding perform
perform-IsStacked Call.start s h = init-IsStacked s h.slots
perform-IsStacked (Call.open_at x y w k title) s h = create-IsStacked x y w k title s h
perform-IsStacked (Call.close id) s h = destroy-IsStacked id s h
perform-IsStacked (Call.mouse nx ny new_btn old_btn now) s h =
    mouse_event-IsStacked nx ny new_btn old_btn now s h
perform-IsStacked (Call.key c) s h = key_event-IsStacked c s h
perform-IsStacked (Call.poll id) s h = poll_event-IsStacked id s h
perform-IsStacked (Call.raise id) s h = raise_by_id-IsStacked id s h
perform-IsStacked (Call.minimize id) s h = minimize_by_id-IsStacked id s h
perform-IsStacked (Call.restore id) s h = restore_by_id-IsStacked id s h
perform-IsStacked (Call.text id x y str fg bg) s h = draw_text-IsStacked id x y str fg bg s h
perform-IsStacked (Call.clear id bg) s h = clear_content-IsStacked id bg s h
perform-IsStacked (Call.fill id x y w k color) s h = fill_rect-IsStacked id x y w k color s h
perform-IsStacked (Call.pixel room id x y color) s h = draw_pixel-IsStacked room id x y color s h
perform-IsStacked (Call.button id x y w k label) s h = btn_add-IsStacked id x y w k label s h

-- Whatever calls of the window manager follow one another, there are 16 slots, the order holds every
-- window that is alive exactly once and nothing else, and has at most 16 entries.
pub perform_all-IsStacked :
    (cs : List Call) (s : State)
    → IsStacked s
    → let s' = perform_all cs s in IsStacked s' × (length s'.z_order ≤ 16)
unfolding perform_all
perform_all-IsStacked [] s h = (h, omega (arith, h.size, h.slots, population-le s.windows))
perform_all-IsStacked (c ∷ cs) s h =
    perform_all-IsStacked cs (perform c s) (perform-IsStacked c s h)
