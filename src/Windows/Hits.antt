-- ===== src/Windows/Hits.antt =====
-- Which part of a window or of the desktop a point hits: window.c and taskbar.c (src/kernel).
use sistem_operasi.Base.{
  ℕ, suc, ◌+◌, ◌*◌, ◌/◌, Bool, not, ◌&&◌, Option, none, some, List, [], ◌∷◌, if◌then◌else◌, ◌==◌,
  find_index, ltb_ℤ, ℤ, pos, negsuc, ◌+ℤ◌, ◌-ℤ◌,
}
use sistem_operasi.Windows.{Window, Button, State, win_at, topmost, is_visible}

-- `low <= v && v < low + size`
abbrev pub is_within : ℤ → ℤ → ℤ → Bool
is_within v low size = not (ltb_ℤ v low) && ltb_ℤ v (low +ℤ size)

-- The test of `hit_window` on a visible window.
abbrev pub covers : ℤ → ℤ → Window → Bool
covers mx my w = is_visible w && (is_within mx w.x w.w && is_within my w.y w.h)

-- `hit_window`
abbrev pub hit_window : ℤ → ℤ → State → Option ℕ
hit_window mx my s = topmost (λ i. covers mx my (win_at s i)) s.z_order

abbrev pub is_close : ℤ → ℤ → Window → Bool
is_close mx my w =
    is_within mx (w.x +ℤ w.w -ℤ pos 26) (pos 24) && is_within my (w.y +ℤ pos 2) (pos 28)

abbrev pub is_minimize : ℤ → ℤ → Window → Bool
is_minimize mx my w =
    is_within mx (w.x +ℤ w.w -ℤ pos 50) (pos 24) && is_within my (w.y +ℤ pos 2) (pos 28)

abbrev pub is_titlebar : ℤ → ℤ → Window → Bool
is_titlebar mx my w =
    not (ltb_ℤ mx (w.x +ℤ pos 2))
    && (ltb_ℤ mx (w.x +ℤ w.w -ℤ pos 50) && is_within my (w.y +ℤ pos 2) (pos 28))

abbrev pub is_resize : ℤ → ℤ → Window → Bool
is_resize mx my w =
    not w.minimized
    && (is_within mx (w.x +ℤ w.w -ℤ pos 14) (pos 12)
        && is_within my (w.y +ℤ w.h -ℤ pos 14) (pos 12))

-- The button of a window at a point of its content.
abbrev pub hit_button : ℤ → ℤ → Window → Option ℕ
hit_button mx my w =
    find_index
      (λ (b : Button).
        is_within mx (w.x +ℤ pos 2 +ℤ b.x) b.w && is_within my (w.y +ℤ pos 30 +ℤ b.y) b.h)
      w.buttons

-- The columns of the icons; all are at the row 10.
abbrev pub icons : List ℕ
icons = 10 ∷ 64 ∷ 118 ∷ 172 ∷ 226 ∷ []

-- `hit_desktop_icon`
abbrev pub hit_desktop_icon : ℤ → ℤ → Option ℕ
hit_desktop_icon mx my =
    find_index (λ x. is_within mx (pos x) (pos 44) && is_within my (pos 10) (pos 42)) icons

-- `(mx - BTN_MARGIN) / LAUNCH_BTN_W`, rounded towards 0: `none` below 0.
abbrev pub launch_index : ℤ → Option ℕ
launch_index (pos n) = some (n / 40)
launch_index (negsuc n) = if (n + 1) / 40 == 0 then some 0 else none

-- `btn_w` and `btn_x`
abbrev pub btn_w : ℕ → ℤ
btn_w total = if total == 0 then pos 0 else pos (1644 / total) -ℤ pos 2

abbrev pub btn_x : ℕ → ℕ → ℤ
btn_x i total = if total == 0 then pos 0 else pos (204 + i * (1644 / total))

-- The loop over the buttons of the open windows, from the button `i` on.
unfoldable pub find_switch : ℤ → ℕ → ℕ → List ℕ → Option ℕ
find_switch mx total i [] = none
find_switch mx total i (id ∷ z) =
    if is_within mx (btn_x i total) (btn_w total) then some id else find_switch mx total (suc i) z
