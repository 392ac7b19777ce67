-- ===== src/Windows/Content.antt =====
-- The content of a window, as the functions of src/kernel/window.c keep it to draw it again.
use sistem_operasi.Base.{
  ℕ, suc, ◌+◌, ◌*◌, ◌-◌, ◌/◌, ◌%◌, ◌^◌, Bool, true, false, not, ◌&&◌, ◌||◌, Option, none, some,
  List, [], ◌∷◌, ◌++◌, length, take, set, replicate, find_index, if◌then◌else◌, ltb, leb, ltb_ℤ,
  eqb_ℤ, ℤ, pos, negsuc, minus_one, ◌+ℤ◌, ◌-ℤ◌, pos_part, index_below,
}
use sistem_operasi.Windows.{
  Window, Text, Rect, Button, Pixels, State, win_at, on_win, live_at, is_focused, at_least,
}

-- An entry that is found is overwritten; another is appended while fewer than `bound` are kept.
abbrev pub keep_at {ℓ} : {A : Type ℓ} → ℕ → Option ℕ → A → List A → List A
keep_at bound (some i) a xs = set xs i a
keep_at bound none a xs = if ltb (length xs) bound then xs ++ (a ∷ []) else xs

abbrev pub keep_text : Text → List Text → List Text
keep_text t ts = keep_at 32 (find_index (λ (u : Text). eqb_ℤ u.x t.x && eqb_ℤ u.y t.y) ts) t ts

-- `wm_draw_text`
unfoldable pub draw_text : ℤ → ℤ → ℤ → List ℕ → ℕ → ℕ → State → State
draw_text id px py str fg bg s = elim (live_at s id) [
  | none ↦ s
  | some i ↦
      let t : Text = record { x = px; y = py; s = take 63 str; fg = fg; bg = bg } in
      on_win i (λ w. record w { texts = keep_text t w.texts }) s
]

-- 0xFFFFFFFF: a pixel that was never written.
abbrev pub sentinel : ℕ
sentinel = 0xFFFFFFFF

abbrev pub blank_pixels : Option Pixels → Option Pixels
blank_pixels none = none
blank_pixels (some p) = some (record p { colors = replicate (length p.colors) sentinel })

-- `wm_clear_content`
unfoldable pub clear_content : ℤ → ℕ → State → State
clear_content id bg s = elim (live_at s id) [
  | none ↦ s
  | some i ↦
      on_win i
        (λ w. record w { content_bg = bg; texts = []; rects = []; pixels = blank_pixels w.pixels })
        s
]

abbrev pub content_w : Window → ℤ
content_w w = w.w -ℤ pos 4

abbrev pub content_h : Window → ℤ
content_h w = w.h -ℤ pos 32

-- The cast to `short`.
abbrev pub to_short : ℤ → ℤ
to_short (pos n) = let m = n % 65536 in if ltb m 32768 then pos m else negsuc (65535 - m)
to_short (negsuc n) = let m = n % 65536 in if ltb m 32768 then negsuc m else pos (65535 - m)

-- The last slot is overwritten when all 48 are in use.
abbrev pub keep_rect : Rect → List Rect → List Rect
keep_rect r rs =
    let same = λ (q : Rect). eqb_ℤ q.x r.x && (eqb_ℤ q.y r.y && (eqb_ℤ q.w r.w && eqb_ℤ q.h r.h)) in
    elim (find_index same rs) [
      | some i ↦ set rs i r
      | none ↦ if ltb (length rs) 48 then rs ++ (r ∷ []) else set rs 47 r
    ]

-- The pixels from the index `i` on, blank where the row and the column pass the two tests.
unfoldable pub blank_area : (ℕ → Bool) → (ℕ → Bool) → ℕ → ℕ → List ℕ → List ℕ
blank_area row col width i [] = []
blank_area row col width i (c ∷ cs) =
    (if row (i / width) && col (i % width) then sentinel else c)
    ∷ blank_area row col width (suc i) cs

abbrev pub is_from : ℤ → ℤ → ℕ → Bool
is_from low size v = not (ltb_ℤ (pos v) low) && ltb_ℤ (pos v) (low +ℤ size)

abbrev pub fill_pixels : ℤ → ℤ → ℤ → ℤ → Option Pixels → Option Pixels
fill_pixels cx cy rw rh none = none
fill_pixels cx cy rw rh (some p) =
    some (record p {
      colors = blank_area (is_from cy rh) (is_from cx rw) (pos_part p.width) 0 p.colors;
    })

-- An extent that starts at `c`, clipped at 0 and at `bound`.
abbrev pub clip : ℤ → ℤ → ℤ → ℤ
clip bound c size =
    let size1 = if ltb_ℤ c (pos 0) then size +ℤ c else size in
    let c1 = at_least (pos 0) c in if ltb_ℤ bound (c1 +ℤ size1) then bound -ℤ c1 else size1

abbrev pub fill_slot : ℤ → ℤ → ℤ → ℤ → ℕ → Window → Window
fill_slot x y rw rh color w = record w {
  rects =
      keep_rect
        (record { x = to_short x; y = to_short y; w = to_short rw; h = to_short rh; color = color })
        w.rects;
  pixels = fill_pixels x y rw rh w.pixels;
}

-- `wm_fill_rect`
unfoldable pub fill_rect : ℤ → ℤ → ℤ → ℤ → ℤ → ℕ → State → State
fill_rect id cx cy rw rh color s = elim (live_at s id) [
  | none ↦ s
  | some i ↦
      let width = clip (content_w (win_at s i)) cx rw in
      let height = clip (content_h (win_at s i)) cy rh in
      if not (ltb_ℤ (pos 0) width) || not (ltb_ℤ (pos 0) height)
      then s
      else on_win i (fill_slot (at_least (pos 0) cx) (at_least (pos 0) cy) width height color) s
]

-- The buffer of a window, made at the first pixel if the heap has `room`.
abbrev pub pixels_of : Bool → Window → Option Pixels → Option Pixels
pixels_of room w (some p) = some p
pixels_of false w none = none
pixels_of true w none = some (record {
  width = content_w w;
  height = content_h w;
  colors = replicate (pos_part (content_w w) * pos_part (content_h w) % 2 ^ 32) sentinel;
})

abbrev pub plot : ℤ → ℤ → ℕ → Pixels → Pixels
plot cx cy color p =
    if ltb_ℤ cx p.width && ltb_ℤ cy p.height
    then (record p { colors = set p.colors (pos_part cy * pos_part p.width + pos_part cx) color })
    else p

abbrev pub plot_any : ℤ → ℤ → ℕ → Option Pixels → Option Pixels
plot_any cx cy color none = none
plot_any cx cy color (some p) = some (plot cx cy color p)

-- `wm_draw_pixel`; `room` says whether `malloc` gives the buffer.
unfoldable pub draw_pixel : Bool → ℤ → ℤ → ℤ → ℕ → State → State
draw_pixel room id cx cy color s = elim (live_at s id) [
  | none ↦ s
  | some i ↦
      let w = win_at s i in
      if ltb_ℤ cx (pos 0)
        || ltb_ℤ cy (pos 0)
        || (not (ltb_ℤ cx (content_w w)) || not (ltb_ℤ cy (content_h w)))
      then s
      else on_win i (λ w. record w { pixels = plot_any cx cy color (pixels_of room w w.pixels) }) s
]

-- `wm_btn_add`: -1 without a window or when 20 buttons are there; no label is the empty one.
unfoldable pub btn_add : ℤ → ℤ → ℤ → ℤ → ℤ → List ℕ → State → State × ℤ
btn_add id x y w h label s = elim (live_at s id) [
  | none ↦ (s, minus_one)
  | some i ↦
      let n = length (win_at s i).buttons in
      let b : Button = record { x = x; y = y; w = w; h = h; label = take 23 label } in
      if leb 20 n
      then (s, minus_one)
      else (on_win i (λ win. record win { buttons = win.buttons ++ (b ∷ []) }) s, pos n)
]

-- `wm_get_click_pos`, for pointers that are given: `none` writes nothing.
abbrev pub get_click_pos : ℤ → State → Option (ℤ × ℤ)
get_click_pos id s = elim (index_below 16 id) [
  | none ↦ none
  | some i ↦ some ((win_at s i).last_click)
]

-- `wm_mouse_rel`, for pointers that are given: the position, and the buttons when the window has the
-- focus.
unfoldable pub mouse_rel : ℤ → State → Option (ℤ × ℤ) × ℕ
mouse_rel id s = elim (live_at s id) [
  | none ↦ (none, 0)
  | some i ↦
      let w = win_at s i in
      (
        some (s.mouse.0 -ℤ (w.x +ℤ pos 2), s.mouse.1 -ℤ (w.y +ℤ pos 30)),
        if is_focused i s then s.mouse_btn else 0,
      )
]
