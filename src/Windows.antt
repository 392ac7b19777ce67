-- ===== src/Windows.antt =====
-- The window manager of src/kernel/window.c: the table of windows, the order in which they lie on one
-- another, and the events of each. What it draws on the screen is not part of the state. C's `int` is
-- taken to be unbounded for coordinates.
pub mod Hits
pub mod Mouse
pub mod Content
pub mod Stack
pub mod Invariant
pub mod Kept
pub mod Operations
pub mod Topmost
use sistem_operasi.Base.{
  ℕ, zero, suc, ◌+◌, ◌*◌, Bool, true, false, not, ◌&&◌, Option, none, some, List, [], ◌∷◌, ◌++◌,
  length, get_or, take, modify, replicate, find_index, if◌then◌else◌, ◌==◌, ltb_ℤ, ℤ, pos,
  minus_one, index_below,
}
use sistem_operasi.Ring.{Ring, push, pop}

-- WIN_EVQ_SIZE and WIN_KEYQ_SIZE
abbrev pub event_slots : ℕ
event_slots = 16

abbrev pub key_slots : ℕ
key_slots = 32

-- WIN_EVENT_CLOSE, WIN_EVENT_CLICK, WIN_EVENT_KEY and WIN_EVENT_BTN; 0 is WIN_EVENT_NONE.
abbrev pub event_close : ℕ
event_close = 1

abbrev pub event_click : ℕ
event_click = 2

abbrev pub event_key : ℕ
event_key = 3

abbrev pub event_btn : ℕ
event_btn = 4

pub record Text : Type 0 where
  pub x : ℤ
  pub y : ℤ
  pub s : List ℕ
  pub fg : ℕ
  pub bg : ℕ

pub record Rect : Type 0 where
  pub x : ℤ
  pub y : ℤ
  pub w : ℤ
  pub h : ℤ
  pub color : ℕ

pub record Button : Type 0 where
  pub x : ℤ
  pub y : ℤ
  pub w : ℤ
  pub h : ℤ
  pub label : List ℕ

-- A pixel buffer with its two dimensions.
pub record Pixels : Type 0 where
  pub width : ℤ
  pub height : ℤ
  pub colors : List ℕ

-- `WinSlot`: the texts, rectangles and buttons are the entries below their counts.
pub record Window : Type 0 where
  pub x : ℤ
  pub y : ℤ
  pub w : ℤ
  pub h : ℤ
  pub title : List ℕ
  pub content_bg : ℕ
  pub alive : Bool
  pub events : Ring ℕ
  pub texts : List Text
  pub keys : Ring ℕ
  pub buttons : List Button
  pub last_click : ℤ × ℤ
  pub minimized : Bool
  pub rects : List Rect
  pub pixels : Option Pixels

-- A program that a click starts: an icon of the desktop or a button of the taskbar.
pub data Launch : Type 0 where
  icon : ℕ → Launch
  quick : ℕ → Launch

-- The static data of window.c, and the programs that clicks have started; `z_order` has its first
-- `z_count` entries, the lowest window first.
pub record State : Type 0 where
  pub windows : List Window
  pub z_order : List ℕ
  pub drag_id : Option ℕ
  pub drag_offset : ℤ × ℤ
  pub resize_id : Option ℕ
  pub resize_orig : ℤ × ℤ
  pub resize_mouse : ℤ × ℤ
  pub mouse : ℤ × ℤ
  pub mouse_btn : ℕ
  pub last_icon : Option ℕ
  pub last_icon_tick : ℕ
  pub launched : List Launch

abbrev pub empty_ring : ℕ → Ring ℕ
empty_ring cap = record { slots = replicate cap 0; head = 0; tail = 0 }

-- A zeroed slot.
abbrev pub blank_window : Window
blank_window = record {
  x = pos 0;
  y = pos 0;
  w = pos 0;
  h = pos 0;
  title = [];
  content_bg = 0;
  alive = false;
  events = empty_ring event_slots;
  texts = [];
  keys = empty_ring key_slots;
  buttons = [];
  last_click = (pos 0, pos 0);
  minimized = false;
  rects = [];
  pixels = none;
}

abbrev pub win_at : State → ℕ → Window
win_at s i = get_or s.windows i blank_window

abbrev pub on_win : ℕ → (Window → Window) → State → State
on_win i f s = record s { windows = modify s.windows i f }

-- `id < 0 || id >= MAX_WINDOWS || !windows[id].alive`, with the slot of a window that passes.
unfoldable pub live_at : State → ℤ → Option ℕ
live_at s id = elim (index_below 16 id) [
  | none ↦ none
  | some i ↦ if (win_at s i).alive then some i else none
]

-- `ev_push`: a full queue drops the event.
unfoldable pub push_event : ℕ → ℕ → State → State
push_event id ev s = elim (push event_slots (win_at s id).events ev) [
  | none ↦ s
  | some r ↦ on_win id (λ w. record w { events = r }) s
]

-- `ev_pop`
unfoldable pub pop_event : ℕ → State → State × ℕ
pop_event id s = elim (pop event_slots 0 (win_at s id).events) [
  | none ↦ (s, 0)
  | some (ev, r) ↦ (on_win id (λ w. record w { events = r }) s, ev)
]

-- `z_find`
abbrev pub z_find : ℕ → List ℕ → Option ℕ
z_find id z = find_index (λ j. j == id) z

-- The loop that moves the entries behind `pos` down by one.
abbrev pub remove_at : List ℕ → ℕ → List ℕ
remove_at [] _ = []
remove_at (x ∷ xs) zero = xs
remove_at (x ∷ xs) (suc p) = x ∷ remove_at xs p

unfoldable pub z_raise : ℕ → List ℕ → List ℕ
z_raise id z = elim (z_find id z) [ none ↦ z | some p ↦ remove_at z p ++ (id ∷ []) ]

unfoldable pub z_remove : ℕ → List ℕ → List ℕ
z_remove id z = elim (z_find id z) [ none ↦ z | some p ↦ remove_at z p ]

-- The window from the top down that passes a test.
unfoldable pub topmost : (ℕ → Bool) → List ℕ → Option ℕ
topmost test [] = none
topmost test (i ∷ z) = elim (topmost test z) [
  | some j ↦ some j
  | none ↦ if test i then some i else none
]

-- A slot as `wm_init` and `wm_create` clear it; the arrays of the two rings stay.
abbrev pub cleared : Window → Window
cleared w = record w {
  events = record w.events { head = 0; tail = 0 };
  texts = [];
  rects = [];
  pixels = none;
  keys = record w.keys { head = 0; tail = 0 };
  buttons = [];
  last_click = (pos 0, pos 0);
  minimized = false;
}

abbrev pub init_slots : List Window → List Window
init_slots [] = []
init_slots (w ∷ ws) = record (cleared w) { alive = false } ∷ init_slots ws

-- `wm_init`
unfoldable pub init : State → State
init s = record s { windows = init_slots s.windows; z_order = []; drag_id = none; resize_id = none }

abbrev pub at_least : ℤ → ℤ → ℤ
at_least low v = if ltb_ℤ v low then low else v

abbrev pub opened : ℤ → ℤ → ℤ → ℤ → List ℕ → Window → Window
opened x y w h title win = record (cleared win) {
  x = x;
  y = y;
  w = at_least (pos 82) w;
  h = at_least (pos 42) h;
  content_bg = 0;
  alive = true;
  title = take 31 title;
}

-- `wm_create`: -1 when every slot is taken.
unfoldable pub create : ℤ → ℤ → ℤ → ℤ → List ℕ → State → State × ℤ
create x y w h title s = elim (find_index (λ win. not win.alive) s.windows) [
  | none ↦ (s, minus_one)
  | some id ↦ (
    record s {
      windows = modify s.windows id (opened x y w h title);
      z_order = s.z_order ++ (id ∷ []);
    },
    pos id,
  )
]

-- `if (drag_id == id) drag_id = -1`
abbrev pub forget : ℕ → Option ℕ → Option ℕ
forget id none = none
forget id (some j) = if j == id then none else some j

abbrev pub destroy_at : ℕ → State → State
destroy_at id s = record s {
  windows = modify s.windows id (λ w. record w { alive = false; pixels = none });
  z_order = z_remove id s.z_order;
  drag_id = forget id s.drag_id;
  resize_id = forget id s.resize_id;
}

-- `wm_destroy`
unfoldable pub destroy : ℤ → State → State
destroy id s = elim (live_at s id) [ none ↦ s | some i ↦ destroy_at i s ]

abbrev pub is_visible : Window → Bool
is_visible w = w.alive && not w.minimized

-- `is_focused`
unfoldable pub is_focused : ℕ → State → Bool
is_focused id s = elim (topmost (λ i. not (win_at s i).minimized) s.z_order) [
  | none ↦ false
  | some i ↦ i == id
]

-- `wm_key_event`: the character goes to the visible window on top, unless its queue is full.
unfoldable pub key_event : ℕ → State → State
key_event c s = elim (topmost (λ i. is_visible (win_at s i)) s.z_order) [
  | none ↦ s
  | some id ↦ elim (push key_slots (win_at s id).keys c) [
    | none ↦ s
    | some r ↦ on_win id (λ w. record w { keys = r }) s
  ]
]

-- `wm_has_focus`
abbrev pub has_focus : State → Bool
has_focus s = elim (topmost (λ i. is_visible (win_at s i)) s.z_order) [
  | none ↦ false
  | some _ ↦ true
]

-- The queue of keys, read by `wm_poll_event`.
unfoldable pub poll_key : ℕ → State → State × ℕ
poll_key id s = elim (pop key_slots 0 (win_at s id).keys) [
  | none ↦ (s, 0)
  | some (c, r) ↦ (on_win id (λ w. record w { keys = r }) s, event_key + c * 256)
]

-- `wm_poll_event`: the events first, then the keys.
unfoldable pub poll_event : ℤ → State → State × ℕ
poll_event id s = elim (live_at s id) [
  | none ↦ (s, 0)
  | some i ↦ let (s', ev) = pop_event i s in if ev == 0 then poll_key i s' else (s', ev)
]

-- `wm_raise_by_id`, `wm_minimize_by_id` and `wm_restore_by_id`
unfoldable pub raise_by_id : ℤ → State → State
raise_by_id id s = elim (live_at s id) [
  | none ↦ s
  | some i ↦ record s { z_order = z_raise i s.z_order }
]

unfoldable pub minimize_by_id : ℤ → State → State
minimize_by_id id s = elim (live_at s id) [
  | none ↦ s
  | some i ↦ if (win_at s i).minimized then s else on_win i (λ w. record w { minimized = true }) s
]

unfoldable pub restore_by_id : ℤ → State → State
restore_by_id id s = elim (live_at s id) [
  | none ↦ s
  | some i ↦
      let s' = on_win i (λ w. record w { minimized = false }) s in
      if (win_at s i).minimized then record s' { z_order = z_raise i s'.z_order } else s
]

-- `wm_get_title` and `wm_is_minimized`
abbrev pub get_title : ℤ → State → List ℕ
get_title id s = elim (live_at s id) [ none ↦ [] | some i ↦ (win_at s i).title ]

abbrev pub is_minimized : ℤ → State → Bool
is_minimized id s = elim (live_at s id) [ none ↦ false | some i ↦ (win_at s i).minimized ]

-- `wm_get_z_id`
abbrev pub get_z_id : ℤ → State → ℤ
get_z_id idx s = elim (index_below (length s.z_order) idx) [
  | none ↦ minus_one
  | some i ↦ pos (get_or s.z_order i 0)
]
