-- ===== src/Windows/Topmost.antt =====
-- Which window a point, the focus and a new window belong to: `hit_window`, `is_focused`, `wm_create`
-- and `wm_destroy` of src/kernel/window.c.
use sistem_operasi.Base.{
  ℕ, ◌≡◌, ◌≤◌, ◌<◌, refl, sym, ap, ◌∙◌, Bool, true, false, not, Bool-cases, inl, inr, Option, none,
  some, List, [], ◌∷◌, ◌++◌, length, find_index, find_index-some, if◌then◌else◌, ◌==◌, ==_refl,
  ==_iff, next_slot, arith, ℤ, pos, get_or-modify_self, index_below, modify,
}
use mathlib.Core.Path.{subst}
use sistem_operasi.Windows.{
  Window, State, blank_window, win_at, live_at, opened, create, destroy, is_focused, topmost,
  z_find, z_remove, remove_at,
}
use sistem_operasi.Windows.Hits.{hit_window, covers}
use sistem_operasi.Windows.Stack.{IsStack, not-true, bit, occurrences}

-- No number of a list passes a test.
abbrev pub NonePass : (ℕ → Bool) → List ℕ → Type 0
NonePass test [] = Unit {0}
NonePass test (x ∷ xs) = (test x ≡ false) × NonePass test xs

-- What a search from the top gives: the last number that passes, or none when no number does.
abbrev pub IsTopmost : (ℕ → Bool) → List ℕ → Option ℕ → Type 0
IsTopmost test z none = NonePass test z
IsTopmost test z (some i) =
    (below above : List ℕ) × (z ≡ below ++ (i ∷ above)) × (test i ≡ true) × NonePass test above

IsTopmost-cons :
    (test : ℕ → Bool) (x : ℕ) (z : List ℕ) (o : Option ℕ)
    → IsTopmost test z o
    → IsTopmost test (x ∷ z) (elim o [ some j ↦ some j | none ↦ if test x then some x else none ])
IsTopmost-cons test x z (some j) (below, above, e, t, none_above) =
    (x ∷ below, above, ap (λ r. x ∷ r) e, t, none_above)
IsTopmost-cons test x z none nothing = elim (Bool-cases (test x)) [
  | inl t ↦ rw t ([], z, refl, t, nothing)
  | inr t ↦ rw t (t, nothing)
]

pub topmost-IsTopmost : (test : ℕ → Bool) (z : List ℕ) → IsTopmost test z (topmost test z)
unfolding topmost
topmost-IsTopmost test [] = tt
topmost-IsTopmost test (x ∷ z) = IsTopmost-cons test x z (topmost test z) (topmost-IsTopmost test z)

occurrences-pass :
    (test : ℕ → Bool) (i : ℕ) (z : List ℕ) → NonePass test z → 1 ≤ occurrences i z → test i ≡ false
occurrences-pass test i [] h l = absurd (omega arith)
occurrences-pass test i (x ∷ z) (t, h) l = elim (Bool-cases (x == i)) [
  | inl e ↦ subst (λ k. test k ≡ false) ((==_iff x i).0 e) t
  | inr e ↦ occurrences-pass test i z h (omega (arith, ap bit e))
]

covers-dead : (mx my : ℤ) (w : Window) → w.alive ≡ false → covers mx my w ≡ false
covers-dead mx my w h = rw h refl

-- What a click at a point may hit: a window that covers it, with no such window above, or none when no
-- slot of the table has a window that covers it.
abbrev pub IsHit : ℤ → ℤ → State → Option ℕ → Type 0
IsHit mx my s none = (i : ℕ) → covers mx my (win_at s i) ≡ false
IsHit mx my s (some i) = IsTopmost (λ j. covers mx my (win_at s j)) s.z_order (some i)

IsTopmost-IsHit :
    (mx my : ℤ) (s : State) (o : Option ℕ)
    → IsStack s.windows s.z_order
    → IsTopmost (λ j. covers mx my (win_at s j)) s.z_order o
    → IsHit mx my s o
IsTopmost-IsHit mx my s (some i) h found = found
IsTopmost-IsHit mx my s none h nothing = λ i. elim (Bool-cases (win_at s i).alive) [
  | inl a ↦
      occurrences-pass (λ j. covers mx my (win_at s j)) i s.z_order nothing
        (omega (arith, h.once i, ap bit a))
  | inr a ↦ covers-dead mx my (win_at s i) a
]

-- When the order holds the windows that are alive, `hit_window` gives the window that covers a point
-- and above which no other one does, and -1 only when no visible window covers the point.
pub hit_window-IsHit :
    (mx my : ℤ) (s : State) → IsStack s.windows s.z_order → IsHit mx my s (hit_window mx my s)
hit_window-IsHit mx my s h =
    IsTopmost-IsHit mx my s (hit_window mx my s) h
      (topmost-IsTopmost (λ i. covers mx my (win_at s i)) s.z_order)

-- The place of a new window.
z_find-append :
    (i : ℕ) (z : List ℕ) → occurrences i z ≡ 0 → z_find i (z ++ (i ∷ [])) ≡ some (length z)
unfolding find_index
z_find-append i [] h = rw (==_refl i) refl
z_find-append i (x ∷ z) h = elim (Bool-cases (x == i)) [
  | inl e ↦ absurd (omega (arith, h, ap bit e))
  | inr e ↦ rw e (ap next_slot (z_find-append i z (omega (arith, h, ap bit e))))
]

remove_at-append : (i : ℕ) (z : List ℕ) → remove_at (z ++ (i ∷ [])) (length z) ≡ z
remove_at-append i [] = refl
remove_at-append i (x ∷ z) = ap (λ r. x ∷ r) (remove_at-append i z)

z_remove-append : (i : ℕ) (z : List ℕ) → occurrences i z ≡ 0 → z_remove i (z ++ (i ∷ [])) ≡ z
unfolding z_remove
z_remove-append i z h = rw (z_find-append i z h, z_remove) (remove_at-append i z)

topmost-append :
    (test : ℕ → Bool) (i : ℕ) (z : List ℕ) → test i ≡ true → topmost test (z ++ (i ∷ [])) ≡ some i
unfolding topmost
topmost-append test i [] t = rw t refl
topmost-append test i (x ∷ z) t = rw (topmost-append test i z t) refl

live_at-alive :
    (s : State) (i : ℕ) → i < 16 → (win_at s i).alive ≡ true → live_at s (pos i) ≡ some i
unfolding live_at
live_at-alive s i l a =
    let inside : index_below 16 (pos i) ≡ some i = ground arith in rw (inside, a, live_at)

-- The state after `wm_create` has taken the slot `i`.
abbrev with_window : ℤ → ℤ → ℤ → ℤ → List ℕ → ℕ → State → State
with_window x y w h title i s = record s {
  windows = modify s.windows i (opened x y w h title);
  z_order = s.z_order ++ (i ∷ []);
}

create-with_window :
    (x y w h : ℤ) (title : List ℕ) (s : State) (i : ℕ)
    → find_index (λ win. not win.alive) s.windows ≡ some i
    → create x y w h title s ≡ (with_window x y w h title i s, pos i)
unfolding create
create-with_window x y w h title s i free = rw (free, create)

destroy-z_order :
    (s : State) (i : ℕ)
    → live_at s (pos i) ≡ some i
    → (destroy (pos i) s).z_order ≡ z_remove i s.z_order
unfolding destroy
destroy-z_order s i e = rw (e, destroy)

-- With a free slot `wm_create` gives the number of the first one, and the new window lies above all
-- others and has the focus; `wm_destroy` of it then leaves the order that was there before.
pub destroy-create :
    (x y w h : ℤ) (title : List ℕ) (s : State) (i : ℕ)
    → IsStack s.windows s.z_order
    → find_index (λ win. not win.alive) s.windows ≡ some i
    → let (s1, id) = create x y w h title s in
      (id ≡ pos i)
      × (s1.z_order ≡ s.z_order ++ (i ∷ []))
      × (is_focused i s1 ≡ true)
      × ((destroy id s1).z_order ≡ s.z_order)
unfolding is_focused
destroy-create x y w h title s i v free =
    let (l, dead) =
      find_index-some (λ (win : Window). not win.alive) blank_window s.windows i free in
    let s1 = with_window x y w h title i s in
    let new : win_at s1 i ≡ opened x y w h title (win_at s i) =
      get_or-modify_self s.windows i (opened x y w h title) blank_window l in
    let shown : not (win_at s1 i).minimized ≡ true = ap (λ (win : Window). not win.minimized) new in
    let top = topmost-append (λ j. not (win_at s1 j).minimized) i s.z_order shown in
    let live = live_at-alive s1 i (omega (arith, v.slots)) (ap (λ (win : Window). win.alive) new) in
    let absent : occurrences i s.z_order ≡ 0 = v.once i ∙ ap bit (not-true _ dead) in
    subst
      (λ (p : State × ℤ).
        (p.1 ≡ pos i)
        × (p.0.z_order ≡ s.z_order ++ (i ∷ []))
        × (is_focused i p.0 ≡ true)
        × ((destroy p.1 p.0).z_order ≡ s.z_order))
      (sym (create-with_window x y w h title s i free))
      (
        refl,
        refl,
        rw (top, is_focused) (==_refl i),
        destroy-z_order s1 i live ∙ z_remove-append i s.z_order absent,
      )
