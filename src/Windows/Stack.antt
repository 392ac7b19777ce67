-- ===== src/Windows/Stack.antt =====
-- The table of windows and the order in which they lie on one another: the lists behind `z_raise`,
-- `wm_create` and `wm_destroy` of src/kernel/window.c.
use sistem_operasi.Base.{
  ℕ, zero, suc, ◌+◌, ◌≡◌, ◌≤◌, ◌<◌, refl, sym, ap, ◌∙◌, Bool, true, false, Bool-cases, Option-cases,
  inl, inr, Option, none, some, List, [], ◌∷◌, ◌++◌, length, length-append, length-modify, get_or,
  modify, get_or-modify_self, get_or-modify_ne, find_index, find_index-some, ◌==◌, ==_iff, ==_refl,
  arith, next_slot, not,
}
use mathlib.Core.Path.{subst}
use mathlib.Core.Bool.{true≢false}
use sistem_operasi.Windows.{Window, blank_window, z_find, remove_at, z_raise, z_remove}

pub not-true : (b : Bool) → not b ≡ true → b ≡ false
not-true b h = ground arith

abbrev pub bit : Bool → ℕ
bit true = 1
bit false = 0

-- How often a number stands in a list.
abbrev pub occurrences : ℕ → List ℕ → ℕ
occurrences i [] = 0
occurrences i (x ∷ xs) = bit (x == i) + occurrences i xs

-- How many windows are alive.
abbrev pub population : List Window → ℕ
population [] = 0
population (w ∷ ws) = bit w.alive + population ws

-- There are 16 slots, and the order holds every window that is alive once and nothing else.
pub record IsStack (ws : List Window) (z : List ℕ) : Type 0 where
  pub slots : length ws ≡ 16
  pub size : length z ≡ population ws
  pub once : (i : ℕ) → occurrences i z ≡ bit ((get_or ws i blank_window).alive)

occurrences-append :
    (i x : ℕ) (z : List ℕ) → occurrences i (z ++ (x ∷ [])) ≡ occurrences i z + bit (x == i)
occurrences-append i x [] = omega arith
occurrences-append i x (y ∷ z) = omega (arith, occurrences-append i x z)

occurrences-remove_at :
    (i : ℕ) (z : List ℕ) (p : ℕ)
    → p < length z
    → occurrences i (remove_at z p) + bit (get_or z p 0 == i) ≡ occurrences i z
occurrences-remove_at i [] p h = absurd (omega arith)
occurrences-remove_at i (x ∷ z) zero h = omega arith
occurrences-remove_at i (x ∷ z) (suc p) h = omega (arith, occurrences-remove_at i z p (omega arith))

length-remove_at : (z : List ℕ) (p : ℕ) → p < length z → length (remove_at z p) + 1 ≡ length z
length-remove_at [] p h = absurd (omega arith)
length-remove_at (x ∷ z) zero h = omega arith
length-remove_at (x ∷ z) (suc p) h = omega (arith, length-remove_at z p (omega arith))

-- What a search for `id` finds is `id`.
z_find-some :
    (id : ℕ) (z : List ℕ) (p : ℕ) → z_find id z ≡ some p → (p < length z) × (get_or z p 0 ≡ id)
z_find-some id z p e =
    let (l, t) = find_index-some (λ j. j == id) 0 z p e in (l, (==_iff (get_or z p 0) id).0 t)

next_slot-none : (o : Option ℕ) → next_slot o ≡ none → o ≡ none
next_slot-none none e = refl
next_slot-none (some i) e = absurd (cc)

z_find-none : (id : ℕ) (z : List ℕ) → z_find id z ≡ none → occurrences id z ≡ 0
unfolding find_index
z_find-none id [] e = refl
z_find-none id (x ∷ z) e = elim (Bool-cases (x == id)) [
  | inl h ↦ let found : z_find id (x ∷ z) ≡ some 0 = rw h refl in absurd (cc)
  | inr h ↦
      let next : z_find id (x ∷ z) ≡ next_slot (z_find id z) = rw h refl in
      let rest = next_slot-none (z_find id z) (sym next ∙ e) in
      omega (arith, ap bit h, z_find-none id z rest)
]

-- What raising and taking away a window do to the order.
z_raise-some :
    (id : ℕ) (z : List ℕ) (p : ℕ) → z_find id z ≡ some p → z_raise id z ≡ remove_at z p ++ (id ∷ [])
unfolding z_raise
z_raise-some id z p e = rw (e, z_raise)

z_raise-none : (id : ℕ) (z : List ℕ) → z_find id z ≡ none → z_raise id z ≡ z
unfolding z_raise
z_raise-none id z e = rw (e, z_raise)

z_remove-some : (id : ℕ) (z : List ℕ) (p : ℕ) → z_find id z ≡ some p → z_remove id z ≡ remove_at z p
unfolding z_remove
z_remove-some id z p e = rw (e, z_remove)

-- Raising a window keeps what the order holds.
pub occurrences-z_raise : (i id : ℕ) (z : List ℕ) → occurrences i (z_raise id z) ≡ occurrences i z
occurrences-z_raise i id z = elim (Option-cases (z_find id z)) [
  | inl e ↦ ap (occurrences i) (z_raise-none id z e)
  | inr (p, e) ↦
      let (l, v) = z_find-some id z p e in
      let out = rw v at (occurrences-remove_at i z p l) in
      ap (occurrences i) (z_raise-some id z p e)
      ∙ omega (arith, occurrences-append i id (remove_at z p), out)
]

pub length-z_raise : (id : ℕ) (z : List ℕ) → length (z_raise id z) ≡ length z
length-z_raise id z = elim (Option-cases (z_find id z)) [
  | inl e ↦ ap length (z_raise-none id z e)
  | inr (p, e) ↦
      let (l, v) = z_find-some id z p e in
      ap length (z_raise-some id z p e)
      ∙ omega (arith, length-append (remove_at z p) (id ∷ []), length-remove_at z p l)
]

-- What lies in the order can be taken away, and then stands in it once less.
pub z_remove-occurs :
    (id : ℕ) (z : List ℕ)
    → 1 ≤ occurrences id z
    → (length (z_remove id z) + 1 ≡ length z)
      × ((i : ℕ) → occurrences i (z_remove id z) + bit (id == i) ≡ occurrences i z)
z_remove-occurs id z h = elim (Option-cases (z_find id z)) [
  | inl e ↦ absurd (omega (arith, z_find-none id z e))
  | inr (p, e) ↦
      let (l, v) = z_find-some id z p e in
      rw (z_remove-some id z p e) (
        length-remove_at z p l,
        λ i.
            subst (λ x. occurrences i (remove_at z p) + bit (x == i) ≡ occurrences i z) v
              (occurrences-remove_at i z p l),
      )
]

population-modify :
    (ws : List Window) (i : ℕ) (f : Window → Window)
    → i < length ws
    → population (modify ws i f) + bit ((get_or ws i blank_window).alive)
      ≡ population ws + bit ((f (get_or ws i blank_window)).alive)
population-modify [] i f h = absurd (omega arith)
population-modify (w ∷ ws) zero f h = omega arith
population-modify (w ∷ ws) (suc i) f h = omega (arith, population-modify ws i f (omega arith))

bit-le : (b : Bool) → bit b ≤ 1
bit-le true = omega arith
bit-le false = omega arith

pub population-le : (ws : List Window) → population ws ≤ length ws
population-le [] = omega arith
population-le (w ∷ ws) = omega (arith, bit-le w.alive, population-le ws)

module _ (f : Window → Window) (same : (w : Window) → (f w).alive ≡ w.alive) where
  population-same : (ws : List Window) (i : ℕ) → population (modify ws i f) ≡ population ws
  population-same [] i = refl
  population-same (w ∷ ws) zero = ap (λ b. bit b + population ws) (same w)
  population-same (w ∷ ws) (suc i) = ap (λ n. bit w.alive + n) (population-same ws i)

  alive-same :
      (ws : List Window) (i j : ℕ)
      → (get_or (modify ws i f) j blank_window).alive ≡ (get_or ws j blank_window).alive
  alive-same [] i j = refl
  alive-same (w ∷ ws) zero zero = same w
  alive-same (w ∷ ws) zero (suc j) = refl
  alive-same (w ∷ ws) (suc i) zero = refl
  alive-same (w ∷ ws) (suc i) (suc j) = alive-same ws i j

  -- A change of a window that keeps whether it is alive.
  pub IsStack-modify :
      {ws : List Window} {z : List ℕ} (i : ℕ) → IsStack ws z → IsStack (modify ws i f) z
  IsStack-modify {ws} {z} i h = record {
    slots = length-modify ws i f ∙ h.slots;
    size = h.size ∙ sym (population-same ws i);
    once = λ j. h.once j ∙ ap bit (sym (alive-same ws i j));
  }

pub IsStack-z_raise :
    {ws : List Window} {z : List ℕ} (id : ℕ) → IsStack ws z → IsStack ws (z_raise id z)
IsStack-z_raise {ws} {z} id h = record {
  slots = h.slots;
  size = length-z_raise id z ∙ h.size;
  once = λ i. occurrences-z_raise i id z ∙ h.once i;
}

-- An order that counts one more, or one less, at the slot `i`, where the table changed.
once-modify :
    (ws : List Window) (z z' : List ℕ) (i : ℕ) (f : Window → Window)
    → i < length ws
    → ((j : ℕ) → occurrences j z ≡ bit ((get_or ws j blank_window).alive))
    → (occurrences i z' ≡ bit ((f (get_or ws i blank_window)).alive))
    → ((j : ℕ) → (i == j) ≡ false → occurrences j z' ≡ occurrences j z)
    → (j : ℕ) → occurrences j z' ≡ bit ((get_or (modify ws i f) j blank_window).alive)
once-modify ws z z' i f l once at_i else_same j = elim (Bool-cases (i == j)) [
  | inl e ↦
      subst (λ k. occurrences k z' ≡ bit ((get_or (modify ws i f) k blank_window).alive))
        ((==_iff i j).0 e)
        (at_i ∙ ap (λ (w : Window). bit w.alive) (sym (get_or-modify_self ws i f blank_window l)))
  | inr e ↦
      else_same j e
      ∙ once j
      ∙ ap (λ (w : Window). bit w.alive)
          (sym
            (get_or-modify_ne ws i j f blank_window (λ s. true≢false (sym ((==_iff i j).1 s) ∙ e))))
]

-- A window opens in a free slot and lies on top.
pub IsStack-open :
    {ws : List Window} {z : List ℕ} (i : ℕ) (f : Window → Window)
    → i < length ws
    → (get_or ws i blank_window).alive ≡ false
    → ((w : Window) → (f w).alive ≡ true)
    → IsStack ws z
    → IsStack (modify ws i f) (z ++ (i ∷ []))
IsStack-open {ws} {z} i f l dead new h =
    let was = ap bit dead in
    let now = ap bit (new (get_or ws i blank_window)) in
    record {
      slots = length-modify ws i f ∙ h.slots;
      size = omega (arith, length-append z (i ∷ []), population-modify ws i f l, h.size, was, now);
      once =
          once-modify ws z (z ++ (i ∷ [])) i f l h.once
            (omega (arith, occurrences-append i i z, h.once i, was, now, ap bit (==_refl i)))
            (λ j e. omega (arith, occurrences-append j i z, ap bit e));
    }

-- A window closes and leaves the order.
pub IsStack-close :
    {ws : List Window} {z : List ℕ} (i : ℕ) (f : Window → Window)
    → i < length ws
    → (get_or ws i blank_window).alive ≡ true
    → ((w : Window) → (f w).alive ≡ false)
    → IsStack ws z
    → IsStack (modify ws i f) (z_remove i z)
IsStack-close {ws} {z} i f l alive gone h =
    let was = ap bit alive in
    let now = ap bit (gone (get_or ws i blank_window)) in
    let (less, out) = z_remove-occurs i z (omega (arith, h.once i, was)) in
    record {
      slots = length-modify ws i f ∙ h.slots;
      size = omega (arith, less, population-modify ws i f l, h.size, was, now);
      once =
          once-modify ws z (z_remove i z) i f l h.once
            (omega (arith, out i, h.once i, was, now, ap bit (==_refl i)))
            (λ j e. omega (arith, out j, ap bit e));
    }
