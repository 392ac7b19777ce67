-- ===== src/Windows/Kept.antt =====
-- The order of the windows under the operations that programs call, and under keys, of src/kernel/window.c.
use sistem_operasi.Base.{
  ℕ, ◌≡◌, ◌<◌, refl, Bool, true, false, not, Option, none, some, List, find_index, find_index-some,
  if◌then◌else◌, ◌==◌, arith, ℤ, index_below,
}
use mathlib.Core.Path.{subst}
use sistem_operasi.Ring.{push, pop}
use sistem_operasi.Windows.{
  Window, State, blank_window, win_at, live_at, create, opened, destroy, push_event, pop_event,
  poll_key, poll_event, key_event, topmost, is_visible, raise_by_id, minimize_by_id, restore_by_id,
  event_slots, key_slots,
}
use sistem_operasi.Windows.Stack.{
  not-true, IsStack, IsStack-modify, IsStack-z_raise, IsStack-open, IsStack-close,
}

-- The order of the windows is right.
abbrev pub IsStacked : State → Type 0
IsStacked s = IsStack s.windows s.z_order

-- What holds on both branches of a result that may be missing, or of a test.
pub keeps {ℓ} :
    {A : Type 0} {B : Type ℓ} (P : B → Type 0) (o : Option A) {d : B} {f : A → B}
    → P d
    → ((a : A) → o ≡ some a → P (f a))
    → P (elim o [ none ↦ d | some a ↦ f a ])
keeps P none hd hf = hd
keeps P (some a) hd hf = hf a refl

pub keeps_if {ℓ} :
    {B : Type ℓ} (P : B → Type 0) (b : Bool) {s t : B} → P s → P t → P (if b then s else t)
keeps_if P true hs ht = hs
keeps_if P false hs ht = ht

index_below-some : (bound : ℕ) (id : ℤ) (i : ℕ) → index_below bound id ≡ some i → i < bound
index_below-some bound id i e = ground arith

picked : (b : Bool) (i j : ℕ) → (if b then some j else none) ≡ some i → (b ≡ true) × (j ≡ i)
picked true i j e = (refl, cc)
picked false i j e = absurd (cc)

live_at-some :
    (s : State) (id : ℤ) (i : ℕ) → live_at s id ≡ some i → (i < 16) × ((win_at s i).alive ≡ true)
unfolding live_at
live_at-some s id i =
    keeps (λ o. o ≡ some i → (i < 16) × ((win_at s i).alive ≡ true)) (index_below 16 id)
      (λ e. absurd (cc))
      (λ j l e.
        let (a, q) = picked (win_at s j).alive i j e in
        (
          subst (λ k. k < 16) q (index_below-some 16 id j l),
          subst (λ k. (win_at s k).alive ≡ true) q a,
        ))

pub push_event-IsStacked : (id ev : ℕ) (s : State) → IsStacked s → IsStacked (push_event id ev s)
unfolding push_event
push_event-IsStacked id ev s h =
    keeps IsStacked (push event_slots (win_at s id).events ev) h
      (λ r e. IsStack-modify (λ w. record w { events = r }) (λ w. refl) id h)

pub pop_event-IsStacked : (id : ℕ) (s : State) → IsStacked s → IsStacked ((pop_event id s).0)
unfolding pop_event
pop_event-IsStacked id s h =
    keeps (λ (p : State × ℕ). IsStacked (p.0)) (pop event_slots 0 (win_at s id).events) h
      (λ (ev, r) e. IsStack-modify (λ w. record w { events = r }) (λ w. refl) id h)

pub poll_key-IsStacked : (id : ℕ) (s : State) → IsStacked s → IsStacked ((poll_key id s).0)
unfolding poll_key
poll_key-IsStacked id s h =
    keeps (λ (p : State × ℕ). IsStacked (p.0)) (pop key_slots 0 (win_at s id).keys) h
      (λ (c, r) e. IsStack-modify (λ w. record w { keys = r }) (λ w. refl) id h)

pub poll_event-IsStacked : (id : ℤ) (s : State) → IsStacked s → IsStacked ((poll_event id s).0)
unfolding poll_event
poll_event-IsStacked id s h =
    keeps (λ (p : State × ℕ). IsStacked (p.0)) (live_at s id) h
      (λ i e.
        keeps_if (λ (p : State × ℕ). IsStacked (p.0)) ((pop_event i s).1 == 0)
          (poll_key-IsStacked i (pop_event i s).0 (pop_event-IsStacked i s h))
          (pop_event-IsStacked i s h))

pub key_event-IsStacked : (c : ℕ) (s : State) → IsStacked s → IsStacked (key_event c s)
unfolding key_event
key_event-IsStacked c s h =
    keeps IsStacked (topmost (λ i. is_visible (win_at s i)) s.z_order) h (λ id e.
      keeps IsStacked (push key_slots (win_at s id).keys c) h
        (λ r e. IsStack-modify (λ w. record w { keys = r }) (λ w. refl) id h))

pub raise_by_id-IsStacked : (id : ℤ) (s : State) → IsStacked s → IsStacked (raise_by_id id s)
unfolding raise_by_id
raise_by_id-IsStacked id s h = keeps IsStacked (live_at s id) h (λ i e. IsStack-z_raise i h)

pub minimize_by_id-IsStacked : (id : ℤ) (s : State) → IsStacked s → IsStacked (minimize_by_id id s)
unfolding minimize_by_id
minimize_by_id-IsStacked id s h = keeps IsStacked (live_at s id) h (λ i e.
    keeps_if IsStacked (win_at s i).minimized h
      (IsStack-modify (λ w. record w { minimized = true }) (λ w. refl) i h))

pub restore_by_id-IsStacked : (id : ℤ) (s : State) → IsStacked s → IsStacked (restore_by_id id s)
unfolding restore_by_id
restore_by_id-IsStacked id s h = keeps IsStacked (live_at s id) h (λ i e.
    keeps_if IsStacked (win_at s i).minimized
      (IsStack-z_raise i (IsStack-modify (λ w. record w { minimized = false }) (λ w. refl) i h)) h)

pub create-IsStacked :
    (x y w h : ℤ) (title : List ℕ) (s : State)
    → IsStacked s
    → IsStacked ((create x y w h title s).0)
unfolding create
create-IsStacked x y w h title s v =
    keeps (λ (p : State × ℤ). IsStacked (p.0)) (find_index (λ win. not win.alive) s.windows) v
      (λ id e.
        let (l, free) =
          find_index-some (λ (win : Window). not win.alive) blank_window s.windows id e in
        IsStack-open id (opened x y w h title) l (not-true _ free) (λ win. refl) v)

pub destroy-IsStacked : (id : ℤ) (s : State) → IsStacked s → IsStacked (destroy id s)
unfolding destroy
destroy-IsStacked id s h = keeps IsStacked (live_at s id) h (λ i e.
    let (l, alive) = live_at-some s id i e in
    IsStack-close i (λ w. record w { alive = false; pixels = none }) (omega (arith, h.slots)) alive
      (λ w. refl) h)
