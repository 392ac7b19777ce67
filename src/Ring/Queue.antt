-- ===== src/Ring/Queue.antt =====
-- A ring of `cap` slots is a queue that holds at most `cap - 1` items.
use sistem_operasi.Base.{
  ℕ, suc, ◌+◌, ◌-◌, ◌≤◌, ◌<◌, ◌≡◌, refl, true, sym, ap, ◌∙◌, Bool-cases, inl, inr, false, Option,
  none, some, List, [], ◌∷◌, ◌++◌, arith, length, set, length-set, ◌==◌, ==_iff, if◌then◌else◌,
}
use mathlib.Core.Option
use sistem_operasi.Ring.{Ring, push, pop, next_index}
use sistem_operasi.Ring.Items.{distance, next_cases, items, length-items, items-set}

-- The queue that a ring stands for: first in, first out, with a bound.
abbrev pub enqueue {ℓ} : {A : Type ℓ} → ℕ → List A → A → Option (List A)
enqueue bound q x = if length q == bound then none else some (q ++ (x ∷ []))

abbrev pub dequeue {ℓ} : {A : Type ℓ} → List A → Option (A × List A)
dequeue [] = none
dequeue (x ∷ q) = some (x, q)

module _ {ℓ} {A : Type ℓ} where
  -- Every index is inside the array.
  pub record IsRing (cap : ℕ) (r : Ring A) : Type 0 where
    pub storage : cap ≤ length r.slots
    pub head_in : r.head < cap
    pub tail_in : r.tail < cap

  -- How many items a ring holds, and which, oldest first.
  abbrev pub count : ℕ → Ring A → ℕ
  count cap r = distance cap r.head r.tail

  abbrev pub contents : ℕ → A → Ring A → List A
  contents cap d r = items cap d r.slots r.head (count cap r)

module _ {ℓ} {A : Type ℓ} where
  pub length-contents : (cap : ℕ) (d : A) (r : Ring A) → length (contents cap d r) ≡ count cap r
  length-contents cap d r = length-items cap d r.slots r.head (count cap r)

module _ {ℓ} {A : Type ℓ} {cap : ℕ} where
  pub push-IsRing : {r s : Ring A} (x : A) → IsRing cap r → push cap r x ≡ some s → IsRing cap s
  unfolding push
  push-IsRing {r} x v e = ground (arith, length-set r.slots r.tail x, next_cases cap r.tail)

  pub pop-IsRing :
      {r s : Ring A} (d x : A) → IsRing cap r → pop cap d r ≡ some (x, s) → IsRing cap s
  unfolding pop
  pop-IsRing {r} d x v e = ground (arith, next_cases cap r.head)

  pub count-push :
      (r : Ring A) → IsRing cap r → (next_index cap r.tail == r.head) ≡ (count cap r == cap - 1)
  count-push r v = ground (arith, next_cases cap r.tail)

  -- When there is room, `push` succeeds and adds its item at the end.
  pub push-room :
      (d x : A) (r : Ring A)
      → IsRing cap r
      → count cap r < cap - 1
      → (s : Ring A) × (push cap r x ≡ some s)
        × IsRing cap s
        × (contents cap d s ≡ contents cap d r ++ (x ∷ []))
        × (count cap s ≡ count cap r + 1)
  unfolding push
  push-room d x r v room =
      let free : (next_index cap r.tail == r.head) ≡ false = ground (arith, count-push r v) in
      let s : Ring A = record r { slots = set r.slots r.tail x; tail = next_index cap r.tail } in
      let ok : push cap r x ≡ some s = rw free in
      let more : count cap s ≡ suc (count cap r) = ground (arith, next_cases cap r.tail) in
      (
        s,
        ok,
        push-IsRing x v ok,
        rw more (
            items-set cap d r.slots x r.tail r.head (count cap r) v.head_in v.tail_in v.storage
              refl),
        omega arith,
      )

  -- A full ring refuses.
  pub push-full : (x : A) (r : Ring A) → IsRing cap r → count cap r ≡ cap - 1 → push cap r x ≡ none
  unfolding push
  push-full x r v full = ground (arith, count-push r v)

  -- `pop` takes the oldest item.
  pub pop_refines :
      (d : A) (r : Ring A)
      → IsRing cap r
      → Option.map (λ (x, s). (x, contents cap d s)) (pop cap d r) ≡ dequeue (contents cap d r)
  unfolding pop
  pop_refines d r v = elim (Bool-cases (r.head == r.tail)) [
    | inl done ↦ let e : count cap r ≡ 0 = ground arith in rw (done, e)
    | inr more ↦
        let e : count cap r ≡ suc (distance cap (next_index cap r.head) r.tail) =
          ground (arith, next_cases cap r.head) in
        rw (more, e)
  ]

  -- `push` adds an item exactly when the queue has room for it.
  pub push_refines :
      (d x : A) (r : Ring A)
      → IsRing cap r
      → Option.map (contents cap d) (push cap r x) ≡ enqueue (cap - 1) (contents cap d r) x
  push_refines d x r v = elim (Bool-cases (count cap r == cap - 1)) [
    | inl full ↦
        rw
          (length-contents cap d r, full, push-full x r v ((==_iff (count cap r) (cap - 1)).0 full))
    | inr room ↦
        let (s, ok, w, e, n) = push-room d x r v (ground arith) in
        rw (length-contents cap d r, room, ok, e)
  ]

  -- An empty ring gives nothing.
  pub pop-nil : (d : A) (r : Ring A) → IsRing cap r → contents cap d r ≡ [] → pop cap d r ≡ none
  unfolding pop
  pop-nil d r v e =
      let none_left : count cap r ≡ 0 = sym (length-contents cap d r) ∙ ap length e in
      let done : (r.head == r.tail) ≡ true = ground arith in rw done

  -- Otherwise the oldest item comes out, and only the head moves.
  pub pop-cons :
      (d x : A) (q : List A) (r : Ring A)
      → IsRing cap r
      → contents cap d r ≡ x ∷ q
      → let s : Ring A = record r { head = next_index cap r.head } in
        (pop cap d r ≡ some (x, s)) × IsRing cap s × (contents cap d s ≡ q)
  unfolding pop
  pop-cons d x q r v e =
      let some_left : count cap r ≡ suc (length q) = sym (length-contents cap d r) ∙ ap length e in
      let one_less : count cap r ≡ suc (distance cap (next_index cap r.head) r.tail) =
        ground (arith, next_cases cap r.head) in
      let more : (r.head == r.tail) ≡ false = ground arith in
      let split = rw one_less at e in
      (
        rw more (ground (arith, split)),
        ground (arith, next_cases cap r.head),
        ground (arith, split),
      )
