-- ===== src/Base/Scan.antt =====
-- The loops that look for the first slot of a table that passes a test.
use Prim.Native.Nat.{ℕ, zero, suc, ◌<◌}
use mathlib.Core.Path.{◌≡◌, refl, subst}
use mathlib.Core.Logic.{inl, inr}
use mathlib.Core.Bool.{Bool, true, false}
use mathlib.Core.Option.{Option, none, some}
use mathlib.Core.List.{List, [], ◌∷◌}
use native.Mathlib.Omega.{arith}
use sistem_operasi.Base.Tests.{if◌then◌else◌, Bool-cases}
use sistem_operasi.Base.Arrays.{length, get_or, modify}

-- The number of a slot, counted from one slot earlier.
abbrev pub next_slot : Option ℕ → Option ℕ
next_slot none = none
next_slot (some i) = some (suc i)

module _ {ℓ} {A : Type ℓ} (test : A → Bool) where
  unfoldable pub find_index : List A → Option ℕ
  find_index [] = none
  find_index (x ∷ xs) = if test x then some 0 else next_slot (find_index xs)

  -- What a search may give: a slot that passes, or none when no slot does.
  abbrev pub Finds : A → List A → Option ℕ → Type 0
  Finds d xs none = (j : ℕ) → j < length xs → test (get_or xs j d) ≡ false
  Finds d xs (some i) = (i < length xs) × (test (get_or xs i d) ≡ true)

  none_later :
      (x : A) (xs : List A) (d : A)
      → test x ≡ false
      → ((j : ℕ) → j < length xs → test (get_or xs j d) ≡ false)
      → (j : ℕ) → j < suc (length xs)
      → test (get_or (x ∷ xs) j d) ≡ false
  none_later x xs d h no_slot zero l = h
  none_later x xs d h no_slot (suc j) l = no_slot j (omega arith)

  Finds-next :
      (d x : A) (xs : List A) (o : Option ℕ)
      → test x ≡ false
      → Finds d xs o
      → Finds d (x ∷ xs) (next_slot o)
  Finds-next d x xs (some i) h (l, t) = (omega arith, t)
  Finds-next d x xs none h no_slot = λ j l. none_later x xs d h no_slot j l

  pub find_index-Finds : (d : A) (xs : List A) → Finds d xs (find_index xs)
  unfolding find_index
  find_index-Finds d [] = λ j l. absurd (omega arith)
  find_index-Finds d (x ∷ xs) = elim (Bool-cases (test x)) [
    | inl h ↦ rw h (omega arith, h)
    | inr h ↦ rw h (Finds-next d x xs (find_index xs) h (find_index-Finds d xs))
  ]

  pub find_index-some :
      (d : A) (xs : List A) (i : ℕ)
      → find_index xs ≡ some i
      → (i < length xs) × (test (get_or xs i d) ≡ true)
  find_index-some d xs i e = subst (Finds d xs) e (find_index-Finds d xs)

  -- A slot whose answer to the test a write leaves alone does not change what is found.
  pub find_index-modify :
      (d : A) (xs : List A) (i : ℕ) (f : A → A)
      → test (f (get_or xs i d)) ≡ test (get_or xs i d)
      → find_index (modify xs i f) ≡ find_index xs
  unfolding find_index
  find_index-modify d [] i f h = refl
  find_index-modify d (x ∷ xs) zero f h = rw h refl
  find_index-modify d (x ∷ xs) (suc i) f h = rw (find_index-modify d xs i f h) refl

  -- When no slot passes, the one that is made to pass is found.
  pub find_index-modify_new :
      (d : A) (xs : List A) (i : ℕ) (f : A → A)
      → Finds d xs none
      → i < length xs
      → test (f (get_or xs i d)) ≡ true
      → find_index (modify xs i f) ≡ some i
  unfolding find_index
  find_index-modify_new d [] i f e l h = absurd (omega arith)
  find_index-modify_new d (x ∷ xs) zero f e l h = rw h refl
  find_index-modify_new d (x ∷ xs) (suc i) f e l h =
      rw
        (
          e 0 (omega arith),
          find_index-modify_new d xs i f (λ j k. e (suc j) (omega arith)) (omega arith) h,
        )
        refl
