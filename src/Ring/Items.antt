-- ===== src/Ring/Items.antt =====
-- The items of a circular array, oldest first, and what `push` and `pop` do to them.
use native.Mathlib.Nat.{mod-eq_of_lt, mod_self}
use sistem_operasi.Base.{
  ℕ, zero, suc, ◌+◌, ◌-◌, ◌≤◌, ◌<◌, ◌≡◌, refl, ap, ap₂, List, [], ◌∷◌, ◌++◌, arith, length, get_or,
  set, get_or-set_self, get_or-set_ne, ltb, if◌then◌else◌, inl, inr, Bool-cases, ◌==◌, ==_iff,
}
use sistem_operasi.Ring.{next_index}

-- The number of steps from `h` round to `t`.
abbrev pub distance : ℕ → ℕ → ℕ → ℕ
distance cap h t = if ltb t h then t + cap - h else t - h

-- One step round, with no division.
pub next_cases : (cap i : ℕ) → i < cap → next_index cap i ≡ (if i + 1 == cap then 0 else i + 1)
next_cases cap i h = elim (Bool-cases (i + 1 == cap)) [
  | inl last ↦ let e : i + 1 ≡ cap = (==_iff (i + 1) cap).0 last in rw last (rw e (mod_self cap))
  | inr more ↦ rw more (mod-eq_of_lt (ground arith))
]

module _ {ℓ} {A : Type ℓ} (cap : ℕ) (d : A) where
  -- The `n` items from index `h` on.
  abbrev pub items : List A → ℕ → ℕ → List A
  items buf h zero = []
  items buf h (suc n) = get_or buf h d ∷ items buf (next_index cap h) n

  pub length-items : (buf : List A) (h n : ℕ) → length (items buf h n) ≡ n
  length-items buf h zero = refl
  length-items buf h (suc n) = ap suc (length-items buf (next_index cap h) n)

  -- A write at or past the end of the items does not change them.
  pub items-set_outside :
      (buf : List A) (x : A) (j h n : ℕ)
      → h < cap
      → j < cap
      → n ≤ distance cap h j
      → items (set buf j x) h n ≡ items buf h n
  items-set_outside buf x j h zero hh hj le = refl
  items-set_outside buf x j h (suc n) hh hj le =
      ap₂ ◌∷◌ (get_or-set_ne buf j h x d (ground arith)) (
        items-set_outside buf x j (next_index cap h) n (omega arith) hj
          (ground (arith, next_cases cap h)))

  -- A write just past the end, at the index that the tail has reached, adds an item.
  pub items-set :
      (buf : List A) (x : A) (t h n : ℕ)
      → h < cap
      → t < cap
      → cap ≤ length buf
      → n ≡ distance cap h t
      → items (set buf t x) h (suc n) ≡ items buf h n ++ (x ∷ [])
  items-set buf x t h zero hh ht hl e =
      let same : t ≡ h = ground arith in rw (same, get_or-set_self buf h x d (omega arith))
  items-set buf x t h (suc n) hh ht hl e = ap₂ ◌∷◌ (get_or-set_ne buf t h x d (ground arith)) (
      items-set buf x t (next_index cap h) n (omega arith) ht hl (ground (arith, next_cases cap h)))
