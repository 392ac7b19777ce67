-- ===== src/Pipe/Slots.antt =====
-- Which pipe `pipe_alloc` gives out.
use sistem_operasi.Base.{
  ℕ, zero, suc, ◌+◌, ◌≡◌, refl, ap, Bool-cases, true, false, inl, inr, ◌⊎◌, List, [], ◌∷◌, arith,
  pos, minus_one,
}
use sistem_operasi.Pipe.{Pipe, State, reset, alloc_from, alloc}

-- Each slot of the table is in use.
abbrev pub AllUsed : List Pipe → Type 0
AllUsed [] = Unit {0}
AllUsed (p ∷ ps) = (p.used ≡ true) × AllUsed ps

-- Slot `k` of the new table is the first that was free, reset; the others are as before.
abbrev pub TakesFirst : ℕ → List Pipe → List Pipe → Type 0
TakesFirst k [] qs = ⊥
TakesFirst zero (p ∷ ps) qs = (p.used ≡ false) × (qs ≡ reset true p ∷ ps)
TakesFirst (suc k) (p ∷ ps) qs =
    (p.used ≡ true) × ((rest : List Pipe) × (qs ≡ p ∷ rest) × TakesFirst k ps rest)

pub alloc_from_lem :
    (i : ℕ) (ps : List Pipe)
    → (AllUsed ps × (alloc_from i ps ≡ (ps, minus_one)))
      ⊎ ((k : ℕ) × (qs : List Pipe) × (alloc_from i ps ≡ (qs, pos (i + k))) × TakesFirst k ps qs)
unfolding alloc_from
alloc_from_lem i [] = inl (tt, refl)
alloc_from_lem i (p ∷ ps) = elim (Bool-cases p.used) [
  | inr free ↦ inr (
    0,
    reset true p ∷ ps,
    rw free (ap (λ n. (reset true p ∷ ps, pos n)) (omega arith)),
    (free, refl),
  )
  | inl used ↦ elim (alloc_from_lem (i + 1) ps) [
    | inl (all, run) ↦ inl ((used, all), simp (used, run))
    | inr (k, qs, run, first) ↦ inr (
      suc k,
      p ∷ qs,
      simp (used, run) (ap (λ n. (p ∷ qs, pos n)) (omega arith)),
      (used, (qs, refl, first)),
    )
  ]
]

-- `pipe_alloc` gives out the first free pipe, empty and open, and leaves the others as they were;
-- it fails, and changes nothing, only when every pipe is in use.
pub alloc_lem :
    (s : State)
    → (AllUsed s.pipes × (alloc s ≡ (s, minus_one)))
      ⊎ ((k : ℕ) × (qs : List Pipe) × (alloc s ≡ (record s { pipes = qs }, pos k))
          × TakesFirst k s.pipes qs)
unfolding alloc
alloc_lem s = elim (alloc_from_lem 0 s.pipes) [
  | inl (all, run) ↦ inl (all, rw run)
  | inr (k, qs, run, first) ↦
      inr (k, qs, rw run (ap (λ n. (record s { pipes = qs }, pos n)) (omega arith)), first)
]
