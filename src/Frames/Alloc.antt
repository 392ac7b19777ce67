-- ===== src/Frames/Alloc.antt =====
-- What taking a frame and giving it back do to the set of taken frames.
use sistem_operasi.Base.{
  ℕ, zero, suc, ◌+◌, ◌*◌, ◌/◌, ◌≤◌, ◌<◌, ◌≡◌, refl, sym, true, false, Option, none, some, ltb, leb,
  ◌==◌, ==_iff, ◌⊎◌, inl, inr, Bool-cases, arith,
}
use sistem_operasi.Frames.{Bitmap, bitmap_set, first_free, alloc_frame, free_frame}

-- What the search finds: the first frame that is not taken, or none when all are taken.
abbrev pub Found : ℕ → ℕ → Bitmap → Option ℕ → Type 0
Found n i bits none = (j : ℕ) → (j < i) ⊎ ((i + n ≤ j) ⊎ (bits j ≡ true))
Found n i bits (some f) = (i ≤ f) × ((f < i + n) × (bits f ≡ false))

Found-step :
    (n i : ℕ) (bits : Bitmap) (o : Option ℕ)
    → bits i ≡ true
    → Found n (suc i) bits o
    → Found (suc n) i bits o
Found-step n i bits (some f) b (l, (u, h)) = (omega arith, (omega arith, h))
Found-step n i bits none b all = λ j. elim (all j) [
  | inr (inl h) ↦ inr (inl (omega arith))
  | inr (inr h) ↦ inr (inr h)
  | inl h ↦ elim (Bool-cases (j == i)) [
    | inl same ↦ let e : j ≡ i = (==_iff j i).0 same in inr (inr (rw e b))
    | inr differ ↦ inl (ground arith)
  ]
]

first_free-Found : (n i : ℕ) (bits : Bitmap) → Found n i bits (first_free n i bits)
unfolding first_free
first_free-Found zero i bits = λ j. elim (Bool-cases (ltb j i)) [
  | inl h ↦ inl (ground arith)
  | inr h ↦ inr (inl (ground arith))
]
first_free-Found (suc n) i bits = elim (Bool-cases (bits i)) [
  | inl b ↦
      rw b (Found-step n i bits (first_free n (suc i) bits) b (first_free-Found n (suc i) bits))
  | inr b ↦ rw b (omega arith, (omega arith, b))
]

alloc_frame-Found :
    (bits : Bitmap) (o : Option ℕ)
    → first_free 14336 2048 bits ≡ o
    → Found 14336 2048 bits o
    → ((f : ℕ) × (((2048 ≤ f) × ((f < 16384) × (bits f ≡ false)))
          × (alloc_frame bits ≡ (bitmap_set f bits, f * 4096))))
      ⊎ (((j : ℕ) → (j < 2048) ⊎ ((16384 ≤ j) ⊎ (bits j ≡ true))) × (alloc_frame bits ≡ (bits, 0)))
unfolding alloc_frame
alloc_frame-Found bits (some f) e (l, (u, h)) =
    inl (f, ((l, (omega arith, h)), rw (e, alloc_frame) refl))
alloc_frame-Found bits none e all = inr (λ j. all j, rw (e, alloc_frame) refl)

-- `pmm_alloc_frame` returns the address of a frame above the kernel's own and below 64 MB that was
-- not taken, takes it and no other; it returns 0, and takes nothing, only when each such frame is
-- taken.
pub alloc_frame_lem :
    (bits : Bitmap)
    → ((f : ℕ) × (((2048 ≤ f) × ((f < 16384) × (bits f ≡ false)))
          × (alloc_frame bits ≡ (bitmap_set f bits, f * 4096))))
      ⊎ (((j : ℕ) → (j < 2048) ⊎ ((16384 ≤ j) ⊎ (bits j ≡ true))) × (alloc_frame bits ≡ (bits, 0)))
alloc_frame_lem bits =
    alloc_frame-Found bits (first_free 14336 2048 bits) refl (first_free-Found 14336 2048 bits)

free_frame-taken :
    (bits : Bitmap) (f j : ℕ)
    → 2048 ≤ f
    → f < 16384
    → bits f ≡ false
    → free_frame (f * 4096) (bitmap_set f bits) j ≡ bits j
unfolding free_frame
free_frame-taken bits f j l u h =
    let e : f * 4096 / 4096 ≡ f = omega arith in
    let lo : leb 2048 f ≡ true = ground arith in
    let hi : ltb f 16384 ≡ true = ground arith in
    rw (e, lo, hi)
      (elim (Bool-cases (j == f)) [
        | inl same ↦ let q : j ≡ f = (==_iff j f).0 same in rw (same, q) (sym h)
        | inr differ ↦ rw differ refl
      ])

-- `pmm_free_frame` of what `pmm_alloc_frame` has just returned restores the set of taken frames,
-- also when there was no frame left.
pub free_frame-alloc_frame :
    (bits : Bitmap) (j : ℕ) → free_frame (alloc_frame bits).1 (alloc_frame bits).0 j ≡ bits j
unfolding free_frame
free_frame-alloc_frame bits j = elim (alloc_frame_lem bits) [
  | inl (f, ((l, (u, h)), e)) ↦ rw e (free_frame-taken bits f j l u h)
  | inr (_, e) ↦ rw e refl
]
