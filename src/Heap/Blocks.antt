-- ===== src/Heap/Blocks.antt =====
-- What the allocator keeps true of its blocks.
use sistem_operasi.Base.{
  ℕ, ◌+◌, ◌%◌, ◌≡◌, refl, ◌&&◌, Bool, Bool-cases, true, false, inl, inr, List, [], ◌∷◌, arith,
  if◌then◌else◌,
}
use sistem_operasi.Heap.{Block, heap_size, header_size, init, coalesce_from}

-- The bytes that blocks take up with their headers.
abbrev pub extent : List Block → ℕ
extent [] = 0
extent (b ∷ bs) = header_size + b.size + extent bs

-- The bytes of data in blocks that are in use.
abbrev pub in_use : List Block → ℕ
in_use [] = 0
in_use (b ∷ bs) = (if b.free then 0 else b.size) + in_use bs

-- Every size is a multiple of four.
abbrev pub Aligned : List Block → Type 0
Aligned [] = Unit {0}
Aligned (b ∷ bs) = (b.size % 4 ≡ 0) × Aligned bs

-- No two free blocks are neighbours; the flag says whether the block before is free.
abbrev pub Separate : Bool → List Block → Type 0
Separate before [] = Unit {0}
Separate true (b ∷ bs) = (b.free ≡ false) × Separate b.free bs
Separate false (b ∷ bs) = Separate b.free bs

-- The blocks fill the heap, are aligned, and no free neighbours are left unmerged.
pub record IsHeap (bs : List Block) : Type 0 where
  pub whole : extent bs ≡ heap_size
  pub aligned : Aligned bs
  pub separate : Separate false bs

pub init-IsHeap : IsHeap init
unfolding init
init-IsHeap = record { whole = refl; aligned = (refl, tt); separate = tt }

pub extent-coalesce_from :
    (b : Block) (bs : List Block) → extent (coalesce_from b bs) ≡ extent (b ∷ bs)
unfolding coalesce_from
extent-coalesce_from b [] = refl
extent-coalesce_from b (c ∷ bs) =
    let merged = extent-coalesce_from (record b { size = b.size + (header_size + c.size) }) bs in
    let onward = extent-coalesce_from c bs in ground arith

pub in_use-coalesce_from :
    (b : Block) (bs : List Block) → in_use (coalesce_from b bs) ≡ in_use (b ∷ bs)
unfolding coalesce_from
in_use-coalesce_from b [] = refl
in_use-coalesce_from b (c ∷ bs) =
    let merged = in_use-coalesce_from (record b { size = b.size + (header_size + c.size) }) bs in
    let onward = in_use-coalesce_from c bs in ground arith

pub Aligned-coalesce_from :
    (b : Block) (bs : List Block) → Aligned (b ∷ bs) → Aligned (coalesce_from b bs)
unfolding coalesce_from
Aligned-coalesce_from b [] h = h
Aligned-coalesce_from b (c ∷ bs) h = elim (Bool-cases (b.free && c.free)) [
  | inl both ↦ rw both (
      Aligned-coalesce_from (record b { size = b.size + (header_size + c.size) }) bs
        (omega arith, h.1.1))
  | inr other ↦ rw other (h.0, Aligned-coalesce_from c bs h.1)
]

-- Merging keeps the first block's flag.
coalesce_from-head :
    (b : Block) (bs : List Block)
    → (d : Block) × (ds : List Block) × (coalesce_from b bs ≡ d ∷ ds) × (d.free ≡ b.free)
unfolding coalesce_from
coalesce_from-head b [] = (b, [], refl, refl)
coalesce_from-head b (c ∷ bs) =
    let (d, ds, e, f) =
      coalesce_from-head (record b { size = b.size + (header_size + c.size) }) bs in
    elim (Bool-cases (b.free && c.free)) [
      | inl both ↦ (d, ds, simp (both, e), f)
      | inr other ↦ (b, coalesce_from c bs, simp other, refl)
    ]

-- After the pass no two free blocks are neighbours, whatever they were before.
pub Separate-coalesce_from : (b : Block) (bs : List Block) → Separate false (coalesce_from b bs)
unfolding coalesce_from
Separate-coalesce_from b [] = ground arith
Separate-coalesce_from b (c ∷ bs) =
    let merged = Separate-coalesce_from (record b { size = b.size + (header_size + c.size) }) bs in
    let onward = Separate-coalesce_from c bs in
    let (d, ds, e, f) = coalesce_from-head c bs in
    let onward' : Separate false (d ∷ ds) = rw e at onward in
    elim (Bool-cases (b.free && c.free)) [
      | inl both ↦ simp both merged
      | inr other ↦ simp (other, e) (ground (arith, onward'))
    ]

-- Where no two free blocks are neighbours the pass changes nothing.
pub coalesce_from-Separate :
    (b : Block) (bs : List Block) → Separate b.free bs → coalesce_from b bs ≡ b ∷ bs
unfolding coalesce_from
coalesce_from-Separate b [] h = refl
coalesce_from-Separate b (c ∷ bs) h =
    let other : (b.free && c.free) ≡ false = ground arith in
    let later : Separate c.free bs = ground arith in simp (other, coalesce_from-Separate c bs later)
