-- ===== src/Heap/Malloc.antt =====
-- What `malloc` hands out, and what it keeps true of the heap.
use sistem_operasi.Base.{
  ℕ, ◌+◌, ◌-◌, ◌%◌, ◌^◌, ◌<◌, ◌≤◌, ◌≡◌, ◌≢◌, refl, ◌∙◌, ◌&&◌, Bool, Bool-cases, true, false, inl,
  inr, ◌⊎◌, List, [], ◌∷◌, arith, ◌==◌, leb, some, none, Option-cases,
}
use sistem_operasi.Heap.{
  Block, heap_start, heap_size, header_size, take_block, first_fit, round_up, malloc,
}
use sistem_operasi.Heap.Blocks.{extent, in_use, Aligned, Separate, IsHeap}

-- Rounding reaches the next multiple of four, where the sum does not pass 32 bits.
pub round_up_lem :
    (size : ℕ)
    → size + 3 < 2 ^ 32
    → (round_up size % 4 ≡ 0) × (size ≤ round_up size) × (round_up size < size + 4)
unfolding round_up
round_up_lem size h = omega arith

-- The block behind the address `p` of `bs`, which starts at `addr`: its data has `n` bytes, and it
-- is in use.
pub data Allocated (p n : ℕ) : ℕ → List Block → Type 0 where
  first :
      {addr : ℕ} {b : Block} {bs : List Block}
      → addr + 16 ≡ p
      → b.size ≡ n
      → b.free ≡ false
      → Allocated p n addr (b ∷ bs)
  later :
      {addr : ℕ} {b : Block} {bs : List Block}
      → Allocated p n (addr + 16 + b.size) bs
      → Allocated p n addr (b ∷ bs)

-- What a successful search leaves: the same extent, alignment and separation, and at `p` a block of
-- at least the wanted size and less than twenty bytes more, which was free before.
pub record Fits (size addr p : ℕ) (before : Bool) (bs bs' : List Block) : Type 0 where
  pub given : ℕ
  pub extent_same : extent bs' ≡ extent bs
  pub enough : size ≤ given
  pub not_much_more : given < size + 20
  pub counted : in_use bs' ≡ in_use bs + given
  pub at : Allocated p given addr bs'
  pub separate : Separate before bs'
  pub above : addr + 16 ≤ p
  pub below : p + given ≤ addr + extent bs

weaken : (bs : List Block) → Separate true bs → Separate false bs
weaken [] h = tt
weaken (b ∷ bs) h = h.1

pub behind_free :
    (before : Bool) (b : Block) (bs : List Block)
    → b.free ≡ true
    → Separate before (b ∷ bs)
    → Separate true bs
behind_free true b bs free h = cc
behind_free false b bs free h = rw free at h

used_then :
    (before : Bool) (n : ℕ) (bs : List Block)
    → Separate false bs
    → Separate before (record { size = n; free = false } ∷ bs)
used_then true n bs h = (refl, h)
used_then false n bs h = h

take_block-Fits :
    (size addr : ℕ) (before : Bool) (b : Block) (bs : List Block)
    → b.free ≡ true
    → size ≤ b.size
    → Separate before (b ∷ bs)
    → Fits size addr (addr + 16) before (b ∷ bs) (take_block size b bs)
unfolding take_block
take_block-Fits size addr before b bs free enough sep =
    let tight : Separate true bs = behind_free before b bs free sep in
    elim (Bool-cases (leb (size + 16 + 4) b.size)) [
      | inl split ↦ rw split (record {
        given = size;
        extent_same = ground arith;
        enough = omega arith;
        not_much_more = omega arith;
        counted = rw free (omega arith);
        at = first refl refl refl;
        separate =
            used_then before size (record { size = b.size - size - header_size; free = true } ∷ bs)
              tight;
        above = omega arith;
        below = ground arith;
      })
      | inr whole ↦ rw whole (record {
        given = b.size;
        extent_same = refl;
        enough = enough;
        not_much_more = ground arith;
        counted = rw free (omega arith);
        at = first refl refl refl;
        separate = used_then before b.size bs (weaken bs tight);
        above = omega arith;
        below = omega arith;
      })
    ]

-- The block `b` before a list that fits, where it is not chosen itself.
skip-Fits :
    (size addr p : ℕ) (before : Bool) (b : Block) (bs bs' : List Block)
    → Separate before (b ∷ bs)
    → Fits size (addr + 16 + b.size) p b.free bs bs'
    → Fits size addr p before (b ∷ bs) (b ∷ bs')
skip-Fits size addr p true b bs bs' sep f = record {
  given = f.given;
  extent_same = omega (arith, f.extent_same);
  enough = f.enough;
  not_much_more = f.not_much_more;
  counted = omega (arith, f.counted);
  at = later f.at;
  separate = (sep.0, f.separate);
  above = omega (arith, f.above);
  below = omega (arith, f.below);
}
skip-Fits size addr p false b bs bs' sep f = record {
  given = f.given;
  extent_same = omega (arith, f.extent_same);
  enough = f.enough;
  not_much_more = f.not_much_more;
  counted = omega (arith, f.counted);
  at = later f.at;
  separate = f.separate;
  above = omega (arith, f.above);
  below = omega (arith, f.below);
}

pub tail-Separate :
    (before : Bool) (b : Block) (bs : List Block) → Separate before (b ∷ bs) → Separate b.free bs
tail-Separate true b bs h = h.1
tail-Separate false b bs h = h

pub first_fit-Fits :
    (size addr : ℕ) (before : Bool) (bs bs' : List Block) (p : ℕ)
    → Separate before bs
    → first_fit size addr bs ≡ some (p, bs')
    → Fits size addr p before bs bs'
unfolding first_fit
first_fit-Fits size addr before [] bs' p sep e = cc
first_fit-Fits size addr before (b ∷ bs) bs' p sep e =
    elim (Bool-cases (b.free && leb size b.size)) [
      | inl chosen ↦
          let e' : some (addr + 16, take_block size b bs) ≡ some (p, bs') =
            rw (chosen, first_fit) at e in
          let same_p : addr + 16 ≡ p = cc e' in
          let same_bs : take_block size b bs ≡ bs' = cc e' in
          rw (← same_p, ← same_bs)
            (take_block-Fits size addr before b bs (ground arith) (ground arith) sep)
      | inr other ↦ elim (Option-cases (first_fit size (addr + 16 + b.size) bs)) [
        | inl stuck ↦ let e' = rw (other, first_fit, stuck) at e in cc e'
        | inr ((p', r), found) ↦
            let e' : some (p', b ∷ r) ≡ some (p, bs') = rw (other, first_fit, found) at e in
            let same_p : p' ≡ p = cc e' in
            let same_bs : b ∷ r ≡ bs' = cc e' in
            rw (← same_p, ← same_bs)
              (skip-Fits size addr p' before b bs r sep (
                first_fit-Fits size (addr + 16 + b.size) b.free bs r p'
                  (tail-Separate before b bs sep) found))
      ]
    ]

Aligned-first_fit :
    (size addr : ℕ) (bs bs' : List Block) (p : ℕ)
    → size % 4 ≡ 0
    → Aligned bs
    → first_fit size addr bs ≡ some (p, bs')
    → Aligned bs' × (p % 4 ≡ addr % 4)
unfolding first_fit take_block
Aligned-first_fit size addr [] bs' p a h e = cc
Aligned-first_fit size addr (b ∷ bs) bs' p a h e = elim (Bool-cases (b.free && leb size b.size)) [
  | inl chosen ↦
      let e' : some (addr + 16, take_block size b bs) ≡ some (p, bs') =
        rw (chosen, first_fit) at e in
      let same_p : addr + 16 ≡ p = cc e' in
      let same_bs : take_block size b bs ≡ bs' = cc e' in
      let multiple : b.size % 4 ≡ 0 = h.0 in
      let enough : size ≤ b.size = ground arith in
      rw (← same_p, ← same_bs)
        (elim (Bool-cases (leb (size + 16 + 4) b.size)) [
          | inl split ↦ rw split ((a, (ground arith, h.1)), omega arith)
          | inr whole ↦ rw whole ((multiple, h.1), omega arith)
        ])
  | inr other ↦ elim (Option-cases (first_fit size (addr + 16 + b.size) bs)) [
    | inl stuck ↦ let e' = rw (other, first_fit, stuck) at e in cc e'
    | inr ((p', r), found) ↦
        let e' : some (p', b ∷ r) ≡ some (p, bs') = rw (other, first_fit, found) at e in
        let same_p : p' ≡ p = cc e' in
        let same_bs : b ∷ r ≡ bs' = cc e' in
        let (ok, at) = Aligned-first_fit size (addr + 16 + b.size) bs r p' a h.1 found in
        let multiple : b.size % 4 ≡ 0 = h.0 in
        rw (← same_p, ← same_bs) ((multiple, ok), omega (arith, at))
  ]
]

-- A successful `malloc` keeps the heap's invariant, and its pointer is a multiple of four, lies in
-- the heap with all its bytes, and is the data of a block in use of the wanted size at least, and
-- less than 24 bytes more; the bytes in use grow by that block's size.
pub malloc-IsHeap :
    (size : ℕ) (bs bs' : List Block) (p : ℕ)
    → IsHeap bs
    → size + 3 < 2 ^ 32
    → malloc size bs ≡ some (p, bs')
    → IsHeap bs'
      × ((given : ℕ) × Allocated p given heap_start bs'
          × (size ≤ given)
          × (given < size + 24)
          × (p % 4 ≡ 0)
          × (heap_start + 16 ≤ p)
          × (p + given ≤ heap_start + heap_size)
          × (in_use bs' ≡ in_use bs + given))
unfolding malloc
malloc-IsHeap size bs bs' p h small e = elim (Bool-cases (size == 0)) [
  | inl zero_size ↦ let e' = rw (zero_size, malloc) at e in cc e'
  | inr some_size ↦
      let e' : first_fit (round_up size) heap_start bs ≡ some (p, bs') =
        rw (some_size, malloc) at e in
      let (four, up, close) = round_up_lem size small in
      let f = first_fit-Fits (round_up size) heap_start false bs bs' p h.separate e' in
      let (ok, at) = Aligned-first_fit (round_up size) heap_start bs bs' p four h.aligned e' in
      (
        record { whole = f.extent_same ∙ h.whole; aligned = ok; separate = f.separate },
        (
          f.given,
          f.at,
          omega (arith, f.enough),
          omega (arith, f.not_much_more),
          omega arith,
          f.above,
          omega (arith, f.below, h.whole),
          f.counted,
        ),
      )
]

-- Every free block of `bs` is smaller than `size`.
abbrev pub AllSmall : ℕ → List Block → Type 0
AllSmall size [] = Unit {0}
AllSmall size (b ∷ bs) = ((b.free ≡ false) ⊎ (b.size < size)) × AllSmall size bs

first_fit-none :
    (size addr : ℕ) (bs : List Block) → first_fit size addr bs ≡ none → AllSmall size bs
unfolding first_fit
first_fit-none size addr [] e = tt
first_fit-none size addr (b ∷ bs) e = elim (Bool-cases (b.free && leb size b.size)) [
  | inl chosen ↦ let e' = rw (chosen, first_fit) at e in cc e'
  | inr other ↦ elim (Option-cases (first_fit size (addr + 16 + b.size) bs)) [
    | inl stuck ↦ (ground arith, first_fit-none size (addr + 16 + b.size) bs stuck)
    | inr ((p', r), found) ↦ let e' = rw (other, first_fit, found) at e in cc e'
  ]
]

-- `malloc` of a size that is not 0 fails only when no free block is large enough for the rounded
-- size.
pub malloc-none :
    (size : ℕ) (bs : List Block) → size ≢ 0 → malloc size bs ≡ none → AllSmall (round_up size) bs
unfolding malloc
malloc-none size bs ne e =
    let some_size : (size == 0) ≡ false = ground arith in
    first_fit-none (round_up size) heap_start bs (rw (some_size, malloc) at e)
