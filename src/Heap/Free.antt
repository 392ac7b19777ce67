-- ===== src/Heap/Free.antt =====
-- What `free` does to the heap, and that it undoes `malloc`.
use sistem_operasi.Base.{
  ℕ, ◌+◌, ◌-◌, ◌≤◌, ◌≡◌, refl, ap, sym, ◌∙◌, ◌&&◌, Bool, Bool-cases, true, false, inl, inr, List,
  [], ◌∷◌, arith, ◌==◌, ==_refl, leb, some, Option-cases,
}
use sistem_operasi.Heap.{
  Block, heap_start, heap_size, header_size, take_block, first_fit, round_up, malloc, release,
  coalesce_from, coalesce, free_ptr,
}
use sistem_operasi.Heap.Blocks.{
  extent, in_use, Aligned, Separate, IsHeap, extent-coalesce_from, in_use-coalesce_from,
  Aligned-coalesce_from, Separate-coalesce_from, coalesce_from-Separate,
}
use sistem_operasi.Heap.Malloc.{Allocated, first, later, first_fit-Fits, behind_free, tail-Separate}

-- Releasing changes one flag: the blocks keep their sizes.
release-same :
    (p addr : ℕ) (bs bs' : List Block)
    → release p addr bs ≡ some bs'
    → (extent bs' ≡ extent bs) × (Aligned bs → Aligned bs')
unfolding release
release-same p addr [] bs' e = cc
release-same p addr (b ∷ bs) bs' e = elim (Bool-cases (addr + 16 == p)) [
  | inl hit ↦
      let e' : some (record b { free = true } ∷ bs) ≡ some bs' = rw (hit, release) at e in
      let same : record b { free = true } ∷ bs ≡ bs' = cc e' in rw (← same) (refl, λ h. h)
  | inr miss ↦ elim (Option-cases (release p (addr + 16 + b.size) bs)) [
    | inl stuck ↦ let e' = rw (miss, release, stuck) at e in cc e'
    | inr (r, found) ↦
        let e' : some (b ∷ r) ≡ some bs' = rw (miss, release, found) at e in
        let same : b ∷ r ≡ bs' = cc e' in
        let (x, a) = release-same p (addr + 16 + b.size) bs r found in
        rw (← same) (omega (arith, x), λ h. (h.0, a h.1))
  ]
]

Allocated-above : {p n addr : ℕ} {bs : List Block} → Allocated p n addr bs → addr + 16 ≤ p
Allocated-above (first e s f) = omega arith
Allocated-above (later a) = omega (arith, Allocated-above a)

-- A block in use is found by its address, and its bytes are no longer in use.
release-Allocated :
    {p n addr : ℕ} {bs : List Block}
    → Allocated p n addr bs
    → (bs' : List Block) × (release p addr bs ≡ some bs') × (in_use bs' + n ≡ in_use bs)
unfolding release
release-Allocated {p} {addr} (first {b} {bs} e s f) =
    let hit : (addr + 16 == p) ≡ true = ground arith in
    (record b { free = true } ∷ bs, simp hit, rw f (omega arith))
release-Allocated {p} {n} {addr} (later {b} {bs} a) =
    let miss : (addr + 16 == p) ≡ false = ground (arith, Allocated-above a) in
    let (r, run, less) = release-Allocated a in (b ∷ r, simp (miss, run), omega (arith, less))

coalesce-IsHeap :
    (bs : List Block)
    → extent bs ≡ heap_size
    → Aligned bs
    → IsHeap (coalesce bs) × (in_use (coalesce bs) ≡ in_use bs)
unfolding coalesce
coalesce-IsHeap [] w a = absurd (omega arith)
coalesce-IsHeap (b ∷ bs) w a = (
  record {
    whole = extent-coalesce_from b bs ∙ w;
    aligned = Aligned-coalesce_from b bs a;
    separate = Separate-coalesce_from b bs;
  },
  in_use-coalesce_from b bs,
)

-- `free` of the data of a block in use succeeds, keeps the heap's invariant, leaves no two free
-- neighbours, and gives back exactly that block's bytes.
pub free-IsHeap :
    (p n : ℕ) (bs : List Block)
    → IsHeap bs
    → Allocated p n heap_start bs
    → (bs' : List Block) × (free_ptr p bs ≡ some bs') × IsHeap bs' × (in_use bs' + n ≡ in_use bs)
unfolding free_ptr
free-IsHeap p n bs h a =
    let not_null : (p == 0) ≡ false = ground (arith, Allocated-above a) in
    let (r, run, less) = release-Allocated a in
    let (x, al) = release-same p heap_start bs r run in
    let (ok, same) = coalesce-IsHeap r (x ∙ h.whole) (al h.aligned) in
    (coalesce r, simp (not_null, run), ok, omega (arith, same, less))

block-eq : (b c : Block) → b.size ≡ c.size → b.free ≡ c.free → b ≡ c
block-eq b c s f = λ i. record { size = s i; free = f i }

-- What `undo` gives: the list `x ∷ ys` that a release leaves merges to `bs` again.
abbrev Undone : Bool → ℕ → ℕ → List Block → List Block → Type 0
Undone before addr p bs bs' =
    (x : Block) × (ys : List Block) × (release p addr bs' ≡ some (x ∷ ys))
    × (coalesce_from x ys ≡ bs)
    × ((before && x.free) ≡ false)

not_both :
    (before : Bool) (b : Block) (bs : List Block)
    → Separate before (b ∷ bs)
    → (before && b.free) ≡ false
not_both true b bs h = h.0
not_both false b bs h = refl

undo-take :
    (before : Bool) (size addr : ℕ) (b : Block) (bs : List Block)
    → b.free ≡ true
    → size ≤ b.size
    → Separate before (b ∷ bs)
    → Undone before addr (addr + 16) (b ∷ bs) (take_block size b bs)
unfolding release coalesce_from take_block
undo-take before size addr b bs free enough sep =
    let hit : (addr + 16 == addr + 16) ≡ true = ==_refl (addr + 16) in
    let tight : Separate b.free bs = rw free (behind_free before b bs free sep) in
    let apart : (before && true) ≡ false = rw free at (not_both before b bs sep) in
    elim (Bool-cases (leb (size + 16 + 4) b.size)) [
      | inl split ↦
          let rest : Block = record { size = b.size - size - header_size; free = true } in
          let one : record { size = size + (header_size + rest.size); free = true } ≡ b =
            block-eq _ b (ground arith) (sym free) in
          rw split (
            record { size = size; free = true },
            rest ∷ bs,
            rw hit,
            rw one (coalesce_from-Separate b bs tight),
            apart,
          )
      | inr whole ↦
          let one : record { size = b.size; free = true } ≡ b = block-eq _ b refl (sym free) in
          rw whole (
            record { size = b.size; free = true },
            bs,
            rw hit,
            ap (λ c. coalesce_from c bs) one ∙ coalesce_from-Separate b bs tight,
            apart,
          )
    ]

-- The block `b` before a list that is undone.
undo-skip :
    (before : Bool) (addr p : ℕ) (b : Block) (bs r : List Block)
    → Separate before (b ∷ bs)
    → addr + 16 + b.size + 16 ≤ p
    → Undone b.free (addr + 16 + b.size) p bs r
    → Undone before addr p (b ∷ bs) (b ∷ r)
unfolding release coalesce_from
undo-skip before addr p b bs r sep far (x, ys, run, back, apart) =
    let miss : (addr + 16 == p) ≡ false = ground arith in
    (b, x ∷ ys, simp (miss, run), simp (apart, back), not_both before b bs sep)

-- Releasing what a search has just taken, and merging, gives back the list.
undo :
    (before : Bool) (size addr p : ℕ) (bs bs' : List Block)
    → Separate before bs
    → first_fit size addr bs ≡ some (p, bs')
    → Undone before addr p bs bs'
unfolding first_fit
undo before size addr p [] bs' sep e = cc
undo before size addr p (b ∷ bs) bs' sep e = elim (Bool-cases (b.free && leb size b.size)) [
  | inl chosen ↦
      let e' : some (addr + 16, take_block size b bs) ≡ some (p, bs') =
        rw (chosen, first_fit) at e in
      let same_p : addr + 16 ≡ p = cc e' in
      let same_bs : take_block size b bs ≡ bs' = cc e' in
      rw (← same_p, ← same_bs) (undo-take before size addr b bs (ground arith) (ground arith) sep)
  | inr other ↦ elim (Option-cases (first_fit size (addr + 16 + b.size) bs)) [
    | inl stuck ↦ let e' = rw (other, first_fit, stuck) at e in cc e'
    | inr ((p', r), found) ↦
        let e' : some (p', b ∷ r) ≡ some (p, bs') = rw (other, first_fit, found) at e in
        let same_p : p' ≡ p = cc e' in
        let same_bs : b ∷ r ≡ bs' = cc e' in
        let tail_sep = tail-Separate before b bs sep in
        let fits = first_fit-Fits size (addr + 16 + b.size) b.free bs r p' tail_sep found in
        rw (← same_p, ← same_bs)
          (undo-skip before addr p' b bs r sep fits.above
            (undo b.free size (addr + 16 + b.size) p' bs r tail_sep found))
  ]
]

-- `free` undoes `malloc`: the heap is exactly what it was.
pub free-malloc :
    (size : ℕ) (bs bs' : List Block) (p : ℕ)
    → IsHeap bs
    → malloc size bs ≡ some (p, bs')
    → free_ptr p bs' ≡ some bs
unfolding malloc free_ptr coalesce
free-malloc size bs bs' p h e = elim (Bool-cases (size == 0)) [
  | inl zero_size ↦ let e' = rw (zero_size, malloc) at e in cc e'
  | inr some_size ↦
      let e' : first_fit (round_up size) heap_start bs ≡ some (p, bs') =
        rw (some_size, malloc) at e in
      let fits = first_fit-Fits (round_up size) heap_start false bs bs' p h.separate e' in
      let not_null : (p == 0) ≡ false = ground (arith, fits.above) in
      let (x, ys, run, back, apart) =
        undo false (round_up size) heap_start p bs bs' h.separate e' in
      simp (not_null, run, back)
]
