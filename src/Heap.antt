-- ===== src/Heap.antt =====
-- src/kernel/memory.c: the kernel heap. The blocks lie one behind the other from MM_HEAP_START, so
-- that the linked list of headers is a list of sizes and flags, and a block's address follows from
-- the blocks before it: `next` is never set to anything but the end of the block. Both functions
-- run with interrupts off.
pub mod Blocks
pub mod Malloc
pub mod Free
use sistem_operasi.Base.{
  ℕ, ◌+◌, ◌-◌, ◌*◌, ◌/◌, ◌%◌, ◌^◌, Bool, true, false, ◌&&◌, Option, none, some, List, [], ◌∷◌,
  if◌then◌else◌, leb, ◌==◌,
}

-- MM_HEAP_START, MM_HEAP_SIZE, and `sizeof(BlockHeader)` with 64-bit pointers
abbrev pub heap_start : ℕ
heap_start = 0x100000

abbrev pub heap_size : ℕ
heap_size = 0x600000

abbrev pub header_size : ℕ
header_size = 16

pub record Block : Type 0 where
  pub size : ℕ
  pub free : Bool

unfoldable pub init : List Block
init = record { size = heap_size - header_size; free = true } ∷ []

-- `(size + 3u) & ~3u` on 32 bits
unfoldable pub round_up : ℕ → ℕ
round_up size = (size + 3) % 2 ^ 32 / 4 * 4

-- A chosen block, cut in two where what is left can hold a header and four bytes.
unfoldable pub take_block : ℕ → Block → List Block → List Block
take_block size b bs =
    if leb (size + header_size + 4) b.size
    then record { size = size; free = false }
      ∷ (record { size = b.size - size - header_size; free = true } ∷ bs)
    else record { size = b.size; free = false } ∷ bs

-- The first-fit loop, with the address of the first header of the list.
unfoldable pub first_fit : ℕ → ℕ → List Block → Option (ℕ × List Block)
first_fit size addr [] = none
first_fit size addr (b ∷ bs) =
    let later = first_fit size (addr + header_size + b.size) bs in
    if b.free && leb size b.size
    then some (addr + header_size, take_block size b bs)
    else elim later [ none ↦ none | some (p, bs') ↦ some (p, b ∷ bs') ]

-- `none` is the null pointer; the heap is then as it was.
unfoldable pub malloc : ℕ → List Block → Option (ℕ × List Block)
malloc size bs = if size == 0 then none else first_fit (round_up size) heap_start bs

-- `block->free = 1` for the header at `ptr - HEADER_SIZE`; `none` where no block has its data
-- there, which the code does not check.
unfoldable pub release : ℕ → ℕ → List Block → Option (List Block)
release ptr addr [] = none
release ptr addr (b ∷ bs) =
    let later = release ptr (addr + header_size + b.size) bs in
    if addr + header_size == ptr
    then some (record b { free = true } ∷ bs)
    else elim later [ none ↦ none | some bs' ↦ some (b ∷ bs') ]

-- The coalescing loop from the block `b` on: a free block takes in a free successor and is looked
-- at again.
unfoldable pub coalesce_from : Block → List Block → List Block
coalesce_from b [] = b ∷ []
coalesce_from b (c ∷ bs) =
    let merged = coalesce_from (record b { size = b.size + (header_size + c.size) }) bs in
    let onward = coalesce_from c bs in if b.free && c.free then merged else b ∷ onward

unfoldable pub coalesce : List Block → List Block
coalesce [] = []
coalesce (b ∷ bs) = coalesce_from b bs

-- `free(0)` does nothing.
unfoldable pub free_ptr : ℕ → List Block → Option (List Block)
free_ptr ptr bs =
    if ptr == 0
    then some bs
    else elim (release ptr heap_start bs) [ none ↦ none | some bs' ↦ some (coalesce bs') ]
