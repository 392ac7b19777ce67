-- ===== src/Tests/Memory.antt =====
-- memory.c on a small heap.
use sistem_operasi.Base.{
  ℕ, ◌+◌, ◌≡◌, ◌≤◌, ◌<◌, ◌%◌, refl, true, false, some, none, List, [], ◌∷◌, arith,
}
use sistem_operasi.Heap.{
  Block, heap_start, heap_size, init, malloc, free_ptr, first_fit, take_block, round_up,
}
use sistem_operasi.Heap.Blocks.{IsHeap, in_use, init-IsHeap}
use sistem_operasi.Heap.Malloc.{Allocated, malloc-IsHeap}
use sistem_operasi.Heap.Free.{free-IsHeap, free-malloc}

-- The heap after `malloc(10)` on the fresh one.
abbrev after : List Block
after = record { size = 12; free = false } ∷ (record { size = 0x5fffd4; free = true } ∷ [])

first_malloc : malloc 10 init ≡ some (0x100010, after)
unfolding malloc first_fit take_block round_up init
first_malloc = refl

malloc-IsHeap_example :
    IsHeap after
    × ((given : ℕ) × Allocated 0x100010 given heap_start after
        × (10 ≤ given)
        × (given < 10 + 24)
        × (0x100010 % 4 ≡ 0)
        × (heap_start + 16 ≤ 0x100010)
        × (0x100010 + given ≤ heap_start + heap_size)
        × (in_use after ≡ in_use init + given))
malloc-IsHeap_example = malloc-IsHeap 10 init after 0x100010 init-IsHeap (omega arith) first_malloc

free-malloc_example : free_ptr 0x100010 after ≡ some init
free-malloc_example = free-malloc 10 init after 0x100010 init-IsHeap first_malloc

after-IsHeap : IsHeap after
after-IsHeap = record { whole = refl; aligned = (refl, (refl, tt)); separate = tt }

free-IsHeap_example :
    (bs' : List Block) × (free_ptr 0x100010 after ≡ some bs')
    × IsHeap bs'
    × (in_use bs' + 12 ≡ in_use after)
free-IsHeap_example = free-IsHeap 0x100010 12 after after-IsHeap (Allocated.first refl refl refl)

too_much : malloc 0x600000 after ≡ none
unfolding malloc first_fit round_up
too_much = refl
