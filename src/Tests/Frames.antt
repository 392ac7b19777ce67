-- ===== src/Tests/Frames.antt =====
-- The frame allocator at a concrete bitmap.
use sistem_operasi.Base.{ℕ, ◌*◌, ◌≡◌, refl, ◌≤◌, ◌<◌, true, false, ◌⊎◌, ltb}
use sistem_operasi.Frames.{Bitmap, bitmap_set, alloc_frame, first_free}
use sistem_operasi.Frames.Alloc.{alloc_frame_lem}

-- The kernel's frames and the first two of the others are taken.
abbrev taken : Bitmap
taken j = ltb j 2050

third : (alloc_frame taken).1 ≡ 8396800
unfolding alloc_frame first_free
third = refl

alloc_frame_lem_example :
    ((f : ℕ) × (((2048 ≤ f) × ((f < 16384) × (taken f ≡ false)))
        × (alloc_frame taken ≡ (bitmap_set f taken, f * 4096))))
    ⊎ (((j : ℕ) → (j < 2048) ⊎ ((16384 ≤ j) ⊎ (taken j ≡ true))) × (alloc_frame taken ≡ (taken, 0)))
alloc_frame_lem_example = alloc_frame_lem taken
