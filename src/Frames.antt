-- ===== src/Frames.antt =====
-- The allocator of physical frames in src/kernel/vmm.c. `frame_bitmap` is the set of its bits: the
-- bit of a frame is set when the frame is taken.
pub mod Alloc
use sistem_operasi.Base.{
  ℕ, zero, suc, ◌+◌, ◌-◌, ◌*◌, ◌/◌, Bool, true, false, ◌&&◌, Option, none, some, if◌then◌else◌, ltb,
  leb, ◌==◌,
}

abbrev pub total_frames : ℕ
total_frames = 16384

abbrev pub reserved_frames : ℕ
reserved_frames = 2048

abbrev pub page_size : ℕ
page_size = 4096

abbrev pub Bitmap : Type 0
Bitmap = ℕ → Bool

abbrev pub bitmap_set : ℕ → Bitmap → Bitmap
bitmap_set frame bits j = if j == frame then true else bits j

abbrev pub bitmap_clear : ℕ → Bitmap → Bitmap
bitmap_clear frame bits j = if j == frame then false else bits j

-- The bitmap after `pmm_init`.
unfoldable pub init : Bitmap
init j = ltb j reserved_frames

-- The first of the `n` frames from `i` on that is not taken.
unfoldable pub first_free : ℕ → ℕ → Bitmap → Option ℕ
first_free zero i bits = none
first_free (suc n) i bits = let rest = first_free n (suc i) bits in if bits i then rest else some i

-- `pmm_alloc_frame`: the address, or 0.
unfoldable pub alloc_frame : Bitmap → Bitmap × ℕ
alloc_frame bits = elim (first_free (total_frames - reserved_frames) reserved_frames bits) [
  | none ↦ (bits, 0)
  | some i ↦ (bitmap_set i bits, i * page_size)
]

-- `pmm_free_frame`
unfoldable pub free_frame : ℕ → Bitmap → Bitmap
free_frame addr bits =
    let frame = addr / page_size in
    if leb reserved_frames frame && ltb frame total_frames then bitmap_clear frame bits else bits

-- The loop of `pmm_free_count` over the `n` frames from `i` on.
unfoldable pub count_from : ℕ → ℕ → Bitmap → ℕ
count_from zero i bits = 0
count_from (suc n) i bits =
    let rest = count_from n (suc i) bits in if bits i then rest else rest + 1

unfoldable pub free_count : Bitmap → ℕ
free_count bits = count_from (total_frames - reserved_frames) reserved_frames bits
