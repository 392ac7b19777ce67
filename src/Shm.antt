-- ===== src/Shm.antt =====
-- The shared memory of src/kernel/shm.c: eight slots, each with a key and a frame. The frame's
-- entry in a task's page tables is the hardware side's.
pub mod Keys
use sistem_operasi.Base.{
  ℕ, zero, suc, ◌+◌, ◌-◌, ◌*◌, Bool, true, false, ◌&&◌, not, Option, none, some, List, [], ◌∷◌,
  get_or, modify, replicate, if◌then◌else◌, ltb, ◌==◌, find_index, str_eq, str_copy, ℤ, pos,
  minus_one, index_below, map,
}
use sistem_operasi.Frames
use sistem_operasi.Frames.{Bitmap}

abbrev pub shm_max : ℕ
shm_max = 8

abbrev pub key_size : ℕ
key_size = 16

abbrev pub va_base : ℕ
va_base = 0x500000

-- `phys` is 0 in an empty slot.
pub record Slot : Type 0 where
  pub key : List ℕ
  pub phys : ℕ
  pub refcount : ℕ

pub record State : Type 0 where
  pub slots : List Slot
  pub frames : Bitmap

abbrev pub empty_slot : Slot
empty_slot = record { key = []; phys = 0; refcount = 0 }

abbrev pub slot_at : State → ℕ → Slot
slot_at s i = get_or s.slots i empty_slot

abbrev pub on_slot : ℕ → (Slot → Slot) → State → State
on_slot i f s = record s { slots = modify s.slots i f }

-- `shm_init`
unfoldable pub init : State → State
init s = record s { slots = replicate shm_max empty_slot }

abbrev pub is_taken : Slot → Bool
is_taken x = not (x.phys == 0)

abbrev pub has_key : List ℕ → Slot → Bool
has_key key x = is_taken x && str_eq x.key key

abbrev pub find_slot : List ℕ → State → Option ℕ
find_slot key s = find_index (has_key key) s.slots

-- `shm_find`
unfoldable pub find : List ℕ → State → ℤ
find key s = elim (find_slot key s) [ none ↦ minus_one | some i ↦ pos i ]

abbrev pub take_slot : List ℕ → ℕ → Slot → Slot
take_slot key frame x = record { key = str_copy key_size key; phys = frame; refcount = 0 }

-- `shm_create`
unfoldable pub create : List ℕ → State → State × ℤ
create key s = elim (find_slot key s) [
  | some i ↦ (s, pos i)
  | none ↦ elim (find_index (λ x. not (is_taken x)) s.slots) [
    | none ↦ (s, minus_one)
    | some i ↦
        let (frames, frame) = Frames.alloc_frame s.frames in
        if frame == 0
        then (record s { frames = frames }, minus_one)
        else (record s { frames = frames; slots = modify s.slots i (take_slot key frame) }, pos i)
  ]
]

-- `shm_phys`
unfoldable pub phys_of : ℤ → State → ℕ
phys_of id s = elim (index_below shm_max id) [ none ↦ 0 | some i ↦ (slot_at s i).phys ]

-- The slot that a number names, when it is taken.
unfoldable pub live : ℤ → State → Option ℕ
live id s = elim (index_below shm_max id) [
  | none ↦ none
  | some i ↦ if is_taken (slot_at s i) then some i else none
]

-- `shm_attach`, with the address at which the frame is mapped, or 0.
unfoldable pub attach : ℤ → State → State × ℕ
attach id s = elim (live id s) [
  | none ↦ (s, 0)
  | some i ↦ (on_slot i (λ x. record x { refcount = x.refcount + 1 }) s, va_base + i * 4096)
]

-- `shm_detach`: true is 1.
unfoldable pub detach : ℤ → State → State × Bool
detach id s = elim (live id s) [
  | none ↦ (s, false)
  | some i ↦ (on_slot i (λ x. record x { refcount = x.refcount - 1 }) s, true)
]

-- `shm_destroy`
unfoldable pub destroy : ℤ → State → State
destroy id s = elim (live id s) [
  | none ↦ s
  | some i ↦
      let x = slot_at s i in
      if ltb 0 x.refcount then s else record s {
        frames = Frames.free_frame x.phys s.frames;
        slots = modify s.slots i (λ y. empty_slot);
      }
]
