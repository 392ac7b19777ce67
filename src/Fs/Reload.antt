-- ===== src/Fs/Reload.antt =====
-- A file that `fs_disk_save` of src/kernel/fs.c has written and `fs_disk_load` reads again.
use sistem_operasi.Base.{ℕ, ◌≡◌, true, false, Option, none, some, List}
use sistem_operasi.Heap
use sistem_operasi.Fs.{File, Buffer, Sectors, is_dir, max_data, data_secs}
use sistem_operasi.Fs.Disk.{hdr_sector, put_sector, header, data_bytes, save_data}

-- The bytes that are loaded are those of the saved buffer, with 0 behind the file's end; where no
-- buffer was saved, the sectors say what they are.
abbrev pub Saved : Option Buffer → ℕ → List ℕ → Type 0
Saved none size bytes = Unit {0}
Saved (some b) size bytes = bytes ≡ data_bytes 65536 0 size b.bytes

-- What is in a slot that held `g`, when `f` has been loaded into it: of an unused file only the flag; a
-- directory without a buffer; and a file with its data, unless the heap has no room for them.
pub data Reloaded (f g : File) (heap : List Heap.Block) : File → Type 0 where
  unused : f.used ≡ false → Reloaded f g heap (record g { used = false })
  directory :
      f.used ≡ true
      → is_dir f ≡ true
      → Reloaded f g heap (record f { dirty = false; buffer = none })
  no_room :
      f.used ≡ true
      → is_dir f ≡ false
      → Heap.malloc max_data heap ≡ none
      → Reloaded f g heap (record f { used = false; dirty = false; buffer = none })
  file :
      (b : Buffer) (rest : List Heap.Block)
      → f.used ≡ true
      → is_dir f ≡ false
      → Heap.malloc max_data heap ≡ some (b.addr, rest)
      → Saved f.buffer f.size b.bytes
      → Reloaded f g heap (record f { dirty = false; buffer = some b })

-- The data sectors after `fs_disk_save`.
abbrev with_data : ℕ → ℕ → Option Buffer → Sectors → Sectors
with_data i size none d = d
with_data i size (some b) d = save_data data_secs 0 i size b.bytes d

abbrev saved_disk : ℕ → File → Sectors → Sectors
saved_disk i f d = with_data i f.size f.buffer (put_sector (hdr_sector i) (header f) d)
