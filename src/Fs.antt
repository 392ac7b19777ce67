-- ===== src/Fs.antt =====
-- The file system of src/kernel/fs.c (MFS3): its table of files, whose data lies in buffers of the
-- kernel heap, and the search for a name. `Fs.Disk` has the disk, `Fs.Write` the operations that
-- change a file and `Fs.Names` those on names and permissions.
pub mod Disk
pub mod Write
pub mod Names
pub mod Header
pub mod SavedData
pub mod Reload
pub mod Reading
pub mod Slots
use sistem_operasi.Base.{
  ℕ, zero, suc, ◌+◌, ◌/◌, ◌%◌, Bool, true, false, ◌&&◌, not, Option, none, some, List, [], ◌∷◌,
  replicate, get_or, modify, if◌then◌else◌, ◌==◌, find_index, str_eq,
}
use sistem_operasi.Heap
use sistem_operasi.Heap.{Block}

abbrev pub max_files : ℕ
max_files = 64

abbrev pub max_name : ℕ
max_name = 32

abbrev pub max_data : ℕ
max_data = 65536

abbrev pub max_bin_data : ℕ
max_bin_data = 524288

-- FS_DATA_SECS
abbrev pub data_secs : ℕ
data_secs = max_data / 512

abbrev pub perm_dir : ℕ
perm_dir = 0x8000

abbrev pub perm_read : ℕ
perm_read = 4

abbrev pub perm_write : ℕ
perm_write = 2

abbrev pub perm_exec : ℕ
perm_exec = 1

-- A buffer of the heap: its address and the bytes in it.
pub record Buffer : Type 0 where
  pub addr : ℕ
  pub bytes : List ℕ

-- `none` for `buffer` is a null `data`; `name` is the string in the array.
pub record File : Type 0 where
  pub name : List ℕ
  pub size : ℕ
  pub used : Bool
  pub tmpfs : Bool
  pub dirty : Bool
  pub perms : ℕ
  pub ctime : ℕ
  pub mtime : ℕ
  pub buffer : Option Buffer

-- What each sector gives when it is read: `none` where the drive reports an error.
abbrev pub Sectors : Type 0
Sectors = ℕ → Option (List ℕ)

-- `none` for `disk` is a machine without the second drive.
pub record State : Type 0 where
  pub files : List File
  pub heap : List Block
  pub disk : Option Sectors

-- A slot as the loop of `fs_init` leaves it.
abbrev pub free_file : File
free_file = record {
  name = [];
  size = 0;
  used = false;
  tmpfs = false;
  dirty = false;
  perms = 0;
  ctime = 0;
  mtime = 0;
  buffer = none;
}

-- `files[i]`, and an assignment to fields of it.
abbrev pub file_at : State → ℕ → File
file_at s i = get_or s.files i free_file

abbrev pub on_file : ℕ → (File → File) → State → State
on_file i f s = record s { files = modify s.files i f }

-- `perms & FS_PERM_DIR`, bit 15
abbrev pub is_dir : File → Bool
is_dir f = f.perms / perm_dir % 2 == 1

-- `files[i].used && fs_strcmp(files[i].name, name)`
abbrev pub is_named : List ℕ → File → Bool
is_named name f = f.used && str_eq f.name name

-- The same for a file that is no directory.
abbrev pub is_file : List ℕ → File → Bool
is_file name f = f.used && (not (is_dir f) && str_eq f.name name)

-- The search loops: for an entry, for a file, and for a free slot.
abbrev pub find_named : List ℕ → State → Option ℕ
find_named name s = find_index (is_named name) s.files

abbrev pub find_file : List ℕ → State → Option ℕ
find_file name s = find_index (is_file name) s.files

abbrev pub find_free : State → Option ℕ
find_free s = find_index (λ f. not f.used) s.files

-- `malloc` for the buffer of slot `i`, filled with `bytes`; `none` is the null pointer.
unfoldable pub allocate : ℕ → ℕ → List ℕ → State → Option State
allocate i size bytes s = elim (Heap.malloc size s.heap) [
  | none ↦ none
  | some (addr, heap) ↦ some (record s {
    heap = heap;
    files =
        modify s.files i (λ f. record f { buffer = some (record { addr = addr; bytes = bytes }) });
  })
]

-- The heap after `free`; where no block has that address the heap is taken to be as it was.
abbrev pub heap_free : ℕ → List Block → List Block
heap_free addr heap = elim (Heap.free_ptr addr heap) [ none ↦ heap | some heap' ↦ heap' ]

-- `if (files[i].data) { free(files[i].data); files[i].data = 0; }`
unfoldable pub discard : ℕ → State → State
discard i s = elim (file_at s i).buffer [
  | none ↦ s
  | some b ↦ record s {
    heap = heap_free b.addr s.heap;
    files = modify s.files i (λ f. record f { buffer = none });
  }
]
