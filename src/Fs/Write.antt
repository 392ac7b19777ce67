-- ===== src/Fs/Write.antt =====
-- The operations of src/kernel/fs.c that read, write and remove files. Each takes the timer's tick.
use sistem_operasi.Base.{
  ℕ, ◌+◌, Bool, true, false, Option, none, some, List, [], ◌∷◌, ◌++◌, replicate, length,
  if◌then◌else◌, ltb, leb, str_copy,
}
use sistem_operasi.Fs.{
  File, Buffer, State, file_at, on_file, find_file, find_named, find_free, allocate, discard,
  max_data, max_bin_data, max_name, perm_read, perm_write, perm_exec,
}
use sistem_operasi.Fs.Disk.{disk_save}

-- `fs_ensure_data`: the buffer of slot `i`, a new one filled with 0 where there is none.
unfoldable pub ensure_data : ℕ → State → Option State
ensure_data i s = elim (file_at s i).buffer [
  | none ↦ allocate i max_data (replicate max_data 0) s
  | some b ↦ some s
]

-- Bytes written to the front of an array; what would lie behind its end is lost.
abbrev pub overwrite : List ℕ → List ℕ → List ℕ
overwrite [] ys = []
overwrite (x ∷ xs) [] = x ∷ xs
overwrite (x ∷ xs) (y ∷ ys) = y ∷ overwrite xs ys

-- `fs_strcpy` of the text into the slot's buffer, with its 0.
abbrev pub store_text : List ℕ → File → File
store_text text f = elim f.buffer [
  | none ↦ f
  | some b ↦ record f {
    buffer = some (record b { bytes = overwrite b.bytes (str_copy max_data text ++ (0 ∷ [])) });
  }
]

abbrev pub rewrite_text : List ℕ → ℕ → File → File
rewrite_text text tick f = record (store_text text f) {
  size = length text + 1;
  mtime = tick;
  dirty = true;
}

abbrev pub new_text : List ℕ → ℕ → File → File
new_text text tick f = record (store_text text f) {
  size = length text + 1;
  used = true;
  tmpfs = false;
  dirty = true;
  perms = perm_read + perm_write;
  ctime = tick;
  mtime = tick;
}

-- The name copied into the slot's array.
abbrev pub set_name : List ℕ → File → File
set_name name f = record f { name = str_copy max_name name }

-- Both branches of `fs_write` end alike: the buffer, the fields, the disk.
unfoldable pub finish : ℕ → (File → File) → State → State × Bool
finish i f s = elim (ensure_data i s) [
  | none ↦ (s, false)
  | some s1 ↦ (disk_save i (on_file i f s1), true)
]

-- `fs_write`: true is 1.
unfoldable pub write : List ℕ → List ℕ → ℕ → State → State × Bool
write name text tick s =
    if leb max_data (length text) then (s, false) else elim (find_file name s) [
      | some i ↦ finish i (rewrite_text text tick) s
      | none ↦ elim (find_free s) [
        | none ↦ (s, false)
        | some i ↦ finish i (new_text text tick) (on_file i (set_name name) s)
      ]
    ]

-- `fs_read`: the buffer that the returned pointer names.
unfoldable pub read : List ℕ → State → Option Buffer
read name s = elim (find_file name s) [ none ↦ none | some i ↦ (file_at s i).buffer ]

-- `fs_read_bin`: the same, with the size; `none` where no such file is, which leaves `*out_size`.
unfoldable pub read_bin : List ℕ → State → Option (ℕ × Option Buffer)
read_bin name s = elim (find_file name s) [
  | none ↦ none
  | some i ↦ some ((file_at s i).size, (file_at s i).buffer)
]

-- `fs_delete`
unfoldable pub delete : List ℕ → State → State × Bool
delete name s = elim (find_named name s) [
  | none ↦ (s, false)
  | some i ↦ (disk_save i (discard i (on_file i (λ f. record f { used = false }) s)), true)
]

-- The first `size` bytes of what the caller hands over.
abbrev pub rewrite_bin : ℕ → Bool → ℕ → File → File
rewrite_bin size is_tmpfs tick f = record f {
  size = size;
  mtime = tick;
  dirty = true;
  tmpfs = is_tmpfs;
}

abbrev pub new_bin : ℕ → Bool → ℕ → File → File
new_bin size is_tmpfs tick f = record f {
  size = size;
  used = true;
  tmpfs = is_tmpfs;
  dirty = true;
  perms = perm_read + perm_write + perm_exec;
  ctime = tick;
  mtime = tick;
}

-- A buffer for the bytes, then the fields and the disk; without memory, a null pointer.
unfoldable pub fill : ℕ → List ℕ → (File → File) → State → State × Bool
fill i bytes f s = elim (allocate i (length bytes) bytes s) [
  | none ↦ (on_file i (λ g. record g { buffer = none }) s, false)
  | some s1 ↦ (disk_save i (on_file i f s1), true)
]

-- `fs_write_bin_internal`, whose `size` is the number of bytes handed over.
unfoldable pub write_any : Bool → List ℕ → List ℕ → ℕ → State → State × Bool
write_any is_tmpfs name bytes tick s =
    if ltb max_bin_data (length bytes) then (s, false) else elim (find_file name s) [
      | some i ↦ fill i bytes (rewrite_bin (length bytes) is_tmpfs tick) (discard i s)
      | none ↦ elim (find_free s) [
        | none ↦ (s, false)
        | some i ↦ fill i bytes (new_bin (length bytes) is_tmpfs tick) (on_file i (set_name name) s)
      ]
    ]

abbrev pub write_bin : List ℕ → List ℕ → ℕ → State → State × Bool
write_bin name bytes tick s = write_any false name bytes tick s

abbrev pub write_tmp : List ℕ → List ℕ → ℕ → State → State × Bool
write_tmp name bytes tick s = write_any true name bytes tick s
