-- ===== src/Fs/Disk.antt =====
-- The disk side of src/kernel/fs.c: each file has one header sector and 128 data sectors.
use sistem_operasi.Base.{
  ℕ, zero, suc, ◌+◌, ◌*◌, ◌/◌, ◌%◌, Bool, false, ◌&&◌, not, Option, none, some, List, [], ◌∷◌, ◌++◌,
  replicate, get_or, modify, take, if◌then◌else◌, ltb, ◌==◌, c_string,
}
use sistem_operasi.Fs.{
  File, Sectors, State, file_at, on_file, free_file, is_dir, max_files, max_name, max_data,
  data_secs, allocate,
}

-- FS_SECTORS_PER_FILE
abbrev pub sectors_per_file : ℕ
sectors_per_file = 1 + data_secs

abbrev pub hdr_sector : ℕ → ℕ
hdr_sector i = 1 + i * sectors_per_file

abbrev pub data_sector : ℕ → ℕ → ℕ
data_sector i chunk = 2 + i * sectors_per_file + chunk

abbrev pub put_sector : ℕ → List ℕ → Sectors → Sectors
put_sector k bytes d j = if j == k then some bytes else d j

-- A number's bytes, the lowest first.
abbrev pub le16 : ℕ → List ℕ
le16 n = (n % 256) ∷ (n / 256 % 256) ∷ []

abbrev pub le32 : ℕ → List ℕ
le32 n = (n % 256) ∷ (n / 256 % 256) ∷ (n / 65536 % 256) ∷ (n / 16777216 % 256) ∷ []

abbrev pub flag : Bool → ℕ
flag b = if b then 1 else 0

-- The name's array; the bytes behind its 0 are taken to be 0.
abbrev pub name_array : List ℕ → List ℕ
name_array name = take max_name (name ++ replicate max_name 0)

-- The header sector of `fs_disk_save`.
unfoldable pub header : File → List ℕ
header f =
    name_array f.name
    ++ (le32 f.size
        ++ (flag f.used
            ∷ flag f.tmpfs
            ∷ (le16 f.perms ++ (le32 f.ctime ++ (le32 f.mtime ++ replicate 464 0)))))

-- `n` bytes of the data from the offset `off` on, with 0 behind the file's end.
unfoldable pub data_bytes : ℕ → ℕ → ℕ → List ℕ → List ℕ
data_bytes zero off size bytes = []
data_bytes (suc n) off size bytes =
    (if ltb off size then get_or bytes off 0 else 0) ∷ data_bytes n (off + 1) size bytes

-- The loop that writes `n` data sectors from number `k` on.
unfoldable pub save_data : ℕ → ℕ → ℕ → ℕ → List ℕ → Sectors → Sectors
save_data zero k i size bytes d = d
save_data (suc n) k i size bytes d =
    save_data n (suc k) i size bytes
      (put_sector (data_sector i k) (data_bytes 512 (k * 512) size bytes) d)

-- `fs_disk_save`: a file without data keeps its `dirty`.
unfoldable pub disk_save : ℕ → State → State
disk_save i s = elim s.disk [
  | none ↦ s
  | some d ↦
      let f = file_at s i in
      if f.tmpfs
      then s
      else (let d1 = put_sector (hdr_sector i) (header f) d in
          elim f.buffer [
            | none ↦ record s { disk = some d1 }
            | some b ↦ record s {
              disk = some (save_data data_secs 0 i f.size b.bytes d1);
              files = modify s.files i (λ g. record g { dirty = false });
            }
          ])
]

abbrev pub byte_at : List ℕ → ℕ → ℕ
byte_at buf k = get_or buf k 0

abbrev pub word16 : List ℕ → ℕ → ℕ
word16 buf k = byte_at buf k + byte_at buf (k + 1) * 256

abbrev pub word32 : List ℕ → ℕ → ℕ
word32 buf k =
    byte_at buf k
    + (byte_at buf (k + 1) * 256 + (byte_at buf (k + 2) * 65536 + byte_at buf (k + 3) * 16777216))

-- The fields that `fs_disk_load` takes from the header of a slot in use.
unfoldable pub read_header : List ℕ → File → File
read_header buf f = record f {
  name = c_string (take max_name buf);
  size = word32 buf 32;
  tmpfs = not (byte_at buf 37 == 0);
  perms = word16 buf 38;
  ctime = word32 buf 40;
  mtime = word32 buf 44;
  dirty = false;
}

-- The bytes of `n` data sectors from number `k` on; after an unreadable one the rest is taken to be
-- 0.
unfoldable pub load_data : ℕ → ℕ → ℕ → Sectors → List ℕ
load_data zero k i d = []
load_data (suc n) k i d = elim (d (data_sector i k)) [
  | none ↦ replicate (suc n * 512) 0
  | some buf ↦ take 512 (buf ++ replicate 512 0) ++ load_data n (suc k) i d
]

-- A file whose buffer was allocated or not.
abbrev pub load_file : ℕ → State → Option State → State
load_file i s none = on_file i (λ f. record f { buffer = none; used = false }) s
load_file i s (some s2) = s2

-- What `fs_disk_load` does with the header `buf` of a slot in use.
unfoldable pub load_used : Sectors → ℕ → List ℕ → State → State
load_used d i buf s =
    let s1 = on_file i (read_header buf) s in
    if is_dir (file_at s1 i)
    then on_file i (λ f. record f { buffer = none }) s1
    else load_file i s1 (allocate i max_data (load_data data_secs 0 i d) s1)

-- One round of `fs_disk_load`: of a slot that is not in use only the flag is taken.
unfoldable pub load_slot : Sectors → ℕ → State → State
load_slot d i s = elim (d (hdr_sector i)) [
  | none ↦ s
  | some buf ↦
      let s0 = on_file i (λ f. record f { used = not (byte_at buf 36 == 0) }) s in
      if byte_at buf 36 == 0 then s0 else load_used d i buf s0
]

-- The loop over `n` slots from `i` on.
unfoldable pub load_from : ℕ → ℕ → Sectors → State → State
load_from zero i d s = s
load_from (suc n) i d s = load_from n (suc i) d (load_slot d i s)

-- 'M', 'F', 'S', '3'
abbrev pub magic : List ℕ
magic = 77 ∷ 70 ∷ 83 ∷ 51 ∷ []

abbrev pub has_magic : List ℕ → Bool
has_magic sb =
    byte_at sb 0 == 77 && (byte_at sb 1 == 70 && (byte_at sb 2 == 83 && byte_at sb 3 == 51))

-- `fs_disk_write_magic`
abbrev pub write_magic : Sectors → Sectors
write_magic d = put_sector 0 (magic ++ replicate 508 0) d

-- `fs_init` behind the allocation of the table; the fields that its loop leaves unset are taken to
-- be 0.
unfoldable pub init : State → State
init s =
    let s0 = record s { files = replicate max_files free_file } in
    elim s.disk [
      | none ↦ s0
      | some d ↦ elim (d 0) [
        | none ↦ s0
        | some sb ↦
            if has_magic sb
            then load_from max_files 0 d s0
            else record s0 { disk = some (write_magic d) }
      ]
    ]
