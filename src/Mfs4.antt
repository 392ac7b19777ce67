-- ===== src/Mfs4.antt =====
-- The inode layer of src/kernel/mfs4.c on top of the file system: symbolic and hard links, and the
-- operations that keep both tables in step. Each takes the timer's tick.
pub mod Resolve
pub mod Links
use sistem_operasi.Base.{
  ℕ, zero, suc, ◌+◌, ◌-◌, ◌%◌, ◌^◌, Bool, true, false, ◌&&◌, not, Option, none, some, List, [], ◌∷◌,
  ◌++◌, map, get_or, modify, take, length, replicate, if◌then◌else◌, ltb, leb, ◌==◌, find_index,
  str_eq, str_copy, ℤ, pos, minus_one,
}
use sistem_operasi.Fs
use sistem_operasi.Fs.{File, is_dir}
use sistem_operasi.Fs.Write
use sistem_operasi.Fs.Names
use sistem_operasi.Fs.Names.{slash, has_slash, strip_prefix}

abbrev pub max_inodes : ℕ
max_inodes = 128

abbrev pub path_len : ℕ
path_len = 64

-- MFS4_TYPE_FILE, MFS4_TYPE_DIR, MFS4_TYPE_SYMLINK
pub data Kind : Type 0 where
  file directory symlink : Kind

pub record Inode : Type 0 where
  pub kind : Kind
  pub used : Bool
  pub inode_id : ℕ
  pub path : List ℕ
  pub target : List ℕ
  pub ctime : ℕ
  pub mtime : ℕ

pub record State : Type 0 where
  pub inodes : List Inode
  pub next_inode_id : ℕ
  pub fs : Fs.State

-- A slot of the table that holds nothing.
abbrev pub free_inode : Inode
free_inode = record {
  kind = Kind.file;
  used = false;
  inode_id = 0;
  path = [];
  target = [];
  ctime = 0;
  mtime = 0;
}

abbrev pub inode_at : State → ℕ → Inode
inode_at s i = get_or s.inodes i free_inode

abbrev pub on_inode : ℕ → (Inode → Inode) → State → State
on_inode i f s = record s { inodes = modify s.inodes i f }

abbrev pub is_file : Kind → Bool
is_file Kind.file = true
is_file _ = false

abbrev pub is_symlink : Kind → Bool
is_symlink Kind.symlink = true
is_symlink _ = false

abbrev pub is_directory : Kind → Bool
is_directory Kind.directory = true
is_directory _ = false

abbrev pub has_path : List ℕ → Inode → Bool
has_path path nd = nd.used && str_eq nd.path path

abbrev pub find_inode : List ℕ → State → Option ℕ
find_inode path s = find_index (has_path path) s.inodes

abbrev pub alloc_inode : State → Option ℕ
alloc_inode s = find_index (λ nd. not nd.used) s.inodes

-- The fields that each operation sets in a new slot.
abbrev pub fill : Kind → ℕ → List ℕ → List ℕ → ℕ → Inode → Inode
fill kind id path target tick nd = record {
  kind = kind;
  used = true;
  inode_id = id;
  path = str_copy path_len path;
  target = str_copy path_len target;
  ctime = tick;
  mtime = tick;
}

-- A slot filled with the next number; 32 bits wrap.
abbrev pub add_inode : ℕ → Kind → List ℕ → List ℕ → ℕ → State → State
add_inode i kind path target tick s = record s {
  inodes = modify s.inodes i (fill kind s.next_inode_id path target tick);
  next_inode_id = (s.next_inode_id + 1) % 2 ^ 32;
}

-- The loop of `mfs4_resolve` with `d` rounds left.
unfoldable pub resolve_from : ℕ → List ℕ → State → List ℕ
resolve_from zero path s = []
resolve_from (suc d) path s = elim (find_inode path s) [
  | none ↦ path
  | some i ↦
      let onward = resolve_from d (str_copy path_len (inode_at s i).target) s in
      if is_symlink (inode_at s i).kind then onward else path
]

abbrev pub resolve : List ℕ → ℕ → State → List ℕ
resolve path max_depth s = resolve_from max_depth (str_copy path_len path) s

-- `mfs4_symlink`: `none` is a null pointer, true the code's 0.
unfoldable pub add_symlink : Option (List ℕ) → Option (List ℕ) → ℕ → State → State × Bool
add_symlink none target tick s = (s, false)
add_symlink (some link) none tick s = (s, false)
add_symlink (some link) (some target) tick s = elim (find_inode link s) [
  | some i ↦ (s, false)
  | none ↦ elim (alloc_inode s) [
    | none ↦ (s, false)
    | some i ↦ (add_inode i Kind.symlink link target tick s, true)
  ]
]

-- `mfs4_hardlink` of two paths that are no null pointers.
unfoldable pub add_hardlink : List ℕ → List ℕ → ℕ → State → State × Bool
add_hardlink link original tick s = elim (find_inode link s) [
  | some i ↦ (s, false)
  | none ↦ elim (find_inode original s) [
    | none ↦ (s, false)
    | some o ↦
        let orig = inode_at s o in
        if is_file orig.kind
        then elim (alloc_inode s) [
          | none ↦ (s, false)
          | some i ↦ (on_inode i (fill Kind.file orig.inode_id link orig.target tick) s, true)
        ]
        else (s, false)
  ]
]

-- `mfs4_mkdir`
unfoldable pub mkdir : List ℕ → ℕ → State → State × Bool
mkdir [] tick s = (s, false)
mkdir (c ∷ cs) tick s =
    let path = c ∷ cs in
    elim (find_inode path s) [
      | some i ↦ (s, false)
      | none ↦
          let s1 = record s { fs = (Fs.Names.mkdir path tick s.fs).0 } in
          elim (alloc_inode s1) [
            | none ↦ (s1, false)
            | some i ↦ (add_inode i Kind.directory path path tick s1, true)
          ]
    ]

-- `mfs4_register`: what is there already is left as it is.
unfoldable pub register : List ℕ → Kind → ℕ → State → State × Bool
register [] kind tick s = (s, false)
register (c ∷ cs) kind tick s =
    let path = c ∷ cs in
    elim (find_inode path s) [
      | some i ↦ (s, true)
      | none ↦ elim (alloc_inode s) [
        | none ↦ (s, false)
        | some i ↦ (add_inode i kind path path tick s, true)
      ]
    ]

-- `MFS4Stat`
pub record Stat : Type 0 where
  pub kind : Kind
  pub size : ℕ
  pub ctime : ℕ
  pub mtime : ℕ
  pub perms : ℕ

-- The size of a file of that name, 0 where there is none.
abbrev pub file_size : List ℕ → Fs.State → ℕ
file_size name fs = elim (Fs.Write.read_bin name fs) [ none ↦ 0 | some (size, buffer) ↦ size ]

abbrev pub stat_of : Inode → Fs.State → Stat
stat_of nd fs = record {
  kind = nd.kind;
  size = if is_file nd.kind then file_size nd.target fs else 0;
  ctime = nd.ctime;
  mtime = nd.mtime;
  perms =
      if is_file nd.kind
      then Fs.Names.get_perms nd.target fs
      else if is_directory nd.kind
      then Fs.perm_dir + Fs.perm_read
      else 0;
}

-- `mfs4_stat`: `none` is -1.
unfoldable pub stat : List ℕ → State → Option Stat
stat path s = elim (find_inode (resolve path 8 s) s) [
  | none ↦ none
  | some i ↦ some (stat_of (inode_at s i) s.fs)
]

-- The files in use that share a number.
abbrev pub shares : ℕ → Inode → Bool
shares id nd = nd.used && (is_file nd.kind && nd.inode_id == id)

unfoldable pub count_refs : ℕ → List Inode → ℕ
count_refs id [] = 0
count_refs id (nd ∷ nds) = (if shares id nd then 1 else 0) + count_refs id nds

-- `mfs4_unlink`: the last link of a file takes the file with it.
unfoldable pub unlink : List ℕ → State → State × Bool
unlink path s = elim (find_inode path s) [
  | none ↦ (s, false)
  | some i ↦
      let nd = inode_at s i in
      let last = is_file nd.kind && leb (count_refs nd.inode_id s.inodes) 1 in
      let fs = if last then (Fs.Write.delete nd.target s.fs).0 else s.fs in
      (record s { inodes = modify s.inodes i (λ n. record n { used = false }); fs = fs }, true)
]

-- The loop of `mfs4_rename` over the links of one file.
abbrev pub retarget : ℕ → List ℕ → Inode → Inode
retarget id path nd = if shares id nd then record nd { target = str_copy path_len path } else nd

abbrev pub set_path : List ℕ → ℕ → Inode → Inode
set_path path tick nd = record nd { path = str_copy path_len path; mtime = tick }

-- `mfs4_rename` of two paths that are no null pointers.
unfoldable pub rename : List ℕ → List ℕ → ℕ → State → State × Bool
rename old_path new_path tick s = elim (find_inode old_path s) [
  | none ↦ (s, false)
  | some i ↦ elim (find_inode new_path s) [
    | some j ↦ (s, false)
    | none ↦
        let nd = inode_at s i in
        if is_file nd.kind
        then (let (fs, moved) = Fs.Names.rename (some nd.target) (some new_path) tick s.fs in
            if moved
            then (
              record s {
                inodes =
                    modify (map (retarget nd.inode_id new_path) s.inodes) i
                      (set_path new_path tick);
                fs = fs;
              },
              true,
            )
            else (s, false))
        else (on_inode i (set_path new_path tick) s, true)
  ]
]

-- A child of `dir`: its path has `dir`, a slash, and a name without one.
unfoldable pub is_child : List ℕ → List ℕ → Bool
is_child [] path = not (has_slash path)
is_child (c ∷ cs) path = elim (strip_prefix (c ∷ cs) path) [
  | none ↦ false
  | some [] ↦ false
  | some (d ∷ name) ↦ d == slash && (ltb 0 (length name) && not (has_slash name))
]

-- What is behind the last slash; `name` is what is behind the last one so far.
unfoldable pub base_name : List ℕ → List ℕ → List ℕ
base_name name [] = name
base_name name (c ∷ cs) = base_name (if c == slash then cs else name) cs

-- The loop of `mfs4_listdir` on a buffer of `bufsz` bytes: what it has written, and how many lines.
unfoldable pub list_from : List ℕ → ℕ → List ℕ → List Inode → List ℕ × ℕ
list_from dir bufsz out [] = (out, 0)
list_from dir bufsz out (nd ∷ nds) =
    let name = base_name nd.path nd.path in
    let mark = if is_directory nd.kind then slash ∷ [] else [] in
    let skipped = list_from dir bufsz out nds in
    let taken = list_from dir bufsz (out ++ (name ++ (mark ++ (10 ∷ [])))) nds in
    if nd.used && is_child dir nd.path
    then (if leb bufsz (length out + length name + 2) then (out, 0) else (taken.0, taken.1 + 1))
    else skipped

abbrev pub listdir : List ℕ → ℕ → State → List ℕ × ℕ
listdir dir bufsz s = list_from dir bufsz [] s.inodes

-- The loop of `mfs4_init` over the files, when the disk holds no inodes.
unfoldable pub scan_files : List File → State → State
scan_files [] s = s
scan_files (f ∷ fs) s = elim (alloc_inode s) [
  | none ↦ elim f.used [ true ↦ s | false ↦ scan_files fs s ]
  | some i ↦ scan_files fs (
      if f.used
      then (let kind = if is_dir f then Kind.directory else Kind.file in
          let s1 = add_inode i kind f.name f.name 0 s in
          on_inode i (λ nd. record nd { ctime = f.ctime; mtime = f.mtime }) s1)
      else s)
]
