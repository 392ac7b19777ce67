-- ===== src/Fs/Names.antt =====
-- Directories, names, permissions and lists in src/kernel/fs.c.
use sistem_operasi.Base.{
  ℕ, zero, suc, ◌+◌, ◌-◌, Bool, true, false, ◌&&◌, ◌||◌, not, Option, none, some, List, [], ◌∷◌,
  ◌++◌, length, if◌then◌else◌, ltb, ◌==◌, str_copy, str_eq, take,
}
use sistem_operasi.Fs.{
  File, State, file_at, on_file, find_named, find_free, is_dir, max_files, max_name, perm_dir,
  perm_read, perm_write,
}
use sistem_operasi.Fs.Disk.{disk_save}
use sistem_operasi.Fs.Write.{set_name}

abbrev pub new_dir : List ℕ → ℕ → File → File
new_dir name tick f = record (set_name name f) {
  size = 0;
  used = true;
  tmpfs = false;
  dirty = true;
  perms = perm_dir + perm_read + perm_write;
  ctime = tick;
  mtime = tick;
  buffer = none;
}

-- `fs_mkdir`: an entry of that name, of whatever kind, is enough.
unfoldable pub mkdir : List ℕ → ℕ → State → State × Bool
mkdir name tick s = elim (find_named name s) [
  | some i ↦ (s, true)
  | none ↦ elim (find_free s) [
    | none ↦ (s, false)
    | some i ↦ (disk_save i (on_file i (new_dir name tick) s), true)
  ]
]

unfoldable pub get_perms : List ℕ → State → ℕ
get_perms name s = elim (find_named name s) [ none ↦ 0 | some i ↦ (file_at s i).perms ]

unfoldable pub set_perms : List ℕ → ℕ → State → State × Bool
set_perms name perms s = elim (find_named name s) [
  | none ↦ (s, false)
  | some i ↦ (disk_save i (on_file i (λ f. record f { perms = perms; dirty = true }) s), true)
]

unfoldable pub get_mtime : List ℕ → State → ℕ
get_mtime name s = elim (find_named name s) [ none ↦ 0 | some i ↦ (file_at s i).mtime ]

-- `fs_rename`: `none` is a null pointer, true the code's 0.
unfoldable pub rename : Option (List ℕ) → Option (List ℕ) → ℕ → State → State × Bool
rename none new_name tick s = (s, false)
rename (some old_name) none tick s = (s, false)
rename (some old_name) (some new_name) tick s = elim (find_named new_name s) [
  | some i ↦ (s, false)
  | none ↦ elim (find_named old_name s) [
    | none ↦ (s, false)
    | some i ↦ (
      disk_save i (on_file i (λ f. record (set_name new_name f) { dirty = true; mtime = tick }) s),
      true,
    )
  ]
]

-- The loop of `fs_flush` over `n` slots from `i` on, with the number of files saved.
unfoldable pub flush_from : ℕ → ℕ → State → State × ℕ
flush_from zero i s = (s, 0)
flush_from (suc n) i s =
    let f = file_at s i in
    let save = f.used && (f.dirty && not f.tmpfs) in
    let (s', count) = flush_from n (suc i) (if save then disk_save i s else s) in
    (s', if save then count + 1 else count)

-- `fs_flush` up to its call of `mfs4_flush`.
unfoldable pub flush : State → State × ℕ
flush s = elim s.disk [ none ↦ (s, 0) | some d ↦ flush_from max_files 0 s ]

-- '/'
abbrev pub slash : ℕ
slash = 47

unfoldable pub has_slash : List ℕ → Bool
has_slash [] = false
has_slash (c ∷ cs) = if c == slash then true else has_slash cs

-- The string's front is the prefix: the tail behind it, or none.
unfoldable pub strip_prefix : List ℕ → List ℕ → Option (List ℕ)
strip_prefix [] s = some s
strip_prefix (p ∷ ps) [] = none
strip_prefix (p ∷ ps) (c ∷ cs) = let rest = strip_prefix ps cs in if c == p then rest else none

-- "[DIR] " and a line's end
abbrev pub dir_mark : List ℕ
dir_mark = 91 ∷ 68 ∷ 73 ∷ 82 ∷ 93 ∷ 32 ∷ []

abbrev pub entry_line : File → List ℕ → List ℕ
entry_line f name = (if is_dir f then dir_mark else []) ++ (name ++ (10 ∷ []))

-- What `fs_list` prints of the files, and how many there are.
unfoldable pub list_from : List File → List ℕ × ℕ
list_from [] = ([], 0)
list_from (f ∷ fs) =
    let (rest, count) = list_from fs in
    if f.used then (entry_line f f.name ++ rest, count + 1) else (rest, count)

-- The name under which `fs_list_dir` shows an entry, if it does.
unfoldable pub shown_name : List ℕ → List ℕ → Option (List ℕ)
shown_name dir name =
    if length dir == 0 || str_eq dir (slash ∷ [])
    then (if has_slash name then none else some name)
    else elim (strip_prefix dir name) [
      | none ↦ none
      | some tail ↦ if has_slash tail then none else some tail
    ]

unfoldable pub list_dir_from : List ℕ → List File → List ℕ × ℕ
list_dir_from dir [] = ([], 0)
list_dir_from dir (f ∷ fs) =
    let (rest, count) = list_dir_from dir fs in
    if f.used
    then elim (shown_name dir f.name) [
      | none ↦ (rest, count)
      | some tail ↦ (entry_line f tail ++ rest, count + 1)
    ]
    else (rest, count)

-- The inner loop of `fs_list_buf`: `out` has the bytes written so far.
abbrev pub append_upto : ℕ → List ℕ → List ℕ → List ℕ
append_upto bound out name = out ++ take (bound - length out) name

-- The loop of `fs_list_buf` on a buffer of `bufsz` bytes.
unfoldable pub list_buf_from : ℕ → List ℕ → List File → List ℕ × ℕ
list_buf_from bufsz out [] = (out, 0)
list_buf_from bufsz out (f ∷ fs) =
    let named = append_upto (bufsz - 2) out f.name in
    let ended = if ltb (length named) (bufsz - 1) then named ++ (10 ∷ []) else named in
    let (all, count) = list_buf_from bufsz (if f.used then ended else out) fs in
    (all, if f.used then count + 1 else count)

-- The loop of `fs_find_prefix`; `found` is the name met so far, and a second one gives none.
unfoldable pub prefix_from : List ℕ → Option (List ℕ) → List File → Option (List ℕ)
prefix_from prefix found [] = found
prefix_from prefix found (f ∷ fs) =
    let onward = prefix_from prefix found fs in
    let first = prefix_from prefix (some (str_copy max_name f.name)) fs in
    if f.used
    then elim (strip_prefix prefix f.name) [
      | none ↦ onward
      | some tail ↦ elim found [ none ↦ first | some name ↦ none ]
    ]
    else onward

unfoldable pub find_prefix : List ℕ → State → Option (List ℕ)
find_prefix prefix s = prefix_from prefix none s.files
