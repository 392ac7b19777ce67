-- ===== src/Vfs/Store.antt =====
-- Writing through a descriptor: `vfs_write` in src/kernel/vfs.c, less its arm for connections. A text
-- for the screen is part of the result.
use sistem_operasi.Base.{
  ℕ, ◌+◌, ◌-◌, ◌%◌, ◌^◌, Bool, ◌||◌, ◌&&◌, not, Option, none, some, List, [], ◌++◌, ℤ, pos, negsuc,
  minus_one, if◌then◌else◌, ltb, leb, ◌==◌, ltb_ℤ, ◌-ℤ◌, ◌+ℤ◌, pos_part, take, drop, replicate,
  length, c_string,
}
use sistem_operasi.Fs
use sistem_operasi.Fs.{max_bin_data, heap_free}
use sistem_operasi.Fs.Write
use sistem_operasi.Heap
use sistem_operasi.Pipe
use sistem_operasi.Vfs.{Kind, State, fd_at, on_fd, live}
use sistem_operasi.Vfs.Redirect.{stored_size, tty_pipe}
use sistem_operasi.Vfs.Read.{to_int, advance}

-- What a write gives: the value returned with the text for the screen; an access outside a buffer; or
-- another round of the loop over chunks, with `written` bytes gone.
pub data Put : Type 0 where
  wrote : ℤ → List ℕ → Put
  outside : Put
  goes_on : ℕ → Put

-- `f->flags & (VFS_O_WRONLY | VFS_O_RDWR)`
abbrev pub may_write : ℕ → Bool
may_write flags = not (flags % 4 == 0)

-- `len`, cut so that the file stays below FS_MAX_BIN_DATA.
abbrev pub write_len : ℤ → ℤ → ℤ
write_len offset len =
    if ltb_ℤ (pos (max_bin_data - 1)) (offset +ℤ len) then pos (max_bin_data - 1) -ℤ offset else len

-- `new` laid over `old` from `offset` on, in `total` bytes.
abbrev pub overlay : List ℕ → ℕ → List ℕ → ℕ → List ℕ
overlay old offset new total =
    let padded = old ++ replicate (total - length old) 0 in
    take offset padded ++ (new ++ drop (offset + length new) padded)

abbrev pub stored_bytes : List ℕ → State → List ℕ
stored_bytes name s = elim (Write.read_bin name s.files) [
  | none ↦ []
  | some (size, buffer) ↦ elim buffer [ none ↦ [] | some b ↦ take size b.bytes ]
]

-- `fs_write_bin` with the copy in the temporary block, which is then freed.
abbrev pub replace_file : List ℕ → List ℕ → ℕ → ℕ → Fs.State → Fs.State
replace_file name bytes addr tick files =
    let (files', _) = Write.write_bin name bytes tick files in
    record files' { heap = heap_free addr files'.heap }

-- Where C says nothing: the old bytes or the new ones do not lie in their buffers, or `end` leaves the
-- range of an `int`.
abbrev pub is_outside : ℕ → ℕ → ℕ → ℤ → ℤ → Bool
is_outside size stored offset len n =
    not (stored == size)
    || (ltb 0 (pos_part n) && leb max_bin_data offset)
    || leb (2 ^ 31) (pos_part (to_int offset +ℤ len))

-- The arm for files.
unfoldable pub write_file : ℕ → ℕ → List ℕ → List ℕ → ℕ → State → State × Put
write_file i j name buf tick s = elim (Heap.malloc max_bin_data s.files.heap) [
  | none ↦ (s, Put.wrote minus_one [])
  | some (addr, heap) ↦
      let f = fd_at s i j in
      let size = stored_size name s in
      let n = write_len (to_int f.offset) (pos (length buf)) in
      let new = take (pos_part n) buf in
      let stop = pos_part (to_int f.offset +ℤ n) in
      let total = if ltb stop size then size else stop in
      let old = stored_bytes name s in
      let bytes = overlay old f.offset new total in
      let s1 = record s {
        files = replace_file name bytes addr tick (record s.files { heap = heap });
      } in
      if is_outside size (length old) f.offset (pos (length buf)) n
      then (s, Put.outside)
      else (on_fd i j (advance n) s1, Put.wrote n [])
]

-- One round of the loop that gives `buf` to a pipe in chunks of at most 255 bytes; `pipe_write` takes a
-- chunk up to its first 0.
unfoldable pub write_chunk : ℤ → List ℕ → ℕ → State → State × Put
write_chunk id buf written s =
    let chunk = c_string (take 255 (drop written buf)) in
    let (pipes, r) = Pipe.write id (some chunk) s.pipes in
    if ltb written (length buf)
    then elim r [
      | pos n ↦ (record s { pipes = pipes }, Put.goes_on (written + n))
      | negsuc _ ↦ (record s { pipes = pipes }, Put.wrote (pos written) [])
    ]
    else (s, Put.wrote (pos written) [])

-- The bytes that `print` shows, 255 at most, up to the first 0.
unfoldable pub write_screen : List ℕ → Put
write_screen buf =
    Put.wrote (if ltb (length buf) 255 then pos (length buf) else pos 255) (c_string (take 255 buf))

-- `vfs_write` of all of `buf`, with `written` bytes of a pipe's or a terminal's already gone; `none`
-- where it turns to a connection.
unfoldable pub write : ℤ → ℤ → List ℕ → ℕ → ℕ → State → Option (State × Put)
write task fd buf written tick s = elim (live s task fd) [
  | none ↦ some (s, Put.wrote minus_one [])
  | some (i, j) ↦ elim (fd_at s i j).kind [
    | Kind.stdout ↦ some (s, write_screen buf)
    | Kind.dev ↦ some (s, Put.wrote (pos (length buf)) [])
    | Kind.file name ↦
        if may_write (fd_at s i j).flags
        then some (write_file i j name buf tick s)
        else some (s, Put.wrote minus_one [])
    | Kind.pipe_to id to_write ↦
        if to_write then some (write_chunk id buf written s) else some (s, Put.wrote minus_one [])
    | Kind.tty id ↦ some (write_chunk (tty_pipe id s) buf written s)
    | Kind.untyped ↦ some (s, Put.wrote minus_one [])
    | Kind.stdin ↦ some (s, Put.wrote minus_one [])
    | Kind.net _ ↦ none
    | Kind.proc _ ↦ some (s, Put.wrote minus_one [])
  ]
]
