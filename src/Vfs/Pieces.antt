-- ===== src/Vfs/Pieces.antt =====
-- A file that is read through a descriptor of src/kernel/vfs.c in several pieces.
use sistem_operasi.Base.{
  ℕ, ◌+◌, ◌-◌, ◌%◌, ◌^◌, ◌<◌, ◌≤◌, ◌≡◌, refl, ◌∙◌, sym, ap, ap₂, true, false, some, List, ◌++◌,
  length, pos, arith, take, drop, leb, take_add, drop_add, ltb_ℤ, ◌==◌,
}
use sistem_operasi.Fs
use sistem_operasi.Fs.Write
use sistem_operasi.Vfs.{Kind, Fd, State, fd_at, on_fd}
use sistem_operasi.Vfs.Redirect.{to_uint32}
use sistem_operasi.Vfs.Read.{
  Got, read, read_file, read_stored, slice, to_int, may_read, at_most, advance,
}
use sistem_operasi.Vfs.Table.{Has, live-Has, Has-on_fd, on_fd-on_fd}

-- Descriptor `j` of task `i` is `f`, for reading the file `name`, which has `size` bytes in `buffer`.
pub record Reads (s : State) (i j : ℕ) (f : Fd) (name : List ℕ) (size : ℕ) (buffer : Fs.Buffer)
    : Type 0 where
  pub has : Has s i j f
  pub kind : f.kind ≡ Kind.file name
  pub readable : may_read f.flags ≡ true
  pub stored : Write.read_bin name s.files ≡ some (size, some buffer)
  pub whole : size ≤ length buffer.bytes
  pub small : size < 2 ^ 31

to_uint32-pos : (n : ℕ) → n < 2 ^ 31 → to_uint32 (pos n) ≡ n
unfolding to_uint32
to_uint32-pos n h = omega arith

to_int-pos : (n : ℕ) → n < 2 ^ 31 → to_int n ≡ pos n
unfolding to_int
to_int-pos n h = ground arith

slice-within :
    (o n : ℕ) (data_bytes : List ℕ)
    → o + n ≤ length data_bytes
    → slice o (pos n) data_bytes ≡ Got.bytes (take n (drop o data_bytes)) (pos n)
unfolding slice
slice-within o n data_bytes h =
    let e : leb (o + n) (length data_bytes) ≡ true = ground arith in rw e refl

-- What one read gives and where it leaves the descriptor.
read-Reads :
    (s : State) (i j : ℕ) (f : Fd) (name : List ℕ) (size n : ℕ) (buffer : Fs.Buffer)
    → Reads s i j f name size buffer
    → 0 < n
    → f.offset + n ≤ size
    → read (pos i) (pos j) (pos n) s
      ≡ some
          (on_fd i j (advance (pos n)) s, Got.bytes (take n (drop f.offset buffer.bytes)) (pos n))
unfolding read read_file read_stored
read-Reads s i j f name size n buffer h some_bytes fits =
    let left : to_int ((size + 2 ^ 32 - f.offset) % 2 ^ 32) ≡ pos (size - f.offset) =
      ap to_int (omega (arith, h.small)) ∙ to_int-pos (size - f.offset) (omega (arith, h.small)) in
    let sized : (size == 0) ≡ false = ground arith in
    let more : ltb_ℤ (pos 0) (pos (size - f.offset)) ≡ true = ground arith in
    let all : at_most (pos (size - f.offset)) (pos n) ≡ pos n = ground arith in
    rw
      (
        live-Has s i j f h.has,
        read,
        h.has.found,
        h.kind,
        h.has.found,
        h.readable,
        read_file,
        h.stored,
        read_stored,
        h.has.found,
        sized,
        left,
        more,
        all,
        slice-within f.offset n buffer.bytes (omega (arith, h.whole)),
      )
      refl

advance-offset :
    (f : Fd) (n : ℕ) → f.offset + n < 2 ^ 31 → (advance (pos n) f).offset ≡ f.offset + n
advance-offset f n h = rw (to_uint32-pos n (omega arith)) (omega arith)

advance-advance : (f : Fd) (m n : ℕ) → advance (pos n) (advance (pos m) f) ≡ advance (pos (m + n)) f
unfolding to_uint32
advance-advance f m n = ap (λ o. record f { offset = o }) (omega arith)

Reads-advance :
    (s : State) (i j : ℕ) (f : Fd) (name : List ℕ) (size n : ℕ) (buffer : Fs.Buffer)
    → Reads s i j f name size buffer
    → Reads (on_fd i j (advance (pos n)) s) i j (advance (pos n) f) name size buffer
Reads-advance s i j f name size n buffer h = record {
  has = Has-on_fd s i j (advance (pos n)) f h.has h.has.in_use;
  kind = h.kind;
  readable = h.readable;
  stored = h.stored;
  whole = h.whole;
  small = h.small;
}

-- Reading `m` bytes of a file and then `n` more gives, piece after piece, the bytes that reading
-- `m + n` at once gives, and leaves the same state, where neither is 0 and the file has so many left.
pub read-pieces :
    (s : State) (i j : ℕ) (f : Fd) (name : List ℕ) (size m n : ℕ) (buffer : Fs.Buffer)
    → Reads s i j f name size buffer
    → 0 < m
    → 0 < n
    → f.offset + (m + n) ≤ size
    → (s1 s2 : State) × (xs ys : List ℕ) × (read (pos i) (pos j) (pos m) s
        ≡ some (s1, Got.bytes xs (pos m)))
      × (read (pos i) (pos j) (pos n) s1 ≡ some (s2, Got.bytes ys (pos n)))
      × (read (pos i) (pos j) (pos (m + n)) s ≡ some (s2, Got.bytes (xs ++ ys) (pos (m + n))))
read-pieces s i j f name size m n buffer h some_first some_next fits =
    let s1 : State = on_fd i j (advance (pos m)) s in
    let rest : List ℕ = drop f.offset buffer.bytes in
    let moved : (advance (pos m) f).offset ≡ f.offset + m =
      advance-offset f m (omega (arith, h.small)) in
    let second =
      read-Reads s1 i j (advance (pos m) f) name size n buffer
        (Reads-advance s i j f name size m buffer h) some_next (rw moved (omega arith)) in
    let bytes : take n (drop (f.offset + m) buffer.bytes) ≡ take n (drop m rest) =
      ap (take n) (drop_add f.offset m buffer.bytes) in
    let both =
      on_fd-on_fd s i j (advance (pos m)) (advance (pos n)) (advance (pos (m + n)))
        (advance-advance (fd_at s i j) m n) in
    (
      s1,
      on_fd i j (advance (pos n)) s1,
      take m rest,
      take n (drop m rest),
      read-Reads s i j f name size m buffer h some_first (omega arith),
      second
          ∙ ap
              (λ o.
                some (
                  on_fd i j (advance (pos n)) s1,
                  Got.bytes (take n (drop o buffer.bytes)) (pos n),
                ))
              moved
          ∙ ap (λ xs. some (on_fd i j (advance (pos n)) s1, Got.bytes xs (pos n))) bytes,
      read-Reads s i j f name size (m + n) buffer h (omega arith) fits
          ∙ ap₂ (λ (t : State) xs. some (t, Got.bytes xs (pos (m + n)))) (sym both)
              (take_add m n rest),
    )
