-- ===== src/Fs/Header.antt =====
-- A header sector holds what the table holds.
use sistem_operasi.Base.{
  get_or-append_right, ℕ, zero, suc, ◌+◌, ◌*◌, ◌/◌, ◌%◌, ◌<◌, ◌≡◌, refl, ap, Bool, true, false, not,
  List, [], ◌∷◌, ◌++◌, length, length-append, length-take, length-replicate, replicate, take,
  get_or, arith, c_string, NoZero, ◌==◌,
}
use mathlib.Core.Path.{subst}
use sistem_operasi.Fs.{File}
use sistem_operasi.Fs.Disk.{header, read_header, name_array, le16, le32, flag, byte_at}

-- The values fit the fields of the sector.
pub record Storable (f : File) : Type 0 where
  pub name_fits : length f.name < 32
  pub name_text : NoZero f.name
  pub size_fits : f.size < 4294967296
  pub perms_fit : f.perms < 65536
  pub ctime_fits : f.ctime < 4294967296
  pub mtime_fits : f.mtime < 4294967296

pub take-append_left : (xs ys : List ℕ) → take (length xs) (xs ++ ys) ≡ xs
take-append_left [] ys = refl
take-append_left (x ∷ xs) ys = ap (λ r. x ∷ r) (take-append_left xs ys)

c_string-take :
    (s : List ℕ) (n m : ℕ)
    → NoZero s
    → length s < n
    → c_string (take n (s ++ replicate (suc m) 0)) ≡ s
c_string-take s zero m h l = absurd (omega arith)
c_string-take [] (suc n) m h l = refl
c_string-take (x ∷ xs) (suc n) m (b, h) l =
    let e : (x == 0) ≡ false = ground arith in
    rw e (ap (λ r. x ∷ r) (c_string-take xs n m h (omega arith)))

length-name_array : (name : List ℕ) → length name < 32 → length (name_array name) ≡ 32
length-name_array name h = omega (
  arith,
  length-take 32 (name ++ replicate 32 0),
  length-append name (replicate 32 0),
  length-replicate {A = ℕ} 32 0,
)

-- The fields behind the name.
abbrev fields : File → List ℕ
fields f =
    le32 f.size
    ++ (flag f.used
        ∷ flag f.tmpfs
        ∷ (le16 f.perms ++ (le32 f.ctime ++ (le32 f.mtime ++ replicate 464 0))))

header_byte :
    (f : File) (k : ℕ) → length f.name < 32 → byte_at (header f) (32 + k) ≡ byte_at (fields f) k
unfolding header
header_byte f k h =
    subst (λ n. get_or (name_array f.name ++ fields f) (n + k) 0 ≡ get_or (fields f) k 0)
      (length-name_array f.name h) (get_or-append_right (name_array f.name) (fields f) k 0)

header_name : (f : File) → Storable f → c_string (take 32 (header f)) ≡ f.name
unfolding header
header_name f v =
    let e : take 32 (name_array f.name ++ fields f) ≡ name_array f.name =
      subst (λ n. take n (name_array f.name ++ fields f) ≡ name_array f.name)
        (length-name_array f.name v.name_fits) (take-append_left (name_array f.name) (fields f)) in
    rw e (c_string-take f.name 32 31 v.name_text v.name_fits)

word16_lem : (n : ℕ) → n < 65536 → n % 256 + n / 256 % 256 * 256 ≡ n
word16_lem n h = omega arith

word32_lem :
    (n : ℕ)
    → n < 4294967296
    → n % 256 + (n / 256 % 256 * 256 + (n / 65536 % 256 * 65536 + n / 16777216 % 256 * 16777216))
      ≡ n
word32_lem n h = omega arith

pub flag_true : (b : Bool) → not (flag b == 0) ≡ b
flag_true true = refl
flag_true false = refl

-- The flag of a header sector.
pub header_used : (f : File) → Storable f → byte_at (header f) 36 ≡ flag f.used
header_used f v = header_byte f 4 v.name_fits

-- What `fs_disk_save` puts into a header sector, `fs_disk_load` takes out of it for a slot in use.
pub read_header-header :
    (f g : File)
    → Storable f
    → read_header (header f) g ≡ record f { used = g.used; dirty = false; buffer = g.buffer }
unfolding read_header
read_header-header f g v =
    let at = λ (k : ℕ). header_byte f k v.name_fits in
    rw
      (
        header_name f v,
        at 0,
        at 1,
        at 2,
        at 3,
        at 5,
        at 6,
        at 7,
        at 8,
        at 9,
        at 10,
        at 11,
        at 12,
        at 13,
        at 14,
        at 15,
      )
      (rw
        (
          word32_lem f.size v.size_fits,
          flag_true f.tmpfs,
          word16_lem f.perms v.perms_fit,
          word32_lem f.ctime v.ctime_fits,
          word32_lem f.mtime v.mtime_fits,
        )
        refl)
