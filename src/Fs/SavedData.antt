-- ===== src/Fs/SavedData.antt =====
-- The data sectors of src/kernel/fs.c: what `fs_disk_save` writes, `fs_disk_load` reads.
use sistem_operasi.Base.{
  ℕ, zero, suc, ◌+◌, ◌*◌, ◌≡◌, ◌<◌, refl, ap, sym, ◌∙◌, false, some, List, ◌∷◌, ◌++◌, length, take,
  replicate, ==_refl, ◌==◌, arith, ltb, get_or, if◌then◌else◌,
}
use mathlib.Core.Path.{subst}
use sistem_operasi.Fs.{Sectors}
use sistem_operasi.Fs.Disk.{data_sector, put_sector, data_bytes, save_data, load_data}
use sistem_operasi.Fs.Header.{take-append_left}

length-data_bytes : (n off size : ℕ) (bytes : List ℕ) → length (data_bytes n off size bytes) ≡ n
unfolding data_bytes
length-data_bytes zero off size bytes = refl
length-data_bytes (suc n) off size bytes = ap suc (length-data_bytes n (off + 1) size bytes)

data_bytes_add :
    (m n off size : ℕ) (bytes : List ℕ)
    → data_bytes (m + n) off size bytes
      ≡ data_bytes m off size bytes ++ data_bytes n (off + m) size bytes
unfolding data_bytes
data_bytes_add zero n off size bytes =
    let e : 0 + n ≡ n = omega arith in let o : off + 0 ≡ off = omega arith in rw (e, o) refl
data_bytes_add (suc m) n off size bytes =
    let e : suc m + n ≡ suc (m + n) = omega arith in
    let o : off + suc m ≡ off + 1 + m = omega arith in
    rw (e, o)
      (ap (λ r. (if ltb off size then get_or bytes off 0 else 0) ∷ r)
        (data_bytes_add m n (off + 1) size bytes))

-- A sector in front of the data sectors from number `k` on stays.
pub save_data-before :
    (n k i size : ℕ) (bytes : List ℕ) (d : Sectors) (j : ℕ)
    → j < data_sector i k
    → save_data n k i size bytes d j ≡ d j
unfolding save_data
save_data-before zero k i size bytes d j h = refl
save_data-before (suc n) k i size bytes d j h =
    let other : (j == data_sector i k) ≡ false = ground arith in
    save_data-before n (suc k) i size bytes _ j (omega arith) ∙ rw other refl

whole_sector : (buf : List ℕ) → length buf ≡ 512 → take 512 (buf ++ replicate 512 0) ≡ buf
whole_sector buf h =
    subst (λ n. take n (buf ++ replicate 512 0) ≡ buf) h (take-append_left buf (replicate 512 0))

load_data-step :
    (n k i : ℕ) (d : Sectors) (buf : List ℕ)
    → d (data_sector i k) ≡ some buf
    → length buf ≡ 512
    → load_data (suc n) k i d ≡ buf ++ load_data n (suc k) i d
unfolding load_data
load_data-step n k i d buf e h =
    rw (e, load_data) (ap (λ b. b ++ load_data n (suc k) i d) (whole_sector buf h))

-- Loading the data sectors gives the bytes that were saved, with 0 behind the file's end.
pub load_data-save_data :
    (n k i size : ℕ) (bytes : List ℕ) (d : Sectors)
    → load_data n k i (save_data n k i size bytes d) ≡ data_bytes (n * 512) (k * 512) size bytes
unfolding save_data load_data data_bytes
load_data-save_data zero k i size bytes d = refl
load_data-save_data (suc n) k i size bytes d =
    let sector = data_bytes 512 (k * 512) size bytes in
    let d1 = put_sector (data_sector i k) sector d in
    let there : save_data n (suc k) i size bytes d1 (data_sector i k) ≡ some sector =
      save_data-before n (suc k) i size bytes d1 (data_sector i k) (omega arith)
      ∙ rw (==_refl (data_sector i k)) refl in
    let len : suc n * 512 ≡ 512 + n * 512 = omega arith in
    let at : suc k * 512 ≡ k * 512 + 512 = omega arith in
    load_data-step n k i _ sector there (length-data_bytes 512 (k * 512) size bytes)
    ∙ ap (λ r. sector ++ r) (load_data-save_data n (suc k) i size bytes d1)
    ∙ rw (len, at) (sym (data_bytes_add 512 (n * 512) (k * 512) size bytes))
