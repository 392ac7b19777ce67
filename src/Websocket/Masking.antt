-- ===== src/Websocket/Masking.antt =====
-- The mask of a frame of src/kernel/websocket.c.
use sistem_operasi.Base.{
  ℕ, zero, suc, ◌+◌, ◌*◌, ◌/◌, ◌%◌, ◌≡◌, ◌<◌, refl, ap, ap₂, ◌∙◌, List, [], ◌∷◌, get_or, length,
  arith,
}
use sistem_operasi.Websocket.{xor, masked}

-- The lowest `n` bits of a number.
abbrev pub low_bits : ℕ → ℕ → ℕ
low_bits zero a = 0
low_bits (suc n) a = a % 2 + 2 * low_bits n (a / 2)

pub xor-xor : (n a b : ℕ) → xor n (xor n a b) b ≡ low_bits n a
xor-xor zero a b = refl
xor-xor (suc n) a b =
    let rest = xor n (a / 2) (b / 2) in
    let half : ((a + b) % 2 + 2 * rest) / 2 ≡ rest = omega arith in
    rw half (omega (arith, xor-xor n (a / 2) (b / 2)))

pub low_bits-byte : (a : ℕ) → a < 256 → low_bits 8 a ≡ a
low_bits-byte a h = omega arith

-- The payload as a list, from the index `j` on.
abbrev pub listed : (ℕ → ℕ) → ℕ → ℕ → List ℕ
listed payload zero j = []
listed payload (suc n) j = payload j ∷ listed payload n (suc j)

pub length-masked :
    (payload : ℕ → ℕ) (mask : List ℕ) (n j : ℕ) → length (masked payload mask n j) ≡ n
length-masked payload mask zero j = refl
length-masked payload mask (suc n) j = ap suc (length-masked payload mask n (suc j))

-- What masks a list, byte by byte.
abbrev pub mask_list : List ℕ → List ℕ → ℕ → List ℕ
mask_list mask [] j = []
mask_list mask (x ∷ xs) j = xor 8 x (get_or mask (j % 4) 0) ∷ mask_list mask xs (suc j)

-- Masking a second time undoes it.
pub mask_list-masked :
    (payload : ℕ → ℕ) (mask : List ℕ) (n j : ℕ)
    → ((i : ℕ) → payload i < 256)
    → mask_list mask (masked payload mask n j) j ≡ listed payload n j
mask_list-masked payload mask zero j h = refl
mask_list-masked payload mask (suc n) j h =
    ap₂ (λ x xs. x ∷ xs)
      (xor-xor 8 (payload j) (get_or mask (j % 4) 0) ∙ low_bits-byte (payload j) (h j))
      (mask_list-masked payload mask n (suc j) h)
