-- ===== src/Net/Checksum.antt =====
-- The 16-bit one's complement checksums of src/kernel/net.c.
use sistem_operasi.Base.{
  ℕ, zero, suc, ◌+◌, ◌-◌, ◌*◌, ◌/◌, ◌%◌, List, [], ◌∷◌, ◌++◌, length, if◌then◌else◌, ◌==◌,
}

-- The loop over pairs of bytes, and the last byte of an odd number of them.
unfoldable pub word_sum : List ℕ → ℕ
word_sum [] = 0
word_sum (x ∷ []) = x * 256
word_sum (x ∷ y ∷ r) = x * 256 + y + word_sum r

-- `while (sum >> 16) sum = (sum & 0xFFFF) + (sum >> 16);`, which ends after two rounds for a sum of 32
-- bits.
unfoldable pub fold_carry : ℕ → ℕ → ℕ
fold_carry zero sum = sum
fold_carry (suc fuel) sum =
    let rest = fold_carry fuel (sum % 65536 + sum / 65536) in if sum / 65536 == 0 then sum else rest

-- `(uint16_t)~sum` after the loop.
unfoldable pub finish : ℕ → ℕ
finish sum = 65535 - fold_carry 3 sum

-- `inet_cksum`
unfoldable pub inet_cksum : List ℕ → ℕ
inet_cksum bytes = finish (word_sum bytes)

-- The pseudo-header of `transport_cksum`.
abbrev pub pseudo_header : List ℕ → List ℕ → ℕ → ℕ → List ℕ
pseudo_header src dst proto seg_len =
    src ++ (dst ++ (0 ∷ proto ∷ seg_len / 256 % 256 ∷ seg_len % 256 ∷ []))

unfoldable pub transport_cksum : List ℕ → List ℕ → ℕ → List ℕ → ℕ
transport_cksum src dst proto seg =
    finish (word_sum (pseudo_header src dst proto (length seg)) + word_sum seg)
