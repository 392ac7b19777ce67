-- ===== src/Websocket.antt =====
-- The frames of src/kernel/websocket.c.
pub mod Masking
pub mod Overlong
pub mod Roundtrip
use sistem_operasi.Base.{
  ℕ, zero, suc, ◌+◌, ◌-◌, ◌*◌, ◌/◌, ◌%◌, ◌^◌, Bool, Option, none, some, List, [], ◌∷◌, ◌++◌, get_or,
  drop, length, if◌then◌else◌, ltb, leb, ◌==◌, ltb_ℤ, ℤ, pos, negsuc, ◌+ℤ◌,
}

-- The cast of a `uint32_t` to `int`.
abbrev pub to_int : ℕ → ℤ
to_int n = let m = n % 2 ^ 32 in if ltb m (2 ^ 31) then pos m else negsuc (2 ^ 32 - 1 - m)

-- The lowest `n` bits of `a ^ b`.
abbrev pub xor : ℕ → ℕ → ℕ → ℕ
xor zero a b = 0
xor (suc n) a b = (a + b) % 2 + 2 * xor n (a / 2) (b / 2)

-- `count` bytes of a payload from the index `j` on, masked.
abbrev pub masked : (ℕ → ℕ) → List ℕ → ℕ → ℕ → List ℕ
masked payload mask zero j = []
masked payload mask (suc count) j =
    xor 8 (payload j) (get_or mask (j % 4) 0) ∷ masked payload mask count (suc j)

-- The length in a header. C does not define a shift of 32 bits or more: `high` has the four bytes that
-- these give.
abbrev pub length_bytes : List ℕ → ℕ → List ℕ
length_bytes high plen =
    if leb plen 125
    then (128 + plen) ∷ []
    else if leb plen 65535
    then 0xFE ∷ plen / 256 ∷ plen % 256 ∷ []
    else 0xFF
      ∷ (high
          ++ ((plen / 16777216 % 256)
              ∷ (plen / 65536 % 256)
              ∷ (plen / 256 % 256)
              ∷ (plen % 256)
              ∷ []))

-- `ws_frame_encode` into a buffer of `outmax` bytes, for a `plen` below 2^32: the bytes that it writes,
-- or `none` for its -1.
unfoldable pub frame_encode : List ℕ → ℕ → ℕ → (ℕ → ℕ) → ℕ → List ℕ → Option (List ℕ)
frame_encode high outmax opcode payload plen mask =
    if ltb_ℤ (pos outmax) (to_int (plen + 10))
    then none
    else some
        ((128 + opcode % 16) ∷ (length_bytes high plen ++ (mask ++ masked payload mask plen 0)))

-- What `ws_frame_decode` gives: the payload is what lies behind the header.
pub record Frame : Type 0 where
  pub opcode : ℕ
  pub payload : List ℕ
  pub plen : ℕ
  pub consumed : ℤ

-- `plen` and `hdr` before the mask is counted.
abbrev pub read_length : List ℕ → Option (ℕ × ℕ)
read_length buf =
    let short = get_or buf 1 0 % 128 in
    if short == 126
    then (if ltb (length buf) 4 then none else some (get_or buf 2 0 * 256 + get_or buf 3 0, 4))
    else if short == 127
    then (if ltb (length buf) 10
        then none
        else some (
          get_or buf 6 0 * 16777216
              + get_or buf 7 0 * 65536
              + get_or buf 8 0 * 256
              + get_or buf 9 0,
          10,
        ))
    else some (short, 2)

abbrev pub mask_bytes : ℕ → ℕ
mask_bytes b = if b / 128 % 2 == 1 then 4 else 0

-- The check of the frame's length, `total`, and the results.
abbrev pub check_total : List ℕ → ℕ → ℕ → ℤ → Option Frame
check_total buf plen hdr total =
    if ltb_ℤ (pos (length buf)) total
    then none
    else some (record {
      opcode = get_or buf 0 0 % 16;
      payload = drop hdr buf;
      plen = plen;
      consumed = total;
    })

-- `ws_frame_decode`: `none` where it returns 0 before it has set `*plen_out`.
unfoldable pub frame_decode : List ℕ → Option Frame
frame_decode buf = if ltb (length buf) 2 then none else elim (read_length buf) [
  | none ↦ none
  | some (plen, hdr) ↦
      let hdr' = hdr + mask_bytes (get_or buf 1 0) in
      check_total buf plen hdr' (pos hdr' +ℤ to_int plen)
]
