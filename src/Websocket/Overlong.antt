-- ===== src/Websocket/Overlong.antt =====
-- Frames with a length near 2^32: the answer of `ws_connect` in src/kernel/websocket.c to a ping.
use sistem_operasi.Base.{
  ℕ, ◌+◌, ◌-◌, ◌*◌, ◌%◌, ◌^◌, ◌≡◌, ◌≤◌, ◌<◌, refl, ap, ◌∙◌, true, false, some, List, [], ◌∷◌, ◌++◌,
  length, length-append, ltb, ltb_ℤ, pos, negsuc, ◌+ℤ◌, arith,
}
use sistem_operasi.Websocket.{
  to_int, masked, length_bytes, frame_encode, Frame, check_total, frame_decode,
}
use sistem_operasi.Websocket.Masking.{length-masked}

-- A ping with the length 2^32 - 10 + k and no payload.
abbrev pub ping : ℕ → List ℕ
ping k = 0x89 ∷ 127 ∷ 0 ∷ 0 ∷ 0 ∷ 0 ∷ 255 ∷ 255 ∷ 255 ∷ (246 + k) ∷ []

to_int-wraps : (k : ℕ) → k < 10 → to_int (4294967286 + k) ≡ negsuc (9 - k)
to_int-wraps k h =
    let same : (4294967286 + k) % 2 ^ 32 ≡ 4294967286 + k = omega arith in
    let high : ltb (4294967286 + k) (2 ^ 31) ≡ false = ground arith in
    let rest : 2 ^ 32 - 1 - (4294967286 + k) ≡ 9 - k = omega arith in rw (same, high, rest) refl

decode-ping :
    (k : ℕ)
    → k < 10
    → frame_decode (ping k)
      ≡ some (record { opcode = 9; payload = []; plen = 4294967286 + k; consumed = pos k })
unfolding frame_decode
decode-ping k h =
    let total : pos 10 +ℤ to_int (4294967286 + k) ≡ pos k =
      ap (λ n. pos 10 +ℤ n) (to_int-wraps k h) ∙ ground arith in
    let len : 255 * 16777216 + 255 * 65536 + 255 * 256 + (246 + k) ≡ 4294967286 + k = omega arith in
    let run : frame_decode (ping k)
        ≡ check_total (ping k) (4294967286 + k) 10 (pos 10 +ℤ to_int (4294967286 + k)) =
      rw len refl in
    let whole : ltb_ℤ (pos 10) (pos k) ≡ false = ground arith in
    run ∙ ap (check_total (ping k) (4294967286 + k) 10) total ∙ rw whole refl

-- A ping of ten bytes whose length is 2^32 - 10 + k, for a k from 1 to 9, is taken for a whole frame of
-- k bytes; the answer with that length passes the check against a buffer of 32 bytes, although it is
-- longer than the buffer.
pub ping-overflows :
    (high : List ℕ) (payload : ℕ → ℕ) (mask : List ℕ) (k : ℕ)
    → 1 ≤ k
    → k < 10
    → (fr : Frame) × (frame_decode (ping k) ≡ some fr)
      × (fr.opcode ≡ 9)
      × (fr.consumed ≡ pos k)
      × ((f : List ℕ) × (frame_encode high 32 0xA payload fr.plen mask ≡ some f) × (32 < length f))
unfolding frame_encode
ping-overflows high payload mask k lo hi =
    let plen = 4294967286 + k in
    let f : List ℕ =
      (128 + 0xA % 16) ∷ (length_bytes high plen ++ (mask ++ masked payload mask plen 0)) in
    let small : to_int (plen + 10) ≡ pos k =
      let wraps : (plen + 10) % 2 ^ 32 ≡ k = omega arith in
      let low : ltb k (2 ^ 31) ≡ true = ground arith in rw (wraps, low) refl in
    let fits : ltb_ℤ (pos 32) (to_int (plen + 10)) ≡ false =
      ap (ltb_ℤ (pos 32)) small ∙ ground arith in
    (
      record { opcode = 9; payload = []; plen = plen; consumed = pos k },
      decode-ping k hi,
      refl,
      refl,
      (
        f,
        rw fits refl,
        omega (
          arith,
          length-append (length_bytes high plen) (mask ++ masked payload mask plen 0),
          length-append mask (masked payload mask plen 0),
          length-masked payload mask plen 0,
        ),
      ),
    )
