-- ===== src/Websocket/Roundtrip.antt =====
-- Frames of src/kernel/websocket.c that are encoded and then decoded.
use sistem_operasi.Base.{
  ℕ, ◌+◌, ◌*◌, ◌/◌, ◌%◌, ◌^◌, ◌≡◌, ◌≤◌, ◌<◌, refl, sym, ap, ◌∙◌, true, false, Bool-cases, inl, inr,
  some, List, [], ◌∷◌, ◌++◌, get_or, drop, length, ltb, leb, ◌==◌, ltb_ℤ, pos, ◌+ℤ◌, arith,
}
use sistem_operasi.Websocket.{
  to_int, masked, length_bytes, frame_encode, Frame, read_length, mask_bytes, check_total,
  frame_decode,
}
use sistem_operasi.Websocket.Masking.{listed, length-masked, mask_list, mask_list-masked}

to_int-small : (n : ℕ) → n < 2147483648 → to_int n ≡ pos n
to_int-small n h =
    let same : n % 2 ^ 32 ≡ n = omega arith in
    let low : ltb n (2 ^ 31) ≡ true = ground arith in rw (same, low) refl

-- The length of a frame that is whole.
total_lem : (plen hdr : ℕ) → plen < 65536 → pos hdr +ℤ to_int plen ≡ pos (hdr + plen)
total_lem plen hdr small = ap (λ n. pos hdr +ℤ n) (to_int-small plen (omega arith)) ∙ ground arith

-- What `frame_decode` gives when it knows the length and the frame is whole.
frame_decode-whole :
    (buf : List ℕ) (plen hdr : ℕ)
    → plen < 65536
    → 2 ≤ length buf
    → get_or buf 1 0 / 128 % 2 ≡ 1
    → read_length buf ≡ some (plen, hdr)
    → hdr + 4 + plen ≤ length buf
    → frame_decode buf
      ≡ some (record {
        opcode = get_or buf 0 0 % 16;
        payload = drop (hdr + 4) buf;
        plen = plen;
        consumed = pos (hdr + 4 + plen);
      })
unfolding frame_decode
frame_decode-whole buf plen hdr small long is_masked e fits =
    let two : ltb (length buf) 2 ≡ false = ground arith in
    let four : mask_bytes (get_or buf 1 0) ≡ 4 = ground (arith, is_masked) in
    let whole : ltb_ℤ (pos (length buf)) (pos (hdr + 4 + plen)) ≡ false = ground arith in
    let run : frame_decode buf
        ≡ check_total buf plen (hdr + mask_bytes (get_or buf 1 0))
            (pos (hdr + mask_bytes (get_or buf 1 0)) +ℤ to_int plen) =
      rw (two, e, frame_decode) refl in
    run
    ∙ ap (λ m. check_total buf plen (hdr + m) (pos (hdr + m) +ℤ to_int plen)) four
    ∙ ap (check_total buf plen (hdr + 4)) (total_lem plen (hdr + 4) small)
    ∙ rw whole refl

frame_encode-room :
    (high : List ℕ) (outmax opcode : ℕ) (payload : ℕ → ℕ) (plen : ℕ) (mask : List ℕ)
    → plen < 65536
    → plen + 10 ≤ outmax
    → frame_encode high outmax opcode payload plen mask
      ≡ some
          ((128 + opcode % 16) ∷ (length_bytes high plen ++ (mask ++ masked payload mask plen 0)))
unfolding frame_encode
frame_encode-room high outmax opcode payload plen mask small room =
    let fits : ltb_ℤ (pos outmax) (to_int (plen + 10)) ≡ false =
      ap (ltb_ℤ (pos outmax)) (to_int-small (plen + 10) (omega arith)) ∙ ground arith in
    rw fits refl

read_length-short :
    (plen b : ℕ) (rest : List ℕ)
    → plen ≤ 125
    → read_length (b ∷ (128 + plen) ∷ rest) ≡ some (plen, 2)
read_length-short plen b rest h =
    let len : (128 + plen) % 128 ≡ plen = omega arith in
    let no_word : (plen == 126) ≡ false = ground arith in
    let no_long : (plen == 127) ≡ false = ground arith in rw (len, no_word, no_long) refl

read_length-word :
    (plen b : ℕ) (rest : List ℕ)
    → read_length (b ∷ 0xFE ∷ plen / 256 ∷ plen % 256 ∷ rest) ≡ some (plen, 4)
read_length-word plen b rest =
    let enough : ltb (length (b ∷ 0xFE ∷ plen / 256 ∷ plen % 256 ∷ rest)) 4 ≡ false =
      ground arith in
    let len : plen / 256 * 256 + plen % 256 ≡ plen = omega arith in rw (enough, len) refl

-- What encoding and decoding give together: the frame has room, is consumed whole, and has the opcode,
-- the length and, behind the mask, the payload.
pub record Carries (opcode : ℕ) (payload : ℕ → ℕ) (plen : ℕ) (mask f : List ℕ) (fr : Frame)
    : Type 0 where
  pub decoded : frame_decode f ≡ some fr
  pub all : fr.consumed ≡ pos (length f)
  pub code : fr.opcode ≡ opcode
  pub len : fr.plen ≡ plen
  pub bytes : mask_list mask fr.payload 0 ≡ listed payload plen 0

-- A frame whose payload lies behind a header of `hdr` bytes and the mask.
framed :
    (opcode : ℕ) (payload : ℕ → ℕ) (plen : ℕ) (mask f : List ℕ) (hdr : ℕ)
    → opcode < 16
    → ((i : ℕ) → payload i < 256)
    → plen < 65536
    → length f ≡ hdr + 4 + plen
    → 2 ≤ hdr
    → get_or f 0 0 ≡ 128 + opcode
    → get_or f 1 0 / 128 % 2 ≡ 1
    → read_length f ≡ some (plen, hdr)
    → drop (hdr + 4) f ≡ masked payload mask plen 0
    → (fr : Frame) × Carries opcode payload plen mask f fr
framed opcode payload plen mask f hdr op h small total two first is_masked len behind = (
  record {
    opcode = get_or f 0 0 % 16;
    payload = drop (hdr + 4) f;
    plen = plen;
    consumed = pos (hdr + 4 + plen);
  },
  record {
    decoded = frame_decode-whole f plen hdr small (omega arith) is_masked len (omega arith);
    all = ap pos (sym total);
    code = omega arith;
    len = refl;
    bytes = ap (λ xs. mask_list mask xs 0) behind ∙ mask_list-masked payload mask plen 0 h;
  },
)

-- A payload of at most 65,535 bytes, encoded with a mask of four bytes into a buffer that has room for
-- ten bytes more, fits; decoding the frame gives its opcode and its payload, still masked, and uses it
-- up.
pub frame_decode-frame_encode :
    (high : List ℕ) (outmax opcode : ℕ) (payload : ℕ → ℕ) (plen a b c d : ℕ)
    → opcode < 16
    → ((i : ℕ) → payload i < 256)
    → plen < 65536
    → plen + 10 ≤ outmax
    → let mask : List ℕ = a ∷ b ∷ c ∷ d ∷ [] in
      (f : List ℕ) × (frame_encode high outmax opcode payload plen mask ≡ some f)
      × (length f ≤ outmax)
      × ((fr : Frame) × Carries opcode payload plen mask f fr)
frame_decode-frame_encode high outmax opcode payload plen a b c d op h small room =
    let mask : List ℕ = a ∷ b ∷ c ∷ d ∷ [] in
    let body = masked payload mask plen 0 in
    let size = length-masked payload mask plen 0 in
    let encoded = frame_encode-room high outmax opcode payload plen mask small room in
    elim (Bool-cases (leb plen 125)) [
      | inl e ↦
          let header : length_bytes high plen ≡ (128 + plen) ∷ [] = rw e refl in
          let f : List ℕ = (128 + opcode % 16) ∷ (128 + plen) ∷ (mask ++ body) in
          let top : plen ≤ 125 = ground arith in
          (
            f,
            encoded ∙ ap (λ l. some ((128 + opcode % 16) ∷ (l ++ (mask ++ body)))) header,
            omega arith,
            framed opcode payload plen mask f 2 op h small (omega arith) (omega arith) (omega arith)
                (omega arith) (read_length-short plen (128 + opcode % 16) (mask ++ body) top) refl,
          )
      | inr e ↦
          let word : leb plen 65535 ≡ true = ground arith in
          let header : length_bytes high plen ≡ 0xFE ∷ plen / 256 ∷ plen % 256 ∷ [] =
            rw (e, word) refl in
          let f : List ℕ = (128 + opcode % 16) ∷ 0xFE ∷ plen / 256 ∷ plen % 256 ∷ (mask ++ body) in
          (
            f,
            encoded ∙ ap (λ l. some ((128 + opcode % 16) ∷ (l ++ (mask ++ body)))) header,
            omega arith,
            framed opcode payload plen mask f 4 op h small (omega arith) (omega arith) (omega arith)
                refl (read_length-word plen (128 + opcode % 16) (mask ++ body)) refl,
          )
    ]
