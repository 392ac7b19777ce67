-- ===== src/Tests/Codec.antt =====
-- websocket.c on concrete frames.
use sistem_operasi.Base.{ℕ, ◌≡◌, ◌≤◌, ◌<◌, refl, some, List, [], ◌∷◌, length, pos, arith}
use sistem_operasi.Websocket.{frame_encode, frame_decode, Frame}
use sistem_operasi.Websocket.Roundtrip.{frame_decode-frame_encode, Carries}
use sistem_operasi.Websocket.Overlong.{ping, ping-overflows}

abbrev letter : ℕ → ℕ
letter i = 65

frame_decode-frame_encode_example :
    let mask : List ℕ = 18 ∷ 52 ∷ 86 ∷ 120 ∷ [] in
    (f : List ℕ) × (frame_encode [] 512 1 letter 3 mask ≡ some f)
    × (length f ≤ 512)
    × ((fr : Frame) × Carries 1 letter 3 mask f fr)
frame_decode-frame_encode_example =
    frame_decode-frame_encode [] 512 1 letter 3 18 52 86 120 (omega arith) (λ i. omega arith)
      (omega arith) (omega arith)

-- Three letters, masked.
frame :
    frame_encode [] 512 1 letter 3 (18 ∷ 52 ∷ 86 ∷ 120 ∷ [])
    ≡ some (129 ∷ 131 ∷ 18 ∷ 52 ∷ 86 ∷ 120 ∷ 83 ∷ 117 ∷ 23 ∷ [])
unfolding frame_encode
frame = refl

ping-overflows_example :
    (fr : Frame) × (frame_decode (ping 9) ≡ some fr)
    × (fr.opcode ≡ 9)
    × (fr.consumed ≡ pos 9)
    × ((f : List ℕ) × (frame_encode [] 32 0xA letter fr.plen (1 ∷ 2 ∷ 3 ∷ 4 ∷ []) ≡ some f)
        × (32 < length f))
ping-overflows_example = ping-overflows [] letter (1 ∷ 2 ∷ 3 ∷ 4 ∷ []) 9 (omega arith) (omega arith)
