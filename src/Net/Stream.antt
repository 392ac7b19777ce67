-- ===== src/Net/Stream.antt =====
-- The stream of bytes that a TCP connection of src/kernel/net.c receives.
use sistem_operasi.Base.{
  ℕ, ◌+◌, ◌<◌, ◌≤◌, ◌≡◌, refl, sym, ap, ◌∙◌, List, [], ◌∷◌, ◌++◌, append-nil, append_assoc, arith,
  length, length-append, take, lt→ltb, ==_refl,
}
use sistem_operasi.Ring.{Ring}
use sistem_operasi.Ring.Queue.{IsRing, count, contents, length-contents, push-room, push-full}
use sistem_operasi.Net.{TcpState, Conn}
use sistem_operasi.Net.Segment.{Segment}
use sistem_operasi.Net.Receive.{
  Control, rx_push, plain_ack, mark_alive, receive_in_order, receive_payload,
}

-- The connection is established, its buffer holds the bytes `q`, oldest first, and byte number `n` is
-- the next one.
pub record Receives (c : Conn) (q : List ℕ) (n : ℕ) : Type 0 where
  pub open_state : c.state ≡ TcpState.established
  pub ring : IsRing 4096 c.rx
  pub queue : contents 4096 0 c.rx ≡ q
  pub next : c.rcv_nxt ≡ n

pub rx_push-room :
    (bytes : List ℕ) (r : Ring ℕ) (q : List ℕ)
    → IsRing 4096 r
    → contents 4096 0 r ≡ q
    → length q + length bytes ≤ 4095
    → IsRing 4096 (rx_push r bytes) × (contents 4096 0 (rx_push r bytes) ≡ q ++ bytes)
unfolding rx_push
rx_push-room [] r q v e h = rw append-nil (v, e)
rx_push-room (b ∷ bytes) r q v e h =
    let l : count 4096 r ≡ length q = sym (length-contents 4096 0 r) ∙ ap length e in
    let (s, ok, w, e', _) = push-room 0 b r v (omega arith) in
    let joined : contents 4096 0 s ≡ q ++ (b ∷ []) = e' ∙ ap (λ xs. xs ++ (b ∷ [])) e in
    let more : length (q ++ (b ∷ [])) ≡ length q + 1 = length-append q (b ∷ []) in
    let (v', done) = rx_push-room bytes s (q ++ (b ∷ [])) w joined (omega arith) in
    rw (ok, rx_push) (v', done ∙ append_assoc q (b ∷ []) bytes)

-- Where there is no room at all, every byte is dropped.
pub rx_push-full :
    (bytes : List ℕ) (r : Ring ℕ) → IsRing 4096 r → count 4096 r ≡ 4095 → rx_push r bytes ≡ r
unfolding rx_push
rx_push-full [] r v h = refl
rx_push-full (b ∷ bytes) r v h = rw (push-full b r v (omega arith), rx_push) refl

-- A segment for which there is room.
module _ (now : ℕ) (g : Segment) (c : Conn) where
  pub in_order-eq :
      c.state ≡ TcpState.established
      → g.seq ≡ c.rcv_nxt
      → 0 < length g.payload
      → receive_payload now g c ≡ (
        receive_in_order g.payload (mark_alive now c),
        plain_ack (receive_in_order g.payload (mark_alive now c)) ∷ [],
      )
  unfolding receive_payload
  in_order-eq st same some_bytes =
      rw (same, ==_refl c.rcv_nxt, lt→ltb 0 (length g.payload) some_bytes, st) refl

-- The connection holds the segment `bytes` from byte number `m` on, out of order; none if it is empty.
pub record Stores (c : Conn) (bytes : List ℕ) (m : ℕ) : Type 0 where
  pub stored_len : c.ooo_len ≡ length bytes
  pub stored : take c.ooo_len c.ooo_buf ≡ bytes
  pub stored_at : c.ooo_seq ≡ m

-- An acknowledgement of the bytes before number `n`.
abbrev pub Acks : ℕ → List Control → Type 0
Acks n [] = ⊥
Acks n (k ∷ ks) = (k.ack_no ≡ n) × (ks ≡ [])
