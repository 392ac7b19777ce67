-- ===== src/Net/Losses.antt =====
-- Where a TCP connection of src/kernel/net.c loses bytes.
use sistem_operasi.Base.{
  ℕ, ◌+◌, ◌^◌, ◌<◌, ◌≤◌, ◌≡◌, refl, sym, ◌∙◌, true, false, List, arith, length, lt→ltb,
}
use sistem_operasi.Ring.Queue.{count}
use sistem_operasi.Net.{TcpState, Conn}
use sistem_operasi.Net.Segment.{Segment, has_flag, ack}
use sistem_operasi.Net.Receive.{
  add32, receive_in_order, receive_payload, receive_ack, is_at_or_after,
}
use sistem_operasi.Net.Calls.{sending}
use sistem_operasi.Net.Stream.{Receives, rx_push-full, in_order-eq, Acks}

-- When the buffer is full, a segment in order is acknowledged as received although none of its bytes is
-- kept: the buffer is as it was, and the next number expected lies behind the lost bytes.
pub receive_payload-drops :
    (now : ℕ) (g : Segment) (c : Conn) (q : List ℕ) (n : ℕ)
    → Receives c q n
    → count 4096 c.rx ≡ 4095
    → c.ooo_len ≡ 0
    → g.seq ≡ n
    → 0 < length g.payload
    → n + length g.payload < 2 ^ 32
    → let (c', ks) = receive_payload now g c in
      Receives c' q (n + length g.payload) × Acks (n + length g.payload) ks
unfolding receive_in_order
receive_payload-drops now g c q n h full none_stored gs some_bytes small =
    let run = in_order-eq now g c h.open_state (gs ∙ sym h.next) some_bytes in
    let next : add32 c.rcv_nxt (length g.payload) ≡ n + length g.payload =
      rw h.next (omega arith) in
    rw (run, none_stored, rx_push-full g.payload c.rx h.ring full)
      (
        record { open_state = h.open_state; ring = h.ring; queue = h.queue; next = next },
        (next, refl),
      )

-- After `net_tcp_send` of a chunk, a segment that acknowledges only what was sent before it, as any
-- segment of the other side that crosses it does, sets the next number to send back to the chunk's own:
-- the next chunk will have the number of the one that is still unacknowledged.
pub receive_ack-rewinds :
    (chunk : List ℕ) (now : ℕ) (g : Segment) (c : Conn)
    → c.state ≡ TcpState.established
    → 0 < length chunk
    → length chunk ≤ 1400
    → c.snd_nxt < 2 ^ 32
    → has_flag g.flags ack ≡ true
    → g.ack_no ≡ c.snd_nxt
    → let c' = receive_ack g (sending chunk now c) in
      (c'.snd_nxt ≡ c.snd_nxt) × (c'.tx_seq ≡ c.snd_nxt) × (c'.tx_len ≡ length chunk)
unfolding receive_ack
receive_ack-rewinds chunk now g c st some_bytes short small flag old =
    let before : is_at_or_after g.ack_no (c.snd_nxt + length chunk) ≡ false =
      rw old (ground arith) in
    rw (flag, lt→ltb 0 (length chunk) some_bytes, before, st) (old, refl, refl)
