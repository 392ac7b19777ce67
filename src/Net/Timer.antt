-- ===== src/Net/Timer.antt =====
-- The timer of src/kernel/net.c: `net_tcp_tick`, which sends unacknowledged data again and probes
-- connections that are idle.
use sistem_operasi.Base.{
  ℕ, zero, suc, ◌+◌, ◌-◌, ◌%◌, ◌^◌, Bool, false, ◌&&◌, not, List, [], ◌∷◌, take, if◌then◌else◌, ltb,
  leb,
}
use sistem_operasi.Net.{
  TcpState, Conn, State, rto, max_retrans, keepalive_idle, keepalive_intvl, keepalive_cnt, conn_at,
  on_conn,
}
use sistem_operasi.Net.Segment.{rst, psh, ack, tcp_tx}
use sistem_operasi.Net.Receive.{add32, is_state}

-- `now - then` of two `uint32_t`.
abbrev pub elapsed : ℕ → ℕ → ℕ
elapsed now since = (now + 2 ^ 32 - since) % 2 ^ 32

-- A segment that the timer sends.
pub record Sent : Type 0 where
  pub flags : ℕ
  pub seq : ℕ
  pub ack_no : ℕ
  pub payload : List ℕ

abbrev pub give_up : Conn → Conn × List Sent
give_up c = (
  record c { used = false; state = TcpState.closed },
  record { flags = rst + ack; seq = c.snd_nxt; ack_no = c.rcv_nxt; payload = [] } ∷ [],
)

-- The probe of an idle connection, or its end.
unfoldable pub keepalive : ℕ → Conn → Conn × List Sent
keepalive now c =
    let probe : Sent = record {
      flags = ack;
      seq = (c.snd_nxt + 2 ^ 32 - 1) % 2 ^ 32;
      ack_no = c.rcv_nxt;
      payload = [];
    } in
    if leb keepalive_idle (elapsed now c.last_rx_tick) && leb c.ka_next_tick now
    then (if leb keepalive_cnt c.ka_probes then give_up c else (
      record c { ka_probes = c.ka_probes + 1; ka_next_tick = add32 now keepalive_intvl },
      probe ∷ [],
    ))
    else (c, [])

abbrev pub is_due : ℕ → Conn → Bool
is_due now c = ltb 0 c.tx_len && leb rto (elapsed now c.retrans_tick)

-- One connection of the loop.
unfoldable pub tick_conn : ℕ → Conn → Conn × List Sent
tick_conn now c =
    let again : Sent = record {
      flags = psh + ack;
      seq = c.tx_seq;
      ack_no = c.rcv_nxt;
      payload = take c.tx_len c.tx_buf;
    } in
    let (c1, probes) =
      keepalive now (record c { retrans_tick = now; retrans_count = c.retrans_count + 1 }) in
    if not (c.used && is_state c.state TcpState.established)
    then (c, [])
    else if is_due now c
    then (if leb max_retrans c.retrans_count then give_up c else (c1, again ∷ probes))
    else keepalive now c

unfoldable pub send_each : Conn → List Sent → State → State
send_each c [] s = s
send_each c (k ∷ ks) s = send_each c ks (tcp_tx c k.flags k.seq k.ack_no k.payload s)

-- The loop over `n` connections from number `i` on.
unfoldable pub tick_from : ℕ → ℕ → ℕ → State → State
tick_from zero i now s = s
tick_from (suc n) i now s =
    let (c, ks) = tick_conn now (conn_at s i) in
    tick_from n (suc i) now (send_each c ks (on_conn i (λ _. c) s))

-- `net_tcp_tick` with a network card.
unfoldable pub tcp_tick : ℕ → State → State
tcp_tick now s = tick_from 4 0 now s
