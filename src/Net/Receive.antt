-- ===== src/Net/Receive.antt =====
-- One incoming TCP segment: `tcp_rx_process` of src/kernel/net.c. What a connection does is a new
-- connection and the control segments that it sends, oldest first.
use sistem_operasi.Base.{
  ℕ, ◌+◌, ◌-◌, ◌%◌, ◌^◌, Bool, true, false, ◌&&◌, not, none, some, List, [], ◌∷◌, ◌++◌, pos,
  minus_one, get_or, modify, set, take, drop, length, if◌then◌else◌, ltb, leb, ◌==◌, find_index,
}
use sistem_operasi.Ring.{Ring, push}
use sistem_operasi.Net.{
  TcpState, Conn, Listen, State, rx_size, tx_size, keepalive_idle, conn_at, on_conn, free_conn, meq,
}
use sistem_operasi.Net.Segment.{Segment, has_flag, fin, syn, rst, ack, tcp_tx}

-- Flags, sequence and acknowledgement numbers of a segment without payload.
pub record Control : Type 0 where
  pub flags : ℕ
  pub seq : ℕ
  pub ack_no : ℕ

-- `tcp_rx_push`: bytes for which there is no room are dropped.
unfoldable pub rx_push : Ring ℕ → List ℕ → Ring ℕ
rx_push r [] = r
rx_push r (b ∷ bs) = elim (push rx_size r b) [ none ↦ r | some r' ↦ rx_push r' bs ]

abbrev pub is_state : TcpState → TcpState → Bool
is_state TcpState.closed TcpState.closed = true
is_state TcpState.syn_sent TcpState.syn_sent = true
is_state TcpState.established TcpState.established = true
is_state TcpState.fin_wait1 TcpState.fin_wait1 = true
is_state TcpState.fin_wait2 TcpState.fin_wait2 = true
is_state TcpState.close_wait TcpState.close_wait = true
is_state TcpState.last_ack TcpState.last_ack = true
is_state TcpState.time_wait TcpState.time_wait = true
is_state _ _ = false

-- `(int32_t)(a - b) >= 0`
abbrev pub is_at_or_after : ℕ → ℕ → Bool
is_at_or_after a b = ltb ((a + 2 ^ 32 - b % 2 ^ 32) % 2 ^ 32) (2 ^ 31)

abbrev pub add32 : ℕ → ℕ → ℕ
add32 a b = (a + b) % 2 ^ 32

abbrev pub plain_ack : Conn → Control
plain_ack c = record { flags = ack; seq = c.snd_nxt; ack_no = c.rcv_nxt }

-- SYN_SENT waits for SYN and ACK.
unfoldable pub receive_syn_ack : Segment → Conn → Conn × List Control
receive_syn_ack g c =
    let c' = record c {
      rcv_nxt = add32 g.seq 1;
      snd_nxt = g.ack_no;
      state = TcpState.established;
    } in
    if has_flag g.flags syn && has_flag g.flags ack then (c', plain_ack c' ∷ []) else (c, [])

-- The retransmission buffer is given up when all of it is acknowledged.
abbrev pub clear_tx : Segment → Conn → Conn
clear_tx g c =
    if ltb 0 c.tx_len && is_at_or_after g.ack_no (c.tx_seq + c.tx_len)
    then record c { tx_len = 0 }
    else c

unfoldable pub receive_ack : Segment → Conn → Conn
receive_ack g c =
    let c1 = clear_tx g c in
    if has_flag g.flags ack
    then (if is_state c1.state TcpState.fin_wait1 && g.ack_no == c1.snd_nxt
        then record c1 { state = TcpState.fin_wait2 }
        else record c1 { snd_nxt = g.ack_no })
    else c

-- Data in order, and then the stored segment if it is the next one.
abbrev pub join_stored : Conn → Conn
join_stored c =
    if ltb 0 c.ooo_len && c.ooo_seq == c.rcv_nxt
    then record c {
      rx = rx_push c.rx (take c.ooo_len c.ooo_buf);
      rcv_nxt = add32 c.rcv_nxt c.ooo_len;
      ooo_len = 0;
    }
    else c

unfoldable pub receive_in_order : List ℕ → Conn → Conn
receive_in_order bytes c =
    join_stored (record c { rx = rx_push c.rx bytes; rcv_nxt = add32 c.rcv_nxt (length bytes) })

-- One segment out of order is kept.
unfoldable pub store_segment : ℕ → List ℕ → Conn → Conn
store_segment seq bytes c =
    if c.ooo_len == 0
    then record c {
      ooo_buf = bytes ++ drop (length bytes) c.ooo_buf;
      ooo_len = length bytes;
      ooo_seq = seq;
    }
    else c

abbrev pub mark_alive : ℕ → Conn → Conn
mark_alive now c = record c {
  last_rx_tick = now;
  ka_probes = 0;
  ka_next_tick = add32 now keepalive_idle;
}

unfoldable pub receive_payload : ℕ → Segment → Conn → Conn × List Control
receive_payload now g c =
    let c1 = mark_alive now c in
    let c2 =
      if g.seq == c.rcv_nxt
      then receive_in_order g.payload c1
      else if ltb c.rcv_nxt g.seq && leb (length g.payload) tx_size
      then store_segment g.seq g.payload c1
      else c1 in
    if ltb 0 (length g.payload) && is_state c.state TcpState.established
    then (c2, plain_ack c2 ∷ [])
    else (c, [])

abbrev pub after_fin : TcpState → TcpState
after_fin TcpState.established = TcpState.close_wait
after_fin _ = TcpState.time_wait

unfoldable pub receive_fin : Segment → Conn → Conn × List Control
receive_fin g c =
    let c' = record c { rcv_nxt = add32 c.rcv_nxt 1; fin_recv = true } in
    if has_flag g.flags fin
    then (record c' { state = after_fin c.state }, plain_ack c' ∷ [])
    else (c, [])

-- ESTABLISHED, FIN_WAIT1 and FIN_WAIT2: the acknowledgement, the payload, the end.
unfoldable pub receive_open : ℕ → Segment → Conn → Conn × List Control
receive_open now g c =
    let (c1, acks) = receive_payload now g (receive_ack g c) in
    let (c2, more) = receive_fin g c1 in (c2, acks ++ more)

unfoldable pub receive_state : TcpState → ℕ → Segment → Conn → Conn × List Control
receive_state TcpState.syn_sent now g c = receive_syn_ack g c
receive_state TcpState.established now g c = receive_open now g c
receive_state TcpState.fin_wait1 now g c = receive_open now g c
receive_state TcpState.fin_wait2 now g c = receive_open now g c
receive_state TcpState.last_ack now g c =
    if has_flag g.flags ack
    then (record c { used = false; state = TcpState.closed }, [])
    else (c, [])
receive_state _ now g c = (c, [])

-- The control segments of a connection, sent one by one.
unfoldable pub send_all : Conn → List Control → State → State
send_all c [] s = s
send_all c (k ∷ ks) s = send_all c ks (tcp_tx c k.flags k.seq k.ack_no [] s)

-- The connection of a segment: the same ports and address.
abbrev pub is_for : Segment → Conn → Bool
is_for g c =
    c.used && (c.src_port == g.local_port && (c.dst_port == g.remote_port && meq c.dst_ip g.src_ip))

abbrev pub reset_conn : Conn → Conn
reset_conn c = record c { rst_recv = true; state = TcpState.closed; used = false }

-- `tcp_send_rst_reply`, from a connection that holds the addresses only.
unfoldable pub send_rst_reply : Segment → State → State
send_rst_reply g s =
    let c = record free_conn {
      dst_ip = g.src_ip;
      dst_mac = g.src_mac;
      src_port = g.local_port;
      dst_port = g.remote_port;
    } in
    tcp_tx c (rst + ack) 0 (add32 g.seq 1) [] s

-- The new connection of an inbound SYN.
abbrev pub accepted : ℕ → Segment → Conn → Conn
accepted now g c = record c {
  dst_ip = g.src_ip;
  dst_mac = g.src_mac;
  src_port = g.local_port;
  dst_port = g.remote_port;
  rcv_nxt = add32 g.seq 1;
  snd_nxt = 0xAC000001;
  state = TcpState.established;
  used = true;
  fin_recv = false;
  rst_recv = false;
  tx_len = 0;
  rx = record { slots = c.rx.slots; head = 0; tail = 0 };
  ooo_len = 0;
  ka_probes = 0;
  last_rx_tick = now;
  ka_next_tick = add32 now keepalive_idle;
}

-- `accept_q[aq_tail] = ci`, and the count.
abbrev pub enqueue : ℕ → Listen → Listen
enqueue i l = record l {
  accept_q = set l.accept_q l.aq_tail (pos i);
  aq_tail = (l.aq_tail + 1) % 2;
  aq_count = l.aq_count + 1;
}

unfoldable pub accept_syn : ℕ → Segment → ℕ → ℕ → State → State
accept_syn now g li ci s =
    let c = accepted now g (conn_at s ci) in
    let s1 = on_conn ci (λ _. record c { snd_nxt = c.snd_nxt + 1 }) s in
    let s2 = tcp_tx c (syn + ack) (c.snd_nxt - 1) c.rcv_nxt [] s1 in
    record s2 { listens = modify s2.listens li (enqueue ci) }

abbrev pub free_listen : Listen
free_listen = record {
  active = false;
  port = 0;
  accept_q = minus_one ∷ minus_one ∷ [];
  aq_head = 0;
  aq_tail = 0;
  aq_count = 0;
}

abbrev pub listen_at : State → ℕ → Listen
listen_at s i = get_or s.listens i free_listen

-- A SYN to a port with a listener: refused with RST where its queue or the table is full.
unfoldable pub receive_syn : ℕ → Segment → State → State
receive_syn now g s =
    elim (find_index (λ (l : Listen). l.active && l.port == g.local_port) s.listens) [
      | none ↦ s
      | some li ↦
          if leb 2 (listen_at s li).aq_count
          then send_rst_reply g s
          else elim (find_index (λ (c : Conn). not c.used) s.conns) [
            | none ↦ send_rst_reply g s
            | some ci ↦ accept_syn now g li ci s
          ]
    ]

abbrev pub receive_any_syn : ℕ → Segment → State → State
receive_any_syn now g s =
    if has_flag g.flags syn && not (has_flag g.flags ack) then receive_syn now g s else s

-- `tcp_rx_process`
unfoldable pub tcp_rx_process : ℕ → Segment → State → State
tcp_rx_process now g s = elim (find_index (is_for g) s.conns) [
  | none ↦ receive_any_syn now g s
  | some i ↦
      let c = conn_at s i in
      let (c', ks) = receive_state c.state now g c in
      if has_flag g.flags rst
      then on_conn i reset_conn s
      else receive_any_syn now g (send_all c' ks (on_conn i (λ _. c') s))
]
