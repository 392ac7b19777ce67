-- ===== src/Net/Calls.antt =====
-- The calls of src/kernel/net.c for its clients, and its timer. A call that polls for packets is split
-- there: the polls are steps of `net_process` in between.
use sistem_operasi.Base.{
  ℕ, zero, suc, ◌+◌, ◌-◌, ◌*◌, ◌%◌, ◌^◌, Bool, true, false, ◌&&◌, ◌||◌, not, Option, none, some,
  List, [], ◌∷◌, ◌++◌, ℤ, pos, negsuc, minus_one, index_below, get_or, modify, take, drop, length,
  if◌then◌else◌, ltb, leb, ◌==◌, find_index,
}
use sistem_operasi.Ring.{Ring, pop}
use sistem_operasi.Net.{
  TcpState, Conn, Listen, State, rx_size, tx_size, keepalive_idle, conn_at, on_conn, meq,
}
use sistem_operasi.Net.Arp.{arp_cache_put, arp_send_reply}
use sistem_operasi.Net.Segment.{fin, syn, psh, ack, tcp_tx, word16_at, bytes_at, read_segment}
use sistem_operasi.Net.Receive.{add32, is_state, tcp_rx_process, free_listen, listen_at}

-- `net_process`: true where an ICMP echo reply came from `expected`. A null `expect_src` is `none`;
-- the comparison, which then reads address 0, is taken to fail.
abbrev pub is_from : Option (List ℕ) → List ℕ → Bool
is_from none ip = false
is_from (some expected) ip = meq ip expected

unfoldable pub process_arp : List ℕ → State → State
process_arp pkt s =
    let oper = word16_at 20 pkt in
    let mac = bytes_at 22 6 pkt in
    let ip = bytes_at 28 4 pkt in
    if oper == 2
    then record s { arp = arp_cache_put ip mac s.arp }
    else if oper == 1 && meq (bytes_at 38 4 pkt) s.my_ip
    then arp_send_reply mac ip s
    else s

unfoldable pub process_ip : Option (List ℕ) → ℕ → List ℕ → State → State × Bool
process_ip expected now pkt s =
    let ihl = get_or pkt 14 0 % 16 * 4 in
    let proto = get_or pkt 23 0 in
    let pay_len = word16_at 16 pkt - ihl in
    let ip = bytes_at 26 4 pkt in
    let s1 = record s { arp = arp_cache_put ip (bytes_at 6 6 pkt) s.arp } in
    if proto == 1 && (leb 8 pay_len && (get_or pkt (14 + ihl) 0 == 0 && is_from expected ip))
    then (s1, true)
    else if proto == 6 && leb 20 pay_len
    then (tcp_rx_process now (read_segment pkt (14 + ihl) pay_len) s1, false)
    else (s1, false)

unfoldable pub net_process : Option (List ℕ) → ℕ → List ℕ → State → State × Bool
net_process expected now pkt s =
    let etype = word16_at 12 pkt in
    if ltb (length pkt) 14
    then (s, false)
    else if etype == 0x0806 && leb 42 (length pkt)
    then (process_arp pkt s, false)
    else if etype == 0x0800 && leb 34 (length pkt)
    then process_ip expected now pkt s
    else (s, false)

-- `net_tcp_listen`
abbrev pub listening : ℕ → Listen
listening port = record free_listen { active = true; port = port }

unfoldable pub tcp_listen : ℕ → State → State × ℤ
tcp_listen port s = elim (find_index (λ (l : Listen). not l.active) s.listens) [
  | none ↦ (s, minus_one)
  | some i ↦ (record s { listens = modify s.listens i (λ _. listening port) }, pos i)
]

-- The check of `net_tcp_accept`; `none` is -2.
unfoldable pub accept_check : ℤ → State → Option ℕ
accept_check lid s = elim (index_below 2 lid) [
  | none ↦ none
  | some i ↦ if (listen_at s i).active then some i else none
]

-- What it does after each poll: the oldest connection of the queue, or `none` to go on.
unfoldable pub accept_poll : ℕ → State → State × Option ℤ
accept_poll i s =
    let l = listen_at s i in
    let l' = record l { aq_head = (l.aq_head + 1) % 2; aq_count = l.aq_count - 1 } in
    if ltb 0 l.aq_count
    then (
      record s { listens = modify s.listens i (λ _. l') },
      some (get_or l.accept_q l.aq_head minus_one),
    )
    else (s, none)

unfoldable pub tcp_unlisten : ℤ → State → State
tcp_unlisten lid s = elim (index_below 2 lid) [
  | none ↦ s
  | some i ↦ record s { listens = modify s.listens i (λ l. record l { active = false }) }
]

-- The ephemeral port that follows.
abbrev pub next_port : ℕ → ℕ
next_port p = let q = (p + 1) % 65536 in if ltb q 49152 then 49152 else q

-- `net_tcp_connect` when the address of the next hop is known: the connection that sends SYN.
abbrev pub connecting : List ℕ → List ℕ → ℕ → ℕ → ℕ → Conn → Conn
connecting ip mac port src_port now c = record c {
  dst_mac = mac;
  dst_ip = ip;
  dst_port = port;
  src_port = src_port;
  snd_nxt = (0x12340000 + src_port * 131) % 2 ^ 32;
  rcv_nxt = 0;
  rx = record { slots = c.rx.slots; head = 0; tail = 0 };
  fin_recv = false;
  rst_recv = false;
  tx_len = 0;
  tx_seq = 0;
  retrans_tick = 0;
  retrans_count = 0;
  ooo_len = 0;
  ooo_seq = 0;
  last_rx_tick = now;
  ka_probes = 0;
  ka_next_tick = add32 now keepalive_idle;
  state = TcpState.syn_sent;
  used = true;
}

-- The slot is chosen before the address is resolved.
abbrev pub connect_slot : State → Option ℕ
connect_slot s = find_index (λ (c : Conn). not c.used) s.conns

unfoldable pub connect_syn : ℕ → List ℕ → List ℕ → ℕ → ℕ → State → State
connect_syn i ip mac port now s =
    let c = connecting ip mac port s.port_ctr now (conn_at s i) in
    let s1 = record s { port_ctr = next_port s.port_ctr } in
    tcp_tx c syn c.snd_nxt 0 [] (on_conn i (λ _. record c { snd_nxt = add32 c.snd_nxt 1 }) s1)

-- After each poll: the connection's number, or `none` to go on.
unfoldable pub connect_poll : ℕ → State → Option ℤ
connect_poll i s = if is_state (conn_at s i).state TcpState.established then some (pos i) else none

-- At the end of the wait, or as soon as the slot is free: -2 for a refusal and -1 for a timeout.
unfoldable pub connect_fail : ℕ → State → State × ℤ
connect_fail i s = (
  on_conn i (λ c. record c { used = false; state = TcpState.closed }) s,
  if (conn_at s i).rst_recv then negsuc 1 else minus_one,
)

-- The connection after `net_tcp_send` of `chunk`.
abbrev pub sending : List ℕ → ℕ → Conn → Conn
sending chunk now c = record c {
  tx_seq = c.snd_nxt;
  tx_len = length chunk;
  tx_buf = chunk ++ drop (length chunk) c.tx_buf;
  retrans_tick = now;
  retrans_count = 0;
  snd_nxt = add32 c.snd_nxt (length chunk);
}

unfoldable pub tcp_send : ℤ → List ℕ → ℕ → State → State × ℤ
tcp_send id payload now s = elim (index_below 4 id) [
  | none ↦ (s, minus_one)
  | some i ↦
      let c = conn_at s i in
      let chunk = take tx_size payload in
      if c.used && is_state c.state TcpState.established
      then (
        on_conn i (sending chunk now) (tcp_tx c (psh + ack) c.snd_nxt c.rcv_nxt chunk s),
        pos (length chunk),
      )
      else (s, minus_one)
]

-- The copying loop of `net_tcp_recv`, for `n` bytes at most.
unfoldable pub rx_pop : ℕ → Ring ℕ → Ring ℕ × List ℕ
rx_pop zero r = (r, [])
rx_pop (suc n) r = elim (pop rx_size 0 r) [
  | none ↦ (r, [])
  | some (b, r') ↦ let (r'', bs) = rx_pop n r' in (r'', b ∷ bs)
]

abbrev pub is_over : Conn → Bool
is_over c =
    c.fin_recv
    || (is_state c.state TcpState.close_wait || (is_state c.state TcpState.closed || not c.used))

-- After each poll of `net_tcp_recv`: the bytes, none at the end, or `none` to go on.
unfoldable pub recv_poll : ℕ → ℕ → State → State × Option (List ℕ)
recv_poll i max s =
    let c = conn_at s i in
    let (r, bytes) = rx_pop max c.rx in
    if not (c.rx.head == c.rx.tail)
    then (on_conn i (λ c. record c { rx = r }) s, some bytes)
    else if is_over c
    then (s, some [])
    else (s, none)

-- `net_tcp_close` of a connection in use, up to its polls.
abbrev pub waiting : TcpState → Conn → Conn
waiting state c = record c { snd_nxt = add32 c.snd_nxt 1; state = state }

unfoldable pub close_fin : ℕ → State → State
close_fin i s =
    let c = conn_at s i in
    let sent = tcp_tx c (fin + ack) c.snd_nxt c.rcv_nxt [] s in
    if is_state c.state TcpState.established
    then on_conn i (waiting TcpState.fin_wait1) sent
    else if is_state c.state TcpState.close_wait
    then on_conn i (waiting TcpState.last_ack) sent
    else s

unfoldable pub close_end : ℕ → State → State
close_end i s = on_conn i (λ c. record c { used = false; state = TcpState.closed }) s

unfoldable pub tcp_state : ℤ → State → TcpState
tcp_state id s = elim (index_below 4 id) [
  | none ↦ TcpState.closed
  | some i ↦ if (conn_at s i).used then (conn_at s i).state else TcpState.closed
]
