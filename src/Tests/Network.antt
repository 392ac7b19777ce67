-- ===== src/Tests/Network.antt =====
-- net.c on concrete connections and caches.
use sistem_operasi.Net.Dns.{build_query, parse_response, labels_from, split_dot}
use sistem_operasi.Net.Names.{parse_response-build_query, reply}
use sistem_operasi.Base.{
  ℕ, ◌+◌, ◌%◌, ◌^◌, ◌≡◌, refl, true, some, List, [], ◌∷◌, ◌++◌, pos, replicate, arith, length,
  if◌then◌else◌, find_index,
}
use sistem_operasi.Ring.{Ring}
use sistem_operasi.Net
use sistem_operasi.Net.{TcpState, Conn, Listen, ArpEntry, free_conn, conn_at, meq, eth_hdr}
use sistem_operasi.Net.Arp.{free_entry, arp_cache_get, arp_cache_put}
use sistem_operasi.Net.Checksum.{inet_cksum, transport_cksum}
use sistem_operasi.Net.Segment.{Segment, ack, tcp_tx}
use sistem_operasi.Net.Receive.{
  receive_payload, receive_ack, receive_syn, free_listen, listen_at, is_for,
}
use sistem_operasi.Net.Calls.{sending, accept_poll}
use sistem_operasi.Net.Frames.{tcp_tx-verifies}
use sistem_operasi.Net.Stream.{Receives, Acks}
use sistem_operasi.Net.Losses.{receive_payload-drops, receive_ack-rewinds}
use sistem_operasi.Net.Cache.{get-put}
use sistem_operasi.Net.Accepts.{Queues, receive_syn-accepts}

-- An established connection that expects byte 1000, with the bytes 1 and 2 in its buffer.
abbrev buffer : Ring ℕ
buffer = record { slots = 1 ∷ 2 ∷ replicate 4094 0; head = 0; tail = 2 }

abbrev web : Conn
web = record free_conn {
  used = true;
  state = TcpState.established;
  dst_ip = 10 ∷ 0 ∷ 2 ∷ 2 ∷ [];
  dst_mac = 82 ∷ 84 ∷ 0 ∷ 18 ∷ 53 ∷ 2 ∷ [];
  src_port = 49152;
  dst_port = 80;
  snd_nxt = 500;
  rcv_nxt = 1000;
  rx = buffer;
}

abbrev host : Net.State
host = record {
  my_mac = 82 ∷ 84 ∷ 0 ∷ 18 ∷ 52 ∷ 86 ∷ [];
  my_ip = 10 ∷ 0 ∷ 2 ∷ 15 ∷ [];
  gw_ip = 10 ∷ 0 ∷ 2 ∷ 2 ∷ [];
  arp = replicate 8 free_entry;
  conns = web ∷ free_conn ∷ free_conn ∷ free_conn ∷ [];
  listens = record free_listen { active = true; port = 8080 } ∷ free_listen ∷ [];
  ip_id = 1;
  port_ctr = 49153;
  sent = [];
}

tcp_tx-verifies_example :
    (ip seg : List ℕ) × ((tcp_tx web 0x18 500 1000 (72 ∷ 105 ∷ 33 ∷ []) host).sent
      ≡ [] ++ ((eth_hdr web.dst_mac 0x0800 host ++ (ip ++ seg)) ∷ []))
    × (length ip ≡ 20)
    × (length seg ≡ 20 + 3)
    × (inet_cksum ip ≡ 0)
    × (transport_cksum host.my_ip web.dst_ip 6 seg ≡ 0)
tcp_tx-verifies_example =
    tcp_tx-verifies web 0x18 500 1000 (72 ∷ 105 ∷ 33 ∷ []) host (omega arith) (omega arith)
      (omega arith) (omega arith) refl refl (omega arith)

-- Segments of the peer: three bytes from byte 1000 on, and two from byte 1003 on.
abbrev segment : ℕ → List ℕ → Segment
segment seq payload = record {
  src_ip = 10 ∷ 0 ∷ 2 ∷ 2 ∷ [];
  src_mac = 82 ∷ 84 ∷ 0 ∷ 18 ∷ 53 ∷ 2 ∷ [];
  remote_port = 80;
  local_port = 49152;
  seq = seq;
  ack_no = 500;
  flags = ack;
  payload = payload;
}

-- The same connection with its buffer full of zeros.
abbrev full : Conn
full = record web { rx = record { slots = replicate 4096 0; head = 0; tail = 4095 } }

full-Receives : Receives full (replicate 4095 0) 1000
full-Receives = record { open_state = refl; ring = omega arith; queue = refl; next = refl }

receive_payload-drops_example :
    let (c', ks) = receive_payload 20 (segment 1000 (3 ∷ 4 ∷ [])) full in
    Receives c' (replicate 4095 0) 1002 × Acks 1002 ks
receive_payload-drops_example =
    receive_payload-drops 20 (segment 1000 (3 ∷ 4 ∷ [])) full (replicate 4095 0) 1000 full-Receives
      refl refl refl (omega arith) (omega arith)

receive_ack-rewinds_example :
    let c' = receive_ack (segment 1000 (3 ∷ [])) (sending (72 ∷ 105 ∷ []) 20 web) in
    (c'.snd_nxt ≡ 500) × (c'.tx_seq ≡ 500) × (c'.tx_len ≡ 2)
receive_ack-rewinds_example =
    receive_ack-rewinds (72 ∷ 105 ∷ []) 20 (segment 1000 (3 ∷ [])) web refl (omega arith)
      (omega arith) (omega arith) refl refl

abbrev unanswered : Conn
unanswered = record web { tx_buf = 72 ∷ 105 ∷ []; tx_len = 2; tx_seq = 498; retrans_tick = 100 }

abbrev six_ticks : List ℕ
six_ticks = 300 ∷ 500 ∷ 700 ∷ 900 ∷ 1100 ∷ 1300 ∷ []

abbrev gateway : ArpEntry
gateway = record { ip = 10 ∷ 0 ∷ 2 ∷ 2 ∷ []; mac = 1 ∷ 2 ∷ 3 ∷ 4 ∷ 5 ∷ 6 ∷ []; valid = true }

abbrev old_entry : ArpEntry
old_entry = record { ip = 10 ∷ 0 ∷ 2 ∷ 3 ∷ []; mac = []; valid = true }

get-put_example :
    arp_cache_get
      (10 ∷ 0 ∷ 2 ∷ 2 ∷ [])
      (arp_cache_put (10 ∷ 0 ∷ 2 ∷ 3 ∷ []) (9 ∷ []) (gateway ∷ old_entry ∷ []))
    ≡ (if meq (10 ∷ 0 ∷ 2 ∷ 3 ∷ []) (10 ∷ 0 ∷ 2 ∷ 2 ∷ [])
        then some (9 ∷ [])
        else arp_cache_get (10 ∷ 0 ∷ 2 ∷ 2 ∷ []) (gateway ∷ old_entry ∷ []))
unfolding find_index meq
get-put_example =
    get-put (10 ∷ 0 ∷ 2 ∷ 3 ∷ []) (9 ∷ []) (10 ∷ 0 ∷ 2 ∷ 2 ∷ []) (gateway ∷ old_entry ∷ []) 1 refl
      refl (refl, (refl, tt)) refl

-- A SYN of the peer to port 8080.
abbrev first_syn : Segment
first_syn = record (segment 7000 []) { local_port = 8080; remote_port = 5000; flags = 2 }

nobody_waits : Queues (listen_at host 0) []
nobody_waits = record { places = refl; head_in = omega arith; count = refl; entries = refl }

receive_syn-accepts_example :
    let s' = receive_syn 20 first_syn host in
    let c = conn_at s' 1 in
    (is_for (record first_syn { flags = 16; seq = 7001 }) c ≡ true)
    × (c.state ≡ TcpState.established)
    × (c.rcv_nxt ≡ (7000 + 1) % 2 ^ 32)
    × (c.rx.head ≡ c.rx.tail)
    × (conn_at s' 0 ≡ conn_at host 0)
    × Queues (listen_at s' 0) (pos 1 ∷ [])
    × ((accept_poll 0 s').1 ≡ some (pos 1))
unfolding find_index
receive_syn-accepts_example =
    receive_syn-accepts 20 first_syn (record first_syn { flags = 16; seq = 7001 }) host 0 1 0 []
      refl refl nobody_waits (omega arith) (refl, refl, refl) (omega arith)

-- The name "a.id".
abbrev host_name : List ℕ
host_name = 97 ∷ 46 ∷ 105 ∷ 100 ∷ []

parse_response-build_query_example :
    (q : List ℕ) × (build_query host_name 0x4401 ≡ some q)
    × (parse_response (reply q (10 ∷ 0 ∷ 2 ∷ 2 ∷ [])) 0x4401 ≡ some (10 ∷ 0 ∷ 2 ∷ 2 ∷ []))
unfolding labels_from split_dot
parse_response-build_query_example =
    parse_response-build_query host_name 0x4401 (10 ∷ 0 ∷ 2 ∷ 2 ∷ []) (omega arith) (omega arith)
      (omega arith) refl
