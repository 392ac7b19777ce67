-- ===== src/Net.antt =====
-- The network stack of src/kernel/net.c: its static data, the ARP cache and the frames that it builds.
-- The RTL8139 driver is known by the frames that are handed to it, oldest first; the value of
-- `get_ticks` is an argument, the same for all its calls in one step.
pub mod Checksum
pub mod Segment
pub mod Arp
pub mod Verify
pub mod Frames
pub mod Receive
pub mod Calls
pub mod Timer
pub mod Stream
pub mod Timeout
pub mod Losses
pub mod Cache
pub mod Dns
pub mod Names
pub mod Accepts
use sistem_operasi.Base.{
  ℕ, zero, suc, ◌+◌, ◌-◌, ◌/◌, ◌%◌, Bool, true, false, ◌&&◌, ◌||◌, not, Option, none, some, List,
  [], ◌∷◌, ◌++◌, ℤ, pos, minus_one, get_or, modify, take, drop, length, replicate, if◌then◌else◌,
  ◌==◌, find_index,
}
use sistem_operasi.Ring.{Ring}

-- TCP_CLOSED to TCP_TIME_WAIT
pub data TcpState : Type 0 where
  closed syn_sent established fin_wait1 fin_wait2 close_wait last_ack time_wait : TcpState

-- TCP_RX_SIZE, TCP_TX_SIZE, TCP_RTO, TCP_MAX_RETRANS, TCP_KEEPALIVE_IDLE, TCP_KEEPALIVE_INTVL and
-- TCP_KEEPALIVE_CNT
abbrev pub rx_size : ℕ
rx_size = 4096

abbrev pub tx_size : ℕ
tx_size = 1400

abbrev pub rto : ℕ
rto = 200

abbrev pub max_retrans : ℕ
max_retrans = 5

abbrev pub keepalive_idle : ℕ
keepalive_idle = 30000

abbrev pub keepalive_intvl : ℕ
keepalive_intvl = 5000

abbrev pub keepalive_cnt : ℕ
keepalive_cnt = 3

-- `rx` has the buffer; its `head`, to read next, is `rx_tail`, and its `tail`, to fill next, `rx_head`.
pub record Conn : Type 0 where
  pub used : Bool
  pub state : TcpState
  pub dst_ip : List ℕ
  pub dst_mac : List ℕ
  pub src_port : ℕ
  pub dst_port : ℕ
  pub snd_nxt : ℕ
  pub rcv_nxt : ℕ
  pub rx : Ring ℕ
  pub fin_recv : Bool
  pub rst_recv : Bool
  pub tx_buf : List ℕ
  pub tx_len : ℕ
  pub tx_seq : ℕ
  pub retrans_tick : ℕ
  pub retrans_count : ℕ
  pub ooo_buf : List ℕ
  pub ooo_len : ℕ
  pub ooo_seq : ℕ
  pub last_rx_tick : ℕ
  pub ka_probes : ℕ
  pub ka_next_tick : ℕ

pub record Listen : Type 0 where
  pub active : Bool
  pub port : ℕ
  pub accept_q : List ℤ
  pub aq_head : ℕ
  pub aq_tail : ℕ
  pub aq_count : ℕ

pub record ArpEntry : Type 0 where
  pub ip : List ℕ
  pub mac : List ℕ
  pub valid : Bool

pub record State : Type 0 where
  pub my_mac : List ℕ
  pub my_ip : List ℕ
  pub gw_ip : List ℕ
  pub arp : List ArpEntry
  pub conns : List Conn
  pub listens : List Listen
  pub ip_id : ℕ
  pub port_ctr : ℕ
  pub sent : List (List ℕ)

abbrev pub free_conn : Conn
free_conn = record {
  used = false;
  state = TcpState.closed;
  dst_ip = [];
  dst_mac = [];
  src_port = 0;
  dst_port = 0;
  snd_nxt = 0;
  rcv_nxt = 0;
  rx = record { slots = replicate 4096 0; head = 0; tail = 0 };
  fin_recv = false;
  rst_recv = false;
  tx_buf = [];
  tx_len = 0;
  tx_seq = 0;
  retrans_tick = 0;
  retrans_count = 0;
  ooo_buf = [];
  ooo_len = 0;
  ooo_seq = 0;
  last_rx_tick = 0;
  ka_probes = 0;
  ka_next_tick = 0;
}

abbrev pub conn_at : State → ℕ → Conn
conn_at s i = get_or s.conns i free_conn

abbrev pub on_conn : ℕ → (Conn → Conn) → State → State
on_conn i f s = record s { conns = modify s.conns i f }

-- `meq` of two arrays of the same length.
unfoldable pub meq : List ℕ → List ℕ → Bool
meq [] ys = true
meq (x ∷ xs) [] = false
meq (x ∷ xs) (y ∷ ys) = x == y && meq xs ys

-- A number of 16 and of 32 bits, high byte first.
abbrev pub be16 : ℕ → List ℕ
be16 n = n / 256 % 256 ∷ n % 256 ∷ []

abbrev pub be32 : ℕ → List ℕ
be32 n = n / 16777216 % 256 ∷ n / 65536 % 256 ∷ n / 256 % 256 ∷ n % 256 ∷ []

-- `eth_hdr`
abbrev pub eth_hdr : List ℕ → ℕ → State → List ℕ
eth_hdr dst ethertype s = dst ++ (s.my_mac ++ be16 ethertype)

-- `rtl8139_send`
abbrev pub transmit : List ℕ → State → State
transmit frame s = record s { sent = s.sent ++ (frame ∷ []) }
