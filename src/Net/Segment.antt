-- ===== src/Net/Segment.antt =====
-- The IP and TCP headers that `tcp_tx` of src/kernel/net.c writes, and what `tcp_rx_process` reads.
use sistem_operasi.Base.{
  ℕ, zero, suc, ◌+◌, ◌-◌, ◌*◌, ◌/◌, ◌%◌, Bool, List, [], ◌∷◌, ◌++◌, length, get_or, ◌==◌,
}
use sistem_operasi.Net.{Conn, State, be16, be32, eth_hdr, transmit}
use sistem_operasi.Net.Checksum.{inet_cksum, transport_cksum}

-- TCP_FIN, TCP_SYN, TCP_RST, TCP_PSH and TCP_ACK
abbrev pub fin : ℕ
fin = 0x01

abbrev pub syn : ℕ
syn = 0x02

abbrev pub rst : ℕ
rst = 0x04

abbrev pub psh : ℕ
psh = 0x08

abbrev pub ack : ℕ
ack = 0x10

abbrev pub has_flag : ℕ → ℕ → Bool
has_flag flags bit = flags / bit % 2 == 1

-- The IP header before the checksum, and behind it.
abbrev pub ip_front : ℕ → ℕ → ℕ → List ℕ
ip_front total id proto = 0x45 ∷ 0 ∷ (be16 total ++ (be16 id ++ (0 ∷ 0 ∷ 64 ∷ proto ∷ [])))

unfoldable pub ip_header : ℕ → ℕ → ℕ → List ℕ → List ℕ → List ℕ
ip_header total id proto src dst =
    let front = ip_front total id proto in
    front ++ (be16 (inet_cksum (front ++ (0 ∷ 0 ∷ (src ++ dst)))) ++ (src ++ dst))

-- The TCP header before the checksum.
abbrev pub tcp_front : Conn → ℕ → ℕ → ℕ → List ℕ
tcp_front c flags seq ack_no =
    be16 c.src_port
    ++ (be16 c.dst_port ++ (be32 seq ++ (be32 ack_no ++ (0x50 ∷ flags ∷ 255 ∷ 255 ∷ []))))

unfoldable pub tcp_segment : Conn → ℕ → ℕ → ℕ → List ℕ → List ℕ → List ℕ
tcp_segment c flags seq ack_no payload my_ip =
    let front = tcp_front c flags seq ack_no in
    front
    ++ (be16 (transport_cksum my_ip c.dst_ip 6 (front ++ (0 ∷ 0 ∷ 0 ∷ 0 ∷ payload)))
        ++ (0 ∷ 0 ∷ payload))

-- `tcp_tx`
unfoldable pub tcp_tx : Conn → ℕ → ℕ → ℕ → List ℕ → State → State
tcp_tx c flags seq ack_no payload s =
    let total = (40 + length payload) % 65536 in
    transmit
      (eth_hdr c.dst_mac 0x0800 s
        ++ (ip_header total s.ip_id 6 s.my_ip c.dst_ip
            ++ tcp_segment c flags seq ack_no payload s.my_ip))
      (record s { ip_id = (s.ip_id + 1) % 65536 })

-- `n` bytes of a packet from `offset` on; what lies behind the packet is taken to be 0.
unfoldable pub bytes_at : ℕ → ℕ → List ℕ → List ℕ
bytes_at offset zero pkt = []
bytes_at offset (suc n) pkt = get_or pkt offset 0 ∷ bytes_at (suc offset) n pkt

abbrev pub word16_at : ℕ → List ℕ → ℕ
word16_at i pkt = get_or pkt i 0 * 256 + get_or pkt (i + 1) 0

abbrev pub word32_at : ℕ → List ℕ → ℕ
word32_at i pkt = word16_at i pkt * 65536 + word16_at (i + 2) pkt

-- A segment with the addresses that it came from.
pub record Segment : Type 0 where
  pub src_ip : List ℕ
  pub src_mac : List ℕ
  pub remote_port : ℕ
  pub local_port : ℕ
  pub seq : ℕ
  pub ack_no : ℕ
  pub flags : ℕ
  pub payload : List ℕ

-- The first lines of `tcp_rx_process`: the segment of `total` bytes at `offset` of a packet.
unfoldable pub read_segment : List ℕ → ℕ → ℕ → Segment
read_segment pkt offset total =
    let doff = get_or pkt (offset + 12) 0 / 16 * 4 in
    record {
      src_ip = bytes_at 26 4 pkt;
      src_mac = bytes_at 6 6 pkt;
      remote_port = word16_at offset pkt;
      local_port = word16_at (offset + 2) pkt;
      seq = word32_at (offset + 4) pkt;
      ack_no = word32_at (offset + 8) pkt;
      flags = get_or pkt (offset + 13) 0;
      payload = bytes_at (offset + doff) (total - doff) pkt;
    }
