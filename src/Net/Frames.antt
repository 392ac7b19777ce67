-- ===== src/Net/Frames.antt =====
-- The frames that `tcp_tx` of src/kernel/net.c sends.
use sistem_operasi.Base.{
  ℕ, ◌+◌, ◌*◌, ◌/◌, ◌%◌, ◌<◌, ◌≤◌, ◌≡◌, refl, ap, ◌∙◌, List, [], ◌∷◌, ◌++◌, length, length-append,
  arith,
}
use sistem_operasi.Net.{Conn, State, eth_hdr}
use sistem_operasi.Net.Checksum.{word_sum, finish, inet_cksum, transport_cksum, pseudo_header}
use sistem_operasi.Net.Segment.{ip_front, ip_header, tcp_front, tcp_segment, tcp_tx}
use sistem_operasi.Net.Verify.{
  finish-finish, finish-le, word_sum-insert, word_sum-le, IsBytes, IsBytes-append,
}

ip_header-verifies :
    (total id proto : ℕ) (src dst : List ℕ)
    → proto < 256
    → IsBytes src
    → IsBytes dst
    → length src ≡ 4
    → length dst ≡ 4
    → inet_cksum (ip_header total id proto src dst) ≡ 0
unfolding inet_cksum ip_header
ip_header-verifies total id proto src dst hp hs hd ls ld =
    let front = ip_front total id proto in
    let blank : List ℕ = front ++ (0 ∷ 0 ∷ (src ++ dst)) in
    let le : word_sum blank ≤ 65535 * (length blank + 1) = word_sum-le blank (
      IsBytes-append front (0 ∷ 0 ∷ (src ++ dst)) (omega arith)
        (omega arith, (omega arith, IsBytes-append src dst hs hd))) in
    let short : length blank ≡ 20 = omega (arith, length-append src dst) in
    ap finish (
      word_sum-insert (finish (word_sum blank)) front (src ++ dst) (omega arith)
        (omega (arith, finish-le (word_sum blank))))
    ∙ finish-finish (word_sum blank) (omega arith)

length-ip_header :
    (total id proto : ℕ) (src dst : List ℕ)
    → length src ≡ 4
    → length dst ≡ 4
    → length (ip_header total id proto src dst) ≡ 20
unfolding ip_header
length-ip_header total id proto src dst ls ld = omega (arith, length-append src dst)

length-tcp_segment :
    (c : Conn) (flags seq ack_no : ℕ) (payload my_ip : List ℕ)
    → length (tcp_segment c flags seq ack_no payload my_ip) ≡ 20 + length payload
unfolding tcp_segment
length-tcp_segment c flags seq ack_no payload my_ip = omega arith

tcp_segment-verifies :
    (c : Conn) (flags seq ack_no : ℕ) (payload my_ip : List ℕ)
    → flags < 256
    → IsBytes payload
    → IsBytes my_ip
    → IsBytes c.dst_ip
    → length my_ip ≡ 4
    → length c.dst_ip ≡ 4
    → length payload ≤ 1400
    → transport_cksum my_ip c.dst_ip 6 (tcp_segment c flags seq ack_no payload my_ip) ≡ 0
unfolding transport_cksum tcp_segment
tcp_segment-verifies c flags seq ack_no payload my_ip hf hp hm hd lm ld short =
    let front = tcp_front c flags seq ack_no in
    let blank : List ℕ = front ++ (0 ∷ 0 ∷ 0 ∷ 0 ∷ payload) in
    let pseudo : List ℕ = pseudo_header my_ip c.dst_ip 6 (length blank) in
    let sum : ℕ = word_sum pseudo + word_sum blank in
    let zero_byte : 0 < 256 = omega arith in
    let blank_le : word_sum blank ≤ 65535 * (length blank + 1) = word_sum-le blank (
      IsBytes-append front (0 ∷ 0 ∷ 0 ∷ 0 ∷ payload) (omega arith)
        (zero_byte, (zero_byte, (zero_byte, (zero_byte, hp))))) in
    let pseudo_le : word_sum pseudo ≤ 65535 * (length pseudo + 1) =
      word_sum-le pseudo
        (IsBytes-append my_ip (c.dst_ip ++ _) hm (IsBytes-append c.dst_ip _ hd (omega arith))) in
    let lp : length pseudo ≡ 12 = omega (
      arith,
      length-append my_ip
          (c.dst_ip ++ (0 ∷ 6 ∷ length blank / 256 % 256 ∷ length blank % 256 ∷ [])),
      length-append c.dst_ip (0 ∷ 6 ∷ length blank / 256 % 256 ∷ length blank % 256 ∷ []),
    ) in
    ap (λ w. finish (word_sum pseudo + w))
      (word_sum-insert (finish sum) front (0 ∷ 0 ∷ payload) (omega arith)
        (omega (arith, finish-le sum)))
    ∙ ap finish (omega arith)
    ∙ finish-finish sum (omega arith)

-- A segment that `tcp_tx` sends is one frame with the addresses and the type of IP in front, whose IP
-- header and whose segment with its pseudo-header both have the checksum that makes the receiver's sum
-- 0, for addresses of four bytes, flags of one byte and at most 1,400 bytes of payload.
pub tcp_tx-verifies :
    (c : Conn) (flags seq ack_no : ℕ) (payload : List ℕ) (s : State)
    → flags < 256
    → IsBytes payload
    → IsBytes s.my_ip
    → IsBytes c.dst_ip
    → length s.my_ip ≡ 4
    → length c.dst_ip ≡ 4
    → length payload ≤ 1400
    → (ip seg : List ℕ) × ((tcp_tx c flags seq ack_no payload s).sent
        ≡ s.sent ++ ((eth_hdr c.dst_mac 0x0800 s ++ (ip ++ seg)) ∷ []))
      × (length ip ≡ 20)
      × (length seg ≡ 20 + length payload)
      × (inet_cksum ip ≡ 0)
      × (transport_cksum s.my_ip c.dst_ip 6 seg ≡ 0)
unfolding tcp_tx
tcp_tx-verifies c flags seq ack_no payload s hf hp hm hd lm ld short = (
  ip_header ((40 + length payload) % 65536) s.ip_id 6 s.my_ip c.dst_ip,
  tcp_segment c flags seq ack_no payload s.my_ip,
  refl,
  length-ip_header ((40 + length payload) % 65536) s.ip_id 6 s.my_ip c.dst_ip lm ld,
  length-tcp_segment c flags seq ack_no payload s.my_ip,
  ip_header-verifies ((40 + length payload) % 65536) s.ip_id 6 s.my_ip c.dst_ip (omega arith) hm hd
      lm ld,
  tcp_segment-verifies c flags seq ack_no payload s.my_ip hf hp hm hd lm ld short,
)
