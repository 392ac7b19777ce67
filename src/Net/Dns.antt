-- ===== src/Net/Dns.antt =====
-- UDP datagrams and the DNS client of src/kernel/net.c. A wait for packets is split at its polls, of
-- which each handles one packet.
use sistem_operasi.Base.{
  ℕ, zero, suc, ◌+◌, ◌*◌, ◌/◌, ◌%◌, ◌&&◌, ◌||◌, not, Option, none, some, List, [], ◌∷◌, ◌++◌, ℤ,
  pos, minus_one, get_or, take, drop, length, if◌then◌else◌, ltb, ◌==◌,
}
use sistem_operasi.Net.{State, be16, eth_hdr, transmit}
use sistem_operasi.Net.Segment.{ip_header, word16_at}
use sistem_operasi.Net.Calls.{net_process}

-- `net_udp_send` behind `arp_resolve`, whose address is `none` where it timed out.
unfoldable pub udp_send : Option (List ℕ) → List ℕ → ℕ → ℕ → List ℕ → State → State × ℤ
udp_send none dst_ip dst_port src_port payload s = (s, minus_one)
udp_send (some dst_mac) dst_ip dst_port src_port payload s =
    let udp_len = (8 + length payload) % 65536 in
    let udp = be16 src_port ++ (be16 dst_port ++ (be16 udp_len ++ (0 ∷ 0 ∷ payload))) in
    let ip = ip_header ((20 + udp_len) % 65536) s.ip_id 17 s.my_ip dst_ip in
    (
      transmit (eth_hdr dst_mac 0x0800 s ++ (ip ++ udp))
          (record s { ip_id = (s.ip_id + 1) % 65536 }),
      pos 0,
    )

-- A host name up to its first dot, which is 46, and what follows.
unfoldable pub split_dot : List ℕ → List ℕ × List ℕ
split_dot [] = ([], [])
split_dot (c ∷ cs) =
    let (label, rest) = split_dot cs in if c == 46 then ([], c ∷ cs) else (c ∷ label, rest)

-- The labels of a host name, by rounds of the loop of `dns_build_query`; each takes a byte at least.
unfoldable pub labels_from : ℕ → List ℕ → List (List ℕ)
labels_from zero p = []
labels_from (suc fuel) [] = []
labels_from (suc fuel) (c ∷ cs) =
    let (label, rest) = split_dot (c ∷ cs) in label ∷ labels_from fuel (drop 1 rest)

abbrev pub labels : List ℕ → List (List ℕ)
labels host = labels_from (length host) host

-- The labels behind the position `at`, or none where the packet of 512 bytes has no room.
unfoldable pub write_labels : ℕ → List (List ℕ) → Option (List ℕ)
write_labels at [] = some []
write_labels at (label ∷ ls) =
    if ltb 512 (at + 1 + length label + 5)
    then none
    else elim (write_labels (at + 1 + length label) ls) [
      | none ↦ none
      | some name ↦ some (length label % 256 ∷ (label ++ name))
    ]

-- The header of a query.
abbrev pub query_header : ℕ → List ℕ
query_header txid = be16 txid ++ (1 ∷ 0 ∷ 0 ∷ 1 ∷ 0 ∷ 0 ∷ 0 ∷ 0 ∷ 0 ∷ 0 ∷ [])

-- `dns_build_query`: `none` is its -1.
unfoldable pub build_query : List ℕ → ℕ → Option (List ℕ)
build_query host txid = elim (write_labels 12 (labels host)) [
  | none ↦ none
  | some name ↦ some (query_header txid ++ (name ++ (0 ∷ 0 ∷ 1 ∷ 0 ∷ 1 ∷ [])))
]

-- What follows the name of the question, by rounds of the loop.
unfoldable pub skip_qname : ℕ → List ℕ → List ℕ
skip_qname zero rest = rest
skip_qname (suc fuel) [] = []
skip_qname (suc fuel) (len ∷ rest) =
    if len == 0
    then rest
    else if len / 64 % 4 == 3
    then drop 1 rest
    else skip_qname fuel (drop len rest)

-- The loop for a name of an answer that is no pointer.
unfoldable pub skip_labels : ℕ → List ℕ → List ℕ
skip_labels zero rest = rest
skip_labels (suc fuel) [] = []
skip_labels (suc fuel) (len ∷ rest) = if len == 0 then rest else skip_labels fuel (drop len rest)

abbrev pub skip_name : List ℕ → List ℕ
skip_name [] = []
skip_name (b ∷ rest) =
    if b / 64 % 4 == 3 then drop 1 rest else skip_labels (length (b ∷ rest)) (b ∷ rest)

-- At most `n` answers: the first address of four bytes.
unfoldable pub find_answer : ℕ → List ℕ → Option (List ℕ)
find_answer zero rest = none
find_answer (suc n) [] = none
find_answer (suc n) (b ∷ rest) =
    let rr = skip_name (b ∷ rest) in
    let rdlen = word16_at 8 rr in
    let rdata = drop 10 rr in
    let later = find_answer n (drop rdlen rdata) in
    if ltb (length rr) 10
    then none
    else if word16_at 0 rr == 1 && (rdlen == 4 && not (ltb (length rdata) 4))
    then some (take 4 rdata)
    else later

-- `dns_parse_response`
unfoldable pub parse_response : List ℕ → ℕ → Option (List ℕ)
parse_response buf txid =
    let rest = drop 12 buf in
    let answers = drop 4 (skip_qname (length rest) rest) in
    if ltb (length buf) 12
      || (not (word16_at 0 buf == txid) || (get_or buf 2 0 / 128 % 2 == 0 || word16_at 6 buf == 0))
    then none
    else find_answer (word16_at 6 buf) answers

-- One poll of `dns_resolve` that got a packet: UDP from port 53 to port 5353 is read as an answer, UDP
-- of other ports goes to `net_process`, and the rest is dropped.
unfoldable pub resolve_poll : ℕ → ℕ → List ℕ → State → State × Option (List ℕ)
resolve_poll txid now pkt s =
    let ihl = get_or pkt 14 0 % 16 * 4 in
    let udp = 14 + ihl in
    if ltb (length pkt) 43 || not (get_or pkt 23 0 == 17)
    then (s, none)
    else if not (word16_at udp pkt == 53) || not (word16_at (udp + 2) pkt == 5353)
    then ((net_process none now pkt s).0, none)
    else (s, parse_response (drop (udp + 8) pkt) txid)
