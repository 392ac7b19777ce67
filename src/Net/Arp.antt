-- ===== src/Net/Arp.antt =====
-- The ARP cache of src/kernel/net.c, its frames, and the choice of the next hop.
use sistem_operasi.Base.{
  ℕ, Bool, true, false, ◌&&◌, ◌||◌, not, Option, none, some, List, [], ◌∷◌, ◌++◌, modify, get_or,
  find_index, if◌then◌else◌, take,
}
use sistem_operasi.Net.{ArpEntry, State, meq, eth_hdr, transmit}

abbrev pub free_entry : ArpEntry
free_entry = record { ip = []; mac = []; valid = false }

-- The tests of `arp_cache_put` and `arp_cache_get` for an address.
abbrev pub takes : List ℕ → ArpEntry → Bool
takes ip e = not e.valid || meq e.ip ip

abbrev pub holds : List ℕ → ArpEntry → Bool
holds ip e = e.valid && meq e.ip ip

-- A full cache gives up its first entry.
abbrev pub put_at : Option ℕ → List ℕ → List ℕ → List ArpEntry → List ArpEntry
put_at (some i) ip mac es = modify es i (λ _. record { ip = ip; mac = mac; valid = true })
put_at none ip mac es = modify es 0 (λ e. record e { ip = ip; mac = mac })

unfoldable pub arp_cache_put : List ℕ → List ℕ → List ArpEntry → List ArpEntry
arp_cache_put ip mac es = put_at (find_index (takes ip) es) ip mac es

abbrev pub mac_at : Option ℕ → List ArpEntry → Option (List ℕ)
mac_at (some i) es = some (get_or es i free_entry).mac
mac_at none es = none

unfoldable pub arp_cache_get : List ℕ → List ArpEntry → Option (List ℕ)
arp_cache_get ip es = mac_at (find_index (holds ip) es) es

abbrev pub bcast_mac : List ℕ
bcast_mac = 255 ∷ 255 ∷ 255 ∷ 255 ∷ 255 ∷ 255 ∷ []

-- The 28 bytes of an ARP message: 1 asks, 2 answers.
abbrev pub arp_body : ℕ → List ℕ → List ℕ → State → List ℕ
arp_body oper mac ip s = 0 ∷ 1 ∷ 8 ∷ 0 ∷ 6 ∷ 4 ∷ 0 ∷ oper ∷ (s.my_mac ++ (s.my_ip ++ (mac ++ ip)))

unfoldable pub arp_send_request : List ℕ → State → State
arp_send_request ip s = transmit (eth_hdr bcast_mac 0x0806 s ++ arp_body 1 bcast_mac ip s) s

unfoldable pub arp_send_reply : List ℕ → List ℕ → State → State
arp_send_reply mac ip s = transmit (eth_hdr mac 0x0806 s ++ arp_body 2 mac ip s) s

-- `next_hop_ip`
unfoldable pub next_hop_ip : List ℕ → State → List ℕ
next_hop_ip dst s = if meq (take 3 dst) s.my_ip then dst else s.gw_ip
