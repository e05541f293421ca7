-- ===== src/Forward/Dump.antt =====
-- wlan_br_dump_fdb of wlan_br_server/wlan_br_forward.c: a line for each entry of the list.
use wlan_bridge.Common.{ℕ, true, Option, List, [], ◌∷◌, Heap}
use wlan_bridge.Utlist.{Utlist}
use wlan_bridge.Ether.Text.{ether_addr_to_str}
use wlan_bridge.Net.{htons}
use wlan_bridge.Peers.{Peers, PeerAddrInfo, WlanListEntry, entries}

-- What a line prints: the peer's address, its port in host byte order, and the hardware address in
-- a buffer of 20 characters. inet_ntoa writes the four octets of s_addr.
pub record FdbLine : Type 0 where
  pub s_addr : ℕ
  pub port : ℕ
  pub mac : Option (List ℕ)

unfoldable line_of : Heap PeerAddrInfo → WlanListEntry → FdbLine
line_of h entry = record {
  s_addr = (h entry.peer_addr).addr.s_addr;
  port = htons (h entry.peer_addr).addr.sin_port;
  mac = ether_addr_to_str entry.key_remote_mac true 20;
}

unfoldable dump_lines : Heap PeerAddrInfo → List WlanListEntry → List FdbLine
unfolding line_of
dump_lines h [] = []
dump_lines h (entry ∷ rest) = line_of h entry ∷ dump_lines h rest

unfoldable wlan_br_dump_fdb : {L : Type 0} → Utlist WlanListEntry L → Peers L → List FdbLine
unfolding dump_lines
wlan_br_dump_fdb utlist s = dump_lines s.infos (entries utlist s)
