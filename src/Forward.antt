-- ===== src/Forward.antt =====
-- wlan_br_server/wlan_br_forward.c: the bridge. A frame from a peer teaches the bridge its source
-- address, and is sent on to the peer of its destination, or to every other peer.
-- The file's state is that of the parts it calls; `Env` holds what they take as parameters.
pub mod Marks
pub mod Dump
pub mod BurstEntry
pub mod Route
pub mod Burst
pub mod Handle
pub mod Switch
pub mod Learn
pub mod Flood
pub mod One
pub mod Relay
pub mod Keeps
pub mod InRange
pub mod Steady
pub mod Totals
pub mod Asked
pub mod Reach
pub mod Account
use wlan_bridge.Common.{
  ℕ, Bool, ◌||◌, Option, none, some, List, [], ◌∷◌, ◌++◌, Ptr, null, write, ◌==◌, if◌then◌else◌, ℤ,
  pos, negsuc, ◌==ℤ◌,
}
use wlan_bridge.Uthash.{Uthash}
use wlan_bridge.Utlist.{Utlist}
use wlan_bridge.Ether.{Mac, ethhdr_of, is_multicast_ether_addr}
use wlan_bridge.Net.{SockaddrIn, Datagram, same_peer}
use wlan_bridge.Fdb.{Fdb, FdbEntry, wlan_br_find, wlan_fdb_update}
use wlan_bridge.Peers.{Peers, PeerAddrInfo, WlanListEntry, entries, wlan_list_update}
use wlan_bridge.Statistics.{Stats, wlan_ip_static_update_rx, wlan_ip_static_update_tx}
use wlan_bridge.Udp.{Kernel, Udp, send_data_to_udp_client, send_data_to_udp_client_burst}

pub record Env (T L S : Type 0) : Type 0 where
  pub macs : Uthash Mac FdbEntry T
  pub ips : Uthash ℕ Ptr S
  pub utlist : Utlist WlanListEntry L
  pub kernel : Kernel
  -- Which calls of calloc fail in wlan_fdb.c, wlan_br_forward.c and statistics.c.
  pub fdb_oom : ℕ → Bool
  pub list_oom : ℕ → Bool
  pub stat_oom : ℕ → Bool

pub record Bridge (T L S : Type 0) : Type 0 where
  pub fdb : Fdb T
  pub peers : Peers L
  pub stats : Stats S
  pub udp : Udp

-- pa->flood_flag = flag
unfoldable pub set_flag : PeerAddrInfo → ℕ → PeerAddrInfo
set_flag pa flag = record pa { flood_flag = flag }

module _ {T L S : Type 0} (env : Env T L S) where
  unfoldable pub find_entry : Bridge T L S → Mac → Option FdbEntry
  find_entry b dest_mac = wlan_br_find env.macs env.fdb_oom b.fdb dest_mac

  pub count_in : Bridge T L S → SockaddrIn → ℕ → Bridge T L S
  count_in b a len = record b {
    stats = wlan_ip_static_update_rx env.ips env.stat_oom b.stats a.s_addr 1 len;
  }

  pub count_out : Bridge T L S → SockaddrIn → ℕ → Bridge T L S
  count_out b a len = record b {
    stats = wlan_ip_static_update_tx env.ips env.stat_oom b.stats a.s_addr 1 len;
  }

  -- A send, with its result.
  send : Bridge T L S → ℕ → List ℕ → SockaddrIn → ℤ × Bridge T L S
  send b len buf addr =
      let (ret, udp') = send_data_to_udp_client env.kernel b.udp len buf addr in
      (ret, record b { udp = udp' })

  -- The entry is the destination's.
  forward_to : Bridge T L S → ℕ → List ℕ → SockaddrIn → FdbEntry → ℤ × Bridge T L S
  unfolding send
  forward_to b len buf curr_addr entry =
      if same_peer entry.peer_addr curr_addr
      then (pos 0, b)
      else let (send_len, b') = send b len buf entry.peer_addr in
        if send_len ==ℤ pos len then (send_len, b') else (negsuc 1, b')

  unfoldable pub wlan_br_forward : Bridge T L S → ℕ → List ℕ → Mac → SockaddrIn → ℤ × Bridge T L S
  unfolding find_entry forward_to
  wlan_br_forward b len buf dest_mac curr_addr = elim (find_entry b dest_mac) [
    | some entry ↦ forward_to b len buf curr_addr entry
    | none ↦ (negsuc 0, b)
  ]

  -- The result, and what is written to the next place of the three `to_` arrays.
  queue_to : Bridge T L S → ℕ → List ℕ → SockaddrIn → FdbEntry → ℤ × List Datagram × Bridge T L S
  unfolding count_in count_out
  queue_to b len buf curr_addr entry =
      let b' = count_in b curr_addr len in
      if same_peer entry.peer_addr curr_addr then (pos 0, [], b') else (
        pos 1,
        record { len = len; buf = buf; addr = entry.peer_addr } ∷ [],
        count_out b' entry.peer_addr len,
      )

  unfoldable pub wlan_br_forward_to_array :
      Bridge T L S → ℕ → List ℕ → Mac → SockaddrIn → ℤ × List Datagram × Bridge T L S
  unfolding find_entry queue_to
  wlan_br_forward_to_array b len buf dest_mac curr_addr = elim (find_entry b dest_mac) [
    | some entry ↦ queue_to b len buf curr_addr entry
    | none ↦ (negsuc 0, [], b)
  ]

  pub write_flag : Bridge T L S → Ptr → ℕ → Bridge T L S
  unfolding set_flag
  write_flag b pa flag = record b {
    peers = record b.peers { infos = write b.peers.infos pa (set_flag (b.peers.infos pa) flag) };
  }

  -- The send to a peer that is marked as served, counted when it went out whole.
  pub flood_send : Bridge T L S → ℕ → List ℕ → SockaddrIn → Bridge T L S
  unfolding send count_out
  flood_send b len buf addr =
      let (send_len, b') = send b len buf addr in
      if send_len ==ℤ pos len then count_out b' addr len else b'

  -- The first loop's body.
  pub flood_entry : ℕ → List ℕ → SockaddrIn → Bridge T L S → WlanListEntry → Bridge T L S
  unfolding write_flag flood_send
  flood_entry len buf curr_addr b entry =
      let pa = b.peers.infos entry.peer_addr in
      if entry.peer_addr == null
      then b
      else if pa.flood_flag == 1 || same_peer pa.addr curr_addr
      then b
      else flood_send (write_flag b entry.peer_addr 1) len buf pa.addr

  pub flood_loop : ℕ → List ℕ → SockaddrIn → Bridge T L S → List WlanListEntry → Bridge T L S
  unfolding flood_entry
  flood_loop len buf curr_addr b [] = b
  flood_loop len buf curr_addr b (entry ∷ rest) =
      flood_loop len buf curr_addr (flood_entry len buf curr_addr b entry) rest

  -- The second loop's body.
  pub clear_entry : Bridge T L S → WlanListEntry → Bridge T L S
  unfolding write_flag
  clear_entry b entry = if entry.peer_addr == null then b else write_flag b entry.peer_addr 0

  pub clear_loop : Bridge T L S → List WlanListEntry → Bridge T L S
  unfolding clear_entry
  clear_loop b [] = b
  clear_loop b (entry ∷ rest) = clear_loop (clear_entry b entry) rest

  unfoldable pub wlan_br_flood : Bridge T L S → ℕ → List ℕ → SockaddrIn → Bridge T L S
  unfolding count_in flood_loop clear_loop
  wlan_br_flood b len buf curr_addr =
      let b' = count_in b curr_addr len in
      let es = entries env.utlist b'.peers in clear_loop (flood_loop len buf curr_addr b' es) es

  -- wlan_list_update, called when wlan_fdb_update returns 1.
  unfoldable pub learn : Bridge T L S → SockaddrIn → Mac → Bridge T L S
  learn b peer_addr h_source =
      let (ret, fdb') = wlan_fdb_update env.macs env.fdb_oom b.fdb peer_addr h_source in
      if ret ==ℤ pos 1
      then record b {
        fdb = fdb';
        peers = (wlan_list_update env.utlist env.list_oom b.peers peer_addr h_source).1;
      }
      else record b { fdb = fdb' }

  unfoldable pub wlan_br_handle : Bridge T L S → ℕ → List ℕ → SockaddrIn → Bridge T L S
  unfolding learn wlan_br_flood wlan_br_forward
  wlan_br_handle b len buf peer_addr =
      let ether = ethhdr_of buf in
      let b' = learn b peer_addr ether.h_source in
      if is_multicast_ether_addr ether.h_dest
      then wlan_br_flood b' len buf peer_addr
      else let (ret, b'') = wlan_br_forward b' len buf ether.h_dest peer_addr in
        if negsuc 0 ==ℤ ret then wlan_br_flood b'' len buf peer_addr else b''

  -- The loop's body of wlan_br_handle_burst: what it adds to the `to_` arrays, and the state.
  pub burst_entry : Bridge T L S → Datagram → List Datagram × Bridge T L S
  unfolding learn wlan_br_flood wlan_br_forward_to_array
  burst_entry b d =
      let ether = ethhdr_of d.buf in
      let b' = learn b d.addr ether.h_source in
      if is_multicast_ether_addr ether.h_dest
      then ([], wlan_br_flood b' d.len d.buf d.addr)
      else let (ret, queued, b'') = wlan_br_forward_to_array b' d.len d.buf ether.h_dest d.addr in
        if pos 1 ==ℤ ret
        then (queued, b'')
        else if negsuc 0 ==ℤ ret
        then ([], wlan_br_flood b'' d.len d.buf d.addr)
        else ([], b'')

  pub burst_loop : Bridge T L S → List Datagram → List Datagram → List Datagram × Bridge T L S
  burst_loop b to [] = (to, b)
  burst_loop b to (d ∷ rest) =
      let (queued, b') = burst_entry b d in burst_loop b' (to ++ queued) rest

  -- `rx` are the first recv_count entries of the three arrays.
  unfoldable pub wlan_br_handle_burst : Bridge T L S → List Datagram → Bridge T L S
  unfolding burst_entry burst_loop
  wlan_br_handle_burst b rx =
      let (to, b') = burst_loop b [] rx in
      elim to [
        | [] ↦ b'
        | d ∷ ds ↦ record b' { udp = (send_data_to_udp_client_burst env.kernel b'.udp (d ∷ ds)).1 }
      ]
