-- ===== src/Tests/Bridge.antt =====
-- The bridge at work: three hosts, two of them behind one peer.
use wlan_bridge.Common.{ℕ, ◌≡◌, refl, List, [], ◌∷◌, Ptr, pos}
use wlan_bridge.Ether.{is_multicast_ether_addr, Mac, Mac-discrete}
use wlan_bridge.Fdb.{FdbEntry, wlan_br_find, wlan_fdb_update}
use wlan_bridge.Peers.{WlanListEntry, wlan_list_update}
use wlan_bridge.Peers.Update.{IsValid}
use wlan_bridge.Udp.{Call, send_data_to_udp_client}
use wlan_bridge.Statistics.{wlan_ip_static_update_rx, wlan_ip_static_update_tx}
use wlan_bridge.Uthash.Assoc
use wlan_bridge.Forward.{Bridge, wlan_br_handle}
use wlan_bridge.Forward.Flood.{send_call}
use wlan_bridge.Forward.Handle.{handle-IsValid}
use wlan_bridge.Tests.Setup.{env, peer, frame, broadcast, start}

-- Hosts 1 and 2 are behind peer 10, host 3 behind peer 20; then host 3 asks everybody, and host 1
-- answers it.
abbrev pub three : Bridge (List (Mac × FdbEntry)) (List WlanListEntry) (List (ℕ × Ptr))
three =
    wlan_br_handle env
      (wlan_br_handle env (wlan_br_handle env start 60 (frame 1 9) (peer 10)) 60 (frame 2 9)
        (peer 10))
      60 (frame 3 9) (peer 20)

pub start-IsValid : IsValid env.utlist start.peers
start-IsValid = record {
  not_null = λ p h. cc;
  allocated = λ p h. cc;
  one_record = λ p q h. cc;
  unmarked = λ p h. cc;
  counted = λ p h. cc;
}

pub three-IsValid : IsValid env.utlist three.peers
three-IsValid =
    let one = wlan_br_handle env start 60 (frame 1 9) (peer 10) in
    let v = handle-IsValid env start 60 (frame 1 9) (peer 10) start-IsValid in
    let two = wlan_br_handle env one 60 (frame 2 9) (peer 10) in
    let w = handle-IsValid env one 60 (frame 2 9) (peer 10) v in
    handle-IsValid env two 60 (frame 3 9) (peer 20) w

abbrev three_log : List Call
three_log =
    send_call (pos 3) 60 (frame 3 9) (peer 10)
    ∷ send_call (pos 3) 60 (broadcast 3) (peer 10)
    ∷ send_call (pos 3) 60 (frame 1 3) (peer 20)
    ∷ []

-- A flood reaches the peer of two hosts once, and an answer goes straight to its host.
three_test :
    (wlan_br_handle env
      (wlan_br_handle env three 60 (broadcast 3) (peer 20))
      60
      (frame 1 3)
      (peer 10)).udp.log
    ≡ three_log
unfolding wlan_br_handle wlan_br_find wlan_fdb_update wlan_list_update wlan_ip_static_update_rx
    wlan_ip_static_update_tx is_multicast_ether_addr send_data_to_udp_client Mac-discrete Assoc.find
    Assoc.add
three_test = refl
