-- ===== src/Tests/Far.antt =====
-- The theorems on the whole tunnel: host 1 behind one client writes to host 3 behind another, and
-- host 4, which is new, gets an answer.
use wlan_bridge.Common.{
  suc, if◌then◌else◌, ◌==◌, none, ℕ, ◌≡◌, refl, false, some, List, [], ◌∷◌, ◌++◌, arith, length,
  take, Ptr,
}
use wlan_bridge.Ether.{Mac, Mac-discrete, is_multicast_ether_addr}
use wlan_bridge.Uthash.Assoc
use wlan_bridge.Fdb.{FdbEntry, wlan_br_find, wlan_fdb_update}
use wlan_bridge.Peers.{WlanListEntry, wlan_list_update}
use wlan_bridge.Udp
use wlan_bridge.Udp.{
  recvmmsg, send_data_to_udp_client, read_data_from_udp_client_burst, send_data_to_udp_client_burst,
}
use wlan_bridge.Main.{drain, read, pass_on}
use wlan_bridge.Forward.{Env, find_entry, wlan_br_handle, wlan_br_handle_burst}
use wlan_bridge.Client
use wlan_bridge.Client.{sendto, write_to, read_from, recvfrom}
use wlan_bridge.Client.Running.{from_tuntap, from_udp, max_data_len}
use wlan_bridge.Client.Running.Carry.{packed}
use wlan_bridge.Tunnel.{turn, tunnel-delivers}
use wlan_bridge.Tunnel.Reply.{tunnel-replies}
use wlan_bridge.Tests.Bridge.{three-IsValid}
use wlan_bridge.Tests.Kernel.{kernel, client, buffers}
use wlan_bridge.Tests.Setup.{env, peer, mac, frame, willing}
use wlan_bridge.Tests.Loop.{server}

-- The server has the frame to read, which came from the first peer.
abbrev waiting : Env (List (Mac × FdbEntry)) (List WlanListEntry) (List (ℕ × Ptr))
waiting = record env {
  kernel = record willing {
    recv_ret = λ log. record {
      failed = false;
      errno = 0;
      arrivals = record { bytes = frame 1 3; from = peer 10 } ∷ [];
    };
  };
}

-- Both clients have the frame to read, one from its device and one from the server.
abbrev device : Client.Kernel
device = record kernel { got = λ log. some (frame 1 3) }

abbrev host3 : FdbEntry
host3 = record { key_remote_mac = mac 3; peer_addr = peer 20 }

learned : find_entry waiting server.bridge (mac 3) ≡ some host3
unfolding find_entry wlan_br_handle wlan_br_find wlan_fdb_update wlan_list_update
    send_data_to_udp_client Assoc.find Assoc.add Mac-discrete is_multicast_ether_addr
learned = refl

is_single : is_multicast_ether_addr (mac 3) ≡ false
unfolding is_multicast_ether_addr
is_single = refl

tunnel-delivers_example :
    ((fuel : ℕ) → drain waiting (suc fuel) server ≡ drain waiting fuel (turn waiting server))
    × ((from_tuntap device (client, buffers)).0.log
        ≡ (client.log ++ read_from client.tun_fd max_data_len ∷ [])
          ++ sendto client.udp_sock (packed (frame 1 3) buffers.tuntap_buf client.serv_adr) ∷ [])
    × ((more : List Udp.Call) × ((turn waiting server).bridge.udp.log
          ≡ (server.bridge.udp.log ++ recvmmsg server.bridge.udp.serv_sock max_data_len 1 ∷ [])
            ++ Udp.sendmmsg server.bridge.udp.serv_sock (packed (frame 1 3) [] host3.peer_addr ∷ [])
              ∷ more))
    × ((written : List ℕ) × (take (length (frame 1 3)) written ≡ frame 1 3)
        × ((from_udp device (client, buffers)).0.log
            ≡ (client.log ++ recvfrom client.udp_sock max_data_len ∷ [])
              ++ write_to client.tun_fd (length (frame 1 3)) written ∷ []))
tunnel-delivers_example =
    tunnel-delivers waiting server (record { buf = []; data_len = 0; peer_addr = peer 0 }) [] device
      device client client buffers buffers (frame 1 3) (peer 10) 0 host3 refl (omega arith)
      (omega arith) learned is_single refl refl refl refl

-- The first read finds a frame of host 4, which is new; the next finds a frame for it from host 3.
abbrev answering : Env (List (Mac × FdbEntry)) (List WlanListEntry) (List (ℕ × Ptr))
answering = record env {
  kernel = record willing {
    recv_ret = λ log. record {
      failed = false;
      errno = 0;
      arrivals =
          (if length log == 2
            then record { bytes = frame 4 3; from = peer 30 }
            else record { bytes = frame 3 4; from = peer 20 })
          ∷ [];
    };
  };
}

first_read :
    answering.kernel.recv_ret
      (server.bridge.udp.log ++ recvmmsg server.bridge.udp.serv_sock max_data_len 1 ∷ [])
    ≡ record {
      failed = false;
      errno = 0;
      arrivals = record { bytes = frame 4 3; from = peer 30 } ∷ [];
    }
unfolding wlan_br_handle wlan_br_find Assoc.find is_multicast_ether_addr wlan_fdb_update Assoc.add
    Mac-discrete wlan_list_update send_data_to_udp_client
first_read = refl

second_read :
    let udp = (turn answering server).bridge.udp in
    answering.kernel.recv_ret (udp.log ++ recvmmsg udp.serv_sock max_data_len 1 ∷ []) ≡ record {
      failed = false;
      errno = 0;
      arrivals = record { bytes = frame 3 4; from = peer 20 } ∷ [];
    }
unfolding wlan_br_handle wlan_br_find Assoc.find is_multicast_ether_addr wlan_fdb_update Assoc.add
    Mac-discrete wlan_list_update send_data_to_udp_client pass_on wlan_br_handle_burst read
    read_data_from_udp_client_burst send_data_to_udp_client_burst
second_read = refl

host4_new : find_entry answering server.bridge (mac 4) ≡ none
unfolding find_entry wlan_br_handle wlan_br_find Assoc.find is_multicast_ether_addr wlan_fdb_update
    Assoc.add Mac-discrete wlan_list_update send_data_to_udp_client
host4_new = refl

is_single4 : is_multicast_ether_addr (mac 4) ≡ false
unfolding is_multicast_ether_addr
is_single4 = refl

tunnel-replies_example :
    let udp = (turn answering server).bridge.udp in
    ((fuel : ℕ)
      → drain answering (suc (suc fuel)) server
        ≡ drain answering fuel (turn answering (turn answering server)))
    × (more : List Udp.Call) × (buf : List ℕ) × (take (length (frame 3 4)) buf ≡ frame 3 4)
    × ((turn answering (turn answering server)).bridge.udp.log
        ≡ (udp.log ++ recvmmsg udp.serv_sock max_data_len 1 ∷ [])
          ++ Udp.sendmmsg udp.serv_sock
              (record { len = length (frame 3 4); buf = buf; addr = peer 30 } ∷ [])
            ∷ more)
tunnel-replies_example =
    tunnel-replies answering (record { fdb = λ n. refl; list = λ n. refl }) server
      (record { buf = []; data_len = 0; peer_addr = peer 0 }) [] (frame 4 3) (peer 30) 0 refl
      first_read (omega arith) three-IsValid (omega arith) (frame 3 4) (peer 20) 0 host4_new
      is_single4 refl (omega arith) (omega arith) refl second_read
