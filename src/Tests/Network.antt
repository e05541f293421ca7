-- ===== src/Tests/Network.antt =====
-- The theorem on the whole network: host 1 behind one client writes to host 3 behind another.
use wlan_bridge.Common.{
  ℕ, ◌≡◌, refl, sym, ◌∙◌, Bool, true, false, some, List, [], ◌∷◌, ◌++◌, arith, All, length,
  length-append, take, Ptr, pos, ℤ, if◌then◌else◌, ◌==◌,
}
use mathlib.Core.List.{Memᴰ}
use wlan_bridge.Ether.{Mac, Mac-discrete, is_multicast_ether_addr}
use wlan_bridge.Uthash.Assoc
use wlan_bridge.Fdb.{FdbEntry, wlan_br_find, wlan_fdb_update}
use wlan_bridge.Peers.{WlanListEntry, wlan_list_update}
use wlan_bridge.Net.{Datagram}
use wlan_bridge.Udp
use wlan_bridge.Udp.{
  recvmmsg, send_data_to_udp_client, read_data_from_udp_client_burst, send_data_to_udp_client_burst,
}
use wlan_bridge.Forward.{Env, wlan_br_handle, wlan_br_handle_burst}
use wlan_bridge.Main.{Server, Round, server_runing_burst, max_data_len}
use wlan_bridge.Main.Drain.{Draining}
use wlan_bridge.Main.Relay.{Relayed}
use wlan_bridge.Main.Relay.Run.{run-relays}
use wlan_bridge.Client
use wlan_bridge.Client.{Client, read_from, recvfrom}
use wlan_bridge.Client.Tuntap.{read_data_from_tuntap, send_data_use_tuntap}
use wlan_bridge.Client.Udp.{send_data_use_udp, read_data_from_udp}
use wlan_bridge.Client.Running.{runing}
use wlan_bridge.Client.Running.Carry.{packed}
use wlan_bridge.Client.Running.Relay.{Carried, runing-carries}
use wlan_bridge.Tunnel.{payload}
use wlan_bridge.Network.{Fresh, Site, Delivers, calls_of, ended, FromAnother, network-integrity}
use wlan_bridge.Network.Logs.{sends, writes}
use wlan_bridge.Tests.Kernel.{kernel, client, buffers}
use wlan_bridge.Tests.Setup.{env, peer, frame, willing}
use wlan_bridge.Tests.Bridge.{three, three-IsValid}
use wlan_bridge.Tests.Loop.{server}

-- One datagram waits at the server.
abbrev once : Env (List (Mac × FdbEntry)) (List WlanListEntry) (List (ℕ × Ptr))
once = record env {
  kernel = record willing {
    recv_ret = λ log. record {
      failed = false;
      errno = 11;
      arrivals = if length log == 1 then record { bytes = frame 1 3; from = peer 10 } ∷ [] else [];
    };
  };
}

abbrev left : List Udp.Call → ℕ
left log = if length log == 0 then 1 else 0

draining : Draining once.kernel left
draining = record {
  takes = λ log fd len n h. ground (arith, length-append log (recvmmsg fd len n ∷ []));
  keeps = λ log c. ground (arith, length-append log (c ∷ []));
}

-- The bridge of three hosts, before its loop.
abbrev pub fresh_server : Server (List (Mac × FdbEntry)) (List WlanListEntry) (List (ℕ × Ptr))
fresh_server = record server {
  bridge = record three { udp = record { serv_sock = pos 3; log = [] } };
}

-- One wakeup for a descriptor, and the signal.
abbrev pub woken : ℤ → List Round
woken fd =
    record { signalled = false; nfds = pos 1; evs = record { events = 1; fd = fd } ∷ [] }
    ∷ record { signalled = true; nfds = pos 0; evs = [] }
    ∷ []

-- The first client has a frame to send, the second one to receive.
abbrev sites : Bool → Site
sites true = record {
  kernel = record kernel { got = λ log. some (frame 1 3) };
  client = client;
  buffers = buffers;
  rounds = woken (pos 5);
  addr = peer 10;
}
sites false = record {
  kernel = record kernel { got = λ log. some (frame 1 3) };
  client = client;
  buffers = buffers;
  rounds = woken (pos 6);
  addr = peer 20;
}

sender_calls :
    calls_of (sites true)
    ≡ read_from (pos 5) max_data_len ∷ Client.sendto (pos 6) (packed (frame 1 3) [] (peer 1)) ∷ []
unfolding runing read_data_from_tuntap send_data_use_udp
sender_calls = refl

server_sends :
    sends
      (ended fresh_server (server_runing_burst once 2 fresh_server (woken (pos 3)))).bridge.udp.log
    ≡ packed (frame 1 3) [] (peer 20) ∷ []
unfolding server_runing_burst wlan_br_handle wlan_br_find wlan_fdb_update wlan_list_update
    send_data_to_udp_client send_data_to_udp_client_burst wlan_br_handle_burst
    read_data_from_udp_client_burst Assoc.find Assoc.add Mac-discrete is_multicast_ether_addr
server_sends = refl

-- The sender's calls include no read of its socket.
no_read :
    (before more : List Client.Call) (fd : ℤ)
    → read_from (pos 5) max_data_len ∷ Client.sendto (pos 6) (packed (frame 1 3) [] (peer 1)) ∷ []
      ≡ (before ++ recvfrom fd max_data_len ∷ []) ++ more
    → ⊥
no_read [] more fd e = cc
no_read (x ∷ []) more fd e = cc
no_read (x ∷ y ∷ []) more fd e = cc
no_read (x ∷ y ∷ z ∷ before) more fd e = cc

abbrev sent : Datagram
sent = packed (frame 1 3) [] (peer 1)

fresh : (i : Bool) → Fresh sites i
fresh true = (refl, refl)
fresh false = (refl, refl)

abbrev arrival : Udp.Arrival
arrival = record { bytes = frame 1 3; from = peer 10 }

arrived : (c : Bool) (a : Udp.Arrival) → Memᴰ a (if c then arrival ∷ [] else []) → a ≡ arrival
arrived true a (Memᴰ.head e) = e
arrived true a (Memᴰ.tail m) = elim m [ ]
arrived false a m = elim m [ ]

-- The server's calls when its loop is over.
abbrev server_log : List Udp.Call
server_log =
    (ended fresh_server (server_runing_burst once 2 fresh_server (woken (pos 3)))).bridge.udp.log

to_client :
    (i : Bool) (before more : List Client.Call) (fd : ℤ) (bytes : List ℕ)
    → calls_of (sites i) ≡ (before ++ recvfrom fd max_data_len ∷ []) ++ more
    → (sites i).kernel.got (before ++ recvfrom fd max_data_len ∷ []) ≡ some bytes
    → (d : Datagram) × Memᴰ d (sends server_log) × (payload d ≡ bytes) × (d.addr ≡ (sites i).addr)
to_client true before more fd bytes e g = absurd (no_read before more fd (sym sender_calls ∙ e))
to_client false before more fd bytes e g =
    (packed (frame 1 3) [] (peer 20), rw server_sends (Memᴰ.head refl), cc, refl)

net : Delivers sites once.kernel server_log
net = record {
  to_server = λ before more a e mem.
      let p = arrived (length before == 1) a mem in
      (true, sent, rw sender_calls (Memᴰ.head refl), rw p refl, rw p refl);
  to_client = to_client;
}

receiver_writes : writes (calls_of (sites false)) ≡ (14, frame 1 3) ∷ []
unfolding runing read_data_from_udp send_data_use_tuntap
receiver_writes = refl

network-integrity_example :
    (server_runing_burst once 2 fresh_server (woken (pos 3))
      ≡ some (ended fresh_server (server_runing_burst once 2 fresh_server (woken (pos 3)))))
    × ((i : Bool) → All (λ w. FromAnother sites i (take w.0 w.1)) (writes (calls_of (sites i))))
network-integrity_example =
    network-integrity once left draining sites 2 fresh_server (woken (pos 3)) three-IsValid
      (omega arith) refl fresh net

run-relays_example :
    (m' : Server (List (Mac × FdbEntry)) (List WlanListEntry) (List (ℕ × Ptr)))
    × (server_runing_burst once 2 fresh_server (woken (pos 3)) ≡ some m')
    × Relayed once.kernel fresh_server.bridge.udp.log m'.bridge.udp.log
run-relays_example =
    run-relays once left draining 2 fresh_server (woken (pos 3)) three-IsValid (omega arith)

runing-carries_example :
    Carried kernel client.log (runing kernel (client, buffers) (woken (pos 5))).0.log
runing-carries_example = runing-carries kernel client buffers (woken (pos 5))
