-- ===== src/Tests/Drain.antt =====
-- The receive loops come to an end, with a kernel that has one datagram to read.
use wlan_bridge.Common.{
  ℕ, ◌≤◌, ◌<◌, ◌≡◌, false, some, List, [], ◌∷◌, ◌++◌, ◌||◌, ◌==◌, arith, ℤ, Ptr, pos,
}
use wlan_bridge.Ether.{Mac}
use wlan_bridge.Fdb.{FdbEntry}
use wlan_bridge.Peers.{WlanListEntry}
use wlan_bridge.Udp.{Call, recvfrom, first_len}
use wlan_bridge.Main.{Server, drain, server_runing_burst}
use wlan_bridge.Main.Drain.{SameSocket, Drained, drain-total, unread}
use wlan_bridge.Main.Run.{EndsWell, run-total}
use wlan_bridge.Main.Single
use wlan_bridge.Main.Single.{Receiver, server_runing}
use wlan_bridge.Main.Single.Drain.{DrainingOne}
use wlan_bridge.Main.Single.Run.{server_runing-total}
use wlan_bridge.Tests.Setup.{peer}
use wlan_bridge.Tests.Bridge.{three-IsValid}
use wlan_bridge.Tests.Network.{woken}
use wlan_bridge.Tests.Ledger.{queue, left, draining, server}

drain-total_example :
    (m' : Server (List (Mac × FdbEntry)) (List WlanListEntry) (List (ℕ × Ptr))) × (drain queue 2
        server
      ≡ some m')
    × Drained queue left m'
    × (unread queue left m' ≤ unread queue left server)
    × SameSocket queue left server m'
drain-total_example = drain-total queue left draining 2 server three-IsValid (omega arith)

run-total_example :
    EndsWell queue left draining server (server_runing_burst queue 2 server (woken (pos 3)))
run-total_example =
    run-total queue left draining 2 server (woken (pos 3)) three-IsValid (omega arith)

draining_one : DrainingOne queue.kernel left
draining_one = record { queue = draining; takes = takes }
  where
    takes :
        (log : List Call) (fd : ℤ) (len : ℕ)
        → let r = queue.kernel.recv_ret (log ++ recvfrom fd len ∷ []) in
          (r.failed || first_len queue.kernel len r.arrivals == 0) ≡ false
          → left (log ++ recvfrom fd len ∷ []) < left log
    takes [] fd len h = omega arith
    takes (c ∷ []) fd len h = cc
    takes (c ∷ d ∷ log) fd len h = cc

abbrev receiver : Receiver (List (Mac × FdbEntry)) (List WlanListEntry) (List (ℕ × Ptr))
receiver = record { server = server; slot = record { buf = []; data_len = 0; peer_addr = peer 0 } }

server_runing-total_example :
    Single.Run.EndsWell queue left draining_one receiver
      (server_runing queue 2 receiver (woken (pos 3)))
server_runing-total_example =
    server_runing-total queue left draining_one 2 receiver (woken (pos 3)) three-IsValid
      (omega arith)
