-- ===== src/Tests/Loop.antt =====
-- The theorems on the receive loop, as the other tests use them: a kernel that has nothing to read.
use wlan_bridge.Common.{ℕ, refl, true, false, List, [], ◌∷◌, arith, Ptr, pos}
use wlan_bridge.Ether.{Mac}
use wlan_bridge.Fdb.{FdbEntry}
use wlan_bridge.Peers.{WlanListEntry}
use wlan_bridge.Udp.{Call}
use wlan_bridge.Main.{Server, Round, no_events}
use wlan_bridge.Main.Drain.{Draining}
use wlan_bridge.Forward.Burst.{NeverFails}
use wlan_bridge.Tests.Setup.{env, peer}
use wlan_bridge.Tests.Bridge.{three}

abbrev pub server : Server (List (Mac × FdbEntry)) (List WlanListEntry) (List (ℕ × Ptr))
server = record {
  bridge = three;
  slots = record { buf = []; data_len = 0; peer_addr = peer 0 } ∷ [];
  epoll_stat_info = no_events;
  udp_sock_fd = pos 3;
  rx_task_is_running = true;
}

pub never : NeverFails env
never = record { fdb = λ n. refl; list = λ n. refl }

-- No read finds anything.
abbrev pub left : List Call → ℕ
left log = 0

pub draining : Draining env.kernel left
draining = record { takes = λ log fd len n h. cc; keeps = λ log c. omega arith }

-- A wakeup with a datagram announced, one that times out, and one that the signal ends.
abbrev pub rounds : List Round
rounds =
    record { signalled = false; nfds = pos 1; evs = record { events = 1; fd = pos 3 } ∷ [] }
    ∷ record { signalled = false; nfds = pos 0; evs = [] }
    ∷ record { signalled = true; nfds = pos 1; evs = record { events = 1; fd = pos 3 } ∷ [] }
    ∷ []
