-- ===== src/Tests/Ledger.antt =====
-- The theorem on the counters over a run: host 1 writes to host 3 in one datagram, which the server
-- reads, sends on and counts.
use wlan_bridge.Common.{
  ℕ, zero, suc, ◌≤◌, ◌<◌, ◌≡◌, ◌⊎◌, refl, false, some, List, [], ◌∷◌, ◌++◌, arith, length,
  length-append, Ptr, pos, ℤ, if◌then◌else◌, ◌==◌,
}
use wlan_bridge.Ether.{Mac, Mac-discrete, is_multicast_ether_addr}
use wlan_bridge.Fdb.{FdbEntry, wlan_br_find, wlan_fdb_update}
use wlan_bridge.Udp.{
  Call, Arrival, recvmmsg, recvfrom, nothing, send_data_to_udp_client,
  read_data_from_udp_client_burst, send_data_to_udp_client_burst,
}
use wlan_bridge.Forward.{Env, wlan_br_handle, wlan_br_handle_burst}
use wlan_bridge.Main.{Server, Event, on_wakeup, server_runing_burst, max_data_len, no_events}
use wlan_bridge.Main.InRange.{SlotFits, CountersFit, Typed, run-Typed}
use wlan_bridge.Forward.InRange.{InRange}
use wlan_bridge.Peers.{WlanListEntry, wlan_list_update}
use wlan_bridge.Peers.Range.{wlan_list_update-AllFit}
use wlan_bridge.Peers.Update.{wlan_list_update-IsValid}
use wlan_bridge.Main.Drain.{Draining, Drained, unread}
use wlan_bridge.Main.Wakeup.{Empties, SaysAgain, wakeup-Drained}
use mathlib.Core.List.{Memᴰ}
use wlan_bridge.Main.Refines.{Switched, run-refines}
use wlan_bridge.Forward.Burst.{NeverFails}
use wlan_bridge.Main.Account.{Bounded, Settled, run-counts}
use wlan_bridge.Tests.Setup.{env, peer, mac, frame, start, willing}
use wlan_bridge.Tests.Bridge.{three-IsValid, start-IsValid}
use wlan_bridge.Tests.Network.{fresh_server, woken}
use wlan_bridge.Tests.Counters.{valid}
use wlan_bridge.Network.{ended}
use wlan_bridge.Statistics.{
  Tatistics, count_rx, count_tx, wlan_ip_static_find, wlan_ip_static_update_rx,
  wlan_ip_static_update_tx,
}
use wlan_bridge.Statistics.Laws.{curr}
use wlan_bridge.Uthash.Assoc

-- How many messages a call asks for.
abbrev pub asked_for : Call → ℕ
asked_for (recvmmsg fd max_len n) = n
asked_for (recvfrom fd max_len) = 1
asked_for _ = 0

abbrev pub at_most_one : ℕ → List Arrival
at_most_one zero = []
at_most_one (suc n) = record { bytes = frame 1 3; from = peer 10 } ∷ []

-- The first call finds a datagram, where it asks for one.
abbrev pub waiting : List Call → List Arrival
waiting [] = []
waiting (c ∷ []) = at_most_one (asked_for c)
waiting (c ∷ d ∷ log) = []

abbrev pub queue : Env (List (Mac × FdbEntry)) (List WlanListEntry) (List (ℕ × Ptr))
queue = record env {
  kernel = record willing {
    recv_ret =
        λ log. record { failed = length (waiting log) == 0; errno = 11; arrivals = waiting log };
  };
}

bounded : Bounded queue.kernel
bounded = record { bound = within }
  where
    within :
        (log : List Call) (fd : ℤ) (max_len n : ℕ)
        → length (waiting (log ++ recvmmsg fd max_len n ∷ [])) ≤ n
    within [] fd max_len zero = omega arith
    within [] fd max_len (suc n) = omega arith
    within (c ∷ []) fd max_len n = omega arith
    within (c ∷ d ∷ log) fd max_len n = omega arith

abbrev pub left : List Call → ℕ
left log = if length log == 0 then 1 else 0

pub draining : Draining queue.kernel left
draining = record { takes = takes; keeps = λ log c. ground (arith, length-append log (c ∷ [])) }
  where
    takes :
        (log : List Call) (fd : ℤ) (len n : ℕ)
        → nothing (queue.kernel.recv_ret (log ++ recvmmsg fd len n ∷ [])) ≡ false
        → left (log ++ recvmmsg fd len n ∷ []) < left log
    takes [] fd len n h = omega arith
    takes (c ∷ []) fd len n h = cc
    takes (c ∷ d ∷ log) fd len n h = cc

-- The server of three hosts, with no counters yet.
abbrev pub server : Server (List (Mac × FdbEntry)) (List WlanListEntry) (List (ℕ × Ptr))
server = record fresh_server { bridge = record fresh_server.bridge { stats = start.stats } }

run-counts_example :
    (m' : Server (List (Mac × FdbEntry)) (List WlanListEntry) (List (ℕ × Ptr)))
    × (server_runing_burst queue 2 server (woken (pos 3)) ≡ some m')
    × ((a : ℕ) → Settled queue a server.bridge m'.bridge)
run-counts_example =
    run-counts queue left draining (λ n. refl) bounded 2 server (woken (pos 3)) three-IsValid valid
      (omega arith)

-- epoll reports another descriptor, and the socket.
abbrev both : List Event
both = record { events = 1; fd = pos 9 } ∷ record { events = 1; fd = pos 3 } ∷ []

empties : Empties queue.kernel left
empties = record {
  empties = λ log fd len n a. ground (arith, length-append log (recvmmsg fd len n ∷ []));
}

wakeup-Drained_example :
    (m' : Server (List (Mac × FdbEntry)) (List WlanListEntry) (List (ℕ × Ptr))) × (on_wakeup queue 2
        server
        (pos 2)
        both
      ≡ some m')
    × Drained queue left m'
    × ((unread queue left m' ≡ 0) ⊎ (¬ SaysAgain (queue.kernel.recv_ret m'.bridge.udp.log)))
wakeup-Drained_example =
    wakeup-Drained queue left draining 2 server 1 both empties three-IsValid (omega arith) (
      record { events = 1; fd = pos 3 },
      Memᴰ.tail (Memᴰ.head refl),
      record { input = refl; socket = refl },
    )

never : NeverFails queue
never = record { fdb = λ n. refl; list = λ n. refl }

run-refines_example :
    (m' : Server (List (Mac × FdbEntry)) (List WlanListEntry) (List (ℕ × Ptr)))
    × (server_runing_burst queue 2 server (woken (pos 3)) ≡ some m')
    × Switched queue server.bridge m'.bridge
run-refines_example =
    run-refines queue left draining never bounded 2 server (woken (pos 3)) three-IsValid
      (omega arith)

-- The counters of an address when the loop is over.
abbrev counters : ℕ → Tatistics
counters a =
    curr queue.ips queue.stat_oom
      (ended server (server_runing_burst queue 2 server (woken (pos 3)))).bridge.stats a

-- Fourteen bytes came from peer 10 and went to peer 20.
counted :
    ((counters 10).rx_packets ≡ 1)
    × ((counters 10).rx_bytes ≡ 14)
    × ((counters 20).tx_packets ≡ 1)
    × ((counters 20).tx_bytes ≡ 14)
unfolding server_runing_burst wlan_br_handle wlan_br_find wlan_fdb_update wlan_list_update
    send_data_to_udp_client send_data_to_udp_client_burst wlan_br_handle_burst
    read_data_from_udp_client_burst Assoc.find Assoc.add Mac-discrete is_multicast_ether_addr
    wlan_ip_static_update_rx wlan_ip_static_update_tx wlan_ip_static_find curr count_rx count_tx
counted = (refl, refl, refl, refl)

abbrev zeros : ℕ → List ℕ
zeros zero = []
zeros (suc n) = 0 ∷ zeros n

length-zeros : (n : ℕ) → length (zeros n) ≡ n
length-zeros zero = refl
length-zeros (suc n) = omega (arith, length-zeros n)

-- The server that knows host 3 behind peer 20, with one empty buffer.
abbrev knowing : Server (List (Mac × FdbEntry)) (List WlanListEntry) (List (ℕ × Ptr))
knowing = record fresh_server {
  bridge = record start {
    peers = (wlan_list_update env.utlist env.list_oom start.peers (peer 20) (mac 3)).1;
  };
  slots = record { buf = zeros max_data_len; data_len = 0; peer_addr = peer 0 } ∷ [];
}

fits : InRange knowing.bridge
fits = record {
  peers =
      wlan_list_update-AllFit env.utlist env.list_oom start.peers (peer 20) (mac 3)
        (λ p. record { count = omega arith; flood_flag = omega arith });
  stats = λ p. record {
    rx_packets = omega arith;
    rx_bytes = omega arith;
    tx_packets = omega arith;
    tx_bytes = omega arith;
  };
}

empty_slot : SlotFits (record { buf = zeros max_data_len; data_len = 0; peer_addr = peer 0 })
empty_slot = record { whole = length-zeros max_data_len; filled = omega arith }

no_counts : CountersFit no_events
no_counts = record { timeout = omega arith; error = omega arith; recv = omega arith }

run-Typed_example :
    (m' : Server (List (Mac × FdbEntry)) (List WlanListEntry) (List (ℕ × Ptr)))
    × (server_runing_burst queue 2 knowing (woken (pos 3)) ≡ some m')
    × Typed queue knowing.bridge.udp m'
run-Typed_example =
    run-Typed queue left draining 2 knowing (woken (pos 3))
      (wlan_list_update-IsValid env.utlist env.list_oom start.peers (peer 20) (mac 3) start-IsValid)
      fits (empty_slot, tt) no_counts (omega arith)
