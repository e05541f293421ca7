-- ===== src/Tests/Program.antt =====
-- The theorems on the whole run of the server: one datagram waits when the program starts, host 1's to
-- host 3.
use wlan_bridge.Common.{
  ℕ, zero, suc, ◌≤◌, ◌<◌, ◌≡◌, refl, false, some, List, [], ◌∷◌, ◌++◌, arith, length, length-append,
  Ptr, pos, negsuc, ℤ, if◌then◌else◌, ltb, ◌==◌,
}
use wlan_bridge.Ether.{Mac, is_multicast_ether_addr}
use wlan_bridge.Fdb.{FdbEntry, wlan_br_find}
use wlan_bridge.Peers.{WlanListEntry}
use wlan_bridge.Udp.{Call, Arrival, recvmmsg, nothing, create_udp_server}
use wlan_bridge.Forward.{Env, find_entry, wlan_br_handle_burst}
use wlan_bridge.Forward.Switch.{view}
use wlan_bridge.Forward.Asked.{asks}
use wlan_bridge.Forward.Totals.{Log, ledger}
use wlan_bridge.Forward.Reach.{Answers, burst-answers}
use wlan_bridge.Uthash.Assoc
use wlan_bridge.Net.{Datagram}
use wlan_bridge.Tests.Bridge.{start-IsValid}
use wlan_bridge.Forward.Burst.{NeverFails}
use wlan_bridge.Main.Drain.{Draining}
use wlan_bridge.Main.Account.{Bounded}
use wlan_bridge.Main.Start
use wlan_bridge.Main.Start.{Process, udp_port}
use wlan_bridge.Main.Start.Fresh.{Fresh}
use wlan_bridge.Main.Start.Program.{Implements, main-Implements}
use wlan_bridge.Cli.Listen.{unopened}
use wlan_bridge.Tests.Setup.{env, peer, frame, broadcast, start, willing}
use wlan_bridge.Tests.Network.{fresh_server, woken}
use wlan_bridge.Tests.Ledger.{asked_for, at_most_one}
use wlan_bridge.Tests.Whole.{system}

-- The fifth call, behind the four of create_udp_server, finds a datagram, where it asks for one.
abbrev waiting : List Call → List Arrival
waiting (c1 ∷ c2 ∷ c3 ∷ c4 ∷ c5 ∷ []) = at_most_one (asked_for c5)
waiting _ = []

abbrev queue : Env (List (Mac × FdbEntry)) (List WlanListEntry) (List (ℕ × Ptr))
queue = record env {
  kernel = record willing {
    recv_ret = λ log. record { failed = false; errno = 11; arrivals = waiting log };
  };
}

at_most : (n : ℕ) → length (at_most_one n) ≤ n
at_most zero = omega arith
at_most (suc n) = omega arith

bounded : Bounded queue.kernel
bounded = record { bound = within }
  where
    within :
        (log : List Call) (fd : ℤ) (max_len n : ℕ)
        → length (waiting (log ++ recvmmsg fd max_len n ∷ [])) ≤ n
    within [] fd max_len n = omega arith
    within (c1 ∷ []) fd max_len n = omega arith
    within (c1 ∷ c2 ∷ []) fd max_len n = omega arith
    within (c1 ∷ c2 ∷ c3 ∷ []) fd max_len n = omega arith
    within (c1 ∷ c2 ∷ c3 ∷ c4 ∷ []) fd max_len n = at_most n
    within (c1 ∷ c2 ∷ c3 ∷ c4 ∷ c5 ∷ []) fd max_len n = omega arith
    within (c1 ∷ c2 ∷ c3 ∷ c4 ∷ c5 ∷ c6 ∷ log) fd max_len n = omega arith

abbrev left : List Call → ℕ
left log = if ltb (length log) 5 then 1 else 0

draining : Draining queue.kernel left
draining = record { takes = takes; keeps = λ log c. ground (arith, length-append log (c ∷ [])) }
  where
    takes :
        (log : List Call) (fd : ℤ) (len n : ℕ)
        → nothing (queue.kernel.recv_ret (log ++ recvmmsg fd len n ∷ [])) ≡ false
        → left (log ++ recvmmsg fd len n ∷ []) < left log
    takes [] fd len n h = cc
    takes (c1 ∷ []) fd len n h = cc
    takes (c1 ∷ c2 ∷ []) fd len n h = cc
    takes (c1 ∷ c2 ∷ c3 ∷ []) fd len n h = cc
    takes (c1 ∷ c2 ∷ c3 ∷ c4 ∷ []) fd len n h = omega arith
    takes (c1 ∷ c2 ∷ c3 ∷ c4 ∷ c5 ∷ []) fd len n h = cc
    takes (c1 ∷ c2 ∷ c3 ∷ c4 ∷ c5 ∷ c6 ∷ log) fd len n h = cc

never : NeverFails queue
never = record { fdb = λ n. refl; list = λ n. refl }

-- The program with empty tables.
abbrev process : Process (List (Mac × FdbEntry)) (List WlanListEntry) (List (ℕ × Ptr))
process = record {
  server = record fresh_server { bridge = start };
  listener = unopened;
  epfd = negsuc 0;
  calls = [];
}

fresh : Fresh queue start
fresh = record { fdb = refl; list = refl; stats = refl }

-- create_udp_server gives descriptor 3.
opened : (create_udp_server queue.kernel start.udp udp_port).0 ≡ pos 3
unfolding create_udp_server
opened = refl

main-Implements_example :
    let (fd, udp) = create_udp_server queue.kernel start.udp udp_port in
    (p' : Process (List (Mac × FdbEntry)) (List WlanListEntry) (List (ℕ × Ptr))) × (Start.main queue
        system 2
        (woken (pos 3))
        process
      ≡ some (pos 0, p'))
    × Implements queue udp fd p'.server.bridge
main-Implements_example =
    main-Implements queue left draining system never (λ n. refl) bounded 2 (woken (pos 3)) process
      fresh (omega arith) (λ e. let d : pos 3 ≡ negsuc 0 = rw (← opened) e in cc)

-- Host 1 is heard, and host 3, behind another peer, answers it in the same burst.
abbrev first : Datagram
first = record { len = 60; buf = broadcast 1; addr = peer 10 }

abbrev second : Datagram
second = record { len = 60; buf = frame 3 1; addr = peer 20 }

answers : Answers (view env start) [] first second
unfolding is_multicast_ether_addr find_entry wlan_br_find Assoc.find
answers = record { new = refl; first = tt; answer = refl; single = refl; away = refl }

burst-answers_example :
    (new : List Call) × Log start.udp.log new
      (wlan_br_handle_burst env start (first ∷ second ∷ [])).udp.log
    × (1 ≤ ledger (asks (λ len buf. len == 60) (peer 10)) false start.udp.log new)
burst-answers_example =
    burst-answers env (record { fdb = λ n. refl; list = λ n. refl }) start [] [] [] first second
      start-IsValid answers (λ len buf. len == 60) refl
