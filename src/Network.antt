-- ===== src/Network.antt =====
-- The server and any number of clients, over a network that delivers what was sent: UDP may lose,
-- repeat and reorder datagrams, but each that arrives was sent, unchanged, and to where it arrives.
pub mod Logs
use wlan_bridge.Common.{
  ℕ, ◌<◌, ◌≡◌, refl, sym, ◌∙◌, ap, false, Option, none, some, List, [], ◌∷◌, ◌++◌, All, All-weaken,
  ℤ, take, take-take,
}
use mathlib.Core.List.{Memᴰ}
use wlan_bridge.Net.{SockaddrIn, Datagram, same_peer}
use wlan_bridge.Udp
use wlan_bridge.Udp.{Arrival}
use wlan_bridge.Forward.{Env}
use wlan_bridge.Main.{Server, Round, max_data_len, server_runing_burst}
use wlan_bridge.Main.Drain.{Draining, Healthy, unread}
use wlan_bridge.Main.Relay.{CameIn, Relayed}
use wlan_bridge.Main.Relay.Run.{run-relays}
use wlan_bridge.Client
use wlan_bridge.Client.{Client, read_from, recvfrom}
use wlan_bridge.Client.Running.{Buffers, runing}
use wlan_bridge.Client.Running.Relay.{Gave, runing-carries}
use wlan_bridge.Tunnel.{payload}
use wlan_bridge.Network.Logs.{
  sends, client_sends, writes, All_Mem, sends-All, client-All, OfDevice, OfServer,
}

-- A client: its kernel, the state and the buffers that its loop starts with, the rounds that it
-- takes, and its address as the server sees it.
pub record Site : Type 0 where
  pub kernel : Client.Kernel
  pub client : Client
  pub buffers : Buffers
  pub rounds : List Round
  pub addr : SockaddrIn

-- The calls of a client when its loop is over.
abbrev pub calls_of : Site → List Client.Call
calls_of s = (runing s.kernel (s.client, s.buffers) s.rounds).0.log

-- The server when its loop is over; where the fuel ran out, as it was.
abbrev pub ended : {T L S : Type 0} → Server T L S → Option (Server T L S) → Server T L S
ended m none = m
ended m (some m') = m'

-- What arrives at the server was sent by the client that it comes from, and what a client's socket
-- gives was sent to it by the server.
pub record Delivers {I : Type 0} (sites : I → Site) (kernel : Udp.Kernel) (log : List Udp.Call)
    : Type 0 where
  pub to_server :
      (before more : List Udp.Call) (a : Arrival)
      → log ≡ before ++ more
      → Memᴰ a (kernel.recv_ret before).arrivals
      → (j : I) × (d : Datagram) × Memᴰ d (client_sends (calls_of (sites j)))
        × (payload d ≡ a.bytes)
        × (a.from ≡ (sites j).addr)
  pub to_client :
      (i : I) (before more : List Client.Call) (fd : ℤ) (bytes : List ℕ)
      → calls_of (sites i) ≡ (before ++ recvfrom fd max_data_len ∷ []) ++ more
      → (sites i).kernel.got (before ++ recvfrom fd max_data_len ∷ []) ≡ some bytes
      → (d : Datagram) × Memᴰ d (sends log) × (payload d ≡ bytes) × (d.addr ≡ (sites i).addr)

module _ {I : Type 0} (sites : I → Site) where
  -- The bytes are those of a frame that another client's device had, as far as a buffer holds them.
  abbrev pub FromAnother : I → List ℕ → Type 0
  FromAnother i bytes =
      (j : I) × Gave read_from (sites j).kernel (calls_of (sites j)) bytes
      × (same_peer (sites i).addr (sites j).addr ≡ false)

  -- No client has sent or written anything before its loop.
  abbrev pub Fresh : I → Type 0
  Fresh i = (client_sends (sites i).client.log ≡ []) × (writes (sites i).client.log ≡ [])

  module _ (fresh : (i : I) → Fresh i) (kernel : Udp.Kernel) (log : List Udp.Call)
      (net : Delivers sites kernel log) where
    client_calls :
        (i : I)
        → All (OfDevice (sites i).kernel (calls_of (sites i))) (client_sends (calls_of (sites i)))
          × All (OfServer (sites i).kernel (calls_of (sites i))) (writes (calls_of (sites i)))
    client_calls i =
        let s = sites i in
        client-All s.kernel s.client.log (fresh i).0 (fresh i).1
          (runing-carries s.kernel s.client s.buffers s.rounds)

    -- What came in at the server came from a client's device.
    CameIn-Gave :
        (d : Datagram)
        → CameIn kernel log d
        → (j : I) × Gave read_from (sites j).kernel (calls_of (sites j)) (payload d)
          × (same_peer d.addr (sites j).addr ≡ false)
    CameIn-Gave d c =
        let (j, x, mem, same, from) = net.to_server c.before c.more c.arrival c.earlier c.arrived in
        let g = All_Mem (OfDevice (sites j).kernel (calls_of (sites j))) mem (client_calls j).0 in
        (
          j,
          record {
            before = g.before;
            fd = g.fd;
            more = g.more;
            earlier = g.earlier;
            found = g.found;
            got = g.got;
            same =
                c.payload
                ∙ ap (take max_data_len) (sym same ∙ g.same)
                ∙ take-take max_data_len g.found;
          },
          rw (← from) (c.away),
        )

    written-FromAnother :
        All (CameIn kernel log) (sends log)
        → (i : I) (w : ℕ × List ℕ) → OfServer (sites i).kernel (calls_of (sites i)) w
        → FromAnother i (take w.0 w.1)
    written-FromAnother came i w g =
        let (d, mem, same, at) = net.to_client i g.before g.more g.fd g.found g.earlier g.got in
        let (j, h, away) = CameIn-Gave d (All_Mem (CameIn kernel log) mem came) in
        (
          j,
          record {
            before = h.before;
            fd = h.fd;
            more = h.more;
            earlier = h.earlier;
            found = h.found;
            got = h.got;
            same =
                g.same
                ∙ ap (take max_data_len) (sym same ∙ h.same)
                ∙ take-take max_data_len h.found;
          },
          rw (← at) away,
        )

module _ {T L S : Type 0} (env : Env T L S) (left : List Udp.Call → ℕ)
    (k : Draining env.kernel left) {I : Type 0} (sites : I → Site) where
  -- Frames are neither made up, altered nor echoed. With a well-formed list, more fuel than the
  -- kernel's queue holds bursts, and nothing sent before the loops, the server's loop comes to an
  -- end; and if every datagram that arrives was sent, unchanged, between the addresses that it
  -- arrives from and at, then each frame that a client writes to its device was read from the
  -- device of a client at another address, byte for byte as far as a buffer holds it. This holds
  -- for any number of clients, any rounds and any failures of calls and of memory.
  pub network-integrity :
      (fuel : ℕ) (m : Server T L S) (rounds : List Round)
      → Healthy env left m
      → unread env left m < fuel
      → sends m.bridge.udp.log ≡ []
      → ((i : I) → Fresh sites i)
      → let m' = ended m (server_runing_burst env fuel m rounds) in
        Delivers sites env.kernel m'.bridge.udp.log
        → (server_runing_burst env fuel m rounds ≡ some m')
          × ((i : I) → All (λ w. FromAnother sites i (take w.0 w.1)) (writes (calls_of (sites i))))
  network-integrity fuel m rounds v lt quiet fresh net =
      let t = run-relays env left k fuel m rounds v lt in
      let same : ended m (server_runing_burst env fuel m rounds) ≡ t.0 = ap (ended m) (t.1) in
      let log = (ended m (server_runing_burst env fuel m rounds)).bridge.udp.log in
      let relayed : Relayed env.kernel m.bridge.udp.log log = rw same (t.2) in
      let came = sends-All env.kernel m.bridge.udp.log quiet relayed in
      (
        t.1 ∙ ap some (sym same),
        λ i.
            All-weaken (OfServer (sites i).kernel (calls_of (sites i)))
              (λ w. FromAnother sites i (take w.0 w.1))
              (written-FromAnother sites fresh env.kernel log net came i) _
              (client_calls sites fresh env.kernel log net i).1,
      )
