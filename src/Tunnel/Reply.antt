-- ===== src/Tunnel/Reply.antt =====
-- Two turns of the server's loop: what the first datagram teaches the bridge decides where a reply
-- goes.
use wlan_bridge.Common.{
  suc, ℕ, ◌≤◌, ◌≡◌, refl, ◌∙◌, ap, false, none, some, Option, List, [], ◌∷◌, ◌++◌, length, take,
  drop, take-append,
}
use mathlib.Core.Option
use mathlib.Core.Logic.{if_pos}
use wlan_bridge.Net.{SockaddrIn, same_peer}
use wlan_bridge.Ether.{Mac-discrete, ethhdr_of, is_multicast_ether_addr}
use wlan_bridge.Ether.Laws.{mac_at-append}
use wlan_bridge.Fdb.{FdbEntry}
use wlan_bridge.Peers.Update.{IsValid}
use wlan_bridge.Udp
use wlan_bridge.Udp.{Slot, called, recvmmsg}
use wlan_bridge.Forward.{Env, find_entry}
use wlan_bridge.Forward.Switch.{view, learns, learns_new}
use wlan_bridge.Forward.Burst.{NeverFails, burst-refines}
use wlan_bridge.Forward.BurstEntry.{learns_all}
use wlan_bridge.Main
use wlan_bridge.Main.{drain, Server, pass_on, received}
use wlan_bridge.Client.Running.Carry.{packed}
use wlan_bridge.Tunnel.{turn, turn_read, turn_log, drain-turn}

bound_entry :
    (found : Option FdbEntry) (a : SockaddrIn)
    → Option.map (λ (e : FdbEntry). e.peer_addr) found ≡ some a
    → (e : FdbEntry) × (found ≡ some e) × (e.peer_addr ≡ a)
bound_entry none a h = cc
bound_entry (some e) a h = (e, refl, cc)

module _ {T L S : Type 0} (env : Env T L S) (mem : NeverFails env) (m : Server T L S) (slot : Slot)
    (places : List Slot) (frame : List ℕ) (from : SockaddrIn) (errno : ℕ)
    (slots : m.slots ≡ slot ∷ places)
    (arrives : env.kernel.recv_ret (
        m.bridge.udp.log
        ++ recvmmsg m.bridge.udp.serv_sock Main.max_data_len (length (slot ∷ places)) ∷ [])
      ≡ record {
        failed = false;
        errno = errno;
        arrivals = record { bytes = frame; from = from } ∷ [];
      })
    (most : length frame ≤ Main.max_data_len) where
  -- The first place then holds the frame.
  turn_slots :
      (turn env m).slots
      ≡ record {
        buf = frame ++ drop (length frame) slot.buf;
        data_len = length frame;
        peer_addr = from;
      }
        ∷ places
  unfolding pass_on
  turn_slots = rw (turn_read env m slot places frame from errno slots arrives most) refl

  module _ (valid : IsValid env.utlist m.bridge.peers) (least : 12 ≤ length frame) where
    -- What the bridge then knows is what the switch learns from the frame.
    view-turn :
        view env (turn env m).bridge ≡ learns (view env m.bridge) from (ethhdr_of frame).h_source
    unfolding pass_on received learns_all find_entry
    view-turn =
        let b = record m.bridge {
          udp =
              called m.bridge.udp
                (recvmmsg m.bridge.udp.serv_sock Main.max_data_len (length (slot ∷ places)));
        } in
        let source = mac_at-append frame (drop (length frame) slot.buf) 6 least in
        let learned = (burst-refines env mem b (packed frame slot.buf from ∷ []) valid).0 in
        rw (turn_read env m slot places frame from errno slots arrives most)
          (learned ∙ ap (λ h. learns (view env m.bridge) from h) source)

    -- A new source address is bound to the peer that the frame came from.
    turn_learned :
        find_entry env m.bridge (ethhdr_of frame).h_source ≡ none
        → (e : FdbEntry) × (find_entry env (turn env m).bridge (ethhdr_of frame).h_source ≡ some e)
          × (e.peer_addr ≡ from)
    turn_learned new =
        let h = (ethhdr_of frame).h_source in
        let learned =
          view-turn
          ∙ learns_new (view env m.bridge) from h
              (ap (Option.map (λ (e : FdbEntry). e.peer_addr)) new) in
        bound_entry (find_entry env (turn env m).bridge h) from
          (ap (λ v. v.bound h) learned ∙ if_pos (Mac-discrete h h) refl _ _)

    -- The server answers: where memory lasts and the peer list is well formed, a frame of 12 to 1518
    -- bytes whose single source address is new sends every frame of 6 to 1518 bytes for that
    -- address, read next from any other peer, to the peer that the first came from: it is handed,
    -- alone and whole, to sendmmsg for that peer. The two turns are drain's.
    pub tunnel-replies :
        (reply : List ℕ) (other : SockaddrIn) (errno2 : ℕ)
        → find_entry env m.bridge (ethhdr_of frame).h_source ≡ none
        → is_multicast_ether_addr (ethhdr_of frame).h_source ≡ false
        → (ethhdr_of reply).h_dest ≡ (ethhdr_of frame).h_source
        → 6 ≤ length reply
        → length reply ≤ Main.max_data_len
        → same_peer from other ≡ false
        → let udp = (turn env m).bridge.udp in
          let read2 =
            udp.log ++ recvmmsg udp.serv_sock Main.max_data_len (length (slot ∷ places)) ∷ [] in
          env.kernel.recv_ret read2 ≡ record {
            failed = false;
            errno = errno2;
            arrivals = record { bytes = reply; from = other } ∷ [];
          }
          → ((fuel : ℕ) → drain env (suc (suc fuel)) m ≡ drain env fuel (turn env (turn env m)))
            × (more : List Udp.Call) × (buf : List ℕ) × (take (length reply) buf ≡ reply)
            × ((turn env (turn env m)).bridge.udp.log
                ≡ read2
                  ++ Udp.sendmmsg udp.serv_sock
                      (record { len = length reply; buf = buf; addr = from } ∷ [])
                    ∷ more)
    tunnel-replies reply other errno2 new single dest least2 most2 away arrives2 =
        let (e, found, at) = turn_learned new in
        let udp = (turn env m).bridge.udp in
        let held = frame ++ drop (length frame) slot.buf in
        let filled : Slot = record { buf = held; data_len = length frame; peer_addr = from } in
        let sent =
          turn_log env (turn env m) filled places reply other errno2 turn_slots arrives2 most2 e
            least2 (rw dest found) (rw dest single) (rw at away) in
        (
          λ fuel.
              drain-turn env m slot places frame from errno slots arrives most (suc fuel)
              ∙ drain-turn env (turn env m) filled places reply other errno2 turn_slots arrives2
                  most2 fuel,
          sent.0,
          reply ++ drop (length reply) held,
          take-append reply (drop (length reply) held),
          sent.1
              ∙ ap
                  (λ a.
                    (udp.log
                      ++ recvmmsg udp.serv_sock Main.max_data_len (length (slot ∷ places)) ∷ [])
                    ++ Udp.sendmmsg udp.serv_sock (packed reply held a ∷ []) ∷ sent.0)
                  at,
        )
