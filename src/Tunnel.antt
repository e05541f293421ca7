-- ===== src/Tunnel.antt =====
-- The two programs together, over the network between them: a client takes a frame from its device,
-- the server passes it on, and another client writes it to its own device. UDP delivers the bytes of
-- a datagram: the buffer as far as the length that was sent.
use wlan_bridge.Client.{write_to, sendto, recvfrom, read_from, Client}
pub mod Reply
use wlan_bridge.Common.{
  suc, pos, ℕ, ◌≤◌, ◌≡◌, refl, sym, ap, ◌∙◌, false, some, List, [], ◌∷◌, ◌++◌, arith, length, take,
  drop, take_all, take-append,
}
use wlan_bridge.Net.{SockaddrIn, Datagram, same_peer}
use wlan_bridge.Ether.{ethhdr_of, is_multicast_ether_addr}
use wlan_bridge.Ether.Laws.{mac_at-append}
use wlan_bridge.Fdb.{FdbEntry}
use wlan_bridge.Udp
use wlan_bridge.Udp.{
  Slot, Udp, called, recvmmsg, read_data_from_udp_client_burst, fill, fill_all,
  send_data_to_udp_client_burst,
}
use wlan_bridge.Forward.{Env, find_entry}
use wlan_bridge.Forward.One.{burst_one, burst_send_first}
use wlan_bridge.Main
use wlan_bridge.Main.{Server, read, pass_on, received, drain}
use wlan_bridge.Client.Running.{Buffers, from_tuntap, from_udp}
use wlan_bridge.Client.Running.Carry.{from_udp-carries, packed, from_tuntap_log}
use wlan_bridge.Client

-- What UDP delivers of a datagram.
abbrev pub payload : Datagram → List ℕ
payload d = take d.len d.buf

packed_payload : (frame buf : List ℕ) (a : SockaddrIn) → payload (packed frame buf a) ≡ frame
packed_payload frame buf a = take-append frame (drop (length frame) buf)

fill_all_none : (max_len : ℕ) (places : List Slot) → fill_all max_len places [] ≡ places
unfolding fill_all
fill_all_none max_len [] = refl
fill_all_none max_len (s ∷ ss) = refl

-- The loop's turn on one datagram.
abbrev pub turn : {T L S : Type 0} → Env T L S → Server T L S → Server T L S
turn env m = pass_on env 1 (read env m).1

module _ {T L S : Type 0} (env : Env T L S) (m : Server T L S) (slot : Slot) (places : List Slot)
    (frame : List ℕ) (from : SockaddrIn) (errno : ℕ) (slots : m.slots ≡ slot ∷ places)
    (arrives : env.kernel.recv_ret (
        m.bridge.udp.log
        ++ recvmmsg m.bridge.udp.serv_sock Main.max_data_len (length (slot ∷ places)) ∷ [])
      ≡ record {
        failed = false;
        errno = errno;
        arrivals = record { bytes = frame; from = from } ∷ [];
      })
    (most : length frame ≤ Main.max_data_len) where
  turn_read : (read env m).1 ≡ record m {
    bridge = record m.bridge {
      udp =
          called m.bridge.udp
            (recvmmsg m.bridge.udp.serv_sock Main.max_data_len (length (slot ∷ places)));
    };
    slots =
        record {
          buf = frame ++ drop (length frame) slot.buf;
          data_len = length frame;
          peer_addr = from;
        }
        ∷ places;
  }
  unfolding read read_data_from_udp_client_burst fill_all fill
  turn_read =
      rw (slots, arrives, read, take_all Main.max_data_len frame most)
        (rw (fill_all_none Main.max_data_len places) refl)

  turn_one : (read env m).0 ≡ pos 1
  unfolding read read_data_from_udp_client_burst fill_all
  turn_one = rw (slots, arrives, read) refl

  -- The inner loop takes this turn, and goes on.
  drain-turn : (fuel : ℕ) → drain env (suc fuel) m ≡ drain env fuel (turn env m)
  unfolding drain
  drain-turn fuel = rw (turn_one, drain) refl

  module _ (e : FdbEntry) (least : 6 ≤ length frame)
      (known : find_entry env m.bridge (ethhdr_of frame).h_dest ≡ some e)
      (single : is_multicast_ether_addr (ethhdr_of frame).h_dest ≡ false)
      (away : same_peer e.peer_addr from ≡ false) where
    turn_log :
        (more : List Udp.Call) × ((turn env m).bridge.udp.log
          ≡ (m.bridge.udp.log
              ++ recvmmsg m.bridge.udp.serv_sock Main.max_data_len (length (slot ∷ places)) ∷ [])
            ++ Udp.sendmmsg m.bridge.udp.serv_sock (packed frame slot.buf e.peer_addr ∷ []) ∷ more)
    unfolding pass_on received find_entry
    turn_log =
        let b = record m.bridge {
          udp =
              called m.bridge.udp
                (recvmmsg m.bridge.udp.serv_sock Main.max_data_len (length (slot ∷ places)));
        } in
        let dest = mac_at-append frame (drop (length frame) slot.buf) 0 least in
        let one =
          burst_one env b (packed frame slot.buf from) e (rw dest known) (rw dest single) away in
        let sent = burst_send_first env.kernel b.udp (packed frame slot.buf e.peer_addr ∷ []) in
        (sent.0, rw (turn_read) (ap (λ u. u.log) one ∙ sent.1))

-- A frame of 6 to 1518 bytes that one client has from its device, for a single address that the
-- server has learned behind another peer than the one the frame comes from, reaches that peer's
-- device whole: where each read gives what the sender before it was asked to send, the client sends
-- the frame to its server, the server hands it, alone and for that peer, to sendmmsg, and the
-- client there writes exactly the frame. The turn of the server's loop that does so is drain's.
pub tunnel-delivers :
    {T L S : Type 0} (env : Env T L S) (m : Server T L S) (slot : Slot) (places : List Slot)
    (kernel_a kernel_b : Client.Kernel) (a b : Client) (at_a at_b : Buffers) (frame : List ℕ)
    (from : SockaddrIn) (errno : ℕ) (e : FdbEntry)
    → m.slots ≡ slot ∷ places
    → 6 ≤ length frame
    → length frame ≤ Main.max_data_len
    → find_entry env m.bridge (ethhdr_of frame).h_dest ≡ some e
    → is_multicast_ether_addr (ethhdr_of frame).h_dest ≡ false
    → same_peer e.peer_addr from ≡ false
    → let read_a = a.log ++ read_from a.tun_fd Main.max_data_len ∷ [] in
      let read_m =
        m.bridge.udp.log
        ++ recvmmsg m.bridge.udp.serv_sock Main.max_data_len (length (slot ∷ places)) ∷ [] in
      let read_b = b.log ++ recvfrom b.udp_sock Main.max_data_len ∷ [] in
      let sent = packed frame at_a.tuntap_buf a.serv_adr in
      let passed = packed frame slot.buf e.peer_addr in
      kernel_a.got read_a ≡ some frame
      → env.kernel.recv_ret read_m ≡ record {
        failed = false;
        errno = errno;
        arrivals = record { bytes = payload sent; from = from } ∷ [];
      }
      → kernel_b.got read_b ≡ some (payload passed)
      → ((fuel : ℕ) → drain env (suc fuel) m ≡ drain env fuel (turn env m))
        × ((from_tuntap kernel_a (a, at_a)).0.log ≡ read_a ++ sendto a.udp_sock sent ∷ [])
        × ((more : List Udp.Call) × ((turn env m).bridge.udp.log
              ≡ read_m ++ Udp.sendmmsg m.bridge.udp.serv_sock (passed ∷ []) ∷ more))
        × ((written : List ℕ) × (take (length frame) written ≡ frame)
            × ((from_udp kernel_b (b, at_b)).0.log
                ≡ read_b ++ write_to b.tun_fd (length frame) written ∷ []))
tunnel-delivers env m slot places kernel_a kernel_b a b at_a at_b frame from errno e slots least
      most known single away device arrives given =
    (
      drain-turn env m slot places frame from errno slots
          (rw (sym (packed_payload frame at_a.tuntap_buf a.serv_adr)) arrives) most,
      from_tuntap_log kernel_a a at_a frame device (omega arith) most,
      turn_log env m slot places frame from errno slots
          (rw (sym (packed_payload frame at_a.tuntap_buf a.serv_adr)) arrives) most e least known
          single away,
      from_udp-carries kernel_b b at_b frame
          (rw (sym (packed_payload frame slot.buf e.peer_addr)) given) (omega arith) most,
    )
