-- ===== src/Main/Single.antt =====
-- wlan_br_server/main.c: server_runing, the loop that receives one frame at a time. It is the loop
-- of server_runing_burst without the counters, over one buffer.
pub mod Drain
pub mod Run
use wlan_bridge.Common.{
  ℕ, zero, suc, false, not, ◌||◌, Option, none, some, List, [], ◌∷◌, ◌==◌, if◌then◌else◌, take, ℤ,
  pos, negsuc, ◌==ℤ◌, is_nonpos,
}
use Prim.Native.Nat.{bit_and}
use wlan_bridge.Udp.{Slot, read_data_from_udp_client}
use wlan_bridge.Forward.{Env, wlan_br_handle}
use wlan_bridge.Main.{Server, usr1_handler, Event, Round, max_data_len, epollin, count_of}

-- The server, and the loop's udp_buf and peer_addr.
pub record Receiver (T L S : Type 0) : Type 0 where
  pub server : Server T L S
  pub slot : Slot

-- What the read leaves in the buffer.
unfoldable slot_of : Option Slot → Slot → Slot
slot_of none slot = slot
slot_of (some slot') slot = slot'

module _ {T L S : Type 0} (env : Env T L S) where
  unfoldable pub read_one : Receiver T L S → ℤ × Receiver T L S
  unfolding slot_of
  read_one r =
      let (n, slot', udp') =
        read_data_from_udp_client env.kernel r.server.bridge.udp max_data_len (some r.slot) in
      (
        n,
        record {
          server = record r.server { bridge = record r.server.bridge { udp = udp' } };
          slot = slot_of slot' r.slot;
        },
      )

  unfoldable pub handle_one : ℕ → Receiver T L S → Receiver T L S
  handle_one n r = record r {
    server = record r.server {
      bridge = wlan_br_handle env r.server.bridge n r.slot.buf r.slot.peer_addr;
    };
  }

  -- `while (1)`, on fuel; both ways out of it end the loop.
  unfoldable pub drain_one : ℕ → Receiver T L S → Option (Receiver T L S)
  unfolding read_one handle_one
  drain_one zero r = none
  drain_one (suc fuel) r =
      let (n, r') = read_one r in
      let rest = drain_one fuel (handle_one (count_of n) r') in
      if is_nonpos n then some r' else rest

  -- The body of the loop over the events.
  unfoldable pub event_one : ℕ → Receiver T L S → Event → Option (Receiver T L S)
  unfolding drain_one
  event_one fuel r ev =
      if bit_and ev.events epollin == 0
      then some r
      else if ev.fd ==ℤ r.server.udp_sock_fd
      then drain_one fuel r
      else some r

  unfoldable pub events_one : ℕ → Receiver T L S → List Event → Option (Receiver T L S)
  unfolding event_one
  events_one fuel r [] = some r
  events_one fuel r (ev ∷ evs) = elim (event_one fuel r ev) [
    | none ↦ none
    | some r' ↦ events_one fuel r' evs
  ]

  -- `while (rx_task_is_running)`; on a timeout or an error there are no events to go through.
  unfoldable pub server_runing : ℕ → Receiver T L S → List Round → Option (Receiver T L S)
  unfolding events_one
  server_runing fuel r [] = some r
  server_runing fuel r (round ∷ rounds) =
      let next : Option (Receiver T L S) =
        elim (events_one fuel r (take (count_of round.nfds) round.evs)) [
          | none ↦ none
          | some r' ↦ server_runing fuel r' rounds
        ] in
      if round.signalled || not r.server.rx_task_is_running
      then some (record r { server = usr1_handler r.server })
      else next
