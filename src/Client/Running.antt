-- ===== src/Client/Running.antt =====
-- wlan_br_client/main.c: the receive loop runing. It carries a frame at a time, from the device to the
-- server and from the server to the device. What epoll_wait returns, and when the signal comes, is a
-- list of rounds.
pub mod Carry
pub mod Quiet
pub mod Relay
use wlan_bridge.Common.{
  ℕ, zero, suc, ◌+◌, ◌%◌, false, not, ◌||◌, List, [], ◌∷◌, u64_mod, ◌==◌, if◌then◌else◌, take, ℤ,
  pos, negsuc, ◌==ℤ◌, is_nonpos,
}
use Prim.Native.Nat.{bit_and}
use wlan_bridge.Main.{Event, Round, epollin}
use wlan_bridge.Client.{Kernel, Client}
use wlan_bridge.Client.Udp.{send_data_use_udp, read_data_from_udp}
use wlan_bridge.Client.Tuntap.{send_data_use_tuntap, read_data_from_tuntap}

abbrev pub max_data_len : ℕ
max_data_len = 1518

-- The loop's two buffers, tuntap_buf and udp_buf.
pub record Buffers : Type 0 where
  pub tuntap_buf : List ℕ
  pub udp_buf : List ℕ

-- The length that a positive result stands for, as the senders get it.
abbrev pub len_of : ℤ → ℕ
len_of (pos n) = n
len_of (negsuc n) = 0

-- The handler of SIGUSR1.
abbrev pub usr1_handler : Client → Client
usr1_handler s = record s { rx_task_is_running = false }

module _ (kernel : Kernel) where
  -- A frame that the device has; a failed send is only logged.
  unfoldable pub from_tuntap : Client × Buffers → Client × Buffers
  from_tuntap (s, b) =
      let (len, buf, s') = read_data_from_tuntap kernel s max_data_len b.tuntap_buf in
      let b' = record b { tuntap_buf = buf } in
      if is_nonpos len then (s', b') else ((send_data_use_udp kernel s' (len_of len) buf).1, b')

  -- A frame that the server has sent.
  unfoldable pub from_udp : Client × Buffers → Client × Buffers
  from_udp (s, b) =
      let (recv_len, buf, s') = read_data_from_udp kernel s max_data_len b.udp_buf in
      let b' = record b { udp_buf = buf } in
      if is_nonpos recv_len
      then (s', b')
      else ((send_data_use_tuntap kernel s' (len_of recv_len) buf).1, b')

  -- The body of the loop over the events.
  unfoldable pub on_event : Client × Buffers → Event → Client × Buffers
  unfolding from_tuntap from_udp
  on_event (s, b) ev =
      if bit_and ev.events epollin == 0
      then (s, b)
      else if ev.fd ==ℤ s.tuntap_fd
      then from_tuntap (s, b)
      else if ev.fd ==ℤ s.udp_sock_fd
      then from_udp (s, b)
      else (s, b)

  unfoldable pub on_events : Client × Buffers → List Event → Client × Buffers
  unfolding on_event
  on_events sb [] = sb
  on_events sb (ev ∷ evs) = on_events (on_event sb ev) evs

  unfoldable pub count_timeout : Client → Client
  count_timeout s = record s {
    epoll_stat_info = record s.epoll_stat_info {
      epoll_timeout = (s.epoll_stat_info.epoll_timeout + 1) % u64_mod;
    };
  }

  unfoldable pub count_error : Client → Client
  count_error s = record s {
    epoll_stat_info = record s.epoll_stat_info {
      epoll_error = (s.epoll_stat_info.epoll_error + 1) % u64_mod;
    };
  }

  unfoldable pub count_recv : Client → ℕ → Client
  count_recv s n = record s {
    epoll_stat_info = record s.epoll_stat_info {
      epool_recv = (s.epoll_stat_info.epool_recv + n) % u64_mod;
    };
  }

  -- What follows epoll_wait.
  unfoldable pub on_wakeup : Client × Buffers → ℤ → List Event → Client × Buffers
  unfolding on_events count_timeout count_error count_recv
  on_wakeup (s, b) (pos zero) evs = (count_timeout s, b)
  on_wakeup (s, b) (pos (suc n)) evs = on_events (count_recv s (suc n), b) (take (suc n) evs)
  on_wakeup (s, b) (negsuc n) evs = (count_error s, b)

  -- `while (rx_task_is_running)`. The signal comes before the test of a round; the end of the list is
  -- where a run is left that no signal has ended.
  unfoldable pub runing : Client × Buffers → List Round → Client × Buffers
  unfolding on_wakeup
  runing sb [] = sb
  runing (s, b) (r ∷ rs) =
      let rest = runing (on_wakeup (s, b) r.nfds r.evs) rs in
      if r.signalled || not s.rx_task_is_running then (usr1_handler s, b) else rest
