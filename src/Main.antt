-- ===== src/Main.antt =====
-- wlan_br_server/main.c: the receive loop server_runing_burst. What epoll_wait returns, and when the
-- signal that clears rx_task_is_running comes, is a list of rounds; the kernel answers the reads. The
-- inner loop, which reads until there is nothing left, runs on fuel.
use wlan_bridge.Common.{
  ℕ, zero, suc, ◌+◌, ◌%◌, Bool, false, not, ◌||◌, Option, none, some, List, [], ◌∷◌, map, u64_mod,
  ◌==◌, if◌then◌else◌, take, ℤ, pos, negsuc, ◌==ℤ◌, is_nonpos,
}
pub mod Drain
pub mod Run
pub mod Single
pub mod Start
pub mod Signal
pub mod Wakeup
pub mod Read
pub mod Steps
pub mod InRange
pub mod Account
pub mod Refines
pub mod Relay
use Prim.Native.Nat.{bit_and}
use wlan_bridge.Net.{SockaddrIn, Datagram}
use wlan_bridge.Udp.{Udp, Slot, read_data_from_udp_client_burst}
use wlan_bridge.Forward.{Env, Bridge, wlan_br_handle_burst}

pub record EpollStatInfo : Type 0 where
  pub epoll_timeout : ℕ
  pub epoll_error : ℕ
  pub epool_recv : ℕ

-- The statics of main.c, the state of the bridge behind it, and the loop's receive buffers.
pub record Server (T L S : Type 0) : Type 0 where
  pub bridge : Bridge T L S
  pub slots : List Slot
  pub epoll_stat_info : EpollStatInfo
  pub udp_sock_fd : ℤ
  pub rx_task_is_running : Bool

-- struct epoll_event
pub record Event : Type 0 where
  pub events : ℕ
  pub fd : ℤ

-- One turn of the outer loop: whether the signal comes before it, and what epoll_wait returns.
pub record Round : Type 0 where
  pub signalled : Bool
  pub nfds : ℤ
  pub evs : List Event

abbrev pub max_data_len : ℕ
max_data_len = 1518

abbrev pub epollin : ℕ
epollin = 1

-- The first `n` places, as wlan_br_handle_burst gets them.
unfoldable pub received : ℕ → List Slot → List Datagram
received n slots =
    map (λ s. record { len = s.data_len; buf = s.buf; addr = s.peer_addr }) (take n slots)

-- The first MAX_NUM arguments that the loop passes on.
abbrev pub count_of : ℤ → ℕ
count_of (pos n) = n
count_of (negsuc n) = 0

-- init_fun, and cmd_clean_epoll_stat of cli.c
abbrev pub no_events : EpollStatInfo
no_events = record { epoll_timeout = 0; epoll_error = 0; epool_recv = 0 }

-- The handler of SIGUSR1.
abbrev pub usr1_handler : {T L S : Type 0} → Server T L S → Server T L S
usr1_handler m = record m { rx_task_is_running = false }

module _ {T L S : Type 0} (env : Env T L S) where
  -- One read of the inner loop: its result, and the server with the places that it filled.
  unfoldable pub read : Server T L S → ℤ × Server T L S
  read m =
      let (n, slots', udp') =
        read_data_from_udp_client_burst env.kernel m.bridge.udp max_data_len m.slots in
      (n, record m { bridge = record m.bridge { udp = udp' }; slots = slots' })

  -- The bridge handles what was read.
  unfoldable pub pass_on : ℕ → Server T L S → Server T L S
  unfolding received
  pass_on n m = record m { bridge = wlan_br_handle_burst env m.bridge (received n m.slots) }

  -- `while (1)`; both ways out of it end the loop. `none` means that the fuel ran out.
  unfoldable pub drain : ℕ → Server T L S → Option (Server T L S)
  unfolding read pass_on
  drain zero m = none
  drain (suc fuel) m =
      let (n, m') = read m in
      let rest = drain fuel (pass_on (count_of n) m') in if is_nonpos n then some m' else rest

  -- The body of the loop over the events.
  unfoldable pub on_event : ℕ → Server T L S → Event → Option (Server T L S)
  unfolding drain
  on_event fuel m ev =
      if bit_and ev.events epollin == 0
      then some m
      else if ev.fd ==ℤ m.udp_sock_fd
      then drain fuel m
      else some m

  unfoldable pub on_events : ℕ → Server T L S → List Event → Option (Server T L S)
  unfolding on_event
  on_events fuel m [] = some m
  on_events fuel m (ev ∷ evs) = elim (on_event fuel m ev) [
    | none ↦ none
    | some m' ↦ on_events fuel m' evs
  ]

  unfoldable pub count_timeout : Server T L S → Server T L S
  count_timeout m = record m {
    epoll_stat_info = record m.epoll_stat_info {
      epoll_timeout = (m.epoll_stat_info.epoll_timeout + 1) % u64_mod;
    };
  }

  unfoldable pub count_error : Server T L S → Server T L S
  count_error m = record m {
    epoll_stat_info = record m.epoll_stat_info {
      epoll_error = (m.epoll_stat_info.epoll_error + 1) % u64_mod;
    };
  }

  unfoldable pub count_recv : Server T L S → ℕ → Server T L S
  count_recv m n = record m {
    epoll_stat_info = record m.epoll_stat_info {
      epool_recv = (m.epoll_stat_info.epool_recv + n) % u64_mod;
    };
  }

  -- What follows epoll_wait.
  unfoldable pub on_wakeup : ℕ → Server T L S → ℤ → List Event → Option (Server T L S)
  unfolding on_events count_timeout count_error count_recv
  on_wakeup fuel m (pos zero) evs = some (count_timeout m)
  on_wakeup fuel m (pos (suc n)) evs = on_events fuel (count_recv m (suc n)) (take (suc n) evs)
  on_wakeup fuel m (negsuc n) evs = some (count_error m)

  -- `while (rx_task_is_running)`. The signal comes before the test of a round; the end of the list is
  -- where a run is left that no signal has ended.
  unfoldable pub server_runing_burst : ℕ → Server T L S → List Round → Option (Server T L S)
  unfolding on_wakeup
  server_runing_burst fuel m [] = some m
  server_runing_burst fuel m (r ∷ rs) =
      let next : Option (Server T L S) = elim (on_wakeup fuel m r.nfds r.evs) [
        | none ↦ none
        | some m' ↦ server_runing_burst fuel m' rs
      ] in
      if r.signalled || not m.rx_task_is_running then some (usr1_handler m) else next
