-- ===== src/Main/Start.antt =====
-- wlan_br_server/main.c: init_fun and main. Where the loop server_runing_burst stands here, the
-- wakeups and signals of its run are a parameter, as in Main.
pub mod Total
pub mod Fresh
pub mod Program
use wlan_bridge.Common.{
  ℕ, zero, suc, Bool, Option, none, some, List, [], ◌∷◌, ◌++◌, map, if◌then◌else◌, ℤ, pos, negsuc,
  ◌==ℤ◌, ◌+◌, ◌≡◌, ◌≤◌, ◌<◌,
}
use Prim.Native.Nat.{bit_or}
use mathlib.Core.Option
use wlan_bridge.Udp.{Slot}
use wlan_bridge.Udp.{create_udp_server, destroy_udp_server}
use wlan_bridge.Cli.Listen.{Listener, cli_main}
use wlan_bridge.Forward.{Env}
use wlan_bridge.Main.{Server, Round, no_events, server_runing_burst}

-- What main asks of the kernel beside the calls of udp.c and cli.c.
pub data StartCall : Type 0 where
  ignore_sigchld handle_sigusr1 : StartCall
  get_flags : ℤ → StartCall
  set_flags : ℤ → (flags : ℕ) → StartCall
  epoll_create : StartCall
  epoll_add : (epfd fd : ℤ) → (events : ℕ) → StartCall

-- The answers: the flags of a descriptor, and the descriptor that epoll_create returns; which calls of
-- malloc fail, and what the memory holds that the others return.
pub record System : Type 0 where
  pub flags_of : ℤ → ℕ
  pub epfd : ℤ
  pub malloc_fails : ℕ → Bool
  pub memory : ℕ → List ℕ

-- The whole program.
pub record Process (T L S : Type 0) : Type 0 where
  pub server : Server T L S
  pub listener : Listener
  pub epfd : ℤ
  pub calls : List StartCall

abbrev pub udp_port : ℕ
udp_port = 29870

-- O_NONBLOCK of <fcntl.h> and EPOLLIN | EPOLLET of <sys/epoll.h>
abbrev o_nonblock : ℕ
o_nonblock = 0x800

abbrev edge_triggered : ℕ
edge_triggered = 0x80000001

abbrev pub max_num : ℕ
max_num = 32

-- The receive buffers from the i-th on, `n` of them; none if a call of malloc fails.
unfoldable pub buffers : System → (i n : ℕ) → Option (List Slot)
buffers sys i zero = some []
buffers sys i (suc n) =
    let rest = buffers sys (suc i) n in
    if sys.malloc_fails i
    then none
    else Option.map
        (λ slots.
          record {
            buf = sys.memory i;
            data_len = 0;
            peer_addr = record { sin_family = 0; sin_port = 0; s_addr = 0 };
          }
          ∷ slots)
        rest

module _ {T L S : Type 0} (env : Env T L S) (sys : System) where
  -- server_runing_burst with the allocation before its loop.
  unfoldable pub run_bursts : ℕ → Server T L S → List Round → Option (Server T L S)
  unfolding buffers
  run_bursts fuel m rounds = elim (buffers sys 0 max_num) [
    | none ↦ some m
    | some slots ↦ server_runing_burst env fuel (record m { slots = slots }) rounds
  ]

  unfoldable init_fun : Server T L S → Server T L S
  init_fun m = record m { epoll_stat_info = no_events }

  -- Up to create_udp_server, that call included, whose result comes first.
  unfoldable pub start_up : Process T L S → ℤ × Process T L S
  unfolding init_fun
  start_up p =
      let m = init_fun p.server in
      let (fd, udp') = create_udp_server env.kernel m.bridge.udp udp_port in
      (
        fd,
        record p {
          server = record m { bridge = record m.bridge { udp = udp' }; udp_sock_fd = fd };
          listener = cli_main p.listener;
          calls = p.calls ++ ignore_sigchld ∷ handle_sigusr1 ∷ [];
        },
      )

  -- The socket becomes non-blocking, and epoll watches it.
  unfoldable pub watch : Process T L S → ℤ → Process T L S
  watch p fd = record p {
    epfd = sys.epfd;
    calls =
        p.calls
        ++ get_flags fd
          ∷ set_flags fd (bit_or (sys.flags_of fd) o_nonblock)
          ∷ epoll_create
          ∷ epoll_add sys.epfd fd edge_triggered
          ∷ [];
  }

  -- Behind the loop.
  unfoldable pub shut_down : Process T L S → Process T L S
  shut_down p = record p {
    server = record p.server {
      bridge = record p.server.bridge { udp = destroy_udp_server p.server.bridge.udp };
    };
  }

  -- The exit status and the process; `none` means that the loop ran out of fuel.
  unfoldable pub main : ℕ → List Round → Process T L S → Option (ℤ × Process T L S)
  unfolding start_up watch shut_down run_bursts
  main fuel rounds p =
      let (fd, p') = start_up p in
      let q = watch p' fd in
      if fd ==ℤ negsuc 0 then some (negsuc 0, p') else elim (run_bursts fuel q.server rounds) [
        | none ↦ none
        | some m ↦ some (pos 0, shut_down (record q { server = m }))
      ]
