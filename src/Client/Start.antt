-- ===== src/Client/Start.antt =====
-- wlan_br_client/main.c: the options, and main. getopt_long, inet_addr and rand are parameters: what
-- getopt_long returns, one option after another, is a list.
pub mod Limits
pub mod Closing
use wlan_bridge.Common.{
  ℕ, zero, suc, Option, none, some, List, [], ◌∷◌, ◌++◌, ltb, ◌==◌, if◌then◌else◌, length, ℤ, pos,
  negsuc, ◌==ℤ◌,
}
use wlan_bridge.Main.{Round, epollin}
use wlan_bridge.Main.Start.{StartCall, handle_sigusr1, epoll_create, epoll_add, udp_port}
use wlan_bridge.Cli.{Text, codes}
use wlan_bridge.Cli.Listen.{Listener}
use wlan_bridge.Client.Cli.Register.{cli_main}
use wlan_bridge.Client.{Kernel, Client}
use wlan_bridge.Client.Udp.{create_udp_client, destroy_udp_client}
use wlan_bridge.Client.Tuntap.{create_tuntap, destroy_tuntap}
use wlan_bridge.Client.Running.{Buffers, runing, max_data_len}

-- An option: -h, -s or -t with its argument, or another.
pub data Opt : Type 0 where
  help : Opt
  server : Text → Opt
  tap : Text → Opt
  other : Opt

-- What the options lead to: `usage` ends the program, strcpy leaves a buffer, which is undefined, or
-- server_addr and tap_name are set.
pub data Options : Type 0 where
  exits : Options
  overruns : Options
  names : (server_addr tap_name : Text) → Options

-- The sizes of server_addr and tap_name, the final NUL included.
abbrev pub server_size : ℕ
server_size = 20

abbrev pub tap_size : ℕ
tap_size = 16

-- The loop over the options.
unfoldable pub read_options : Text → Text → List Opt → Options
read_options server_addr tap_name [] = names server_addr tap_name
read_options server_addr tap_name (help ∷ rest) = exits
read_options server_addr tap_name (server optarg ∷ rest) =
    let next = read_options optarg tap_name rest in
    if ltb (length optarg) server_size then next else overruns
read_options server_addr tap_name (tap optarg ∷ rest) =
    let next = read_options server_addr optarg rest in
    if ltb (length optarg) tap_size then next else overruns
read_options server_addr tap_name (other ∷ rest) = read_options server_addr tap_name rest

-- SERVER_IP and TAP_NAME
abbrev pub server_ip : Text
server_ip = codes "172.16.123.137"

abbrev pub default_tap : Text
default_tap = codes "ttap"

unfoldable pub or_default : Text → Text → Text
or_default name default = if length name == 0 then default else name

unfoldable pub options_of : List Opt → Options
unfolding read_options or_default
options_of opts = elim (read_options [] [] opts) [
  | exits ↦ exits
  | overruns ↦ overruns
  | names server_addr tap_name ↦
      names (or_default server_addr server_ip) (or_default tap_name default_tap)
]

-- The answers of inet_addr, rand and epoll_create.
pub record System : Type 0 where
  pub inet_addr : Text → ℕ
  pub rand : ℕ → ℕ
  pub epfd : ℤ

-- The whole program.
pub record Program : Type 0 where
  pub client : Client
  pub listener : Listener
  pub epfd : ℤ
  pub calls : List StartCall

-- `unsigned char buf[n] = {0}`
unfoldable pub zeros : ℕ → List ℕ
zeros zero = []
zeros (suc n) = 0 ∷ zeros n

module _ (kernel : Kernel) (sys : System) where
  -- Both descriptors are watched, the loop runs, and both are closed.
  unfoldable pub serve : Program → List Round → ℤ × Program
  unfolding zeros
  serve p rounds =
      let buffers : Buffers = record {
        tuntap_buf = zeros max_data_len;
        udp_buf = zeros max_data_len;
      } in
      let c = (runing kernel (p.client, buffers) rounds).0 in
      (
        pos 0,
        record p {
          client = destroy_udp_client (destroy_tuntap c);
          epfd = sys.epfd;
          calls =
              p.calls
              ++ epoll_create
                ∷ epoll_add sys.epfd p.client.tuntap_fd epollin
                ∷ epoll_add sys.epfd p.client.udp_sock_fd epollin
                ∷ [];
        },
      )

  -- Behind create_tuntap.
  unfoldable pub connect : Program → Text → List Round → ℤ × Program
  unfolding serve
  connect p server_addr rounds =
      let (fd, c) = create_udp_client kernel p.client udp_port (sys.inet_addr server_addr) in
      let p' = record p { client = record c { udp_sock_fd = fd } } in
      if fd ==ℤ negsuc 0 then (negsuc 0, p') else serve p' rounds

  -- Behind the options. setup_tuntap_device prints the port, 0, behind the device's name.
  unfoldable pub start_client : Program → (server_addr tap_name : Text) → List Round → ℤ × Program
  unfolding connect
  start_client p server_addr tap_name rounds =
      let (fd, c) = create_tuntap kernel p.client sys.rand (tap_name ++ codes "0") in
      let p' = record p { client = record c { tuntap_fd = fd }; listener = cli_main p.listener } in
      if fd ==ℤ negsuc 0 then (negsuc 0, p') else connect p' server_addr rounds

  -- The exit status and the program; `none` where a buffer is overrun.
  unfoldable pub main : List Opt → Program → List Round → Option (ℤ × Program)
  unfolding options_of start_client
  main opts p rounds =
      let p' = record p { calls = p.calls ++ handle_sigusr1 ∷ [] } in
      elim (options_of opts) [
        | exits ↦ some (pos 0, p')
        | overruns ↦ none
        | names server_addr tap_name ↦ some (start_client p' server_addr tap_name rounds)
      ]
