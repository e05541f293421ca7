-- ===== src/Client/Start/Closing.antt =====
-- The client closes what it opened.
use mathlib.Core.Path.{subst}
use wlan_bridge.Common.{
  ℕ, ◌≡◌, refl, ap, ◌∙◌, inl, inr, true, false, none, some, List, [], ◌∷◌, ◌++◌, if◌then◌else◌,
  Bool-cases, ℤ, pos, negsuc, ◌==ℤ◌, is_nonpos,
}
use wlan_bridge.Main.{Round}
use wlan_bridge.Main.Start.{udp_port}
use wlan_bridge.Cli.{Text, codes}
use wlan_bridge.Client.{Kernel, Client, socket, close}
use wlan_bridge.Client.Udp.{create_udp_client, destroy_udp_client}
use wlan_bridge.Client.Tuntap.{setup_tuntap_device, create_tuntap, destroy_tuntap}
use wlan_bridge.Client.Tuntap.Setup.{
  acquire, release, held, release_below, held-called, held-close, setup-Balanced,
}
use wlan_bridge.Client.Running.{Buffers, runing, max_data_len}
use wlan_bridge.Client.Running.Quiet.{runing-Quiet}
use wlan_bridge.Main.Start.{handle_sigusr1}
use wlan_bridge.Client.Cli.Register.{cli_main}
use wlan_bridge.Client.Start.{
  Opt, Options, exits, overruns, names, System, Program, options_of, zeros, serve, connect,
  start_client, main,
}

module _ (kernel : Kernel) (sys : System) where
  -- A state where these descriptors are open.
  abbrev Holding : List ℤ → Client → Type 0
  Holding fds s = held kernel s.log ≡ fds

  destroy_tuntap-Holding :
      (s : Client) (fds : List ℤ)
      → (s.tun_fd ==ℤ negsuc 0) ≡ false
      → Holding (acquire s.udp_sock (acquire s.tun_fd fds)) s
      → Holding (acquire s.udp_sock fds) (destroy_tuntap s)
        × ((destroy_tuntap s).udp_sock ≡ s.udp_sock)
  unfolding destroy_tuntap
  destroy_tuntap-Holding s fds e h = rw e (
    held-called kernel s.log (close s.tun_fd)
        ∙ ap (release s.tun_fd) h
        ∙ release_below s.tun_fd s.udp_sock fds,
    refl,
  )

  destroy_udp-Holding :
      (s : Client) (fds : List ℤ)
      → (s.udp_sock ==ℤ negsuc 0) ≡ false
      → Holding (acquire s.udp_sock fds) s
      → Holding fds (destroy_udp_client s)
  unfolding destroy_udp_client
  destroy_udp-Holding s fds e h = rw e (held-close kernel s.log s.udp_sock fds h)

  serve-Holding :
      (p : Program) (rounds : List Round) (fds : List ℤ)
      → (p.client.tun_fd ==ℤ negsuc 0) ≡ false
      → (p.client.udp_sock ==ℤ negsuc 0) ≡ false
      → Holding (acquire p.client.udp_sock (acquire p.client.tun_fd fds)) p.client
      → Holding fds (serve kernel sys p rounds).1.client
  unfolding serve
  serve-Holding p rounds fds e f h =
      let buffers : Buffers = record {
        tuntap_buf = zeros max_data_len;
        udp_buf = zeros max_data_len;
      } in
      let c = (runing kernel (p.client, buffers) rounds).0 in
      let q = runing-Quiet kernel p.client buffers rounds in
      let d =
        destroy_tuntap-Holding c fds (rw (q.device) e) (rw (q.device, q.socket) (q.open_fds ∙ h)) in
      let g : (c.udp_sock ==ℤ negsuc 0) ≡ false = rw (q.socket) f in
      destroy_udp-Holding (destroy_tuntap c) fds (rw (d.1) g) (rw (d.1) (d.0))

  create_udp-Holding :
      (s : Client) (port ip : ℕ)
      → ((create_udp_client kernel s port ip).0 ==ℤ negsuc 0) ≡ false
      → let (fd, s') = create_udp_client kernel s port ip in
        Holding (acquire fd (held kernel s.log)) s' × (s'.udp_sock ≡ fd) × (s'.tun_fd ≡ s.tun_fd)
  unfolding create_udp_client
  create_udp-Holding s port ip e =
      elim (Bool-cases (kernel.ret (s.log ++ socket ∷ []) ==ℤ negsuc 0)) [
        | inl q ↦ let n : true ≡ false = rw q at e in cc
        | inr q ↦ rw q (held-called kernel s.log socket, refl, refl)
      ]

  module _ (p : Program) (server_addr : Text) (rounds : List Round) where
    -- The program with its UDP socket.
    abbrev connected : Program
    connected =
        let (fd, c) = create_udp_client kernel p.client udp_port (sys.inet_addr server_addr) in
        record p { client = record c { udp_sock_fd = fd } }

    abbrev connected_fd : ℤ
    connected_fd = (create_udp_client kernel p.client udp_port (sys.inet_addr server_addr)).0

    connect_step : connect kernel sys p server_addr rounds ≡ (
        if connected_fd ==ℤ negsuc 0
        then (negsuc 0, connected)
        else serve kernel sys connected rounds)
    unfolding connect
    connect_step = refl

    connect-Holding :
        (fds : List ℤ)
        → (p.client.tun_fd ==ℤ negsuc 0) ≡ false
        → Holding (acquire p.client.tun_fd fds) p.client
        → (connect kernel sys p server_addr rounds).0 ≡ pos 0
        → Holding fds (connect kernel sys p server_addr rounds).1.client
    connect-Holding fds e h z = elim (Bool-cases (connected_fd ==ℤ negsuc 0)) [
      | inl q ↦ let n : negsuc 0 ≡ pos 0 = rw (connect_step, q) at z in cc
      | inr q ↦
          let c = create_udp-Holding p.client udp_port (sys.inet_addr server_addr) q in
          rw (connect_step, q)
            (serve-Holding connected rounds fds (rw (c.2) e) (rw (c.1) q)
              (rw (c.1, c.2) (c.0 ∙ ap (acquire connected_fd) h)))
    ]

  create_tuntap-Holding :
      (s : Client) (dev : Text)
      → ((create_tuntap kernel s sys.rand dev).0 ==ℤ negsuc 0) ≡ false
      → let (fd, s') = create_tuntap kernel s sys.rand dev in
        Holding (acquire s'.tun_fd (held kernel s.log)) s' × (s'.tun_fd ≡ fd)
  unfolding create_tuntap
  create_tuntap-Holding s dev e =
      let b = setup-Balanced kernel s sys.rand dev in
      let r = setup_tuntap_device kernel s sys.rand dev in
      elim (Bool-cases (is_nonpos (r.0))) [
        | inl q ↦ let n : true ≡ false = rw q at e in cc
        | inr q ↦ rw q (b, refl)
      ]

  module _ (p : Program) (server_addr tap_name : Text) (rounds : List Round) where
    abbrev device_fd : ℤ
    device_fd = (create_tuntap kernel p.client sys.rand (tap_name ++ codes "0")).0

    -- The program with its device.
    abbrev attached : Program
    attached =
        let (fd, c) = create_tuntap kernel p.client sys.rand (tap_name ++ codes "0") in
        record p { client = record c { tuntap_fd = fd }; listener = cli_main p.listener }

    start_step : start_client kernel sys p server_addr tap_name rounds ≡ (
        if device_fd ==ℤ negsuc 0
        then (negsuc 0, attached)
        else connect kernel sys attached server_addr rounds)
    unfolding start_client
    start_step = refl

    start_client-Holding :
        (start_client kernel sys p server_addr tap_name rounds).0 ≡ pos 0
        → Holding
            (held kernel p.client.log)
            (start_client kernel sys p server_addr tap_name rounds).1.client
    start_client-Holding z = elim (Bool-cases (device_fd ==ℤ negsuc 0)) [
      | inl q ↦ let n : negsuc 0 ≡ pos 0 = rw (start_step, q) at z in cc
      | inr q ↦
          let c = create_tuntap-Holding p.client (tap_name ++ codes "0") q in
          let y : (connect kernel sys attached server_addr rounds).0 ≡ pos 0 =
            rw (start_step, q) at z in
          rw (start_step, q)
            (connect-Holding attached server_addr rounds (held kernel p.client.log) (rw (c.1) q)
              (c.0) y)
    ]

  main_step :
      (opts : List Opt) (p p' : Program) (rounds : List Round) (o : Options)
      → options_of opts ≡ o
      → main kernel sys opts p rounds ≡ some (pos 0, p')
      → Holding (held kernel p.client.log) p'.client
  unfolding main
  main_step opts p p' rounds exits q e =
      let p0 = record p { calls = p.calls ++ handle_sigusr1 ∷ [] } in
      let r : some (pos 0, p0) ≡ some (pos 0, p') = rw (q, main) at e in
      let same : p0 ≡ p' = cc in
      subst (λ (x : Program). Holding (held kernel p.client.log) x.client) same refl
  main_step opts p p' rounds overruns q e =
      let r : none ≡ some (pos 0, p') = rw (q, main) at e in cc (r)
  main_step opts p p' rounds (names server_addr tap_name) q e =
      let p0 = record p { calls = p.calls ++ handle_sigusr1 ∷ [] } in
      let r : some (start_client kernel sys p0 server_addr tap_name rounds) ≡ some (pos 0, p') =
        rw (q, main) at e in
      let same : start_client kernel sys p0 server_addr tap_name rounds ≡ (pos 0, p') = cc in
      subst (λ (x : ℤ × Program). Holding (held kernel p.client.log) x.1.client) same
        (start_client-Holding p0 server_addr tap_name rounds (ap (λ (x : ℤ × Program). x.0) same))

  -- When the client's main returns 0, just those descriptors are open that were open when it began:
  -- the device and the socket that it opened are closed. This is about the calls of tuntap.c and
  -- udp_client.c; the descriptor of epoll_create is not among them.
  pub main-closes :
      (opts : List Opt) (p p' : Program) (rounds : List Round)
      → main kernel sys opts p rounds ≡ some (pos 0, p')
      → held kernel p'.client.log ≡ held kernel p.client.log
  main-closes opts p p' rounds e = main_step opts p p' rounds (options_of opts) refl e
