-- ===== src/Main/Start/Total.antt =====
-- The server's main returns, with its socket closed.
use wlan_bridge.Common.{
  ℕ, ◌*◌, ◌≤◌, ◌<◌, ◌≡◌, refl, ap, ◌∙◌, inl, inr, false, Option, some, List, [], ◌∷◌, ◌++◌, arith,
  Option-cases, ℤ, pos, negsuc, ◌==ℤ◌,
}
use wlan_bridge.Udp.{
  Call, Udp, close, create_udp_server, destroy_udp_server, socket, bind, set_rcvbuf, set_sndbuf,
}
use wlan_bridge.Udp.{any_addr}
use wlan_bridge.Forward.{Env}
use wlan_bridge.Main.{Server, Round}
use wlan_bridge.Main.Drain.{Draining, Healthy, unread}
use wlan_bridge.Main.Run.{EndsWell, run-total}
use wlan_bridge.Main.Start.{
  System, Process, udp_port, start_up, watch, shut_down, buffers, max_num, run_bursts, main,
}

module _ {T L S : Type 0} (env : Env T L S) (left : List Call → ℕ)
    (k : Draining env.kernel left) where
  create-left : (s : Udp) (port : ℕ) → left (create_udp_server env.kernel s port).1.log ≤ left s.log
  unfolding create_udp_server
  create-left s port =
      let l = s.log ++ socket ∷ [] in
      let fd = env.kernel.socket_ret l in
      let l' = l ++ bind fd (any_addr port) ∷ [] in
      ground (
        arith,
        k.keeps s.log socket,
        k.keeps l (bind fd (any_addr port)),
        k.keeps l' (set_rcvbuf fd (1024 * 1024)),
        k.keeps (l' ++ set_rcvbuf fd (1024 * 1024) ∷ []) (set_sndbuf fd (1024 * 1024)),
      )

  create_socket :
      (s : Udp) (port : ℕ)
      → ((create_udp_server env.kernel s port).0 ==ℤ negsuc 0) ≡ false
      → (create_udp_server env.kernel s port).1.serv_sock ≡ (create_udp_server env.kernel s port).0
  unfolding create_udp_server
  create_socket s port h = ground (arith, h)

module _ {T L S : Type 0} (env : Env T L S) (left : List Call → ℕ) (k : Draining env.kernel left)
    (sys : System) where
  run_bursts-EndsWell :
      (fuel : ℕ) (m : Server T L S) (rounds : List Round)
      → Healthy env left m
      → unread env left m < fuel
      → EndsWell env left k m (run_bursts env sys fuel m rounds)
  unfolding run_bursts
  run_bursts-EndsWell fuel m rounds v lt = elim (Option-cases (buffers sys 0 max_num)) [
    | inl e ↦ (m, rw (e, run_bursts) refl, v, omega arith, refl)
    | inr (slots, e) ↦
        rw (e, run_bursts) (run-total env left k fuel (record m { slots = slots }) rounds v lt)
  ]

  -- A process whose socket is closed.
  destroy_lem :
      (s : Udp)
      → (s.serv_sock ==ℤ negsuc 0) ≡ false
      → destroy_udp_server s
        ≡ record { serv_sock = negsuc 0; log = s.log ++ close s.serv_sock ∷ [] }
  unfolding destroy_udp_server
  destroy_lem s h = ground (arith, h)

  -- What main returns when its socket is there, and the loop before it.
  pub record Served (fuel : ℕ) (rounds : List Round) (p : Process T L S) (fd : ℤ)
      (o : Option (ℤ × Process T L S)) : Type 0 where
    pub last : Process T L S
    pub result : o ≡ some (pos 0, last)
    pub loop : Server T L S
    pub ran : run_bursts env sys fuel (start_up env sys p).1.server rounds ≡ some loop
    pub healthy : Healthy env left last.server
    pub tables : last.server.bridge ≡ record loop.bridge { udp = last.server.bridge.udp }
    pub reset : last.server.bridge.udp.serv_sock ≡ negsuc 0
    pub closed : last.server.bridge.udp.log ≡ loop.bridge.udp.log ++ close fd ∷ []

  pub main-Served :
      (fuel : ℕ) (rounds : List Round) (p : Process T L S)
      → Healthy env left p.server
      → unread env left p.server < fuel
      → ((create_udp_server env.kernel p.server.bridge.udp udp_port).0 ==ℤ negsuc 0) ≡ false
      → Served fuel rounds p
          (create_udp_server env.kernel p.server.bridge.udp udp_port).0
          (main env sys fuel rounds p)
  unfolding main watch shut_down
  main-Served fuel rounds p v lt h =
      let fd = (create_udp_server env.kernel p.server.bridge.udp udp_port).0 in
      let q = watch env sys (start_up env sys p).1 fd in
      let r =
        run_bursts-EndsWell fuel q.server rounds v
          (omega (arith, create-left env left k p.server.bridge.udp udp_port)) in
      let m = r.0 in
      let same : m.bridge.udp.serv_sock ≡ fd =
        r.4 ∙ create_socket env left k p.server.bridge.udp udp_port h in
      let d = destroy_lem m.bridge.udp (rw same h) in
      record {
        last = shut_down env sys (record q { server = m });
        result = rw (h, r.1) refl;
        loop = m;
        ran = r.1;
        healthy = r.2;
        tables = refl;
        reset = ap (λ (u : Udp). u.serv_sock) d;
        closed = ap (λ (u : Udp). u.log) d ∙ rw same refl;
      }
