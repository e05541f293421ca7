-- ===== src/Client/Running/Quiet.antt =====
-- The loop runing neither opens nor closes a descriptor.
use wlan_bridge.Common.{
  ℕ, zero, suc, ◌≡◌, refl, ◌∙◌, inl, inr, not, ◌||◌, List, [], ◌∷◌, ◌++◌, ◌==◌, Bool-cases,
  Option-cases, take, ℤ, pos, negsuc, ◌==ℤ◌, is_nonpos,
}
use Prim.Native.Nat.{bit_and}
use wlan_bridge.Main.{Event, Round, epollin}
use wlan_bridge.Client.{Kernel, Client, Call, called, write_to, read_from, recvfrom}
use wlan_bridge.Client.Udp.{send_data_use_udp, read_data_from_udp}
use wlan_bridge.Client.Tuntap.{send_data_use_tuntap, read_data_from_tuntap}
use wlan_bridge.Client.Tuntap.Setup.{after, held, held-called}
use wlan_bridge.Client.Running.{
  Buffers, max_data_len, len_of, from_tuntap, from_udp, on_event, on_events, count_recv, on_wakeup,
  runing,
}

module _ (kernel : Kernel) where
  -- From one state to another the open descriptors stay, and the two statics are the same.
  pub record Quiet (s t : Client) : Type 0 where
    pub open_fds : held kernel t.log ≡ held kernel s.log
    pub device : t.tun_fd ≡ s.tun_fd
    pub socket : t.udp_sock ≡ s.udp_sock

  Quiet-refl : (s : Client) → Quiet s s
  Quiet-refl s = record { open_fds = refl; device = refl; socket = refl }

  Quiet-trans : {s t u : Client} → Quiet s t → Quiet t u → Quiet s u
  Quiet-trans p q = record {
    open_fds = q.open_fds ∙ p.open_fds;
    device = q.device ∙ p.device;
    socket = q.socket ∙ p.socket;
  }

  -- A call that neither opens nor closes.
  called-Quiet :
      (s : Client) (c : Call)
      → ((ret : ℤ) (fds : List ℤ) → after ret c fds ≡ fds)
      → Quiet s (called s c)
  called-Quiet s c h = record {
    open_fds = held-called kernel s.log c ∙ h (kernel.ret (s.log ++ c ∷ [])) (held kernel s.log);
    device = refl;
    socket = refl;
  }

  read_tuntap_client :
      (s : Client) (n : ℕ) (buf : List ℕ)
      → (read_data_from_tuntap kernel s n buf).2 ≡ called s (read_from s.tun_fd n)
  unfolding read_data_from_tuntap
  read_tuntap_client s n buf =
      elim (Option-cases (kernel.got (s.log ++ read_from s.tun_fd n ∷ []))) [
        | inl e ↦ rw (e, read_data_from_tuntap) refl
        | inr (bytes, e) ↦ rw (e, read_data_from_tuntap) refl
      ]

  read_udp_client :
      (s : Client) (n : ℕ) (buf : List ℕ)
      → (read_data_from_udp kernel s n buf).2 ≡ called s (recvfrom s.udp_sock n)
  unfolding read_data_from_udp
  read_udp_client s n buf = elim (Option-cases (kernel.got (s.log ++ recvfrom s.udp_sock n ∷ []))) [
    | inl e ↦ rw (e, read_data_from_udp) refl
    | inr (bytes, e) ↦ rw (e, read_data_from_udp) refl
  ]

  send_udp-Quiet :
      (s : Client) (n : ℕ) (buf : List ℕ) → Quiet s (send_data_use_udp kernel s n buf).1
  unfolding send_data_use_udp
  send_udp-Quiet s n buf = called-Quiet s _ (λ r fds. refl)

  send_tuntap-Quiet :
      (s : Client) (n : ℕ) (buf : List ℕ) → Quiet s (send_data_use_tuntap kernel s n buf).1
  unfolding send_data_use_tuntap
  send_tuntap-Quiet s n buf =
      let c = write_to s.tun_fd n buf in
      let q : Quiet s (called s c) = called-Quiet s c (λ r fds. refl) in
      elim (Bool-cases (kernel.ret (s.log ++ c ∷ []) ==ℤ pos n)) [ inl e ↦ rw e q | inr e ↦ rw e q ]

  from_tuntap-Quiet : (s : Client) (b : Buffers) → Quiet s (from_tuntap kernel (s, b)).0
  unfolding from_tuntap
  from_tuntap-Quiet s b =
      let r = read_data_from_tuntap kernel s max_data_len b.tuntap_buf in
      let q : Quiet s (r.2) =
        rw (read_tuntap_client s max_data_len b.tuntap_buf) (called-Quiet s _ (λ r fds. refl)) in
      elim (Bool-cases (is_nonpos (r.0))) [
        | inl e ↦ rw (e, from_tuntap) q
        | inr e ↦ rw (e, from_tuntap) (Quiet-trans q (send_udp-Quiet (r.2) (len_of (r.0)) (r.1)))
      ]

  from_udp-Quiet : (s : Client) (b : Buffers) → Quiet s (from_udp kernel (s, b)).0
  unfolding from_udp
  from_udp-Quiet s b =
      let r = read_data_from_udp kernel s max_data_len b.udp_buf in
      let q : Quiet s (r.2) =
        rw (read_udp_client s max_data_len b.udp_buf) (called-Quiet s _ (λ r fds. refl)) in
      elim (Bool-cases (is_nonpos (r.0))) [
        | inl e ↦ rw (e, from_udp) q
        | inr e ↦ rw (e, from_udp) (Quiet-trans q (send_tuntap-Quiet (r.2) (len_of (r.0)) (r.1)))
      ]

  on_event-Quiet : (s : Client) (b : Buffers) (ev : Event) → Quiet s (on_event kernel (s, b) ev).0
  unfolding on_event
  on_event-Quiet s b ev = elim (Bool-cases (bit_and ev.events epollin == 0)) [
    | inl e ↦ rw e (Quiet-refl s)
    | inr e ↦ elim (Bool-cases (ev.fd ==ℤ s.tuntap_fd)) [
      | inl f ↦ rw (e, f) (from_tuntap-Quiet s b)
      | inr f ↦ elim (Bool-cases (ev.fd ==ℤ s.udp_sock_fd)) [
        | inl g ↦ rw (e, f, g) (from_udp-Quiet s b)
        | inr g ↦ rw (e, f, g) (Quiet-refl s)
      ]
    ]
  ]

  on_events-Quiet :
      (s : Client) (b : Buffers) (evs : List Event) → Quiet s (on_events kernel (s, b) evs).0
  unfolding on_events
  on_events-Quiet s b [] = Quiet-refl s
  on_events-Quiet s b (ev ∷ evs) =
      let r = on_event kernel (s, b) ev in
      Quiet-trans (on_event-Quiet s b ev) (on_events-Quiet (r.0) (r.1) evs)

  on_wakeup-Quiet :
      (s : Client) (b : Buffers) (nfds : ℤ) (evs : List Event)
      → Quiet s (on_wakeup kernel (s, b) nfds evs).0
  unfolding on_wakeup
  on_wakeup-Quiet s b (pos zero) evs = record { open_fds = refl; device = refl; socket = refl }
  on_wakeup-Quiet s b (pos (suc n)) evs =
      let q = on_events-Quiet (count_recv kernel s (suc n)) b (take (suc n) evs) in
      record { open_fds = q.open_fds; device = q.device; socket = q.socket }
  on_wakeup-Quiet s b (negsuc n) evs = record { open_fds = refl; device = refl; socket = refl }

  -- runing asks for no descriptor to be opened or closed, and keeps those of the two other files.
  pub runing-Quiet :
      (s : Client) (b : Buffers) (rounds : List Round) → Quiet s (runing kernel (s, b) rounds).0
  unfolding runing
  runing-Quiet s b [] = Quiet-refl s
  runing-Quiet s b (r ∷ rounds) = elim (Bool-cases (r.signalled || not s.rx_task_is_running)) [
    | inl e ↦ rw e (record { open_fds = refl; device = refl; socket = refl })
    | inr e ↦
        let w = on_wakeup kernel (s, b) r.nfds r.evs in
        rw e (Quiet-trans (on_wakeup-Quiet s b r.nfds r.evs) (runing-Quiet (w.0) (w.1) rounds))
  ]
